-- ===== src/Gateway.antt =====
-- The CAN gateway: can_gateway/src/gateway.cpp and can_gateway/include/function_bus_api.hpp. The
-- socket enters as whether it is open and as the frames that are read from it; a read that fails
-- or is short changes nothing. A callback that is called comes back as a `Line` with its value.
pub mod Factory
pub mod Lines
use minimal_autosar_adaptive.Prelude.Int.{ℤ, pos, negsuc}
use minimal_autosar_adaptive.Prelude.{
  ltb, ◌>>=◌, refl, Bool-cases, inl, inr, ℕ, ◌+◌, ◌/◌, ◌%◌, ◌^◌, ◌≡◌, Bool, true, false, ◌&&◌,
  nat_eq, ◌==◌, beq_refl, Bytes, String, List, [], ◌∷◌, ◌++◌, Option, none, some, arith,
  if◌then◌else◌,
}

pub data LightPattern : Type 0 where
  off blink_once blink_twice blink_fast : LightPattern

pub data ActuatorCommand : Type 0 where
  neutral action_a action_b : ActuatorCommand

unfoldable pub light_code : LightPattern → ℕ
light_code off = 0
light_code blink_once = 1
light_code blink_twice = 2
light_code blink_fast = 3

unfoldable pub actuator_code : ActuatorCommand → ℕ
actuator_code neutral = 0
actuator_code action_a = 1
actuator_code action_b = 2

pub record TxMap : Type 0 where
  pub ind_canid : ℕ
  pub act_canid : ℕ
  pub ind_dlc : ℕ
  pub act_dlc : ℕ

pub record RxMap : Type 0 where
  pub line_a_id : Option ℕ
  pub line_a_bit : ℤ
  pub line_b_id : Option ℕ
  pub line_b_bit : ℤ

pub record Cfg : Type 0 where
  pub iface : String
  pub tx : TxMap
  pub rx : RxMap

-- A struct can_frame; `data` are its eight bytes.
pub record CanFrame : Type 0 where
  pub can_id : ℕ
  pub can_dlc : ℕ
  pub data0 : ℕ
  pub data_rest : Bytes

abbrev pub zeros : Bytes
zeros = 0 ∷ 0 ∷ 0 ∷ 0 ∷ 0 ∷ 0 ∷ 0 ∷ []

-- Whether the application gave setLineA and setLineB.
pub record BusToFunction : Type 0 where
  pub has_line_a : Bool
  pub has_line_b : Bool

pub record CanGateway : Type 0 where
  pub cfg : Cfg
  pub bus2fn : BusToFunction
  -- sock_ >= 0
  pub is_open : Bool

-- The frame that is written, or none.
unfoldable pub send_indicator : LightPattern → CanGateway → Option CanFrame
unfolding light_code
send_indicator p g =
    if g.is_open
    then some (record {
      can_id = g.cfg.tx.ind_canid;
      can_dlc = g.cfg.tx.ind_dlc;
      data0 = light_code p;
      data_rest = zeros;
    })
    else none

unfoldable pub send_actuator : ActuatorCommand → CanGateway → Option CanFrame
unfolding actuator_code
send_actuator c g =
    if g.is_open
    then some (record {
      can_id = g.cfg.tx.act_canid;
      can_dlc = g.cfg.tx.act_dlc;
      data0 = actuator_code c;
      data_rest = zeros;
    })
    else none

pub data Line : Type 0 where
  set_line_a set_line_b : Bool → Line

-- What an int can be shifted by: by anything else the shift is undefined.
unfoldable pub as_shift : ℤ → Option ℕ
as_shift (pos n) = if ltb n 32 then some n else none
as_shift (negsuc n) = none

abbrev pub bit_of : ℕ → CanFrame → Bool
bit_of k f = f.data0 / 2 ^ k % 2 == 1

-- (f.data[0] >> bit) & 0x1
unfoldable pub line_value : ℤ → CanFrame → Option Bool
unfolding as_shift
line_value bit f = elim (as_shift bit) [ none ↦ none | some k ↦ some (bit_of k f) ]

unfoldable pub is_id : CanFrame → Option ℕ → Bool
is_id f none = false
is_id f (some id) = f.can_id == id

-- What a frame does for one line: the shift is made whether or not there is a callback.
unfoldable pub on_line : (Bool → Line) → Bool → Option ℕ → ℤ → CanFrame → Option (List Line)
unfolding line_value is_id
on_line line has_callback id bit f =
    if is_id f id
    then (elim (line_value bit f) [
      | none ↦ none
      | some v ↦ some (if has_callback then line v ∷ [] else [])
    ])
    else some []

-- The body of rx_loop, after a whole frame was read. `none` is an undefined shift.
unfoldable pub receive : CanFrame → CanGateway → Option (List Line)
unfolding on_line
receive f g = do
  a ← on_line set_line_a g.bus2fn.has_line_a g.cfg.rx.line_a_id g.cfg.rx.line_a_bit f
  b ← on_line set_line_b g.bus2fn.has_line_b g.cfg.rx.line_b_id g.cfg.rx.line_b_bit f
  some (a ++ b)

unfoldable pub rx_loop : List CanFrame → CanGateway → Option (List Line)
unfolding receive
rx_loop [] g = some []
rx_loop (f ∷ fs) g =
    let rest = rx_loop fs g in
    if g.is_open then (do lines ← receive f g; more ← rest; some (lines ++ more)) else some []
