-- ===== src/Gateway/Factory.antt =====
-- How a gateway is made: load_cfg, open_can, the constructor and destructor, and make_can_gateway
-- of can_gateway/src/gateway.cpp. What the system answers is an argument.
pub mod Made
use minimal_autosar_adaptive.Prelude.{
  ℕ, ◌≡◌, ◌⊎◌, refl, Bool, true, false, ◌&&◌, not, nat_eq, String, Option, none, some, arith,
  if◌then◌else◌, ◌>>=◌, inl, inr,
}
use minimal_autosar_adaptive.Prelude.Int.{ℤ, pos}
use minimal_autosar_adaptive.Core.Json.{Json}
use minimal_autosar_adaptive.Gateway.{
  TxMap, Cfg, BusToFunction, CanGateway, CanFrame, LightPattern, ActuatorCommand, send_indicator,
  send_actuator, light_code, actuator_code, zeros,
}

-- What load_cfg does: nullopt, an exception, or a configuration.
pub data CfgRead : Type 0 where
  not_found : CfgRead
  thrown : CfgRead
  read : Cfg → CfgRead

abbrev pub default_iface : String
default_iface = "vcan0"

module _ {J : Type 0} (json : Json J) where
  -- j[a][b]: what is missing becomes null, which no get<…>() reads.
  unfoldable pub inside : String → String → J → Option J
  inside a b j = do x ← json.get a j; json.get b x

  unfoldable pub iface_of : J → Option String
  iface_of j = elim (json.get "iface" j) [ none ↦ some default_iface | some x ↦ json.as_string x ]

  -- The identifier and the length of one of the frames that are sent.
  unfoldable pub frame_of : String → J → Option (ℕ × ℕ)
  unfolding inside
  frame_of name j = do
    x ← inside "tx" name j
    id_node ← json.get "can_id" x
    id ← json.as_u32 id_node
    dlc_node ← json.get "dlc" x
    dlc ← json.as_u8 dlc_node
    some (id, dlc)

  unfoldable pub tx_of : J → Option TxMap
  unfolding frame_of
  tx_of j = do
    (ind, ind_dlc) ← frame_of "LightPattern" j
    (act, act_dlc) ← frame_of "ActuatorCommand" j
    some (record { ind_canid = ind; act_canid = act; ind_dlc = ind_dlc; act_dlc = act_dlc })

  -- The identifier and the bit of one line: the defaults where the configuration has none.
  unfoldable pub line_of : String → ℤ → J → Option (Option ℕ × ℤ)
  unfolding inside
  line_of name bit j = elim (inside "rx" name j) [
    | none ↦ some (none, bit)
    | some x ↦ do
      id_node ← json.get "can_id" x
      id ← json.as_u32 id_node
      bit_node ← json.get "bit" x
      n ← json.as_int bit_node
      some (some id, n)
  ]

  unfoldable pub cfg_of : J → Option CfgRead
  unfolding iface_of tx_of line_of
  cfg_of j = do
    iface ← iface_of j
    tx ← tx_of j
    (a_id, a_bit) ← line_of "LineA" (pos 0) j
    (b_id, b_bit) ← line_of "LineB" (pos 1) j
    some (
        read (record {
          iface = iface;
          tx = tx;
          rx = record {
            line_a_id = a_id;
            line_a_bit = a_bit;
            line_b_id = b_id;
            line_b_bit = b_bit;
          };
        }))

  -- The file is `none` where it does not open, and `some none` where it does not parse.
  unfoldable pub load_cfg : Option (Option J) → CfgRead
  unfolding cfg_of
  load_cfg none = not_found
  load_cfg (some none) = thrown
  load_cfg (some (some j)) = elim (cfg_of j) [ none ↦ thrown | some c ↦ c ]

-- What socket, ioctl and bind answer for an interface.
pub record CanSocket : Type 0 where
  pub opens : Bool
  pub finds : String → Bool
  pub binds : Bool

-- Whether a socket is returned, and how many stay open.
unfoldable pub open_can : CanSocket → String → Bool × ℕ
open_can s iface =
    if not s.opens
    then (false, 0)
    else if not (s.finds iface)
    then (false, 0)
    else if not s.binds
    then (false, 0)
    else (true, 1)

-- The constructor.
unfoldable pub new_gateway : CanSocket → Cfg → BusToFunction → CanGateway
unfolding open_can
new_gateway s cfg bus2fn = record { cfg = cfg; bus2fn = bus2fn; is_open = (open_can s cfg.iface).0 }

-- What make_can_gateway does with the configuration: the static gateway afterwards, and whether the
-- handle has its two functions, which use the static gateway. `none` is an exception.
unfoldable pub hand_out :
    CanSocket → BusToFunction → Option CanGateway → CfgRead → Option (Option CanGateway × Bool)
unfolding new_gateway
hand_out s bus2fn gw not_found = some (gw, false)
hand_out s bus2fn gw thrown = none
hand_out s bus2fn gw (read cfg) = some (some (new_gateway s cfg bus2fn), true)

unfoldable pub make_can_gateway :
    {J : Type 0}
    → Json J
    → CanSocket
    → Option (Option J)
    → BusToFunction
    → Option CanGateway
    → Option (Option CanGateway × Bool)
unfolding hand_out load_cfg
make_can_gateway json s file bus2fn gw = hand_out s bus2fn gw (load_cfg json file)

-- The functions of a handle; through no gateway the call is undefined.
unfoldable pub emit_light : LightPattern → Option CanGateway → Option (Option CanFrame)
emit_light p none = none
emit_light p (some gw) = some (send_indicator p gw)

unfoldable pub emit_actuator : ActuatorCommand → Option CanGateway → Option (Option CanFrame)
emit_actuator c none = none
emit_actuator c (some gw) = some (send_actuator c gw)
