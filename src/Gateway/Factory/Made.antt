-- ===== src/Gateway/Factory/Made.antt =====
-- What the handle of a gateway does, by the file that it is made from.
use minimal_autosar_adaptive.Prelude.{
  ℕ, ◌≡◌, ◌⊎◌, refl, subst, Bool, true, false, ◌&&◌, String, List, [], ◌∷◌, Option, none, some,
  arith, if◌then◌else◌, Option-cases, inl, inr,
}
use minimal_autosar_adaptive.Prelude.Int.{ℤ, pos}
use minimal_autosar_adaptive.Core.Json.{Json}
use minimal_autosar_adaptive.Gateway.{
  TxMap, RxMap, Cfg, BusToFunction, CanGateway, CanFrame, LightPattern, off, blink_once,
  blink_twice, blink_fast, ActuatorCommand, neutral, action_a, action_b, send_indicator,
  send_actuator, light_code, actuator_code, zeros,
}
use minimal_autosar_adaptive.Gateway.Factory.{
  CfgRead, read, inside, iface_of, frame_of, tx_of, line_of, cfg_of, load_cfg, CanSocket, open_can,
  new_gateway, hand_out, make_can_gateway, emit_light, emit_actuator,
}

module _ {J : Type 0} (json : Json J) where
  -- The value at the end of a path of keys.
  pub at_path : List String → J → Option J
  at_path [] j = some j
  at_path (k ∷ ks) j = elim (json.get k j) [ none ↦ none | some x ↦ at_path ks x ]

  pub read_at {ℓ} : {A : Type ℓ} → (J → Option A) → List String → J → Option A
  read_at get ks j = elim (at_path ks j) [ none ↦ none | some x ↦ get x ]

  -- What the document says of a frame that is sent.
  pub record IsFrame (name : String) (j : J) (id dlc : ℕ) : Type 0 where
    pub id_read : read_at json.as_u32 ("tx" ∷ name ∷ "can_id" ∷ []) j ≡ some id
    pub dlc_read : read_at json.as_u8 ("tx" ∷ name ∷ "dlc" ∷ []) j ≡ some dlc

  -- What it says of a line: nothing, so that there is none, or its identifier and its bit.
  pub IsLine : String → ℤ → J → Option ℕ → ℤ → Type 0
  IsLine name default j id bit =
      ((at_path ("rx" ∷ name ∷ []) j ≡ none) × (id ≡ none) × (bit ≡ default))
      ⊎ ((n : ℕ) × (id ≡ some n)
          × (read_at json.as_u32 ("rx" ∷ name ∷ "can_id" ∷ []) j ≡ some n)
          × (read_at json.as_int ("rx" ∷ name ∷ "bit" ∷ []) j ≡ some bit))

  -- A configuration is that of the document.
  pub record IsConfigured (j : J) (c : Cfg) : Type 0 where
    pub iface :
        ((json.get "iface" j ≡ none) × (c.iface ≡ "vcan0"))
        ⊎ (read_at json.as_string ("iface" ∷ []) j ≡ some c.iface)
    pub light : IsFrame "LightPattern" j c.tx.ind_canid c.tx.ind_dlc
    pub actuator : IsFrame "ActuatorCommand" j c.tx.act_canid c.tx.act_dlc
    pub line_a : IsLine "LineA" (pos 0) j c.rx.line_a_id c.rx.line_a_bit
    pub line_b : IsLine "LineB" (pos 1) j c.rx.line_b_id c.rx.line_b_bit

  frame_of-IsFrame :
      (name : String) (j : J) (id dlc : ℕ)
      → frame_of json name j ≡ some (id, dlc)
      → IsFrame name j id dlc
  unfolding frame_of inside read_at at_path
  frame_of-IsFrame name j id dlc h = record { id_read = ground arith; dlc_read = ground arith }

  line_of-IsLine :
      (name : String) (default : ℤ) (j : J) (id : Option ℕ) (bit : ℤ)
      → line_of json name default j ≡ some (id, bit)
      → IsLine name default j id bit
  unfolding line_of inside read_at at_path IsLine
  line_of-IsLine name default j id bit h = elim (Option-cases (at_path ("rx" ∷ name ∷ []) j)) [
    | inl e ↦ inl (e, ground (arith, e, h), ground (arith, e, h))
    | inr (x, e) ↦ elim (Option-cases (read_at json.as_u32 ("rx" ∷ name ∷ "can_id" ∷ []) j)) [
      | inl f ↦ absurd (ground (arith, e, f, h))
      | inr (n, f) ↦ inr (n, ground (arith, e, f, h), f, ground (arith, e, f, h))
    ]
  ]

  iface_of_lem :
      (j : J) (iface : String)
      → iface_of json j ≡ some iface
      → ((json.get "iface" j ≡ none) × (iface ≡ "vcan0"))
        ⊎ (read_at json.as_string ("iface" ∷ []) j ≡ some iface)
  unfolding iface_of read_at at_path
  iface_of_lem j iface h = elim (Option-cases (json.get "iface" j)) [
    | inl e ↦ inl (e, ground (arith, e, h))
    | inr (x, e) ↦ inr (ground (arith, e, h))
  ]

  tx_of-IsFrame :
      (j : J) (tx : TxMap)
      → tx_of json j ≡ some tx
      → IsFrame "LightPattern" j tx.ind_canid tx.ind_dlc
        × IsFrame "ActuatorCommand" j tx.act_canid tx.act_dlc
  unfolding tx_of
  tx_of-IsFrame j tx h = (
    frame_of-IsFrame "LightPattern" j tx.ind_canid tx.ind_dlc (ground (arith, h)),
    frame_of-IsFrame "ActuatorCommand" j tx.act_canid tx.act_dlc (ground (arith, h)),
  )

  cfg_of-IsConfigured :
      (j : J) (c : CfgRead)
      → cfg_of json j ≡ some c
      → (cfg : Cfg) × (c ≡ read cfg) × IsConfigured j cfg
  unfolding cfg_of
  cfg_of-IsConfigured j c h = elim (Option-cases (iface_of json j)) [
    | inl e ↦ absurd (ground (arith, e, h))
    | inr (iface, e) ↦ elim (Option-cases (tx_of json j)) [
      | inl f ↦ absurd (ground (arith, e, f, h))
      | inr (tx, f) ↦ elim (Option-cases (line_of json "LineA" (pos 0) j)) [
        | inl a ↦ absurd (ground (arith, e, f, a, h))
        | inr ((a_id, a_bit), a) ↦ elim (Option-cases (line_of json "LineB" (pos 1) j)) [
          | inl b ↦ absurd (ground (arith, e, f, a, b, h))
          | inr ((b_id, b_bit), b) ↦
              let rx : RxMap = record {
                line_a_id = a_id;
                line_a_bit = a_bit;
                line_b_id = b_id;
                line_b_bit = b_bit;
              } in
              let frames = tx_of-IsFrame j tx f in
              (
                record { iface = iface; tx = tx; rx = rx },
                ground (arith, e, f, a, b, h),
                record {
                  iface = iface_of_lem j iface e;
                  light = frames.0;
                  actuator = frames.1;
                  line_a = line_of-IsLine "LineA" (pos 0) j a_id a_bit a;
                  line_b = line_of-IsLine "LineB" (pos 1) j b_id b_bit b;
                },
              )
        ]
      ]
    ]
  ]

-- A frame that carries one number.
abbrev pub sent : ℕ → ℕ → ℕ → CanFrame
sent id dlc code = record { can_id = id; can_dlc = dlc; data0 = code; data_rest = zeros }

-- What stands in the first byte for a pattern and for a command.
pub light_byte : LightPattern → ℕ
light_byte off = 0
light_byte blink_once = 1
light_byte blink_twice = 2
light_byte blink_fast = 3

pub actuator_byte : ActuatorCommand → ℕ
actuator_byte neutral = 0
actuator_byte action_a = 1
actuator_byte action_b = 2

light_code-light_byte : (p : LightPattern) → light_code p ≡ light_byte p
unfolding light_code light_byte
light_code-light_byte off = refl
light_code-light_byte blink_once = refl
light_code-light_byte blink_twice = refl
light_code-light_byte blink_fast = refl

actuator_code-actuator_byte : (c : ActuatorCommand) → actuator_code c ≡ actuator_byte c
unfolding actuator_code actuator_byte
actuator_code-actuator_byte neutral = refl
actuator_code-actuator_byte action_a = refl
actuator_code-actuator_byte action_b = refl

-- Whether the interface of a configuration can be opened.
abbrev pub reachable : CanSocket → Cfg → Bool
reachable s cfg = s.opens && (s.finds cfg.iface && s.binds)

-- A gateway and a handle with a configuration.
pub record Works (s : CanSocket) (cfg : Cfg) (gw : Option CanGateway) : Type 0 where
  pub configured : (g : CanGateway) × (gw ≡ some g) × (g.cfg ≡ cfg)
  pub light :
      (p : LightPattern)
      → emit_light p gw
        ≡ some (
            if reachable s cfg
            then some (sent cfg.tx.ind_canid cfg.tx.ind_dlc (light_byte p))
            else none)
  pub actuator :
      (c : ActuatorCommand)
      → emit_actuator c gw
        ≡ some (
            if reachable s cfg
            then some (sent cfg.tx.act_canid cfg.tx.act_dlc (actuator_byte c))
            else none)

new_gateway-Works :
    (s : CanSocket) (cfg : Cfg) (bus2fn : BusToFunction)
    → Works s cfg (some (new_gateway s cfg bus2fn))
unfolding new_gateway open_can emit_light emit_actuator send_indicator send_actuator
new_gateway-Works s cfg bus2fn = record {
  configured = (_, refl, refl);
  light = λ p. ground (arith, light_code-light_byte p);
  actuator = λ c. ground (arith, actuator_code-actuator_byte c);
}

-- What comes of a file.
abbrev pub Hands :
    {J : Type 0}
    → Json J
    → CanSocket
    → Option (Option J)
    → Option CanGateway
    → Option CanGateway
    → Bool
    → Type 0
Hands json s file old gw handle =
    ((file ≡ none) × (handle ≡ false) × (gw ≡ old))
    ⊎ ((j : _) × (cfg : Cfg) × (file ≡ some (some j))
        × (handle ≡ true)
        × IsConfigured json j cfg
        × Works s cfg gw)

pub make_can_gateway-Hands :
    {J : Type 0} (json : Json J) (s : CanSocket) (file : Option (Option J)) (bus2fn : BusToFunction)
    (old gw : Option CanGateway) (handle : Bool)
    → make_can_gateway json s file bus2fn old ≡ some (gw, handle)
    → Hands json s file old gw handle
unfolding make_can_gateway load_cfg hand_out
make_can_gateway-Hands json s none bus2fn old gw handle h = inl (refl, ground arith, ground arith)
make_can_gateway-Hands json s (some none) bus2fn old gw handle h = absurd (ground arith)
make_can_gateway-Hands json s (some (some j)) bus2fn old gw handle h =
    elim (Option-cases (cfg_of json j)) [
      | inl e ↦ absurd (ground (arith, e, h))
      | inr (c, e) ↦
          let (cfg, is_read, configured) = cfg_of-IsConfigured json j c e in
          let made : some (new_gateway s cfg bus2fn) ≡ gw = ground (arith, e, is_read, h) in
          inr (
            j,
            cfg,
            refl,
            ground (arith, e, is_read, h),
            configured,
            subst (Works s cfg) made (new_gateway-Works s cfg bus2fn),
          )
    ]
