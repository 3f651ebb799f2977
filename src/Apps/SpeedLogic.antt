-- ===== src/Apps/SpeedLogic.antt =====
-- apps/speed_logic.hpp: a speed from the text of an event, kept in the storage.
use minimal_autosar_adaptive.Prelude.{
  ℕ, ◌≡◌, refl, ap, ◌∙◌, Bool, true, ◌&&◌, ◌||◌, nat_eq, ◌==◌, Bytes, [], ◌∷◌, ◌++◌, arith, codes,
  is_empty, if◌then◌else◌, All, Bool-cases, inl, inr,
}
use minimal_autosar_adaptive.Core.Result.{ok}
use minimal_autosar_adaptive.Persistency.Files.{Env, calm}
use minimal_autosar_adaptive.Persistency.KeyValue.{Backend, set_value}
use minimal_autosar_adaptive.Persistency.KeyValue.Reads.{get_value-set_value}
use minimal_autosar_adaptive.Persistency.Handle.{set_value_string, get_value_string}
use minimal_autosar_adaptive.Apps.Float.{Float, stof_or_zero}

-- One of " \t\r\n".
abbrev pub is_space : ℕ → Bool
is_space b = b == 32 || (b == 9 || (b == 13 || b == 10))

-- From find_first_not_of on.
unfoldable pub trim_start : Bytes → Bytes
trim_start [] = []
trim_start (b ∷ s) = let rest = trim_start s in if is_space b then rest else b ∷ s

-- Up to find_last_not_of.
unfoldable pub trim_end : Bytes → Bytes
trim_end [] = []
trim_end (b ∷ s) = let rest = trim_end s in if is_space b && is_empty rest then [] else b ∷ rest

abbrev pub last_speed : Bytes
last_speed = codes "last_speed"

pub record SpeedEventResult (F : Type 0) : Type 0 where
  pub speed : F
  pub exceeded : Bool

module _ {F : Type 0} (float : Float F) where
  unfoldable pub parse_speed_payload : Bytes → F
  unfolding trim_start trim_end stof_or_zero
  parse_speed_payload s =
      let text = trim_end (trim_start s) in
      if is_empty text then float.literal "0.0" else stof_or_zero float text

  unfoldable pub handle_speed_event : Env → Backend → Bytes → F → Backend × SpeedEventResult F
  unfolding parse_speed_payload set_value_string
  handle_speed_event env kv payload max_allowed =
      let speed = parse_speed_payload payload in
      (
        (set_value_string env last_speed (float.to_string speed) kv).0,
        record { speed = speed; exceeded = float.greater speed max_allowed },
      )

-- A text of spaces only.
abbrev pub Blank : Bytes → Type 0
Blank s = All (λ b. is_space b ≡ true) s

trim_start-append : (w s : Bytes) → Blank w → trim_start (w ++ s) ≡ trim_start s
unfolding trim_start
trim_start-append [] s h = refl
trim_start-append (b ∷ w) s h = ground (arith, trim_start-append w s h.1)

trim_start_nothing : (w : Bytes) → Blank w → trim_start w ≡ []
unfolding trim_start
trim_start_nothing [] h = refl
trim_start_nothing (b ∷ w) h = ground (arith, trim_start_nothing w h.1)

trim_end-nil : trim_end [] ≡ []
unfolding trim_end
trim_end-nil = refl

trim_end_nothing : (w : Bytes) → Blank w → trim_end w ≡ []
unfolding trim_end
trim_end_nothing [] h = refl
trim_end_nothing (b ∷ w) h = ground (arith, trim_end_nothing w h.1)

trim_end-append : (s w : Bytes) → Blank w → trim_end (s ++ w) ≡ trim_end s
unfolding trim_end
trim_end-append [] w h = trim_end_nothing w h
trim_end-append (b ∷ s) w h = ground (arith, trim_end-append s w h)

-- The spaces behind, seen from the front.
trim-append : (s w : Bytes) → Blank w → trim_end (trim_start (s ++ w)) ≡ trim_end (trim_start s)
unfolding trim_start trim_end
trim-append [] w h = ap trim_end (trim_start_nothing w h) ∙ trim_end-nil
trim-append (b ∷ s) w h = elim (Bool-cases (is_space b)) [
  | inl e ↦ ground (arith, trim-append s w h)
  | inr e ↦ ground (arith, trim_end-append (b ∷ s) w h)
]

-- Spaces around a payload change nothing.
pub parse_speed_payload_trims :
    {F : Type 0} (float : Float F) (v s w : Bytes)
    → Blank v
    → Blank w
    → parse_speed_payload float (v ++ (s ++ w)) ≡ parse_speed_payload float s
unfolding parse_speed_payload
parse_speed_payload_trims float v s w hv hw =
    ground (arith, trim_start-append v (s ++ w) hv, trim-append s w hw)

-- An event whose write succeeds and loses no byte on closing the file leaves the text of the speed
-- in the storage, and it is reported as exceeding the limit exactly when it is greater.
pub handle_speed_event_lem :
    {F : Type 0} (float : Float F) (env : Env) (kv : Backend) (payload : Bytes) (max_allowed : F)
    → let speed = parse_speed_payload float payload in
      let (kv', result) = handle_speed_event float env kv payload max_allowed in
      (set_value_string env last_speed (float.to_string speed) kv).1 ≡ ok tt
      → env.flushes ≡ true
      → (get_value_string calm last_speed kv' ≡ ok (float.to_string speed))
        × (result.speed ≡ speed)
        × (result.exceeded ≡ float.greater speed max_allowed)
unfolding handle_speed_event get_value_string set_value_string
handle_speed_event_lem float env kv payload max_allowed stored flushed =
    let text = float.to_string (parse_speed_payload float payload) in
    (
      get_value-set_value env last_speed text kv (set_value env last_speed text kv).0
            (ap (λ r. ((set_value env last_speed text kv).0, r)) stored)
          ∙ ground arith,
      refl,
      refl,
    )
