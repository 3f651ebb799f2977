-- ===== src/Diag/Provider.antt =====
-- GenericProvider: diagnostics/provider/. The application's hooks are what they answer when
-- called, `none` where a hook is not set. The maps of identifiers are filled by the constructor,
-- whose code is not in the repository, and are arguments of the state here.
use minimal_autosar_adaptive.Prelude.{
  ℕ, ◌≡◌, refl, ◌↔◌, ◌⊎◌, Bool, true, false, string_eq, nat_eq, ◌==◌, Bytes, String, [], ◌∷◌, arith,
  Option, none, some, codes, if◌then◌else◌,
}
use minimal_autosar_adaptive.Prelude.Table.{Table, lookup, insert, lookup-insert}

-- UdsResponse
pub record Response : Type 0 where
  pub negative : Bool
  pub sid : ℕ
  pub nrc : ℕ
  pub payload : Bytes

pub record Api : Type 0 where
  pub has_trigger : Option Bool
  pub trigger_cause : Option Bytes
  pub can_reset : Bool

pub record Provider : Type 0 where
  pub api : Api
  pub dids : Table String ℕ
  pub routines : Table String ℕ

-- m[k]: a key that is missing is added with 0.
unfoldable pub at : String → Table String ℕ → Table String ℕ × ℕ
at k m = elim (lookup k m) [ none ↦ (insert k 0 m, 0) | some v ↦ (m, v) ]

unfoldable pub read_trigger : Api → Response
read_trigger api = record {
  negative = false;
  sid = 0x22;
  nrc = 0x00;
  payload = elim api.has_trigger [ none ↦ 0 | some active ↦ if active then 1 else 0 ] ∷ [];
}

unfoldable pub read_cause : Api → Response
read_cause api = record {
  negative = false;
  sid = 0x22;
  nrc = 0x00;
  payload = elim api.trigger_cause [ none ↦ codes "None" | some cause ↦ cause ];
}

unfoldable pub read_did : ℕ → Provider → Provider × Response
unfolding at read_trigger read_cause
read_did did p =
    let (m, trigger) = at "HasTrigger" p.dids in
    let p' = record p { dids = m } in
    if did == trigger
    then (p', read_trigger p.api)
    else let (m', cause) = at "TriggerCause" m in
      let p'' = record p { dids = m' } in
      if did == cause
      then (p'', read_cause p.api)
      else (p'', record { negative = true; sid = 0x22; nrc = 0x31; payload = [] })

unfoldable pub read_dtc : ℕ → Response
read_dtc subfunc = record { negative = false; sid = 0x19; nrc = 0x00; payload = [] }

-- The last part says whether `resetTrigger` is called.
unfoldable pub routine_control : ℕ → ℕ → Bytes → Provider → Provider × Response × Bool
unfolding at
routine_control subfunc rid payload p =
    let refused : Response = record { negative = true; sid = 0x31; nrc = 0x12; payload = [] } in
    if subfunc == 0x01
    then (let (m, reset) = at "ResetTrigger" p.routines in
        let p' = record p { routines = m } in
        if rid == reset
        then (
          p',
          record { negative = false; sid = 0x31; nrc = 0x00; payload = [] },
          p.api.can_reset,
        )
        else (p', refused, false))
    else (p, refused, false)

-- A configured identifier, or 0.
abbrev pub id_of : String → Table String ℕ → ℕ
id_of k m = elim (lookup k m) [ none ↦ 0 | some v ↦ v ]

keys_differ : (◌==◌ {A = String} "HasTrigger" "TriggerCause") ≡ false
keys_differ = refl

-- An identifier is answered positively exactly if it is that of one of the two items, where an
-- item that is not configured has identifier 0.
pub read_did_iff :
    (did : ℕ) (p : Provider)
    → ((read_did did p).1.negative ≡ false)
      ↔ ((did ≡ id_of "HasTrigger" p.dids) ⊎ (did ≡ id_of "TriggerCause" p.dids))
unfolding read_did at read_trigger read_cause
read_did_iff did p = ground (arith, keys_differ, lookup-insert "HasTrigger" "TriggerCause" 0 p.dids)

-- Where no identifiers are configured, identifier 0 reads the trigger.
pub read_did_unconfigured :
    (p : Provider) → lookup "HasTrigger" p.dids ≡ none → (read_did 0 p).1 ≡ read_trigger p.api
unfolding read_did at
read_did_unconfigured p h = ground arith
