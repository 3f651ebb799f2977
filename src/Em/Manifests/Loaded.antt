-- ===== src/Em/Manifests/Loaded.antt =====
-- What every loaded application satisfies, whatever the manifests say.
use minimal_autosar_adaptive.Prelude.{
  ℕ, ◌%◌, ◌^◌, ◌<◌, ◌≡◌, ◌≢◌, false, ◌&&◌, not, string_eq, arith, String, List, [], ◌∷◌, none, some,
  All, ◌>>=◌, Bool-cases, Option-cases, first_step, inl, inr, codes,
}
use minimal_autosar_adaptive.Core.Numbers.{stoul}
use minimal_autosar_adaptive.Core.Json.{Json}
use minimal_autosar_adaptive.Em.Config.{ComConfig, AppConfig}
use minimal_autosar_adaptive.Em.Environment.RoundTrip.{IsWords}
use minimal_autosar_adaptive.Em.Manifests.{
  Entry, word16, default_com, array_of, object_of, parse_u16, u16_at, events_of, someip_of, com_of,
  phm_of, app_of, is_app, keep_app, load_manifests,
}

-- The numbers that go out in the environment have 16 bits.
abbrev pub HasWords : ComConfig → Type 0
HasWords c = IsWords c × All (λ ev. ev < 65536) c.subscribe_events

-- Ids and executables are given.
abbrev pub IsLoaded : AppConfig → Type 0
IsLoaded a = (a.app_id ≢ "") × (a.executable ≢ "") × HasWords a.com_config

word16-lt : (s : String) (n : ℕ) → word16 s ≡ some n → n < 65536
unfolding word16
word16-lt s n h = elim (Option-cases (stoul (codes s))) [
  | inl e ↦ absurd (ground arith)
  | inr (m, e) ↦ ground arith
]

module _ {J : Type 0} (json : Json J) where
  parse_u16-lt :
      (fallback : ℕ) (v : J) (n : ℕ)
      → fallback < 65536
      → parse_u16 json fallback v ≡ some n
      → n < 65536
  unfolding parse_u16
  parse_u16-lt fallback v n small h = elim (Option-cases (json.as_unsigned v)) [
    | inr (m, e) ↦ ground arith
    | inl e ↦ elim (Option-cases (json.as_string v)) [
      | inl f ↦ ground arith
      | inr (s, f) ↦ word16-lt s n (ground arith)
    ]
  ]

  u16_at-lt :
      (key : String) (fallback : ℕ) (s : J) (n : ℕ)
      → fallback < 65536
      → u16_at json key fallback s ≡ some n
      → n < 65536
  unfolding u16_at
  u16_at-lt key fallback s n small h = elim (Option-cases (json.get key s)) [
    | inl e ↦ ground arith
    | inr (v, e) ↦ parse_u16-lt fallback v n small (ground arith)
  ]

  events_of-All :
      (xs : List J) (evs : List ℕ) → events_of json xs ≡ some evs → All (λ ev. ev < 65536) evs
  unfolding events_of
  events_of-All [] evs h = ground arith
  events_of-All (x ∷ xs) evs h = elim (Option-cases (json.as_unsigned x)) [
    | inr (m, e) ↦
        let (more, rest, same) = first_step (events_of json xs) _ (number m e) in
        ground (arith, events_of-All xs more rest)
    | inl e ↦ elim (Option-cases (json.as_string x)) [
      | inl f ↦ ground (arith, events_of-All xs evs)
      | inr (s, f) ↦
          let (n, word, later) = first_step (word16 s) _ (named s e f) in
          let (more, rest, same) = first_step (events_of json xs) _ later in
          ground (arith, events_of-All xs more rest, word16-lt s n word)
    ]
  ]
    where
      named :
          (s : String)
          → json.as_unsigned x ≡ none
          → json.as_string x ≡ some s
          → (word16 s >>= λ n. events_of json xs >>= λ more. some (n ∷ more)) ≡ some evs
      named s e f = ground arith

      number :
          (m : ℕ)
          → json.as_unsigned x ≡ some m
          → (events_of json xs >>= λ more. some ((m % 2 ^ 32 % 2 ^ 16) ∷ more)) ≡ some evs
      number m e = ground arith

  someip_of-HasWords : (s : J) (c : ComConfig) → someip_of json s ≡ some c → HasWords c
  unfolding someip_of
  someip_of-HasWords s c h =
      let (service, e1, h1) = first_step (u16_at json "service_id" 0 s) _ h in
      let (instance_id, e2, h2) = first_step (u16_at json "instance_id" 0 s) _ h1 in
      let (group, e3, h3) = first_step (u16_at json "event_group" 1 s) _ h2 in
      let (events, e4, h4) = first_step (events_of json (array_of json "subscribe" s)) _ h3 in
      let built : c ≡ record {
        service_id = service;
        instance_id = instance_id;
        event_group = group;
        subscribe_events = events;
      } =
        ground arith in
      rw built (
        record {
          service = u16_at-lt "service_id" 0 s service (omega arith) e1;
          instance = u16_at-lt "instance_id" 0 s instance_id (omega arith) e2;
          group = u16_at-lt "event_group" 1 s group (omega arith) e3;
        },
        events_of-All (array_of json "subscribe" s) events e4,
      )

  com_of-HasWords : (j : J) (c : ComConfig) → com_of json j ≡ some c → HasWords c
  unfolding com_of
  com_of-HasWords j c h = elim (Option-cases (object_of json "com" j)) [
    | inl e ↦ default_case c (ground arith)
    | inr (k, e) ↦ elim (Option-cases (object_of json "someip" k)) [
      | inl f ↦ default_case c (ground arith)
      | inr (s, f) ↦ someip_of-HasWords s c (ground arith)
    ]
  ]
    where
      default_case : (c : ComConfig) → some default_com ≡ some c → HasWords c
      default_case c e = ground arith

  app_of-HasWords : (j : J) (a : AppConfig) → app_of json j ≡ some a → HasWords a.com_config
  unfolding app_of
  app_of-HasWords j a h =
      let (v1, e1, h1) = first_step (json.value_string "app_id" "" j) _ h in
      let (v2, e2, h2) = first_step (json.value_string "executable" "" j) _ h1 in
      let (v3, e3, h3) = first_step (json.value_bool "start_on_boot" false j) _ h2 in
      let (v4, e4, h4) = first_step (json.value_string "restart_policy" "never" j) _ h3 in
      let (v5, e5, h5) = first_step (json.value_string "log_file" "" j) _ h4 in
      let (v6, e6, h6) = first_step (phm_of json j) _ h5 in
      let (c, e7, h7) = first_step (com_of json j) _ h6 in
      let same : a.com_config ≡ c = ground arith in rw same (com_of-HasWords j c e7)

  keep_app-All :
      (a : AppConfig) (more : List AppConfig)
      → HasWords a.com_config
      → All IsLoaded more
      → All IsLoaded (keep_app a more)
  unfolding keep_app is_app
  keep_app-All a more w h = elim (Bool-cases (is_app a)) [
    | inl e ↦ rw e (
      (
        ground (arith, string_eq.beq_iff a.app_id ""),
        ground (arith, string_eq.beq_iff a.executable ""),
        w,
      ),
      h,
    )
    | inr e ↦ rw e h
  ]

  -- Every application that is loaded has an id and an executable, and its service, instance, group
  -- and events are 16-bit numbers.
  pub load_manifests-IsLoaded :
      (es : List (Entry J)) (apps : List AppConfig)
      → load_manifests json es ≡ some apps
      → All IsLoaded apps
  unfolding load_manifests
  load_manifests-IsLoaded [] apps h = ground arith
  load_manifests-IsLoaded (e ∷ es) apps h = elim (Bool-cases (not (e.is_json && e.opens))) [
    | inl skipped ↦ load_manifests-IsLoaded es apps (ground arith)
    | inr taken ↦
        let (j, parsed, h1) = first_step e.document _ (read taken) in
        let (a, app, h2) = first_step (app_of json j) _ h1 in
        let (more, rest, h3) = first_step (load_manifests json es) _ h2 in
        let same : apps ≡ keep_app a more = ground arith in
        rw same
          (keep_app-All a more (app_of-HasWords j a app) (load_manifests-IsLoaded es more rest))
  ]
    where
      read :
          (not (e.is_json && e.opens)) ≡ false
          → (e.document >>= λ j.
              app_of json j >>= λ a. load_manifests json es >>= λ more. some (keep_app a more))
            ≡ some apps
      read taken = ground arith
