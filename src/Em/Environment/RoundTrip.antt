-- ===== src/Em/Environment/RoundTrip.antt =====
-- What `init` reads from the string that the execution manager builds.
use minimal_autosar_adaptive.Prelude.{
  ℕ, ◌%◌, ◌/◌, ◌<◌, ◌≡◌, refl, ap, ◌∙◌, ◌≢◌, true, false, ◌||◌, nat_eq, ◌==◌, Bytes, List, [], ◌∷◌,
  ◌++◌, map, arith, All, All-append, is_empty, if◌then◌else◌, ltb, ltb→lt, All-map, Bool-cases, inl,
  inr,
}
use mathlib.Core.List.{append_assoc}
use minimal_autosar_adaptive.Core.Numbers.{show_hex, hex_digit, hex_digits, stoul-show_hex}
use minimal_autosar_adaptive.Someip.Requests.{
  EventRequest, pieces, split_at, parse_u16, parse_token, auto_requests,
}
use minimal_autosar_adaptive.Em.Config.{ComConfig}
use minimal_autosar_adaptive.Em.Environment.{show_event, show_events, build_someip_env}

-- None of the separators: , : @ .
abbrev IsPlain : ℕ → Type 0
IsPlain b = (b ≢ b',') × (b ≢ b':') × (b ≢ b'@')

hex_digit-IsPlain : (d : ℕ) → d < 16 → IsPlain (hex_digit d)
unfolding hex_digit
hex_digit-IsPlain d h = ground arith

hex_digits-IsPlain : (n : ℕ) → n < 65536 → All IsPlain (hex_digits n)
unfolding hex_digits
hex_digits-IsPlain n h = elim (Bool-cases (ltb n 16)) [
  | inl e ↦ rw e (hex_digit-IsPlain n (ltb→lt n 16 e), tt)
  | inr e ↦ elim (Bool-cases (ltb n 256)) [
    | inl f ↦
        rw (e, f)
          (
            hex_digit-IsPlain (n / 16) (omega (arith, ltb→lt n 256 f)),
            (hex_digit-IsPlain (n % 16) (omega arith), tt),
          )
    | inr f ↦ elim (Bool-cases (ltb n 4096)) [
      | inl g ↦
          rw (e, f, g)
            (
              hex_digit-IsPlain (n / 256) (omega (arith, ltb→lt n 4096 g)),
              (
                hex_digit-IsPlain (n / 16 % 16) (omega arith),
                (hex_digit-IsPlain (n % 16) (omega arith), tt),
              ),
            )
      | inr g ↦
          rw (e, f, g)
            (
              hex_digit-IsPlain (n / 4096) (omega arith),
              (
                hex_digit-IsPlain (n / 256 % 16) (omega arith),
                (
                  hex_digit-IsPlain (n / 16 % 16) (omega arith),
                  (hex_digit-IsPlain (n % 16) (omega arith), tt),
                ),
              ),
            )
    ]
  ]
]

show_hex-IsPlain : (n : ℕ) → n < 65536 → All IsPlain (show_hex n)
unfolding show_hex
show_hex-IsPlain n h = ground (arith, hex_digits-IsPlain n h)

parse_u16-show_hex : (n : ℕ) → n < 65536 → parse_u16 (show_hex n) ≡ n
unfolding parse_u16
parse_u16-show_hex n h = ground (arith, stoul-show_hex n h)

-- A run without the separator, then the separator.
pieces-append :
    (c : ℕ) (xs ys : Bytes) → All (λ b. b ≢ c) xs → pieces c (xs ++ c ∷ ys) ≡ xs ∷ pieces c ys
unfolding pieces
pieces-append c [] ys h = ground arith
pieces-append c (x ∷ xs) ys h = ground (arith, pieces-append c xs ys h.1)

pieces-one : (c b : ℕ) (xs : Bytes) → All (λ b. b ≢ c) (b ∷ xs) → pieces c (b ∷ xs) ≡ (b ∷ xs) ∷ []
unfolding pieces
pieces-one c b [] h = ground arith
pieces-one c b (x ∷ xs) h = ground (arith, pieces-one c x xs h.1)

split_at-append : (xs ys : Bytes) → All (λ b. b ≢ b'@') xs → split_at (xs ++ b'@' ∷ ys) ≡ (xs, ys)
unfolding split_at
split_at-append [] ys h = refl
split_at-append (x ∷ xs) ys h = ground (arith, split_at-append xs ys h.1)

not-empty : (n : ℕ) → (b : ℕ) × (s : Bytes) × (show_hex n ≡ b ∷ s)
unfolding show_hex
not-empty n = elim (Bool-cases (n == 0)) [
  | inl e ↦ (b'0', [], rw e)
  | inr e ↦ (b'0', b'x' ∷ hex_digits n, rw e)
]

pieces-last : (n : ℕ) → n < 65536 → pieces b':' (show_hex n) ≡ show_hex n ∷ []
pieces-last n h =
    let (b, s, e) = not-empty n in
    rw e (
      pieces-one b':' b s (
        rw e at (All-map IsPlain (λ b. b ≢ b':') (show_hex n) (λ b p. p.1) (show_hex-IsPlain n h))))

-- The numbers of a configuration are 16-bit words.
pub record IsWords (c : ComConfig) : Type 0 where
  pub service : c.service_id < 65536
  pub instance : c.instance_id < 65536
  pub group : c.event_group < 65536

-- What is meant by a configuration: each of its events, in its group.
abbrev pub meant : ComConfig → ℕ → EventRequest
meant c ev = record {
  service = c.service_id;
  instance = c.instance_id;
  event = ev;
  group = c.event_group;
}

module _ (c : ComConfig) (w : IsWords c) (ev : ℕ) (small : ev < 65536) where
  plain :
      (n : ℕ) → n < 65536 → (c : ℕ) → ((b : ℕ) → IsPlain b → b ≢ c) → All (λ b. b ≢ c) (show_hex n)
  plain n h c f = All-map IsPlain (λ b. b ≢ c) (show_hex n) f (show_hex-IsPlain n h)

  left : Bytes
  left = show_hex c.service_id ++ (b':' ∷ (show_hex c.instance_id ++ (b':' ∷ show_hex ev)))

  show_event-left : show_event c ev ≡ left ++ b'@' ∷ show_hex c.event_group
  unfolding show_event left
  show_event-left = simp append_assoc

  fields : pieces b':' left ≡ show_hex c.service_id ∷ show_hex c.instance_id ∷ show_hex ev ∷ []
  unfolding left
  fields =
      pieces-append b':' (show_hex c.service_id) (show_hex c.instance_id ++ (b':' ∷ show_hex ev))
        (plain c.service_id w.service b':' (λ b p. p.1))
      ∙ ap (λ (l : List Bytes). show_hex c.service_id ∷ l)
          (pieces-append b':' (show_hex c.instance_id) (show_hex ev)
              (plain c.instance_id w.instance b':' (λ b p. p.1))
            ∙ ap (λ (l : List Bytes). show_hex c.instance_id ∷ l) (pieces-last ev small))

  -- `left` has none of the byte `x` that no number and no colon is.
  left_free : (x : ℕ) → ((b : ℕ) → IsPlain b → b ≢ x) → b':' ≢ x → All (λ b. b ≢ x) left
  unfolding left
  left_free x f g =
      All-append (λ b. b ≢ x) (show_hex c.service_id) _ (plain c.service_id w.service x f)
        (
          g,
          All-append (λ b. b ≢ x) (show_hex c.instance_id) _ (plain c.instance_id w.instance x f)
              (g, plain ev small x f),
        )

  show_event-split : split_at (show_event c ev) ≡ (left, show_hex c.event_group)
  show_event-split =
      rw show_event-left
        (split_at-append left (show_hex c.event_group) (left_free b'@' (λ b p. p.2) (omega arith)))

  show_event-full : is_empty (show_event c ev) ≡ false
  unfolding show_event
  show_event-full = let (b, s, e) = not-empty c.service_id in rw (e, show_event)

  parse_token-show_event : (default : ℕ) → parse_token default (show_event c ev) ≡ meant c ev ∷ []
  unfolding parse_token
  parse_token-show_event default = ground (
    arith,
    show_event-full,
    show_event-split,
    fields,
    not-empty c.event_group,
    parse_u16-show_hex c.service_id w.service,
    parse_u16-show_hex c.instance_id w.instance,
    parse_u16-show_hex ev small,
    parse_u16-show_hex c.event_group w.group,
  )

  show_event_free : All (λ b. b ≢ b',') (show_event c ev)
  show_event_free = rw show_event-left (
      All-append (λ b. b ≢ b',') left _ (left_free b',' (λ b p. p.0) (omega arith))
        (omega arith, plain c.event_group w.group b',' (λ b p. p.0)))

module _ (c : ComConfig) (w : IsWords c) (default : ℕ) where
  one_piece : (ev : ℕ) → ev < 65536 → pieces b',' (show_event c ev) ≡ show_event c ev ∷ []
  one_piece ev small =
      whole (show_event c ev) (show_event-full c w ev small) (show_event_free c w ev small)
    where
      whole : (s : Bytes) → is_empty s ≡ false → All (λ b. b ≢ b',') s → pieces b',' s ≡ s ∷ []
      whole [] e f = cc
      whole (b ∷ s) e f = pieces-one b',' b s f

  requests-show_events :
      (evs : List ℕ)
      → All (λ ev. ev < 65536) evs
      → auto_requests default (show_events c evs) ≡ map (meant c) evs
  unfolding auto_requests show_events
  requests-show_events [] h = refl
  requests-show_events (ev ∷ []) h =
      rw (one_piece ev h.0) (rw (parse_token-show_event c w ev h.0 default) refl)
  requests-show_events (ev ∷ e2 ∷ more) h =
      rw
        (pieces-append b',' (show_event c ev) (show_events c (e2 ∷ more))
          (show_event_free c w ev h.0))
        (rw (parse_token-show_event c w ev h.0 default)
          (ap (λ (l : List EventRequest). meant c ev ∷ l) (requests-show_events (e2 ∷ more) h.1)))

  -- The child requests exactly the events of its manifest, in order and in the group of the
  -- manifest, where the service and the instance are given; otherwise it requests none.
  pub auto_requests-build_someip_env :
      All (λ ev. ev < 65536) c.subscribe_events
      → auto_requests default (build_someip_env c)
        ≡ (if c.service_id == 0 || c.instance_id == 0 then [] else map (meant c) c.subscribe_events)
  unfolding build_someip_env
  auto_requests-build_someip_env h = elim (Bool-cases (c.service_id == 0 || c.instance_id == 0)) [
    | inl e ↦ unfold auto_requests in ground arith
    | inr e ↦ elim (Bool-cases (is_empty c.subscribe_events)) [
      | inr f ↦ simp (e, f) (requests-show_events c.subscribe_events h)
      | inl f ↦ unfold auto_requests in ground (arith, none_meant c.subscribe_events f)
    ]
  ]
    where
      none_meant : (evs : List ℕ) → is_empty evs ≡ true → map (meant c) evs ≡ []
      none_meant [] f = refl
      none_meant (ev ∷ evs) f = cc
