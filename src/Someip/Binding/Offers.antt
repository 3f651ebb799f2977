-- ===== src/Someip/Binding/Offers.antt =====
-- When events are offered, and what a second `init` does.
use minimal_autosar_adaptive.Prelude.{
  ℕ, ◌+◌, ◌<◌, ◌≡◌, refl, ap, Bool, ◌&&◌, ◌||◌, All, true, false, nat_eq, string_eq, ◌==◌, Bytes,
  String, List, [], ◌∷◌, ◌++◌, arith, Option, none, some, if◌then◌else◌, Bool-cases, inl, inr,
}
use minimal_autosar_adaptive.Prelude.Membership.{elem, elem-append}
use minimal_autosar_adaptive.Someip.Binding.{
  Binding, Call, offer_event, notify, make_key, send_notification, init, through_app,
}

-- Different events have different keys.
pub make_key-injective :
    (s i e t j f : ℕ)
    → i < 65536
    → e < 65536
    → j < 65536
    → f < 65536
    → make_key s i e ≡ make_key t j f
    → (s ≡ t) × (i ≡ j) × (e ≡ f)
unfolding make_key
make_key-injective s i e t j f hi he hj hf h = omega arith

-- A second `init`, with any name and environment, changes nothing and calls nothing.
pub init-init :
    (name again : String) (env env' : Option Bytes) (b : Binding)
    → init again env' (init name env b).0 ≡ ((init name env b).0, [])
unfolding init
init-init name again env env' b = ground arith

pub record Sending : Type 0 where
  pub service : ℕ
  pub instance : ℕ
  pub event : ℕ
  pub payload : Bytes

-- Notifications one after another, of a process that has called `init`.
pub send_all : List Sending → Binding → Option (Binding × List Call)
send_all [] b = some (b, [])
send_all (n ∷ ns) b = elim (send_notification n.service n.instance n.event n.payload b) [
  | none ↦ none
  | some (b', calls) ↦ elim (send_all ns b') [
    | none ↦ none
    | some (c, rest) ↦ some (c, calls ++ rest)
  ]
]

-- The test that an event has three given ids.
unfoldable pub same_ids : ℕ → ℕ → ℕ → ℕ → ℕ → ℕ → Bool
same_ids s i e t j f = s == t && i == j && e == f

-- How often the calls offer the event `e` of the instance `i` of the service `s`.
unfoldable pub offers : ℕ → ℕ → ℕ → List Call → ℕ
offers s i e [] = 0
offers s i e (offer_event t j f g ∷ cs) = (if same_ids s i e t j f then 1 else 0) + offers s i e cs
offers s i e (_ ∷ cs) = offers s i e cs

-- What the calls notify, in order.
unfoldable pub sent : List Call → List Sending
sent [] = []
sent (notify s i e payload ∷ cs) =
    record { service = s; instance = i; event = e; payload = payload } ∷ sent cs
sent (_ ∷ cs) = sent cs

-- The test that some notification is of an event.
unfoldable pub notified : ℕ → ℕ → ℕ → List Sending → Bool
notified s i e [] = false
notified s i e (n ∷ ns) = same_ids s i e n.service n.instance n.event || notified s i e ns

-- The instance and the event fit in their 16 bits.
unfoldable pub IsNarrow : Sending → Type 0
IsNarrow n = (n.instance < 65536) × (n.event < 65536)

make_key-beq :
    (s i e t j f : ℕ)
    → i < 65536
    → e < 65536
    → j < 65536
    → f < 65536
    → (make_key s i e == make_key t j f) ≡ same_ids s i e t j f
unfolding make_key same_ids
make_key-beq s i e t j f hi he hj hf = ground arith

through_app_lem :
    (b : Binding) (name : String) (cs : List Call) → b.app ≡ some name → through_app b cs ≡ some cs
unfolding through_app
through_app_lem b name cs h = ground arith

-- A notification of an event that was offered, and of one that was not.
send_notification_old :
    (s i e : ℕ) (p : Bytes) (b : Binding) (name : String)
    → b.app ≡ some name
    → elem (make_key s i e) b.offered_events ≡ true
    → send_notification s i e p b ≡ some (b, notify s i e p ∷ [])
unfolding send_notification
send_notification_old s i e p b name h seen =
    simp (seen, through_app_lem b name (notify s i e p ∷ []) h)

send_notification_new :
    (s i e : ℕ) (p : Bytes) (b : Binding) (name : String)
    → b.app ≡ some name
    → elem (make_key s i e) b.offered_events ≡ false
    → send_notification s i e p b
      ≡ some (
        record b { offered_events = b.offered_events ++ make_key s i e ∷ [] },
        offer_event s i e b.default_event_group ∷ notify s i e p ∷ [],
      )
unfolding send_notification
send_notification_new s i e p b name h fresh = simp (
  fresh,
  through_app_lem b name (offer_event s i e b.default_event_group ∷ notify s i e p ∷ []) h,
)

send_all-step :
    (n : Sending) (ns : List Sending) (b b' c : Binding) (calls rest : List Call)
    → send_notification n.service n.instance n.event n.payload b ≡ some (b', calls)
    → send_all ns b' ≡ some (c, rest)
    → send_all (n ∷ ns) b ≡ some (c, calls ++ rest)
unfolding send_all
send_all-step n ns b b' c calls rest one others = ground arith

-- A run of notifications ends, and has offered each event once that it notified and whose key was
-- not among the offered, and no other.
pub record IsOffering (b : Binding) (ns : List Sending) : Type 0 where
  pub final : Binding
  pub calls : List Call
  pub ran : send_all ns b ≡ some (final, calls)
  pub all_sent : sent calls ≡ ns
  pub exactly :
      (s i e : ℕ)
      → i < 65536
      → e < 65536
      → offers s i e calls ≡ (
          if elem (make_key s i e) b.offered_events
          then 0
          else (if notified s i e ns then 1 else 0))

send_all-IsOffering :
    (ns : List Sending) (b : Binding) (name : String)
    → b.app ≡ some name
    → All IsNarrow ns
    → IsOffering b ns
unfolding send_all sent notified offers IsNarrow
send_all-IsOffering [] b name h narrow = record {
  final = b;
  calls = [];
  ran = refl;
  all_sent = refl;
  exactly = λ s i e hi he. ground arith;
}
send_all-IsOffering (n ∷ ns) b name h ((hj, hf), narrow) =
    let key = make_key n.service n.instance n.event in
    elim (Bool-cases (elem key b.offered_events)) [
      | inl seen ↦
          let rest = send_all-IsOffering ns b name h narrow in
          let one = send_notification_old n.service n.instance n.event n.payload b name h seen in
          record {
            final = rest.final;
            calls = notify n.service n.instance n.event n.payload ∷ rest.calls;
            ran =
                send_all-step n ns b b rest.final
                  (notify n.service n.instance n.event n.payload ∷ []) rest.calls one rest.ran;
            all_sent = ap (λ l. n ∷ l) rest.all_sent;
            exactly = λ s i e hi he.
                let same = make_key-beq s i e n.service n.instance n.event hi he hj hf in
                ground (arith, rest.exactly s i e hi he, same, seen);
          }
      | inr fresh ↦
          let b' : Binding = record b { offered_events = b.offered_events ++ key ∷ [] } in
          let rest = send_all-IsOffering ns b' name h narrow in
          let one = send_notification_new n.service n.instance n.event n.payload b name h fresh in
          record {
            final = rest.final;
            calls =
                offer_event n.service n.instance n.event b.default_event_group
                ∷ notify n.service n.instance n.event n.payload
                ∷ rest.calls;
            ran =
                send_all-step n ns b b' rest.final
                  (offer_event n.service n.instance n.event b.default_event_group
                    ∷ notify n.service n.instance n.event n.payload
                    ∷ [])
                  rest.calls one rest.ran;
            all_sent = ap (λ l. n ∷ l) rest.all_sent;
            exactly = λ s i e hi he.
                let same = make_key-beq s i e n.service n.instance n.event hi he hj hf in
                let joined = elem-append (make_key s i e) b.offered_events (key ∷ []) in
                ground (arith, rest.exactly s i e hi he, joined, same, fresh);
          }
    ]

-- Whatever a process notifies that has called `init` and has notified nothing before, exactly its
-- notifications are sent, in order, and they offer an event, known by its service, instance and
-- event id, exactly once if one of them is of the event, and never otherwise; where instances and
-- events have 16 bits. These are the offers that `send_notification` makes: what `offer_service`
-- has offered, it does not know of.
pub offered_once :
    (ns : List Sending) (b : Binding) (name : String)
    → b.app ≡ some name
    → b.offered_events ≡ []
    → All IsNarrow ns
    → (c : Binding) × (calls : List Call) × (send_all ns b ≡ some (c, calls))
      × (sent calls ≡ ns)
      × ((s i e : ℕ)
          → i < 65536
          → e < 65536
          → offers s i e calls ≡ (if notified s i e ns then 1 else 0))
offered_once ns b name h new narrow =
    let run = send_all-IsOffering ns b name h narrow in
    (
      run.final,
      run.calls,
      run.ran,
      run.all_sent,
      λ s i e hi he. let once = run.exactly s i e hi he in ground (arith, once, new),
    )
