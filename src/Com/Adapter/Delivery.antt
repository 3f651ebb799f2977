-- ===== src/Com/Adapter/Delivery.antt =====
-- The adapter's client operations against the list of live subscriptions, and who receives a
-- notification.
use minimal_autosar_adaptive.Prelude.{
  ℕ, ◌+◌, ◌^◌, ◌<◌, ◌≡◌, refl, ap, ◌∙◌, true, nat_eq, ◌==◌, arith, Bytes, String, List, [], ◌∷◌,
  ◌++◌, Option, none, some, if◌then◌else◌, is_empty, Bool-cases, Option-cases, inl, inr,
}
use mathlib.Core.Option
use mathlib.Core.List.{Perm, filter_map}
use mathlib.Core.List.Perm
use minimal_autosar_adaptive.Prelude.Walk.{IsWalk}
use native.Mathlib.Nat.{mod-eq_of_lt}
use minimal_autosar_adaptive.Prelude.Table.{Table, lookup, erase}
use minimal_autosar_adaptive.Someip.Binding.{
  Callback, Binding, Call, Message, request_event, subscribe, unsubscribe, release_event,
  release_an_event, unsubscribe_event, through_app, if_app, register_notification_handler,
}
use minimal_autosar_adaptive.Com.Adapter.{
  Key, key_eq, SubMeta, Adapter, bucket, next, add_subscription, ensure_dispatcher_installed,
  request_and_subscribe, subscribe_event, put_back, adapter_unsubscribe, called, dispatch,
}
use minimal_autosar_adaptive.Com.Adapter.Subscriptions.{
  Subscription, Holds, for_key, metas, remove, add_subscription-Holds, without, without-Holds,
  same_bucket, meta-for_key, remove-absent, for_key-remove,
}

-- The callbacks of the live subscriptions to a key, with the payload, in order of subscription.
unfoldable pub receivers : Key → Bytes → List Subscription → List (ℕ × Bytes)
receivers k payload [] = []
receivers k payload (x ∷ xs) =
    if x.key == k
    then (elim x.callback [
      | none ↦ receivers k payload xs
      | some cb ↦ (cb, payload) ∷ receivers k payload xs
    ])
    else receivers k payload xs

called-for_key :
    (k : Key) (payload : Bytes) (xs : List Subscription)
    → called payload (for_key k xs) ≡ receivers k payload xs
unfolding called for_key receivers
called-for_key k payload [] = refl
called-for_key k payload (x ∷ xs) = ground (arith, called-for_key k payload xs)

called-filter_map :
    (payload : Bytes) (t : Table ℕ Callback)
    → called payload t ≡ filter_map (λ (x : ℕ × Callback). Option.map (λ cb. (cb, payload)) x.1) t
unfolding called filter_map
called-filter_map payload [] = refl
called-filter_map payload ((t, none) ∷ cbs) = called-filter_map payload cbs
called-filter_map payload ((t, some cb) ∷ cbs) =
    ap (λ l. (cb, payload) ∷ l) (called-filter_map payload cbs)

called-Perm :
    (payload : Bytes) (t u : Table ℕ Callback)
    → Perm t u
    → Perm (called payload t) (called payload u)
called-Perm payload t u p =
    rw (called-filter_map payload t, called-filter_map payload u) (Perm.filter_map _ p)

-- A notification is delivered to exactly the callbacks of the live subscriptions to its event, once
-- for each, in some order.
pub dispatch-receivers :
    (walk : Table ℕ Callback → Table ℕ Callback) (m : Message) (a : Adapter)
    (xs : List Subscription)
    → IsWalk walk
    → Holds a xs
    → Perm (dispatch walk m a) (
        receivers
          (record { service = m.service; instance = m.instance; item = m.method })
          m.payload
          xs)
unfolding dispatch
dispatch-receivers walk m a xs walks h =
    let k : Key = record { service = m.service; instance = m.instance; item = m.method } in
    Perm.trans (by_bucket (lookup k a.subs))
      (rw (h.buckets k, called-for_key k m.payload xs) Perm.rfl)
  where
    by_bucket :
        (o : Option (Table ℕ Callback))
        → Perm
            (elim o [ none ↦ [] | some cbs ↦ called m.payload (walk cbs) ])
            (called m.payload (bucket o))
    by_bucket none = unfold called in Perm.rfl
    by_bucket (some cbs) = called-Perm m.payload (walk cbs) cbs (walks cbs)

flagged :
    (a : Adapter) (xs : List Subscription) → Holds a xs → Holds (record a { dispatching = true }) xs
flagged a xs h = record {
  buckets = h.buckets;
  tokens = h.tokens;
  bounded = h.bounded;
  unique = h.unique;
}

-- The dispatcher concerns neither the tables nor the application.
ensure-Holds :
    (a : Adapter) (b : Binding) (xs : List Subscription)
    → Holds a xs
    → Holds (ensure_dispatcher_installed a b).0 xs
unfolding ensure_dispatcher_installed
ensure-Holds a b xs h = elim (Bool-cases a.dispatching) [
  | inl e ↦ simp e h
  | inr e ↦ simp e (flagged a xs h)
]

ensure-app : (a : Adapter) (b : Binding) → (ensure_dispatcher_installed a b).1.app ≡ b.app
unfolding ensure_dispatcher_installed register_notification_handler
ensure-app a b = ground arith

asked :
    (k : Key) (g : ℕ) (b : Binding) (name : String)
    → b.app ≡ some name
    → request_and_subscribe k g b
      ≡ some (
          request_event k.service k.instance k.item (g ∷ []) true
          ∷ subscribe k.service k.instance g
          ∷ [])
unfolding request_and_subscribe through_app
asked k g b name h = ground arith

token_of :
    (k : Key) (g : ℕ) (cb : Callback) (a : Adapter)
    → a.next_token + 1 < 2 ^ 64
    → (add_subscription k g cb a).next_token ≡ a.next_token + 1
unfolding add_subscription next
token_of k g cb a small = mod-eq_of_lt small

-- A subscription adds itself, under a new token, to the live ones, and asks vsomeip for the event
-- and for its group.
pub subscribe_event-Holds :
    (k : Key) (g : ℕ) (cb : Callback) (a : Adapter) (b : Binding) (name : String)
    (xs : List Subscription)
    → b.app ≡ some name
    → a.next_token + 1 < 2 ^ 64
    → Holds a xs
    → (a' : Adapter) × (b' : Binding) × (subscribe_event k g cb a b
        ≡ some (
          a',
          b',
          request_event k.service k.instance k.item (g ∷ []) true
              ∷ subscribe k.service k.instance g
              ∷ [],
          a.next_token + 1,
        ))
      × Holds a' (xs ++ record { token = a.next_token + 1; key = k; group = g; callback = cb } ∷ [])
unfolding subscribe_event
subscribe_event-Holds k g cb a b name xs app small h =
    let added = add_subscription-Holds k g cb a xs small h in
    let a1 = add_subscription k g cb a in
    let live = ensure-app a1 b ∙ app in
    let b' = (ensure_dispatcher_installed a1 b).1 in
    (
      (ensure_dispatcher_installed a1 b).0,
      b',
      ground (arith, asked k g b' name live, token_of k g cb a small),
      ensure-Holds a1 b _ added,
    )

-- The calls that the removal of a token makes: the last one of its key takes the event down.
unfoldable pub taken_down : ℕ → List Subscription → List Call
taken_down t xs = elim (lookup t (metas xs)) [
  | none ↦ []
  | some m ↦
      if is_empty (for_key m.key (remove t xs))
      then unsubscribe m.key.service m.key.instance m.group
        ∷ release_event m.key.service m.key.instance m.key.item
        ∷ []
      else []
]

unsubscribe_unknown :
    (t : ℕ) (a : Adapter) (b : Binding)
    → lookup t a.token_meta ≡ none
    → adapter_unsubscribe t a b ≡ some (a, [])
unfolding adapter_unsubscribe
unsubscribe_unknown t a b e = ground arith

unsubscribe_known :
    (t : ℕ) (a : Adapter) (b : Binding) (name : String) (m : SubMeta) (handlers : Table ℕ Callback)
    → b.app ≡ some name
    → lookup t a.token_meta ≡ some m
    → lookup m.key a.subs ≡ some handlers
    → adapter_unsubscribe t a b
      ≡ some (
        record a {
          token_meta = erase t a.token_meta;
          subs = put_back m.key (erase t handlers) a.subs;
        },
        if is_empty (erase t handlers)
            then unsubscribe m.key.service m.key.instance m.group
              ∷ release_event m.key.service m.key.instance m.key.item
              ∷ []
            else [],
      )
unfolding adapter_unsubscribe release_an_event unsubscribe_event through_app if_app
unsubscribe_known t a b name m handlers app e f = ground arith

taken_down_lem :
    (t : ℕ) (m : SubMeta) (xs : List Subscription)
    → lookup t (metas xs) ≡ some m
    → taken_down t xs ≡ (
        if is_empty (for_key m.key (remove t xs))
        then unsubscribe m.key.service m.key.instance m.group
          ∷ release_event m.key.service m.key.instance m.key.item
          ∷ []
        else [])
unfolding taken_down
taken_down_lem t m xs e = ground arith

taken_down_unknown :
    (t : ℕ) (xs : List Subscription) → lookup t (metas xs) ≡ none → taken_down t xs ≡ []
unfolding taken_down
taken_down_unknown t xs e = ground arith

-- The removal of a token takes its subscription, if it is live, out of the live ones; the last of an
-- event unsubscribes that subscription's group and releases the event, and nothing else is asked of
-- vsomeip.
pub adapter_unsubscribe-Holds :
    (t : ℕ) (a : Adapter) (b : Binding) (name : String) (xs : List Subscription)
    → b.app ≡ some name
    → Holds a xs
    → (a' : Adapter) × (adapter_unsubscribe t a b ≡ some (a', taken_down t xs))
      × Holds a' (remove t xs)
adapter_unsubscribe-Holds t a b name xs app h = elim (Option-cases (lookup t (metas xs))) [
  | inl e ↦ (
    a,
    simp (taken_down_unknown t xs e) (unsubscribe_unknown t a b (ground (arith, h.tokens))),
    simp (remove-absent t xs e) h,
  )
  | inr (m, e) ↦ elim (Option-cases (lookup m.key a.subs)) [
    | inl f ↦ absurd (ground (arith, meta-for_key t m xs e, h.buckets m.key))
    | inr (handlers, f) ↦ (
      without t m handlers a xs h e f,
      simp (taken_down_lem t m xs e, for_key-remove, ← same_bucket t m handlers a xs h e f)
          (unsubscribe_known t a b name m handlers app (ground (arith, h.tokens)) f),
      without-Holds t m handlers a xs h e f,
    )
  ]
]
