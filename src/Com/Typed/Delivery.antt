-- ===== src/Com/Typed/Delivery.antt =====
-- Values through the typed layer.
use minimal_autosar_adaptive.Prelude.{
  String, Bool-cases, inl, inr, Bool, ℕ, ◌≡◌, refl, ap, ◌∙◌, arith, true, false, Bytes, ◌++◌, List,
  [], ◌∷◌, map, none, some, if◌then◌else◌, nat_eq, ◌==◌,
}
use mathlib.Core.List.{Perm, append-nil}
use mathlib.Core.List.Perm
use minimal_autosar_adaptive.Prelude.Table.{Table}
use minimal_autosar_adaptive.Prelude.Walk.{IsWalk}
use minimal_autosar_adaptive.Prelude.Membership.{elem}
use minimal_autosar_adaptive.Com.Typed
use minimal_autosar_adaptive.Com.Adapter.Forwarding.{adapter_notify}
use minimal_autosar_adaptive.Someip.Binding.{
  Callback, Call, Invocation, handler, legacy, availability, fan_out, on_message, make_key,
  through_app, send_notification, notify, offer_event, Binding, Message,
}
use minimal_autosar_adaptive.Com.Adapter.{
  event_dispatcher, Errc, ok, not_found, busy, timeout, transport_error, invalid_arg, Response, Key,
  key_eq, Adapter, Handled, dispatch, dispatch_rpc, responses_to,
}
use minimal_autosar_adaptive.Com.Adapter.Subscriptions.{Subscription, Holds}
use minimal_autosar_adaptive.Com.Adapter.Delivery.{receivers, dispatch-receivers}
use minimal_autosar_adaptive.Com.Adapter.Methods.{dispatch_rpc-register_method}
use minimal_autosar_adaptive.Prelude.Table.{lookup}
use minimal_autosar_adaptive.Com.Typed.{
  Codec, Descriptor, EventEntry, Outcome, key_of, on_event, bind, bound, respond, responses,
}

-- The callbacks of the live subscriptions to a key, in order of subscription.
pub listeners : Key → List Subscription → List ℕ
listeners k [] = []
listeners k (x ∷ xs) =
    let more = listeners k xs in
    if x.key == k then (elim x.callback [ none ↦ more | some cb ↦ cb ∷ more ]) else more

-- The notification that reaches a client, as `notify` sends it.
abbrev pub notification : Descriptor → EventEntry → Bytes → Message
notification d e bytes = record {
  is_notification = true;
  service = d.service_id;
  instance = d.instance_id;
  method = e.id;
  payload = bytes;
}

-- The notifications among the calls into vsomeip, as they reach a subscriber.
unfoldable pub messages : List Call → List Message
messages [] = []
messages (notify s i e payload ∷ calls) =
    record { is_notification = true; service = s; instance = i; method = e; payload = payload }
    ∷ messages calls
messages (_ ∷ calls) = messages calls

-- What the adapter calls when the binding calls its handlers.
unfoldable pub dispatched :
    (Table ℕ Callback → Table ℕ Callback) → List Invocation → Adapter → List (ℕ × Bytes)
dispatched walk [] a = []
dispatched walk (handler h m ∷ more) a =
    (if h == event_dispatcher then dispatch walk m a else []) ++ dispatched walk more a
dispatched walk (legacy h payload ∷ more) a = dispatched walk more a
dispatched walk (availability h s i up ∷ more) a = dispatched walk more a

-- The calls of a client's callbacks by some messages.
unfoldable pub heard :
    {T : Type 0}
    → Codec T
    → (Table ℕ Callback → Table ℕ Callback)
    → List Message
    → Adapter
    → Binding
    → List (ℕ × T)
heard codec walk [] a b = []
heard codec walk (m ∷ ms) a b =
    map (on_event codec) (dispatched walk (on_message m b) a) ++ heard codec walk ms a b

-- A binding whose only handler of notifications is the adapter's.
abbrev pub IsAttached : Binding → Type 0
IsAttached c = c.notif_handlers ≡ some event_dispatcher ∷ []

receivers-listeners :
    {T : Type 0} (codec : Codec T) (k : Key) (v : T) (xs : List Subscription)
    → codec.deserialize (codec.serialize v) ≡ v
    → map (on_event codec) (receivers k (codec.serialize v) xs)
      ≡ map (λ (cb : ℕ). (cb, v)) (listeners k xs)
unfolding receivers listeners on_event
receivers-listeners codec k v [] law = refl
receivers-listeners codec k v (x ∷ xs) law = ground (arith, receivers-listeners codec k v xs law)

-- A notification that reaches a client goes through its binding to the adapter.
dispatched-attached :
    (walk : Table ℕ Callback → Table ℕ Callback) (d : Descriptor) (e : EventEntry) (bytes : Bytes)
    (a : Adapter) (c : Binding)
    → IsAttached c
    → dispatched walk (on_message (notification d e bytes) c) a
      ≡ dispatch walk (notification d e bytes) a
unfolding dispatched on_message fan_out
dispatched-attached walk d e bytes a c h = rw h (append-nil _)

-- A skeleton's notification of an event, whether it is offered before or not.
pub notify-messages :
    {T : Type 0} (codec : Codec T) (d : Descriptor) (e : EventEntry) (v : T) (b : Binding)
    (name : String)
    → b.app ≡ some name
    → (b' : Binding) × (calls : List Call) × (Typed.notify codec d e v b ≡ some (b', calls, ok))
      × (messages calls ≡ notification d e (codec.serialize v) ∷ [])
      × (b'.app ≡ some name)
unfolding Typed.notify adapter_notify send_notification through_app messages
notify-messages codec d e v b name h =
    let sent : List Call = notify d.service_id d.instance_id e.id (codec.serialize v) ∷ [] in
    let key = make_key d.service_id d.instance_id e.id in
    elim (Bool-cases (elem key b.offered_events)) [
      | inl known ↦ (b, sent, ground (arith, known, h), refl, h)
      | inr fresh ↦ (
        record b { offered_events = b.offered_events ++ key ∷ [] },
        offer_event d.service_id d.instance_id e.id b.default_event_group ∷ sent,
        ground (arith, fresh, h),
        refl,
        h,
      )
    ]

-- A value that a skeleton notifies, in a process that has called `init`, is sent, and at a client
-- whose binding has the adapter's handler and no other it reaches exactly the callbacks of the live
-- subscriptions to the event, once for each, in whatever order the adapter's map is walked, and as
-- the value it was; where the codec reads what it writes.
pub notify-heard :
    {T : Type 0} (codec : Codec T) (walk : Table ℕ Callback → Table ℕ Callback) (d : Descriptor)
    (e : EventEntry) (v : T) (b : Binding) (name : String) (a : Adapter) (c : Binding)
    (xs : List Subscription)
    → b.app ≡ some name
    → IsWalk walk
    → Holds a xs
    → IsAttached c
    → codec.deserialize (codec.serialize v) ≡ v
    → (b' : Binding) × (calls : List Call) × (Typed.notify codec d e v b ≡ some (b', calls, ok))
      × Perm
          (heard codec walk (messages calls) a c)
          (map (λ (cb : ℕ). (cb, v)) (listeners (key_of d e.id) xs))
unfolding heard
notify-heard codec walk d e v b name a c xs live walks h attached law =
    let (b', calls, ran, sent, still) = notify-messages codec d e v b name live in
    let bytes = codec.serialize v in
    let reached = dispatch-receivers walk (notification d e bytes) a xs walks h in
    (
      b',
      calls,
      ran,
      rw
          (
            sent,
            dispatched-attached walk d e bytes a c attached,
            append-nil (map (on_event codec) (dispatch walk (notification d e bytes) a)),
            ← receivers-listeners codec (key_of d e.id) v xs law,
          )
          (Perm.map (on_event codec) reached),
    )

-- The request that reaches a server, as `call` sends it.
abbrev pub request : Descriptor → ℕ → Bytes → Message
request d m bytes = record {
  is_notification = false;
  service = d.service_id;
  instance = d.instance_id;
  method = m;
  payload = bytes;
}

-- The response to a message that an answer should get: the value in bytes, or no bytes with an
-- error.
pub answer_to : {Res : Type 0} → Codec Res → Message → Errc × Res → Response
answer_to results msg (ok, res) = (some msg, results.serialize res)
answer_to results msg (not_found, res) = (some msg, [])
answer_to results msg (busy, res) = (some msg, [])
answer_to results msg (timeout, res) = (some msg, [])
answer_to results msg (transport_error, res) = (some msg, [])
answer_to results msg (invalid_arg, res) = (some msg, [])

responses_to-answer_to :
    {Res : Type 0} (results : Codec Res) (msg : Message) (answers : List (Errc × Res))
    → responses_to msg (responses results answers) ≡ map (answer_to results msg) answers
unfolding answer_to respond
responses_to-answer_to results msg [] = refl
responses_to-answer_to results msg ((ec, res) ∷ more) =
    ground (arith, responses_to-answer_to results msg more)

-- A method that had no handler answers a request with what the bound function answers to the value
-- that was sent, in order, each to the request, with the value in bytes or with none for an error;
-- if the function throws, an empty response to a null pointer follows; where the codec of the
-- requests reads what it writes.
pub bind-answers :
    {Req Res : Type 0} (requests : Codec Req) (results : Codec Res) (fn : Req → Outcome Res)
    (handlers : ℕ → Bytes → Handled) (d : Descriptor) (m h : ℕ) (q : Req) (a : Adapter)
    (b : Binding)
    → lookup (key_of d m) a.rpc ≡ none
    → handlers h ≡ bound requests results fn
    → requests.deserialize (requests.serialize q) ≡ q
    → let msg = request d m (requests.serialize q) in
      dispatch_rpc handlers msg (bind d m h a b).0
      ≡ map (answer_to results msg) (fn q).answers
        ++ (if (fn q).throws then (none, []) ∷ [] else [])
unfolding bind bound
bind-answers requests results fn handlers d m h q a b free is_bound law =
    let msg = request d m (requests.serialize q) in
    let done : handlers h msg.payload ≡ bound requests results fn msg.payload =
      ap (λ (f : Bytes → Handled). f msg.payload) is_bound in
    let tail : Bool → List Response = λ throws. if throws then (none, []) ∷ [] else [] in
    dispatch_rpc-register_method handlers msg h a b free
    ∙ ap (λ (r : Handled). responses_to msg r.responses ++ tail r.throws) done
    ∙ ap (λ v. responses_to msg (responses results (fn v).answers) ++ tail (fn v).throws) law
    ∙ ap (λ rs. rs ++ tail (fn q).throws) (responses_to-answer_to results msg (fn q).answers)
