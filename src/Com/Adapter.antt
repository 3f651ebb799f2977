-- ===== src/Com/Adapter.antt =====
-- SomeipAdapter: ara/com/someip_adapter.cpp, the implementation of IAdapter in
-- include/ara/com/core.hpp over the binding. An operation takes the adapter and the binding and
-- gives both back with the calls into vsomeip; `none` is the binding's call through a null pointer.
-- The callbacks are numbers, `none` for an empty std::function. A callback is called under the
-- adapter's mutex, so no operation runs in between.
pub mod Subscriptions
pub mod Delivery
pub mod Methods
pub mod Forwarding
use minimal_autosar_adaptive.Prelude.{
  ℕ, ◌+◌, ◌%◌, ◌^◌, Bool, true, false, ◌&&◌, ◌≡◌, ◌↔◌, nat_eq, ◌==◌, Eq, arith, Bytes, String, List,
  [], ◌∷◌, ◌++◌, Option, none, some, if◌then◌else◌, is_empty, ◌>>=◌,
}
use minimal_autosar_adaptive.Prelude.Table.{Table, lookup, insert, erase}
use minimal_autosar_adaptive.Someip.Binding.{
  Callback, Binding, Call, Message, Invocation, handler, request_an_event, release_an_event,
  subscribe_to_event, unsubscribe_event, request_a_service, release_a_service, offer_a_service,
  stop_offering_service, send_notification, send_a_request, send_a_response, init, shut_down,
  register_notification_handler, register_rpc_handler, register_availability_handler, on_message,
}

pub data Errc : Type 0 where
  ok not_found busy timeout transport_error invalid_arg : Errc

pub data Availability : Type 0 where
  unknown not_available available : Availability

-- Key and RpcKey: a service, an instance, and an event or a method.
pub record Key : Type 0 where
  pub service : ℕ
  pub instance : ℕ
  pub item : ℕ

abbrev pub key_beq : Key → Key → Bool
key_beq a b = a.service == b.service && (a.instance == b.instance && a.item == b.item)

pub key_beq_iff : (a b : Key) → (key_beq a b ≡ true) ↔ (a ≡ b)
key_beq_iff a b = ground arith

instance abbrev pub key_eq : Eq Key
key_eq = record { beq = key_beq; beq_iff = key_beq_iff }

pub record SubMeta : Type 0 where
  pub key : Key
  pub group : ℕ

-- The `once` flags are whether they have been used.
pub record Adapter : Type 0 where
  pub inited : Bool
  pub dispatching : Bool
  pub dispatching_rpc : Bool
  pub next_token : ℕ
  pub subs : Table Key (Table ℕ Callback)
  pub token_meta : Table ℕ SubMeta
  pub rpc : Table Key (Table ℕ Callback)

unfoldable pub new_adapter : Adapter
new_adapter = record {
  inited = false;
  dispatching = false;
  dispatching_rpc = false;
  next_token = 0;
  subs = [];
  token_meta = [];
  rpc = [];
}

-- The handlers that the adapter gives the binding.
abbrev pub event_dispatcher : ℕ
event_dispatcher = 1

abbrev pub rpc_dispatcher : ℕ
rpc_dispatcher = 2

abbrev pub bucket : Option (Table ℕ Callback) → Table ℕ Callback
bucket none = []
bucket (some t) = t

-- std::call_once(once_, …)
unfoldable pub adapter_init :
    String → Option Bytes → Adapter → Binding → Adapter × Binding × List Call
adapter_init app env a b =
    if a.inited
    then (a, b, [])
    else let (b', calls) = init app env b in (record a { inited = true }, b', calls)

unfoldable pub next : Adapter → ℕ
next a = (a.next_token + 1) % 2 ^ 64

unfoldable pub ensure_dispatcher_installed : Adapter → Binding → Adapter × Binding
ensure_dispatcher_installed a b =
    if a.dispatching
    then (a, b)
    else (record a { dispatching = true }, register_notification_handler (some event_dispatcher) b)

-- The tables of `subscribe_event`.
unfoldable pub add_subscription : Key → ℕ → Callback → Adapter → Adapter
unfolding next
add_subscription k g cb a =
    let token = next a in
    record a {
      next_token = token;
      subs = insert k (insert token cb (bucket (lookup k a.subs))) a.subs;
      token_meta = insert token (record { key = k; group = g }) a.token_meta;
    }

-- The event is requested explicitly, then its group is subscribed.
unfoldable pub request_and_subscribe : Key → ℕ → Binding → Option (List Call)
unfolding request_an_event subscribe_to_event
request_and_subscribe k g b = do
  requested ← request_an_event k.service k.instance k.item (g ∷ []) true b
  subscribed ← subscribe_to_event k.service k.instance g k.item b
  some (requested ++ subscribed)

-- The lock is held for the tables only; that no other call comes between them and the rest is an
-- assumption.
unfoldable pub subscribe_event :
    Key → ℕ → Callback → Adapter → Binding → Option (Adapter × Binding × List Call × ℕ)
subscribe_event k g cb a b =
    let added = add_subscription k g cb a in
    let (a', b') = ensure_dispatcher_installed added b in
    elim (request_and_subscribe k g b') [
      | none ↦ none
      | some calls ↦ some (a', b', calls, added.next_token)
    ]

-- What is left of the bucket of a key: an empty one is dropped.
unfoldable pub put_back :
    Key → Table ℕ Callback → Table Key (Table ℕ Callback) → Table Key (Table ℕ Callback)
put_back k left subs = if is_empty left then erase k subs else insert k left subs

unfoldable pub adapter_unsubscribe : ℕ → Adapter → Binding → Option (Adapter × List Call)
unfolding put_back
adapter_unsubscribe t a b = elim (lookup t a.token_meta) [
  | none ↦ some (a, [])
  | some m ↦
      let a' = record a { token_meta = erase t a.token_meta } in
      elim (lookup m.key a.subs) [
        | none ↦ some (a', [])
        | some handlers ↦
            let left = erase t handlers in
            let a'' = record a' { subs = put_back m.key left a.subs } in
            let quiet = unsubscribe_event m.key.service m.key.instance m.group m.key.item b in
            if is_empty left
            then (elim (release_an_event m.key.service m.key.instance m.key.item b) [
              | none ↦ none
              | some released ↦ some (a'', quiet ++ released)
            ])
            else some (a'', [])
      ]
]

-- The callbacks that are called with a payload.
unfoldable pub called : Bytes → Table ℕ Callback → List (ℕ × Bytes)
called payload [] = []
called payload ((t, none) ∷ cbs) = called payload cbs
called payload ((t, some cb) ∷ cbs) = (cb, payload) ∷ called payload cbs

-- The lambda of ensure_dispatcher_installed. The map of an event's callbacks is unordered, so `walk`
-- says in which order it is gone through.
unfoldable pub dispatch :
    (Table ℕ Callback → Table ℕ Callback) → Message → Adapter → List (ℕ × Bytes)
unfolding called
dispatch walk m a =
    elim (lookup (record { service = m.service; instance = m.instance; item = m.method }) a.subs) [
      | none ↦ []
      | some cbs ↦ called m.payload (walk cbs)
    ]

unfoldable pub ensure_rpc_dispatcher : Adapter → Binding → Adapter × Binding
ensure_rpc_dispatcher a b =
    if a.dispatching_rpc
    then (a, b)
    else (record a { dispatching_rpc = true }, register_rpc_handler (some rpc_dispatcher) b)

unfoldable pub register_method : Key → Callback → Adapter → Binding → Adapter × Binding × ℕ
unfolding next ensure_rpc_dispatcher
register_method k h a b =
    let token = next a in
    let (a', b') =
      ensure_rpc_dispatcher
        (record a {
          next_token = token;
          rpc = insert k (insert token h (bucket (lookup k a.rpc))) a.rpc;
        })
        b in
    (a', b', token)

-- The loop of `unregister_method`.
unfoldable pub drop_token : ℕ → Table Key (Table ℕ Callback) → Table Key (Table ℕ Callback)
drop_token t [] = []
drop_token t ((k, handlers) ∷ rpc) =
    let left = erase t handlers in
    let rest = drop_token t rpc in if is_empty left then rest else (k, left) ∷ rest

unfoldable pub unregister_method : ℕ → Adapter → Adapter
unfolding drop_token
unregister_method t a = record a { rpc = drop_token t a.rpc }

-- begin() of a bucket; which handler that is among several the standard leaves open.
abbrev pub first_handler : Table ℕ Callback → Callback
first_handler [] = none
first_handler ((t, h) ∷ more) = h

-- The handler that the lambda of ensure_rpc_dispatcher calls.
unfoldable pub rpc_handler_of : Key → Adapter → Callback
rpc_handler_of k a = first_handler (bucket (lookup k a.rpc))

-- What a handler does: the responses that it gives its responder, and whether it throws after them.
pub record Handled : Type 0 where
  pub responses : List Bytes
  pub throws : Bool

-- A call of send_response: the message that it answers, `none` for a null pointer, and the bytes.
abbrev pub Response : Type 0
Response = Option Message × Bytes

abbrev pub responses_to : Message → List Bytes → List Response
responses_to m [] = []
responses_to m (bytes ∷ more) = (some m, bytes) ∷ responses_to m more

-- The lambda of ensure_rpc_dispatcher, where `handlers` says what each handler does. The responder
-- is moved into the handler's argument with the message that it holds, so what is left of it in the
-- catch clause holds a null pointer.
unfoldable pub dispatch_rpc : (ℕ → Bytes → Handled) → Message → Adapter → List Response
unfolding rpc_handler_of
dispatch_rpc handlers m a =
    elim (rpc_handler_of (record { service = m.service; instance = m.instance; item = m.method })
      a) [
        | none ↦ []
        | some h ↦
            let done = handlers h m.payload in
            responses_to m done.responses ++ (if done.throws then (none, []) ∷ [] else [])
      ]

unfoldable pub adapter_offer : ℕ → ℕ → Binding → Option (List Call)
adapter_offer s i b = offer_a_service s i 0 0 b

-- The reply is made up at once, and empty: what the callback is called with.
unfoldable pub adapter_send_request :
    ℕ → ℕ → ℕ → Bytes → Callback → Binding → Option (List Call × List (ℕ × Errc × Bytes))
adapter_send_request s i m payload cb b = elim (send_a_request s i m payload b) [
  | none ↦ none
  | some calls ↦ some (calls, elim cb [ none ↦ [] | some h ↦ (h, ok, []) ∷ [] ])
]

-- The lambda of on_availability for (s, i): the state that its callback is called with.
unfoldable pub availability_of : ℕ → ℕ → ℕ → ℕ → Bool → Option Availability
availability_of s i ss ii up =
    if (ss == s) && (ii == i) then some (if up then available else not_available) else none
