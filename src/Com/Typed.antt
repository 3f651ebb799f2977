-- ===== src/Com/Typed.antt =====
-- Proxy and Skeleton: include/ara/com/core.hpp, the typed layer over the adapter. A service's
-- descriptor is a record, and the codec of a type an interface. A function object is a number; what
-- the lambdas of this layer do between the bytes and the object is a function of its own.
pub mod Delivery
use minimal_autosar_adaptive.Prelude.{
  ℕ, Bool, true, false, Bytes, String, List, [], ◌∷◌, Option, none, some, if◌then◌else◌,
}
use minimal_autosar_adaptive.Someip.Binding.{Callback, Binding, Call}
use minimal_autosar_adaptive.Com.Adapter.Forwarding.{
  adapter_request_service, adapter_release_service, adapter_stop_offer, adapter_notify,
}
use minimal_autosar_adaptive.Com.Adapter.{
  Errc, ok, not_found, busy, timeout, transport_error, invalid_arg, Key, Adapter, Handled,
  adapter_init, subscribe_event, adapter_offer, adapter_send_request, register_method,
}

pub record Codec (T : Type 0) : Type 0 where
  pub serialize : T → Bytes
  pub deserialize : Bytes → T

-- kServiceId and kInstanceId of a service's descriptor.
pub record Descriptor : Type 0 where
  pub service_id : ℕ
  pub instance_id : ℕ

-- kGroup and kId of an event.
pub record EventEntry : Type 0 where
  pub group : ℕ
  pub id : ℕ

abbrev pub key_of : Descriptor → ℕ → Key
key_of d item = record { service = d.service_id; instance = d.instance_id; item = item }

unfoldable pub is_ok : Errc → Bool
is_ok ok = true
is_ok _ = false

-- The constructors of Proxy and Skeleton.
unfoldable pub new_endpoint :
    String → Option Bytes → Adapter → Binding → Adapter × Binding × List Call
new_endpoint app env a b = adapter_init app env a b

unfoldable pub request_service : Descriptor → Binding → Option (List Call × Bool)
request_service d b = elim (adapter_request_service d.service_id d.instance_id b) [
  | none ↦ none
  | some (calls, ec) ↦ some (calls, is_ok ec)
]

unfoldable pub release_service : Descriptor → Binding → List Call
release_service d b = adapter_release_service d.service_id d.instance_id b

-- An empty callback makes a lambda that does nothing, like no callback.
unfoldable pub subscribe :
    Descriptor
    → EventEntry
    → Callback
    → Adapter
    → Binding
    → Option (Adapter × Binding × List Call × ℕ)
subscribe d e cb a b = subscribe_event (key_of d e.id) e.group cb a b

unfoldable pub offer : Descriptor → Binding → Option (List Call)
offer d b = adapter_offer d.service_id d.instance_id b

unfoldable pub stop : Descriptor → Binding → List Call
stop d b = adapter_stop_offer d.service_id d.instance_id b

-- The function that is bound is not empty.
unfoldable pub bind : Descriptor → ℕ → ℕ → Adapter → Binding → Adapter × Binding × ℕ
bind d m h a b = register_method (key_of d m) (some h) a b

module _ {T : Type 0} (codec : Codec T) where
  -- The lambda of `subscribe`: a callback is called with the value.
  unfoldable pub on_event : ℕ × Bytes → ℕ × T
  on_event (cb, bytes) = (cb, codec.deserialize bytes)

  unfoldable pub notify :
      Descriptor → EventEntry → T → Binding → Option (Binding × List Call × Errc)
  notify d e v b = adapter_notify d.service_id d.instance_id e.id (codec.serialize v) b

  -- The lambda of `call`, where `default` is R{}.
  unfoldable pub on_reply : T → ℕ × Errc × Bytes → ℕ × Errc × T
  unfolding is_ok
  on_reply default (h, ec, bytes) = (h, ec, if is_ok ec then codec.deserialize bytes else default)

abbrev pub replies : {T : Type 0} → Codec T → T → List (ℕ × Errc × Bytes) → List (ℕ × Errc × T)
replies codec default [] = []
replies codec default (r ∷ rs) = on_reply codec default r ∷ replies codec default rs

-- A call of a method, and what its on_done is called with.
unfoldable pub call :
    {Req Res : Type 0}
    → Codec Req
    → Codec Res
    → Res
    → Descriptor
    → ℕ
    → Req
    → Callback
    → Binding
    → Option (List Call × List (ℕ × Errc × Res))
unfolding on_reply
call requests results default d m req on_done b =
    elim (adapter_send_request d.service_id d.instance_id m (requests.serialize req) on_done b) [
      | none ↦ none
      | some (calls, answers) ↦ some (calls, replies results default answers)
    ]

-- What a method does with a request: its responses, and whether it throws after them.
pub record Outcome (Res : Type 0) : Type 0 where
  pub answers : List (Errc × Res)
  pub throws : Bool

-- The lambda given to a method's responder.
unfoldable pub respond : {Res : Type 0} → Codec Res → Errc → Res → Bytes
unfolding is_ok
respond results ec res = if is_ok ec then results.serialize res else []

abbrev pub responses : {Res : Type 0} → Codec Res → List (Errc × Res) → List Bytes
responses results [] = []
responses results ((ec, res) ∷ more) = respond results ec res ∷ responses results more

-- The lambda of `bind`.
unfoldable pub bound :
    {Req Res : Type 0} → Codec Req → Codec Res → (Req → Outcome Res) → Bytes → Handled
unfolding respond
bound requests results fn bytes =
    let done = fn (requests.deserialize bytes) in
    record { responses = responses results done.answers; throws = done.throws }
