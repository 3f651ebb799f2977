-- ===== src/Apps/Pair.antt =====
-- The sensor provider and the speed client together: what one sends is what the other hears.
use minimal_autosar_adaptive.Prelude.{
  ℕ, zero, suc, ◌≡◌, refl, ap, ◌∙◌, Bytes, List, [], ◌∷◌, ◌++◌, map, Option, some, arith, nat_eq,
  ◌>>=◌, String,
}
use minimal_autosar_adaptive.Prelude.Table.{Table, lookup, insert}
use minimal_autosar_adaptive.Someip.Binding.{
  Callback, Binding, Call, Message, fan_out, on_message, initial, init, through_app,
  request_a_service, offer_a_service, register_notification_handler, request_an_event,
  subscribe_to_event,
}
use minimal_autosar_adaptive.Phm.Client.{report_alive, new_client, connect}
use minimal_autosar_adaptive.Com.Adapter.{
  Adapter, new_adapter, key_eq, adapter_init, add_subscription, next, ensure_dispatcher_installed,
  request_and_subscribe, subscribe_event, adapter_offer, called, dispatch,
}
use minimal_autosar_adaptive.Com.Adapter.Forwarding.{adapter_request_service}
use minimal_autosar_adaptive.Com.Typed.{
  new_endpoint, offer, subscribe, request_service, is_ok, on_event,
}
use minimal_autosar_adaptive.Com.Typed.Delivery.{
  notification, messages, dispatched, heard, notify-messages,
}
use minimal_autosar_adaptive.Prelude.Walk.{IsWalk, walk-one, callbacks-IsSet}
use minimal_autosar_adaptive.Apps.Float.{
  Float, stof_or_zero, float_codec, compute_speed_from_phase, speed_desc, speed_event,
}
use minimal_autosar_adaptive.Apps.SensorProvider.{start_provider, publish}
use minimal_autosar_adaptive.Apps.SpeedClient.{attach}

module _ {F : Type 0} (float : Float F) where
  -- The calls of `n` rounds of the provider.
  pub published : ℕ → F → Binding → Option (List Call)
  published zero t b = some []
  published (suc n) t b = do
    (t', b', alive, calls) ← publish float t b
    more ← published n t' b'
    some (calls ++ more)

  -- The speeds of `n` rounds.
  pub speeds : ℕ → F → List F
  speeds zero t = []
  speeds (suc n) t =
      compute_speed_from_phase float t ∷ speeds n (float.plus t (float.literal "0.2"))

  sent_to : F → Message
  sent_to v = notification speed_desc speed_event (float.to_string v)

  messages-append : (xs ys : List Call) → messages (xs ++ ys) ≡ messages xs ++ messages ys
  unfolding messages
  messages-append [] ys = refl
  messages-append (x ∷ xs) ys = ground (arith, messages-append xs ys)

  publish-sends :
      (t : F) (b : Binding) (name : String)
      → b.app ≡ some name
      → (b' : Binding) × (calls : List Call) × (publish float t b
          ≡ some (float.plus t (float.literal "0.2"), b', report_alive, calls))
        × (messages calls ≡ sent_to (compute_speed_from_phase float t) ∷ [])
        × (b'.app ≡ some name)
  unfolding publish sent_to float_codec
  publish-sends t b name h =
      let (b', calls, ran, sent, live) =
        notify-messages (float_codec float) speed_desc speed_event
          (compute_speed_from_phase float t) b name h in
      (b', calls, ground (arith, ran), sent, live)

  published-sends :
      (n : ℕ) (t : F) (b : Binding) (name : String)
      → b.app ≡ some name
      → (calls : List Call) × (published n t b ≡ some calls)
        × (messages calls ≡ map sent_to (speeds n t))
  unfolding published speeds messages
  published-sends zero t b name h = ([], refl, refl)
  published-sends (suc n) t b name h =
      let (b', calls, e, m, h') = publish-sends t b name h in
      let (more, es, ms) = published-sends n (float.plus t (float.literal "0.2")) b' name h' in
      (calls ++ more, ground (arith, e, es), messages-append calls more ∙ rw (m, ms) refl)

  heard-sent :
      (walk : Table ℕ Callback → Table ℕ Callback) (cb : ℕ) (a : Adapter) (b : Binding)
      → ((payload : Bytes)
          → dispatched walk (on_message (notification speed_desc speed_event payload) b) a
            ≡ (cb, payload) ∷ [])
      → (vs : List F)
      → heard (float_codec float) walk (map sent_to vs) a b
        ≡ map (λ v. (cb, stof_or_zero float (float.to_string v))) vs
  unfolding heard sent_to on_event float_codec
  heard-sent walk cb a b h [] = refl
  heard-sent walk cb a b h (v ∷ vs) = rw (h (float.to_string v), heard-sent walk cb a b h vs) refl

started :
    (env : Option Bytes)
    → (a : Adapter) × (b : Binding) × (calls : List Call) × (start_provider env new_adapter initial
        ≡ some (a, b, calls))
      × (b.app ≡ some "sensor_provider")
unfolding start_provider new_client init connect request_a_service through_app new_endpoint
    adapter_init offer adapter_offer offer_a_service initial new_adapter
started env = (_, _, _, refl, refl)

attached :
    (walk : Table ℕ Callback → Table ℕ Callback) (env : Option Bytes) (cb : ℕ)
    → IsWalk walk
    → (a : Adapter) × (b : Binding) × (calls : List Call) × (token : ℕ) × (attach env
          (some cb)
          new_adapter
          initial
        ≡ some (a, b, calls, token))
      × ((payload : Bytes)
          → dispatched walk (on_message (notification speed_desc speed_event payload) b) a
            ≡ (cb, payload) ∷ [])
unfolding dispatched on_message fan_out attach new_client init connect request_a_service through_app
    new_endpoint adapter_init request_service adapter_request_service is_ok subscribe
    subscribe_event add_subscription next ensure_dispatcher_installed request_and_subscribe
    request_an_event subscribe_to_event register_notification_handler initial new_adapter speed_desc
    speed_event dispatch called lookup insert
attached walk env cb walks =
    (_, _, _, _, refl, λ payload. rw (walk-one callbacks-IsSet walk (1, some cb) walks) refl)

pub published-heard :
    {F : Type 0} (float : Float F) (walk : Table ℕ Callback → Table ℕ Callback)
    (server_env client_env : Option Bytes) (cb n : ℕ) (t : F)
    → IsWalk walk
    → (provider : Adapter × Binding × List Call) × (client : Adapter × Binding × List Call × ℕ)
      × (calls : List Call) × (start_provider server_env new_adapter initial ≡ some provider)
      × (attach client_env (some cb) new_adapter initial ≡ some client)
      × (published float n t provider.1 ≡ some calls)
      × (heard (float_codec float) walk (messages calls) client.0 client.1
          ≡ map (λ v. (cb, stof_or_zero float (float.to_string v))) (speeds float n t))
published-heard float walk server_env client_env cb n t walks =
    let (a, b, calls, e, named) = started server_env in
    let (a', b', calls', token, e', hears) = attached walk client_env cb walks in
    let (sent, p, m) = published-sends float n t b "sensor_provider" named in
    (
      (a, b, calls),
      (a', b', calls', token),
      sent,
      e,
      e',
      p,
      ap (λ ms. heard (float_codec float) walk ms a' b') m
          ∙ heard-sent float walk cb a' b' hears (speeds float n t),
    )
