-- ===== src/Em/Environment/Child.antt =====
-- What an application that the manager launched asks of vsomeip when it initialises the binding.
use minimal_autosar_adaptive.Prelude.{
  ℕ, ◌<◌, ◌≡◌, refl, ◌∙◌, ◌||◌, nat_eq, ◌==◌, Bytes, String, List, [], ◌∷◌, ◌++◌, map, Option, none,
  some, All, arith, is_empty, if◌then◌else◌, Bool, true, false,
}
use minimal_autosar_adaptive.Someip.Requests.{EventRequest, auto_requests}
use minimal_autosar_adaptive.Someip.Binding.{
  Binding, create_application, register_handlers, start, auto_calls, init, Call, request_event,
  subscribe,
}
use minimal_autosar_adaptive.Em.Config.{AppConfig, ComConfig}
use minimal_autosar_adaptive.Em.Environment.{build_someip_env, child_env}
use minimal_autosar_adaptive.Em.Environment.RoundTrip.{
  IsWords, meant, auto_requests-build_someip_env,
}

requests_of : ℕ → Option Bytes → List EventRequest
requests_of default none = []
requests_of default (some spec) = auto_requests default spec

-- An empty string asks for nothing, like an unset variable.
requests_of-child_env :
    (default : ℕ) (app : AppConfig)
    → requests_of default (child_env none app)
      ≡ auto_requests default (build_someip_env app.com_config)
unfolding child_env requests_of
requests_of-child_env default app = by_env (build_someip_env app.com_config)
  where
    by_env :
        (env : Bytes)
        → requests_of default (if is_empty env then none else some env) ≡ auto_requests default env
    by_env [] = unfold auto_requests in refl
    by_env (b ∷ env) = refl

init-requests_of :
    (name : String) (env : Option Bytes) (b : Binding)
    → b.app ≡ none
    → (init name env b).1
      ≡ create_application name
        ∷ register_handlers
        ∷ (auto_calls (requests_of b.default_event_group env)
            ++ (if b.started then [] else start ∷ []))
unfolding init requests_of
init-requests_of name none b h = unfold auto_calls in ground arith
init-requests_of name (some spec) b h = ground arith

-- What asks vsomeip for an event of a configuration: the event is requested in the group of the
-- configuration, as a reliable one, and the group is subscribed to.
pub asked_for : ComConfig → List ℕ → List Call
asked_for c [] = []
asked_for c (ev ∷ evs) =
    (request_event c.service_id c.instance_id ev (c.event_group ∷ []) true
      ∷ subscribe c.service_id c.instance_id c.event_group
      ∷ [])
    ++ asked_for c evs

auto_calls-meant : (c : ComConfig) (evs : List ℕ) → auto_calls (map (meant c) evs) ≡ asked_for c evs
unfolding auto_calls asked_for
auto_calls-meant c [] = refl
auto_calls-meant c (ev ∷ evs) = ground (arith, auto_calls-meant c evs)

auto_calls-wanted :
    (c : ComConfig) (unset : Bool)
    → auto_calls (if unset then [] else map (meant c) c.subscribe_events)
      ≡ (if unset then [] else asked_for c c.subscribe_events)
unfolding auto_calls
auto_calls-wanted c true = refl
auto_calls-wanted c false = auto_calls-meant c c.subscribe_events

-- A freshly launched application that initialises the binding for the first time creates the
-- vsomeip application, has its handlers registered, then for each event of its manifest, in their
-- order, requests it in the group of the manifest and subscribes to the group, and starts unless it
-- has started. It asks for no event if the manifest leaves the service or the instance 0. Numbers
-- that do not fit in 16 bits are not considered, and the manager's own environment asks for no
-- events.
pub init-child_env :
    (name : String) (app : AppConfig) (b : Binding)
    → b.app ≡ none
    → IsWords app.com_config
    → All (λ ev. ev < 65536) app.com_config.subscribe_events
    → (init name (child_env none app) b).1
      ≡ create_application name
        ∷ register_handlers
        ∷ ((if app.com_config.service_id == 0 || app.com_config.instance_id == 0
              then []
              else asked_for app.com_config app.com_config.subscribe_events)
            ++ (if b.started then [] else start ∷ []))
init-child_env name app b h w small =
    let c = app.com_config in
    init-requests_of name (child_env none app) b h
    ∙ rw
        (
          requests_of-child_env b.default_event_group app,
          auto_requests-build_someip_env c w b.default_event_group small,
          auto_calls-wanted c (c.service_id == 0 || c.instance_id == 0),
        )
        refl
