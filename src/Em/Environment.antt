-- ===== src/Em/Environment.antt =====
-- build_someip_env: the value of SOMEIP_REQUEST_EVENTS for an application, and that the binding
-- reads from it what was meant.
pub mod RoundTrip
pub mod Child
use minimal_autosar_adaptive.Prelude.{
  ℕ, ◌||◌, nat_eq, ◌==◌, Bytes, List, [], ◌∷◌, ◌++◌, Option, some, is_empty, if◌then◌else◌,
}
use minimal_autosar_adaptive.Core.Numbers.{show_hex}
use minimal_autosar_adaptive.Em.Config.{ComConfig, AppConfig}

-- service:instance:event@group
unfoldable pub show_event : ComConfig → ℕ → Bytes
show_event c ev =
    show_hex c.service_id
    ++ (b':'
        ∷ (show_hex c.instance_id ++ (b':' ∷ (show_hex ev ++ (b'@' ∷ show_hex c.event_group)))))

-- A comma stands before every event but the first.
unfoldable pub show_events : ComConfig → List ℕ → Bytes
unfolding show_event
show_events c [] = []
show_events c (ev ∷ []) = show_event c ev
show_events c (ev ∷ more) = show_event c ev ++ (b',' ∷ show_events c more)

unfoldable pub build_someip_env : ComConfig → Bytes
unfolding show_events
build_someip_env c =
    if is_empty c.subscribe_events || (c.service_id == 0 || c.instance_id == 0)
    then []
    else show_events c c.subscribe_events

-- launch_app: the value of SOMEIP_REQUEST_EVENTS in the child, where the manager's own is `own`.
unfoldable pub child_env : Option Bytes → AppConfig → Option Bytes
unfolding build_someip_env
child_env own app =
    let env = build_someip_env app.com_config in if is_empty env then own else some env
