-- ===== src/Em/Supervision.antt =====
-- How `main` supervises: the monitors that it builds, its periodic ticks, and the requests in
-- between. Seen from one application, all this is one supervisor that is handed the reports of that
-- application and the ticks.
pub mod Projection
use minimal_autosar_adaptive.Prelude.{
  ℕ, Bool, true, false, not, ◌||◌, string_eq, ◌==◌, String, List, [], ◌∷◌, ◌++◌, map, is_empty,
  if◌then◌else◌,
}
use minimal_autosar_adaptive.Prelude.Int.{pos, ltb_ℤ}
use minimal_autosar_adaptive.Prelude.Table.{Table, emplace}
use minimal_autosar_adaptive.Phm.Client.{Request}
use minimal_autosar_adaptive.Phm.Supervisor.{
  Config, Supervisor, Output, create, set_violation_callback, maintenance_tick,
}
use minimal_autosar_adaptive.Em.Config.{AppConfig}
use minimal_autosar_adaptive.Em.Handlers.{Monitors, handle_request}

-- AppMonitor(cfg)
unfoldable pub new_monitor : AppConfig → Supervisor
unfolding create
new_monitor a = create (record {
  supervision_cycle_ms = a.phm.period_ms;
  allowed_missed_cycles = a.phm.allowed_missed_cycles;
  required_checkpoints = a.phm.required_checkpoints;
})

unfoldable pub has_phm : AppConfig → Bool
has_phm a =
    ltb_ℤ (pos 0) a.phm.period_ms
    || (a.phm.require_alive || not (is_empty a.phm.required_checkpoints))

unfoldable pub build_monitors : List AppConfig → Monitors → Monitors
unfolding has_phm new_monitor set_violation_callback
build_monitors [] m = m
build_monitors (a ∷ apps) m = build_monitors apps (
    if a.app_id == ""
    then m
    else if has_phm a
    then emplace a.app_id (set_violation_callback (new_monitor a)) m
    else m)

-- One output of a supervisor, with the application that it is about.
abbrev pub Report : Type 0
Report = String × Output

abbrev pub about : String → List Output → List Report
about id out = map (λ (o : Output). (id, o)) out

-- for (auto& [aid, mon] : mon_by_app) mon.sup.maintenance_tick(); `clock` is what each reads.
unfoldable pub tick_all : (String → ℕ) → Monitors → Monitors × List Report
unfolding maintenance_tick
tick_all clock [] = ([], [])
tick_all clock ((id, sup) ∷ m) =
    let (sup', out) = maintenance_tick (clock id) sup in
    let (m', more) = tick_all clock m in ((id, sup') ∷ m', about id out ++ more)

-- What happens to the monitors: a request of a client, or a tick.
pub data Event : Type 0 where
  request : Request → ℕ → Event
  ticks : (String → ℕ) → Event

unfoldable pub on_event : Table ℕ String → Event → Monitors → Monitors × List Report
unfolding handle_request tick_all
on_event by_client (request req client) m = ((handle_request by_client req client m).0, [])
on_event by_client (ticks clock) m = tick_all clock m

unfoldable pub run_events : Table ℕ String → List Event → Monitors → Monitors × List Report
unfolding on_event
run_events by_client [] m = (m, [])
run_events by_client (e ∷ es) m =
    let (m', out) = on_event by_client e m in
    let (m'', more) = run_events by_client es m' in (m'', out ++ more)
