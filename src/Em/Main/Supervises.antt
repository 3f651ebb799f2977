-- ===== src/Em/Main/Supervises.antt =====
-- What a run of the manager does for one application.
use Prim.Native.Nat.{min}
use minimal_autosar_adaptive.Prelude.{
  map, Bytes, ℕ, ◌+◌, ◌*◌, ◌<◌, ◌≡◌, ap, ◌∙◌, sym, Bool, true, false, String, List, [], ◌∷◌, Option,
  none, some, arith, All, string_eq, ◌==◌, if◌then◌else◌, Bool-cases, inl, inr,
}
use minimal_autosar_adaptive.Prelude.Table.{Table, keys, lookup, insert, emplace, keys-insert}
use minimal_autosar_adaptive.Prelude.Membership.{elem, count, Distinct, Distinct-snoc}
use minimal_autosar_adaptive.Phm.Supervisor.{Input, Supervisor, set_violation_callback}
use minimal_autosar_adaptive.Em.Config.{AppConfig}
use minimal_autosar_adaptive.Em.Handlers.{Monitors}
use minimal_autosar_adaptive.Em.Supervision.{Report, Event, build_monitors, has_phm, new_monitor}
use minimal_autosar_adaptive.Em.Supervision.Projection.{
  all_seen_by, after, output, said_of, run_events-projects,
}
use minimal_autosar_adaptive.Em.Monitor.{Wait, Children}
use minimal_autosar_adaptive.Em.Monitor.Restarts.{failures, monitor_restarts}
use minimal_autosar_adaptive.Core.Json.{Json}
use minimal_autosar_adaptive.Core.Result.{has_value}
use minimal_autosar_adaptive.Persistency.Registry.{Registry, World, init_from_file}
use minimal_autosar_adaptive.Em.Manifests.{load_manifests, build_client_to_appid_map}
use minimal_autosar_adaptive.Em.Boot.{build_graph}
use minimal_autosar_adaptive.Em.Boot.Order.{Walks}
use minimal_autosar_adaptive.Em.Clock.{tick_period}
use minimal_autosar_adaptive.Em.Loop.Split.{Follows, Before}
use minimal_autosar_adaptive.Em.Main.{Surroundings, Run, returned, main}
use minimal_autosar_adaptive.Em.Main.Booted.{IsBooted, monitor_named, build_monitors_named}
use minimal_autosar_adaptive.Em.Main.Starts.{IsRun, main-IsRun}

Distinct-emplace :
    (k : String) (v : Supervisor) (m : Monitors)
    → Distinct (keys m)
    → Distinct (keys (emplace k v m))
unfolding emplace
Distinct-emplace k v m d =
    elim (lookup k m) as (λ o. Distinct (keys (elim o [ none ↦ insert k v m | some w ↦ m ]))) [
      | none ↦ elim (Bool-cases (elem k (keys m))) [
        | inl old ↦ rw (keys-insert, old) d
        | inr new ↦ rw (keys-insert, new) (Distinct-snoc (keys m) k new d)
      ]
      | some w ↦ d
    ]

build_monitors-Distinct :
    (apps : List AppConfig) (m : Monitors)
    → Distinct (keys m)
    → Distinct (keys (build_monitors apps m))
unfolding build_monitors
build_monitors-Distinct [] m d = d
build_monitors-Distinct (a ∷ apps) m d =
    build_monitors-Distinct apps
      (if a.app_id == ""
        then m
        else if has_phm a
        then emplace a.app_id (set_violation_callback (new_monitor a)) m
        else m)
      (one (a.app_id == "") (has_phm a))
  where
    one :
        (b c : Bool)
        → Distinct (
            keys (
              if b
              then m
              else if c
              then emplace a.app_id (set_violation_callback (new_monitor a)) m
              else m))
    one true c = d
    one false true = Distinct-emplace a.app_id (set_violation_callback (new_monitor a)) m d
    one false false = d

-- What a run does for an application: its monitor, which its manifest describes, ends as if it
-- alone had been handed the reports `seen`, and what is said about the application is what the
-- monitor says; the application is started again for its first three failures.
pub record IsSupervised (apps : List AppConfig) (seen : List Input)
    (answers : List (Wait × Option ℕ)) (children : Children) (run : Run) (id : String)
    : Type 0 where
  pub state : lookup id run.loop.manager.monitors ≡ after seen (monitor_named id apps)
  pub said : said_of id run.loop.reports ≡ output seen (monitor_named id apps)
  pub restarts : count id run.loop.launched ≡ min 3 (failures id answers children)

-- For one application, of any run.
IsRun-supervises :
    {J : Type 0} (w : Surroundings J) (apps : List AppConfig) (by_client : Table ℕ String)
    (run : Run) (is_run : IsRun w apps by_client run) (id : String)
    → IsSupervised apps
        (all_seen_by by_client id is_run.events)
        is_run.answers
        is_run.children
        run
        id
IsRun-supervises w apps by_client run is_run id =
    let s = is_run.splits in
    let (state, said) =
      run_events-projects by_client id is_run.events (build_monitors apps [])
        (build_monitors-Distinct apps [] tt) in
    let seen = all_seen_by by_client id is_run.events in
    record {
      state =
          ap (λ (p : Monitors × List Report). lookup id p.0) (sym s.monitors)
          ∙ state
          ∙ ap (after seen) (build_monitors_named id apps);
      said =
          ap (λ (p : Monitors × List Report). said_of id p.1) (sym s.monitors)
          ∙ said
          ∙ ap (output seen) (build_monitors_named id apps);
      restarts = omega (
        arith,
        monitor_restarts id is_run.answers is_run.children,
        is_run.booted.fresh id,
        ap (λ (p : Children × List String). count id p.1) s.children,
      );
    }

pub main_supervises :
    {J : Type 0} (json : Json J) (fuel bound : ℕ) (w : Surroundings J) (apps : List AppConfig)
    (by_client : Table ℕ String) (registry : Registry) (world : World)
    → load_manifests json w.manifests ≡ some apps
    → build_client_to_appid_map json w.vsomeip_file apps ≡ some by_client
    → Walks w.walk (build_graph apps).indeg
    → All (Before bound) w.turns
    → bound < w.clock + tick_period + fuel * tick_period
    → has_value (init_from_file json w.storages_file registry world).2 ≡ true
    → (run : Run) × ((main json fuel w registry world).2 ≡ returned run)
      × (es : List Event) × (ws : List (Wait × Option ℕ)) × (children : Children) × Follows
          (w.clock + tick_period)
          w.turns
          es
          ws
      × IsBooted w.forks (map (λ (l : String × Option Bytes). l.0) run.launches) apps children
      × ((id : String) → IsSupervised apps (all_seen_by by_client id es) ws children run id)
main_supervises json fuel bound w apps by_client registry world loaded known walks before enough
      stored =
    let (run, ran, is_run) =
      main-IsRun json fuel bound w apps by_client loaded known walks before enough registry world
        stored in
    (
      run,
      ran,
      is_run.events,
      is_run.answers,
      is_run.children,
      is_run.follows,
      rw is_run.launched is_run.booted,
      IsRun-supervises w apps by_client run is_run,
    )
