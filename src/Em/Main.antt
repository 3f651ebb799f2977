-- ===== src/Em/Main.antt =====
-- `main` of em/execution_manager.cpp: the parts of the manager in the order in which it runs them.
-- The documents, the order of the walk over the dependency map, the pids of the forks, the clock,
-- the signals and what happens in each turn of the loop are arguments. Logging is left out.
pub mod Booted
pub mod Starts
pub mod Supervises
use minimal_autosar_adaptive.Prelude.{
  ℕ, suc, ◌+◌, Bool, true, false, ◌&&◌, ◌||◌, not, Bytes, String, List, [], ◌∷◌, ◌++◌, map, Option,
  none, some, length, is_empty, string_eq, if◌then◌else◌,
}
use minimal_autosar_adaptive.Prelude.Table.{Table, lookup}
use minimal_autosar_adaptive.Core.Json.{Json}
use minimal_autosar_adaptive.Core.Result.{has_value}
use minimal_autosar_adaptive.Persistency.Registry.{Registry, World, init_from_file}
use minimal_autosar_adaptive.Someip.Binding.{
  Binding, Call, initial, init, offer_a_service, register_rpc_handler, shut_down,
}
use minimal_autosar_adaptive.Phm.Ids.{service, instance_id}
use minimal_autosar_adaptive.Em.Config.{AppConfig}
use minimal_autosar_adaptive.Em.Manifests.{Entry, load_manifests, build_client_to_appid_map}
use minimal_autosar_adaptive.Em.Environment.{child_env}
use minimal_autosar_adaptive.Em.Boot.{app_by_id, build_graph, start_order}
use minimal_autosar_adaptive.Em.Clock.{tick_period}
use minimal_autosar_adaptive.Em.Monitor.{Wait, Children, Signal, or_no_app, boot, shutdown}
use minimal_autosar_adaptive.Em.Supervision.{build_monitors}
use minimal_autosar_adaptive.Em.Loop.{Turn, Manager, Ended, main_loop}

-- What `main` meets. A file is `none` where it does not open, and `some none` where it does not
-- parse; `forks` are the pids of the launches at boot, and
-- `late_signal` is whether a signal has come by the end of the loop.
pub record Surroundings (J : Type 0) : Type 0 where
  pub storages_file : Option (Option J)
  pub manifests : List (Entry J)
  pub vsomeip_file : Option (Option J)
  pub own_env : Option Bytes
  pub walk : List String
  pub forks : ℕ → Option ℕ
  pub clock : ℕ
  pub turns : List Turn
  pub late_signal : Bool
  pub waits : List Wait

-- A run of the manager: the launches at boot, each with the value of SOMEIP_REQUEST_EVENTS, the
-- loop, the signals to the children and the calls into vsomeip.
pub record Run : Type 0 where
  pub launches : List (String × Option Bytes)
  pub loop : Ended
  pub signals : List Signal
  pub calls : List Call

-- `refused` is the return of 1, `uncaught` an exception that ends the process, and `unfinished` a
-- fuel that was not enough.
pub data Outcome : Type 0 where
  refused : Outcome
  uncaught : Outcome
  unfinished : Outcome
  returned : Run → Outcome

-- The launches from the `k`-th on, each with what its `fork` returns.
abbrev pub with_fork : (ℕ → Option ℕ) → ℕ → List String → List (String × Option ℕ)
with_fork forks k [] = []
with_fork forks k (id ∷ ids) = (id, forks k) ∷ with_fork forks (suc k) ids

unfoldable pub launches_of :
    Option Bytes → Table String AppConfig → List String → List (String × Option Bytes)
launches_of own by_id [] = []
launches_of own by_id (id ∷ ids) =
    (id, child_env own (or_no_app (lookup id by_id))) ∷ launches_of own by_id ids

abbrev pub no_children_yet : Children
no_children_yet = record { running_apps = []; restart_count = [] }

-- if (!running && !running_apps.empty())
unfoldable pub stop_children : Bool → List Wait → Children → List Signal
stop_children signalled waits c =
    if signalled && not (is_empty c.running_apps) then shutdown waits c else []

abbrev pub rpc_handler : ℕ
rpc_handler = 1

-- someip::init and someip::offer_service
unfoldable pub offer_phm : Option Bytes → Option (Binding × List Call)
offer_phm env =
    let (b, calls) = init "phm_supervisor" env initial in
    elim (offer_a_service service instance_id 0x0100 0x0001 b) [
      | none ↦ none
      | some offered ↦ some (b, calls ++ offered)
    ]

module _ {J : Type 0} (json : Json J) (fuel : ℕ) where
  -- From the order of the launches on.
  unfoldable pub supervise :
      Surroundings J → List AppConfig → Table ℕ String → Binding → List Call → List String → Outcome
  supervise w apps by_client b calls order =
      let by_id = app_by_id apps [] in
      let m : Manager = record {
        monitors = build_monitors apps [];
        children = boot by_id (with_fork w.forks 0 order) no_children_yet;
        next_tick = w.clock + tick_period;
      } in
      elim (main_loop fuel by_client w.turns m) [
        | none ↦ unfinished
        | some e ↦ returned (record {
          launches = launches_of w.own_env by_id order;
          loop = e;
          signals = stop_children (e.by_signal || w.late_signal) w.waits e.manager.children;
          calls = calls ++ (shut_down b).1;
        })
      ]

  -- From the manifests on.
  unfoldable pub start_up : Surroundings J → Binding → List Call → Outcome
  unfolding supervise
  start_up w b calls = elim (load_manifests json w.manifests) [
    | none ↦ uncaught
    | some apps ↦ elim (build_client_to_appid_map json w.vsomeip_file apps) [
      | none ↦ uncaught
      | some by_client ↦ elim (start_order (suc (length (build_graph apps).indeg)) w.walk apps) [
        | none ↦ unfinished
        | some order ↦
            supervise w apps by_client (register_rpc_handler (some rpc_handler) b) calls order
      ]
    ]
  ]

  unfoldable pub main : Surroundings J → Registry → World → Registry × World × Outcome
  unfolding start_up
  main w registry world =
      let (registry', world', r) = init_from_file json w.storages_file registry world in
      (
        registry',
        world',
        if not (has_value r) then refused else elim (offer_phm w.own_env) [
          | none ↦ uncaught
          | some (b, calls) ↦ start_up w b calls
        ],
      )
