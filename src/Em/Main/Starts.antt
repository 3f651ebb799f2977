-- ===== src/Em/Main/Starts.antt =====
-- What the manager launches at boot, and that it starts nothing without its storages.
use minimal_autosar_adaptive.Prelude.{
  not, ◌∷◌, Bool, ◌++◌, ◌||◌, if◌then◌else◌, zero, map, true, false, is_empty, ℕ, suc, ◌+◌, ◌*◌,
  ◌<◌, ◌≡◌, ◌⊎◌, refl, Bytes, String, List, [], Option, none, some, arith, All, length, string_eq,
  ◌∙◌,
}
use minimal_autosar_adaptive.Prelude.Table.{Table, keys, erase}
use minimal_autosar_adaptive.Core.Json.{Json}
use minimal_autosar_adaptive.Core.Result.{has_value}
use minimal_autosar_adaptive.Persistency.Registry.{Registry, World, init_from_file}
use minimal_autosar_adaptive.Someip.Binding.{
  stop, Binding, Call, initial, init, offer_a_service, through_app, register_rpc_handler, shut_down,
}
use minimal_autosar_adaptive.Em.Config.{AppConfig}
use minimal_autosar_adaptive.Em.Manifests.{load_manifests, build_client_to_appid_map}
use minimal_autosar_adaptive.Em.Boot.{app_by_id, build_graph, manifest_order, start_order}
use minimal_autosar_adaptive.Em.Boot.Order.{Walks, IsStartOrder, IsStuck, start_order_lem}
use minimal_autosar_adaptive.Em.Clock.{tick_period}
use minimal_autosar_adaptive.Em.Monitor.{
  Wait, reaped, unchanged, no_children, transient, Children, await_exit, shutdown, boot, term, kill,
}
use minimal_autosar_adaptive.Em.Supervision.{Event, build_monitors}
use minimal_autosar_adaptive.Em.Loop.{Manager, Ended, main_loop}
use minimal_autosar_adaptive.Em.Loop.Split.{Follows, Before, Splits, main_loop-Splits}
use minimal_autosar_adaptive.Em.Main.Booted.{
  Environs, launches_of-Environs, IsBooted, boot-IsBooted,
}
use minimal_autosar_adaptive.Em.Main.{
  Surroundings, Run, refused, returned, with_fork, launches_of, no_children_yet, stop_children,
  rpc_handler, offer_phm, supervise, start_up, main,
}

-- The manager at the start of its loop.
abbrev pub looped : {J : Type 0} → Surroundings J → List AppConfig → Children → Manager
looped w apps children = record {
  monitors = build_monitors apps [];
  children = children;
  next_tick = w.clock + tick_period;
}

offered :
    (env : Option Bytes)
    → (b : Binding) × (calls : List Call) × (offer_phm env ≡ some (b, calls))
      × (b.app ≡ some "phm_supervisor")
unfolding offer_phm init offer_a_service through_app initial
offered none = (_, _, refl, refl)
offered (some spec) = (_, _, refl, refl)

await_exit-nil : (n : ℕ) (ws : List Wait) → await_exit n ws [] ≡ []
unfolding await_exit erase
await_exit-nil zero ws = refl
await_exit-nil (suc n) [] = refl
await_exit-nil (suc n) (reaped pid status ∷ ws) = refl
await_exit-nil (suc n) (unchanged ∷ ws) = await_exit-nil n ws
await_exit-nil (suc n) (no_children ∷ ws) = refl
await_exit-nil (suc n) (transient ∷ ws) = await_exit-nil n ws

-- Where no child is left there is nothing to shut down.
stop_children-shutdown :
    (signalled : Bool) (ws : List Wait) (c : Children)
    → stop_children signalled ws c ≡ (if signalled then shutdown ws c else [])
unfolding stop_children shutdown
stop_children-shutdown false ws c = refl
stop_children-shutdown true ws c =
    elim c.running_apps
      as (λ m.
        (if not (is_empty m) then map term (keys m) ++ map kill (keys (await_exit 20 ws m)) else [])
        ≡ map term (keys m) ++ map kill (keys (await_exit 20 ws m))) [
          | [] ↦ rw (await_exit-nil 20 ws) refl
          | x ∷ xs ↦ refl
        ]

-- How a run stands to what the manager met.
pub record IsRun {J : Type 0} (w : Surroundings J) (apps : List AppConfig)
    (by_client : Table ℕ String) (run : Run) : Type 0 where
  pub order : List String
  pub launched : map (λ (l : String × Option Bytes). l.0) run.launches ≡ order
  pub environs : All (Environs w.own_env apps) run.launches
  pub ordered :
      IsStartOrder apps order
      ⊎ ((order ≡ manifest_order apps) × (done : List String) × IsStuck apps done)
  pub children : Children
  pub booted : IsBooted w.forks order apps children
  pub events : List Event
  pub answers : List (Wait × Option ℕ)
  pub follows : Follows (w.clock + tick_period) w.turns events answers
  pub splits : Splits by_client (looped w apps children) events answers run.loop
  pub stopped : run.signals ≡ (
      if run.loop.by_signal || w.late_signal
      then shutdown w.waits run.loop.manager.children
      else [])
  pub ended : (before : List Call) × (run.calls ≡ before ++ stop ∷ [])

module _ {J : Type 0} (json : Json J) (fuel bound : ℕ) (w : Surroundings J) (apps : List AppConfig)
    (by_client : Table ℕ String) (loaded : load_manifests json w.manifests ≡ some apps)
    (known : build_client_to_appid_map json w.vsomeip_file apps ≡ some by_client)
    (walks : Walks w.walk (build_graph apps).indeg) (before : All (Before bound) w.turns)
    (enough : bound < w.clock + tick_period + fuel * tick_period) where
  start_up-supervise :
      (b : Binding) (calls : List Call) (order : List String)
      → start_order (suc (length (build_graph apps).indeg)) w.walk apps ≡ some order
      → start_up json fuel w b calls
        ≡ supervise json fuel w apps by_client
            (register_rpc_handler (some rpc_handler) b)
            calls
            order
  unfolding start_up
  start_up-supervise b calls order e = ground arith

  abbrev booted_of : List String → Children
  booted_of order = boot (app_by_id apps []) (with_fork w.forks 0 order) no_children_yet

  supervise-returned :
      (b : Binding) (calls : List Call) (order : List String) (e : Ended)
      → main_loop fuel by_client w.turns (looped w apps (booted_of order)) ≡ some e
      → supervise json fuel w apps by_client b calls order
        ≡ returned (record {
          launches = launches_of w.own_env (app_by_id apps []) order;
          loop = e;
          signals = stop_children (e.by_signal || w.late_signal) w.waits e.manager.children;
          calls = calls ++ (shut_down b).1;
        })
  unfolding supervise
  supervise-returned b calls order e h = ground arith

  start_up-IsRun :
      (b : Binding) (calls : List Call) (name : String)
      → b.app ≡ some name
      → (run : Run) × (start_up json fuel w b calls ≡ returned run) × IsRun w apps by_client run
  start_up-IsRun b calls name live =
      let (order, ran, sorted) =
        start_order_lem (suc (length (build_graph apps).indeg)) w.walk apps walks (omega arith) in
      let children = booted_of order in
      let (ids, environs) = launches_of-Environs w.own_env apps order in
      let (e, es, ws, looped_to, follows, splits) =
        main_loop-Splits by_client fuel bound w.turns (looped w apps children) before enough in
      let b' = register_rpc_handler (some rpc_handler) b in
      (
        _,
        start_up-supervise b calls order ran ∙ supervise-returned b' calls order e looped_to,
        record {
          order = order;
          launched = ids;
          environs = environs;
          children = children;
          booted = boot-IsBooted w.forks order apps;
          ordered = sorted;
          events = es;
          answers = ws;
          follows = follows;
          splits = splits;
          stopped =
              stop_children-shutdown (e.by_signal || w.late_signal) w.waits e.manager.children;
          ended = (calls, unfold shut_down register_rpc_handler in ground (arith, live));
        },
      )

  pub main-IsRun :
      (registry : Registry) (world : World)
      → has_value (init_from_file json w.storages_file registry world).2 ≡ true
      → (run : Run) × ((main json fuel w registry world).2 ≡ returned run)
        × IsRun w apps by_client run
  unfolding main
  main-IsRun registry world stored =
      let (b, calls, e, live) = offered w.own_env in
      let (run, ran, is_run) = start_up-IsRun b calls "phm_supervisor" live in
      (run, ground (arith, e, ran), is_run)

-- Without its storages the manager returns 1, whatever else it would meet: it reads no manifest and
-- launches nothing.
pub main_refuses :
    {J : Type 0} (json : Json J) (fuel : ℕ) (w : Surroundings J) (registry : Registry)
    (world : World)
    → has_value (init_from_file json w.storages_file registry world).2 ≡ false
    → (main json fuel w registry world).2 ≡ refused
unfolding main
main_refuses json fuel w registry world h = ground arith
