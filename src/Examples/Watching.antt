-- ===== src/Examples/Watching.antt =====
-- A supervisor of one application that tolerates one missed cycle and wants checkpoint 7.
use minimal_autosar_adaptive.Prelude.{
  ℕ, suc, ◌+◌, ◌*◌, ◌≤◌, ◌≡◌, ◌≢◌, ◌↔◌, refl, true, false, nat_eq, string_eq, ◌==◌, String, List,
  [], ◌∷◌, ◌++◌, map, length, some, arith,
}
use minimal_autosar_adaptive.Prelude.Int.{pos}
use minimal_autosar_adaptive.Prelude.Table.{Table, keys, lookup}
use minimal_autosar_adaptive.Prelude.Membership.{Distinct}
use minimal_autosar_adaptive.Phm.Supervisor.{
  Supervisor, Input, alive, checkpoint, tick, missed, violation, run, elapsed,
}
use minimal_autosar_adaptive.Phm.Supervisor.Verdict.{IsDue, IsHealthy, tick-IsHealthy}
use minimal_autosar_adaptive.Phm.Supervisor.Misses.{
  violations, misses, IsCounting, run-IsCounting, silence_violates,
}
use minimal_autosar_adaptive.Phm.Client.{report_checkpoint}
use minimal_autosar_adaptive.Em.Supervision.{Event, request, ticks, run_events}
use minimal_autosar_adaptive.Em.Supervision.Projection.{
  all_seen_by, said_of, after, output, run_events-projects,
}
use minimal_autosar_adaptive.Em.Handlers.{Monitors}

-- Cycles of one millisecond, the first of which began at time 5.
abbrev watcher : Supervisor
watcher = record {
  cfg = record {
    supervision_cycle_ms = pos 1;
    allowed_missed_cycles = pos 1;
    required_checkpoints = 7 ∷ [];
  };
  cycle_start = 5;
  got_alive = false;
  seen_cps = [];
  missed_cycles = 0;
  last_healthy = 5;
  has_callback = true;
}

abbrev reports : List Input
reports = checkpoint 7 ∷ alive ∷ []

watcher-IsDue : IsDue watcher 1000005
unfolding elapsed
watcher-IsDue = record { started = omega arith; over = refl }

tick-IsHealthy_example :
    ((run (reports ++ tick 1000005 ∷ []) watcher).1 ≡ [])
    ↔ IsHealthy reports watcher.cfg.required_checkpoints
tick-IsHealthy_example =
    tick-IsHealthy reports watcher 1000005 (tt, (tt, tt)) refl refl watcher-IsDue

watcher-IsCounting : IsCounting 1 watcher
watcher-IsCounting = record { allows = refl; within = omega arith }

run-IsCounting_example :
    IsCounting 1 (run reports watcher).0
    × (violations (run reports watcher).1 * suc 1 + (run reports watcher).0.missed_cycles
        ≤ watcher.missed_cycles + misses (run reports watcher).1)
run-IsCounting_example = run-IsCounting 1 reports watcher watcher-IsCounting

abbrev ends : List ℕ
ends = 1000005 ∷ 2000005 ∷ 3000006 ∷ []

silence : (run (map tick ends) watcher).1 ≡ missed 1 ∷ missed 2 ∷ violation ∷ missed 1 ∷ []
unfolding run
silence = refl

silence_violates_example :
    (violations (run (map tick ends) watcher).1 * suc 1
        + (run (map tick ends) watcher).0.missed_cycles
      ≡ watcher.missed_cycles + length ends)
    × ((run (map tick ends) watcher).0.missed_cycles ≤ 1)
unfolding elapsed
silence_violates_example =
    silence_violates 1 ends watcher watcher-IsCounting (record { quiet = refl; watched = refl })
      (omega arith, refl, (omega arith, refl, (omega arith, refl, omega arith)))

abbrev clients : Table ℕ String
clients = (0x5555, "client") ∷ (0x6666, "provider") ∷ []

abbrev watched : Monitors
watched = ("client", watcher) ∷ ("provider", watcher) ∷ []

names_differ : (◌==◌ {A = String} "provider" "client") ≡ false
names_differ = refl

other_client : lookup 0x6666 clients ≢ some "client"
unfolding lookup
other_client e = ground (arith, names_differ, string_eq.beq_iff "provider" "client")

watched_once : Distinct (keys watched)
watched_once = (refl, (refl, tt))

-- A report of the provider, then a tick of all.
abbrev events : List Event
events = request (report_checkpoint 7) 0x6666 ∷ ticks (λ id. 1000005) ∷ []

run_events-projects_example :
    (lookup "client" (run_events clients events watched).0
      ≡ after (all_seen_by clients "client" events) (lookup "client" watched))
    × (said_of "client" (run_events clients events watched).1
        ≡ output (all_seen_by clients "client" events) (lookup "client" watched))
run_events-projects_example = run_events-projects clients "client" events watched watched_once
