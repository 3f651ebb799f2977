-- ===== src/Em/Loop.antt =====
-- The loop of `main`, as a whole: in each turn the ticks that are due, then one `waitpid` and what
-- follows it. The requests of the clients come in between, on the binding's thread; the monitors
-- have no lock, so that each is handled at one point is an assumption.
pub mod Split
use minimal_autosar_adaptive.Prelude.{
  ℕ, zero, suc, ◌+◌, Bool, true, false, String, List, [], ◌∷◌, ◌++◌, map, Option, none, some,
  if◌then◌else◌,
}
use minimal_autosar_adaptive.Prelude.Table.{Table}
use minimal_autosar_adaptive.Phm.Client.{Request}
use minimal_autosar_adaptive.Em.Handlers.{Monitors}
use minimal_autosar_adaptive.Em.Supervision.{Report, Event, request, ticks, run_events}
use minimal_autosar_adaptive.Em.Clock.{periodic}
use minimal_autosar_adaptive.Em.Monitor.{Wait, Children, round}

-- What one turn meets: whether a signal has come at its start, the clock, what the clock reads and
-- whether no signal has come after each tick, what each monitor reads in the tick of a number, the
-- requests before that tick and those after the last, the answer of `waitpid`, and the pid of a fork.
pub record Turn : Type 0 where
  pub goes_on : Bool
  pub now : ℕ
  pub clock : ℕ → ℕ
  pub running : ℕ → Bool
  pub reads : ℕ → String → ℕ
  pub requests : ℕ → List (Request × ℕ)
  pub later : List (Request × ℕ)
  pub wait : Wait
  pub fork : Option ℕ

-- The manager in its loop.
pub record Manager : Type 0 where
  pub monitors : Monitors
  pub children : Children
  pub next_tick : ℕ

abbrev pub asked : List (Request × ℕ) → List Event
asked [] = []
asked ((req, client) ∷ more) = request req client ∷ asked more

-- The requests and ticks of a turn that makes `left` more ticks, the next of number `k`.
unfoldable pub turn_events : ℕ → ℕ → Turn → List Event
turn_events zero k t = asked t.later
turn_events (suc left) k t = asked (t.requests k) ++ ticks (t.reads k) ∷ turn_events left (suc k) t

-- How a loop stands at its end: the manager, what was reported and launched, and whether a signal
-- ended it.
pub record Ended : Type 0 where
  pub manager : Manager
  pub reports : List Report
  pub launched : List String
  pub by_signal : Bool

abbrev pub and_before : List Report → List String → Ended → Ended
and_before reports launched e = record e {
  reports = reports ++ e.reports;
  launched = launched ++ e.launched;
}

-- while (running). The turns end where the loop does, or where it is watched no further. `none`
-- when the fuel of the ticks runs out.
unfoldable pub main_loop : ℕ → Table ℕ String → List Turn → Manager → Option Ended
unfolding turn_events
main_loop fuel by_client [] m =
    some (record { manager = m; reports = []; launched = []; by_signal = false })
main_loop fuel by_client (t ∷ turns) m =
    if t.goes_on
    then (elim (periodic fuel t.now t.clock t.running m.next_tick) [
      | none ↦ none
      | some (n, next) ↦
          let (monitors, reports) = run_events by_client (turn_events n 0 t) m.monitors in
          let (children, launched, go) = round t.wait t.fork m.children in
          let m' : Manager = record {
            monitors = monitors;
            children = children;
            next_tick = next;
          } in
          elim (if go
            then main_loop fuel by_client turns m'
            else some (record { manager = m'; reports = []; launched = []; by_signal = false })) [
              | none ↦ none
              | some e ↦ some (and_before reports launched e)
            ]
    ])
    else some (record { manager = m; reports = []; launched = []; by_signal = true })
