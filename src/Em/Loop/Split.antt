-- ===== src/Em/Loop/Split.antt =====
-- The loop of `main` ends each of its turns, and falls apart into the monitors and the children.
use minimal_autosar_adaptive.Prelude.{
  ◌↔◌, ℕ, ◌+◌, ◌*◌, ◌≤◌, ◌<◌, ◌≡◌, refl, ◌∙◌, Bool, true, false, String, List, [], ◌∷◌, ◌++◌,
  Option, some, arith, if◌then◌else◌, All, Bool-cases, inl, inr,
}
use mathlib.Core.List.{append_assoc, append-nil}
use minimal_autosar_adaptive.Prelude.Table.{Table}
use minimal_autosar_adaptive.Em.Handlers.{Monitors}
use minimal_autosar_adaptive.Em.Supervision.{Event, on_event, run_events}
use minimal_autosar_adaptive.Em.Clock.{tick_period, CaughtUp, periodic_ends}
use minimal_autosar_adaptive.Em.Monitor.{
  Wait, reaped, unchanged, no_children, transient, Children, round, monitor,
}
use minimal_autosar_adaptive.Em.Loop.{Turn, Manager, Ended, turn_events, and_before, main_loop}

-- What the monitors meet, and what the children's loop is answered, in turns of which the next tick
-- is due at `next`: a turn makes ticks exactly if the next one is due when it starts.
pub data Follows : ℕ → List Turn → List Event → List (Wait × Option ℕ) → Type 0 where
  unwatched : (next : ℕ) → Follows next [] [] []
  signalled :
      (next : ℕ) (t : Turn) (turns : List Turn) → t.goes_on ≡ false → Follows next (t ∷ turns) [] []
  turn :
      (next n next' : ℕ) (t : Turn) (turns : List Turn) (es : List Event)
      (ws : List (Wait × Option ℕ))
      → t.goes_on ≡ true
      → CaughtUp t.clock t.running next n next'
      → (n ≡ 0) ↔ (t.now < next)
      → Follows next' turns es ws
      → Follows next (t ∷ turns) (turn_events n 0 t ++ es) ((t.wait, t.fork) ∷ ws)
  childless :
      (next n next' : ℕ) (t : Turn) (turns : List Turn)
      → t.goes_on ≡ true
      → CaughtUp t.clock t.running next n next'
      → (n ≡ 0) ↔ (t.now < next)
      → t.wait ≡ no_children
      → Follows next (t ∷ turns) (turn_events n 0 t) ((t.wait, t.fork) ∷ [])

-- The clock of a turn stays below a bound.
abbrev pub Before : ℕ → Turn → Type 0
Before bound t = (t.now ≤ bound) × ((k : ℕ) → t.clock k ≤ bound)

-- How the monitors and the children stand after what they met.
pub record Splits (by_client : Table ℕ String) (m : Manager) (es : List Event)
    (ws : List (Wait × Option ℕ)) (e : Ended) : Type 0 where
  pub monitors : run_events by_client es m.monitors ≡ (e.manager.monitors, e.reports)
  pub children : monitor ws m.children ≡ (e.manager.children, e.launched)

run_events-append :
    (by_client : Table ℕ String) (es fs : List Event) (m : Monitors)
    → run_events by_client (es ++ fs) m ≡ (
        let (m', out) = run_events by_client es m in
        let (m'', more) = run_events by_client fs m' in (m'', out ++ more))
unfolding run_events
run_events-append by_client [] fs m = refl
run_events-append by_client (e ∷ es) fs m =
    let (m', out) = on_event by_client e m in
    let (m'', more) = run_events by_client es m' in
    rw (run_events-append by_client es fs m', append_assoc) refl

goes : Wait → Bool
goes (reaped pid status) = true
goes unchanged = true
goes no_children = false
goes transient = true

round-goes : (w : Wait) (fork : Option ℕ) (s : Children) → (round w fork s).2 ≡ goes w
unfolding round goes
round-goes (reaped pid status) fork s = refl
round-goes unchanged fork s = refl
round-goes no_children fork s = refl
round-goes transient fork s = refl

goes-no_children : (w : Wait) → goes w ≡ false → w ≡ no_children
unfolding goes
goes-no_children (reaped pid status) h = cc
goes-no_children unchanged h = cc
goes-no_children no_children h = refl
goes-no_children transient h = cc

monitor-cons :
    (w : Wait) (fork : Option ℕ) (ws : List (Wait × Option ℕ)) (s : Children)
    → monitor ((w, fork) ∷ ws) s ≡ (
        let (s', out, go) = round w fork s in
        let (t, rest) = monitor ws s' in if go then (t, out ++ rest) else (s', out))
unfolding monitor
monitor-cons w fork ws s = refl

module _ (by_client : Table ℕ String) (fuel bound : ℕ) where
  -- While the clock stays below a bound, every turn of the loop ends. To the monitors the loop is
  -- the sequence of the requests and of the ticks that are due, to the children the sequence of the
  -- answers of waitpid and fork, up to the signal or the answer that no child is left; neither
  -- depends on the other.
  pub main_loop-Splits :
      (turns : List Turn) (m : Manager)
      → All (Before bound) turns
      → bound < m.next_tick + fuel * tick_period
      → (e : Ended) × (es : List Event) × (ws : List (Wait × Option ℕ)) × (main_loop fuel by_client
            turns m
          ≡ some e)
        × Follows m.next_tick turns es ws
        × Splits by_client m es ws e
  unfolding main_loop
  main_loop-Splits [] m before enough = (
    record { manager = m; reports = []; launched = []; by_signal = false },
    [],
    [],
    refl,
    unwatched m.next_tick,
    unfold run_events monitor in record { monitors = refl; children = refl },
  )
  main_loop-Splits (t ∷ turns) m before enough = elim (Bool-cases t.goes_on) [
    | inr off ↦ (
      record { manager = m; reports = []; launched = []; by_signal = true },
      [],
      [],
      rw (off, main_loop) refl,
      signalled m.next_tick t turns off,
      unfold run_events monitor in record { monitors = refl; children = refl },
    )
    | inl on ↦
        let (n, next', ticked, caught, none_due) =
          periodic_ends t.clock t.running m.next_tick bound before.0.1 fuel t.now before.0.0
            enough in
        let (monitors, reports) = run_events by_client (turn_events n 0 t) m.monitors in
        let (children, launched, go) = round t.wait t.fork m.children in
        let m' : Manager = record { monitors = monitors; children = children; next_tick = next' } in
        elim (Bool-cases (goes t.wait)) [
          | inl more ↦
              let (e, es, ws, runs, follows, splits) =
                main_loop-Splits turns m' before.1 (omega (arith, caught.in_step)) in
              (
                and_before reports launched e,
                turn_events n 0 t ++ es,
                (t.wait, t.fork) ∷ ws,
                ground (arith, ticked, runs, round-goes t.wait t.fork m.children),
                turn m.next_tick n next' t turns es ws on caught none_due follows,
                record {
                  monitors =
                      run_events-append by_client (turn_events n 0 t) es m.monitors
                      ∙ simp splits.monitors;
                  children =
                      monitor-cons t.wait t.fork ws m.children
                      ∙ ground (arith, splits.children, round-goes t.wait t.fork m.children);
                },
              )
          | inr last ↦ (
            record { manager = m'; reports = reports; launched = launched; by_signal = false },
            turn_events n 0 t,
            (t.wait, t.fork) ∷ [],
            ground (
              arith,
              ticked,
              round-goes t.wait t.fork m.children,
              append-nil reports,
              append-nil launched,
            ),
            childless m.next_tick n next' t turns on caught none_due (goes-no_children t.wait last),
            record {
              monitors = refl;
              children =
                  monitor-cons t.wait t.fork [] m.children
                  ∙ ground (arith, round-goes t.wait t.fork m.children);
            },
          )
        ]
  ]
