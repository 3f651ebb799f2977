-- ===== src/Phm/Supervisor/Misses.antt =====
-- How missed cycles turn into violations.
use minimal_autosar_adaptive.Prelude.{
  ℕ, suc, ap, ◌+◌, ◌*◌, ◌≤◌, ◌≡◌, ◌≢◌, true, false, nat_eq, List, [], ◌∷◌, ◌++◌, arith, map, length,
}
use minimal_autosar_adaptive.Prelude.Int.{pos}
use minimal_autosar_adaptive.Phm.Supervisor.{
  Config, Supervisor, Output, missed, violation, Input, alive, checkpoint, tick, alive_ok,
  end_cycle, maintenance_tick, elapsed, feed, run,
}
use minimal_autosar_adaptive.Phm.Supervisor.Verdict.{IsDue, tick_due}

pub violations : List Output → ℕ
violations [] = 0
violations (missed n ∷ out) = violations out
violations (violation ∷ out) = suc (violations out)

pub misses : List Output → ℕ
misses [] = 0
misses (missed n ∷ out) = suc (misses out)
misses (violation ∷ out) = misses out

counts-append :
    (xs ys : List Output)
    → (violations (xs ++ ys) ≡ violations xs + violations ys)
      × (misses (xs ++ ys) ≡ misses xs + misses ys)
unfolding violations misses
counts-append [] ys = omega arith
counts-append (missed n ∷ xs) ys = omega (arith, counts-append xs ys)
counts-append (violation ∷ xs) ys = omega (arith, counts-append xs ys)

-- The counter of a supervisor that tolerates `a` missed cycles.
pub record IsCounting (a : ℕ) (s : Supervisor) : Type 0 where
  pub allows : s.cfg.allowed_missed_cycles ≡ pos a
  pub within : s.missed_cycles ≤ a

pub tick-IsCounting :
    (a now : ℕ) (s : Supervisor)
    → IsCounting a s
    → IsCounting a (maintenance_tick now s).0
      × (violations (maintenance_tick now s).1 * suc a + (maintenance_tick now s).0.missed_cycles
          ≤ s.missed_cycles + misses (maintenance_tick now s).1)
unfolding maintenance_tick violations misses
tick-IsCounting a now s c = ground arith

feed-IsCounting :
    (a : ℕ) (i : Input) (s : Supervisor)
    → IsCounting a s
    → IsCounting a (feed i s).0
      × (violations (feed i s).1 * suc a + (feed i s).0.missed_cycles
          ≤ s.missed_cycles + misses (feed i s).1)
unfolding feed violations misses
feed-IsCounting a alive s c = ground arith
feed-IsCounting a (checkpoint id) s c = ground arith
feed-IsCounting a (tick now) s c = tick-IsCounting a now s c

-- Whatever reaches a supervisor that tolerates `a` missed cycles, its counter stays at most `a`,
-- and each violation has used up `a + 1` missed cycles of its own.
pub run-IsCounting :
    (a : ℕ) (is : List Input) (s : Supervisor)
    → IsCounting a s
    → IsCounting a (run is s).0
      × (violations (run is s).1 * suc a + (run is s).0.missed_cycles
          ≤ s.missed_cycles + misses (run is s).1)
unfolding run
run-IsCounting a [] s c = unfold violations misses in ground arith
run-IsCounting a (i ∷ is) s c =
    let step = feed-IsCounting a i s c in
    let rest = run-IsCounting a is (feed i s).0 step.0 in
    let split = counts-append (feed i s).1 (run is (feed i s).0).1 in
    (rest.0, rw (split.0, split.1) (omega (arith, step.1, rest.1)))

-- The times end one cycle each, from the supervisor's current cycle on.
abbrev pub AllDue : Config → ℕ → List ℕ → Type 0
AllDue c start [] = start ≢ 0
AllDue c start (now ∷ later) =
    (start ≢ 0) × (elapsed c.supervision_cycle_ms start now ≡ true) × AllDue c now later

-- A supervisor that nobody reports to.
pub record IsSilent (s : Supervisor) : Type 0 where
  pub quiet : s.got_alive ≡ false
  pub watched : s.has_callback ≡ true

end_cycle-IsCounting :
    (a now : ℕ) (s : Supervisor)
    → IsCounting a s
    → IsSilent s
    → let r = end_cycle now s in
      IsCounting a r.0
      × IsSilent r.0
      × (r.0.cfg ≡ s.cfg)
      × (r.0.cycle_start ≡ now)
      × (violations r.1 * suc a + r.0.missed_cycles ≡ s.missed_cycles + 1)
unfolding end_cycle alive_ok violations
end_cycle-IsCounting a now s c q = ground arith

run_due :
    (now : ℕ) (is : List Input) (s : Supervisor)
    → IsDue s now
    → run (tick now ∷ is) s
      ≡ ((run is (end_cycle now s).0).0, (end_cycle now s).1 ++ (run is (end_cycle now s).0).1)
unfolding run feed
run_due now is s d =
    ap (λ (p : Supervisor × List Output). ((run is p.0).0, p.1 ++ (run is p.0).1))
      (tick_due s now d)

-- Through `n` cycles without a sign of life the violations are exactly
-- (missed_cycles + n) / (a + 1), and the counter holds the remainder.
pub silence_violates :
    (a : ℕ) (times : List ℕ) (s : Supervisor)
    → IsCounting a s
    → IsSilent s
    → AllDue s.cfg s.cycle_start times
    → let r = run (map tick times) s in
      (violations r.1 * suc a + r.0.missed_cycles ≡ s.missed_cycles + length times)
      × (r.0.missed_cycles ≤ a)
silence_violates a [] s c q d = unfold run violations in ground arith
silence_violates a (now ∷ later) s c q d =
    let t = (end_cycle now s).0 in
    let (counting, silent, cfg, start, spent) = end_cycle-IsCounting a now s c q in
    let rest = silence_violates a later t counting silent (rw (cfg, start) d.2) in
    let split = counts-append (end_cycle now s).1 (run (map tick later) t).1 in
    rw (run_due now (map tick later) s (record { started = d.0; over = d.1 }), split.0)
      (omega (arith, spent, rest.0), rest.1)
