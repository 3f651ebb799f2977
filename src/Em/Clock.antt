-- ===== src/Em/Clock.antt =====
-- The periodic ticks of `main` in em/execution_manager.cpp. The instants of the steady clock are in
-- nanoseconds; what the clock reads after each tick is an argument, and whether no signal has come.
use minimal_autosar_adaptive.Prelude.{
  ◌↔◌, ℕ, zero, suc, ◌+◌, ◌*◌, ◌≤◌, ◌<◌, ◌≡◌, Bool, false, ◌&&◌, Option, none, some, arith,
  if◌then◌else◌, leb, nat_eq, ◌==◌, Bool-cases, inl, inr,
}

abbrev pub tick_period : ℕ
tick_period = 100 * 1000000

-- do … while (running && now >= next_tick), after `done` rounds: how many rounds are made in all,
-- and next_tick. `none` when the fuel runs out.
unfoldable pub catch_up : ℕ → (ℕ → ℕ) → (ℕ → Bool) → ℕ → ℕ → Option (ℕ × ℕ)
catch_up zero clock running done next = none
catch_up (suc fuel) clock running done next =
    let next' = next + tick_period in
    let rest = catch_up fuel clock running (suc done) next' in
    if running done && leb next' (clock done) then rest else some (suc done, next')

unfoldable pub periodic : ℕ → ℕ → (ℕ → ℕ) → (ℕ → Bool) → ℕ → Option (ℕ × ℕ)
unfolding catch_up
periodic fuel now clock running next =
    if leb next now then catch_up fuel clock running 0 next else some (0, next)

-- `n` rounds from `start` on: no tick is left out, none after the first is made before it is due, and
-- the last is followed by a signal or by a clock that is behind the next tick.
pub record CaughtUp (clock : ℕ → ℕ) (running : ℕ → Bool) (start n next : ℕ) : Type 0 where
  pub in_step : next ≡ start + n * tick_period
  pub due : (k : ℕ) → suc k < n → start + suc k * tick_period ≤ clock k
  pub ended : (k : ℕ) → n ≡ suc k → (running k && leb next (clock k)) ≡ false

module _ (clock : ℕ → ℕ) (running : ℕ → Bool) (start bound : ℕ)
    (bounded : (k : ℕ) → clock k ≤ bound) where
  catch_up_ends :
      (fuel done next : ℕ)
      → bound < next + fuel * tick_period
      → next ≤ bound
      → next ≡ start + done * tick_period
      → ((k : ℕ) → k < done → start + suc k * tick_period ≤ clock k)
      → (n : ℕ) × (next' : ℕ) × (catch_up fuel clock running done next ≡ some (n, next'))
        × CaughtUp clock running start n next'
        × (done < n)
  unfolding catch_up
  catch_up_ends zero done next enough room at due = absurd (omega arith)
  catch_up_ends (suc fuel) done next enough room at due =
      elim (Bool-cases (running done && leb (next + tick_period) (clock done))) [
        | inl more ↦
            let late : next + tick_period ≤ clock done = ground arith in
            let due' : (k : ℕ) → k < suc done → start + suc k * tick_period ≤ clock k = λ k h.
              elim (Bool-cases (k == done)) [
                | inl e ↦ ground arith
                | inr e ↦ due k (ground arith)
              ] in
            let (n, next', e, c, l) =
              catch_up_ends fuel (suc done) (next + tick_period) (omega arith)
                (omega (arith, late, bounded done)) (omega arith) due' in
            (n, next', rw more e, c, omega arith)
        | inr stop ↦ (
          suc done,
          next + tick_period,
          rw stop,
          record {
            in_step = omega arith;
            due = λ k h. due k (omega arith);
            ended = λ k e. ground arith;
          },
          omega arith,
        )
      ]

  -- Where the clock stays below a bound, the catch-up ends. The first tick is made exactly if it is
  -- due at the start of the turn; the ticks after it follow one period apart, none before its time,
  -- until a signal comes or the clock is behind the next one.
  pub periodic_ends :
      (fuel now : ℕ)
      → now ≤ bound
      → bound < start + fuel * tick_period
      → (n : ℕ) × (next' : ℕ) × (periodic fuel now clock running start ≡ some (n, next'))
        × CaughtUp clock running start n next'
        × ((n ≡ 0) ↔ (now < start))
  unfolding periodic
  periodic_ends fuel now h enough = elim (Bool-cases (leb start now)) [
    | inl due ↦
        let (n, next', e, c, made) =
          catch_up_ends fuel 0 start enough (ground arith) (omega arith)
            (λ k bad. absurd (omega arith)) in
        (n, next', rw due e, c, (λ z. absurd (omega arith), λ early. absurd (ground arith)))
    | inr early ↦ (
      0,
      start,
      rw early,
      record {
        in_step = omega arith;
        due = λ k bad. absurd (omega arith);
        ended = λ k bad. absurd (omega arith);
      },
      (λ z. ground arith, λ before. omega arith),
    )
  ]
