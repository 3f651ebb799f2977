-- ===== src/Apps/SpeedClient/Watchdog.antt =====
-- When the client reports missed speeds.
use minimal_autosar_adaptive.Prelude.{
  ℕ, zero, suc, ◌+◌, ◌/◌, ◌%◌, ◌≤◌, ◌≡◌, List, [], ◌∷◌, ◌++◌, nat_eq, ◌==◌, arith, if◌then◌else◌,
}
use minimal_autosar_adaptive.Phm.Client.{report_alive, report_checkpoint}
use minimal_autosar_adaptive.Phm.Ids.{alive_method, checkpoint_method}
use minimal_autosar_adaptive.Persistency.Files.{Env}
use minimal_autosar_adaptive.Apps.Float.{Float}
use minimal_autosar_adaptive.Apps.SpeedClient.{
  SpeedClient, Output, report, log_line, on_tick, Step, speed, tick, on_speed, step, run,
}

-- How many of the outputs are requests of a method of the health service.
pub requests_of : ℕ → List Output → ℕ
requests_of method [] = 0
requests_of method (report req ∷ out) =
    (if req.method == method then 1 else 0) + requests_of method out
requests_of method (log_line level ∷ out) = requests_of method out

abbrev pub ticks : {F : Type 0} → ℕ → List (Step F)
ticks zero = []
ticks (suc n) = tick ∷ ticks n

requests_of-append :
    (method : ℕ) (xs ys : List Output)
    → requests_of method (xs ++ ys) ≡ requests_of method xs + requests_of method ys
unfolding requests_of
requests_of-append method [] ys = omega arith
requests_of-append method (report req ∷ xs) ys = omega (arith, requests_of-append method xs ys)
requests_of-append method (log_line level ∷ xs) ys = requests_of-append method xs ys

-- How a silent stretch of `n` rounds goes for a client that has missed `m` ticks.
record Silent {F : Type 0} (m n : ℕ) (w : SpeedClient F × List Output) : Type 0 where
  checkpoints : requests_of checkpoint_method w.1 ≡ (m + n) / 32
  alive : requests_of alive_method w.1 ≡ n
  missed : w.0.missed_ticks ≡ (m + n) % 32

on_tick-Silent :
    {F : Type 0} (c : SpeedClient F) → c.missed_ticks ≤ 31 → Silent c.missed_ticks 1 (on_tick c)
unfolding on_tick requests_of report_alive report_checkpoint
on_tick-Silent c h = ground arith

ticks-Silent :
    {F : Type 0} (float : Float F) (n : ℕ) (c : SpeedClient F)
    → c.missed_ticks ≤ 31
    → Silent c.missed_ticks n (run float (ticks n) c)
unfolding run
ticks-Silent float zero c h = unfold requests_of in omega arith
ticks-Silent float (suc n) c h =
    let (c', out) = on_tick c in
    let one = on_tick-Silent c h in
    let rest = ticks-Silent float n c' (omega (arith, one.missed)) in
    let more = (run float (ticks n) c').1 in
    omega (
      arith,
      one.checkpoints,
      one.alive,
      one.missed,
      rest.checkpoints,
      rest.alive,
      rest.missed,
      requests_of-append checkpoint_method out more,
      requests_of-append alive_method out more,
    )

-- After a speed has come, a client that hears nothing for `n` rounds says in each that it is alive,
-- and reports the checkpoint of missed speeds at every 32nd round.
pub silence_reported :
    {F : Type 0} (float : Float F) (env : Env) (v : F) (c : SpeedClient F) (n : ℕ)
    → let out = (run float (speed env v ∷ ticks n) c).1 in
      (requests_of checkpoint_method out ≡ n / 32) × (requests_of alive_method out ≡ n)
unfolding run step on_speed requests_of
silence_reported float env v c n =
    let (c', out) = on_speed float env v c in
    let s = ticks-Silent float n c' (omega arith) in
    (omega (arith, s.checkpoints), omega (arith, s.alive))
