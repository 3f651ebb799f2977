-- ===== src/Phm/Supervisor/Verdict.antt =====
-- Which cycles count as healthy.
use minimal_autosar_adaptive.Prelude.{
  ℕ, sym, ◌∙◌, ◌≡◌, refl, ◌≢◌, ◌↔◌, ◌⊎◌, true, false, nat_eq, List, [], ◌∷◌, ap, ◌++◌, arith, All,
  Any, Any-append, All-map,
}
use mathlib.Core.List.{append-nil, append_assoc}
use minimal_autosar_adaptive.Phm.Supervisor.{
  Supervisor, Output, Input, alive, checkpoint, tick, find, contains_all, alive_ok, on_alive,
  on_checkpoint, end_cycle, maintenance_tick, elapsed, feed, run,
}

find_iff : (have : List ℕ) (n : ℕ) → (find have n ≡ true) ↔ Any (λ h. h ≡ n) have
unfolding find
find_iff [] n = ground arith
find_iff (h ∷ hs) n = ground (arith, find_iff hs n)

-- `contains_all` answers true exactly when every required id is among those that were seen.
pub contains_all_iff :
    (have need : List ℕ) → (contains_all have need ≡ true) ↔ All (λ n. Any (λ h. h ≡ n) have) need
unfolding contains_all
contains_all_iff have [] = ground arith
contains_all_iff have (n ∷ need) = ground (arith, find_iff have n, contains_all_iff have need)

pub run-append :
    (is js : List Input) (s : Supervisor)
    → run (is ++ js) s ≡ ((run js (run is s).0).0, (run is s).1 ++ (run js (run is s).0).1)
unfolding run
run-append [] js s = refl
run-append (i ∷ is) js s = simp (run-append is js (feed i s).0, append_assoc)

abbrev pub IsReport : Input → Type 0
IsReport alive = Unit
IsReport (checkpoint id) = Unit
IsReport (tick now) = ⊥

-- A cycle is to be judged: it has started, and its time is over at `now`.
pub record IsDue (s : Supervisor) (now : ℕ) : Type 0 where
  pub started : s.cycle_start ≢ 0
  pub over : elapsed s.cfg.supervision_cycle_ms s.cycle_start now ≡ true

-- What the reports `rs` leave of a supervisor `s`: `t`.
record Gathers (rs : List Input) (s t : Supervisor) : Type 0 where
  cfg : t.cfg ≡ s.cfg
  start : t.cycle_start ≡ s.cycle_start
  count : t.missed_cycles ≡ s.missed_cycles
  alive_iff : (t.got_alive ≡ true) ↔ ((s.got_alive ≡ true) ⊎ Any (λ i. i ≡ alive) rs)
  cps_iff :
      (n : ℕ)
      → Any (λ h. h ≡ n) t.seen_cps ↔ (Any (λ h. h ≡ n) s.seen_cps ⊎ Any (λ i. i ≡ checkpoint n) rs)
  silent : (run rs s).1 ≡ []

gather : (rs : List Input) (s : Supervisor) → All IsReport rs → Gathers rs s (run rs s).0
unfolding run feed
gather [] s h = record {
  cfg = refl;
  start = refl;
  count = refl;
  alive_iff = ground arith;
  cps_iff = λ n. ground arith;
  silent = refl;
}
gather (alive ∷ rs) s h =
    let g = gather rs (on_alive s) h.1 in
    unfold on_alive in
    record {
      cfg = g.cfg;
      start = g.start;
      count = g.count;
      alive_iff = ground (arith, g.alive_iff);
      cps_iff = λ n. ground (arith, g.cps_iff n);
      silent = g.silent;
    }
gather (checkpoint id ∷ rs) s h =
    let g = gather rs (on_checkpoint id s) h.1 in
    unfold on_checkpoint in
    record {
      cfg = g.cfg;
      start = g.start;
      count = g.count;
      alive_iff = ground (arith, g.alive_iff);
      cps_iff =
          λ n. ground (arith, g.cps_iff n, Any-append (λ h. ◌≡◌ {A = ℕ} h n) s.seen_cps (id ∷ []));
      silent = g.silent;
    }
gather (tick now ∷ rs) s h = absurd h.0

pub tick_due : (s : Supervisor) (now : ℕ) → IsDue s now → maintenance_tick now s ≡ end_cycle now s
unfolding maintenance_tick
tick_due s now d = ground (arith, d.started, d.over)

pub silent_iff : (s : Supervisor) (now : ℕ) → ((end_cycle now s).1 ≡ []) ↔ (alive_ok s ≡ true)
unfolding end_cycle
silent_iff s now = ground arith

alive_ok_iff :
    (s : Supervisor)
    → (alive_ok s ≡ true)
      ↔ ((s.got_alive ≡ true) × (contains_all s.seen_cps s.cfg.required_checkpoints ≡ true))
unfolding alive_ok contains_all
alive_ok_iff s = ground arith

-- What a cycle must bring: a sign of life, and each required checkpoint.
abbrev pub IsHealthy : List Input → List ℕ → Type 0
IsHealthy rs required = Any (λ i. i ≡ alive) rs × All (λ n. Any (λ i. i ≡ checkpoint n) rs) required

-- With nothing pending at the start, the collected state passes exactly when the reports do.
alive_ok-gather :
    (rs : List Input) (s t : Supervisor)
    → Gathers rs s t
    → s.got_alive ≡ false
    → s.seen_cps ≡ []
    → (alive_ok t ≡ true) ↔ IsHealthy rs s.cfg.required_checkpoints
alive_ok-gather rs s t g quiet unseen = (
  λ ok.
      let parts = (alive_ok_iff t).0 ok in
      (
        ground (arith, g.alive_iff),
        All-map _ _ s.cfg.required_checkpoints (λ n. (cps n).0)
            (rw g.cfg at ((contains_all_iff t.seen_cps t.cfg.required_checkpoints).0 parts.1)),
      ),
  λ h. (alive_ok_iff t).1 (
    ground (arith, g.alive_iff),
    (contains_all_iff t.seen_cps t.cfg.required_checkpoints).1
        (rw g.cfg (All-map _ _ s.cfg.required_checkpoints (λ n. (cps n).1) h.1)),
  ),
)
  where
    cps : (n : ℕ) → Any (λ h. h ≡ n) t.seen_cps ↔ Any (λ i. i ≡ checkpoint n) rs
    cps n = ground (arith, g.cps_iff n)

-- The last tick's reports are those of the whole stretch.
tick_reports :
    (rs : List Input) (s : Supervisor) (now : ℕ)
    → All IsReport rs
    → IsDue s now
    → (run (rs ++ tick now ∷ []) s).1 ≡ (end_cycle now (run rs s).0).1
unfolding run feed
tick_reports rs s now reports due =
    let g = gather rs s reports in
    rw (run-append rs (tick now ∷ []) s, g.silent, append-nil)
      (ap (λ (p : Supervisor × List Output). p.1) (tick_due (run rs s).0 now later))
  where
    later : IsDue (run rs s).0 now
    later =
        let g = gather rs s reports in
        record { started = rw g.start due.started; over = rw (g.start, g.cfg) due.over }

-- The tick that ends a cycle reports nothing exactly when the cycle's reports, in any order and
-- with any repetition, include a sign of life and every required checkpoint.
pub tick-IsHealthy :
    (rs : List Input) (s : Supervisor) (now : ℕ)
    → All IsReport rs
    → s.got_alive ≡ false
    → s.seen_cps ≡ []
    → IsDue s now
    → ((run (rs ++ tick now ∷ []) s).1 ≡ []) ↔ IsHealthy rs s.cfg.required_checkpoints
tick-IsHealthy rs s now reports quiet unseen due =
    let g = gather rs s reports in
    let t = (run rs s).0 in
    let e = tick_reports rs s now reports due in
    let judged = silent_iff t now in
    let ok = alive_ok-gather rs s t g quiet unseen in
    (λ h. ok.0 (judged.0 (sym e ∙ h)), λ h. e ∙ judged.1 (ok.1 h))
