-- ===== src/Em/Monitor/Restarts.antt =====
-- How often a failed application is started again.
use minimal_autosar_adaptive.Prelude.{
  ℕ, suc, ◌+◌, ◌≡◌, ◌&&◌, string_eq, nat_eq, ◌==◌, String, List, [], ◌∷◌, arith, Option, none, some,
  if◌then◌else◌, inl, inr, Option-cases,
}
use Prim.Native.Nat.{min}
use minimal_autosar_adaptive.Prelude.Table.{lookup, erase, lookup-insert}
use minimal_autosar_adaptive.Prelude.Membership.{count, count-append}
use minimal_autosar_adaptive.Em.Config.{AppConfig}
use minimal_autosar_adaptive.Em.Monitor.{
  Wait, reaped, unchanged, no_children, transient, Children, or_zero, failed, restart, reap, round,
  monitor,
}

-- Whether a round reaps application `id` in a way that calls for a restart.
counted : String → Wait → Children → ℕ
counted id (reaped pid status) s = elim (lookup pid s.running_apps) [
  | none ↦ 0
  | some app ↦
      if app.app_id == id && (app.restart_policy == "on-failure" && failed status) then 1 else 0
]
counted id unchanged s = 0
counted id no_children s = 0
counted id transient s = 0

-- How many rounds of the loop do so.
pub failures : String → List (Wait × Option ℕ) → Children → ℕ
unfolding counted
failures id [] s = 0
failures id ((w, fork) ∷ more) s =
    let (s', out, go) = round w fork s in
    let rest = failures id more s' in counted id w s + (if go then rest else 0)

abbrev attempts : String → Children → ℕ
attempts id s = or_zero (lookup id s.restart_count)

module _ (id : String) where
  restart-count :
      (fork : Option ℕ) (app : AppConfig) (s : Children)
      → (attempts id (restart fork app s).0 ≡ attempts id s + (if app.app_id == id then 1 else 0))
        × (count id (restart fork app s).1 + min 3 (attempts id s)
            ≡ min 3 (attempts id s + (if app.app_id == id then 1 else 0)))
  unfolding restart
  restart-count none app s = ground (
    arith,
    string_eq.beq_iff app.app_id id,
    lookup-insert app.app_id id (suc (attempts app.app_id s)) s.restart_count,
  )
  restart-count (some pid) app s = ground (
    arith,
    string_eq.beq_iff app.app_id id,
    lookup-insert app.app_id id (suc (attempts app.app_id s)) s.restart_count,
  )

  round-count :
      (w : Wait) (fork : Option ℕ) (s : Children)
      → (attempts id (round w fork s).0 ≡ attempts id s + counted id w s)
        × (count id (round w fork s).1 + min 3 (attempts id s)
            ≡ min 3 (attempts id s + counted id w s))
  unfolding round reap counted
  round-count (reaped pid status) fork s = elim (Option-cases (lookup pid s.running_apps)) [
    | inl e ↦ ground arith
    | inr (app, e) ↦
        ground
          (arith, restart-count fork app (record s { running_apps = erase pid s.running_apps }))
  ]
  round-count unchanged fork s = omega arith
  round-count no_children fork s = omega arith
  round-count transient fork s = omega arith

pub monitor_restarts :
    (id : String) (rounds : List (Wait × Option ℕ)) (s : Children)
    → count id (monitor rounds s).1 + min 3 (or_zero (lookup id s.restart_count))
      ≡ min 3 (or_zero (lookup id s.restart_count) + failures id rounds s)
unfolding monitor failures
monitor_restarts id [] s = omega arith
monitor_restarts id ((w, fork) ∷ more) s =
    let r = round w fork s in
    ground (
      arith,
      round-count id w fork s,
      monitor_restarts id more r.0,
      count-append id r.1 (monitor more r.0).1,
    )
