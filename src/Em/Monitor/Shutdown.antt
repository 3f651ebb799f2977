-- ===== src/Em/Monitor/Shutdown.antt =====
-- Who is killed at the shutdown.
use minimal_autosar_adaptive.Prelude.{
  ℕ, zero, suc, ◌≡◌, refl, Bool, true, false, not, ◌&&◌, ◌||◌, nat_eq, ◌==◌, List, [], ◌∷◌, ◌++◌,
  map, arith, if◌then◌else◌, is_empty,
}
use minimal_autosar_adaptive.Prelude.Table.{Table, keys, erase}
use minimal_autosar_adaptive.Prelude.Membership.{elem}
use minimal_autosar_adaptive.Em.Config.{AppConfig}
use minimal_autosar_adaptive.Em.Monitor.{
  Wait, reaped, unchanged, no_children, transient, Children, Signal, term, kill, await_exit,
  shutdown,
}

-- Whether one of the first `n` answers of `waitpid` says that `pid` is gone: its own end, or that
-- no child is left.
pub gone : ℕ → ℕ → List Wait → Bool
gone zero pid ws = false
gone (suc n) pid [] = false
gone (suc n) pid (reaped p status ∷ ws) = p == pid || gone n pid ws
gone (suc n) pid (unchanged ∷ ws) = gone n pid ws
gone (suc n) pid (no_children ∷ ws) = true
gone (suc n) pid (transient ∷ ws) = gone n pid ws

pub is_running : ℕ → Table ℕ AppConfig → Bool
is_running pid m = elem pid (keys m)

is_running-erase :
    (p pid : ℕ) (m : Table ℕ AppConfig)
    → is_running pid (erase p m) ≡ (not (p == pid) && is_running pid m)
unfolding is_running erase
is_running-erase p pid [] = ground arith
is_running-erase p pid ((i, a) ∷ m) = ground (
  arith,
  is_running-erase p pid m,
  nat_eq.beq_iff i p,
  nat_eq.beq_iff i pid,
  nat_eq.beq_iff p pid,
)

await_exit-gone :
    (n pid : ℕ) (ws : List Wait) (m : Table ℕ AppConfig)
    → is_running pid (await_exit n ws m) ≡ (is_running pid m && not (gone n pid ws))
unfolding await_exit gone
await_exit-gone zero pid ws m = ground arith
await_exit-gone (suc n) pid [] m = ground arith
await_exit-gone (suc n) pid (reaped p status ∷ ws) m =
    by_rest (erase p m) (await_exit n ws (erase p m)) (is_running-erase p pid m)
      (await_exit-gone n pid ws (erase p m))
  where
    by_rest :
        (left rest : Table ℕ AppConfig)
        → is_running pid left ≡ (not (p == pid) && is_running pid m)
        → is_running pid rest ≡ (is_running pid left && not (gone n pid ws))
        → is_running pid (if is_empty left then left else rest)
          ≡ (is_running pid m && not (p == pid || gone n pid ws))
    by_rest [] rest e f = unfold is_running in ground arith
    by_rest (x ∷ left) rest e f = ground arith
await_exit-gone (suc n) pid (unchanged ∷ ws) m = await_exit-gone n pid ws m
await_exit-gone (suc n) pid (no_children ∷ ws) m = unfold is_running in ground arith
await_exit-gone (suc n) pid (transient ∷ ws) m = await_exit-gone n pid ws m

-- Whether a process is sent SIGTERM, and SIGKILL.
pub is_asked : ℕ → List Signal → Bool
is_asked pid [] = false
is_asked pid (term p ∷ out) = p == pid || is_asked pid out
is_asked pid (kill p ∷ out) = is_asked pid out

pub is_killed : ℕ → List Signal → Bool
is_killed pid [] = false
is_killed pid (term p ∷ out) = is_killed pid out
is_killed pid (kill p ∷ out) = p == pid || is_killed pid out

asked-terms :
    (pid : ℕ) (ps qs : List ℕ)
    → (is_asked pid (map term ps ++ map kill qs) ≡ elem pid ps)
      × (is_killed pid (map term ps ++ map kill qs) ≡ elem pid qs)
unfolding is_asked is_killed
asked-terms pid [] [] = (refl, refl)
asked-terms pid [] (q ∷ qs) = ground (arith, asked-terms pid [] qs)
asked-terms pid (p ∷ ps) qs = ground (arith, asked-terms pid ps qs)

-- At the shutdown every application that still runs is asked to end, and exactly those of them are
-- killed that none of the first twenty answers of `waitpid` reports as gone.
pub shutdown-gone :
    (ws : List Wait) (s : Children) (pid : ℕ)
    → (is_asked pid (shutdown ws s) ≡ is_running pid s.running_apps)
      × (is_killed pid (shutdown ws s) ≡ (is_running pid s.running_apps && not (gone 20 pid ws)))
unfolding shutdown
shutdown-gone ws s pid =
    let sent = asked-terms pid (keys s.running_apps) (keys (await_exit 20 ws s.running_apps)) in
    let left = await_exit-gone 20 pid ws s.running_apps in
    unfold is_running in (sent.0, rw sent.1 (unfold is_running in left))
