-- ===== src/Em/Monitor.antt =====
-- The supervision loop of `main` and its shutdown. What the system answers is an argument: the
-- result of each `waitpid`, the clock, and the pid of each `fork`, `none` where it fails. The
-- environment string for a launched program is that of `Em.Environment`.
pub mod Restarts
pub mod Shutdown
use minimal_autosar_adaptive.Prelude.{
  ℕ, zero, suc, ◌+◌, ◌-◌, Bool, true, false, not, ◌&&◌, ◌||◌, string_eq, nat_eq, ◌==◌, String, List,
  [], ◌∷◌, ◌++◌, map, Option, none, some, length, if◌then◌else◌, leb, is_empty,
}
use minimal_autosar_adaptive.Prelude.Int.{pos}
use minimal_autosar_adaptive.Prelude.Table.{Table, keys, lookup, insert, erase}
use minimal_autosar_adaptive.Em.Config.{AppConfig}

-- The status of a child: WIFEXITED with its code, WIFSIGNALED, or neither (stopped, continued).
pub data Status : Type 0 where
  exited : ℕ → Status
  signaled : Status
  other : Status

-- What `waitpid(-1, &status, WNOHANG)` returns: a pid, 0, or -1 with ECHILD or another errno.
pub data Wait : Type 0 where
  reaped : ℕ → Status → Wait
  unchanged : Wait
  no_children : Wait
  transient : Wait

pub record Children : Type 0 where
  pub running_apps : Table ℕ AppConfig
  pub restart_count : Table String ℕ

abbrev pub max_restarts : ℕ
max_restarts = 3

abbrev pub or_zero : Option ℕ → ℕ
or_zero none = 0
or_zero (some n) = n

-- running_apps[pid] = app, if the launch worked.
unfoldable pub record_launch : Option ℕ → AppConfig → Children → Children
record_launch none app s = s
record_launch (some pid) app s = record s { running_apps = insert pid app s.running_apps }

-- app_by_id[id], of an id that is new.
abbrev pub no_app : AppConfig
no_app = record {
  app_id = "";
  executable = "";
  start_on_boot = false;
  restart_policy = "";
  log_file = "";
  dependencies = [];
  phm = record {
    period_ms = pos 1000;
    allowed_missed_cycles = pos 3;
    required_checkpoints = [];
    require_alive = false;
  };
  com_config = record {
    service_id = 0;
    instance_id = 0;
    event_group = 0x0001;
    subscribe_events = [];
  };
}

abbrev pub or_no_app : Option AppConfig → AppConfig
or_no_app none = no_app
or_no_app (some app) = app

-- The launches at boot: each id with what `fork` returned.
unfoldable pub boot : Table String AppConfig → List (String × Option ℕ) → Children → Children
boot by_id [] s = s
boot by_id ((id, none) ∷ more) s = boot by_id more s
boot by_id ((id, some pid) ∷ more) s =
    let app = or_no_app (lookup id by_id) in
    boot by_id more (record {
      running_apps = insert pid app s.running_apps;
      restart_count = insert app.app_id 0 s.restart_count;
    })

unfoldable pub failed : Status → Bool
failed (exited code) = not (code == 0)
failed signaled = true
failed other = false

-- The launch of a failed application, or the message that its attempts are used up.
unfoldable pub restart : Option ℕ → AppConfig → Children → Children × List String
unfolding record_launch
restart fork app s =
    let cnt = suc (or_zero (lookup app.app_id s.restart_count)) in
    let s' = record s { restart_count = insert app.app_id cnt s.restart_count } in
    if leb cnt max_restarts then (record_launch fork app s', app.app_id ∷ []) else (s', [])

unfoldable pub reap : Option ℕ → ℕ → Status → Children → Children × List String
unfolding failed restart
reap fork pid status s = elim (lookup pid s.running_apps) [
  | none ↦ (s, [])
  | some app ↦
      let s' = record s { running_apps = erase pid s.running_apps } in
      if app.restart_policy == "on-failure" && failed status then restart fork app s' else (s', [])
]

-- One round of the loop: the children, the ids launched, and whether the loop goes on.
unfoldable pub round : Wait → Option ℕ → Children → Children × List String × Bool
unfolding reap
round (reaped pid status) fork s = let (s', out) = reap fork pid status s in (s', out, true)
round unchanged fork s = (s, [], true)
round no_children fork s = (s, [], false)
round transient fork s = (s, [], true)

-- The loop over what `waitpid` and `fork` answer, until it breaks or the answers end.
unfoldable pub monitor : List (Wait × Option ℕ) → Children → Children × List String
unfolding round
monitor [] s = (s, [])
monitor ((w, fork) ∷ more) s =
    let (s', out, go) = round w fork s in
    let (t, rest) = monitor more s' in if go then (t, out ++ rest) else (s', out)

-- The signals that the shutdown sends.
pub data Signal : Type 0 where
  term : ℕ → Signal
  kill : ℕ → Signal

-- At most twenty rounds of waiting, over the answers of `waitpid`.
unfoldable pub await_exit : ℕ → List Wait → Table ℕ AppConfig → Table ℕ AppConfig
await_exit zero ws running = running
await_exit (suc n) [] running = running
await_exit (suc n) (reaped pid status ∷ ws) running =
    let left = erase pid running in
    let rest = await_exit n ws left in if is_empty left then left else rest
await_exit (suc n) (unchanged ∷ ws) running = await_exit n ws running
await_exit (suc n) (no_children ∷ ws) running = []
await_exit (suc n) (transient ∷ ws) running = await_exit n ws running

unfoldable pub shutdown : List Wait → Children → List Signal
unfolding await_exit
shutdown ws s = map term (keys s.running_apps) ++ map kill (keys (await_exit 20 ws s.running_apps))
