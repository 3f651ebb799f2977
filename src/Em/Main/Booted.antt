-- ===== src/Em/Main/Booted.antt =====
-- What the launches at boot are given and leave behind.
use minimal_autosar_adaptive.Prelude.{
  ℕ, suc, ◌≡◌, refl, ap, ◌∙◌, Bool, true, false, not, ◌&&◌, ◌||◌, string_eq, nat_eq, ◌==◌, Bytes,
  String, List, [], ◌∷◌, map, Option, none, some, arith, All, is_empty, if◌then◌else◌, Option-cases,
  Bool-cases, inl, inr,
}
use minimal_autosar_adaptive.Prelude.Table.{
  Table, lookup, insert, emplace, lookup-insert, lookup-emplace,
}
use minimal_autosar_adaptive.Em.Config.{AppConfig}
use minimal_autosar_adaptive.Em.Environment.{build_someip_env, child_env}
use minimal_autosar_adaptive.Prelude.Int.{pos, ltb_ℤ}
use minimal_autosar_adaptive.Phm.Supervisor.{Supervisor, create, set_violation_callback}
use minimal_autosar_adaptive.Em.Handlers.{Monitors}
use minimal_autosar_adaptive.Em.Supervision.{has_phm, new_monitor, build_monitors}
use minimal_autosar_adaptive.Em.Boot.{app_by_id}
use minimal_autosar_adaptive.Em.Monitor.{Children, no_app, or_no_app, or_zero, boot}
use minimal_autosar_adaptive.Em.Main.{with_fork, launches_of, no_children_yet}

-- The first application of the manifests that has an id, which is not empty.
pub first_named : String → List AppConfig → Option AppConfig
first_named id [] = none
first_named id (a ∷ apps) =
    if not (a.app_id == "") && a.app_id == id then some a else first_named id apps

-- The application that is launched under an id.
pub named : String → List AppConfig → AppConfig
named id apps = elim (first_named id apps) [ none ↦ no_app | some a ↦ a ]

-- The application of the last launch that got a pid.
pub last_forked : (ℕ → Option ℕ) → ℕ → List String → List AppConfig → ℕ → Option AppConfig
last_forked forks k [] apps pid = none
last_forked forks k (id ∷ ids) apps pid = elim (last_forked forks (suc k) ids apps pid) [
  | some a ↦ some a
  | none ↦ elim (forks k) [ none ↦ none | some p ↦ if p == pid then some (named id apps) else none ]
]

app_by_id-first_named :
    (id : String) (apps : List AppConfig) (m : Table String AppConfig)
    → lookup id (app_by_id apps m)
      ≡ elim (lookup id m) [ some a ↦ some a | none ↦ first_named id apps ]
unfolding app_by_id first_named
app_by_id-first_named id [] m = ground arith
app_by_id-first_named id (a ∷ apps) m = elim (Bool-cases (a.app_id == "")) [
  | inl e ↦ rw e (app_by_id-first_named id apps m ∙ ground (arith, e))
  | inr e ↦ rw e (
      app_by_id-first_named id apps (emplace a.app_id a m)
      ∙ ground (arith, e, lookup-emplace a.app_id id a m))
]

app_by_id-named :
    (id : String) (apps : List AppConfig)
    → or_no_app (lookup id (app_by_id apps [])) ≡ named id apps
unfolding named lookup
app_by_id-named id apps = ap or_no_app (app_by_id-first_named id apps [])

-- What an application finds in SOMEIP_REQUEST_EVENTS: the events of its manifest, or else what the
-- manager itself has there.
abbrev pub Environs : Option Bytes → List AppConfig → String × Option Bytes → Type 0
Environs own apps (id, env) =
    let events = build_someip_env (named id apps).com_config in
    env ≡ (if is_empty events then own else some events)

pub launches_of-Environs :
    (own : Option Bytes) (apps : List AppConfig) (order : List String)
    → let launches = launches_of own (app_by_id apps []) order in
      (map (λ (l : String × Option Bytes). l.0) launches ≡ order) × All (Environs own apps) launches
unfolding launches_of child_env
launches_of-Environs own apps [] = (refl, tt)
launches_of-Environs own apps (id ∷ order) =
    let rest = launches_of-Environs own apps order in
    (ap (λ ids. id ∷ ids) rest.0, (rw (app_by_id-named id apps) refl, rest.1))

-- The children when the loop begins: under each pid the application of the last launch that got it,
-- and no restart.
pub record IsBooted (forks : ℕ → Option ℕ) (order : List String) (apps : List AppConfig)
    (c : Children) : Type 0 where
  pub running : (pid : ℕ) → lookup pid c.running_apps ≡ last_forked forks 0 order apps pid
  pub fresh : (id : String) → or_zero (lookup id c.restart_count) ≡ 0

boot-last_forked :
    (forks : ℕ → Option ℕ) (k : ℕ) (order : List String) (apps : List AppConfig) (c : Children)
    (pid : ℕ)
    → lookup pid (boot (app_by_id apps []) (with_fork forks k order) c).running_apps
      ≡ elim (last_forked forks k order apps pid) [
        | some a ↦ some a
        | none ↦ lookup pid c.running_apps
      ]
unfolding boot last_forked
boot-last_forked forks k [] apps c pid = refl
boot-last_forked forks k (id ∷ ids) apps c pid = elim (Option-cases (forks k)) [
  | inl e ↦ rw e (boot-last_forked forks (suc k) ids apps c pid ∙ ground arith)
  | inr (p, e) ↦
      let a = or_no_app (lookup id (app_by_id apps [])) in
      let c' : Children = record {
        running_apps = insert p a c.running_apps;
        restart_count = insert a.app_id 0 c.restart_count;
      } in
      rw e (
        boot-last_forked forks (suc k) ids apps c' pid
        ∙ ground (arith, lookup-insert p pid a c.running_apps, app_by_id-named id apps))
]

boot-fresh :
    (by_id : Table String AppConfig) (launches : List (String × Option ℕ)) (c : Children)
    → ((id : String) → or_zero (lookup id c.restart_count) ≡ 0)
    → (id : String) → or_zero (lookup id (boot by_id launches c).restart_count) ≡ 0
unfolding boot
boot-fresh by_id [] c h id = h id
boot-fresh by_id ((j, none) ∷ more) c h id = boot-fresh by_id more c h id
boot-fresh by_id ((j, some pid) ∷ more) c h id =
    let a = or_no_app (lookup j by_id) in
    boot-fresh by_id more
      (record {
        running_apps = insert pid a c.running_apps;
        restart_count = insert a.app_id 0 c.restart_count;
      })
      (λ i. ground (arith, lookup-insert a.app_id i 0 c.restart_count, h i)) id

pub boot-IsBooted :
    (forks : ℕ → Option ℕ) (order : List String) (apps : List AppConfig)
    → IsBooted forks order apps (boot (app_by_id apps []) (with_fork forks 0 order) no_children_yet)
boot-IsBooted forks order apps = record {
  running = λ pid.
      boot-last_forked forks 0 order apps no_children_yet pid ∙ unfold lookup in ground arith;
  fresh =
      boot-fresh (app_by_id apps []) (with_fork forks 0 order) no_children_yet
        (λ id. unfold lookup in refl);
}

-- Whether a manifest asks for a monitor, and the monitor that it describes, before its first cycle.
wants_monitor : AppConfig → Bool
wants_monitor a =
    ltb_ℤ (pos 0) a.phm.period_ms
    || (a.phm.require_alive || not (is_empty a.phm.required_checkpoints))

monitor_of : AppConfig → Supervisor
monitor_of a = record {
  cfg = record {
    supervision_cycle_ms = a.phm.period_ms;
    allowed_missed_cycles = a.phm.allowed_missed_cycles;
    required_checkpoints = a.phm.required_checkpoints;
  };
  cycle_start = 0;
  got_alive = false;
  seen_cps = [];
  missed_cycles = 0;
  last_healthy = 0;
  has_callback = true;
}

-- The monitor of the first application with an id, which is not empty, that asks for one.
pub monitor_named : String → List AppConfig → Option Supervisor
unfolding wants_monitor monitor_of
monitor_named id [] = none
monitor_named id (a ∷ apps) =
    if not (a.app_id == "") && (a.app_id == id && wants_monitor a)
    then some (monitor_of a)
    else monitor_named id apps

build_monitors-named :
    (id : String) (apps : List AppConfig) (m : Monitors)
    → lookup id (build_monitors apps m)
      ≡ elim (lookup id m) [ some s ↦ some s | none ↦ monitor_named id apps ]
unfolding build_monitors monitor_named has_phm new_monitor create set_violation_callback
build_monitors-named id [] m = ground arith
build_monitors-named id (a ∷ apps) m = elim (Bool-cases (a.app_id == "")) [
  | inl e ↦ rw e (build_monitors-named id apps m ∙ ground (arith, e))
  | inr e ↦ elim (Bool-cases (has_phm a)) [
    | inr f ↦ rw (e, f) (build_monitors-named id apps m ∙ ground (arith, e, f))
    | inl f ↦
        rw (e, f)
          (build_monitors-named id apps (emplace a.app_id (monitor_of a) m)
            ∙ ground (arith, e, f, lookup-emplace a.app_id id (monitor_of a) m))
  ]
]

pub build_monitors_named :
    (id : String) (apps : List AppConfig)
    → lookup id (build_monitors apps []) ≡ monitor_named id apps
build_monitors_named id apps = build_monitors-named id apps [] ∙ unfold lookup in refl
