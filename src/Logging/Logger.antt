-- ===== src/Logging/Logger.antt =====
-- LogManager and Logger of logging/include/log.hpp, and ConsoleSink of
-- logging/include/sinks_console.hpp. A sink is a number, `none` for a null pointer; what a call
-- logs comes back as the records given to each sink. The clock and the texts of a call are
-- arguments. `LogManager` is a singleton under a mutex, here a state.
use minimal_autosar_adaptive.Prelude.{
  ℕ, ◌≡◌, refl, ap, Bool, true, false, ◌&&◌, not, nat_eq, ◌==◌, Bytes, String, List, [], ◌∷◌, ◌++◌,
  map, arith, Option, none, some, codes, if◌then◌else◌, leb, All, All-map, Bool-cases, inl, inr,
}

pub data LogLevel : Type 0 where
  off fatal error warn info debug verbose : LogLevel

-- static_cast<uint8_t>(lvl)
unfoldable pub level_code : LogLevel → ℕ
level_code off = 0
level_code fatal = 1
level_code error = 2
level_code warn = 3
level_code info = 4
level_code debug = 5
level_code verbose = 6

unfoldable pub to_string : LogLevel → String
to_string fatal = "FATAL"
to_string error = "ERROR"
to_string warn = "WARN"
to_string info = "INFO"
to_string debug = "DEBUG"
to_string verbose = "VERBOSE"
to_string off = "OFF"

pub record LogRecord : Type 0 where
  pub ecu_id : Bytes
  pub app_id : Bytes
  pub ctx_id : Bytes
  pub level : LogLevel
  pub message : Bytes
  pub ts_ns : ℕ
  pub file : Option Bytes
  pub line : ℕ

abbrev pub Sink : Type 0
Sink = Option ℕ

pub record LogManager : Type 0 where
  pub sinks : List Sink
  pub ecu_id : Bytes
  pub app_id : Bytes
  pub default_level : LogLevel

unfoldable pub initial_manager : LogManager
initial_manager = record {
  sinks = [];
  ecu_id = codes "ECU";
  app_id = codes "APP";
  default_level = info;
}

unfoldable pub set_global_ids : Bytes → Bytes → LogManager → LogManager
set_global_ids ecu app m = record m { ecu_id = ecu; app_id = app }

unfoldable pub set_default_level : LogLevel → LogManager → LogManager
set_default_level lvl m = record m { default_level = lvl }

unfoldable pub add_sink : Sink → LogManager → LogManager
add_sink s m = record m { sinks = m.sinks ++ s ∷ [] }

pub record Logger : Type 0 where
  pub ctx_id : Bytes
  pub ecu_id : Bytes
  pub app_id : Bytes
  pub sinks : List Sink
  pub level : LogLevel

-- The logger keeps a snapshot of the manager.
unfoldable pub create_logger : Bytes → Option LogLevel → LogManager → Logger
create_logger ctx level m = record {
  ctx_id = ctx;
  ecu_id = m.ecu_id;
  app_id = m.app_id;
  sinks = m.sinks;
  level = elim level [ none ↦ m.default_level | some lvl ↦ lvl ];
}

unfoldable pub set_level : LogLevel → Logger → Logger
set_level lvl l = record l { level = lvl }

abbrev is_off : LogLevel → Bool
is_off off = true
is_off _ = false

unfoldable pub should_log : LogLevel → Logger → Bool
unfolding level_code
should_log lvl l = if is_off l.level then false else leb (level_code lvl) (level_code l.level)

-- for (const auto& s : sinks_) if (s) s->write(r)
unfoldable pub fan_out : LogRecord → List Sink → List (ℕ × LogRecord)
fan_out r [] = []
fan_out r (none ∷ ss) = fan_out r ss
fan_out r (some s ∷ ss) = (s, r) ∷ fan_out r ss

unfoldable pub log : LogLevel → Bytes → Option Bytes → ℕ → ℕ → Logger → List (ℕ × LogRecord)
unfolding should_log fan_out
log lvl msg file line now l =
    if should_log lvl l
    then fan_out
        (record {
          ecu_id = l.ecu_id;
          app_id = l.app_id;
          ctx_id = l.ctx_id;
          level = lvl;
          message = msg;
          ts_ns = now;
          file = file;
          line = line;
        })
        l.sinks
    else []

-- ConsoleSink::write: the line on stdout, without its end.
unfoldable pub console_line : LogRecord → Bytes
unfolding to_string
console_line r =
    codes "["
    ++ (codes (to_string r.level) ++ (codes "] " ++ (r.ctx_id ++ (codes ": " ++ r.message))))

-- The sinks that are no null pointers.
pub present : List Sink → List ℕ
present [] = []
present (none ∷ ss) = present ss
present (some s ∷ ss) = s ∷ present ss

fan_out-present :
    (r : LogRecord) (ss : List Sink)
    → (map (λ (e : ℕ × LogRecord). e.0) (fan_out r ss) ≡ present ss)
      × All (λ (e : ℕ × LogRecord). e.1 ≡ r) (fan_out r ss)
unfolding fan_out present
fan_out-present r [] = (refl, tt)
fan_out-present r (none ∷ ss) = fan_out-present r ss
fan_out-present r (some s ∷ ss) =
    let rest = fan_out-present r ss in (ap (λ (l : List ℕ). s ∷ l) rest.0, (refl, rest.1))

-- What a record that `l` writes for a call says.
abbrev pub Says : LogLevel → Bytes → Logger → ℕ × LogRecord → Type 0
Says lvl msg l (s, r) =
    (r.message ≡ msg)
    × (r.level ≡ lvl)
    × (r.ctx_id ≡ l.ctx_id)
    × (r.ecu_id ≡ l.ecu_id)
    × (r.app_id ≡ l.app_id)

should_log_lem :
    (lvl : LogLevel) (l : Logger)
    → should_log lvl l
      ≡ (not (level_code l.level == 0) && leb (level_code lvl) (level_code l.level))
unfolding should_log level_code
should_log_lem lvl l = ground arith

-- A message reaches every sink of the logger that is there, once and in the order added, each time
-- as one record with the message, its level and the logger's ids, exactly if the logger is not off
-- and the level is at most the logger's; otherwise no sink is called.
pub log_lem :
    (lvl : LogLevel) (msg : Bytes) (file : Option Bytes) (line now : ℕ) (l : Logger)
    → (map (λ (e : ℕ × LogRecord). e.0) (log lvl msg file line now l) ≡ (
        if not (level_code l.level == 0) && leb (level_code lvl) (level_code l.level)
        then present l.sinks
        else []))
      × All (Says lvl msg l) (log lvl msg file line now l)
unfolding log
log_lem lvl msg file line now l =
    let r : LogRecord = record {
      ecu_id = l.ecu_id;
      app_id = l.app_id;
      ctx_id = l.ctx_id;
      level = lvl;
      message = msg;
      ts_ns = now;
      file = file;
      line = line;
    } in
    let sent = fan_out-present r l.sinks in
    elim (Bool-cases (should_log lvl l)) [
      | inl e ↦ (
        rw (e, ← should_log_lem lvl l, e) sent.0,
        rw e (All-map _ _ (fan_out r l.sinks) (λ x s. ground arith) sent.1),
      )
      | inr e ↦ (rw (e, ← should_log_lem lvl l, e) refl, rw e tt)
    ]
