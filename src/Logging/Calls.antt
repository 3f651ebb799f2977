-- ===== src/Logging/Calls.antt =====
-- The calls of a logger in logging/include/log.hpp: those of each level, with a message or with a
-- format, and Snapshot and ContextId. The arguments of a format are their texts.
use minimal_autosar_adaptive.Prelude.{
  ℕ, ◌≡◌, ◌&&◌, not, nat_eq, ◌==◌, Bytes, List, [], Option, map, arith, if◌then◌else◌, leb, length,
  All,
}
use minimal_autosar_adaptive.Logging.Logger.{
  LogLevel, fatal, error, warn, info, debug, verbose, level_code, LogRecord, Sink, LogManager,
  Logger, should_log, log, present, Says, log_lem,
}
use minimal_autosar_adaptive.Logging.Format.{
  format_into, HasNoBrace, template, weave, format_into-template,
}

unfoldable pub snapshot : LogManager → List Sink × Bytes × Bytes × LogLevel
snapshot m = (m.sinks, m.ecu_id, m.app_id, m.default_level)

unfoldable pub context_id : Logger → Bytes
context_id l = l.ctx_id

-- What a call with a message is: its text, the file and line it stands in, and the clock.
abbrev pub MessageCall : Type 0
MessageCall = Bytes → Option Bytes → ℕ → ℕ → Logger → List (ℕ × LogRecord)

unfoldable pub log_fatal : MessageCall
log_fatal m = log fatal m

unfoldable pub log_error : MessageCall
log_error m = log error m

unfoldable pub log_warn : MessageCall
log_warn m = log warn m

unfoldable pub log_info : MessageCall
log_info m = log info m

unfoldable pub log_debug : MessageCall
log_debug m = log debug m

unfoldable pub log_verbose : MessageCall
log_verbose m = log verbose m

-- LogF
unfoldable pub log_f :
    LogLevel → Option Bytes → ℕ → Bytes → List Bytes → ℕ → Logger → List (ℕ × LogRecord)
log_f lvl file line fmt args now l =
    if should_log lvl l then log lvl (format_into fmt args) file line now l else []

-- A call with a format: the file and line it stands in, the format, its arguments, and the clock.
abbrev pub FormatCall : Type 0
FormatCall = Option Bytes → ℕ → Bytes → List Bytes → ℕ → Logger → List (ℕ × LogRecord)

unfoldable pub fatal_f : FormatCall
fatal_f file = log_f fatal file

unfoldable pub error_f : FormatCall
error_f file = log_f error file

unfoldable pub warn_f : FormatCall
warn_f file = log_f warn file

unfoldable pub info_f : FormatCall
info_f file = log_f info file

unfoldable pub debug_f : FormatCall
debug_f file = log_f debug file

unfoldable pub verbose_f : FormatCall
verbose_f file = log_f verbose file

log_f-log :
    (lvl : LogLevel) (file : Option Bytes) (line : ℕ) (fmt : Bytes) (args : List Bytes) (now : ℕ)
    (l : Logger)
    → log_f lvl file line fmt args now l ≡ log lvl (format_into fmt args) file line now l
unfolding log_f log
log_f-log lvl file line fmt args now l = ground arith

-- A format with as many arguments as brace pairs reaches every sink of the logger that is there,
-- once and in the order added, as one record whose message has each argument in the place of its
-- pair, exactly if the logger is not off and the level is at most the logger's; otherwise no sink is
-- called.
pub log_f-template :
    (lvl : LogLevel) (file : Option Bytes) (line : ℕ) (first : Bytes) (texts args : List Bytes)
    (now : ℕ) (l : Logger)
    → length args ≡ length texts
    → HasNoBrace first
    → All HasNoBrace texts
    → let sent = log_f lvl file line (template first texts) args now l in
      (map (λ (e : ℕ × LogRecord). e.0) sent ≡ (
        if not (level_code l.level == 0) && leb (level_code lvl) (level_code l.level)
        then present l.sinks
        else []))
      × All (Says lvl (weave first texts args) l) sent
log_f-template lvl file line first texts args now l same clear all_clear =
    let text = weave first texts args in
    rw (log_f-log, format_into-template first texts args same clear all_clear)
      (log_lem lvl text file line now l)
