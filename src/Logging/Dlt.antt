-- ===== src/Logging/Dlt.antt =====
-- DltSink: logging/src/sinks_dlt.cpp and logging/include/sinks_dlt.hpp. What is asked of the DLT
-- library comes back as a list of calls. A context is a pointer, here the number of contexts that
-- were made before it; it is never freed. A write runs under the mutex.
pub mod Seen
use minimal_autosar_adaptive.Prelude.{
  ℕ, Bool, true, false, nat_eq, list_eq, ◌==◌, Bytes, List, [], ◌∷◌, ◌++◌, Option, none, some,
  codes, length, if◌then◌else◌,
}
use minimal_autosar_adaptive.Prelude.Table.{Table, lookup, insert}
use minimal_autosar_adaptive.Logging.Logger.{
  LogLevel, off, fatal, error, warn, info, debug, verbose, LogRecord,
}

pub data DltLevel : Type 0 where
  dlt_fatal dlt_error dlt_warn dlt_info dlt_debug dlt_verbose : DltLevel

unfoldable pub to_dlt_level : LogLevel → DltLevel
to_dlt_level fatal = dlt_fatal
to_dlt_level error = dlt_error
to_dlt_level warn = dlt_warn
to_dlt_level info = dlt_info
to_dlt_level debug = dlt_debug
to_dlt_level verbose = dlt_verbose
to_dlt_level off = dlt_info

-- dlt_register_app, dlt_register_context and DLT_LOG.
pub data DltCall : Type 0 where
  register_app : Bytes → Bytes → DltCall
  register_context : ℕ → Bytes → Bytes → DltCall
  dlt_log : ℕ → DltLevel → Bytes → DltCall

pub record DltSink : Type 0 where
  pub app_desc : Bytes
  pub registered_app_id : Bytes
  pub ctx_by_id : Table Bytes ℕ

unfoldable pub new_sink : Bytes → DltSink
new_sink app_description = record {
  app_desc = app_description;
  registered_app_id = [];
  ctx_by_id = [];
}

-- c_str(), as C reads it.
unfoldable pub c_string : Bytes → Bytes
c_string [] = []
c_string (b ∷ s) = let rest = c_string s in if b == 0 then [] else b ∷ rest

unfoldable pub ensure_app_registered : Bytes → DltSink → DltSink × List DltCall
unfolding c_string
ensure_app_registered app_id s = if s.registered_app_id == app_id then (s, []) else (
  record s { registered_app_id = app_id },
  register_app (c_string app_id) (c_string s.app_desc) ∷ [],
)

unfoldable pub ensure_ctx_registered : Bytes → Bytes → DltSink → DltSink × List DltCall
unfolding c_string
ensure_ctx_registered ctx_id ctx_desc s = elim (lookup ctx_id s.ctx_by_id) [
  | some ctx ↦ (s, [])
  | none ↦
      let ctx = length s.ctx_by_id in
      (
        record s { ctx_by_id = insert ctx_id ctx s.ctx_by_id },
        register_context ctx (c_string ctx_id) (c_string ctx_desc) ∷ [],
      )
]

-- The record goes to the context of its id.
unfoldable pub dlt_log_in : LogRecord → DltSink → List DltCall
unfolding to_dlt_level c_string
dlt_log_in r s = elim (lookup r.ctx_id s.ctx_by_id) [
  | none ↦ []
  | some ctx ↦ dlt_log ctx (to_dlt_level r.level) (c_string r.message) ∷ []
]

unfoldable pub write : LogRecord → DltSink → DltSink × List DltCall
unfolding ensure_app_registered ensure_ctx_registered dlt_log_in
write r s =
    let (s', app_calls) = ensure_app_registered r.app_id s in
    let (t, ctx_calls) = ensure_ctx_registered r.ctx_id r.ctx_id s' in
    (t, app_calls ++ (ctx_calls ++ dlt_log_in r t))

unfoldable pub write_all : List LogRecord → DltSink → DltSink × List DltCall
unfolding write
write_all [] s = (s, [])
write_all (r ∷ rs) s =
    let (t, calls) = write r s in let (u, more) = write_all rs t in (u, calls ++ more)

-- `write` in a build without DLT: whether it has warned, and whether it does now.
unfoldable pub write_unsupported : LogRecord → Bool → Bool × Bool
write_unsupported r warned = (true, if warned then false else true)
