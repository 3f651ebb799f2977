-- ===== src/Examples/Reporting.antt =====
-- Diagnostic requests and log messages.
use minimal_autosar_adaptive.Prelude.{
  List, Option, ℕ, ◌<◌, ◌≡◌, ◌/◌, ◌%◌, ◌&&◌, refl, true, false, not, nat_eq, string_eq, ◌==◌, Bytes,
  [], ◌∷◌, none, some, arith, codes, length, leb, map, All, if◌then◌else◌,
}
use minimal_autosar_adaptive.Prelude.Table.{lookup}
use minimal_autosar_adaptive.Diag.Server.{Server, dispatch, take, serve}
use minimal_autosar_adaptive.Diag.Frames.{Answers, unframe, dispatch-Answers, serve-unframe}
use minimal_autosar_adaptive.Diag.Run.{
  Net, bound_to, serve_all, idle, up, after_all, serve_all-after_all,
}
use minimal_autosar_adaptive.Diag.Provider.{Provider}
use minimal_autosar_adaptive.Logging.Logger.{
  Logger, LogRecord, info, debug, level_code, present, Says,
}
use minimal_autosar_adaptive.Logging.Format.{template, weave}
use minimal_autosar_adaptive.Logging.Calls.{log_f, log_f-template}

abbrev server : Server
server = record { on_read = none; on_routine = none }

dispatch-Answers_example : Answers 0x22 (dispatch 0x22 (0x12 ∷ 0x34 ∷ []) server)
dispatch-Answers_example = dispatch-Answers 0x22 (0x12 ∷ 0x34 ∷ []) server

short_answer : length (dispatch 0x22 (0x12 ∷ 0x34 ∷ []) server) < 65536
unfolding dispatch
short_answer = omega arith

abbrev request : Bytes
request = 0x22 ∷ 0x12 ∷ 0x34 ∷ []

serve-unframe_example :
    (out : Bytes) × (serve
        (length request / 256 ∷ length request % 256 ∷ [])
        (λ n. take n request)
        server
      ≡ some out)
    × (unframe out ≡ some (dispatch 0x22 (0x12 ∷ 0x34 ∷ []) server))
serve-unframe_example = serve-unframe 0x22 (0x12 ∷ 0x34 ∷ []) server (omega arith) short_answer

abbrev provider : Provider
provider = record {
  api = record { has_trigger = some true; trigger_cause = none; can_reset = false };
  dids = ("HasTrigger", 0xF190) ∷ [];
  routines = [];
}

abbrev unconfigured : Provider
unconfigured = record provider { dids = [] }

none_configured : lookup "HasTrigger" unconfigured.dids ≡ none
unfolding lookup
none_configured = refl

abbrev logger : Logger
logger = record {
  ctx_id = codes "EM";
  ecu_id = codes "ECU1";
  app_id = codes "EMGR";
  sinks = none ∷ some 4 ∷ [];
  level = debug;
}

log_f-template_example :
    let sent =
      log_f info none 17 (template (codes "v ") (codes "." ∷ [])) (codes "1" ∷ []) 0 logger in
    (map (λ (e : ℕ × LogRecord). e.0) sent ≡ (
      if not (level_code logger.level == 0) && leb (level_code info) (level_code logger.level)
      then present logger.sinks
      else []))
    × All (Says info (weave (codes "v ") (codes "." ∷ []) (codes "1" ∷ [])) logger) sent
log_f-template_example =
    log_f-template info none 17 (codes "v ") (codes "." ∷ []) (codes "1" ∷ []) 0 logger refl
      (omega arith) (omega arith)

abbrev local_net : Net
local_net = record {
  opens = true;
  parses = λ addr. true;
  binds = λ addr p. not (p == 80);
  listens = true;
}

abbrev clients : List (Option (Bytes × (ℕ → Bytes)))
clients = none ∷ some (0 ∷ 3 ∷ [], λ n. request) ∷ some (0 ∷ [], λ n. []) ∷ []

serve_all-after_all_example :
    after_all (serve_all local_net none 13400 clients server) idle ≡ some up
unfolding bound_to
serve_all-after_all_example = serve_all-after_all local_net none 13400 clients server
