-- ===== src/Examples/Driving.antt =====
-- A speed client whose speeds are single digits, a sink of two records, and a gateway's file.
use minimal_autosar_adaptive.Prelude.{
  arith, ◌++◌, ℕ, ◌↔◌, Any, ◌+◌, ◌*◌, ◌-◌, ◌/◌, ◌≡◌, refl, ltb, true, false, string_eq, ◌==◌,
  list_eq, nat_eq, Bytes, String, List, [], ◌∷◌, map, Option, none, some, codes, if◌then◌else◌,
}
use mathlib.Core.List.{reverse, reverse_perm}
use minimal_autosar_adaptive.Prelude.Table.{Table, lookup, insert}
use minimal_autosar_adaptive.Core.Result.{PersistencyErrc, err, ok}
use minimal_autosar_adaptive.Examples.Documents.{Doc, Scalar, size, whole, docs}
use minimal_autosar_adaptive.Persistency.Files.{calm, total, exists, file_size, rename}
use minimal_autosar_adaptive.Persistency.KeyValue.{Backend, key_is_safe, size_after, set_value}
use minimal_autosar_adaptive.Persistency.Handle.{fetch, Streamed, set_value_string}
use minimal_autosar_adaptive.Phm.Ids.{alive_method, checkpoint_method}
use minimal_autosar_adaptive.Apps.Float.{Float}
use minimal_autosar_adaptive.Apps.SpeedClient.{
  Step, SpeedClient, max_allowed_speed, start_client, speed, tick, run,
}
use minimal_autosar_adaptive.Apps.SpeedClient.Watchdog.{requests_of, silence_reported}
use minimal_autosar_adaptive.Apps.SpeedClient.Watchdog
use minimal_autosar_adaptive.Apps.SpeedClient.Healthy.{sent_by, run_events-tick}
use minimal_autosar_adaptive.Prelude.Int.{pos}
use minimal_autosar_adaptive.Phm.Supervisor.{Supervisor, elapsed}
use minimal_autosar_adaptive.Phm.Supervisor.Verdict.{IsDue}
use minimal_autosar_adaptive.Em.Handlers.{Monitors}
use minimal_autosar_adaptive.Em.Supervision.{ticks, run_events}
use minimal_autosar_adaptive.Em.Supervision.Projection.{said_of}
use minimal_autosar_adaptive.Apps.SpeedClient.Limit.{start_client-run}
use minimal_autosar_adaptive.Someip.Binding.{Binding, Call, initial}
use minimal_autosar_adaptive.Com.Adapter.{Adapter, new_adapter}
use minimal_autosar_adaptive.Apps.Float.{stof_or_zero}
use minimal_autosar_adaptive.Apps.SensorProvider.{start_provider}
use minimal_autosar_adaptive.Apps.SpeedClient.{attach}
use minimal_autosar_adaptive.Com.Typed.Delivery.{messages, heard}
use minimal_autosar_adaptive.Prelude.Walk.{IsWalk}
use minimal_autosar_adaptive.Apps.Float.{float_codec}
use minimal_autosar_adaptive.Apps.Pair.{published, speeds, published-heard}
use minimal_autosar_adaptive.Logging.Logger.{LogRecord, info, fatal}
use minimal_autosar_adaptive.Logging.Dlt.{new_sink, write_all}
use minimal_autosar_adaptive.Logging.Dlt.Seen.{seen, message_of, write_all-new_sink}
use minimal_autosar_adaptive.Gateway.{Cfg, BusToFunction, CanGateway}
use minimal_autosar_adaptive.Gateway.Factory.Made.{Hands, make_can_gateway-Hands}
use minimal_autosar_adaptive.Gateway.Factory.{
  CanSocket, load_cfg, make_can_gateway, default_iface, cfg_of, iface_of, tx_of, frame_of, line_of,
  inside, hand_out, new_gateway, open_can,
}

abbrev digit : ℕ → Bytes
digit n = (b'0' + n) ∷ []

abbrev digit_of : Bytes → Option ℕ
digit_of (d ∷ []) = some (d - b'0')
digit_of _ = none

abbrev digits : Float ℕ
digits = record {
  literal = λ s. if s == "90.0" then 9 else 0;
  plus = λ m n. m + n;
  times = λ m n. m * n;
  sin = λ n. n;
  greater = λ m n. ltb n m;
  to_string = digit;
  stof = digit_of;
}

abbrev streamed : Streamed ℕ
streamed = record { print = digit; read = digit_of }

abbrev empty_store : Backend
empty_store = record { base_path = "demo"; quota = 64; files = [] }

default_stored : (set_value_string calm max_allowed_speed (digit 9) empty_store).1 ≡ ok tt
unfolding set_value_string set_value key_is_safe size_after total exists lookup file_size rename
    insert
default_stored = refl

start_client-run_example :
    let first = start_client digits streamed calm calm empty_store in
    let second =
      start_client digits streamed calm calm (run digits (speed calm 8 ∷ tick ∷ []) first).0.kv in
    ((v : ℕ)
      → fetch streamed calm max_allowed_speed empty_store ≡ ok v
      → (first.max_speed ≡ v) × (second.max_speed ≡ v))
    × ((e : PersistencyErrc)
        → fetch streamed calm max_allowed_speed empty_store ≡ err e
        → (first.max_speed ≡ 9) × (second.max_speed ≡ 9))
start_client-run_example =
    start_client-run digits streamed calm calm empty_store (speed calm 8 ∷ tick ∷ []) default_stored
      refl refl

abbrev driving : SpeedClient ℕ
driving = record { kv = empty_store; max_speed = 5; missed_ticks = 9 }

silence_reported_example :
    let out = (run digits (speed calm 6 ∷ Watchdog.ticks 64) driving).1 in
    (requests_of checkpoint_method out ≡ 64 / 32) × (requests_of alive_method out ≡ 64)
silence_reported_example = silence_reported digits calm 6 driving 64

abbrev said : LogRecord
said = record {
  ecu_id = codes "ECU1";
  app_id = codes "EMGR";
  ctx_id = codes "EM";
  level = info;
  message = codes "up";
  ts_ns = 0;
  file = none;
  line = 17;
}

abbrev two_records : List LogRecord
two_records = said ∷ record said { level = fatal; message = codes "down" } ∷ []

write_all-new_sink_example :
    seen (write_all two_records (new_sink (codes "manager"))).1 [] ≡ map message_of two_records
write_all-new_sink_example = write_all-new_sink two_records (codes "manager")

abbrev frame : ℕ → Table String Scalar
frame id = ("can_id", size id) ∷ ("dlc", size 1) ∷ []

abbrev gateway_file : Doc
gateway_file =
    whole (("tx", ("LightPattern", frame 0x120) ∷ ("ActuatorCommand", frame 0x121) ∷ []) ∷ [])

abbrev can_up : CanSocket
can_up = record { opens = true; finds = λ iface. true; binds = true }

abbrev lines_of : BusToFunction
lines_of = record { has_line_a = true; has_line_b = false }

abbrev can_cfg : Cfg
can_cfg = record {
  iface = default_iface;
  tx = record { ind_canid = 0x120; act_canid = 0x121; ind_dlc = 1; act_dlc = 1 };
  rx = record { line_a_id = none; line_a_bit = pos 0; line_b_id = none; line_b_bit = pos 1 };
}

abbrev made : CanGateway
made = record { cfg = can_cfg; bus2fn = lines_of; is_open = true }

file_read :
    make_can_gateway docs can_up (some (some gateway_file)) lines_of none ≡ some (some made, true)
unfolding make_can_gateway load_cfg cfg_of iface_of tx_of frame_of line_of inside hand_out
    new_gateway open_can lookup
file_read = refl

make_can_gateway-Hands_example : Hands docs can_up (some (some gateway_file)) none (some made) true
make_can_gateway-Hands_example =
    make_can_gateway-Hands docs can_up (some (some gateway_file)) lines_of none (some made) true
      file_read

-- A map that is walked from its end.
abbrev reversed : Table ℕ (Option ℕ) → Table ℕ (Option ℕ)
reversed l = reverse l

reversed-IsWalk : IsWalk reversed
reversed-IsWalk l = reverse_perm l

published-heard_example :
    (provider : Adapter × Binding × List Call) × (client : Adapter × Binding × List Call × ℕ)
    × (calls : List Call) × (start_provider none new_adapter initial ≡ some provider)
    × (attach (some (codes "0x1234:1:0x8001")) (some 4) new_adapter initial ≡ some client)
    × (published digits 3 2 provider.1 ≡ some calls)
    × (heard (float_codec digits) reversed (messages calls) client.0 client.1
        ≡ map (λ v. (4, stof_or_zero digits (digits.to_string v))) (speeds digits 3 2))
published-heard_example =
    published-heard digits reversed none (some (codes "0x1234:1:0x8001")) 4 3 2 reversed-IsWalk

-- A monitor in a cycle of 500 ms that began at 100 ms.
abbrev watching : Supervisor
watching = record {
  cfg = record {
    supervision_cycle_ms = pos 500;
    allowed_missed_cycles = pos 1;
    required_checkpoints = [];
  };
  cycle_start = 100000000;
  got_alive = false;
  seen_cps = [];
  missed_cycles = 0;
  last_healthy = 100000000;
  has_callback = true;
}

abbrev client_names : Table ℕ String
client_names = (0x5555, "speed_client") ∷ []

abbrev only_client : Monitors
only_client = ("speed_client", watching) ∷ []

cycle_over : IsDue watching 600000000
unfolding elapsed
cycle_over = record { started = λ e. omega arith; over = refl }

name_known : lookup 0x5555 client_names ≡ some "speed_client"
unfolding lookup
name_known = refl

client_watched : lookup "speed_client" only_client ≡ some watching
unfolding lookup
client_watched = refl

run_events-tick_example :
    let sent = sent_by 0x5555 (run digits (speed calm 6 ∷ tick ∷ []) driving).1 in
    (said_of "speed_client"
        (run_events client_names (sent ++ ticks (λ id. 600000000) ∷ []) only_client).1
      ≡ [])
    ↔ Any (λ (s : Step ℕ). s ≡ tick) (speed calm 6 ∷ tick ∷ [])
run_events-tick_example =
    run_events-tick digits client_names 0x5555 "speed_client" name_known (speed calm 6 ∷ tick ∷ [])
      driving only_client watching (λ id. 600000000) (refl, tt) client_watched refl refl refl
      cycle_over
