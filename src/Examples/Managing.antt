-- ===== src/Examples/Managing.antt =====
-- A manager with one application that fails once.
use minimal_autosar_adaptive.Prelude.{
  map, Bytes, ◌↔◌, ℕ, ◌+◌, ◌<◌, ◌≡◌, refl, true, false, String, List, [], ◌∷◌, Option, none, some,
  arith, All, nat_eq, string_eq,
}
use minimal_autosar_adaptive.Prelude.Table.{Table, lookup, insert, emplace}
use minimal_autosar_adaptive.Core.Numbers.{stoul}
use minimal_autosar_adaptive.Core.Result.{has_value}
use minimal_autosar_adaptive.Persistency.Registry.{Registry, init_from_file}
use minimal_autosar_adaptive.Phm.Client.{report_alive}
use minimal_autosar_adaptive.Em.Config.{AppConfig}
use minimal_autosar_adaptive.Em.Manifests.{
  default_phm, default_com, load_manifests, build_client_to_appid_map,
}
use minimal_autosar_adaptive.Em.Boot.{build_graph}
use minimal_autosar_adaptive.Em.Boot.Order.{Walks}
use minimal_autosar_adaptive.Em.Clock.{tick_period, periodic, CaughtUp, periodic_ends}
use minimal_autosar_adaptive.Em.Monitor.{Children, Wait, reaped, exited}
use minimal_autosar_adaptive.Em.Supervision.{Event}
use minimal_autosar_adaptive.Em.Supervision.Projection.{all_seen_by}
use minimal_autosar_adaptive.Em.Loop.{Turn}
use minimal_autosar_adaptive.Em.Loop.Split.{Follows, Before}
use minimal_autosar_adaptive.Em.Main.{Surroundings, Run, returned, main}
use minimal_autosar_adaptive.Em.Main.Starts.{IsRun, main-IsRun}
use minimal_autosar_adaptive.Em.Main.Booted.{IsBooted}
use minimal_autosar_adaptive.Em.Main.Supervises.{IsSupervised, main_supervises}
use minimal_autosar_adaptive.Examples.Documents.{Doc, Scalar, text, flag, object, document, docs}

-- The clock stands still at 350 ms, three ticks after the one that was due at 100 ms.
late_ticks : periodic 5 350000000 (λ k. 350000000) (λ k. true) 100000000 ≡ some (3, 400000000)
unfolding periodic
late_ticks = refl

periodic_ends_example :
    (n : ℕ) × (next : ℕ) × (periodic 5 350000000 (λ k. 350000000) (λ k. true) 100000000
      ≡ some (n, next))
    × CaughtUp (λ k. 350000000) (λ k. true) 100000000 n next
    × ((n ≡ 0) ↔ (350000000 < 100000000))
periodic_ends_example =
    periodic_ends (λ k. 350000000) (λ k. true) 100000000 350000000 (λ k. omega arith) 5 350000000
      (omega arith) (omega arith)

abbrev client_manifest : Table String Scalar
client_manifest =
    ("app_id", text "client")
    ∷ ("executable", text "./client")
    ∷ ("start_on_boot", flag true)
    ∷ ("restart_policy", text "on-failure")
    ∷ []

abbrev client_app : AppConfig
client_app = record {
  app_id = "client";
  executable = "./client";
  start_on_boot = true;
  restart_policy = "on-failure";
  log_file = "";
  dependencies = [];
  phm = default_phm;
  com_config = default_com;
}

abbrev kv_storage : Table String Scalar
kv_storage = ("instance_spec", text "App/kv") ∷ ("type", text "kv") ∷ ("base_path", text "kv") ∷ []

abbrev client_entry : Table String Scalar
client_entry = ("name", text "client") ∷ ("id", text "0x5555") ∷ []

-- A turn at 250 ms that reaps process 7, and one in which a signal has come.
abbrev failing : Turn
failing = record {
  goes_on = true;
  now = 250000000;
  clock = λ k. 260000000;
  running = λ k. true;
  reads = λ k id. 250000000;
  requests = λ k. (report_alive, 0x5555) ∷ [];
  later = [];
  wait = reaped 7 (exited 1);
  fork = some 8;
}

abbrev signal_came : Turn
signal_came = record failing { goes_on = false }

abbrev met : Surroundings Doc
met = record {
  storages_file = some (some (document "storages" (kv_storage ∷ [])));
  manifests =
      record { is_json = true; opens = true; document = some (object client_manifest) } ∷ [];
  vsomeip_file = some (some (document "applications" (client_entry ∷ [])));
  own_env = none;
  walk = "client" ∷ [];
  forks = λ k. some 7;
  clock = 0;
  turns = failing ∷ signal_came ∷ [];
  late_signal = false;
  waits = reaped 8 (exited 0) ∷ [];
}

abbrev one_app : List AppConfig
one_app = client_app ∷ []

abbrev one_client : Table ℕ String
one_client = (0x5555, "client") ∷ []

abbrev unread : Registry
unread = record { storages = []; inited = false }

app_read : load_manifests docs met.manifests ≡ some one_app
unfolding load_manifests lookup
app_read = refl

client_read : build_client_to_appid_map docs met.vsomeip_file one_app ≡ some one_client
unfolding build_client_to_appid_map lookup insert stoul
client_read = refl

walk-Walks : Walks met.walk (build_graph one_app).indeg
unfolding build_graph lookup insert emplace
walk-Walks = record { once = (refl, tt); visits = λ v. refl }

clock_bounded : All (Before 300000000) met.turns
clock_bounded = ((omega arith, λ k. omega arith), ((omega arith, λ k. omega arith), tt))

storages_read : has_value (init_from_file docs met.storages_file unread []).2 ≡ true
unfolding init_from_file lookup has_value
storages_read = refl

main-IsRun_example :
    (run : Run) × ((main docs 5 met unread []).2 ≡ returned run) × IsRun met one_app one_client run
main-IsRun_example =
    main-IsRun docs 5 300000000 met one_app one_client app_read client_read walk-Walks clock_bounded
      (omega arith) unread [] storages_read

main_supervises_example :
    (run : Run) × ((main docs 5 met unread []).2 ≡ returned run)
    × (es : List Event) × (ws : List (Wait × Option ℕ)) × (children : Children) × Follows
        (met.clock + tick_period)
        met.turns
        es
        ws
    × IsBooted met.forks (map (λ (l : String × Option Bytes). l.0) run.launches) one_app children
    × ((id : String) → IsSupervised one_app (all_seen_by one_client id es) ws children run id)
main_supervises_example =
    main_supervises docs 5 300000000 met one_app one_client unread [] app_read client_read
      walk-Walks clock_bounded (omega arith) storages_read
