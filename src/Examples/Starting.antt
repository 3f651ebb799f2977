-- ===== src/Examples/Starting.antt =====
-- Two applications, of which one depends on the other.
use minimal_autosar_adaptive.Prelude.{
  ℕ, ◌≡◌, ◌<◌, ◌⊎◌, refl, true, false, string_eq, ◌==◌, String, List, [], ◌∷◌, some, none, arith,
  length, Option, ◌+◌, nat_eq, if◌then◌else◌, All, map, ◌||◌, ◌&&◌, ◌++◌, not,
}
use Prim.Native.Nat.{min}
use minimal_autosar_adaptive.Prelude.Int.{pos}
use minimal_autosar_adaptive.Prelude.Table.{Table, lookup, insert, emplace, erase}
use minimal_autosar_adaptive.Prelude.Membership.{count}
use minimal_autosar_adaptive.Em.Config.{AppConfig, ComConfig}
use minimal_autosar_adaptive.Em.Boot.{
  increment, is_edge, app_by_id, build_graph, manifest_order, start_order,
}
use minimal_autosar_adaptive.Em.Boot.Nodes.{depends}
use minimal_autosar_adaptive.Em.Boot.Order.{
  Walks, IsStartOrder, IsStuck, start_order_lem, acyclic_start_order,
}
use minimal_autosar_adaptive.Em.Environment.{build_someip_env, child_env}
use minimal_autosar_adaptive.Em.Environment.RoundTrip.{
  IsWords, meant, auto_requests-build_someip_env,
}
use minimal_autosar_adaptive.Someip.Requests.{auto_requests}
use minimal_autosar_adaptive.Em.Monitor.{
  Children, Wait, reaped, unchanged, exited, signaled, monitor, or_zero, shutdown,
}
use minimal_autosar_adaptive.Em.Monitor.Shutdown.{
  gone, is_running, is_asked, is_killed, shutdown-gone,
}
use minimal_autosar_adaptive.Core.Numbers.{stoul}
use minimal_autosar_adaptive.Em.Manifests.{
  Entry, default_phm, default_com, load_manifests, build_client_to_appid_map,
}
use minimal_autosar_adaptive.Em.Manifests.Loaded.{IsLoaded, load_manifests-IsLoaded}
use minimal_autosar_adaptive.Examples.Documents.{Doc, text, object, document, docs}
use minimal_autosar_adaptive.Someip.Binding.{
  initial, create_application, register_handlers, start, init,
}
use minimal_autosar_adaptive.Em.Environment.Child.{asked_for, init-child_env}
use minimal_autosar_adaptive.Em.Monitor.Restarts.{failures, monitor_restarts}

abbrev radio : ComConfig
radio = record {
  service_id = 0x1234;
  instance_id = 1;
  event_group = 0x0001;
  subscribe_events = 0x8001 ∷ [];
}

abbrev app : String → List String → AppConfig
app id dependencies = record {
  app_id = id;
  executable = "./app";
  start_on_boot = true;
  restart_policy = "on-failure";
  log_file = "";
  dependencies = dependencies;
  phm = record {
    period_ms = pos 1000;
    allowed_missed_cycles = pos 3;
    required_checkpoints = [];
    require_alive = false;
  };
  com_config = radio;
}

-- The client is named first and waits for the provider.
abbrev pair : List AppConfig
pair = app "client" ("provider" ∷ []) ∷ app "provider" [] ∷ []

abbrev ids : List String
ids = "client" ∷ "provider" ∷ []

ids-Walks : Walks ids (build_graph pair).indeg
unfolding build_graph lookup insert emplace
ids-Walks = record { once = (refl, (refl, tt)); visits = λ v. refl }

pair_order : start_order 3 ids pair ≡ some ("provider" ∷ "client" ∷ [])
unfolding start_order lookup insert emplace increment
pair_order = refl

few : length (build_graph pair).indeg < 3
unfolding build_graph lookup insert emplace
few = omega arith

start_order_lem_example :
    (order : List String) × (start_order 3 ids pair ≡ some order)
    × (IsStartOrder pair order
        ⊎ ((order ≡ manifest_order pair) × (done : List String) × IsStuck pair done))
start_order_lem_example = start_order_lem 3 ids pair ids-Walks few

-- The provider stands below the client.
abbrev rank : String → ℕ
rank s = if s == "client" then 1 else 0

names_differ : (◌==◌ {A = String} "provider" "client") ≡ false
names_differ = refl

rank_rises : (x y : String) → depends (app_by_id pair []) pair x y ≡ true → rank x < rank y
unfolding app_by_id lookup insert emplace is_edge
rank_rises x y h = ground (
  arith,
  string_eq.beq_iff "client" y,
  string_eq.beq_iff "provider" x,
  string_eq.beq_iff y "client",
  string_eq.beq_iff x "client",
  names_differ,
)

acyclic_start_order_example :
    (order : List String) × (start_order 3 ids pair ≡ some order) × IsStartOrder pair order
acyclic_start_order_example = acyclic_start_order 3 ids pair rank ids-Walks few rank_rises

radio-IsWords : IsWords radio
radio-IsWords = record { service = omega arith; instance = omega arith; group = omega arith }

auto_requests-build_someip_env_example : auto_requests 1 (build_someip_env radio) ≡ (
    if radio.service_id == 0 || radio.instance_id == 0
    then []
    else map (meant radio) radio.subscribe_events)
auto_requests-build_someip_env_example =
    auto_requests-build_someip_env radio radio-IsWords 1 (omega arith)

-- Process 7 fails, is started again as 8, and fails again.
abbrev crashes : List (Wait × Option ℕ)
crashes = (reaped 7 (exited 1), some 8) ∷ (unchanged, none) ∷ (reaped 8 signaled, some 9) ∷ []

abbrev launched : Children
launched = record { running_apps = (7, app "client" []) ∷ []; restart_count = ("client", 0) ∷ [] }

crashes_restart : (monitor crashes launched).1 ≡ "client" ∷ "client" ∷ []
unfolding monitor lookup insert erase
crashes_restart = refl

monitor_restarts_example :
    count "client" (monitor crashes launched).1
      + min 3 (or_zero (lookup "client" launched.restart_count))
    ≡ min 3 (or_zero (lookup "client" launched.restart_count) + failures "client" crashes launched)
monitor_restarts_example = monitor_restarts "client" crashes launched

init-child_env_example :
    (init "client" (child_env none (app "client" [])) initial).1
    ≡ create_application "client"
      ∷ register_handlers
      ∷ ((if radio.service_id == 0 || radio.instance_id == 0
            then []
            else asked_for radio radio.subscribe_events)
          ++ (if initial.started then [] else start ∷ []))
unfolding initial
init-child_env_example =
    init-child_env "client" (app "client" []) initial refl radio-IsWords (omega arith)

shutdown-gone_example :
    (is_asked 7 (shutdown (reaped 7 (exited 0) ∷ []) launched) ≡ is_running 7 launched.running_apps)
    × (is_killed 7 (shutdown (reaped 7 (exited 0) ∷ []) launched)
        ≡ (is_running 7 launched.running_apps && not (gone 20 7 (reaped 7 (exited 0) ∷ []))))
shutdown-gone_example = shutdown-gone (reaped 7 (exited 0) ∷ []) launched 7

-- One manifest of an application, and a file that is none.
abbrev entries : List (Entry Doc)
entries =
    record {
      is_json = true;
      opens = true;
      document = some (object (("app_id", text "client") ∷ ("executable", text "./client") ∷ []));
    }
    ∷ record { is_json = false; opens = true; document = none }
    ∷ []

abbrev read_app : AppConfig
read_app = record {
  app_id = "client";
  executable = "./client";
  start_on_boot = false;
  restart_policy = "never";
  log_file = "";
  dependencies = [];
  phm = default_phm;
  com_config = default_com;
}

entries_read : load_manifests docs entries ≡ some (read_app ∷ [])
unfolding load_manifests lookup
entries_read = refl

load_manifests-IsLoaded_example : All IsLoaded (read_app ∷ [])
load_manifests-IsLoaded_example = load_manifests-IsLoaded docs entries (read_app ∷ []) entries_read

abbrev vsomeip_config : Doc
vsomeip_config = document "applications" (
    (("name", text "client") ∷ ("id", text "0x5555") ∷ [])
    ∷ (("name", text "stranger") ∷ ("id", text "7") ∷ [])
    ∷ [])

abbrev known_clients : Table ℕ String
known_clients = (0x5555, "client") ∷ []

clients_read :
    build_client_to_appid_map docs (some (some vsomeip_config)) (read_app ∷ []) ≡ some known_clients
unfolding build_client_to_appid_map lookup insert stoul
clients_read = refl

client_known : lookup 0x5555 known_clients ≡ some "client"
unfolding lookup
client_known = refl
