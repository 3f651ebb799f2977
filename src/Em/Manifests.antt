-- ===== src/Em/Manifests.antt =====
-- load_manifests and build_client_to_appid_map of em/execution_manager.cpp. A directory entry is
-- whether its extension is .json, whether the file opens, and what it parses to. `none` is an
-- exception, which nothing catches: the manager ends.
pub mod Loaded
pub mod Clients
use minimal_autosar_adaptive.Prelude.{
  ℕ, ◌%◌, ◌^◌, Bool, true, false, ◌&&◌, ◌||◌, not, string_eq, nat_eq, ◌==◌, String, List, [], ◌∷◌,
  ◌++◌, codes, is_empty, Option, none, some, if◌then◌else◌, ◌>>=◌,
}
use minimal_autosar_adaptive.Prelude.Int.{ℤ, pos}
use minimal_autosar_adaptive.Prelude.Table.{Table, insert}
use minimal_autosar_adaptive.Prelude.Membership.{elem}
use minimal_autosar_adaptive.Core.Numbers.{stoul}
use minimal_autosar_adaptive.Core.Json.{Json}
use minimal_autosar_adaptive.Em.Config.{PhmConfig, ComConfig, AppConfig}

-- static_cast<uint16_t>(std::stoul(s, nullptr, 0)), and to 32 bits
unfoldable pub word16 : String → Option ℕ
word16 s = do n ← stoul (codes s); some (n % 2 ^ 16)

unfoldable pub word32 : String → Option ℕ
word32 s = do n ← stoul (codes s); some (n % 2 ^ 32)

abbrev pub default_phm : PhmConfig
default_phm = record {
  period_ms = pos 1000;
  allowed_missed_cycles = pos 3;
  required_checkpoints = [];
  require_alive = false;
}

abbrev pub default_com : ComConfig
default_com = record {
  service_id = 0;
  instance_id = 0;
  event_group = 0x0001;
  subscribe_events = [];
}

-- if (app.app_id.empty() || app.executable.empty()) continue
unfoldable pub is_app : AppConfig → Bool
is_app a = not (a.app_id == "") && not (a.executable == "")

-- One entry that is read: its application, in front of the others if it is one.
unfoldable pub keep_app : AppConfig → List AppConfig → List AppConfig
unfolding is_app
keep_app a more = if is_app a then a ∷ more else more

-- The ids of the manifests.
unfoldable pub manifest_ids : List AppConfig → List String
manifest_ids [] = []
manifest_ids (a ∷ apps) = if a.app_id == "" then manifest_ids apps else a.app_id ∷ manifest_ids apps

unfoldable pub add_named : List String → String → String → Table ℕ String → Option (Table ℕ String)
unfolding word16
add_named ids name id_s out =
    if name == "" || id_s == ""
    then some out
    else do cid ← word16 id_s; some (if elem name ids then insert cid name out else out)

-- One entry of the directory.
pub record Entry (J : Type 0) : Type 0 where
  pub is_json : Bool
  pub opens : Bool
  pub document : Option J

module _ {J : Type 0} (json : Json J) where
  -- node.contains(key) && node[key].is_array(), and its elements
  unfoldable pub array_of : String → J → List J
  array_of key node = elim (json.get key node) [
    | none ↦ []
    | some v ↦ if json.is_array v then json.elements v else []
  ]

  -- node.contains(key) && node[key].is_object()
  unfoldable pub object_of : String → J → Option J
  object_of key node = elim (json.get key node) [
    | none ↦ none
    | some v ↦ if json.is_object v then some v else none
  ]

  unfoldable pub strings_of : List J → List String
  strings_of [] = []
  strings_of (x ∷ xs) = elim (json.as_string x) [
    | none ↦ strings_of xs
    | some s ↦ s ∷ strings_of xs
  ]

  unfoldable pub checkpoints_of : List J → PhmConfig → Option PhmConfig
  unfolding word32
  checkpoints_of [] p = some p
  checkpoints_of (x ∷ xs) p = elim (json.as_string x) [
    | some s ↦
        if s == "alive"
        then checkpoints_of xs (record p { require_alive = true })
        else elim (word32 s) [
          | none ↦ none
          | some n ↦
              checkpoints_of xs
                (record p { required_checkpoints = p.required_checkpoints ++ n ∷ [] })
        ]
    | none ↦ elim (json.as_unsigned x) [
      | none ↦ checkpoints_of xs p
      | some n ↦
          checkpoints_of xs
            (record p { required_checkpoints = p.required_checkpoints ++ (n % 2 ^ 32) ∷ [] })
    ]
  ]

  unfoldable pub phm_of : J → Option PhmConfig
  unfolding object_of array_of checkpoints_of
  phm_of j = elim (object_of "phm" j) [
    | none ↦ some default_phm
    | some p ↦ do
      period ← json.value_int "period_ms" (pos 1000) p
      allowed ← json.value_int "allowed_missed_cycles" (pos 3) p
      checkpoints_of (array_of "required_checkpoints" p)
          (record default_phm { period_ms = period; allowed_missed_cycles = allowed })
  ]

  unfoldable pub parse_u16 : ℕ → J → Option ℕ
  unfolding word16
  parse_u16 fallback v = elim (json.as_unsigned v) [
    | some n ↦ some (n % 2 ^ 32 % 2 ^ 16)
    | none ↦ elim (json.as_string v) [ none ↦ some fallback | some s ↦ word16 s ]
  ]

  -- Where the key is contained, its number, and else the fallback.
  unfoldable pub u16_at : String → ℕ → J → Option ℕ
  unfolding parse_u16
  u16_at key fallback s = elim (json.get key s) [
    | none ↦ some fallback
    | some v ↦ parse_u16 fallback v
  ]

  unfoldable pub events_of : List J → Option (List ℕ)
  unfolding word16
  events_of [] = some []
  events_of (x ∷ xs) = elim (json.as_unsigned x) [
    | some n ↦ do more ← events_of xs; some ((n % 2 ^ 32 % 2 ^ 16) ∷ more)
    | none ↦ elim (json.as_string x) [
      | none ↦ events_of xs
      | some s ↦ do n ← word16 s; more ← events_of xs; some (n ∷ more)
    ]
  ]

  unfoldable pub someip_of : J → Option ComConfig
  unfolding u16_at array_of events_of
  someip_of s = do
    service ← u16_at "service_id" 0 s
    instance_id ← u16_at "instance_id" 0 s
    group ← u16_at "event_group" 0x0001 s
    events ← events_of (array_of "subscribe" s)
    some (record {
      service_id = service;
      instance_id = instance_id;
      event_group = group;
      subscribe_events = events;
    })

  unfoldable pub com_of : J → Option ComConfig
  unfolding object_of someip_of
  com_of j = elim (object_of "com" j) [
    | none ↦ some default_com
    | some c ↦ elim (object_of "someip" c) [ none ↦ some default_com | some s ↦ someip_of s ]
  ]

  unfoldable pub app_of : J → Option AppConfig
  unfolding strings_of array_of phm_of com_of
  app_of j = do
    app_id ← json.value_string "app_id" "" j
    executable ← json.value_string "executable" "" j
    start_on_boot ← json.value_bool "start_on_boot" false j
    restart_policy ← json.value_string "restart_policy" "never" j
    log_file ← json.value_string "log_file" "" j
    phm ← phm_of j
    com_config ← com_of j
    some (record {
      app_id = app_id;
      executable = executable;
      start_on_boot = start_on_boot;
      restart_policy = restart_policy;
      log_file = log_file;
      dependencies = strings_of (array_of "dependencies" j);
      phm = phm;
      com_config = com_config;
    })

  unfoldable pub load_manifests : List (Entry J) → Option (List AppConfig)
  unfolding app_of keep_app
  load_manifests [] = some []
  load_manifests (e ∷ es) =
      let rest = load_manifests es in
      if not (e.is_json && e.opens)
      then rest
      else do j ← e.document; a ← app_of j; more ← rest; some (keep_app a more)

  -- One element of "applications".
  unfoldable pub add_client : List String → J → Table ℕ String → Option (Table ℕ String)
  unfolding add_named
  add_client ids a out = if not (json.is_object a) then some out else do
    name ← json.value_string "name" "" a
    id_s ← json.value_string "id" "0" a
    add_named ids name id_s out

  -- The loop over "applications", which has `out` so far.
  unfoldable pub add_clients : List String → List J → Table ℕ String → Option (Table ℕ String)
  unfolding add_client
  add_clients ids [] out = some out
  add_clients ids (a ∷ more) out = do out' ← add_client ids a out; add_clients ids more out'

  -- The file is `none` where it does not open, and `some none` where it does not parse.
  unfoldable pub build_client_to_appid_map :
      Option (Option J) → List AppConfig → Option (Table ℕ String)
  unfolding array_of manifest_ids add_clients
  build_client_to_appid_map none apps = some []
  build_client_to_appid_map (some none) apps = none
  build_client_to_appid_map (some (some j)) apps =
      add_clients (manifest_ids apps) (array_of "applications" j) []
