-- ===== src/Persistency/Registry.antt =====
-- StorageRegistry: persistency/src/storage_registry.cpp. The one instance is passed as state. The
-- file system is a table of the directories under their paths; creating one succeeds.
pub mod Loading
use minimal_autosar_adaptive.Prelude.{
  ℕ, ◌-◌, Bool, true, false, string_eq, ◌==◌, String, List, [], ◌∷◌, Option, none, some,
  if◌then◌else◌, ◌>>=◌,
}
use minimal_autosar_adaptive.Prelude.Table.{Table, lookup, emplace}
use minimal_autosar_adaptive.Core.Result.{Result, Void, ok, err, not_found, corruption}
use minimal_autosar_adaptive.Core.Json.{Json}
use minimal_autosar_adaptive.Persistency.Files.{Dir, size_max}

pub data StorageType : Type 0 where
  kv files : StorageType

unfoldable pub parse_type : String → StorageType
parse_type s = if s == "kv" then kv else if s == "files" then files else files

pub record StorageConfig : Type 0 where
  pub type : StorageType
  pub base_path : String
  pub quota_bytes : ℕ
  pub recover_on_start : Bool

pub record Registry : Type 0 where
  pub storages : Table String StorageConfig
  pub inited : Bool

abbrev pub World : Type 0
World = Table String Dir

unfoldable pub create_directories : String → World → World
create_directories path w = emplace path [] w

unfoldable pub is_initialized : Registry → Bool
is_initialized r = r.inited

unfoldable pub find : String → Registry → Option StorageConfig
find instance r = lookup instance r.storages

unfoldable pub clear : Registry → Registry
clear r = record { storages = []; inited = false }

module _ {J : Type 0} (json : Json J) where
  -- One element of "storages".
  unfoldable pub config_of : J → Option (String × StorageConfig)
  unfolding parse_type
  config_of s = do
    inst_node ← json.at "instance_spec" s
    inst ← json.as_string inst_node
    type ← json.value_string "type" "files" s
    path_node ← json.at "base_path" s
    base_path ← json.as_string path_node
    quota ← json.value_size "quota_bytes" (size_max - 1) s
    recover ← json.value_bool "recover_on_start" false s
    some (
      inst,
      record {
        type = parse_type type;
        base_path = base_path;
        quota_bytes = quota;
        recover_on_start = recover;
      },
    )

  -- The loop, which has `storages` so far. `none` is a throw; the directories stay.
  unfoldable pub load :
      List J → Table String StorageConfig → World → World × Option (Table String StorageConfig)
  unfolding config_of create_directories
  load [] storages w = (w, some storages)
  load (s ∷ ss) storages w = elim (config_of s) [
    | none ↦ (w, none)
    | some (inst, cfg) ↦ load ss (emplace inst cfg storages) (create_directories cfg.base_path w)
  ]

  -- The file is `none` where it does not open, and `some none` where it does not parse.
  unfoldable pub init_from_file :
      Option (Option J) → Registry → World → Registry × World × Result Void
  unfolding load
  init_from_file none r w = (record r { storages = [] }, w, err not_found)
  init_from_file (some none) r w = (record r { storages = [] }, w, err corruption)
  init_from_file (some (some j)) r w = elim (json.at "storages" j) [
    | none ↦ (record r { storages = [] }, w, err corruption)
    | some ss ↦
        let (w', loaded) = load (json.elements ss) [] w in
        elim loaded [
          | none ↦ (record r { storages = [] }, w', err corruption)
          | some storages ↦ (record { storages = storages; inited = true }, w', ok tt)
        ]
  ]
