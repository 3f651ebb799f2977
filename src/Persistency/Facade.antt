-- ===== src/Persistency/Facade.antt =====
-- Opening and resetting the key-value storages: persistency/src/key_value_storage_facade.cpp and
-- include/ara/per/key_value_storage.hpp. A handle is the backend it holds, with the directory as
-- it stands when the handle is opened.
use minimal_autosar_adaptive.Prelude.{
  ℕ, Bool, true, false, not, string_eq, Bytes, String, [], ◌∷◌, Option, none, some, ◌≡◌, refl,
  arith, if◌then◌else◌, inl, inr, Option-cases,
}
use minimal_autosar_adaptive.Prelude.Table.{Table, lookup, insert, emplace, lookup-insert_self}
use minimal_autosar_adaptive.Core.Result.{Result, Void, ok, err, not_found, unknown}
use minimal_autosar_adaptive.Persistency.Files.{Dir}
use minimal_autosar_adaptive.Persistency.KeyValue.{Backend}
use minimal_autosar_adaptive.Persistency.Registry.{
  StorageType, kv, files, StorageConfig, Registry, World, create_directories, is_initialized, find,
}

unfoldable pub is_kv : StorageType → Bool
is_kv kv = true
is_kv files = false

abbrev pub dir_of : Option Dir → Dir
dir_of none = []
dir_of (some d) = d

-- The constructor of the backend.
unfoldable pub new_backend : String → ℕ → World → World × Backend
unfolding create_directories
new_backend path quota w =
    let w' = create_directories path w in
    (w', record { base_path = path; quota = quota; files = dir_of (lookup path w') })

unfoldable pub open_key_value_storage : String → Registry → World → World × Result Backend
unfolding is_initialized find is_kv new_backend
open_key_value_storage spec reg w =
    if not (is_initialized reg) then (w, err unknown) else elim (find spec reg) [
      | none ↦ (w, err not_found)
      | some cfg ↦
          if is_kv cfg.type
          then (let (w', b) = new_backend cfg.base_path cfg.quota_bytes w in (w', ok b))
          else (w, err not_found)
    ]

-- The files are removed one by one; `removes` says which can be. The first that cannot ends the
-- loop.
unfoldable pub remove_files {ℓ} : {K : Type ℓ} → (K → Bool) → Table K Bytes → Table K Bytes
remove_files removes [] = []
remove_files removes ((name, c) ∷ d) =
    let rest = remove_files removes d in if removes name then rest else (name, c) ∷ d

unfoldable pub reset_key_value_storage :
    (Bytes → Bool) → String → Registry → World → World × Result Void
unfolding is_initialized find is_kv remove_files
reset_key_value_storage removes spec reg w =
    if not (is_initialized reg) then (w, err unknown) else elim (find spec reg) [
      | none ↦ (w, err not_found)
      | some cfg ↦
          if is_kv cfg.type
          then (elim (lookup cfg.base_path w) [
            | none ↦ (w, ok tt)
            | some d ↦ (insert cfg.base_path (remove_files removes d) w, ok tt)
          ])
          else (w, err not_found)
    ]

-- A handle is given only for a key-value storage of an initialised registry, and it works on
-- the directory and under the quota of the manifest.
pub open_key_value_storage_lem :
    (spec : String) (reg : Registry) (w : World) (b : Backend)
    → (open_key_value_storage spec reg w).1 ≡ ok b
    → (is_initialized reg ≡ true)
      × (cfg : StorageConfig) × (find spec reg ≡ some cfg)
      × (is_kv cfg.type ≡ true)
      × (b.base_path ≡ cfg.base_path)
      × (b.quota ≡ cfg.quota_bytes)
unfolding open_key_value_storage new_backend
open_key_value_storage_lem spec reg w b h = elim (Option-cases (find spec reg)) [
  | inl bad ↦ absurd (ground arith)
  | inr (cfg, e) ↦ (ground arith, cfg, e, ground arith, ground arith, ground arith)
]

remove_files-all :
    (removes : Bytes → Bool) (d : Dir)
    → ((name : Bytes) → removes name ≡ true)
    → remove_files removes d ≡ []
unfolding remove_files
remove_files-all removes [] all = refl
remove_files-all removes ((name, c) ∷ d) all =
    ground (arith, all name, remove_files-all removes d all)

-- Where every file can be removed, a storage that was reset opens empty.
pub open-reset :
    (removes : Bytes → Bool) (spec : String) (reg : Registry) (w : World) (cfg : StorageConfig)
    → ((name : Bytes) → removes name ≡ true)
    → is_initialized reg ≡ true
    → find spec reg ≡ some cfg
    → is_kv cfg.type ≡ true
    → (open_key_value_storage spec reg (reset_key_value_storage removes spec reg w).0).1
      ≡ ok (record { base_path = cfg.base_path; quota = cfg.quota_bytes; files = [] })
unfolding open_key_value_storage reset_key_value_storage new_backend create_directories emplace
open-reset removes spec reg w cfg all init known typed =
    elim (Option-cases (lookup cfg.base_path w)) [
      | inl absent ↦ ground (arith, lookup-insert_self cfg.base_path [] w)
      | inr (d, e) ↦ ground (
        arith,
        lookup-insert_self cfg.base_path (remove_files removes d) w,
        remove_files-all removes d all,
      )
    ]
