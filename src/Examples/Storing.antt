-- ===== src/Examples/Storing.antt =====
-- A storage with one key, a registry with one storage, and what is asked of them.
use minimal_autosar_adaptive.Prelude.{
  ℕ, Option, ◌+◌, ◌-◌, ◌<◌, ◌≤◌, ◌≡◌, ◌≢◌, ◌↔◌, refl, true, false, list_eq, nat_eq, string_eq,
  Bytes, String, [], ◌∷◌, none, some, arith, codes, length,
}
use minimal_autosar_adaptive.Prelude.Table.{Table, lookup, insert, emplace, erase}
use minimal_autosar_adaptive.Core.Result.{ok, err, quota_exceeded, unknown, has_value}
use minimal_autosar_adaptive.Examples.Documents.{Doc, Scalar, text, document, docs}
use minimal_autosar_adaptive.Persistency.Files.{
  Env, calm, size_max, size_of, total, remove, exists, file_size, rename,
}
use minimal_autosar_adaptive.Persistency.KeyValue.{
  Backend, tmp_name, get_used_space, key_is_safe, size_after, set_value, get_value, remove_key,
}
use minimal_autosar_adaptive.Persistency.KeyValue.Reads.{get_value-set_value, set_value_atomic}
use minimal_autosar_adaptive.Persistency.KeyValue.Quota.{used-le-quota, quota_exceeded_iff}
use minimal_autosar_adaptive.Persistency.Handle.{Streamed, put}
use minimal_autosar_adaptive.Persistency.Registry.{
  StorageConfig, Registry, World, kv, config_of, init_from_file, is_initialized, find,
}
use minimal_autosar_adaptive.Persistency.Registry.Loading.{
  manifest_configs, init_from_file-loads, init_from_file-fails,
}
use minimal_autosar_adaptive.Persistency.Facade.{is_kv, open_key_value_storage}

abbrev speed : Bytes
speed = codes "speed"

abbrev value_of : ℕ → Bytes
value_of n = (b'0' + n) ∷ []

-- A quota of four bytes, of which the value takes one.
abbrev store : Backend
store = record { base_path = "kv"; quota = 4; files = (speed, value_of 1) ∷ [] }

abbrev rewritten : Backend
rewritten = (set_value calm speed (value_of 2) store).0

stored_calm : set_value calm speed (value_of 2) store ≡ (rewritten, ok tt)
unfolding set_value key_is_safe size_after total exists lookup file_size rename insert
stored_calm = refl

get_value-set_value_example : get_value calm speed rewritten ≡ ok (value_of 2)
get_value-set_value_example =
    get_value-set_value calm speed (value_of 2) store rewritten stored_calm

speed-ne-limit : speed ≢ codes "limit"
speed-ne-limit e = ground arith

limit-ne-tmp : codes "limit" ≢ tmp_name speed
limit-ne-tmp e = ground arith

-- A disk on which no file opens for writing.
abbrev broken : Env
broken = record calm { opens = false }

write_fails : (set_value broken speed (value_of 2) store).1 ≡ err unknown
unfolding set_value key_is_safe size_after total exists lookup file_size
write_fails = refl

speed-ne-tmp : speed ≢ tmp_name speed
speed-ne-tmp e = ground arith

set_value_atomic_example :
    get_value calm speed (set_value broken speed (value_of 2) store).0 ≡ get_value calm speed store
set_value_atomic_example =
    set_value_atomic broken calm speed (value_of 2) speed store unknown write_fails speed-ne-tmp

tmp_is_safe : key_is_safe (tmp_name speed) ≡ true
unfolding key_is_safe
tmp_is_safe = refl

abbrev emptied : Backend
emptied = record store { files = [] }

removed : remove_key calm speed store ≡ (emptied, ok tt)
unfolding remove_key remove erase lookup key_is_safe
removed = refl

dots_unsafe : key_is_safe (codes "a..b") ≡ false
unfolding key_is_safe
dots_unsafe = refl

small : total store.files + length (value_of 2) < size_max
unfolding total
small = omega arith

used-le-quota_example : get_used_space rewritten ≤ store.quota
used-le-quota_example = used-le-quota calm speed (value_of 2) store rewritten stored_calm small

speed_is_safe : key_is_safe speed ≡ true
unfolding key_is_safe
speed_is_safe = refl

quota_exceeded_iff_example :
    (set_value calm speed (value_of 2) store ≡ (store, err quota_exceeded))
    ↔ (store.quota + size_of (lookup speed store.files) < total store.files + length (value_of 2))
quota_exceeded_iff_example =
    quota_exceeded_iff calm speed (value_of 2) store speed_is_safe refl small

abbrev kv_entry : Table String Scalar
kv_entry = ("instance_spec", text "App/kv") ∷ ("type", text "kv") ∷ ("base_path", text "kv") ∷ []

abbrev manifest : Doc
manifest = document "storages" (kv_entry ∷ [])

abbrev kv_config : StorageConfig
kv_config = record {
  type = kv;
  base_path = "kv";
  quota_bytes = size_max - 1;
  recover_on_start = false;
}

manifest_read : manifest_configs docs (some (some manifest)) ≡ some (("App/kv", kv_config) ∷ [])
unfolding config_of lookup
manifest_read = refl

abbrev fresh : Registry
fresh = record { storages = []; inited = false }

init_from_file-loads_example :
    (is_initialized (init_from_file docs (some (some manifest)) fresh []).0 ≡ true)
    × ((init_from_file docs (some (some manifest)) fresh []).2 ≡ ok tt)
    × ((name : String)
        → find name (init_from_file docs (some (some manifest)) fresh []).0
          ≡ lookup name (("App/kv", kv_config) ∷ []))
init_from_file-loads_example =
    init_from_file-loads docs (some (some manifest)) (("App/kv", kv_config) ∷ []) fresh []
      manifest_read

abbrev loaded : Registry
loaded = record { storages = ("App/kv", kv_config) ∷ []; inited = true }

init_from_file-fails_example :
    (is_initialized (init_from_file docs none loaded []).0 ≡ is_initialized loaded)
    × (has_value (init_from_file docs none loaded []).2 ≡ false)
    × ((name : String) → find name (init_from_file docs none loaded []).0 ≡ none)
init_from_file-fails_example = init_from_file-fails docs none loaded [] refl

abbrev world : World
world = ("kv", (speed, value_of 1) ∷ []) ∷ []

opened :
    (open_key_value_storage "App/kv" loaded world).1
    ≡ ok (record { base_path = "kv"; quota = size_max - 1; files = (speed, value_of 1) ∷ [] })
unfolding open_key_value_storage lookup emplace
opened = refl

loaded_known : find "App/kv" loaded ≡ some kv_config
unfolding find lookup
loaded_known = refl

loaded_inited : is_initialized loaded ≡ true
unfolding is_initialized
loaded_inited = refl

typed_kv : is_kv kv ≡ true
unfolding is_kv
typed_kv = refl

abbrev digit_of : Bytes → Option ℕ
digit_of (d ∷ []) = some (d - b'0')
digit_of _ = none

abbrev digits : Streamed ℕ
digits = record { print = value_of; read = digit_of }

stored_two : put digits calm speed 2 store ≡ (rewritten, ok tt)
unfolding put
stored_two = stored_calm
