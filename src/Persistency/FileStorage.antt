-- ===== src/Persistency/FileStorage.antt =====
-- FileStorage: persistency/src/file_storage.cpp and include/ara/per/file_storage.hpp. Each method
-- runs under the mutex, so calls are one after another. An `Env` says how the file system answers,
-- and `makes` which directories can be made. fsync writes back what the model already has.
pub mod Removal
pub mod Reads
pub mod Quota
use minimal_autosar_adaptive.Prelude.{
  ℕ, ◌+◌, ◌-◌, ◌%◌, Bool, true, false, not, ◌&&◌, nat_eq, string_eq, ◌==◌, Bytes, String, List, [],
  ◌∷◌, ◌++◌, map, Option, none, some, length, is_empty, if◌then◌else◌, ltb, codes,
}
use minimal_autosar_adaptive.Prelude.Table.{Table, keys, lookup, insert, emplace}
use minimal_autosar_adaptive.Core.Result.{
  Result, Void, ok, err, not_found, quota_exceeded, permission_denied, unknown,
}
use minimal_autosar_adaptive.Persistency.Files.{Env, size_max, take, total}
use minimal_autosar_adaptive.Persistency.KeyValue.{has_byte, has_dots, tmp_name}
use minimal_autosar_adaptive.Persistency.Registry.{
  StorageType, kv, files, StorageConfig, Registry, is_initialized, find,
}
use minimal_autosar_adaptive.Persistency.Facade.{is_kv, remove_files}
use minimal_autosar_adaptive.Persistency.Trees.{
  Place, Tree, place, make_dirs, parent_place, exists, file_size, write, read, rename, remove,
}

pub record FileStorage : Type 0 where
  pub base_path : String
  pub quota : ℕ
  pub tree : Tree

unfoldable pub is_absolute : Bytes → Bool
is_absolute [] = false
is_absolute (b ∷ p) = b == b'/'

unfoldable pub rel_path_is_safe : Bytes → Bool
unfolding has_byte has_dots is_absolute
rel_path_is_safe p =
    not (is_empty p) && (not (has_dots p) && (not (has_byte b':' p) && not (is_absolute p)))

unfoldable pub get_used_space : Tree → ℕ
unfolding total
get_used_space t = total t.files % size_max

-- The size of the storage after the write, in size_t arithmetic.
unfoldable pub new_size : Bytes → Bytes → Tree → ℕ
unfolding get_used_space
new_size rel bytes t =
    let old = if exists rel t then file_size rel t else 0 in
    ((get_used_space t + size_max - old) % size_max + length bytes) % size_max

-- The rename that ends `write_file`, with the clean-up after a failure.
unfoldable pub publish : Env → Bytes → Tree → Tree × Result Void
publish env rel t = elim (rename env (place (tmp_name rel)) rel t) [
  | none ↦ ((remove env (tmp_name rel) t).0, err unknown)
  | some t' ↦ (t', ok tt)
]

-- From the opening of the temporary file on. A stream that fails on `write` keeps some bytes.
unfoldable pub write_and_publish : Env → Bytes → Bytes → Tree → Tree × Result Void
unfolding publish
write_and_publish env rel bytes t =
    let kept = if env.writes && env.flushes then bytes else take env.kept bytes in
    elim (write env (place (tmp_name rel)) kept t) [
      | none ↦ (t, err unknown)
      | some t' ↦ if env.writes then publish env rel t' else (t', err unknown)
    ]

unfoldable pub write_file :
    (Place → Bool) → Env → Bytes → Bytes → FileStorage → FileStorage × Result Void
unfolding write_and_publish
write_file makes env rel bytes s =
    if not (rel_path_is_safe rel)
    then (s, err permission_denied)
    else (let t = make_dirs makes [] (parent_place rel) s.tree in
        if ltb s.quota (new_size rel bytes t)
        then (record s { tree = t }, err quota_exceeded)
        else (let (t', r) = write_and_publish env rel bytes t in (record s { tree = t' }, r)))

unfoldable pub read_file : Env → Option Bytes → Bytes → FileStorage → Result Bytes
read_file env dir_reads rel s =
    if not (rel_path_is_safe rel)
    then err permission_denied
    else if env.opens
    then (elim (read dir_reads rel s.tree) [ none ↦ err not_found | some c ↦ ok c ])
    else err not_found

unfoldable pub remove_file : Env → Bytes → FileStorage → FileStorage × Result Void
remove_file env rel s =
    if not (rel_path_is_safe rel)
    then (s, err permission_denied)
    else let (t, gone) = remove env rel s.tree in
      (record s { tree = t }, if gone then ok tt else err not_found)

abbrev pub joined : Place → Bytes
joined [] = []
joined (c ∷ []) = c
joined (c ∷ d ∷ p) = c ++ b'/' ∷ joined (d ∷ p)

unfoldable pub list_files : FileStorage → Result (List Bytes)
list_files s = ok (map joined (keys s.tree.files))

unfoldable pub sync_to_storage : FileStorage → Result Void
sync_to_storage s = ok tt

unfoldable pub discard_pending_changes : FileStorage → Result Void
discard_pending_changes s = ok tt

-- The directories of the file storages.
abbrev pub Trees : Type 0
Trees = Table String Tree

abbrev pub bare : Tree
bare = record { dirs = []; files = [] }

abbrev pub tree_of : Option Tree → Tree
tree_of none = bare
tree_of (some t) = t

-- The constructor: the directory is made where it is not there.
unfoldable pub new_file_storage : String → ℕ → Trees → Trees × FileStorage
new_file_storage path quota w =
    let w' = emplace path bare w in
    (w', record { base_path = path; quota = quota; tree = tree_of (lookup path w') })

unfoldable pub open_file_storage : String → Registry → Trees → Trees × Result FileStorage
unfolding is_initialized find is_kv new_file_storage
open_file_storage spec reg w =
    if not (is_initialized reg) then (w, err unknown) else elim (find spec reg) [
      | none ↦ (w, err not_found)
      | some cfg ↦
          if is_kv cfg.type
          then (w, err not_found)
          else (let (w', s) = new_file_storage cfg.base_path cfg.quota_bytes w in (w', ok s))
    ]

unfoldable pub recover_file_storage : String → Result Void
recover_file_storage spec = ok tt

-- `removes` says which file can be removed.
unfoldable pub reset_file_storage : (Place → Bool) → String → Registry → Trees → Trees × Result Void
unfolding is_initialized find is_kv
reset_file_storage removes spec reg w =
    if not (is_initialized reg) then (w, err unknown) else elim (find spec reg) [
      | none ↦ (w, err not_found)
      | some cfg ↦ if is_kv cfg.type then (w, err not_found) else (elim (lookup cfg.base_path w) [
        | none ↦ (w, ok tt)
        | some t ↦
            (insert cfg.base_path (record t { files = remove_files removes t.files }) w, ok tt)
      ])
    ]
