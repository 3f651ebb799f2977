-- ===== src/Persistency/KeyValue.antt =====
-- KeyValueStorageBackend: persistency/src/key_value_storage_backend.cpp, one file to a key in the
-- storage's directory. Each method runs under the mutex, so calls are one after another. An `Env`
-- says how the file system answers. fsync writes back what the model already has.
pub mod Writes
pub mod Reads
pub mod Quota
use minimal_autosar_adaptive.Prelude.{
  ℕ, ◌+◌, ◌-◌, ◌*◌, ◌%◌, Bool, true, false, not, ◌&&◌, nat_eq, list_eq, ◌==◌, Bytes, String, List,
  [], ◌∷◌, ◌++◌, map, Option, none, some, length, is_empty, if◌then◌else◌, ltb, codes,
}
use minimal_autosar_adaptive.Prelude.Table.{lookup, insert}
use minimal_autosar_adaptive.Core.Result.{
  Result, Void, ok, err, not_found, quota_exceeded, permission_denied, unknown,
}
use minimal_autosar_adaptive.Persistency.Files.{
  Dir, Env, size_max, take, exists, file_size, read_file, rename, remove, total,
}

pub record Backend : Type 0 where
  pub base_path : String
  pub quota : ℕ
  pub files : Dir

abbrev pub default_quota : ℕ
default_quota = 1024 * 1024

-- key.find(c) != npos
unfoldable pub has_byte : ℕ → Bytes → Bool
has_byte c [] = false
has_byte c (b ∷ s) = if b == c then true else has_byte c s

-- key.find("..") != npos
unfoldable pub has_dots : Bytes → Bool
has_dots [] = false
has_dots (b ∷ []) = false
has_dots (b ∷ c ∷ s) = if (b == b'.') && (c == b'.') then true else has_dots (c ∷ s)

unfoldable pub key_is_safe : Bytes → Bool
unfolding has_byte has_dots
key_is_safe key =
    not (is_empty key) && (not (has_byte b'/' key) && (not (has_byte 92 key) && not (has_dots key)))

abbrev pub tmp_name : Bytes → Bytes
tmp_name key = key ++ codes ".tmp"

unfoldable pub get_used_space_no_lock : Backend → ℕ
get_used_space_no_lock s = total s.files % size_max

unfoldable pub get_used_space : Backend → ℕ
unfolding get_used_space_no_lock
get_used_space s = get_used_space_no_lock s

-- The size of the storage after the write, in size_t arithmetic.
unfoldable pub size_after : Bytes → Bytes → Backend → ℕ
unfolding get_used_space_no_lock
size_after key value s =
    let old = if exists key s.files then file_size key s.files else 0 in
    ((get_used_space_no_lock s + size_max - old) % size_max + length value) % size_max

-- The rename that ends `set_value`, with the clean-up after a failure.
pub publish : Env → Bytes → Backend → Backend × Result Void
publish env key s = elim (rename env (tmp_name key) key s.files) [
  | none ↦ (record s { files = (remove env (tmp_name key) s.files).0 }, err unknown)
  | some d ↦ (record s { files = d }, ok tt)
]

-- From the opening of the temporary file on. A stream that fails on `write` keeps some bytes.
pub write_and_publish : Env → Bytes → Bytes → Backend → Backend × Result Void
unfolding publish
write_and_publish env key value s =
    if env.opens
    then (if env.writes
        then publish env key (record s {
          files =
              insert (tmp_name key) (if env.flushes then value else take env.kept value) s.files;
        })
        else (
          record s { files = insert (tmp_name key) (take env.kept value) s.files },
          err unknown,
        ))
    else (s, err unknown)

unfoldable pub set_value : Env → Bytes → Bytes → Backend → Backend × Result Void
unfolding write_and_publish
set_value env key value s =
    if not (key_is_safe key)
    then (s, err permission_denied)
    else if ltb s.quota (size_after key value s)
    then (s, err quota_exceeded)
    else write_and_publish env key value s

unfoldable pub get_value : Env → Bytes → Backend → Result Bytes
get_value env key s =
    if not (key_is_safe key)
    then err permission_denied
    else if env.opens
    then (elim (read_file key s.files) [ none ↦ err not_found | some c ↦ ok c ])
    else err not_found

unfoldable pub get_all_keys : Backend → Result (List Bytes)
get_all_keys s = ok (map (λ (e : Bytes × Bytes). e.0) s.files)

unfoldable pub has_key : Bytes → Backend → Result Bool
has_key key s = if not (key_is_safe key) then err permission_denied else ok (exists key s.files)

unfoldable pub remove_key : Env → Bytes → Backend → Backend × Result Void
remove_key env key s =
    if not (key_is_safe key)
    then (s, err permission_denied)
    else let (d, gone) = remove env key s.files in
      (record s { files = d }, if gone then ok tt else err not_found)

unfoldable pub sync_to_storage : Backend → Result Void
sync_to_storage s = ok tt

unfoldable pub discard_pending_changes : Backend → Result Void
discard_pending_changes s = ok tt
