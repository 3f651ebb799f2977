-- ===== src/Persistency/Handle.antt =====
-- KeyValueStorage: include/ara/per/key_value_storage.hpp, the handle of a key-value storage, which
-- holds its backend. How iostreams print and read the values of a type is a parameter.
use minimal_autosar_adaptive.Prelude.{◌≡◌, Bool, true, Bytes, List, Option, none, some, arith}
use minimal_autosar_adaptive.Core.Result.{Result, Void, ok, err, corruption}
use minimal_autosar_adaptive.Persistency.Files.{Env, calm}
use minimal_autosar_adaptive.Persistency.KeyValue
use minimal_autosar_adaptive.Persistency.KeyValue.{Backend, set_value, get_value}
use minimal_autosar_adaptive.Persistency.KeyValue.Reads.{get_value-set_value}

-- operator<< and operator>>: `none` where the stream fails.
pub record Streamed (T : Type 0) : Type 0 where
  pub print : T → Bytes
  pub read : Bytes → Option T

unfoldable pub set_value_string : Env → Bytes → Bytes → Backend → Backend × Result Void
set_value_string env key value s = set_value env key value s

unfoldable pub get_value_string : Env → Bytes → Backend → Result Bytes
get_value_string env key s = get_value env key s

unfoldable pub get_all_keys : Backend → Result (List Bytes)
get_all_keys s = elim (KeyValue.get_all_keys s) [ ok keys ↦ ok keys | err e ↦ err e ]

unfoldable pub has_key : Bytes → Backend → Result Bool
has_key key s = KeyValue.has_key key s

unfoldable pub remove_key : Env → Bytes → Backend → Backend × Result Void
remove_key env key s = KeyValue.remove_key env key s

unfoldable pub sync_to_storage : Backend → Result Void
sync_to_storage s = KeyValue.sync_to_storage s

unfoldable pub discard_pending_changes : Backend → Result Void
discard_pending_changes s = KeyValue.discard_pending_changes s

module _ {T : Type 0} (streamed : Streamed T) where
  unfoldable pub put : Env → Bytes → T → Backend → Backend × Result Void
  put env key value s = set_value env key (streamed.print value) s

  unfoldable pub fetch : Env → Bytes → Backend → Result T
  fetch env key s = elim (get_value env key s) [
    | err e ↦ err e
    | ok bytes ↦ elim (streamed.read bytes) [ none ↦ err corruption | some v ↦ ok v ]
  ]

  -- After a write that succeeds and loses no byte on closing the file, the handle reads the value
  -- that was written, where the type's stream operators read what they print.
  pub fetch-put :
      (env : Env) (key : Bytes) (v : T) (s t : Backend)
      → put env key v s ≡ (t, ok tt)
      → env.flushes ≡ true
      → streamed.read (streamed.print v) ≡ some v
      → fetch calm key t ≡ ok v
  unfolding put fetch
  fetch-put env key v s t h flushed law =
      let read = get_value-set_value env key (streamed.print v) s t h in
      ground (arith, read, flushed, law)
