-- ===== src/Persistency/KeyValue/Reads.antt =====
-- What `get_value` and `has_key` answer after `set_value` and `remove_key`.
use minimal_autosar_adaptive.Prelude.{
  ◌∙◌, ◌≡◌, ap, subst, ◌≢◌, true, false, nat_eq, list_eq, ◌==◌, beq_refl, list_beq_iff, Bytes, none,
  some, arith, if◌then◌else◌,
}
use minimal_autosar_adaptive.Prelude.Table.{lookup, insert, erase, lookup-insert_self, lookup-erase}
use minimal_autosar_adaptive.Core.Result.{
  PersistencyErrc, Result, Void, ok, err, not_found, permission_denied,
}
use minimal_autosar_adaptive.Persistency.Files.{
  Dir, Env, calm, dot, take, exists, read_file, rename, remove,
}
use minimal_autosar_adaptive.Persistency.KeyValue.{
  Backend, tmp_name, key_is_safe, publish, write_and_publish, set_value, get_value, has_key,
  remove_key,
}
use minimal_autosar_adaptive.Persistency.KeyValue.Writes.{
  Replaces, stored, set_value-Replaces, tmp_name-ne,
}

-- A write succeeds only for a safe key that names a file.
record IsStorable (k : Bytes) : Type 0 where
  safe : key_is_safe k ≡ true
  file : (k == dot) ≡ false

publish-IsStorable :
    (env : Env) (k : Bytes) (s : Backend) → (publish env k s).1 ≡ ok tt → (k == dot) ≡ false
unfolding publish rename
publish-IsStorable env k s h = ground arith

set_value-IsStorable :
    (env : Env) (k v : Bytes) (s : Backend) → (set_value env k v s).1 ≡ ok tt → IsStorable k
unfolding set_value write_and_publish
set_value-IsStorable env k v s h = ground (
  arith,
  publish-IsStorable env k (record s {
    files = insert (tmp_name k) (if env.flushes then v else take env.kept v) s.files;
  }),
)

written :
    (env : Env) (k v : Bytes) (s t : Backend)
    → set_value env k v s ≡ (t, ok tt)
    → (j : Bytes)
    → lookup j t.files
      ≡ (if k == j then some (stored env v) else if tmp_name k == j then none else lookup j s.files)
written env k v s t e =
    subst (λ (p : Backend × Result Void). Replaces k (stored env v) s.files (p.0.files, p.1)) e
      (set_value-Replaces env k v s)

get_value_file :
    (k : Bytes) (s : Backend)
    → IsStorable k
    → get_value calm k s ≡ elim (lookup k s.files) [ none ↦ err not_found | some c ↦ ok c ]
unfolding get_value read_file
get_value_file k s h = ground (arith, h.safe, h.file)

-- After a write that succeeds, reading the key returns the bytes that the file system stored:
-- those written, if it lost none on closing the file.
pub get_value-set_value :
    (env : Env) (k v : Bytes) (s t : Backend)
    → set_value env k v s ≡ (t, ok tt)
    → get_value calm k t ≡ ok (if env.flushes then v else take env.kept v)
get_value-set_value env k v s t e =
    let ok_ = set_value-IsStorable env k v s (ap (λ (p : Backend × Result Void). p.1) e) in
    rw (get_value_file k t ok_, written env k v s t e k, beq_refl k)

others :
    (k c j : Bytes) (d : Dir) (p : Dir × Result Void)
    → Replaces k c d p
    → k ≢ j
    → j ≢ tmp_name k
    → lookup j p.0 ≡ lookup j d
others k c j d (d', ok u) r h g =
    r j ∙ ground (arith, list_beq_iff k j, list_beq_iff (tmp_name k) j)
others k c j d (d', err e) r h g = r j g

unharmed :
    (k c j : Bytes) (e : PersistencyErrc) (d : Dir) (p : Dir × Result Void)
    → Replaces k c d p
    → p.1 ≡ err e
    → j ≢ tmp_name k
    → lookup j p.0 ≡ lookup j d
unharmed k c j e d (d', ok u) r h g = cc
unharmed k c j e d (d', err x) r h g = r j g

-- The answer for a key depends on its file alone.
get_value_local :
    (at : Env) (j : Bytes) (s t : Backend)
    → lookup j t.files ≡ lookup j s.files
    → get_value at j t ≡ get_value at j s
unfolding get_value read_file
get_value_local at j s t e = rw e

-- A write under one key, successful or not, changes no answer for another key, unless that is the
-- name of the temporary file.
pub get_value-set_value_ne :
    (env at : Env) (k v j : Bytes) (s : Backend)
    → k ≢ j
    → j ≢ tmp_name k
    → get_value at j (set_value env k v s).0 ≡ get_value at j s
get_value-set_value_ne env at k v j s h g =
    let t = set_value env k v s in
    get_value_local at j s t.0
      (others k (stored env v) j s.files (t.0.files, t.1) (set_value-Replaces env k v s) h g)

-- A write that fails, for whatever reason, changes no answer but that for the name of the
-- temporary file: the key keeps its old value.
pub set_value_atomic :
    (env at : Env) (k v j : Bytes) (s : Backend) (e : PersistencyErrc)
    → (set_value env k v s).1 ≡ err e
    → j ≢ tmp_name k
    → get_value at j (set_value env k v s).0 ≡ get_value at j s
set_value_atomic env at k v j s e h g =
    let t = set_value env k v s in
    get_value_local at j s t.0
      (unharmed k (stored env v) j e s.files (t.0.files, t.1) (set_value-Replaces env k v s) h g)

-- Every write of a key that succeeds removes the value that is stored under that key with `.tmp`
-- behind it, where that is a safe key too.
pub set_value_loses_tmp :
    (env : Env) (k v : Bytes) (s t : Backend)
    → set_value env k v s ≡ (t, ok tt)
    → key_is_safe (tmp_name k) ≡ true
    → get_value calm (tmp_name k) t ≡ err not_found
unfolding get_value read_file
set_value_loses_tmp env k v s t e safe =
    rw (safe, written env k v s t e (tmp_name k), beq_refl (tmp_name k))
      (ground (arith, list_beq_iff k (tmp_name k), tmp_name-ne k))

-- The answer of a write does not depend on whether the bytes that were still buffered reached the
-- file on closing.
pub set_value_flush :
    (env : Env) (k v : Bytes) (s : Backend)
    → (set_value (record env { flushes = false }) k v s).1
      ≡ (set_value (record env { flushes = true }) k v s).1
unfolding set_value write_and_publish publish rename
set_value_flush env k v s = ground (
  arith,
  lookup-insert_self (tmp_name k) v s.files,
  lookup-insert_self (tmp_name k) (take env.kept v) s.files,
)

lookup-remove_self : (k : Bytes) (d : Dir) → lookup k (erase k d) ≡ none
lookup-remove_self k d = rw (lookup-erase, beq_refl k)

removal :
    (env : Env) (k : Bytes) (s t : Backend)
    → remove_key env k s ≡ (t, ok tt)
    → IsStorable k × (t.files ≡ erase k s.files)
unfolding remove_key remove
removal env k s t e = ground arith

module _ (at : Env) (k : Bytes) (t : Backend) (storable : IsStorable k)
    (gone : lookup k t.files ≡ none) where
  get_value_gone : get_value at k t ≡ err not_found
  unfolding get_value read_file
  get_value_gone = ground (arith, storable.safe, storable.file)

  has_key_gone : has_key k t ≡ ok false
  unfolding has_key exists
  has_key_gone = ground (arith, storable.safe, storable.file)

  remove_key_gone : (remove_key at k t).1 ≡ err not_found
  unfolding remove_key remove
  remove_key_gone = ground (arith, storable.safe, storable.file)

-- After a removal that succeeds the key is not found, by `get_value` and by `has_key`, and a second
-- removal fails.
pub remove_key_lem :
    (env at : Env) (k : Bytes) (s t : Backend)
    → remove_key env k s ≡ (t, ok tt)
    → (get_value at k t ≡ err not_found)
      × (has_key k t ≡ ok false)
      × ((remove_key at k t).1 ≡ err not_found)
remove_key_lem env at k s t e =
    let (storable, files) = removal env k s t e in
    let gone : lookup k t.files ≡ none = rw files (lookup-remove_self k s.files) in
    (
      get_value_gone at k t storable gone,
      has_key_gone at k t storable gone,
      remove_key_gone at k t storable gone,
    )

-- A removal, successful or not, changes no answer for another key.
pub get_value-remove_key_ne :
    (env at : Env) (k j : Bytes) (s : Backend)
    → k ≢ j
    → get_value at j (remove_key env k s).0 ≡ get_value at j s
get_value-remove_key_ne env at k j s h = get_value_local at j s (remove_key env k s).0 kept
  where
    kept : lookup j (remove_key env k s).0.files ≡ lookup j s.files
    kept = unfold remove_key remove in ground (arith, lookup-erase k j s.files, list_beq_iff k j)

-- A key that is empty, holds a slash or a backslash or two dots in a row is refused by every
-- operation, which then changes nothing.
pub unsafe_refused :
    (env : Env) (k v : Bytes) (s : Backend)
    → key_is_safe k ≡ false
    → (set_value env k v s ≡ (s, err permission_denied))
      × (get_value env k s ≡ err permission_denied)
      × (has_key k s ≡ err permission_denied)
      × (remove_key env k s ≡ (s, err permission_denied))
unfolding set_value get_value has_key remove_key
unsafe_refused env k v s h = ground arith
