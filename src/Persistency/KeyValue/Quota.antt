-- ===== src/Persistency/KeyValue/Quota.antt =====
-- The storage's quota.
use minimal_autosar_adaptive.Prelude.{
  ℕ, zero, suc, ◌↔◌, ◌+◌, ◌≤◌, ◌<◌, ◌≡◌, ap, ◌≢◌, true, false, nat_eq, list_eq, ◌==◌, Bytes, ◌∷◌,
  [], arith, length,
}
use minimal_autosar_adaptive.Prelude.Table.{lookup, insert, erase, lookup-insert_self}
use minimal_autosar_adaptive.Core.Result.{ok, err, quota_exceeded}
use minimal_autosar_adaptive.Persistency.Files.{
  Env, dot, size_max, size_of, take, exists, file_size, rename, total, total-erase, total-replaced,
}
use minimal_autosar_adaptive.Persistency.KeyValue.{
  Backend, tmp_name, key_is_safe, get_used_space, get_used_space_no_lock, size_after, publish,
  write_and_publish, set_value,
}
use minimal_autosar_adaptive.Persistency.KeyValue.Writes.{stored}

-- The size that a write is checked against, where size_t does not wrap.
pub size_after_exact :
    (k v : Bytes) (s : Backend)
    → (k == dot) ≡ false
    → total s.files + length v < size_max
    → size_after k v s + size_of (lookup k s.files) ≡ total s.files + length v
unfolding size_after get_used_space_no_lock exists file_size
size_after_exact k v s file small = ground (arith, total-erase k s.files)

length-take-le : (n : ℕ) (xs : Bytes) → length (take n xs) ≤ length xs
length-take-le zero xs = omega arith
length-take-le (suc n) [] = omega arith
length-take-le (suc n) (x ∷ xs) = omega (arith, length-take-le n xs)

pub length-stored-le : (env : Env) (v : Bytes) → length (stored env v) ≤ length v
length-stored-le env v = ground (arith, length-take-le env.kept v)

-- What a write that succeeds has passed and done.
record Succeeds (env : Env) (k v : Bytes) (s t : Backend) : Type 0 where
  file : (k == dot) ≡ false
  room : size_after k v s ≤ s.quota
  files :
      t.files
      ≡ insert k (stored env v) (erase (tmp_name k) (insert (tmp_name k) (stored env v) s.files))

set_value-Succeeds :
    (env : Env) (k v : Bytes) (s t : Backend)
    → set_value env k v s ≡ (t, ok tt)
    → Succeeds env k v s t
unfolding set_value write_and_publish publish rename
set_value-Succeeds env k v s t e =
    ground (arith, lookup-insert_self (tmp_name k) (stored env v) s.files)

-- After a write that succeeds the storage holds at most its quota, if the sizes do not reach 2^64.
pub used-le-quota :
    (env : Env) (k v : Bytes) (s t : Backend)
    → set_value env k v s ≡ (t, ok tt)
    → total s.files + length v < size_max
    → get_used_space t ≤ s.quota
unfolding get_used_space
used-le-quota env k v s t e small =
    let done = set_value-Succeeds env k v s t e in
    omega (
      arith,
      done.room,
      size_after_exact k v s done.file small,
      ap total done.files,
      total-replaced (tmp_name k) k (stored env v) s.files,
      length-stored-le env v,
    )

write-ne-quota_exceeded :
    (env : Env) (k v : Bytes) (s : Backend) → (write_and_publish env k v s).1 ≢ err quota_exceeded
unfolding write_and_publish publish rename
write-ne-quota_exceeded env k v s = ground (
  arith,
  lookup-insert_self (tmp_name k) v s.files,
  lookup-insert_self (tmp_name k) (take env.kept v) s.files,
)

-- Where the sizes of the files and the new value together are below the largest size, a write of a
-- safe key other than "." is refused with `quota_exceeded`, and changes nothing, exactly when the
-- other files and the new value together pass the quota.
pub quota_exceeded_iff :
    (env : Env) (k v : Bytes) (s : Backend)
    → key_is_safe k ≡ true
    → (k == dot) ≡ false
    → total s.files + length v < size_max
    → (set_value env k v s ≡ (s, err quota_exceeded))
      ↔ (s.quota + size_of (lookup k s.files) < total s.files + length v)
unfolding set_value
quota_exceeded_iff env k v s safe file small =
    ground (arith, size_after_exact k v s file small, write-ne-quota_exceeded env k v s)
