-- ===== src/Persistency/KeyValue/Writes.antt =====
-- What readers see of a write and of a removal.
use minimal_autosar_adaptive.Prelude.{
  ◌≡◌, refl, ap, ◌≢◌, ◌⊎◌, inl, inr, ◌↔◌, true, false, nat_eq, list_eq, ◌==◌, list_beq_iff, Bytes,
  none, some, arith, length, length-append, codes, if◌then◌else◌, Bool-cases, Option-cases, ◌∙◌,
  ltb,
}
use minimal_autosar_adaptive.Prelude.Table.{
  lookup, insert, erase, lookup-insert, lookup-insert_self, lookup-erase,
}
use minimal_autosar_adaptive.Core.Result.{Result, Void, ok, err}
use minimal_autosar_adaptive.Persistency.Files.{Dir, Env, dot, take, rename, remove}
use minimal_autosar_adaptive.Persistency.KeyValue.{
  Backend, tmp_name, key_is_safe, size_after, publish, write_and_publish, set_value,
}

-- A key and its temporary file have different names.
pub tmp_name-ne : (key : Bytes) → tmp_name key ≢ key
tmp_name-ne key e = absurd (omega (arith, ap length e, length-append key (codes ".tmp")))

-- Equality of names as the tactics read it.
name_beq : (a b : Bytes) → ((a == b) ≡ true) ↔ (a ≡ b)
name_beq a b = list_beq_iff a b

-- The files under a name after a write and rename.
replaced :
    (k j v : Bytes) (d : Dir)
    → lookup j (insert k v (erase (tmp_name k) (insert (tmp_name k) v d)))
      ≡ (if k == j then some v else if tmp_name k == j then none else lookup j d)
replaced k j v d = simp (lookup-insert, lookup-erase) (ground arith)

-- How the files stand after a write, by its result: on success the key has `c` and the temporary
-- file is gone; on a failure only the temporary file may have changed.
abbrev pub Replaces : Bytes → Bytes → Dir → Dir × Result Void → Type 0
Replaces k c d (d', ok u) =
    (j : Bytes)
    → lookup j d' ≡ (if k == j then some c else if tmp_name k == j then none else lookup j d)
Replaces k c d (d', err e) = (j : Bytes) → j ≢ tmp_name k → lookup j d' ≡ lookup j d

abbrev files_of : Backend × Result Void → Dir × Result Void
files_of (s, r) = (s.files, r)

-- `other` is the place of a name that is not the temporary file's.
miss : (k j : Bytes) → j ≢ tmp_name k → (tmp_name k == j) ≡ false
miss k j h = ground (arith, name_beq (tmp_name k) j)

rename_cases :
    (env : Env) (from to : Bytes) (d : Dir)
    → (rename env from to d ≡ none)
      ⊎ ((c : Bytes) × (lookup from d ≡ some c)
          × (rename env from to d ≡ some (insert to c (erase from d))))
unfolding rename
rename_cases env from to d = elim (Option-cases (lookup from d)) [
  | inl e ↦ ground arith
  | inr (c, e) ↦ elim (Bool-cases (to == dot)) [
    | inl f ↦ ground arith
    | inr f ↦ elim (Bool-cases env.renames) [
      | inl g ↦ inr (c, e, rw (f, g, e, rename))
      | inr g ↦ ground arith
    ]
  ]
]

lookup-remove :
    (env : Env) (k j : Bytes) (d : Dir) → j ≢ k → lookup j (remove env k d).0 ≡ lookup j d
unfolding remove
lookup-remove env k j d h = ground (arith, lookup-erase k j d, name_beq k j)

publish-Replaces :
    (env : Env) (k c : Bytes) (s : Backend)
    → let s' = record s { files = insert (tmp_name k) c s.files } in
      Replaces k c s.files (files_of (publish env k s'))
unfolding publish
publish-Replaces env k c s =
    let d' = insert (tmp_name k) c s.files in
    elim (rename_cases env (tmp_name k) k d') [
      | inl f ↦
          rw (f, publish)
            (λ j h. lookup-remove env (tmp_name k) j d' h ∙ rw (lookup-insert, miss k j h))
      | inr (x, e, f) ↦ rw (f, publish, written x e) (λ j. replaced k j c s.files)
    ]
  where
    written : (x : Bytes) → lookup (tmp_name k) (insert (tmp_name k) c s.files) ≡ some x → x ≡ c
    written x e = cc (lookup-insert_self (tmp_name k) c s.files)

-- What of `value` reaches the file: all, unless buffered bytes are lost on closing.
abbrev pub stored : Env → Bytes → Bytes
stored env value = if env.flushes then value else take env.kept value

write-Replaces :
    (env : Env) (k v : Bytes) (s : Backend)
    → Replaces k (stored env v) s.files (files_of (write_and_publish env k v s))
unfolding write_and_publish remove rename
write-Replaces env k v s = elim (Bool-cases env.opens) [
  | inr f ↦ rw (f, write_and_publish) (λ j h. refl)
  | inl o ↦ elim (Bool-cases env.writes) [
    | inl w ↦ rw (o, w, write_and_publish) (publish-Replaces env k (stored env v) s)
    | inr w ↦ rw (o, w, write_and_publish) (λ j h. rw (lookup-insert, miss k j h))
  ]
]

-- Of any write, whatever the file system answers: if it succeeds, the key's file holds what was
-- stored, the file named like its temporary file is gone and all others stand as before; if it
-- fails, all files but the temporary one stand as before, the key's own among them.
pub set_value-Replaces :
    (env : Env) (k v : Bytes) (s : Backend)
    → Replaces k (stored env v) s.files (files_of (set_value env k v s))
unfolding set_value
set_value-Replaces env k v s = elim (Bool-cases (key_is_safe k)) [
  | inr f ↦ rw (f, set_value) (λ j h. refl)
  | inl o ↦ elim (Bool-cases (ltb s.quota (size_after k v s))) [
    | inl w ↦ rw (o, w, set_value) (λ j h. refl)
    | inr w ↦ rw (o, w, set_value) (write-Replaces env k v s)
  ]
]
