-- ===== src/Persistency/FileStorage/Reads.antt =====
-- What readers of a file storage see of a write.
use minimal_autosar_adaptive.Prelude.{
  ◌≤◌, ◌≡◌, ap, ◌∙◌, ◌≢◌, Bool, true, false, ◌&&◌, nat_eq, list_eq, ◌==◌, Bytes, [], Option, some,
  arith, if◌then◌else◌, Option-cases, inl, inr,
}
use minimal_autosar_adaptive.Prelude.Table.{
  lookup, insert, erase, lookup-insert, lookup-insert_self, lookup-erase,
}
use minimal_autosar_adaptive.Core.Result.{ok}
use minimal_autosar_adaptive.Persistency.Files.{Env, calm, take}
use minimal_autosar_adaptive.Persistency.KeyValue.{tmp_name}
use minimal_autosar_adaptive.Persistency.KeyValue.Writes.{stored}
use minimal_autosar_adaptive.Persistency.Trees.{
  Place, Tree, place, ending, is_plain, is_dir, make_dirs, parent_place, can_hold, write, read,
  rename, remove,
}
use minimal_autosar_adaptive.Persistency.Trees.Shape.{make_dirs-files}
use minimal_autosar_adaptive.Persistency.FileStorage.{
  FileStorage, rel_path_is_safe, new_size, publish, write_and_publish, write_file, read_file,
}

-- What a write into the tree `t` that succeeds has met and leaves.
pub record Written (rel c : Bytes) (t t' : Tree) : Type 0 where
  pub plain_end : is_plain (ending rel) ≡ true
  pub no_dir : is_dir (place rel) t ≡ false
  pub dirs_same : t'.dirs ≡ t.dirs
  pub files_now :
      t'.files
      ≡ insert
          (place rel)
          c
          (erase (place (tmp_name rel)) (insert (place (tmp_name rel)) c t.files))

publish-Written :
    (env : Env) (rel c : Bytes) (t t' : Tree)
    → publish env rel (record t { files = insert (place (tmp_name rel)) c t.files }) ≡ (t', ok tt)
    → Written rel c t t'
unfolding publish rename can_hold is_dir
publish-Written env rel c t t' h =
    let there = lookup-insert_self (place (tmp_name rel)) c t.files in
    record {
      plain_end = ground arith;
      no_dir = ground (arith, there);
      dirs_same = ground (arith, there);
      files_now = ground (arith, there);
    }

write_and_publish-Written :
    (env : Env) (rel bytes : Bytes) (t t' : Tree)
    → write_and_publish env rel bytes t ≡ (t', ok tt)
    → Written rel (stored env bytes) t t'
unfolding write_and_publish write
write_and_publish-Written env rel bytes t t' h =
    publish-Written env rel (stored env bytes) t t' (ground arith)

abbrev pub made : (Place → Bool) → Bytes → FileStorage → Tree
made makes rel s = make_dirs makes [] (parent_place rel) s.tree

pub write_file-Written :
    (makes : Place → Bool) (env : Env) (rel bytes : Bytes) (s s' : FileStorage)
    → write_file makes env rel bytes s ≡ (s', ok tt)
    → (rel_path_is_safe rel ≡ true)
      × (new_size rel bytes (made makes rel s) ≤ s.quota)
      × Written rel (stored env bytes) (made makes rel s) s'.tree
unfolding write_file
write_file-Written makes env rel bytes s s' h = (
  ground arith,
  ground arith,
  write_and_publish-Written env rel bytes (made makes rel s) s'.tree (ground arith),
)

-- After a write that succeeds, reading the path returns the bytes that the file system stored:
-- those written, if it lost none on closing the file.
pub read_file-write_file :
    (makes : Place → Bool) (env : Env) (dir_reads : Option Bytes) (rel bytes : Bytes)
    (s s' : FileStorage)
    → write_file makes env rel bytes s ≡ (s', ok tt)
    → read_file calm dir_reads rel s' ≡ ok (if env.flushes then bytes else take env.kept bytes)
unfolding read_file read is_dir
read_file-write_file makes env dir_reads rel bytes s s' h =
    let (safe, room, done) = write_file-Written makes env rel bytes s s' h in
    let p = place rel in
    let tmp = place (tmp_name rel) in
    let c = stored env bytes in
    let there : lookup p s'.tree.files ≡ some c =
      ap (lookup p) done.files_now
      ∙ lookup-insert_self p c (erase tmp (insert tmp c (made makes rel s).files)) in
    ground (arith, done.plain_end, done.no_dir, done.dirs_same)

remove-files :
    (env : Env) (rel : Bytes) (t : Tree) (p : Place)
    → (place rel == p) ≡ false
    → lookup p (remove env rel t).0.files ≡ lookup p t.files
unfolding remove
remove-files env rel t p ne = ground (arith, lookup-erase (place rel) p t.files)

write-lookup :
    (env : Env) (q p : Place) (c : Bytes) (t t' : Tree)
    → write env q c t ≡ some t'
    → (q == p) ≡ false
    → lookup p t'.files ≡ lookup p t.files
unfolding write
write-lookup env q p c t t' e ne =
    let after : t'.files ≡ insert q c t.files = ground arith in
    ap (lookup p) after ∙ rw (lookup-insert, ne)

publish_fails :
    (env : Env) (rel : Bytes) (t : Tree) (p : Place)
    → (publish env rel t).1 ≢ ok tt
    → (place (tmp_name rel) == p) ≡ false
    → lookup p (publish env rel t).0.files ≡ lookup p t.files
unfolding publish
publish_fails env rel t p bad ne = ground (arith, remove-files env (tmp_name rel) t p ne)

write_and_publish_fails :
    (env : Env) (rel bytes : Bytes) (t : Tree) (p : Place)
    → (write_and_publish env rel bytes t).1 ≢ ok tt
    → (place (tmp_name rel) == p) ≡ false
    → lookup p (write_and_publish env rel bytes t).0.files ≡ lookup p t.files
unfolding write_and_publish
write_and_publish_fails env rel bytes t p bad ne =
    let tmp = place (tmp_name rel) in
    let kept = if env.writes && env.flushes then bytes else take env.kept bytes in
    elim (Option-cases (write env tmp kept t)) [
      | inl e ↦ ground arith
      | inr (t', e) ↦
          ground (arith, write-lookup env tmp p kept t t' e ne, publish_fails env rel t' p)
    ]

-- A write that fails leaves every file as it stood but the one that has the temporary file's
-- place, whatever the file system answers.
pub write_file_atomic :
    (makes : Place → Bool) (env : Env) (rel bytes : Bytes) (s : FileStorage) (p : Place)
    → (write_file makes env rel bytes s).1 ≢ ok tt
    → (place (tmp_name rel) == p) ≡ false
    → lookup p (write_file makes env rel bytes s).0.tree.files ≡ lookup p s.tree.files
unfolding write_file
write_file_atomic makes env rel bytes s p bad ne =
    let t = make_dirs makes [] (parent_place rel) s.tree in
    ground (
      arith,
      make_dirs-files makes [] (parent_place rel) s.tree,
      write_and_publish_fails env rel bytes t p,
    )
