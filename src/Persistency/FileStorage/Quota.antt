-- ===== src/Persistency/FileStorage/Quota.antt =====
-- The quota of a file storage.
use minimal_autosar_adaptive.Prelude.{
  ◌+◌, ◌≤◌, ◌<◌, ◌≡◌, ap, true, false, Bool, Bytes, [], nat_eq, list_eq, arith, length,
}
use minimal_autosar_adaptive.Prelude.Table.{lookup}
use minimal_autosar_adaptive.Core.Result.{ok}
use minimal_autosar_adaptive.Persistency.Files.{
  Env, size_max, size_of, total, total-erase, total-replaced,
}
use minimal_autosar_adaptive.Persistency.KeyValue.{tmp_name}
use minimal_autosar_adaptive.Persistency.KeyValue.Writes.{stored}
use minimal_autosar_adaptive.Persistency.KeyValue.Quota.{length-stored-le}
use minimal_autosar_adaptive.Persistency.Trees.{
  Place, Tree, place, ending, is_plain, is_dir, is_file, parent_place, exists, file_size,
}
use minimal_autosar_adaptive.Persistency.Trees.Shape.{make_dirs-files}
use minimal_autosar_adaptive.Persistency.FileStorage.{
  FileStorage, get_used_space, new_size, write_file,
}
use minimal_autosar_adaptive.Persistency.FileStorage.Reads.{made, write_file-Written}

-- The size that a write is checked against, where size_t does not wrap.
new_size_exact :
    (rel bytes : Bytes) (t : Tree)
    → is_plain (ending rel) ≡ true
    → is_dir (place rel) t ≡ false
    → total t.files + length bytes < size_max
    → new_size rel bytes t + size_of (lookup (place rel) t.files) ≡ total t.files + length bytes
unfolding new_size get_used_space exists file_size is_file
new_size_exact rel bytes t plain no_dir small = ground (arith, total-erase (place rel) t.files)

-- After a write that succeeds the files of the storage hold at most its quota, if the sizes do not
-- reach 2^64: those in the directories below count too.
pub get_used_space-le-quota :
    (makes : Place → Bool) (env : Env) (rel bytes : Bytes) (s s' : FileStorage)
    → write_file makes env rel bytes s ≡ (s', ok tt)
    → total s.tree.files + length bytes < size_max
    → get_used_space s'.tree ≤ s.quota
unfolding get_used_space
get_used_space-le-quota makes env rel bytes s s' h small =
    let (safe, room, done) = write_file-Written makes env rel bytes s s' h in
    let t = made makes rel s in
    let files = make_dirs-files makes [] (parent_place rel) s.tree in
    let c = stored env bytes in
    omega (
      arith,
      room,
      new_size_exact rel bytes t done.plain_end done.no_dir (omega (arith, small, ap total files)),
      ap total done.files_now,
      ap total files,
      total-replaced (place (tmp_name rel)) (place rel) c t.files,
      length-stored-le env bytes,
    )
