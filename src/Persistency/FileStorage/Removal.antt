-- ===== src/Persistency/FileStorage/Removal.antt =====
-- What readers of a file storage see of a removal.
use minimal_autosar_adaptive.Prelude.{
  ◌≡◌, true, false, ◌==◌, list_eq, nat_eq, Bytes, Option, arith, list_beq_iff,
}
use minimal_autosar_adaptive.Prelude.Table.{erase, lookup-erase}
use minimal_autosar_adaptive.Core.Result.{ok, err, not_found}
use minimal_autosar_adaptive.Persistency.Files.{Env}
use minimal_autosar_adaptive.Persistency.Trees.{place, is_dir, read, remove}
use minimal_autosar_adaptive.Persistency.FileStorage.{
  FileStorage, rel_path_is_safe, read_file, remove_file,
}

-- A removal that succeeds, of a path where no directory stands, erases the file of the path.
remove_file-erases :
    (env : Env) (rel : Bytes) (s s' : FileStorage)
    → is_dir (place rel) s.tree ≡ false
    → remove_file env rel s ≡ (s', ok tt)
    → (rel_path_is_safe rel ≡ true)
      × (s' ≡ record s { tree = record s.tree { files = erase (place rel) s.tree.files } })
unfolding remove_file remove
remove_file-erases env rel s s' plain h = (ground arith, ground arith)

-- After a removal that succeeds, of a path where no directory stands, the path cannot be read, and
-- a path of another place reads as it did before, whatever the file system answers.
pub read_file-remove_file :
    (env env' : Env) (dir_reads : Option Bytes) (rel other : Bytes) (s s' : FileStorage)
    → is_dir (place rel) s.tree ≡ false
    → (place rel == place other) ≡ false
    → remove_file env rel s ≡ (s', ok tt)
    → (read_file env' dir_reads rel s' ≡ err not_found)
      × (read_file env' dir_reads other s' ≡ read_file env' dir_reads other s)
unfolding read_file read is_dir
read_file-remove_file env env' dir_reads rel other s s' plain apart h =
    let (safe, e) = remove_file-erases env rel s s' plain h in
    let gone = lookup-erase (place rel) (place rel) s.tree.files in
    let kept = lookup-erase (place rel) (place other) s.tree.files in
    (
      ground (arith, safe, e, plain, gone, list_beq_iff (place rel) (place rel)),
      ground (arith, e, apart, kept),
    )
