-- ===== src/Examples/Filing.antt =====
-- A file storage with one file in a directory.
use minimal_autosar_adaptive.Prelude.{
  ◌+◌, ◌≤◌, ◌<◌, length, ◌≡◌, ◌≢◌, refl, Bool, true, false, ◌==◌, nat_eq, list_eq, Bytes, [], ◌∷◌,
  none, arith, codes,
}
use minimal_autosar_adaptive.Prelude.Table.{lookup, insert, erase}
use minimal_autosar_adaptive.Core.Result.{ok, err, not_found}
use minimal_autosar_adaptive.Persistency.Files.{Env, calm, size_max, total}
use minimal_autosar_adaptive.Persistency.KeyValue.{tmp_name}
use minimal_autosar_adaptive.Persistency.Trees.{
  Place, place, is_dir, parent_place, make_dirs, exists, file_size, write, rename, remove,
}
use minimal_autosar_adaptive.Persistency.FileStorage.{
  FileStorage, bare, get_used_space, rel_path_is_safe, new_size, publish, write_file, read_file,
  remove_file,
}
use minimal_autosar_adaptive.Persistency.FileStorage.Removal.{read_file-remove_file}
use minimal_autosar_adaptive.Persistency.FileStorage.Quota.{get_used_space-le-quota}
use minimal_autosar_adaptive.Persistency.FileStorage.Reads.{read_file-write_file, write_file_atomic}

abbrev path : Bytes
path = codes "logs//./today"

abbrev entry : Place
entry = codes "logs" ∷ codes "today" ∷ []

abbrev all_made : Place → Bool
all_made p = true

abbrev filed : FileStorage
filed = record {
  base_path = "fs";
  quota = 2;
  tree = record { dirs = (codes "logs" ∷ []) ∷ []; files = (entry, 7 ∷ []) ∷ [] };
}

abbrev refiled : FileStorage
refiled = record {
  base_path = "fs";
  quota = 2;
  tree = record { dirs = (codes "logs" ∷ []) ∷ []; files = (entry, 8 ∷ 9 ∷ []) ∷ [] };
}

file_written : write_file all_made calm path (8 ∷ 9 ∷ []) filed ≡ (refiled, ok tt)
unfolding write_file rel_path_is_safe new_size make_dirs parent_place exists file_size write publish
    rename lookup insert erase
file_written = refl

read_file-write_file_example : read_file calm none path refiled ≡ ok (8 ∷ 9 ∷ [])
read_file-write_file_example =
    read_file-write_file all_made calm none path (8 ∷ 9 ∷ []) filed refiled file_written

abbrev two_bytes : Bytes
two_bytes = 8 ∷ 9 ∷ []

filed_small : total filed.tree.files + length two_bytes < size_max
unfolding total
filed_small = omega arith

get_used_space-le-quota_example : get_used_space refiled.tree ≤ 2
get_used_space-le-quota_example =
    get_used_space-le-quota all_made calm path (8 ∷ 9 ∷ []) filed refiled file_written filed_small

abbrev no_rename : Env
no_rename = record calm { renames = false }

rename_fails : (write_file all_made no_rename path (8 ∷ 9 ∷ []) filed).1 ≢ ok tt
unfolding write_file rel_path_is_safe new_size make_dirs parent_place exists file_size write publish
    rename lookup insert erase
rename_fails e = ground arith

tmp_elsewhere : (place (tmp_name path) == entry) ≡ false
unfolding place
tmp_elsewhere = refl

write_file_atomic_example :
    lookup entry (write_file all_made no_rename path (8 ∷ 9 ∷ []) filed).0.tree.files
    ≡ lookup entry filed.tree.files
write_file_atomic_example =
    write_file_atomic all_made no_rename path (8 ∷ 9 ∷ []) filed entry rename_fails tmp_elsewhere

abbrev emptied : FileStorage
emptied = record {
  base_path = "fs";
  quota = 2;
  tree = record { dirs = (codes "logs" ∷ []) ∷ []; files = [] };
}

file_removed : remove_file calm path filed ≡ (emptied, ok tt)
unfolding remove_file rel_path_is_safe remove lookup erase
file_removed = refl

read_file-remove_file_example :
    (read_file calm none path emptied ≡ err not_found)
    × (read_file calm none (codes "logs/other") emptied
        ≡ read_file calm none (codes "logs/other") filed)
unfolding is_dir place
read_file-remove_file_example =
    read_file-remove_file calm calm none path (codes "logs/other") filed emptied refl refl
      file_removed

-- The directory goes too, once it is empty.
directory_removed : (remove_file calm (codes "logs/") emptied).0.tree ≡ bare
unfolding remove_file rel_path_is_safe remove lookup erase
directory_removed = refl
