-- ===== src/Persistency/Trees.antt =====
-- The part of the file system under a file storage: directories and regular files by their place,
-- the names on the way from the storage's directory. The functions are those of std::filesystem
-- and std::fstream that persistency/src/file_storage.cpp calls, without links; a relative path
-- has no byte 0.
pub mod Shape
use minimal_autosar_adaptive.Prelude.{
  ℕ, ◌+◌, ◌-◌, ◌≡◌, Bool, true, false, not, ◌&&◌, ◌||◌, nat_eq, list_eq, ◌==◌, Bytes, List, [], ◌∷◌,
  ◌++◌, Option, none, some, length, is_empty, if◌then◌else◌,
}
use minimal_autosar_adaptive.Prelude.Table.{Table, keys, lookup, insert, erase}
use minimal_autosar_adaptive.Prelude.Membership.{elem}
use minimal_autosar_adaptive.Persistency.Files.{Env, dot, size_max, is_some}

abbrev pub Place : Type 0
Place = List Bytes

-- The directory itself always exists and is not listed.
pub record Tree : Type 0 where
  pub dirs : List Place
  pub files : Table Place Bytes

-- How a path ends: in a name, in a name and slashes, or in the name `.`.
pub data Ending : Type 0 where
  plain : Ending
  slashed : Ending
  dotted : Ending

abbrev pub add_byte : ℕ → List Bytes → List Bytes
add_byte b [] = (b ∷ []) ∷ []
add_byte b (c ∷ cs) = (b ∷ c) ∷ cs

-- The parts of a path between its slashes.
unfoldable pub split : Bytes → List Bytes
split [] = [] ∷ []
split (b ∷ s) = let rest = split s in if b == b'/' then [] ∷ rest else add_byte b rest

unfoldable pub names : List Bytes → Place
names [] = []
names (c ∷ cs) = let rest = names cs in if is_empty c || c == dot then rest else c ∷ rest

unfoldable pub place : Bytes → Place
unfolding split names
place rel = names (split rel)

abbrev pub with_slash : Ending → Ending
with_slash plain = slashed
with_slash slashed = slashed
with_slash dotted = dotted

unfoldable pub ends : Ending → List Bytes → Ending
ends e [] = e
ends e (c ∷ cs) = ends (if is_empty c then with_slash e else if c == dot then dotted else plain) cs

unfoldable pub ending : Bytes → Ending
unfolding split ends
ending rel = ends dotted (split rel)

abbrev pub is_plain : Ending → Bool
is_plain plain = true
is_plain _ = false

abbrev pub is_dotted : Ending → Bool
is_dotted dotted = true
is_dotted _ = false

abbrev pub parent : Place → Place
parent [] = []
parent (c ∷ []) = []
parent (c ∷ d ∷ p) = c ∷ parent (d ∷ p)

unfoldable pub is_dir : Place → Tree → Bool
is_dir p t = is_empty p || elem p t.dirs

unfoldable pub is_file : Place → Tree → Bool
is_file p t = is_some (lookup p t.files)

-- mkdir: nothing happens where there is something, or where `makes` says that it fails.
unfoldable pub make_dir : (Place → Bool) → Place → Tree → Tree
unfolding is_dir is_file
make_dir makes p t =
    if is_dir p t || (is_file p t || not (makes p)) then t else record t { dirs = p ∷ t.dirs }

-- fs::create_directories: the directories on the way, up to the first that cannot be had.
unfoldable pub make_dirs : (Place → Bool) → Place → List Bytes → Tree → Tree
unfolding make_dir is_dir
make_dirs makes p [] t = t
make_dirs makes p (c ∷ cs) t =
    let q = p ++ c ∷ [] in
    let t' = make_dir makes q t in
    let deeper = make_dirs makes q cs t' in if is_dir q t' then deeper else t'

-- The place of fs::path(rel).parent_path().
unfoldable pub parent_place : Bytes → Place
unfolding place ending
parent_place rel = if is_plain (ending rel) then parent (place rel) else place rel

unfoldable pub exists : Bytes → Tree → Bool
unfolding place ending is_dir is_file
exists rel t = is_dir (place rel) t || (is_plain (ending rel) && is_file (place rel) t)

-- static_cast<size_t>(fs::file_size(rel, ec)), which is -1 on an error.
unfoldable pub file_size : Bytes → Tree → ℕ
unfolding place ending
file_size rel t =
    if is_plain (ending rel)
    then (elim (lookup (place rel) t.files) [ none ↦ size_max - 1 | some c ↦ length c ])
    else size_max - 1

-- Whether a file can stand at a place: its directory is there and it is not itself a directory.
unfoldable pub can_hold : Place → Tree → Bool
unfolding is_dir
can_hold p t = is_dir (parent p) t && not (is_dir p t)

-- `none` where the file cannot be opened to write.
unfoldable pub write : Env → Place → Bytes → Tree → Option Tree
unfolding can_hold
write env p c t =
    if env.opens && can_hold p t then some (record t { files = insert p c t.files }) else none

-- What an input stream reads. `dir_reads` is what a directory reads as, `none` where it does not
-- open.
unfoldable pub read : Option Bytes → Bytes → Tree → Option Bytes
unfolding place ending is_dir
read dir_reads rel t =
    if is_dir (place rel) t
    then dir_reads
    else if is_plain (ending rel)
    then lookup (place rel) t.files
    else none

-- `none` where the error code is set.
unfoldable pub rename : Env → Place → Bytes → Tree → Option Tree
unfolding place ending can_hold
rename env from to t =
    if env.renames && (is_plain (ending to) && can_hold (place to) t)
    then (elim (lookup from t.files) [
      | none ↦ none
      | some c ↦ some (record t { files = insert (place to) c (erase from t.files) })
    ])
    else none

abbrev pub has_child : Place → List Place → Bool
has_child p [] = false
has_child p (q ∷ qs) = parent q == p || has_child p qs

abbrev pub without : Place → List Place → List Place
without p [] = []
without p (q ∷ qs) = let rest = without p qs in if q == p then rest else q ∷ rest

-- A file or an empty directory is removed. The tree afterwards, and whether one was.
unfoldable pub remove : Env → Bytes → Tree → Tree × Bool
unfolding place ending is_file is_dir
remove env rel t =
    let p = place rel in
    if not env.removes || is_dotted (ending rel)
    then (t, false)
    else if is_dir p t
    then (if has_child p t.dirs || has_child p (keys t.files)
        then (t, false)
        else (record t { dirs = without p t.dirs }, true))
    else if is_plain (ending rel) && is_file p t
    then (record t { files = erase p t.files }, true)
    else (t, false)
