-- ===== src/Persistency/Files.antt =====
-- The part of the file system under one storage: the regular files of a directory, by name.
-- The functions are those of std::filesystem and std::fstream that the storages call. The name
-- `.` is the directory itself: it exists, and it can be neither read, replaced nor removed as a
-- file.
use minimal_autosar_adaptive.Prelude.{
  ℕ, zero, suc, ◌+◌, ◌-◌, ◌^◌, ◌≤◌, ◌≡◌, Bool, true, false, nat_eq, list_eq, ◌==◌, Bytes, List, [],
  ◌∷◌, Option, none, some, arith, length, if◌then◌else◌, Eq, ap, Bool-cases, inl, inr,
}
use minimal_autosar_adaptive.Prelude.Table.{
  Table, lookup, insert, erase, lookup-insert, lookup-insert_self, lookup-erase,
}

abbrev pub Dir : Type 0
Dir = Table Bytes Bytes

abbrev pub dot : Bytes
dot = b'.' ∷ []

-- size_t has 64 bits.
abbrev pub size_max : ℕ
size_max = 2 ^ 64

abbrev pub is_some {ℓ} : {A : Type ℓ} → Option A → Bool
is_some none = false
is_some (some a) = true

abbrev pub take {ℓ} : {A : Type ℓ} → ℕ → List A → List A
take zero xs = []
take (suc n) [] = []
take (suc n) (x ∷ xs) = x ∷ take n xs

-- How the file system answers one call: whether a file can be opened, whether the stream is good
-- after `write`, whether what it buffered reached the file on closing, how much is kept where it
-- did not, and whether rename and remove go through.
pub record Env : Type 0 where
  pub opens : Bool
  pub writes : Bool
  pub flushes : Bool
  pub kept : ℕ
  pub renames : Bool
  pub removes : Bool

-- Everything works.
abbrev pub calm : Env
calm = record {
  opens = true;
  writes = true;
  flushes = true;
  kept = 0;
  renames = true;
  removes = true;
}

unfoldable pub exists : Bytes → Dir → Bool
exists name d = if name == dot then true else is_some (lookup name d)

-- static_cast<size_t>(fs::file_size(name, ec)), which is -1 on an error.
unfoldable pub file_size : Bytes → Dir → ℕ
file_size name d =
    if name == dot
    then size_max - 1
    else elim (lookup name d) [ none ↦ size_max - 1 | some c ↦ length c ]

unfoldable pub read_file : Bytes → Dir → Option Bytes
read_file name d = if name == dot then none else lookup name d

-- `none` where the error code is set.
unfoldable pub rename : Env → Bytes → Bytes → Dir → Option Dir
rename env from to d =
    if to == dot
    then none
    else if env.renames
    then (elim (lookup from d) [ none ↦ none | some c ↦ some (insert to c (erase from d)) ])
    else none

-- The directory afterwards, and whether a file was removed.
unfoldable pub remove : Env → Bytes → Dir → Dir × Bool
remove env name d =
    if name == dot
    then (d, false)
    else if env.removes
    then (erase name d, is_some (lookup name d))
    else (d, false)

-- The bytes that the files hold.
unfoldable pub total {κ} : {K : Type κ} → Table K Bytes → ℕ
total [] = 0
total ((name, c) ∷ d) = length c + total d

abbrev pub size_of : Option Bytes → ℕ
size_of none = 0
size_of (some c) = length c

module _ {κ} {K : Type κ} ⦃e : Eq K⦄ where
  pub total-insert :
      (k : K) (v : Bytes) (d : Table K Bytes)
      → total (insert k v d) + size_of (lookup k d) ≡ total d + length v
  unfolding total insert lookup
  total-insert k v [] = omega arith
  total-insert k v ((j, c) ∷ d) = ground (arith, total-insert k v d)

  pub total-erase-le : (k : K) (d : Table K Bytes) → total (erase k d) ≤ total d
  unfolding total erase
  total-erase-le k [] = omega arith
  total-erase-le k ((j, c) ∷ d) = ground (arith, total-erase-le k d)

  pub total-erase : (k : K) (d : Table K Bytes) → total (erase k d) + size_of (lookup k d) ≤ total d
  unfolding total erase lookup
  total-erase k [] = omega arith
  total-erase k ((j, c) ∷ d) = ground (arith, total-erase k d, total-erase-le k d)

  -- A file that is written under the name `tmp` and renamed to `k` takes the old one's room.
  pub total-replaced :
      (tmp k : K) (c : Bytes) (d : Table K Bytes)
      → total (insert k c (erase tmp (insert tmp c d))) + size_of (lookup k d) ≤ total d + length c
  total-replaced tmp k c d =
      let written = insert tmp c d in
      let moved = erase tmp written in
      elim (Bool-cases (tmp == k)) [
        | inl same ↦ omega (
          arith,
          total-insert tmp c d,
          total-erase tmp written,
          total-insert k c moved,
          ap size_of (lookup-insert_self tmp c d),
          ap (λ j. size_of (lookup j d)) ((e.beq_iff tmp k).0 same),
        )
        | inr other ↦ omega (
          arith,
          total-insert tmp c d,
          total-erase tmp written,
          total-insert k c moved,
          ap size_of (lookup-insert_self tmp c d),
          aside other,
        )
      ]
    where
      aside :
          (tmp == k) ≡ false
          → size_of (lookup k (erase tmp (insert tmp c d))) ≡ size_of (lookup k d)
      aside other = simp (lookup-erase, lookup-insert) (ground arith)
