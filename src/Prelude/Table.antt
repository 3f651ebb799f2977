-- ===== src/Prelude/Table.antt =====
-- std::map and std::unordered_map as association lists. Each key stands at most once: `insert`
-- replaces in place and adds at the end. The order in which an unordered map is walked is not
-- specified by C++; a theorem that depends on a walk says so.
use minimal_autosar_adaptive.Prelude.Tests.{if◌then◌else◌}
use minimal_autosar_adaptive.Prelude.Equality.{Eq, ◌==◌, beq_refl}
use minimal_autosar_adaptive.Prelude.Lists.{length}
use minimal_autosar_adaptive.Prelude.Membership.{elem}
use mathlib.Core.Path.{◌≡◌, refl}
use mathlib.Core.Option.{Option, none, some}
use mathlib.Core.List.{List, [], ◌∷◌, ◌++◌}
use native.Mathlib.Omega.{arith}

abbrev pub Table {ℓ κ} : Type ℓ → Type κ → Type (ℓ ⊔ κ)
Table K V = List (K × V)

abbrev pub keys {ℓ κ} : {K : Type ℓ} {V : Type κ} → Table K V → List K
keys [] = []
keys ((k, v) ∷ m) = k ∷ keys m

module _ {ℓ κ} {K : Type ℓ} {V : Type κ} ⦃e : Eq K⦄ where
  -- m.find(k)
  unfoldable pub lookup : K → Table K V → Option V
  lookup k [] = none
  lookup k ((j, v) ∷ m) = if j == k then some v else lookup k m

  -- m.erase(k)
  unfoldable pub erase : K → Table K V → Table K V
  erase k [] = []
  erase k ((j, v) ∷ m) = let rest = erase k m in if j == k then rest else (j, v) ∷ rest

  -- m[k] = v
  unfoldable pub insert : K → V → Table K V → Table K V
  insert k v [] = (k, v) ∷ []
  insert k v ((j, w) ∷ m) = if j == k then (j, v) ∷ m else (j, w) ∷ insert k v m

  -- m.emplace(k, v): a key that is there keeps its value.
  unfoldable pub emplace : K → V → Table K V → Table K V
  emplace k v m = elim (lookup k m) [ none ↦ insert k v m | some w ↦ m ]

  pub lookup-insert :
      (key asked : K) (v : V) (m : Table K V)
      → lookup asked (insert key v m) ≡ (if key == asked then some v else lookup asked m)
  unfolding lookup insert
  lookup-insert key asked v [] = refl
  lookup-insert key asked v ((head, w) ∷ m) = ground (
    arith,
    e.beq_iff head key,
    e.beq_iff head asked,
    e.beq_iff key asked,
    lookup-insert key asked v m,
  )

  pub lookup-erase :
      (k j : K) (m : Table K V) → lookup j (erase k m) ≡ (if k == j then none else lookup j m)
  unfolding lookup erase
  lookup-erase k j [] = ground arith
  lookup-erase k j ((i, v) ∷ m) =
      ground (arith, lookup-erase k j m, e.beq_iff i k, e.beq_iff i j, e.beq_iff k j)

  pub lookup-emplace :
      (k j : K) (v : V) (m : Table K V)
      → lookup j (emplace k v m)
        ≡ elim (lookup j m) [ some w ↦ some w | none ↦ if k == j then some v else none ]
  unfolding emplace
  lookup-emplace k j v m = ground (arith, lookup-insert k j v m, e.beq_iff k j)

  pub lookup-insert_self : (k : K) (v : V) (m : Table K V) → lookup k (insert k v m) ≡ some v
  lookup-insert_self k v m = rw (lookup-insert, beq_refl k)

  -- A write to a key that is there keeps the keys; another key comes last.
  pub keys-insert :
      (k : K) (v : V) (m : Table K V)
      → keys (insert k v m) ≡ (if elem k (keys m) then keys m else keys m ++ k ∷ [])
  unfolding insert
  keys-insert k v [] = refl
  keys-insert k v ((j, w) ∷ m) = ground (arith, keys-insert k v m)

  pub length-keys : (m : Table K V) → length (keys m) ≡ length m
  length-keys [] = refl
  length-keys ((k, v) ∷ m) = omega (arith, length-keys m)
