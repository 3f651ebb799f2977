-- ===== src/Prelude/Membership.antt =====
-- Membership, repetition and order in lists as Boolean tests.
use Prim.Native.Nat.{ℕ, suc, ◌+◌, ◌≤◌}
use minimal_autosar_adaptive.Prelude.Tests.{if◌then◌else◌}
use minimal_autosar_adaptive.Prelude.Lists.{length}
use minimal_autosar_adaptive.Prelude.Equality.{Eq, ◌==◌, beq_refl}
use mathlib.Core.Path.{◌≡◌, refl}
use mathlib.Core.Bool.{Bool, true, false, ◌&&◌, ◌||◌}
use mathlib.Core.List.{List, [], ◌∷◌, ◌++◌}
use native.Mathlib.Omega.{arith}

module _ {ℓ} {A : Type ℓ} ⦃e : Eq A⦄ where
  abbrev pub elem : A → List A → Bool
  elem a [] = false
  elem a (x ∷ xs) = x == a || elem a xs

  abbrev pub count : A → List A → ℕ
  count a [] = 0
  count a (x ∷ xs) = (if x == a then 1 else 0) + count a xs

  abbrev pub Distinct : List A → Type 0
  Distinct [] = Unit
  Distinct (x ∷ xs) = (elem x xs ≡ false) × Distinct xs

  -- Some `a` stands before some `b`.
  abbrev pub before : A → A → List A → Bool
  before a b [] = false
  before a b (x ∷ xs) = (x == a && elem b xs) || before a b xs

  pub elem-append : (a : A) (xs ys : List A) → elem a (xs ++ ys) ≡ (elem a xs || elem a ys)
  elem-append a [] ys = refl
  elem-append a (x ∷ xs) ys = ground (arith, elem-append a xs ys)

  pub count-append : (a : A) (xs ys : List A) → count a (xs ++ ys) ≡ count a xs + count a ys
  count-append a [] ys = omega arith
  count-append a (x ∷ xs) ys = omega (arith, count-append a xs ys)

  pub Distinct-snoc :
      (xs : List A) (a : A) → elem a xs ≡ false → Distinct xs → Distinct (xs ++ a ∷ [])
  Distinct-snoc [] a h d = (refl, tt)
  Distinct-snoc (x ∷ xs) a h d = (
    ground (arith, elem-append x xs (a ∷ []), e.beq_iff x a, e.beq_iff a x),
    Distinct-snoc xs a (ground arith) d.1,
  )

  pub before-append :
      (a b : A) (xs ys : List A) → before a b xs ≡ true → before a b (xs ++ ys) ≡ true
  before-append a b [] ys h = ground arith
  before-append a b (x ∷ xs) ys h = ground (arith, elem-append b xs ys, before-append a b xs ys)

  pub before-snoc : (a b : A) (xs : List A) → elem a xs ≡ true → before a b (xs ++ b ∷ []) ≡ true
  before-snoc a b [] h = ground arith
  before-snoc a b (x ∷ xs) h =
      ground (arith, elem-append b xs (b ∷ []), beq_refl b, before-snoc a b xs)

  -- The first `a` taken out.
  drop_one : A → List A → List A
  drop_one a [] = []
  drop_one a (x ∷ xs) = if x == a then xs else x ∷ drop_one a xs

  length-drop_one :
      (a : A) (xs : List A) → elem a xs ≡ true → length xs ≡ suc (length (drop_one a xs))
  unfolding drop_one
  length-drop_one a [] h = ground arith
  length-drop_one a (x ∷ xs) h = ground (arith, length-drop_one a xs)

  elem-drop_one :
      (a b : A) (xs : List A) → (a == b) ≡ false → elem b xs ≡ true → elem b (drop_one a xs) ≡ true
  unfolding drop_one
  elem-drop_one a b [] h m = ground arith
  elem-drop_one a b (x ∷ xs) h m =
      ground (arith, e.beq_iff x a, e.beq_iff x b, e.beq_iff a b, elem-drop_one a b xs h)

  elem-ne : (a b : A) (xs : List A) → elem a xs ≡ false → elem b xs ≡ true → (a == b) ≡ false
  elem-ne a b [] h m = ground arith
  elem-ne a b (x ∷ xs) h m =
      ground (arith, e.beq_iff x a, e.beq_iff x b, e.beq_iff a b, elem-ne a b xs)

  -- A list without repetition is no longer than one that has all its elements.
  pub length-le_of_Distinct :
      (xs ys : List A)
      → Distinct xs
      → ((a : A) → elem a xs ≡ true → elem a ys ≡ true)
      → length xs ≤ length ys
  length-le_of_Distinct [] ys d h = omega arith
  length-le_of_Distinct (x ∷ xs) ys d h =
      let here = h x (ground (arith, beq_refl x)) in
      let rest =
        length-le_of_Distinct xs (drop_one x ys) d.1
          (λ a m. elem-drop_one x a ys (elem-ne x a xs d.0 m) (h a (ground arith))) in
      omega (arith, rest, length-drop_one x ys here)
