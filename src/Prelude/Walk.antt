-- ===== src/Prelude/Walk.antt =====
-- The order in which an unordered map is walked, which C++ leaves open: any function that gives the
-- entries of a table back in some order.
use mathlib.Core.Path.{◌≡◌, ap, ◌∙◌}
use mathlib.Core.List.{List, [], ◌∷◌, Perm, mem-singleton, mem-cons_self}
use mathlib.Core.List.Perm
use Prim.Native.Nat.{ℕ}
use mathlib.Core.Option.{Option}

abbrev pub IsWalk {ℓ} : {A : Type ℓ} → (List A → List A) → Type ℓ
IsWalk walk = (l : List _) → Perm (walk l) l

permuted_one {ℓ} : {A : Type ℓ} → IsSet A → (l : List A) (x : A) → Perm l (x ∷ []) → l ≡ x ∷ []
permuted_one is_set [] x p = Perm.nil-eq p
permuted_one is_set (a ∷ l) x p =
    let head : a ≡ x = (mem-singleton is_set).0 ((Perm.mem_iff p).0 mem-cons_self) in
    let tail = Perm.eq-nil (Perm.cons_inv (Perm.trans p (Perm.symm (Perm.cons' head Perm.rfl)))) in
    ap (λ t. a ∷ t) tail ∙ ap (λ b. b ∷ []) head

-- One entry is walked in one way.
pub walk-one {ℓ} :
    {A : Type ℓ} → IsSet A → (walk : List A → List A) (x : A) → IsWalk walk → walk (x ∷ []) ≡ x ∷ []
walk-one is_set walk x h = permuted_one is_set (walk (x ∷ [])) x (h (x ∷ []))

pub callbacks-IsSet : IsSet (ℕ × Option ℕ)
callbacks-IsSet = hlevel
