-- ===== src/Em/Boot/Kahn.antt =====
-- Kahn's algorithm: the loop of `main` over the queue.
use minimal_autosar_adaptive.Prelude.{
  ℕ, ◌-◌, ◌≤◌, ◌<◌, ◌≡◌, refl, ◌∙◌, Bool, true, ◌&&◌, ◌||◌, string_eq, nat_eq, ◌==◌, beq_refl,
  String, List, [], ◌∷◌, ◌++◌, arith, if◌then◌else◌, Bool-cases, inl, inr, ltb,
}
use mathlib.Core.List.{append_assoc}
use minimal_autosar_adaptive.Prelude.Int.{ℤ, pos}
use minimal_autosar_adaptive.Prelude.Table.{Table, keys, lookup, insert, lookup-insert, keys-insert}
use minimal_autosar_adaptive.Prelude.Membership.{elem, count, Distinct, Distinct-snoc, elem-append}
use minimal_autosar_adaptive.Em.Boot.{or_zero, decrement, is_zero, relax}

-- What `relax` needs: `degree` is what `indeg` holds, and no target is met too often.
pub record Counts (vs : List String) (indeg : Table String ℤ) (degree : String → ℕ) : Type 0 where
  pub holds : (v : String) → or_zero (lookup v indeg) ≡ pos (degree v)
  pub enough : (v : String) → count v vs ≤ degree v

-- The degrees after one target.
abbrev less : String → (String → ℕ) → String → ℕ
less v degree w = if v == w then degree w - 1 else degree w

less-Counts :
    (v : String) (vs : List String) (indeg : Table String ℤ) (degree : String → ℕ)
    → Counts (v ∷ vs) indeg degree
    → Counts vs (insert v (decrement (or_zero (lookup v indeg))) indeg) (less v degree)
unfolding decrement
less-Counts v vs indeg degree c = record {
  holds = λ w. ground (
    arith,
    lookup-insert v w (decrement (or_zero (lookup v indeg))) indeg,
    c.holds w,
    c.holds v,
    c.enough v,
    beq_refl v,
    string_eq.beq_iff v w,
  );
  enough = λ w. ground (arith, c.enough w);
}

-- A target whose count reaches zero goes to the queue.
abbrev pub hits : String → List String → (String → ℕ) → Bool
hits w vs degree = ltb 0 (count w vs) && (degree w == count w vs)

next_zero :
    (v : String) (vs : List String) (indeg : Table String ℤ) (degree : String → ℕ)
    → Counts (v ∷ vs) indeg degree
    → is_zero (decrement (or_zero (lookup v indeg))) ≡ (degree v == 1)
unfolding decrement is_zero
next_zero v vs indeg degree c = ground (arith, c.holds v, c.enough v, beq_refl v)

pub relax-holds :
    (vs : List String) (indeg : Table String ℤ) (q : List String) (degree : String → ℕ)
    → Counts vs indeg degree
    → (w : String) → or_zero (lookup w (relax vs indeg q).0) ≡ pos (degree w - count w vs)
unfolding relax
relax-holds [] indeg q degree c w = ground (arith, c.holds w)
relax-holds (v ∷ vs) indeg q degree c w =
    let n = decrement (or_zero (lookup v indeg)) in
    relax-holds vs (insert v n indeg) (if is_zero n then q ++ v ∷ [] else q) (less v degree)
      (less-Counts v vs indeg degree c) w
    ∙ ground arith

pub elem-relax :
    (vs : List String) (indeg : Table String ℤ) (q : List String) (degree : String → ℕ)
    → Counts vs indeg degree
    → (w : String) → elem w (relax vs indeg q).1 ≡ (elem w q || hits w vs degree)
unfolding relax
elem-relax [] indeg q degree c w = ground arith
elem-relax (v ∷ vs) indeg q degree c w =
    let n = decrement (or_zero (lookup v indeg)) in
    elem-relax vs (insert v n indeg) (if is_zero n then q ++ v ∷ [] else q) (less v degree)
      (less-Counts v vs indeg degree c) w
    ∙ ground (
      arith,
      next_zero v vs indeg degree c,
      elem-append w q (v ∷ []),
      c.enough w,
      c.enough v,
      beq_refl v,
      string_eq.beq_iff v w,
    )

-- Nothing enters the queue twice.
pub relax-Distinct :
    (vs : List String) (indeg : Table String ℤ) (out q : List String) (degree : String → ℕ)
    → Counts vs indeg degree
    → Distinct (out ++ q)
    → ((w : String) → elem w (out ++ q) ≡ true → degree w ≡ 0)
    → Distinct (out ++ (relax vs indeg q).1)
unfolding relax
relax-Distinct [] indeg out q degree c d free = d
relax-Distinct (v ∷ vs) indeg out q degree c d free =
    let n = decrement (or_zero (lookup v indeg)) in
    elim (Bool-cases (degree v == 1)) [
      | inr e ↦
          simp (next_zero v vs indeg degree c, e)
            (relax-Distinct vs (insert v n indeg) out q (less v degree)
              (less-Counts v vs indeg degree c) d (λ w m. ground (arith, free w m)))
      | inl e ↦
          simp (next_zero v vs indeg degree c, e)
            (relax-Distinct vs (insert v n indeg) out (q ++ v ∷ []) (less v degree)
              (less-Counts v vs indeg degree c)
              (rw (← append_assoc) (Distinct-snoc (out ++ q) v (ground (arith, free v)) d))
              (λ w m. ground (
                arith,
                free w,
                elem-append w (out ++ q) (v ∷ []),
                append_assoc out q (v ∷ []),
                string_eq.beq_iff v w,
              )))
    ]

pub keys-relax :
    (vs : List String) (indeg : Table String ℤ) (q : List String)
    → ((w : String) → 0 < count w vs → elem w (keys indeg) ≡ true)
    → keys (relax vs indeg q).0 ≡ keys indeg
unfolding relax
keys-relax [] indeg q known = refl
keys-relax (v ∷ vs) indeg q known =
    let n = decrement (or_zero (lookup v indeg)) in
    let same : keys (insert v n indeg) ≡ keys indeg =
      rw (keys-insert, known v (ground (arith, beq_refl v))) refl in
    keys-relax vs (insert v n indeg) (if is_zero n then q ++ v ∷ [] else q)
      (λ w h. rw same (known w (omega arith)))
    ∙ same
