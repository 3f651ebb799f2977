-- ===== src/Em/Boot/Loop.antt =====
-- The loop of Kahn's algorithm: its invariant, and that it ends.
use minimal_autosar_adaptive.Prelude.{
  ℕ, zero, suc, ◌+◌, ◌≤◌, ◌<◌, ◌≡◌, refl, ◌∙◌, ap, true, false, ◌||◌, string_eq, nat_eq, beq_refl,
  String, List, [], ◌∷◌, ◌++◌, arith, some, length, length-append, Bool-cases, inl, inr,
}
use mathlib.Core.List.{append_assoc}
use minimal_autosar_adaptive.Prelude.Int.{ℤ, pos}
use minimal_autosar_adaptive.Prelude.Table.{Table, keys, lookup}
use minimal_autosar_adaptive.Prelude.Membership.{
  elem, count, before, Distinct, elem-append, before-append, before-snoc, length-le_of_Distinct,
}
use minimal_autosar_adaptive.Em.Boot.{or_zero, or_none, relax, kahn}
use minimal_autosar_adaptive.Em.Boot.EdgeList.{
  Edges, has_edge, targets, pending, pending-snoc, pending-zero, targets-edge,
}
use minimal_autosar_adaptive.Em.Boot.Kahn.{
  Counts, hits, relax-holds, elem-relax, relax-Distinct, keys-relax,
}

-- The edges of the graph, all between nodes.
pub record IsOver (nodes : List String) (es : Edges) (g : Table String (List String)) : Type 0 where
  pub out : (u : String) → or_none (lookup u g) ≡ targets u es
  pub ends : (x y : String) → has_edge x y es ≡ true → elem y nodes ≡ true

-- Between two rounds, with the ids in `q` waiting and those in `out` done.
pub record Inv (nodes : List String) (es : Edges) (indeg : Table String ℤ) (q out : List String)
    : Type 0 where
  pub deg : (v : String) → or_zero (lookup v indeg) ≡ pos (pending out v es)
  pub free : (v : String) → elem v (out ++ q) ≡ true → pending out v es ≡ 0
  pub ready : (v : String) → elem v nodes ≡ true → pending out v es ≡ 0 → elem v (out ++ q) ≡ true
  pub within : (v : String) → elem v (out ++ q) ≡ true → elem v nodes ≡ true
  pub distinct : Distinct (out ++ q)
  pub sorted : (x y : String) → has_edge x y es ≡ true → elem y out ≡ true → before x y out ≡ true
  pub nodes_kept : keys indeg ≡ nodes

Distinct-fresh : (u : String) (out q : List String) → Distinct (out ++ u ∷ q) → elem u out ≡ false
Distinct-fresh u [] q d = refl
Distinct-fresh u (x ∷ out) q d = ground (
  arith,
  elem-append x out (u ∷ q),
  string_eq.beq_iff x u,
  string_eq.beq_iff u x,
  beq_refl u,
  Distinct-fresh u out q,
)

module _ (nodes : List String) (es : Edges) (g : Table String (List String))
    (over : IsOver nodes es g) where
  module _ (indeg : Table String ℤ) (u : String) (q out : List String)
      (inv : Inv nodes es indeg (u ∷ q) out) where
    fresh : elem u out ≡ false
    fresh = Distinct-fresh u out q inv.distinct

    degree : String → ℕ
    degree v = pending out v es

    -- How one round changes what a node waits for.
    drop : (v : String) → pending (out ++ u ∷ []) v es + count v (targets u es) ≡ degree v
    unfolding degree
    drop v = pending-snoc out u v es fresh

    counts : Counts (targets u es) indeg degree
    unfolding degree
    counts = record { holds = inv.deg; enough = λ v. omega (arith, drop v) }

    -- The lists of done and waiting ids, regrouped.
    moved : (out ++ u ∷ []) ++ q ≡ out ++ u ∷ q
    moved = append_assoc out (u ∷ []) q

    next : Table String ℤ × List String
    next = relax (targets u es) indeg q

    elem-next :
        (v : String)
        → elem v ((out ++ u ∷ []) ++ next.1)
          ≡ (elem v (out ++ u ∷ q) || hits v (targets u es) degree)
    unfolding next
    elem-next v = ground (
      arith,
      elem-append v (out ++ u ∷ []) (relax (targets u es) indeg q).1,
      elem-append v (out ++ u ∷ []) q,
      ap (elem v) moved,
      elem-relax (targets u es) indeg q degree counts v,
    )

    next-sorted :
        (x y : String)
        → has_edge x y es ≡ true
        → elem y (out ++ u ∷ []) ≡ true
        → before x y (out ++ u ∷ []) ≡ true
    next-sorted x y e m = elim (Bool-cases (elem y out)) [
      | inl old ↦ before-append x y out (u ∷ []) (inv.sorted x y e old)
      | inr new ↦
          let last : u ≡ y =
            (string_eq.beq_iff u y).0 (ground (arith, elem-append y out (u ∷ []))) in
          let ready = inv.free u (ground (arith, elem-append u out (u ∷ q), beq_refl u)) in
          rw (← last) (before-snoc x u out (pending-zero out x u es ready (rw last e)))
    ]

    next-Inv : Inv nodes es next.0 next.1 (out ++ u ∷ [])
    next-Inv = record {
      deg = λ v.
          unfold next in
          relax-holds (targets u es) indeg q degree counts v ∙ ap pos (omega (arith, drop v));
      free = λ v m. unfold degree in ground (arith, elem-next v, drop v, inv.free v);
      ready = λ v n z. unfold degree in ground (arith, elem-next v, drop v, inv.ready v n);
      within = λ v m. ground (arith, elem-next v, inv.within v, targets-edge u v es, over.ends u v);
      distinct =
          unfold next in
          relax-Distinct (targets u es) indeg (out ++ u ∷ []) q degree counts
            (rw moved inv.distinct) (λ w m. unfold degree in inv.free w (rw moved at m));
      sorted = λ x y e m. next-sorted x y e m;
      nodes_kept =
          unfold next in
          keys-relax (targets u es) indeg q
            (λ w h. rw inv.nodes_kept (over.ends u w (targets-edge u w es h)))
          ∙ inv.nodes_kept;
    }

  bounded :
      (indeg : Table String ℤ) (q out : List String)
      → Inv nodes es indeg q out
      → length out + length q ≤ length nodes
  bounded indeg q out inv =
      omega
        (arith, length-append out q, length-le_of_Distinct (out ++ q) nodes inv.distinct inv.within)

  -- With more fuel than there are nodes the loop ends, and the invariant holds at its end.
  pub kahn_ends :
      (fuel : ℕ) (indeg : Table String ℤ) (q out : List String)
      → length nodes < fuel + length out
      → Inv nodes es indeg q out
      → (topo : List String) × (final : Table String ℤ) × (kahn fuel g indeg q out
          ≡ some (topo, final))
        × Inv nodes es final [] topo
  unfolding kahn next
  kahn_ends zero indeg q out room inv = absurd (omega (arith, bounded indeg q out inv))
  kahn_ends (suc fuel) indeg [] out room inv = (out, indeg, refl, inv)
  kahn_ends (suc fuel) indeg (u ∷ q) out room inv = rw (over.out u) (
      kahn_ends fuel (next indeg u q out inv).0 (next indeg u q out inv).1 (out ++ u ∷ [])
        (omega (arith, length-append out (u ∷ []))) (next-Inv indeg u q out inv))
