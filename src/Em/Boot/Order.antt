-- ===== src/Em/Boot/Order.antt =====
-- The order in which the applications are started.
use minimal_autosar_adaptive.Prelude.{
  ℕ, zero, suc, ◌<◌, ◌≡◌, refl, ◌∙◌, sym, ap, ◌≢◌, true, false, ◌&&◌, string_eq, nat_eq, ◌==◌,
  beq_refl, String, List, [], ◌∷◌, arith, some, length, Bool-cases, inl, inr, ◌⊎◌,
}
use mathlib.Core.List.{append-nil}
use minimal_autosar_adaptive.Prelude.Int.{ℤ}
use minimal_autosar_adaptive.Prelude.Table.{Table, keys, lookup, length-keys}
use minimal_autosar_adaptive.Prelude.Membership.{elem, before, Distinct, length-le_of_Distinct}
use minimal_autosar_adaptive.Em.Config.{AppConfig}
use minimal_autosar_adaptive.Em.Boot.{
  or_zero, is_zero, ready, app_by_id, build_graph, manifest_order, start_order,
}
use minimal_autosar_adaptive.Em.Boot.EdgeList.{
  edges, has_edge, pending, pending-pos, build_graph-Holds,
}
use minimal_autosar_adaptive.Em.Boot.Nodes.{
  depends, has_edge-boot_edges, build_graph-keys, edge-nodes,
}
use minimal_autosar_adaptive.Em.Boot.Loop.{IsOver, Inv, kahn_ends}

-- The walk over `indeg` visits each of its keys once.
pub record Walks (walk : List String) (indeg : Table String ℤ) : Type 0 where
  pub once : Distinct walk
  pub visits : (v : String) → elem v walk ≡ elem v (keys indeg)

elem-ready :
    (indeg : Table String ℤ) (walk : List String) (v : String)
    → elem v (ready indeg walk) ≡ (elem v walk && is_zero (or_zero (lookup v indeg)))
unfolding ready
elem-ready indeg [] v = refl
elem-ready indeg (n ∷ walk) v = ground (arith, elem-ready indeg walk v, string_eq.beq_iff n v)

Distinct-ready :
    (indeg : Table String ℤ) (walk : List String) → Distinct walk → Distinct (ready indeg walk)
unfolding ready
Distinct-ready indeg [] d = tt
Distinct-ready indeg (n ∷ walk) d =
    ground (arith, elem-ready indeg walk n, Distinct-ready indeg walk d.1)

abbrev pub nodes_of : List AppConfig → List String
nodes_of apps = keys (build_graph apps).indeg

module _ (apps : List AppConfig) (walk : List String)
    (w : Walks walk (build_graph apps).indeg) where
  over : IsOver (nodes_of apps) (edges apps) (build_graph apps).g
  over = record {
    out = (build_graph-Holds apps).out;
    ends = λ x y e. (build_graph-keys apps).0 y ∙ (edge-nodes apps x y e).1;
  }

  first : List String
  first = ready (build_graph apps).indeg walk

  start-Inv : Inv (nodes_of apps) (edges apps) (build_graph apps).indeg first []
  unfolding first
  start-Inv = record {
    deg = (build_graph-Holds apps).deg;
    free = λ v m.
        unfold is_zero in
        ground (arith, elem-ready (build_graph apps).indeg walk v, (build_graph-Holds apps).deg v);
    ready = λ v n z.
        unfold is_zero in
        ground (
          arith,
          elem-ready (build_graph apps).indeg walk v,
          (build_graph-Holds apps).deg v,
          w.visits v,
        );
    within = λ v m. ground (arith, elem-ready (build_graph apps).indeg walk v, w.visits v);
    distinct = Distinct-ready (build_graph apps).indeg walk w.once;
    sorted = λ x y e m. cc;
    nodes_kept = refl;
  }

-- Some application cannot be started in order: it is not `done`, and whoever is not waits for
-- another that is not.
pub record IsStuck (apps : List AppConfig) (done : List String) : Type 0 where
  pub left : (v : String) × (elem v (manifest_order apps) ≡ true) × (elem v done ≡ false)
  pub waits :
      (v : String)
      → elem v (manifest_order apps) ≡ true
      → elem v done ≡ false
      → (d : String) × (depends (app_by_id apps []) apps d v ≡ true)
        × (elem d (manifest_order apps) ≡ true)
        × (elem d done ≡ false)

-- Each application that starts on boot once, and after those that it depends on.
pub record IsStartOrder (apps : List AppConfig) (order : List String) : Type 0 where
  pub once : Distinct order
  pub all : (v : String) → elem v order ≡ elem v (manifest_order apps)
  pub after : (x y : String) → depends (app_by_id apps []) apps x y ≡ true → before x y order ≡ true

module _ (apps : List AppConfig) (final : Table String ℤ) (topo : List String)
    (inv : Inv (nodes_of apps) (edges apps) final [] topo) where
  topo_node : (v : String) → elem v topo ≡ true → elem v (nodes_of apps) ≡ true
  topo_node v m = inv.within v (rw append-nil m)

  -- Nobody is left out if the lengths agree.
  complete :
      length topo ≡ length (nodes_of apps)
      → (v : String) → elem v (nodes_of apps) ≡ true
      → elem v topo ≡ true
  complete same v n = elim (Bool-cases (elem v topo)) [
    | inl m ↦ m
    | inr m ↦ absurd (
        omega (
          arith,
          same,
          length-le_of_Distinct (v ∷ topo) (nodes_of apps) (m, rw append-nil at inv.distinct)
              (λ a h. ground (arith, topo_node a, string_eq.beq_iff v a)),
        ))
  ]

  edge :
      (x y : String)
      → depends (app_by_id apps []) apps x y ≡ true
      → has_edge x y (edges apps) ≡ true
  edge x y h = has_edge-boot_edges (app_by_id apps []) apps x y ∙ h

  all_nodes :
      length topo ≡ length (nodes_of apps)
      → (v : String) → elem v topo ≡ elem v (manifest_order apps)
  all_nodes same v = ground (arith, complete same v, topo_node v, (build_graph-keys apps).0 v)

  sorted_order : length topo ≡ length (nodes_of apps) → IsStartOrder apps topo
  sorted_order same = record {
    once = rw append-nil at inv.distinct;
    all = all_nodes same;
    after = λ x y h.
        inv.sorted x y (edge x y h) (all_nodes same y ∙ (edge-nodes apps x y (edge x y h)).1);
  }

  waits_on :
      (v : String)
      → elem v (manifest_order apps) ≡ true
      → elem v topo ≡ false
      → (d : String) × (depends (app_by_id apps []) apps d v ≡ true)
        × (elem d (manifest_order apps) ≡ true)
        × (elem d topo ≡ false)
  waits_on v n m =
      let pend : 0 < pending topo v (edges apps) =
        ground
          (arith, inv.ready v ((build_graph-keys apps).0 v ∙ n), ap (elem v) (append-nil topo)) in
      let (d, e, free) = pending-pos topo v (edges apps) pend in
      (
        d,
        sym (has_edge-boot_edges (app_by_id apps []) apps d v) ∙ e,
        (edge-nodes apps d v e).0,
        free,
      )

  -- If the lengths differ, some node is left out.
  search_left :
      (ns : List String)
      → ((v : String) → elem v ns ≡ true → elem v topo ≡ true)
        ⊎ ((v : String) × (elem v ns ≡ true) × (elem v topo ≡ false))
  search_left [] = inl (λ v m. cc)
  search_left (n ∷ ns) = elim (Bool-cases (elem n topo)) [
    | inr m ↦ inr (n, ground (arith, beq_refl n), m)
    | inl m ↦ elim (search_left ns) [
      | inr (v, e, f) ↦ inr (v, ground arith, f)
      | inl all ↦ inl (λ v e. ground (arith, all v, string_eq.beq_iff n v))
    ]
  ]

  stuck : length topo ≢ length (nodes_of apps) → IsStuck apps topo
  stuck ne = record {
    left = elim (search_left (nodes_of apps)) [
      | inr (v, e, f) ↦ (v, sym ((build_graph-keys apps).0 v) ∙ e, f)
      | inl all ↦ absurd (
          omega (
            arith,
            ne,
            length-le_of_Distinct (nodes_of apps) topo (build_graph-keys apps).1 all,
            length-le_of_Distinct topo (nodes_of apps) (rw append-nil at inv.distinct) topo_node,
          ))
    ];
    waits = waits_on;
  }

  final_length : length final ≡ length (nodes_of apps)
  final_length = sym (length-keys final) ∙ ap length inv.nodes_kept

module _ (fuel : ℕ) (walk : List String) (apps : List AppConfig)
    (w : Walks walk (build_graph apps).indeg)
    (enough : length (build_graph apps).indeg < fuel) where
  pub start_order_lem :
      (order : List String) × (start_order fuel walk apps ≡ some order)
      × (IsStartOrder apps order
          ⊎ ((order ≡ manifest_order apps) × (done : List String) × IsStuck apps done))
  unfolding start_order
  start_order_lem =
      let (topo, final, e, inv) =
        kahn_ends (nodes_of apps) (edges apps) (build_graph apps).g (over apps walk w) fuel
          (build_graph apps).indeg (ready (build_graph apps).indeg walk) []
          (omega (arith, enough, length-keys (build_graph apps).indeg))
          (unfold first in start-Inv apps walk w) in
      let size = final_length apps final topo inv in
      elim (Bool-cases (length topo == length final)) [
        | inl same ↦ (topo, ground arith, inl (sorted_order apps final topo inv (ground arith)))
        | inr other ↦ (
          manifest_order apps,
          ground arith,
          inr (refl, topo, stuck apps final topo inv (λ h. ground arith)),
        )
      ]

-- No application is stuck where the dependencies can be ranked.
ranked_done :
    (apps : List AppConfig) (done : List String) (rank : String → ℕ)
    → ((x y : String) → depends (app_by_id apps []) apps x y ≡ true → rank x < rank y)
    → IsStuck apps done
    → (n : ℕ) (v : String) → rank v < n
    → elem v (manifest_order apps) ≡ true
    → elem v done ≡ true
ranked_done apps done rank falls stuck zero v h m = absurd (omega arith)
ranked_done apps done rank falls stuck (suc n) v h m = elim (Bool-cases (elem v done)) [
  | inl e ↦ e
  | inr e ↦
      let (d, below, node, left) = stuck.waits v m e in
      absurd (
        cc (ranked_done apps done rank falls stuck n d (omega (arith, falls d v below)) node, left))
]

pub acyclic_start_order :
    (fuel : ℕ) (walk : List String) (apps : List AppConfig) (rank : String → ℕ)
    → Walks walk (build_graph apps).indeg
    → length (build_graph apps).indeg < fuel
    → ((x y : String) → depends (app_by_id apps []) apps x y ≡ true → rank x < rank y)
    → (order : List String) × (start_order fuel walk apps ≡ some order) × IsStartOrder apps order
acyclic_start_order fuel walk apps rank w enough falls =
    let (order, e, r) = start_order_lem fuel walk apps w enough in
    elim r [
      | inl sorted ↦ (order, e, sorted)
      | inr (same, done, stuck) ↦
          let (v, node, left) = stuck.left in
          absurd
            (cc (ranked_done apps done rank falls stuck (suc (rank v)) v (omega arith) node, left))
    ]
