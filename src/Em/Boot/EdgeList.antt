-- ===== src/Em/Boot/EdgeList.antt =====
-- The edges of the dependency graph as a list, and what `build_graph` makes of them.
use minimal_autosar_adaptive.Prelude.{
  ℕ, ◌+◌, ◌<◌, ◌≡◌, refl, Bool, true, false, not, ◌&&◌, ◌||◌, string_eq, ◌==◌, String, List, [],
  ◌∷◌, ◌++◌, arith, inl, inr, Bool-cases, beq_refl, if◌then◌else◌,
}
use mathlib.Core.List.{append-nil, append_assoc}
use minimal_autosar_adaptive.Prelude.Int.{ℤ, pos}
use minimal_autosar_adaptive.Prelude.Table.{Table, lookup, insert, lookup-insert}
use minimal_autosar_adaptive.Prelude.Membership.{elem, count, elem-append}
use minimal_autosar_adaptive.Em.Config.{AppConfig}
use minimal_autosar_adaptive.Em.Boot.{
  Graph, or_zero, or_none, increment, is_edge, add_edge, add_dependencies, add_apps, boot_nodes,
  app_by_id, build_graph,
}

-- (d, a) where a depends on d.
abbrev pub Edges : Type 0
Edges = List (String × String)

abbrev pub has_edge : String → String → Edges → Bool
has_edge d a [] = false
has_edge d a ((x, y) ∷ es) = (x == d && y == a) || has_edge d a es

abbrev pub targets : String → Edges → List String
targets u [] = []
targets u ((d, a) ∷ es) = if d == u then a ∷ targets u es else targets u es

-- The edges into `v` from nodes that are not among `out`.
abbrev pub pending : List String → String → Edges → ℕ
pending out v [] = 0
pending out v ((d, a) ∷ es) = (if a == v && not (elem d out) then 1 else 0) + pending out v es

pub pending-snoc :
    (out : List String) (u v : String) (es : Edges)
    → elem u out ≡ false
    → pending (out ++ u ∷ []) v es + count v (targets u es) ≡ pending out v es
pending-snoc out u v [] h = omega arith
pending-snoc out u v ((d, a) ∷ es) h = ground (
  arith,
  pending-snoc out u v es h,
  elem-append d out (u ∷ []),
  string_eq.beq_iff d u,
  string_eq.beq_iff u d,
)

pub pending-zero :
    (out : List String) (d a : String) (es : Edges)
    → pending out a es ≡ 0
    → has_edge d a es ≡ true
    → elem d out ≡ true
pending-zero out d a [] z h = ground arith
pending-zero out d a ((x, y) ∷ es) z h =
    ground (arith, pending-zero out d a es, string_eq.beq_iff x d, string_eq.beq_iff y a)

-- An app that waits does so for some app that is not out.
pub pending-pos :
    (out : List String) (a : String) (es : Edges)
    → 0 < pending out a es
    → (d : String) × (has_edge d a es ≡ true) × (elem d out ≡ false)
pending-pos out a [] h = absurd (omega arith)
pending-pos out a ((x, y) ∷ es) h = elim (Bool-cases (y == a && not (elem x out))) [
  | inl e ↦ (x, ground (arith, beq_refl x), ground arith)
  | inr e ↦ let (d, edge, free) = pending-pos out a es (ground arith) in (d, ground arith, free)
]

pub targets-edge : (u v : String) (es : Edges) → 0 < count v (targets u es) → has_edge u v es ≡ true
targets-edge u v [] h = ground arith
targets-edge u v ((d, a) ∷ es) h = ground (arith, targets-edge u v es)

-- The maps of the graph hold the edges `es`.
pub record Holds (es : Edges) (gr : Graph) : Type 0 where
  pub deg : (v : String) → or_zero (lookup v gr.indeg) ≡ pos (pending [] v es)
  pub out : (u : String) → or_none (lookup u gr.g) ≡ targets u es

pending-append :
    (v : String) (es fs : Edges) → pending [] v (es ++ fs) ≡ pending [] v es + pending [] v fs
pending-append v [] fs = omega arith
pending-append v ((d, a) ∷ es) fs = ground (arith, pending-append v es fs)

targets-append : (u : String) (es fs : Edges) → targets u (es ++ fs) ≡ targets u es ++ targets u fs
targets-append u [] fs = refl
targets-append u ((d, a) ∷ es) fs = ground (arith, targets-append u es fs)

add_edge-Holds :
    (d a : String) (es : Edges) (gr : Graph)
    → Holds es gr
    → Holds (es ++ (d, a) ∷ []) (add_edge d a gr)
unfolding add_edge increment
add_edge-Holds d a es gr h = record {
  deg = λ v. ground (
    arith,
    lookup-insert a v (increment (or_zero (lookup a gr.indeg))) gr.indeg,
    h.deg v,
    h.deg a,
    pending-append v es ((d, a) ∷ []),
    string_eq.beq_iff a v,
  );
  out = λ u. ground (
    arith,
    lookup-insert d u (or_none (lookup d gr.g) ++ a ∷ []) gr.g,
    h.out u,
    h.out d,
    targets-append u es ((d, a) ∷ []),
    append-nil (targets u es),
    string_eq.beq_iff d u,
  );
}

-- The edges of one application, and of all in turn.
unfoldable pub edges_of : Table String AppConfig → AppConfig → List String → Edges
edges_of by_id a [] = []
edges_of by_id a (d ∷ ds) =
    if is_edge by_id a d then (d, a.app_id) ∷ edges_of by_id a ds else edges_of by_id a ds

unfoldable pub boot_edges : Table String AppConfig → List AppConfig → Edges
unfolding edges_of
boot_edges by_id [] = []
boot_edges by_id (a ∷ apps) =
    if a.start_on_boot
    then edges_of by_id a a.dependencies ++ boot_edges by_id apps
    else boot_edges by_id apps

add_dependencies-Holds :
    (by_id : Table String AppConfig) (a : AppConfig) (ds : List String) (es : Edges) (gr : Graph)
    → Holds es gr
    → Holds (es ++ edges_of by_id a ds) (add_dependencies by_id a ds gr)
unfolding add_dependencies edges_of
add_dependencies-Holds by_id a [] es gr h = rw append-nil h
add_dependencies-Holds by_id a (d ∷ ds) es gr h = elim (Bool-cases (is_edge by_id a d)) [
  | inr e ↦ rw e (add_dependencies-Holds by_id a ds es gr h)
  | inl e ↦ rw e (
      rw append_assoc at (
        add_dependencies-Holds by_id a ds (es ++ (d, a.app_id) ∷ []) (add_edge d a.app_id gr)
          (add_edge-Holds d a.app_id es gr h)))
]

add_apps-Holds :
    (by_id : Table String AppConfig) (apps : List AppConfig) (es : Edges) (gr : Graph)
    → Holds es gr
    → Holds (es ++ boot_edges by_id apps) (add_apps by_id apps gr)
unfolding add_apps boot_edges
add_apps-Holds by_id [] es gr h = rw append-nil h
add_apps-Holds by_id (a ∷ apps) es gr h = elim (Bool-cases a.start_on_boot) [
  | inr e ↦ simp e (add_apps-Holds by_id apps es gr h)
  | inl e ↦ simp e (
      rw append_assoc at (
        add_apps-Holds by_id apps (es ++ edges_of by_id a a.dependencies) _
          (add_dependencies-Holds by_id a a.dependencies es gr h)))
]

boot_nodes-zero :
    (apps : List AppConfig) (m : Table String ℤ)
    → ((v : String) → or_zero (lookup v m) ≡ pos 0)
    → (v : String) → or_zero (lookup v (boot_nodes apps m)) ≡ pos 0
unfolding boot_nodes
boot_nodes-zero [] m h v = h v
boot_nodes-zero (a ∷ apps) m h v = elim (Bool-cases a.start_on_boot) [
  | inr e ↦ simp e (boot_nodes-zero apps m h v)
  | inl e ↦ simp e (
      boot_nodes-zero apps (insert a.app_id (pos 0) m)
        (λ w. ground (arith, h w, lookup-insert a.app_id w (pos 0) m)) v)
]

abbrev pub edges : List AppConfig → Edges
edges apps = boot_edges (app_by_id apps []) apps

-- `build_graph` records in `g` and `indeg` exactly the dependencies that count, each as often as
-- the manifests name it.
pub build_graph-Holds : (apps : List AppConfig) → Holds (edges apps) (build_graph apps)
unfolding build_graph
build_graph-Holds apps = add_apps-Holds (app_by_id apps []) apps [] _ (record {
  deg = λ v. boot_nodes-zero apps [] (λ w. unfold lookup in refl) v;
  out = λ u. unfold lookup in refl;
})
