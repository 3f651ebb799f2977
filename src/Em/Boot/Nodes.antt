-- ===== src/Em/Boot/Nodes.antt =====
-- The nodes of the dependency graph: the ids of the applications that start on boot.
use minimal_autosar_adaptive.Prelude.{
  ◌≡◌, refl, ◌∙◌, Bool, true, false, ◌&&◌, ◌||◌, string_eq, ◌==◌, beq_refl, String, List, [], ◌∷◌,
  ◌++◌, arith, Option, none, some, if◌then◌else◌, Bool-cases, Option-cases, inl, inr, sym, ◌⊎◌,
}
use minimal_autosar_adaptive.Prelude.Int.{ℤ, pos}
use minimal_autosar_adaptive.Prelude.Table.{
  Table, keys, lookup, insert, emplace, lookup-emplace, keys-insert,
}
use minimal_autosar_adaptive.Prelude.Membership.{elem, Distinct, Distinct-snoc, elem-append}
use minimal_autosar_adaptive.Em.Config.{AppConfig}
use minimal_autosar_adaptive.Em.Boot.{
  Graph, is_edge, add_edge, add_dependencies, add_apps, boot_nodes, app_by_id, build_graph,
  manifest_order,
}
use minimal_autosar_adaptive.Em.Boot.EdgeList.{Edges, has_edge, edges_of, boot_edges, edges}

module _ (k v : String) (n : ℤ) (m : Table String ℤ) where
  pub elem-keys-insert : elem v (keys (insert k n m)) ≡ (elem v (keys m) || k == v)
  elem-keys-insert =
      rw keys-insert (ground (arith, elem-append v (keys m) (k ∷ []), string_eq.beq_iff k v))

pub Distinct-keys-insert :
    (k : String) (n : ℤ) (m : Table String ℤ) → Distinct (keys m) → Distinct (keys (insert k n m))
Distinct-keys-insert k n m d = elim (Bool-cases (elem k (keys m))) [
  | inl e ↦ rw (keys-insert, e) d
  | inr e ↦ rw (keys-insert, e) (Distinct-snoc (keys m) k e d)
]

-- The nodes are the ids that `manifest_order` lists.
elem-boot_nodes :
    (apps : List AppConfig) (m : Table String ℤ) (v : String)
    → elem v (keys (boot_nodes apps m)) ≡ (elem v (keys m) || elem v (manifest_order apps))
unfolding boot_nodes manifest_order
elem-boot_nodes [] m v = ground arith
elem-boot_nodes (a ∷ apps) m v = elim (Bool-cases a.start_on_boot) [
  | inr e ↦ simp e (elem-boot_nodes apps m v)
  | inl e ↦ simp e (
      elem-boot_nodes apps (insert a.app_id (pos 0) m) v
      ∙ ground (arith, elem-keys-insert a.app_id v (pos 0) m))
]

Distinct-boot_nodes :
    (apps : List AppConfig) (m : Table String ℤ)
    → Distinct (keys m)
    → Distinct (keys (boot_nodes apps m))
unfolding boot_nodes
Distinct-boot_nodes [] m d = d
Distinct-boot_nodes (a ∷ apps) m d = elim (Bool-cases a.start_on_boot) [
  | inr e ↦ simp e (Distinct-boot_nodes apps m d)
  | inl e ↦ simp e (
      Distinct-boot_nodes apps (insert a.app_id (pos 0) m)
        (Distinct-keys-insert a.app_id (pos 0) m d))
]

-- The nodes stay while the edges are added.
keys-add_dependencies :
    (by_id : Table String AppConfig) (a : AppConfig) (ds : List String) (gr : Graph)
    → elem a.app_id (keys gr.indeg) ≡ true
    → keys (add_dependencies by_id a ds gr).indeg ≡ keys gr.indeg
unfolding add_dependencies
keys-add_dependencies by_id a [] gr h = refl
keys-add_dependencies by_id a (d ∷ ds) gr h = elim (Bool-cases (is_edge by_id a d)) [
  | inr e ↦ simp e (keys-add_dependencies by_id a ds gr h)
  | inl e ↦ simp e (
      let same = kept d in
      keys-add_dependencies by_id a ds (add_edge d a.app_id gr) (rw same h) ∙ same)
]
  where
    kept : (d : String) → keys (add_edge d a.app_id gr).indeg ≡ keys gr.indeg
    kept d = unfold add_edge in rw (keys-insert, h)

later_node :
    (a : AppConfig) (apps : List AppConfig) (v : String)
    → elem v (manifest_order apps) ≡ true
    → elem v (manifest_order (a ∷ apps)) ≡ true
unfolding manifest_order
later_node a apps v h = ground arith

first_node :
    (a : AppConfig) (apps : List AppConfig)
    → a.start_on_boot ≡ true
    → elem a.app_id (manifest_order (a ∷ apps)) ≡ true
unfolding manifest_order
first_node a apps h = ground (arith, beq_refl a.app_id)

keys-add_apps :
    (by_id : Table String AppConfig) (apps : List AppConfig) (gr : Graph)
    → ((v : String) → elem v (manifest_order apps) ≡ true → elem v (keys gr.indeg) ≡ true)
    → keys (add_apps by_id apps gr).indeg ≡ keys gr.indeg
unfolding add_apps
keys-add_apps by_id [] gr h = refl
keys-add_apps by_id (a ∷ apps) gr h = elim (Bool-cases a.start_on_boot) [
  | inr e ↦ simp e (keys-add_apps by_id apps gr (λ v m. h v (later_node a apps v m)))
  | inl e ↦
      let same =
        keys-add_dependencies by_id a a.dependencies gr (h a.app_id (first_node a apps e)) in
      simp e (
        keys-add_apps by_id apps (add_dependencies by_id a a.dependencies gr)
          (λ v m. rw same (h v (later_node a apps v m)))
        ∙ same)
]

-- A node is an id that `manifest_order` lists, and stands once.
pub build_graph-keys :
    (apps : List AppConfig)
    → ((v : String) → elem v (keys (build_graph apps).indeg) ≡ elem v (manifest_order apps))
      × Distinct (keys (build_graph apps).indeg)
unfolding build_graph
build_graph-keys apps =
    let nodes = boot_nodes apps [] in
    let same =
      keys-add_apps (app_by_id apps []) apps (record { indeg = nodes; g = [] })
        (λ v m. rw elem-boot_nodes m) in
    (λ v. rw (same, elem-boot_nodes), rw same (Distinct-boot_nodes apps [] tt))

added :
    (a : AppConfig) (apps : List AppConfig) (m : Table String AppConfig) (d : String)
    (dep : AppConfig)
    → lookup d (if a.app_id == "" then m else emplace a.app_id a m) ≡ some dep
    → dep.start_on_boot ≡ true
    → (lookup d m ≡ some dep) ⊎ (elem d (manifest_order (a ∷ apps)) ≡ true)
unfolding manifest_order
added a apps m d dep h b = elim (Option-cases (lookup d m)) [
  | inl e ↦ ground (arith, lookup-emplace a.app_id d a m, string_eq.beq_iff a.app_id d)
  | inr (w, e) ↦ ground (arith, lookup-emplace a.app_id d a m)
]

-- Every entry of `app_by_id` stands under its own id, and starts on boot only if that is listed.
app_by_id-lookup :
    (apps : List AppConfig) (m : Table String AppConfig) (d : String) (dep : AppConfig)
    → lookup d (app_by_id apps m) ≡ some dep
    → dep.start_on_boot ≡ true
    → (lookup d m ≡ some dep) ⊎ (elem d (manifest_order apps) ≡ true)
unfolding app_by_id
app_by_id-lookup [] m d dep h b = inl h
app_by_id-lookup (a ∷ apps) m d dep h b =
    let m' = if a.app_id == "" then m else emplace a.app_id a m in
    elim (app_by_id-lookup apps m' d dep h b) [
      | inr later ↦ inr (later_node a apps d later)
      | inl here ↦ added a apps m d dep here b
    ]

-- Some application `y` that starts on boot names `x` as a dependency, and that counts.
abbrev pub depends : Table String AppConfig → List AppConfig → String → String → Bool
depends by_id [] x y = false
depends by_id (a ∷ apps) x y =
    (a.start_on_boot && (elem x a.dependencies && (is_edge by_id a x && a.app_id == y)))
    || depends by_id apps x y

has_edge-append :
    (x y : String) (es fs : Edges) → has_edge x y (es ++ fs) ≡ (has_edge x y es || has_edge x y fs)
has_edge-append x y [] fs = refl
has_edge-append x y ((d, a) ∷ es) fs = ground (arith, has_edge-append x y es fs)

has_edge-edges_of :
    (by_id : Table String AppConfig) (a : AppConfig) (ds : List String) (x y : String)
    → has_edge x y (edges_of by_id a ds) ≡ (elem x ds && (is_edge by_id a x && a.app_id == y))
unfolding edges_of
has_edge-edges_of by_id a [] x y = refl
has_edge-edges_of by_id a (d ∷ ds) x y =
    ground (arith, has_edge-edges_of by_id a ds x y, string_eq.beq_iff d x)

-- The edges are exactly the dependencies that count.
pub has_edge-boot_edges :
    (by_id : Table String AppConfig) (apps : List AppConfig) (x y : String)
    → has_edge x y (boot_edges by_id apps) ≡ depends by_id apps x y
unfolding boot_edges
has_edge-boot_edges by_id [] x y = refl
has_edge-boot_edges by_id (a ∷ apps) x y = elim (Bool-cases a.start_on_boot) [
  | inr e ↦ simp e (has_edge-boot_edges by_id apps x y)
  | inl e ↦ simp (e, has_edge-append, has_edge-edges_of, has_edge-boot_edges by_id apps x y)
]

abbrev starts : Option AppConfig → Bool
starts none = false
starts (some a) = a.start_on_boot

depends-ends :
    (by_id : Table String AppConfig) (apps : List AppConfig) (x y : String)
    → depends by_id apps x y ≡ true
    → (elem y (manifest_order apps) ≡ true) × (starts (lookup x by_id) ≡ true)
unfolding manifest_order is_edge
depends-ends by_id [] x y h = cc
depends-ends by_id (a ∷ apps) x y h = ground (arith, depends-ends by_id apps x y)

starts-node :
    (apps : List AppConfig) (x : String)
    → starts (lookup x (app_by_id apps [])) ≡ true
    → elem x (manifest_order apps) ≡ true
starts-node apps x h = elim (Option-cases (lookup x (app_by_id apps []))) [
  | inl e ↦ ground arith
  | inr (dep, e) ↦ elim (app_by_id-lookup apps [] x dep e (ground arith)) [
    | inl old ↦ unfold lookup in cc
    | inr node ↦ node
  ]
]

-- Both ends of an edge are nodes.
pub edge-nodes :
    (apps : List AppConfig) (x y : String)
    → has_edge x y (edges apps) ≡ true
    → (elem x (manifest_order apps) ≡ true) × (elem y (manifest_order apps) ≡ true)
edge-nodes apps x y h =
    let by_id = app_by_id apps [] in
    let ends = depends-ends by_id apps x y (sym (has_edge-boot_edges by_id apps x y) ∙ h) in
    (starts-node apps x ends.1, ends.0)
