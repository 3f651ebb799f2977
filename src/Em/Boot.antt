-- ===== src/Em/Boot.antt =====
-- The order in which `main` starts the applications: the dependency graph of those that start on
-- boot, Kahn's algorithm over it, and the order of the manifests where that finds a cycle.
-- The walk over the unordered map `indeg` is an argument, `walk`: the keys in the order visited.
pub mod EdgeList
pub mod Nodes
pub mod Kahn
pub mod Loop
pub mod Order
use minimal_autosar_adaptive.Prelude.{
  ℕ, zero, suc, ◌+◌, Bool, true, false, not, string_eq, nat_eq, ◌==◌, String, List, [], ◌∷◌, ◌++◌,
  map, Option, none, some, length, if◌then◌else◌,
}
use minimal_autosar_adaptive.Prelude.Int.{ℤ, pos, negsuc}
use minimal_autosar_adaptive.Prelude.Table.{Table, lookup, insert, emplace}
use minimal_autosar_adaptive.Em.Config.{AppConfig}

-- app_by_id: the first configuration of an id stays.
unfoldable pub app_by_id : List AppConfig → Table String AppConfig → Table String AppConfig
app_by_id [] m = m
app_by_id (a ∷ apps) m = app_by_id apps (if a.app_id == "" then m else emplace a.app_id a m)

pub record Graph : Type 0 where
  pub indeg : Table String ℤ
  pub g : Table String (List String)

-- m[k], which is the default value where the key is new.
abbrev pub or_zero : Option ℤ → ℤ
or_zero none = pos 0
or_zero (some n) = n

abbrev pub or_none : Option (List String) → List String
or_none none = []
or_none (some l) = l

unfoldable pub increment : ℤ → ℤ
increment (pos n) = pos (suc n)
increment (negsuc zero) = pos 0
increment (negsuc (suc n)) = negsuc n

unfoldable pub decrement : ℤ → ℤ
decrement (pos zero) = negsuc zero
decrement (pos (suc n)) = pos n
decrement (negsuc n) = negsuc (suc n)

unfoldable pub is_zero : ℤ → Bool
is_zero (pos zero) = true
is_zero (pos (suc n)) = false
is_zero (negsuc n) = false

-- for (a : apps) if (a.start_on_boot) indeg[a.app_id] = 0
unfoldable pub boot_nodes : List AppConfig → Table String ℤ → Table String ℤ
boot_nodes [] m = m
boot_nodes (a ∷ apps) m = boot_nodes apps (if a.start_on_boot then insert a.app_id (pos 0) m else m)

-- Whether a dependency of `a` on `d` becomes an edge: not on itself, nor on an application that is
-- unknown or does not start on boot.
unfoldable pub is_edge : Table String AppConfig → AppConfig → String → Bool
is_edge by_id a d =
    if d == a.app_id
    then false
    else elim (lookup d by_id) [ none ↦ false | some dep ↦ dep.start_on_boot ]

-- g[d].push_back(a); indeg[a]++
unfoldable pub add_edge : String → String → Graph → Graph
add_edge d a gr = record {
  indeg = insert a (increment (or_zero (lookup a gr.indeg))) gr.indeg;
  g = insert d (or_none (lookup d gr.g) ++ a ∷ []) gr.g;
}

unfoldable pub add_dependencies : Table String AppConfig → AppConfig → List String → Graph → Graph
unfolding is_edge add_edge
add_dependencies by_id a [] gr = gr
add_dependencies by_id a (d ∷ ds) gr =
    add_dependencies by_id a ds (if is_edge by_id a d then add_edge d a.app_id gr else gr)

unfoldable pub add_apps : Table String AppConfig → List AppConfig → Graph → Graph
unfolding add_dependencies
add_apps by_id [] gr = gr
add_apps by_id (a ∷ apps) gr =
    add_apps by_id apps (if a.start_on_boot then add_dependencies by_id a a.dependencies gr else gr)

unfoldable pub build_graph : List AppConfig → Graph
unfolding app_by_id boot_nodes add_apps
build_graph apps = add_apps (app_by_id apps []) apps (record { indeg = boot_nodes apps []; g = [] })

-- for (auto& [n, deg] : indeg) if (deg == 0) q.push_back(n)
unfoldable pub ready : Table String ℤ → List String → List String
unfolding is_zero
ready indeg [] = []
ready indeg (n ∷ walk) =
    if is_zero (or_zero (lookup n indeg)) then n ∷ ready indeg walk else ready indeg walk

-- for (auto& v : g[u]) if (--indeg[v] == 0) q.push_back(v)
unfoldable pub relax : List String → Table String ℤ → List String → Table String ℤ × List String
unfolding is_zero decrement
relax [] indeg q = (indeg, q)
relax (v ∷ vs) indeg q =
    let n = decrement (or_zero (lookup v indeg)) in
    relax vs (insert v n indeg) (if is_zero n then q ++ v ∷ [] else q)

-- while (!q.empty()); `none` when the fuel runs out.
unfoldable pub kahn :
    ℕ
    → Table String (List String)
    → Table String ℤ
    → List String
    → List String
    → Option (List String × Table String ℤ)
unfolding relax
kahn zero g indeg q topo = none
kahn (suc fuel) g indeg [] topo = some (topo, indeg)
kahn (suc fuel) g indeg (u ∷ q) topo =
    let (indeg', q') = relax (or_none (lookup u g)) indeg q in
    kahn fuel g indeg' q' (topo ++ u ∷ [])

-- Applications that start on boot, in manifest order.
unfoldable pub manifest_order : List AppConfig → List String
manifest_order [] = []
manifest_order (a ∷ apps) =
    if a.start_on_boot then a.app_id ∷ manifest_order apps else manifest_order apps

-- The sequence of ids that `main` launches.
unfoldable pub start_order : ℕ → List String → List AppConfig → Option (List String)
unfolding build_graph ready kahn manifest_order
start_order fuel walk apps =
    let gr = build_graph apps in
    elim (kahn fuel gr.g gr.indeg (ready gr.indeg walk) []) [
      | none ↦ none
      | some (topo, indeg) ↦
          some (if length topo == length indeg then topo else manifest_order apps)
    ]
