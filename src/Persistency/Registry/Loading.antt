-- ===== src/Persistency/Registry/Loading.antt =====
-- What reading the manifest of storages leaves in the registry.
use minimal_autosar_adaptive.Prelude.{
  true, false, string_eq, String, List, [], ◌∷◌, Option, none, some, ◌≡◌, refl, inl, inr, arith,
  ◌>>=◌, Option-cases,
}
use minimal_autosar_adaptive.Prelude.Table.{Table, lookup, emplace, lookup-emplace}
use minimal_autosar_adaptive.Core.Result.{ok, has_value}
use minimal_autosar_adaptive.Core.Json.{Json}
use minimal_autosar_adaptive.Persistency.Registry.{
  Registry, StorageConfig, World, config_of, create_directories, load, init_from_file, find,
  is_initialized,
}

module _ {J : Type 0} (json : Json J) where
  -- What the elements say, all of them.
  abbrev pub all_configs : List J → Option (Table String StorageConfig)
  all_configs [] = some []
  all_configs (s ∷ ss) = do c ← config_of json s; cs ← all_configs ss; some (c ∷ cs)

  -- What the manifest says.
  abbrev pub manifest_configs : Option (Option J) → Option (Table String StorageConfig)
  manifest_configs file = do
    parsed ← file
    j ← parsed
    ss ← json.at "storages" j
    all_configs (json.elements ss)

  -- The first of two entries wins.
  or_else : Option StorageConfig → Option StorageConfig → Option StorageConfig
  or_else none b = b
  or_else (some a) b = some a

  -- One round of the loop.
  load-step :
      (s : J) (ss : List J) (storages : Table String StorageConfig) (w : World) (inst : String)
      (cfg : StorageConfig)
      → config_of json s ≡ some (inst, cfg)
      → load json (s ∷ ss) storages w
        ≡ load json ss (emplace inst cfg storages) (create_directories cfg.base_path w)
  unfolding load
  load-step s ss storages w inst cfg h = ground arith

  load-none :
      (ss : List J) (storages : Table String StorageConfig) (w : World)
      → all_configs ss ≡ none
      → (load json ss storages w).1 ≡ none
  unfolding load
  load-none [] storages w h = ground arith
  load-none (s ∷ ss) storages w h = elim (Option-cases (config_of json s)) [
    | inl bad ↦ ground arith
    | inr ((inst, cfg), good) ↦
        let ih =
          load-none ss (emplace inst cfg storages) (create_directories cfg.base_path w)
            (elim (Option-cases (all_configs ss)) [ inl e ↦ e | inr (cs, e) ↦ ground arith ]) in
        rw (load-step s ss storages w inst cfg good) ih
  ]

  load-some :
      (ss : List J) (cs storages : Table String StorageConfig) (w : World)
      → all_configs ss ≡ some cs
      → (m : Table String StorageConfig) × ((load json ss storages w).1 ≡ some m)
        × ((name : String) → lookup name m ≡ or_else (lookup name storages) (lookup name cs))
  unfolding load lookup or_else
  load-some [] cs storages w h = (storages, refl, λ name. ground arith)
  load-some (s ∷ ss) cs storages w h = elim (Option-cases (config_of json s)) [
    | inl bad ↦ absurd (ground arith)
    | inr ((inst, cfg), good) ↦ elim (Option-cases (all_configs ss)) [
      | inl bad ↦ absurd (ground arith)
      | inr (rest, e) ↦
          let (m, loaded, holds) =
            load-some ss rest (emplace inst cfg storages) (create_directories cfg.base_path w) e in
          (
            m,
            rw (load-step s ss storages w inst cfg good) loaded,
            λ name. ground (arith, holds name, lookup-emplace inst name cfg storages),
          )
    ]
  ]

  -- A manifest that opens, parses and has the fields asked for, in every storage, is loaded: the
  -- registry is initialised, and a look-up finds the first entry of that name, or none.
  pub init_from_file-loads :
      (file : Option (Option J)) (cs : Table String StorageConfig) (r : Registry) (w : World)
      → manifest_configs file ≡ some cs
      → (is_initialized (init_from_file json file r w).0 ≡ true)
        × ((init_from_file json file r w).2 ≡ ok tt)
        × ((name : String) → find name (init_from_file json file r w).0 ≡ lookup name cs)
  unfolding init_from_file is_initialized find lookup or_else
  init_from_file-loads none cs r w h = absurd (ground arith)
  init_from_file-loads (some none) cs r w h = absurd (ground arith)
  init_from_file-loads (some (some j)) cs r w h = elim (Option-cases (json.at "storages" j)) [
    | inl bad ↦ absurd (ground arith)
    | inr (ss, e) ↦
        let (m, loaded, holds) = load-some (json.elements ss) cs [] w (ground arith) in
        (ground arith, ground arith, λ name. ground (arith, holds name))
  ]

  -- Any other manifest leaves the registry without a storage, and whether it counts as initialised
  -- is as it was before.
  pub init_from_file-fails :
      (file : Option (Option J)) (r : Registry) (w : World)
      → manifest_configs file ≡ none
      → (is_initialized (init_from_file json file r w).0 ≡ is_initialized r)
        × (has_value (init_from_file json file r w).2 ≡ false)
        × ((name : String) → find name (init_from_file json file r w).0 ≡ none)
  unfolding init_from_file is_initialized find has_value lookup
  init_from_file-fails none r w h = (refl, refl, λ name. refl)
  init_from_file-fails (some none) r w h = (refl, refl, λ name. refl)
  init_from_file-fails (some (some j)) r w h = elim (Option-cases (json.at "storages" j)) [
    | inl bad ↦ (ground arith, ground arith, λ name. ground arith)
    | inr (ss, e) ↦
        let stopped = load-none (json.elements ss) [] w (ground arith) in
        (ground arith, ground arith, λ name. ground arith)
  ]
