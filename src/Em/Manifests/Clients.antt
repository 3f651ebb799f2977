-- ===== src/Em/Manifests/Clients.antt =====
-- Whom the manager takes a client for.
use minimal_autosar_adaptive.Prelude.{
  ℕ, ◌≡◌, true, false, ◌||◌, not, nat_eq, string_eq, ◌==◌, arith, String, List, [], ◌∷◌, Option,
  none, some, if◌then◌else◌, ◌>>=◌, first_step, Bool-cases, inl, inr,
}
use minimal_autosar_adaptive.Prelude.Table.{Table, lookup, insert, lookup-insert}
use minimal_autosar_adaptive.Prelude.Membership.{elem}
use minimal_autosar_adaptive.Core.Json.{Json}
use minimal_autosar_adaptive.Em.Config.{AppConfig}
use minimal_autosar_adaptive.Em.Manifests.{
  word16, array_of, manifest_ids, add_named, add_client, add_clients, build_client_to_appid_map,
}

module _ {J : Type 0} (json : Json J) (ids : List String) where
  -- Every client stands for one of the ids.
  abbrev OnlyIds : Table ℕ String → Type 0
  OnlyIds out = (c : ℕ) (id : String) → lookup c out ≡ some id → elem id ids ≡ true

  add_named-OnlyIds :
      (name id_s : String) (out next : Table ℕ String)
      → OnlyIds out
      → add_named ids name id_s out ≡ some next
      → OnlyIds next
  unfolding add_named
  add_named-OnlyIds name id_s out next only h c id found =
      elim (Bool-cases (name == "" || id_s == "")) [
        | inl e ↦ only c id (ground arith)
        | inr e ↦
            let (cid, word, h1) = first_step (word16 id_s) _ (named e) in
            elim (Bool-cases (elem name ids)) [
              | inr f ↦ only c id (ground arith)
              | inl f ↦ ground (arith, lookup-insert cid c name out, only c id)
            ]
      ]
    where
      named :
          (name == "" || id_s == "") ≡ false
          → (word16 id_s >>= λ cid. some (if elem name ids then insert cid name out else out))
            ≡ some next
      named e = ground arith

  add_client-OnlyIds :
      (a : J) (out next : Table ℕ String)
      → OnlyIds out
      → add_client json ids a out ≡ some next
      → OnlyIds next
  unfolding add_client
  add_client-OnlyIds a out next only h = elim (Bool-cases (not (json.is_object a))) [
    | inl e ↦ λ c id found. only c id (ground arith)
    | inr e ↦
        let (name, h1, h2) = first_step (json.value_string "name" "" a) _ (read e) in
        let (id_s, h3, h4) = first_step (json.value_string "id" "0" a) _ h2 in
        add_named-OnlyIds name id_s out next only h4
  ]
    where
      read :
          not (json.is_object a) ≡ false
          → (json.value_string "name" "" a >>= λ name.
              json.value_string "id" "0" a >>= λ id_s. add_named ids name id_s out)
            ≡ some next
      read e = ground arith

  add_clients-OnlyIds :
      (elements : List J) (out next : Table ℕ String)
      → OnlyIds out
      → add_clients json ids elements out ≡ some next
      → OnlyIds next
  unfolding add_clients
  add_clients-OnlyIds [] out next only h c id found = only c id (ground arith)
  add_clients-OnlyIds (a ∷ more) out next only h c id found =
      let (mid, one, rest) = first_step (add_client json ids a out) _ h in
      add_clients-OnlyIds more mid next (add_client-OnlyIds a out mid only one) rest c id found

-- Whatever the vsomeip configuration says, a client stands only for the id of a manifest.
pub build_client_to_appid_map-elem :
    {J : Type 0} (json : Json J) (file : Option (Option J)) (apps : List AppConfig)
    (clients : Table ℕ String) (c : ℕ) (id : String)
    → build_client_to_appid_map json file apps ≡ some clients
    → lookup c clients ≡ some id
    → elem id (manifest_ids apps) ≡ true
unfolding build_client_to_appid_map
build_client_to_appid_map-elem json none apps clients c id h found = unfold lookup in ground arith
build_client_to_appid_map-elem json (some none) apps clients c id h found = absurd (ground arith)
build_client_to_appid_map-elem json (some (some j)) apps clients c id h found =
    add_clients-OnlyIds json (manifest_ids apps) (array_of json "applications" j) [] clients
      (λ d e none_yet. unfold lookup in ground arith) h c id found
