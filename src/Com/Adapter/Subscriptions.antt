-- ===== src/Com/Adapter/Subscriptions.antt =====
-- The subscriptions of the adapter, seen as a list: its tables implement the list of what is
-- subscribed and not yet unsubscribed, in order.
use minimal_autosar_adaptive.Prelude.{
  ℕ, ◌+◌, ◌%◌, ◌^◌, ◌<◌, ◌≤◌, ◌≡◌, refl, sym, ap, ◌∙◌, false, nat_eq, ◌==◌, arith, List, [], ◌∷◌,
  ◌++◌, none, some, if◌then◌else◌, is_empty, All, Bool-cases, inl, inr, All-map, All-append,
}
use mathlib.Core.List.{append-nil}
use native.Mathlib.Nat.{mod-eq_of_lt}
use minimal_autosar_adaptive.Prelude.Table.{
  Table, lookup, insert, erase, lookup-insert, lookup-erase,
}
use minimal_autosar_adaptive.Someip.Binding.{Callback}
use minimal_autosar_adaptive.Com.Adapter.{
  Key, key_beq_iff, key_eq, SubMeta, Adapter, bucket, next, add_subscription, put_back,
}

-- A live subscription.
pub record Subscription : Type 0 where
  pub token : ℕ
  pub key : Key
  pub group : ℕ
  pub callback : Callback

-- Those for a key, as a bucket, and all of them, as `token_meta`.
unfoldable pub for_key : Key → List Subscription → Table ℕ Callback
for_key k [] = []
for_key k (x ∷ xs) = if x.key == k then (x.token, x.callback) ∷ for_key k xs else for_key k xs

unfoldable pub metas : List Subscription → Table ℕ SubMeta
metas [] = []
metas (x ∷ xs) = (x.token, record { key = x.key; group = x.group }) ∷ metas xs

unfoldable pub remove : ℕ → List Subscription → List Subscription
remove t [] = []
remove t (x ∷ xs) = let rest = remove t xs in if x.token == t then rest else x ∷ rest

abbrev pub HasUniqueTokens : List Subscription → Type 0
HasUniqueTokens [] = Unit
HasUniqueTokens (x ∷ xs) = (lookup x.token (metas xs) ≡ none) × HasUniqueTokens xs

-- The adapter holds the subscriptions `xs`.
pub record Holds (a : Adapter) (xs : List Subscription) : Type 0 where
  pub buckets : (k : Key) → bucket (lookup k a.subs) ≡ for_key k xs
  pub tokens : a.token_meta ≡ metas xs
  pub bounded : All (λ x. x.token ≤ a.next_token) xs
  pub unique : HasUniqueTokens xs

lookup-snoc {ℓ} :
    {V : Type ℓ} (t : ℕ) (m : Table ℕ V) (j : ℕ) (v : V)
    → lookup t (m ++ (j, v) ∷ [])
      ≡ elim (lookup t m) [ some w ↦ some w | none ↦ if j == t then some v else none ]
unfolding lookup
lookup-snoc t [] j v = refl
lookup-snoc t ((i, w) ∷ m) j v = ground (arith, lookup-snoc t m j v)

insert-new {ℓ} :
    {V : Type ℓ} (t : ℕ) (v : V) (m : Table ℕ V)
    → lookup t m ≡ none
    → insert t v m ≡ m ++ (t, v) ∷ []
unfolding insert lookup
insert-new t v [] h = refl
insert-new t v ((j, w) ∷ m) h = ground (arith, insert-new t v m)

for_key-append :
    (k : Key) (xs ys : List Subscription) → for_key k (xs ++ ys) ≡ for_key k xs ++ for_key k ys
unfolding for_key
for_key-append k [] ys = refl
for_key-append k (x ∷ xs) ys = ground (arith, for_key-append k xs ys)

metas-append : (xs ys : List Subscription) → metas (xs ++ ys) ≡ metas xs ++ metas ys
unfolding metas
metas-append [] ys = refl
metas-append (x ∷ xs) ys = ground (arith, metas-append xs ys)

for_key-new :
    (n t : ℕ) (k : Key) (xs : List Subscription)
    → All (λ x. x.token ≤ n) xs
    → n < t
    → lookup t (for_key k xs) ≡ none
unfolding for_key lookup
for_key-new n t k [] h l = refl
for_key-new n t k (x ∷ xs) h l = ground (arith, for_key-new n t k xs h.1 l)

metas-new :
    (n t : ℕ) (xs : List Subscription)
    → All (λ x. x.token ≤ n) xs
    → n < t
    → lookup t (metas xs) ≡ none
unfolding metas lookup
metas-new n t [] h l = refl
metas-new n t (x ∷ xs) h l = ground (arith, metas-new n t xs h.1 l)

pub for_key-remove :
    (t : ℕ) (k : Key) (xs : List Subscription) → for_key k (remove t xs) ≡ erase t (for_key k xs)
unfolding for_key remove erase
for_key-remove t k [] = refl
for_key-remove t k (x ∷ xs) = ground (arith, for_key-remove t k xs)

metas-remove : (t : ℕ) (xs : List Subscription) → metas (remove t xs) ≡ erase t (metas xs)
unfolding metas remove erase
metas-remove t [] = refl
metas-remove t (x ∷ xs) = ground (arith, metas-remove t xs)

pub remove-absent : (t : ℕ) (xs : List Subscription) → lookup t (metas xs) ≡ none → remove t xs ≡ xs
unfolding metas remove lookup
remove-absent t [] h = refl
remove-absent t (x ∷ xs) h = ground (arith, remove-absent t xs)

All-remove :
    (t n : ℕ) (xs : List Subscription)
    → All (λ x. x.token ≤ n) xs
    → All (λ x. x.token ≤ n) (remove t xs)
unfolding remove
All-remove t n [] h = tt
All-remove t n (x ∷ xs) h = ground (arith, All-remove t n xs h.1)

HasUniqueTokens-snoc :
    (xs : List Subscription) (x : Subscription)
    → HasUniqueTokens xs
    → lookup x.token (metas xs) ≡ none
    → HasUniqueTokens (xs ++ x ∷ [])
unfolding metas lookup
HasUniqueTokens-snoc [] x u h = (refl, tt)
HasUniqueTokens-snoc (y ∷ xs) x u h = (
  rw (metas-append xs (x ∷ [])) (
      ground
        (arith, lookup-snoc y.token (metas xs) x.token (record { key = x.key; group = x.group }))),
  HasUniqueTokens-snoc xs x u.1 (ground arith),
)

HasUniqueTokens-remove :
    (t : ℕ) (xs : List Subscription) → HasUniqueTokens xs → HasUniqueTokens (remove t xs)
unfolding remove
HasUniqueTokens-remove t [] u = tt
HasUniqueTokens-remove t (x ∷ xs) u =
    ground
      (arith, HasUniqueTokens-remove t xs, metas-remove t xs, lookup-erase t x.token (metas xs))

single :
    (j : Key) (t : ℕ) (k : Key) (g : ℕ) (cb : Callback)
    → for_key j (record { token = t; key = k; group = g; callback = cb } ∷ [])
      ≡ (if k == j then (t, cb) ∷ [] else [])
unfolding for_key
single j t k g cb = refl

single_meta :
    (x : Subscription) → metas (x ∷ []) ≡ (x.token, record { key = x.key; group = x.group }) ∷ []
unfolding metas
single_meta x = refl

-- A subscription is added at the end.
pub add_subscription-Holds :
    (k : Key) (g : ℕ) (cb : Callback) (a : Adapter) (xs : List Subscription)
    → a.next_token + 1 < 2 ^ 64
    → Holds a xs
    → Holds
        (add_subscription k g cb a)
        (xs ++ record { token = a.next_token + 1; key = k; group = g; callback = cb } ∷ [])
unfolding add_subscription next
add_subscription-Holds k g cb a xs small h =
    let t = a.next_token + 1 in
    let e : (a.next_token + 1) % 2 ^ 64 ≡ a.next_token + 1 = mod-eq_of_lt small in
    let x : Subscription = record { token = t; key = k; group = g; callback = cb } in
    let fresh = for_key-new a.next_token t k xs h.bounded (omega arith) in
    let unknown = metas-new a.next_token t xs h.bounded (omega arith) in
    record {
      buckets = λ j.
          rw (e, h.buckets k, insert-new t cb (for_key k xs) fresh)
            (elim (Bool-cases (k == j)) [
              | inl same ↦
                  rw (lookup-insert, same, for_key-append, single, same)
                    (ap (λ (i : Key). for_key i xs ++ (t, cb) ∷ []) ((key_beq_iff k j).0 same))
              | inr other ↦
                  rw (lookup-insert, other, for_key-append, single, other)
                    (h.buckets j ∙ sym (append-nil (for_key j xs)))
            ]);
      tokens =
          rw (e, h.tokens, insert-new t (record { key = k; group = g }) (metas xs) unknown)
            (sym (
              metas-append xs (x ∷ [])
              ∙ ap (λ (l : Table ℕ SubMeta). metas xs ++ l) (single_meta x)));
      bounded = rw e (
          All-append (λ (y : Subscription). y.token ≤ t) xs (x ∷ [])
            (All-map (λ (y : Subscription). y.token ≤ a.next_token)
              (λ (y : Subscription). y.token ≤ t) xs (λ y l. omega arith) h.bounded)
            (omega arith));
      unique = HasUniqueTokens-snoc xs x h.unique unknown;
    }

-- What is left after the removal of a token of `k`.
put_back-bucket :
    (k j : Key) (left : Table ℕ Callback) (subs : Table Key (Table ℕ Callback))
    → bucket (lookup j (put_back k left subs)) ≡ (if k == j then left else bucket (lookup j subs))
unfolding put_back
put_back-bucket k j [] subs = ground (arith, lookup-erase k j subs)
put_back-bucket k j (x ∷ left) subs = ground (arith, lookup-insert k j (x ∷ left) subs)

-- A token that is known has its callback in the bucket of its key.
pub meta-for_key :
    (t : ℕ) (m : SubMeta) (xs : List Subscription)
    → lookup t (metas xs) ≡ some m
    → is_empty (for_key m.key xs) ≡ false
unfolding metas for_key lookup
meta-for_key t m [] h = ground arith
meta-for_key t m (x ∷ xs) h = ground (arith, meta-for_key t m xs, key_beq_iff x.key m.key)

absent_keep :
    (t : ℕ) (j : Key) (xs : List Subscription)
    → lookup t (metas xs) ≡ none
    → erase t (for_key j xs) ≡ for_key j xs
unfolding metas for_key lookup erase
absent_keep t j [] h = refl
absent_keep t j (x ∷ xs) h = ground (arith, absent_keep t j xs)

-- The removal of a token leaves the buckets of other keys.
other_keep :
    (t : ℕ) (m : SubMeta) (j : Key) (xs : List Subscription)
    → HasUniqueTokens xs
    → lookup t (metas xs) ≡ some m
    → (m.key == j) ≡ false
    → erase t (for_key j xs) ≡ for_key j xs
unfolding metas for_key lookup erase
other_keep t m j [] u h ne = refl
other_keep t m j (x ∷ xs) u h ne =
    ground (arith, other_keep t m j xs u.1, absent_keep t j xs, nat_eq.beq_iff x.token t)

-- The removal of a token of the tables.
module _ (t : ℕ) (m : SubMeta) (handlers : Table ℕ Callback) (a : Adapter) (xs : List Subscription)
    (h : Holds a xs) (known : lookup t (metas xs) ≡ some m)
    (found : lookup m.key a.subs ≡ some handlers) where
  abbrev pub without : Adapter
  without = record a {
    token_meta = erase t a.token_meta;
    subs = put_back m.key (erase t handlers) a.subs;
  }

  pub same_bucket : handlers ≡ for_key m.key xs
  same_bucket = ground (arith, h.buckets m.key)

  pub without-Holds : Holds without (remove t xs)
  without-Holds = record {
    buckets = λ j.
        put_back-bucket m.key j (erase t handlers) a.subs ∙ elim (Bool-cases (m.key == j)) [
          | inl same ↦
              rw (same, same_bucket)
                (ap (λ (i : Key). erase t (for_key i xs)) ((key_beq_iff m.key j).0 same)
                  ∙ sym (for_key-remove t j xs))
          | inr other ↦ rw other (
              h.buckets j
              ∙ sym (other_keep t m j xs h.unique known other)
              ∙ sym (for_key-remove t j xs))
        ];
    tokens = rw h.tokens (sym (metas-remove t xs));
    bounded = All-remove t a.next_token xs h.bounded;
    unique = HasUniqueTokens-remove t xs h.unique;
  }
