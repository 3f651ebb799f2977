-- ===== src/Someip/Requests.antt =====
-- The events that `init` requests on its own, from the environment variable
-- SOMEIP_REQUEST_EVENTS: "svc:inst:event[@group],...".
use minimal_autosar_adaptive.Prelude.{
  ℕ, ◌%◌, ◌^◌, nat_eq, ◌==◌, Bytes, List, [], ◌∷◌, ◌++◌, none, some, is_empty, if◌then◌else◌,
}
use minimal_autosar_adaptive.Core.Numbers.{stoul}

-- The event and the group that the binding asks vsomeip to request and to subscribe.
pub record EventRequest : Type 0 where
  pub service : ℕ
  pub instance : ℕ
  pub event : ℕ
  pub group : ℕ

attach : ℕ → List Bytes → List Bytes
attach b [] = (b ∷ []) ∷ []
attach b (l ∷ ls) = (b ∷ l) ∷ ls

-- What std::getline(stream, piece, c) yields until it fails: an empty last piece is not yielded.
unfoldable pub pieces : ℕ → Bytes → List Bytes
unfolding attach
pieces c [] = []
pieces c (b ∷ s) = let rest = pieces c s in if b == c then [] ∷ rest else attach b rest

-- tok.find('@'): what stands before it, and after it.
unfoldable pub split_at : Bytes → Bytes × Bytes
split_at [] = ([], [])
split_at (b ∷ s) =
    let (left, right) = split_at s in if b == b'@' then ([], s) else (b ∷ left, right)

-- A number that cannot be read is 0.
unfoldable pub parse_u32 : Bytes → ℕ
parse_u32 s = elim (stoul s) [ none ↦ 0 | some n ↦ n % 2 ^ 32 ]

unfoldable pub parse_u16 : Bytes → ℕ
unfolding parse_u32
parse_u16 s = parse_u32 s % 2 ^ 16

-- A token with fewer than three fields is passed over.
unfoldable pub parse_fields : ℕ → Bytes → List Bytes → List EventRequest
unfolding parse_u16
parse_fields default grp (s ∷ i ∷ e ∷ more) =
    record {
      service = parse_u16 s;
      instance = parse_u16 i;
      event = parse_u16 e;
      group = if is_empty grp then default else parse_u16 grp;
    }
    ∷ []
parse_fields default grp _ = []

unfoldable pub parse_token : ℕ → Bytes → List EventRequest
unfolding pieces split_at parse_fields
parse_token default tok =
    if is_empty tok
    then []
    else let (left, grp) = split_at tok in parse_fields default grp (pieces b':' left)

unfoldable pub parse_tokens : ℕ → List Bytes → List EventRequest
unfolding parse_token
parse_tokens default [] = []
parse_tokens default (t ∷ ts) = parse_token default t ++ parse_tokens default ts

unfoldable pub auto_requests : ℕ → Bytes → List EventRequest
unfolding parse_tokens pieces
auto_requests default spec = parse_tokens default (pieces b',' spec)
