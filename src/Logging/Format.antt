-- ===== src/Logging/Format.antt =====
-- The "{}" formatter of logging/include/log.hpp. An argument is the text that operator<< writes.
use minimal_autosar_adaptive.Prelude.{
  ◌≡◌, refl, sym, ◌≢◌, ◌&&◌, nat_eq, ◌==◌, Bytes, List, [], ◌∷◌, ◌++◌, arith, Option, none, some,
  if◌then◌else◌, length, All,
}
use mathlib.Core.List.{append-nil}

-- fmt.find("{}"): what stands before it and after it.
unfoldable pub find_brace : Bytes → Option (Bytes × Bytes)
find_brace [] = none
find_brace (a ∷ []) = none
find_brace (a ∷ b ∷ s) =
    let rest = find_brace (b ∷ s) in
    if a == b'{' && b == b'}'
    then some ([], s)
    else elim rest [ none ↦ none | some (left, right) ↦ some (a ∷ left, right) ]

-- ReplaceFirstBrace: what is written, and what is left of the format.
unfoldable pub replace_first_brace : Bytes → Bytes × Bytes
unfolding find_brace
replace_first_brace fmt = elim (find_brace fmt) [
  | none ↦ (fmt, [])
  | some (left, right) ↦ (left, right)
]

-- FormatInto
unfoldable pub format_into : Bytes → List Bytes → Bytes
unfolding replace_first_brace
format_into fmt [] = fmt
format_into fmt (v ∷ values) =
    let (out, rest) = replace_first_brace fmt in out ++ (v ++ format_into rest values)

-- A text without an opening brace.
abbrev pub HasNoBrace : Bytes → Type 0
HasNoBrace s = All (λ c. c ≢ b'{') s

find_brace-append :
    (left right : Bytes)
    → HasNoBrace left
    → find_brace (left ++ b'{' ∷ b'}' ∷ right) ≡ some (left, right)
unfolding find_brace
find_brace-append [] right h = refl
find_brace-append (a ∷ []) right h = ground arith
find_brace-append (a ∷ b ∷ left) right h = ground (arith, find_brace-append (b ∷ left) right h.1)

find_brace-none : (s : Bytes) → HasNoBrace s → find_brace s ≡ none
unfolding find_brace
find_brace-none [] h = refl
find_brace-none (a ∷ []) h = refl
find_brace-none (a ∷ b ∷ s) h = ground (arith, find_brace-none (b ∷ s) h.1)

-- A format as its texts with a brace pair between two of them.
pub template : Bytes → List Bytes → Bytes
template first [] = first
template first (t ∷ texts) = first ++ b'{' ∷ b'}' ∷ template t texts

-- The texts with the arguments between them.
pub weave : Bytes → List Bytes → List Bytes → Bytes
weave first [] values = first
weave first (t ∷ texts) [] = first ++ b'{' ∷ b'}' ∷ template t texts
weave first (t ∷ texts) (v ∷ values) = first ++ (v ++ weave t texts values)

-- With as many arguments as brace pairs each pair is replaced by its argument, in order.
pub format_into-template :
    (first : Bytes) (texts values : List Bytes)
    → length values ≡ length texts
    → HasNoBrace first
    → All HasNoBrace texts
    → format_into (template first texts) values ≡ weave first texts values
unfolding format_into template weave
format_into-template first [] [] e h hs = refl
format_into-template first [] (v ∷ values) e h hs = absurd (omega arith)
format_into-template first (t ∷ texts) [] e h hs = absurd (omega arith)
format_into-template first (t ∷ texts) (v ∷ values) e h hs = ground (
  arith,
  find_brace-append first (template t texts) h,
  format_into-template t texts values (omega arith) hs.0 hs.1,
)

-- Arguments that are too many are written behind the text, one after another.
pub format_into_surplus :
    (fmt : Bytes) (values : List Bytes)
    → HasNoBrace fmt
    → format_into fmt values ≡ fmt ++ format_into [] values
unfolding format_into
format_into_surplus fmt [] h = sym (append-nil fmt)
format_into_surplus fmt (v ∷ values) h = ground (arith, find_brace-none fmt h)
