-- ===== src/Examples/Documents.antt =====
-- Documents of a few shapes, as an instance of the JSON interface.
use minimal_autosar_adaptive.Prelude.{
  ℕ, ◌%◌, ◌^◌, Bool, true, false, string_eq, ◌==◌, String, List, [], ◌∷◌, Option, none, some,
  if◌then◌else◌,
}
use minimal_autosar_adaptive.Prelude.Table.{Table, lookup}
use minimal_autosar_adaptive.Prelude.Int.{ℤ, pos}
use minimal_autosar_adaptive.Core.Json.{Json}

pub data Scalar : Type 0 where
  text : String → Scalar
  size : ℕ → Scalar
  flag : Bool → Scalar

pub data Doc : Type 0 where
  scalar : Scalar → Doc
  object : Table String Scalar → Doc
  array : List (Table String Scalar) → Doc
  document : String → List (Table String Scalar) → Doc
  part : Table String (Table String Scalar) → Doc
  whole : Table String (Table String (Table String Scalar)) → Doc

abbrev pub docs_of : List (Table String Scalar) → List Doc
docs_of [] = []
docs_of (t ∷ ts) = object t ∷ docs_of ts

abbrev pub scalar_of : Option Scalar → Option Doc
scalar_of none = none
scalar_of (some s) = some (scalar s)

abbrev pub object_or_none : Option (Table String Scalar) → Option Doc
object_or_none none = none
object_or_none (some t) = some (object t)

abbrev pub part_or_none : Option (Table String (Table String Scalar)) → Option Doc
part_or_none none = none
part_or_none (some t) = some (part t)

abbrev pub doc_at : String → Doc → Option Doc
doc_at key (object t) = scalar_of (lookup key t)
doc_at key (document k ts) = if key == k then some (array ts) else none
doc_at key (part t) = object_or_none (lookup key t)
doc_at key (whole t) = part_or_none (lookup key t)
doc_at key _ = none

abbrev pub doc_elements : Doc → List Doc
doc_elements (array ts) = docs_of ts
doc_elements _ = []

abbrev pub text_of : Doc → Option String
text_of (scalar (text s)) = some s
text_of _ = none

abbrev pub size_of_doc : Doc → Option ℕ
size_of_doc (scalar (size n)) = some n
size_of_doc _ = none

abbrev pub flag_of : Doc → Option Bool
flag_of (scalar (flag b)) = some b
flag_of _ = none

abbrev pub word_of : ℕ → Doc → Option ℕ
word_of bound (scalar (size n)) = some (n % bound)
word_of bound _ = none

-- Small sizes only.
abbrev pub int_of : Doc → Option ℤ
int_of (scalar (size n)) = some (pos n)
int_of _ = none

-- The value under a key of an object, or the fallback.
abbrev pub or_fallback : {A : Type 0} → (Doc → Option A) → String → A → Doc → Option A
or_fallback get key fallback (object t) = elim (scalar_of (lookup key t)) [
  | none ↦ some fallback
  | some v ↦ get v
]
or_fallback get key fallback _ = none

abbrev pub is_object_doc : Doc → Bool
is_object_doc (object t) = true
is_object_doc (document k ts) = true
is_object_doc (part t) = true
is_object_doc (whole t) = true
is_object_doc _ = false

abbrev pub is_array_doc : Doc → Bool
is_array_doc (array ts) = true
is_array_doc _ = false

abbrev pub docs : Json Doc
docs = record {
  is_object = is_object_doc;
  is_array = is_array_doc;
  get = doc_at;
  at = doc_at;
  elements = doc_elements;
  as_string = text_of;
  as_unsigned = size_of_doc;
  value_string = or_fallback text_of;
  value_size = or_fallback size_of_doc;
  value_int = λ key fallback d. some fallback;
  value_bool = or_fallback flag_of;
  as_u32 = word_of (2 ^ 32);
  as_u8 = word_of (2 ^ 8);
  as_int = int_of;
}
