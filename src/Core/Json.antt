-- ===== src/Core/Json.antt =====
-- What the program uses of nlohmann::json, which is a parameter: `J` is the type of a document's
-- nodes, and `none` an exception.
use minimal_autosar_adaptive.Prelude.{ℕ, Bool, String, List, Option}
use minimal_autosar_adaptive.Prelude.Int.{ℤ}

pub record Json (J : Type 0) : Type 0 where
  pub is_object : J → Bool
  pub is_array : J → Bool
  -- node.contains(key), then node[key]; `none` where the key is not contained
  pub get : String → J → Option J
  -- node.at(key)
  pub at : String → J → Option J
  -- for (auto& x : node)
  pub elements : J → List J
  -- get<std::string>(), which throws where is_string() fails
  pub as_string : J → Option String
  -- the number of a node for which is_number_unsigned() holds
  pub as_unsigned : J → Option ℕ
  -- node.value(key, fallback), by the type of the fallback
  pub value_string : String → String → J → Option String
  pub value_size : String → ℕ → J → Option ℕ
  pub value_int : String → ℤ → J → Option ℤ
  pub value_bool : String → Bool → J → Option Bool
  -- get<std::uint32_t>(), get<std::uint8_t>() and get<int>(), which throw where the node is no number
  pub as_u32 : J → Option ℕ
  pub as_u8 : J → Option ℕ
  pub as_int : J → Option ℤ
