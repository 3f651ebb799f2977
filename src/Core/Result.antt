-- ===== src/Core/Result.antt =====
-- include/ara/core/result.hpp: the error codes and Result<T>. Result<void> is `Result Unit`.
use minimal_autosar_adaptive.Prelude.{Bool, true, false, Option, none, some}

pub data PersistencyErrc : Type 0 where
  success not_found quota_exceeded corruption permission_denied unknown : PersistencyErrc

pub data Result {ℓ} (A : Type ℓ) : Type ℓ where
  ok : A → Result A
  err : PersistencyErrc → Result A

module _ {ℓ} {A : Type ℓ} where
  unfoldable pub has_value : Result A → Bool
  has_value (ok a) = true
  has_value (err e) = false

  -- `none` where std::get throws.
  unfoldable pub value : Result A → Option A
  value (ok a) = some a
  value (err e) = none

-- The T of Result<void>.
abbrev pub Void : Type 0
Void = Unit {0}
