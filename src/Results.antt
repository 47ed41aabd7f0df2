-- ===== src/Results.antt =====
-- Errors as values: the error constants of pkg/kine/server/types.go, the errors that the database
-- driver returns, and those that the code wraps or makes by fmt.Errorf.
use k8s_dqlite.Prelude.{ℕ, String}

-- `fault n` is any driver error other than the two constraint violations, by a number.
pub data Error : Type 0 where
  compacted key_exists no_rows null_scan : Error
  unique_constraint primary_key_constraint : Error
  fault : ℕ → Error
  wrapped : String → ℕ → Error → Error
  message : String → Error
  caused : String → Error → Error

pub data Result {ℓ} (A : Type ℓ) : Type ℓ where
  ok : A → Result A
  err : Error → Result A
