-- ===== src/Drivers/Schema.antt =====
-- Versions of the schema (pkg/kine/drivers/sqlite/schema.go). An int16 or an int32 is its bit pattern, a
-- number below 2 ^ 16 or 2 ^ 32.
use k8s_dqlite.Prelude.{
  ℕ, ◌+◌, ◌*◌, ◌/◌, ◌%◌, ◌^◌, ◌-◌, ◌<◌, ◌≡◌, ◌∙◌, Bool, arith, ltb, leb, ◌==◌, if◌then◌else◌,
}
use k8s_dqlite.Prelude.Bits.{bit_or, shifted, or_shifted}
use k8s_dqlite.Results.{Result, ok, err, message}

-- int32 of an int16.
abbrev pub widened : ℕ → ℕ
widened x = if ltb x (2 ^ 15) then x else x + (2 ^ 32 - 2 ^ 16)

-- `>> 16` of an int32, which keeps the sign.
abbrev pub shifted_down : ℕ → ℕ
shifted_down x = if ltb x (2 ^ 31) then x / 2 ^ 16 else x / 2 ^ 16 + (2 ^ 32 - 2 ^ 16)

unfoldable pub new_schema_version : ℕ → ℕ → ℕ
new_schema_version major minor = bit_or (widened major * 2 ^ 16 % 2 ^ 32) (widened minor)

unfoldable pub major : ℕ → ℕ
major version = shifted_down version % 2 ^ 16

unfoldable pub minor : ℕ → ℕ
minor version = version % 2 ^ 16

unfoldable pub compatible_with : ℕ → ℕ → Result (Unit {0})
unfolding major
compatible_with version target =
    if major version == major target
    then ok tt
    else err (message "can not migrate between different major versions")

abbrev pub database_schema_version : ℕ
unfolding new_schema_version
database_schema_version = new_schema_version 0 1

-- `>=` of two int32.
abbrev pub at_least : ℕ → ℕ → Bool
at_least x y = leb ((y + 2 ^ 31) % 2 ^ 32) ((x + 2 ^ 31) % 2 ^ 32)

widened_high : (a : ℕ) → a < 2 ^ 16 → widened a * 2 ^ 16 % 2 ^ 32 ≡ shifted 16 a
widened_high a h = ground arith

-- Where the minor number is not negative, the two numbers stand side by side.
new_schema_version_sum :
    (a b : ℕ) → a < 2 ^ 16 → b < 2 ^ 15 → new_schema_version a b ≡ a * 2 ^ 16 + b
unfolding new_schema_version
new_schema_version_sum a b p q =
    let w : widened b ≡ b = ground arith in
    rw (w, widened_high a p) (or_shifted 16 a b (omega (arith, q)) ∙ omega arith)

-- A version of a major number and a minor one that is not negative has these two numbers, whatever the sign
-- of the major.
pub new_schema_version_parts :
    (a b : ℕ)
    → a < 2 ^ 16
    → b < 2 ^ 15
    → (major (new_schema_version a b) ≡ a) × (minor (new_schema_version a b) ≡ b)
unfolding major minor
new_schema_version_parts a b p q = rw (new_schema_version_sum a b p q) (ground arith, omega arith)
