-- ===== src/Bytes.antt =====
-- Keys, prefixes and values are byte strings: lists of byte values, compared as the database compares
-- them (pkg/kine/drivers/generic/generic.go, and strings.HasPrefix and strings.HasSuffix).
pub mod Order
pub mod Ranges
use Prim.Native.Char.{code}
use k8s_dqlite.Prelude.{
  ℕ, zero, suc, String, ◌≡◌, refl, ◌↔◌, Bool, true, false, ◌&&◌, ◌||◌, List, [], ◌∷◌, ◌++◌, Option,
  arith, ltb, leb, ◌==◌, ==_iff, if◌then◌else◌, length, ap,
}

abbrev pub Bytes : Type 0
Bytes = List ℕ

-- The bytes of a text literal, which is ASCII here.
abbrev pub codes : String → Bytes
codes String.[] = []
codes (String.◌∷◌ c s) = code c ∷ codes s

abbrev pub slash : ℕ
slash = b'/'

abbrev pub zero_digit : ℕ
zero_digit = b'0'

abbrev pub one_byte : ℕ
one_byte = 1

-- Equality of texts.
unfoldable pub same : Bytes → Bytes → Bool
same [] [] = true
same [] (y ∷ ys) = false
same (x ∷ xs) [] = false
same (x ∷ xs) (y ∷ ys) = x == y && same xs ys

-- `a < b` in the order of memcmp, the BINARY collation of `kine.name`.
unfoldable pub lt_bytes : Bytes → Bytes → Bool
lt_bytes xs [] = false
lt_bytes [] (y ∷ ys) = true
lt_bytes (x ∷ xs) (y ∷ ys) = ltb x y || (x == y && lt_bytes xs ys)

-- `a <= b`.
unfoldable pub le_bytes : Bytes → Bytes → Bool
le_bytes [] ys = true
le_bytes (x ∷ xs) [] = false
le_bytes (x ∷ xs) (y ∷ ys) = ltb x y || (x == y && le_bytes xs ys)

-- strings.HasPrefix(s, prefix)
unfoldable pub has_prefix : Bytes → Bytes → Bool
has_prefix s [] = true
has_prefix [] (p ∷ ps) = false
has_prefix (x ∷ xs) (p ∷ ps) = x == p && has_prefix xs ps

-- strings.HasSuffix(s, "/")
unfoldable pub has_suffix_slash : Bytes → Bool
has_suffix_slash [] = false
has_suffix_slash (x ∷ []) = x == slash
has_suffix_slash (x ∷ y ∷ ys) = has_suffix_slash (y ∷ ys)

-- s[0:len(s)-1]
unfoldable pub drop_last : Bytes → Bytes
drop_last [] = []
drop_last (x ∷ []) = []
drop_last (x ∷ y ∷ ys) = x ∷ drop_last (y ∷ ys)
