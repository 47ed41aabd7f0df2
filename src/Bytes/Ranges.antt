-- ===== src/Bytes/Ranges.antt =====
-- `getPrefixRange` (pkg/kine/drivers/generic/generic.go): the half-open range of names that a prefix
-- or a key stands for.
use k8s_dqlite.Prelude.{
  ◌<◌, ◌≡◌, refl, Bool, true, false, ◌&&◌, [], ◌∷◌, ◌++◌, arith, if◌then◌else◌, ap, subst,
}
use k8s_dqlite.Bytes.{
  Bytes, same, lt_bytes, le_bytes, has_prefix, has_suffix_slash, drop_last, slash, zero_digit,
  one_byte,
}

unfoldable pub get_prefix_range : Bytes → Bytes × Bytes
unfolding has_suffix_slash drop_last
get_prefix_range prefix =
    if has_suffix_slash prefix
    then (prefix, drop_last prefix ++ zero_digit ∷ [])
    else (prefix, prefix ++ one_byte ∷ [])

-- `name >= start AND name < end`
unfoldable pub in_range : Bytes → Bytes → Bytes → Bool
unfolding le_bytes lt_bytes
in_range start stop name = le_bytes start name && lt_bytes name stop

-- Every byte is above 1: what the source calls "readable characters".
abbrev pub IsReadable : Bytes → Type 0
IsReadable [] = Unit
IsReadable (x ∷ xs) = (1 < x) × IsReadable xs

drop_last-slash : (p : Bytes) → has_suffix_slash p ≡ true → drop_last p ++ slash ∷ [] ≡ p
unfolding has_suffix_slash drop_last
drop_last-slash [] h = absurd (cc)
drop_last-slash (x ∷ []) h = ground arith
drop_last-slash (x ∷ y ∷ ys) h = ap (◌∷◌ x) (drop_last-slash (y ∷ ys) h)

slash_bounds :
    (q n : Bytes)
    → in_range (q ++ slash ∷ []) (q ++ zero_digit ∷ []) n ≡ has_prefix n (q ++ slash ∷ [])
unfolding in_range has_prefix
slash_bounds [] [] = refl
slash_bounds [] (x ∷ xs) = ground arith
slash_bounds (y ∷ q) [] = refl
slash_bounds (y ∷ q) (x ∷ xs) = ground (arith, slash_bounds q xs)

-- For a prefix that ends in a slash, the range holds exactly the names with that prefix.
pub get_prefix_range-has_prefix :
    (prefix name : Bytes)
    → has_suffix_slash prefix ≡ true
    → in_range (get_prefix_range prefix).0 (get_prefix_range prefix).1 name ≡ has_prefix name prefix
unfolding get_prefix_range
get_prefix_range-has_prefix p n h = rw h (
    let e = drop_last-slash p h in
    subst (λ (r : Bytes). in_range r (drop_last p ++ zero_digit ∷ []) n ≡ has_prefix n r) e
      (slash_bounds (drop_last p) n))

key_bounds : (k n : Bytes) → IsReadable n → in_range k (k ++ one_byte ∷ []) n ≡ same n k
unfolding in_range same
key_bounds [] [] h = refl
key_bounds [] (x ∷ xs) h = ground arith
key_bounds (y ∷ k) [] h = refl
key_bounds (y ∷ k) (x ∷ xs) h = ground (arith, key_bounds k xs h.1)

-- For a key that does not end in a slash, the only readable name in its range is the key itself.
pub get_prefix_range-same :
    (key name : Bytes)
    → has_suffix_slash key ≡ false
    → IsReadable name
    → in_range (get_prefix_range key).0 (get_prefix_range key).1 name ≡ same name key
unfolding get_prefix_range
get_prefix_range-same k n h r = rw h (key_bounds k n r)
