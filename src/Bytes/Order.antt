-- ===== src/Bytes/Order.antt =====
-- Laws of the tests on byte strings.
use k8s_dqlite.Prelude.{◌≡◌, refl, ◌≢◌, true, false, [], ◌∷◌, arith, bool_ext}
use k8s_dqlite.Bytes.{Bytes, same}

pub same→eq : (a b : Bytes) → same a b ≡ true → a ≡ b
unfolding same
same→eq [] [] h = refl
same→eq [] (y ∷ ys) h = absurd (cc)
same→eq (x ∷ xs) [] h = absurd (cc)
same→eq (x ∷ xs) (y ∷ ys) h = ground (arith, same→eq xs ys)

pub same_refl : (a : Bytes) → same a a ≡ true
unfolding same
same_refl [] = refl
same_refl (x ∷ xs) = ground (arith, same_refl xs)

pub eq→same : (a b : Bytes) → a ≡ b → same a b ≡ true
eq→same a b e = rw e (same_refl b)

pub same_sym : (a b : Bytes) → same a b ≡ same b a
unfolding same
same_sym [] [] = refl
same_sym [] (y ∷ ys) = refl
same_sym (x ∷ xs) [] = refl
same_sym (x ∷ xs) (y ∷ ys) = ground (arith, same_sym xs ys)

pub same_ne : (a b : Bytes) → a ≢ b → same a b ≡ false
same_ne a b h = bool_ext (same a b) false (λ t. absurd (h (same→eq a b t))) (λ t. absurd (cc))
