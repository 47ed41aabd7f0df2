-- ===== src/Prelude/Lists.antt =====
-- Lists over native numbers and Boolean tests: length, slices, filter, and membership as a sum, which
-- can be taken apart into data.
use Prim.Native.Nat.{ℕ, zero, suc}
use mathlib.Core.Path.{◌≡◌, refl, sym, ap, ◌∙◌}
use mathlib.Core.Logic.{◌⊎◌, inl, inr}
use mathlib.Core.Bool.{Bool, true, false, ◌&&◌, ◌||◌}
use mathlib.Core.List.{List, [], ◌∷◌, ◌++◌, map}
use native.Mathlib.Omega.{arith}
use k8s_dqlite.Prelude.Tests.{if◌then◌else◌, Bool-cases, &&_left, &&_right, &&_intro}

module _ {ℓ} {A : Type ℓ} where
  abbrev pub length : List A → ℕ
  length [] = 0
  length (x ∷ xs) = suc (length xs)

  abbrev pub take : ℕ → List A → List A
  take zero xs = []
  take (suc n) [] = []
  take (suc n) (x ∷ xs) = x ∷ take n xs

  abbrev pub filter : (A → Bool) → List A → List A
  filter p [] = []
  filter p (x ∷ xs) = let rest = filter p xs in if p x then x ∷ rest else rest

  -- Some member, every member, passes the test.
  abbrev pub any : (A → Bool) → List A → Bool
  any p [] = false
  any p (x ∷ xs) = p x || any p xs

  abbrev pub all : (A → Bool) → List A → Bool
  all p [] = true
  all p (x ∷ xs) = p x && all p xs

module _ {A : Type 0} where
  abbrev pub In : A → List A → Type 0
  In a [] = ⊥
  In a (x ∷ xs) = (a ≡ x) ⊎ In a xs

  pub In-filter : (p : A → Bool) (a : A) (xs : List A) → In a xs → p a ≡ true → In a (filter p xs)
  In-filter p a [] m h = m
  In-filter p a (x ∷ xs) (inl e) h = rw (ap p (sym e) ∙ h) (inl e)
  In-filter p a (x ∷ xs) (inr m) h = elim (Bool-cases (p x)) [
    | inl t ↦ rw t (inr (In-filter p a xs m h))
    | inr f ↦ rw f (In-filter p a xs m h)
  ]

  head_of_filter :
      (p : A → Bool) (a x : A) (rest : List A) (b : Bool)
      → p x ≡ b
      → (In a rest → In a (x ∷ rest))
      → In a (if b then x ∷ rest else rest)
      → (a ≡ x) × (p x ≡ true) ⊎ In a rest
  head_of_filter p a x rest true e f (inl q) = inl (q, e)
  head_of_filter p a x rest true e f (inr m) = inr m
  head_of_filter p a x rest false e f m = inr m

  pub In-of_filter :
      (p : A → Bool) (a : A) (xs : List A) → In a (filter p xs) → In a xs × (p a ≡ true)
  In-of_filter p a [] m = absurd m
  In-of_filter p a (x ∷ xs) m = elim (head_of_filter p a x (filter p xs) (p x) refl inr m) [
    | inl (q, t) ↦ (inl q, ap p q ∙ t)
    | inr m' ↦ let (i, t) = In-of_filter p a xs m' in (inr i, t)
  ]

  pub In-append : (a x : A) (xs : List A) → In a (xs ++ x ∷ []) → In a xs ⊎ (a ≡ x)
  In-append a x [] (inl e) = inr e
  In-append a x [] (inr m) = elim m [ ]
  In-append a x (y ∷ ys) (inl e) = inl (inl e)
  In-append a x (y ∷ ys) (inr m) = elim (In-append a x ys m) [ inl i ↦ inl (inr i) | inr e ↦ inr e ]

  pub In-append_left : (a : A) (xs ys : List A) → In a xs → In a (xs ++ ys)
  In-append_left a [] zs m = elim m [ ]
  In-append_left a (y ∷ ys) zs (inl e) = inl e
  In-append_left a (y ∷ ys) zs (inr m) = inr (In-append_left a ys zs m)

  pub In-append_last : (x : A) (xs : List A) → In x (xs ++ x ∷ [])
  In-append_last x [] = inl refl
  In-append_last x (y ∷ ys) = inr (In-append_last x ys)

  pub any_of_In : (p : A → Bool) (a : A) (xs : List A) → In a xs → p a ≡ true → any p xs ≡ true
  any_of_In p a [] m h = elim m [ ]
  any_of_In p a (x ∷ xs) (inl e) h = rw (ap p (sym e) ∙ h) refl
  any_of_In p a (x ∷ xs) (inr m) h = ground (arith, any_of_In p a xs m h)

  pub In-of_any : (p : A → Bool) (xs : List A) → any p xs ≡ true → (a : A) × In a xs × (p a ≡ true)
  In-of_any p [] h = absurd (cc)
  In-of_any p (x ∷ xs) h = elim (Bool-cases (p x)) [
    | inl t ↦ (x, inl refl, t)
    | inr f ↦ let (a, m, t) = In-of_any p xs (ground arith) in (a, inr m, t)
  ]

  pub all-In : (p : A → Bool) (a : A) (xs : List A) → all p xs ≡ true → In a xs → p a ≡ true
  all-In p a [] h m = elim m [ ]
  all-In p a (x ∷ xs) h (inl e) = ap p e ∙ &&_left _ _ h
  all-In p a (x ∷ xs) h (inr m) = all-In p a xs (&&_right _ _ h) m

  pub all_intro : (p : A → Bool) (xs : List A) → ((a : A) → In a xs → p a ≡ true) → all p xs ≡ true
  all_intro p [] h = refl
  all_intro p (x ∷ xs) h = &&_intro _ _ (h x (inl refl)) (all_intro p xs (λ a m. h a (inr m)))

  -- Tests that agree on the members filter alike.
  pub filter_congr :
      (p q : A → Bool) (xs : List A) → ((a : A) → In a xs → p a ≡ q a) → filter p xs ≡ filter q xs
  filter_congr p q [] h = refl
  filter_congr p q (x ∷ xs) h = rw (h x (inl refl), filter_congr p q xs (λ a m. h a (inr m))) refl

  pub filter-filter :
      (p q : A → Bool) (xs : List A) → filter p (filter q xs) ≡ filter (λ a. q a && p a) xs
  filter-filter p q [] = refl
  filter-filter p q (x ∷ xs) = elim (Bool-cases (q x)) [
    | inl t ↦ rw (t, filter-filter p q xs) refl
    | inr f ↦ rw (f, filter-filter p q xs) refl
  ]

  pub In-of_take : (n : ℕ) (a : A) (xs : List A) → In a (take n xs) → In a xs
  In-of_take zero a xs m = absurd m
  In-of_take (suc n) a [] m = elim m [ ]
  In-of_take (suc n) a (x ∷ xs) (inl e) = inl e
  In-of_take (suc n) a (x ∷ xs) (inr m) = inr (In-of_take n a xs m)

pub In-of_map :
    {A B : Type 0} (f : A → B) (b : B) (xs : List A)
    → In b (map f xs)
    → (a : A) × In a xs × (b ≡ f a)
In-of_map f b [] m = elim m [ ]
In-of_map f b (x ∷ xs) (inl e) = (x, inl refl, e)
In-of_map f b (x ∷ xs) (inr m) = let (a, i, e) = In-of_map f b xs m in (a, inr i, e)

pub In-map : {A B : Type 0} (f : A → B) (a : A) (xs : List A) → In a xs → In (f a) (map f xs)
In-map f a [] m = elim m [ ]
In-map f a (x ∷ xs) (inl e) = inl (ap f e)
In-map f a (x ∷ xs) (inr m) = inr (In-map f a xs m)
