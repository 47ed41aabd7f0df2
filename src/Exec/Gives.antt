-- ===== src/Exec/Gives.antt =====
-- What holds of the value and of the state that an operation ends with, where it ends without an error.
use k8s_dqlite.Prelude.{◌≡◌, refl, Bool, true, false, if◌then◌else◌}
use k8s_dqlite.Results.{Result, ok, err}
use k8s_dqlite.Exec.{Sys, M, continue, ◌>>=◌}

abbrev pub Gives : {A : Type 0} → (A → Sys → Type 0) → Result A × Sys → Type 0
Gives Q (ok a, s) = Q a s
Gives Q (err e, s) = Unit

module _ {A B : Type 0} (P : A → Sys → Type 0) (Q : B → Sys → Type 0) where
  continue-Gives :
      (f : A → M B)
      → ((a : A) (s : Sys) → P a s → Gives Q (f a s))
      → (r : Result A) (s : Sys) → Gives P (r, s)
      → Gives Q (continue r f s)
  continue-Gives f h (ok a) s p = h a s p
  continue-Gives f h (err e) s p = tt

  -- A computation and what follows it.
  pub bind-Gives :
      (m : M A) (f : A → M B) (s : Sys)
      → Gives P (m s)
      → ((a : A) (s' : Sys) → P a s' → Gives Q (f a s'))
      → Gives Q ((m >>= f) s)
  bind-Gives m f s p h = let (r, s') = m s in continue-Gives f h r s' p

module _ {A : Type 0} (P Q : A → Sys → Type 0) where
  pub map-Gives :
      (out : Result A × Sys) → ((a : A) (s : Sys) → P a s → Q a s) → Gives P out → Gives Q out
  map-Gives (ok a, s) h p = h a s p
  map-Gives (err e, s) h p = tt

module _ {A : Type 0} (Q : A → Sys → Type 0) where
  pub if-Gives :
      (b : Bool) (m n : M A) (s : Sys)
      → (b ≡ true → Gives Q (m s))
      → (b ≡ false → Gives Q (n s))
      → Gives Q ((if b then m else n) s)
  if-Gives true m n s h k = h refl
  if-Gives false m n s h k = k refl
