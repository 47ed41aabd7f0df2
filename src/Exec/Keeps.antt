-- ===== src/Exec/Keeps.antt =====
-- Operations that leave the table as it is, whatever the driver does: reads.
use k8s_dqlite.Prelude.{◌≡◌, refl, ◌∙◌, Bool, true, false, if◌then◌else◌}
use k8s_dqlite.Results.{Error, Result, ok, err}
use k8s_dqlite.Exec.{Sys, M, pure, raise, continue, ◌>>=◌}

abbrev pub Keeps : {A : Type 0} → M A → Type 0
Keeps m = (s : Sys) → (m s).1.table ≡ s.table

module _ {A B : Type 0} where
  continue-Keeps :
      (f : A → M B)
      → ((a : A) → Keeps (f a))
      → (r : Result A) (s : Sys) → (continue r f s).1.table ≡ s.table
  continue-Keeps f k (ok a) s = k a s
  continue-Keeps f k (err e) s = refl

  pub bind-Keeps : (m : M A) (f : A → M B) → Keeps m → ((a : A) → Keeps (f a)) → Keeps (m >>= f)
  bind-Keeps m f h k s = let (r, s') = m s in continue-Keeps f k r s' ∙ h s

module _ {A : Type 0} where
  pub pure-Keeps : (a : A) → Keeps (pure a)
  pure-Keeps a s = refl

  pub if-Keeps : (b : Bool) (m n : M A) → Keeps m → Keeps n → Keeps (if b then m else n)
  if-Keeps true m n h k = h
  if-Keeps false m n h k = k

pub raise-Keeps : (A : Type 0) (e : Error) → Keeps (raise {A = A} e)
raise-Keeps A e s = refl
