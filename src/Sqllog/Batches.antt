-- ===== src/Sqllog/Batches.antt =====
-- The loop of `DoCompact` (pkg/kine/logstructured/sqllog/sql.go).
use k8s_dqlite.Prelude.{
  ℕ, zero, suc, ◌-◌, ◌≤◌, ◌≡◌, refl, ap, sym, Bool, true, false, ltb, if◌then◌else◌, arith,
}
use k8s_dqlite.Exec.{M, pure, ◌>>◌}
use k8s_dqlite.Generic
use k8s_dqlite.Generic.{Config}
use k8s_dqlite.Sqllog.{batches, batch_end}

same_step :
    (b : Bool) (m k k' : M (Unit {0}))
    → (b ≡ true → k ≡ k')
    → (if b then (m >> k) else pure tt) ≡ (if b then (m >> k') else pure tt)
same_step true m k k' h = ap (λ (x : M (Unit {0})). m >> x) (h refl)
same_step false m k k' h = refl

stopped : (b : Bool) (m k : M (Unit {0})) → b ≡ false → (if b then (m >> k) else pure tt) ≡ pure tt
stopped true m k h = absurd (cc)
stopped false m k h = refl

-- With any two numbers of rounds that are no less than the revisions to go, the loop does one and the same
-- thing: it has come to its end.
pub batches_end :
    (d : Config) (fuel more start target : ℕ)
    → target - start ≤ fuel
    → target - start ≤ more
    → batches d fuel start target ≡ batches d more start target
unfolding batches
batches_end d zero zero start target p q = refl
batches_end d zero (suc more) start target p q = sym (
    stopped (ltb start target) (Generic.compact d (batch_end start target))
      (batches d more (batch_end start target) target) (ground arith))
batches_end d (suc fuel) zero start target p q =
    stopped (ltb start target) (Generic.compact d (batch_end start target))
      (batches d fuel (batch_end start target) target) (ground arith)
batches_end d (suc fuel) (suc more) start target p q =
    same_step (ltb start target) (Generic.compact d (batch_end start target)) _ _
      (λ h. batches_end d fuel more (batch_end start target) target (ground arith) (ground arith))
