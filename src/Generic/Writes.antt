-- ===== src/Generic/Writes.antt =====
-- Create, Update and Delete of the dialect (pkg/kine/drivers/generic/generic.go), whichever statements the driver
-- fails to run.
use k8s_dqlite.Prelude.{ℕ, ◌-◌, ◌≡◌, refl, ap, ◌≢◌, Bool, Option, none, some}
use k8s_dqlite.Bytes.{Bytes}
use k8s_dqlite.Results.{Error, Result, ok, err}
use k8s_dqlite.Spec
use k8s_dqlite.Spec.{Store}
use k8s_dqlite.Table.{Blob, compact_rev_key, create_sql, update_sql, delete_sql}
use k8s_dqlite.Table.Invariant.{IsLog}
use k8s_dqlite.Table.Refines.{
  Refines, abstract_store, create_sql-Refines, update_sql-Refines, delete_sql-Refines,
}
use k8s_dqlite.Exec.{Sys, M, Stmt, pure, ◌>>=◌}
use k8s_dqlite.Exec.Laws.{Ends, failed, ran}
use k8s_dqlite.Generic.{Config, max_retries, inserted, translate, execute, create, update, delete}
use k8s_dqlite.Generic.Retries.{retrying-Ends}

-- A write of the store, as the layers above see it: it fails and the table is as it was, or it does
-- and answers what the operation of the abstract store does and answers.
pub data Writes (c : ℕ) (s : Sys) (spec : Option ℕ × Store) (out : Result (ℕ × Bool) × Sys)
    : Type 0 where
  refused : (e : Error) → out.0 ≡ err e → out.1.table ≡ s.table → Writes c s spec out
  wrote :
      out.0 ≡ ok (Spec.answer spec.0)
      → abstract_store out.1.table ≡ spec.1
      → IsLog c out.1.table
      → Writes c s spec out

-- RowsAffected and LastInsertId tell the caller what the abstract operation answers.
inserted-answer : (o : Option ℕ) → inserted o ≡ Spec.answer o
inserted-answer none = refl
inserted-answer (some id) = refl

module _ {c : ℕ} (d : Config) (s : Sys) (stmt : Stmt (Option ℕ)) (spec : Option ℕ × Store)
    (refines : Refines c (stmt s.table) spec) where
  abbrev answered : M (ℕ × Bool)
  answered = execute d stmt >>= λ row. pure (inserted row)

  execute-Ends : Ends stmt s (execute d stmt s)
  unfolding execute
  execute-Ends = retrying-Ends d "exec" stmt (max_retries - 1) 0 s spec.0 refines.0

  answered-Writes : Writes c s spec (answered s)
  answered-Writes = elim execute-Ends [
    | failed e rest p ↦ rw p (refused e refl refl)
    | ran rest p ↦ rw (p, refines.0) (wrote (ap ok (inserted-answer spec.0)) refines.1 refines.2)
  ]

pub translate-Writes :
    (c : ℕ) (s : Sys) (spec : Option ℕ × Store) (f : Option (Error → Error)) (r : Result (ℕ × Bool))
    (s' : Sys)
    → Writes c s spec (r, s')
    → Writes c s spec (translate f (r, s'))
translate-Writes c s spec f (ok a) s' h = h
translate-Writes c s spec none (err e) s' h = h
translate-Writes c s spec (some f) (err e) s' (refused x p q) = refused (f e) refl q
translate-Writes c s spec (some f) (err e) s' (wrote p q l) = absurd (cc)

module _ {c : ℕ} (d : Config) (s : Sys) (l : IsLog c s.table) (key : Bytes)
    (user : key ≢ compact_rev_key) where
  pub create-Writes :
      (value : Blob) (ttl : ℕ)
      → Writes c s (Spec.create key ttl value (abstract_store s.table)) (create d key value ttl s)
  unfolding create
  create-Writes value ttl =
      let spec = Spec.create key ttl value (abstract_store s.table) in
      let h =
        answered-Writes d s (create_sql key ttl value) spec
          (create_sql-Refines l key ttl value user) in
      let out =
        answered d s (create_sql key ttl value) spec (create_sql-Refines l key ttl value user) s in
      translate-Writes c s spec d.translate_err out.0 out.1 h

  pub update-Writes :
      (value : Blob) (prev ttl : ℕ)
      → Writes c s
          (Spec.update key ttl value prev (abstract_store s.table))
          (update d key value prev ttl s)
  unfolding update
  update-Writes value prev ttl =
      let spec = Spec.update key ttl value prev (abstract_store s.table) in
      let stmt = update_sql key ttl value prev in
      let refines = update_sql-Refines l key ttl value user prev in
      let out = answered d s stmt spec refines s in
      translate-Writes c s spec d.translate_err out.0 out.1 (answered-Writes d s stmt spec refines)

  pub delete-Writes :
      (prev : ℕ) → Writes c s (Spec.delete key prev (abstract_store s.table)) (delete d key prev s)
  unfolding delete
  delete-Writes prev =
      answered-Writes d s (delete_sql key prev) (Spec.delete key prev (abstract_store s.table))
        (delete_sql-Refines l key user prev)
