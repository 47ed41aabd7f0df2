-- ===== src/Logstructured/Writes.antt =====
-- The writes of the whole backend (pkg/kine/logstructured/logstructured.go over
-- pkg/kine/logstructured/sqllog/sql.go), against the abstract store.
use k8s_dqlite.Prelude.{ℕ, ◌≡◌, refl, ap, ◌∙◌, ◌≢◌, Bool, true, false, Option, arith}
use k8s_dqlite.Bytes.{Bytes}
use k8s_dqlite.Results.{Result, ok, err}
use k8s_dqlite.Spec
use k8s_dqlite.Spec.{Store}
use k8s_dqlite.Table.{Blob, compact_rev_key}
use k8s_dqlite.Table.Invariant.{IsLog}
use k8s_dqlite.Table.Refines.{abstract_store}
use k8s_dqlite.Exec.{Sys, pure, continue}
use k8s_dqlite.Generic
use k8s_dqlite.Generic.{Config, inserted}
use k8s_dqlite.Generic.Writes.{Writes, refused, wrote, create-Writes, update-Writes, delete-Writes}
use k8s_dqlite.Sqllog
use k8s_dqlite.Sqllog.{notify_if, notify_watcher_poll, notify_capacity}
use k8s_dqlite.Logstructured.{create, update, delete}

-- The send on `notify` leaves the table alone.
table-notify : (rev : ℕ) (s : Sys) → (notify_watcher_poll rev s).1.table ≡ s.table
unfolding notify_watcher_poll
table-notify rev s = ground arith

result-notify : (rev : ℕ) (s : Sys) → (notify_watcher_poll rev s).0 ≡ ok tt
unfolding notify_watcher_poll
result-notify rev s = ground arith

notified :
    (rev : ℕ) (r : Result (Unit {0})) (s' : Sys)
    → r ≡ ok tt
    → continue {B = ℕ × Bool} r (λ _. pure (rev, true)) s' ≡ (ok (rev, true), s')
notified rev (ok _) s' e = refl
notified rev (err x) s' e = absurd (cc)

notify_if-keeps :
    (c : ℕ) (s : Sys) (spec : Option ℕ × Store) (r : Result (ℕ × Bool)) (s' : Sys)
    → Writes c s spec (r, s')
    → Writes c s spec (continue r notify_if s')
notify_if-keeps c s spec (ok (rev, false)) s' h = h
notify_if-keeps c s spec (err e) s' h = h
notify_if-keeps c s spec (ok (rev, true)) s' (refused x p q) = absurd (cc)
notify_if-keeps c s spec (ok (rev, true)) s' (wrote p q l) =
    let (r, s'') = notify_watcher_poll rev s' in
    let t : s''.table ≡ s'.table = table-notify rev s' in
    rw (notified rev r s'' (result-notify rev s')) (wrote p (ap abstract_store t ∙ q) (rw t l))

module _ {c : ℕ} (d : Config) (s : Sys) (l : IsLog c s.table) (key : Bytes)
    (user : key ≢ compact_rev_key) where
  -- On a log, for a key other than compact_rev_key, and whichever statements the driver fails to run, where
  -- RowsAffected and LastInsertId of one that ran do not fail: Create of the backend ends with an error and
  -- the table as it was, or with the store of the abstract create, on a log again, and answers its new
  -- revision and true where it took effect, and revision 0 and false where not.
  pub create-refines :
      (value : Blob) (lease : ℕ)
      → Writes c s
          (Spec.create key lease value (abstract_store s.table))
          (create d key value lease s)
  unfolding create Sqllog.create
  create-refines value lease =
      let (r, s') = Generic.create d key value lease s in
      notify_if-keeps c s (Spec.create key lease value (abstract_store s.table)) r s'
        (create-Writes d s l key user value lease)

  -- On a log, for a key other than compact_rev_key, and whichever statements the driver fails to run, where
  -- RowsAffected and LastInsertId of one that ran do not fail: Update of the backend ends with an error and
  -- the table as it was, or with the store of the abstract update, on a log again, and answers its new
  -- revision and true where it took effect, and revision 0 and false where not.
  pub update-refines :
      (value : Blob) (revision lease : ℕ)
      → Writes c s
          (Spec.update key lease value revision (abstract_store s.table))
          (update d key value revision lease s)
  unfolding update Sqllog.update
  update-refines value revision lease =
      let (r, s') = Generic.update d key value revision lease s in
      notify_if-keeps c s (Spec.update key lease value revision (abstract_store s.table)) r s'
        (update-Writes d s l key user value revision lease)

  -- On a log, for a key other than compact_rev_key, and whichever statements the driver fails to run, where
  -- RowsAffected and LastInsertId of one that ran do not fail: Delete of the backend ends with an error and
  -- the table as it was, or with the store of the abstract delete, on a log again, and answers its new
  -- revision and true where it took effect, and revision 0 and false where not.
  pub delete-refines :
      (revision : ℕ)
      → Writes c s (Spec.delete key revision (abstract_store s.table)) (delete d key revision s)
  unfolding delete Sqllog.delete
  delete-refines revision =
      let (r, s') = Generic.delete d key revision s in
      notify_if-keeps c s (Spec.delete key revision (abstract_store s.table)) r s'
        (delete-Writes d s l key user revision)
