-- ===== src/Logstructured/Reads.antt =====
-- `Get`, `List` and `Count` of the backend (pkg/kine/logstructured/logstructured.go) and the table.
use k8s_dqlite.Prelude.{
  ℕ, zero, suc, ◌≡◌, refl, ◌∙◌, Bool, false, Option, none, some, List, if◌then◌else◌, length,
}
use k8s_dqlite.Bytes.{Bytes}
use k8s_dqlite.Results.{Result, ok, err, compacted}
use k8s_dqlite.Events.{KeyValue, Event}
use k8s_dqlite.Exec.{Sys, pure, raise, ◌>>=◌}
use k8s_dqlite.Exec.Keeps.{Keeps, bind-Keeps, if-Keeps}
use k8s_dqlite.Generic.{Config}
use k8s_dqlite.Sqllog
use k8s_dqlite.Sqllog.{Answer}
use k8s_dqlite.Sqllog.Reads as Log
use k8s_dqlite.Logstructured.{
  get_event, requested, first_event, listed, adjust_revision, current_or_zero, answer_get, get,
  list_within, list, list_done, out_of_fuel, relists, count, recount,
}

module _ (d : Config) where
  pub adjust-Keeps : (rev : ℕ) (s : Sys) → (adjust_revision d rev s).1.table ≡ s.table
  unfolding adjust_revision
  adjust-Keeps zero s =
      let (r, s') = Sqllog.current_revision d s in by_result r s' ∙ Log.current_revision-Keeps d s
    where
      by_result : (r : Result ℕ) (s' : Sys) → (current_or_zero (r, s')).1.table ≡ s'.table
      by_result (ok rev) s' = refl
      by_result (err e) s' = refl
  adjust-Keeps (suc rev) s = refl

  answer-Keeps : (r : Result (ℕ × Option Event)) → Keeps (answer_get d r)
  answer-Keeps (ok (rev, event)) s = adjust-Keeps rev s
  answer-Keeps (err e) s = adjust-Keeps 0 s

  event-Keeps :
      (key range_end : Bytes) (limit revision : ℕ) (deleted : Bool)
      → Keeps (get_event d key range_end limit revision deleted)
  unfolding get_event
  event-Keeps key range_end limit revision deleted =
      bind-Keeps (Sqllog.list d key range_end limit revision deleted)
        (λ answer. pure (requested revision answer.rev, first_event answer.events))
        (Log.list-Keeps d key range_end limit revision deleted) (λ answer s. refl)

  pub get-Keeps :
      (key range_end : Bytes) (limit revision : ℕ) → Keeps (get d key range_end limit revision)
  unfolding get
  get-Keeps key range_end limit revision s =
      let (r, s') = get_event d key range_end limit revision false s in
      answer-Keeps r s' ∙ event-Keeps key range_end limit revision false s

  done-Keeps :
      (revision : ℕ) (answer : Answer) → Keeps (list_done revision answer >>= λ r. pure (some r))
  done-Keeps revision answer =
      bind-Keeps (list_done revision answer) (λ r. pure (some r))
        (if-Keeps answer.is_compacted (raise compacted) (pure (listed revision answer)) (λ s. refl)
          (λ s. refl))
        (λ r s. refl)

  within-Keeps :
      (fuel : ℕ) (prefix start_key : Bytes) (limit revision : ℕ)
      → Keeps (list_within d fuel prefix start_key limit revision)
  unfolding list_within
  within-Keeps zero prefix start_key limit revision = λ s. refl
  within-Keeps (suc fuel) prefix start_key limit revision =
      let again = Sqllog.current_revision d >>= λ current.
      list_within d fuel prefix start_key limit current in
      let next = λ (answer : Answer).
        if relists revision answer
        then again
        else (list_done revision answer >>= λ r. pure (some r)) in
      bind-Keeps (Sqllog.list d prefix start_key limit revision false) next
        (Log.list-Keeps d prefix start_key limit revision false)
        λ answer.
          if-Keeps (relists revision answer) again
            (list_done revision answer >>= λ r. pure (some r))
            (bind-Keeps (Sqllog.current_revision d)
              (λ current. list_within d fuel prefix start_key limit current)
              (Log.current_revision-Keeps d)
              (λ current. within-Keeps fuel prefix start_key limit current))
            (done-Keeps revision answer)

  fuel-Keeps : (r : Option (ℕ × List KeyValue)) → Keeps (out_of_fuel r)
  fuel-Keeps none = λ s. refl
  fuel-Keeps (some r) = λ s. refl

  pub list-Keeps :
      (prefix start_key : Bytes) (limit revision : ℕ)
      → Keeps (list d prefix start_key limit revision)
  unfolding list
  list-Keeps prefix start_key limit revision =
      bind-Keeps (list_within d 2 prefix start_key limit revision) out_of_fuel
        (within-Keeps 2 prefix start_key limit revision) fuel-Keeps

  recount-Keeps : (prefix : Bytes) (answer : ℕ × ℕ) → Keeps (recount d prefix answer)
  recount-Keeps prefix (rev, zero) =
      let counted = λ (r : ℕ × List KeyValue). pure (r.0, length r.1) in
      bind-Keeps (Sqllog.current_revision d)
        (λ current. list d prefix prefix 1000 current >>= counted) (Log.current_revision-Keeps d)
        λ current.
          bind-Keeps (list d prefix prefix 1000 current) counted
            (list-Keeps prefix prefix 1000 current) (λ r s. refl)
  recount-Keeps prefix (rev, suc n) = λ s. refl

  pub count-Keeps :
      (prefix start_key : Bytes) (revision : ℕ) → Keeps (count d prefix start_key revision)
  unfolding count
  count-Keeps prefix start_key revision =
      bind-Keeps (Sqllog.count d prefix start_key revision) (recount d prefix)
        (Log.count-Keeps d prefix start_key revision) (recount-Keeps prefix)
