-- ===== src/Generic/Reads.antt =====
-- The queries of the dialect (pkg/kine/drivers/generic/generic.go) and the table.
use k8s_dqlite.Prelude.{ℕ, ◌-◌, ◌≡◌, refl, ap, Bool, Option, none, some}
use k8s_dqlite.Bytes.{Bytes}
use k8s_dqlite.Results.{ok, null_scan}
use k8s_dqlite.Table.{Table, revision_interval, max_id}
use k8s_dqlite.Exec.{Sys}
use k8s_dqlite.Exec.Gives.{Gives}
use k8s_dqlite.Exec.Laws.{failed, ran}
use k8s_dqlite.Exec.Keeps.{Keeps, bind-Keeps, pure-Keeps, raise-Keeps}
use k8s_dqlite.Generic.{
  Config, max_retries, scan_int, query, get_compact_revision, list_current, list, count_current,
  count, current_revision, after_prefix,
}
use k8s_dqlite.Generic.Retries.{retrying-Ends}

-- What a query gives is what it reads of the table.
abbrev pub IsRead : {A : Type 0} → (Table → A) → Table → A → Sys → Type 0
IsRead read t a s = (a ≡ read t) × (s.table ≡ t)

module _ (d : Config) where
  pub query-Gives :
      {A : Type 0} (read : Table → A) (s : Sys) → Gives (IsRead read s.table) (query d read s)
  unfolding query
  query-Gives read s =
      elim (retrying-Ends d "query" (λ t. (ok (read t), t)) (max_retries - 1) 0 s (read s.table)
        refl) [ failed e rest p ↦ rw p tt | ran rest p ↦ rw p (refl, refl) ]

  pub query-Keeps : {A : Type 0} (read : Table → A) → Keeps (query d read)
  unfolding query
  query-Keeps read s =
      elim (retrying-Ends d "query" (λ t. (ok (read t), t)) (max_retries - 1) 0 s (read s.table)
        refl) [
          | failed e rest p ↦ ap (λ out. out.1.table) p
          | ran rest p ↦ ap (λ out. out.1.table) p
        ]

  pub get_compact_revision-Keeps : Keeps (get_compact_revision d)
  unfolding get_compact_revision
  get_compact_revision-Keeps = query-Keeps revision_interval

  pub list_current-Keeps :
      (prefix start_key : Bytes) (limit : ℕ) (deleted : Bool)
      → Keeps (list_current d prefix start_key limit deleted)
  unfolding list_current
  list_current-Keeps prefix start_key limit deleted = query-Keeps _

  pub list-Keeps :
      (prefix start_key : Bytes) (limit revision : ℕ) (deleted : Bool)
      → Keeps (list d prefix start_key limit revision deleted)
  unfolding list
  list-Keeps prefix start_key limit revision deleted = query-Keeps _

  pub count_current-Keeps : (prefix start_key : Bytes) → Keeps (count_current d prefix start_key)
  unfolding count_current
  count_current-Keeps prefix start_key = query-Keeps _

  pub count-Keeps :
      (prefix start_key : Bytes) (revision : ℕ) → Keeps (count d prefix start_key revision)
  unfolding count
  count-Keeps prefix start_key revision = query-Keeps _

  pub after_prefix-Keeps :
      (prefix : Bytes) (rev limit : ℕ) → Keeps (after_prefix d prefix rev limit)
  unfolding after_prefix
  after_prefix-Keeps prefix rev limit = query-Keeps _

  pub current_revision-Keeps : Keeps (current_revision d)
  unfolding current_revision
  current_revision-Keeps = bind-Keeps _ _ (query-Keeps (λ t. max_id t.rows)) scanned
    where
      scanned : (id : Option ℕ) → Keeps (scan_int id)
      scanned none = raise-Keeps ℕ null_scan
      scanned (some id) = pure-Keeps id
