-- ===== src/Sqllog/Rows.antt =====
-- The events that `List` returns (pkg/kine/logstructured/sqllog/sql.go), as rows of the table.
use k8s_dqlite.Prelude.{ℕ, zero, suc, ◌≡◌, refl, ◌∙◌, Bool, Option, none, some, List}
use k8s_dqlite.Bytes.{Bytes}
use k8s_dqlite.Bytes.Ranges.{get_prefix_range}
use k8s_dqlite.Table.{Table, Row, revision_interval}
use k8s_dqlite.Table.Select.{list_sql}
use k8s_dqlite.Events.{Event, rows_to_events}
use k8s_dqlite.Exec.{Sys}
use k8s_dqlite.Exec.Gives.{Gives, bind-Gives, if-Gives}
use k8s_dqlite.Generic
use k8s_dqlite.Generic.{Config, start_after}
use k8s_dqlite.Generic.Reads.{IsRead, query-Gives}
use k8s_dqlite.Sqllog.{
  Answer, notify_watcher_poll, list, list_rows, list_start, list_answer, below_compact,
}
use k8s_dqlite.Sqllog.Reads.{notify-Keeps}

-- 0 stands for the current state.
abbrev pub at_revision : ℕ → Option ℕ
at_revision zero = none
at_revision (suc revision) = some (suc revision)

-- The rows that List reads.
abbrev pub rows_of : Bytes → Bytes → ℕ → ℕ → Bool → Table → List Row
rows_of prefix start_key limit revision deleted =
    list_sql (start_after (get_prefix_range prefix).0 (list_start prefix start_key))
      (get_prefix_range prefix).1 (at_revision revision) deleted limit

abbrev pub HasEvents : List Event → Table → Answer → Sys → Type 0
HasEvents events t answer s = (answer.events ≡ events) × (s.table ≡ t)

module _ (d : Config) where
  list_rows-Gives :
      (prefix start_key : Bytes) (limit revision : ℕ) (deleted : Bool) (s : Sys)
      → Gives
          (IsRead (rows_of prefix start_key limit revision deleted) s.table)
          (list_rows d prefix (list_start prefix start_key) limit revision deleted s)
  unfolding Generic.list_current Generic.list
  list_rows-Gives prefix start_key limit zero deleted s =
      query-Gives d (rows_of prefix start_key limit zero deleted) s
  list_rows-Gives prefix start_key limit (suc revision) deleted s =
      query-Gives d (rows_of prefix start_key limit (suc revision) deleted) s

  list_answer-Gives :
      (revision : ℕ) (events : List Event) (t : Table) (interval : ℕ × ℕ) (s : Sys)
      → s.table ≡ t
      → Gives (HasEvents events t) (list_answer revision events interval s)
  list_answer-Gives revision events t (compact, rev) s h =
      if-Gives (HasEvents events t) (below_compact revision compact) _ _ s (λ b. (refl, h))
        λ b.
          bind-Gives (λ u s'. s'.table ≡ t) (HasEvents events t) (notify_watcher_poll rev) _ s
            (sent (notify_watcher_poll rev s) (notify-Keeps rev s ∙ h)) (λ u s' k. (refl, k))
    where
      sent :
          (out : k8s_dqlite.Results.Result (Unit {0}) × Sys)
          → out.1.table ≡ t
          → Gives (λ u s'. s'.table ≡ t) out
      sent (k8s_dqlite.Results.ok u, s') k = k
      sent (k8s_dqlite.Results.err e, s') k = tt

  -- The events of List, where it ends without an error, or with ErrCompacted, are those of the rows it reads.
  pub list-Gives :
      (prefix start_key : Bytes) (limit revision : ℕ) (deleted : Bool) (s : Sys)
      → Gives
          (HasEvents
            (rows_to_events (rows_of prefix start_key limit revision deleted s.table))
            s.table)
          (list d prefix start_key limit revision deleted s)
  unfolding list Generic.get_compact_revision
  list-Gives prefix start_key limit revision deleted s =
      let t = s.table in
      let events = rows_to_events (rows_of prefix start_key limit revision deleted t) in
      bind-Gives (IsRead (rows_of prefix start_key limit revision deleted) t) (HasEvents events t)
        (list_rows d prefix (list_start prefix start_key) limit revision deleted) _ s
        (list_rows-Gives prefix start_key limit revision deleted s)
        λ rows s' h.
          bind-Gives (IsRead revision_interval s'.table) (HasEvents events t)
            (Generic.get_compact_revision d) _ s' (query-Gives d revision_interval s')
            λ interval s'' k. rw h.0 (list_answer-Gives revision events t interval s'' (k.1 ∙ h.1))
