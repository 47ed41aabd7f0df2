-- ===== src/Sqllog/Reads.antt =====
-- The reads of the log (pkg/kine/logstructured/sqllog/sql.go) and the table.
use k8s_dqlite.Prelude.{ℕ, zero, suc, refl, Bool, List, arith}
use k8s_dqlite.Bytes.{Bytes}
use k8s_dqlite.Table.{Row}
use k8s_dqlite.Events.{Event, rows_to_events}
use k8s_dqlite.Exec.{◌>>=◌}
use k8s_dqlite.Exec.Keeps.{Keeps, bind-Keeps, if-Keeps}
use k8s_dqlite.Generic
use k8s_dqlite.Generic.{Config}
use k8s_dqlite.Generic.Reads.{
  get_compact_revision-Keeps, list_current-Keeps, list-Keeps as generic_list-Keeps,
  count_current-Keeps, count-Keeps as generic_count-Keeps,
  current_revision-Keeps as generic_current-Keeps,
}
use k8s_dqlite.Sqllog.{
  notify_watcher_poll, list, list_rows, list_start, list_answer, count, current_revision,
  below_compact,
}

pub notify-Keeps : (rev : ℕ) → Keeps (notify_watcher_poll rev)
unfolding notify_watcher_poll
notify-Keeps rev s = ground arith

module _ (d : Config) where
  rows-Keeps :
      (prefix start_key : Bytes) (limit revision : ℕ) (deleted : Bool)
      → Keeps (list_rows d prefix start_key limit revision deleted)
  rows-Keeps prefix start_key limit zero deleted =
      list_current-Keeps d prefix start_key limit deleted
  rows-Keeps prefix start_key limit (suc revision) deleted =
      generic_list-Keeps d prefix start_key limit (suc revision) deleted

  answer-Keeps :
      (revision : ℕ) (events : List Event) (interval : ℕ × ℕ)
      → Keeps (list_answer revision events interval)
  answer-Keeps revision events (compact, rev) =
      if-Keeps (below_compact revision compact) _ _ (λ s. refl)
        (bind-Keeps (notify_watcher_poll rev) _ (notify-Keeps rev) (λ u s. refl))

  pub list-Keeps :
      (prefix start_key : Bytes) (limit revision : ℕ) (deleted : Bool)
      → Keeps (list d prefix start_key limit revision deleted)
  unfolding list
  list-Keeps prefix start_key limit revision deleted =
      let next = λ (rows : List Row).
        Generic.get_compact_revision d >>= list_answer revision (rows_to_events rows) in
      bind-Keeps (list_rows d prefix (list_start prefix start_key) limit revision deleted) next
        (rows-Keeps prefix (list_start prefix start_key) limit revision deleted)
        λ rows.
          bind-Keeps (Generic.get_compact_revision d) (list_answer revision (rows_to_events rows))
            (get_compact_revision-Keeps d) (answer-Keeps revision (rows_to_events rows))

  pub count-Keeps :
      (prefix start_key : Bytes) (revision : ℕ) → Keeps (count d prefix start_key revision)
  unfolding count
  count-Keeps prefix start_key zero = count_current-Keeps d prefix start_key
  count-Keeps prefix start_key (suc revision) =
      generic_count-Keeps d prefix start_key (suc revision)

  pub current_revision-Keeps : Keeps (current_revision d)
  unfolding current_revision
  current_revision-Keeps = generic_current-Keeps d
