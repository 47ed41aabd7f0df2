-- ===== src/Tests/Tables.antt =====
-- Witnesses for the table: the log, its compaction and the ranges of names.
use k8s_dqlite.Prelude.{◌≡◌, refl, true, false, some, [], ◌∷◌, arith, ◌≤◌}
use k8s_dqlite.Bytes.{codes, has_prefix, same, has_suffix_slash}
use k8s_dqlite.Bytes.Ranges.{
  IsReadable, get_prefix_range, in_range, get_prefix_range-has_prefix, get_prefix_range-same,
}
use k8s_dqlite.Results.{Error, ok, err, wrapped}
use k8s_dqlite.Table.{
  latest, insert, place, create_sql, update_sql, delete_sql, compact_rev_key, revision_interval,
}
use k8s_dqlite.Table.Invariant.{IsLog}
use k8s_dqlite.Table.Select.{list_sql}
use k8s_dqlite.Table.Compacted.{compacted, compacted-IsLog}
use k8s_dqlite.Table.Snapshot.{list_sql-compacted}
use k8s_dqlite.Table.Refines.{abstract_store}
use k8s_dqlite.Table.Unchanged.{abstract_store-compacted}
use k8s_dqlite.Exec.{run}
use k8s_dqlite.Generic
use k8s_dqlite.Generic.{retrying, compact}
use k8s_dqlite.Generic.Retries.{failing, retrying_recovers, retrying_exhausted}
use k8s_dqlite.Generic.Compacts.{Atomic, compact-Atomic, compact_unseen}
use k8s_dqlite.Sqllog.{batches}
use k8s_dqlite.Sqllog.Batches.{batches_end}
use k8s_dqlite.Tests.{pod, t5, t5-IsLog, interval_t5, busy, shaky}

seq_t5 : 4 ≤ t5.seq
unfolding create_sql update_sql delete_sql latest insert place same
seq_t5 = omega arith

high_t5 : 5 ≤ t5.seq
unfolding create_sql update_sql delete_sql latest insert place same
high_t5 = omega arith

apart : in_range (codes "/pods/") (codes "/pods0") compact_rev_key ≡ false
unfolding in_range
apart = refl

pods_slash : has_suffix_slash (codes "/pods/") ≡ true
unfolding has_suffix_slash
pods_slash = refl

pod_slash : has_suffix_slash pod ≡ false
unfolding has_suffix_slash
pod_slash = refl

pod-IsReadable : IsReadable pod
pod-IsReadable = (
  omega arith,
  (omega arith, (omega arith, (omega arith, (omega arith, (omega arith, (omega arith, tt)))))),
)

compacted-IsLog_example : IsLog 4 (compacted 0 4 t5)
compacted-IsLog_example = compacted-IsLog 0 4 t5-IsLog (omega arith) seq_t5

list_sql-compacted_example :
    list_sql (codes "/pods/") (codes "/pods0") (some 4) false 10 (compacted 0 4 t5)
    ≡ list_sql (codes "/pods/") (codes "/pods0") (some 4) false 10 t5
list_sql-compacted_example =
    list_sql-compacted 0 4 t5-IsLog (omega arith) seq_t5 (codes "/pods/") (codes "/pods0") (some 4)
      (omega arith) apart 10

abstract_store-compacted_example : abstract_store (compacted 0 4 t5) ≡ abstract_store t5
abstract_store-compacted_example = abstract_store-compacted 0 4 t5-IsLog (omega arith) seq_t5

compact-Atomic_example : Atomic 0 4 t5 (compact busy 4 shaky)
compact-Atomic_example = compact-Atomic busy 4 shaky t5-IsLog interval_t5 (omega arith) high_t5 refl

compact_unseen_example : abstract_store (compact busy 4 shaky).1.table ≡ abstract_store t5
compact_unseen_example = compact_unseen busy 4 shaky t5-IsLog interval_t5 (omega arith) high_t5

retrying_recovers_example :
    retrying busy "query" 2 0
      (λ t. (ok (revision_interval t), t))
      (failing (Error.fault 5 ∷ Error.fault 6 ∷ []) shaky)
    ≡ run (λ t. (ok (revision_interval t), t)) (failing [] shaky) []
unfolding Generic.gives_up
retrying_recovers_example =
    retrying_recovers busy "query" (λ t. (ok (revision_interval t), t)) 2 0
      (Error.fault 5 ∷ Error.fault 6 ∷ []) shaky (revision_interval t5) (refl, (refl, tt))
      (omega arith) refl

retrying_exhausted_example :
    retrying busy "query" 1 0
      (λ t. (ok (revision_interval t), t))
      (failing (Error.fault 5 ∷ Error.fault 6 ∷ []) shaky)
    ≡ (err (wrapped "query" 2 (Error.fault 6)), failing [] shaky)
unfolding Generic.gives_up
retrying_exhausted_example =
    retrying_exhausted busy "query" (λ t. (ok (revision_interval t), t)) 1 0 (Error.fault 5 ∷ [])
      (Error.fault 6) shaky (refl, tt) refl refl

batches_end_example : batches busy 2000 100 2000 ≡ batches busy 1900 100 2000
batches_end_example = batches_end busy 2000 1900 100 2000 (omega arith) (omega arith)

get_prefix_range-has_prefix_example :
    in_range (get_prefix_range (codes "/pods/")).0 (get_prefix_range (codes "/pods/")).1 pod
    ≡ has_prefix pod (codes "/pods/")
get_prefix_range-has_prefix_example = get_prefix_range-has_prefix (codes "/pods/") pod pods_slash

get_prefix_range-same_example :
    in_range (get_prefix_range pod).0 (get_prefix_range pod).1 pod ≡ same pod pod
get_prefix_range-same_example = get_prefix_range-same pod pod pod_slash pod-IsReadable
