-- ===== src/Sqllog.antt =====
-- The log over the dialect (pkg/kine/logstructured/sqllog/sql.go): each method of `SQLLog`.
mod Notify
pub mod Poll
unfoldable pub use Notify.{notify_capacity, notify_watcher_poll}
pub mod Batches
pub mod Compacts
pub mod Duplicates
pub mod Reads
pub mod Rows
use k8s_dqlite.Prelude.{
  ℕ, zero, suc, ◌+◌, ◌-◌, Bool, true, false, ◌&&◌, ◌||◌, Option, none, some, List, [], ◌∷◌, ◌++◌,
  ltb, leb, ◌==◌, if◌then◌else◌, length,
}
use k8s_dqlite.Bytes.{Bytes, same, has_prefix, has_suffix_slash}
use k8s_dqlite.Results.{Error, Result, ok, err, compacted, caused}
use k8s_dqlite.Table.{Blob, Row, compact_rev_key}
use k8s_dqlite.Events.{KeyValue, Event, scan, rows_to_events}
use k8s_dqlite.Exec.{Sys, M, pure, raise, lift, ◌>>=◌, ◌>>◌}
use k8s_dqlite.Generic
use k8s_dqlite.Generic.{Config}

abbrev pub superseded_count : ℕ
superseded_count = 100

abbrev pub compact_batch_size : ℕ
compact_batch_size = 1000

abbrev pub notify_if : ℕ × Bool → M (ℕ × Bool)
notify_if (rev, true) = notify_watcher_poll rev >> pure (rev, true)
notify_if (rev, false) = pure (rev, false)

unfoldable pub create : Config → Bytes → Blob → ℕ → M (ℕ × Bool)
unfolding notify_watcher_poll
create d key value lease = Generic.create d key value lease >>= notify_if

unfoldable pub update : Config → Bytes → Blob → ℕ → ℕ → M (ℕ × Bool)
unfolding notify_watcher_poll
update d key value prev lease = Generic.update d key value prev lease >>= notify_if

unfoldable pub delete : Config → Bytes → ℕ → M (ℕ × Bool)
unfolding notify_watcher_poll
delete d key revision = Generic.delete d key revision >>= notify_if

-- What List and After return where they reach their end: revision and events come back beside
-- ErrCompacted too.
pub record Answer : Type 0 where
  pub rev : ℕ
  pub events : List Event
  pub is_compacted : Bool

-- The start key that List passes on.
abbrev pub list_start : Bytes → Bytes → Bytes
list_start prefix start_key =
    if has_suffix_slash prefix then if same prefix start_key then [] else start_key else []

abbrev pub list_rows : Config → Bytes → Bytes → ℕ → ℕ → Bool → M (List Row)
list_rows d prefix start_key limit zero include_deleted =
    Generic.list_current d prefix start_key limit include_deleted
list_rows d prefix start_key limit (suc revision) include_deleted =
    Generic.list d prefix start_key limit (suc revision) include_deleted

-- revision > 0 && revision < compact
abbrev pub below_compact : ℕ → ℕ → Bool
below_compact revision compact = ltb 0 revision && ltb revision compact

abbrev pub list_answer : ℕ → List Event → ℕ × ℕ → M Answer
list_answer revision events (compact, rev) =
    if below_compact revision compact
    then pure (record { rev = rev; events = events; is_compacted = true })
    else notify_watcher_poll rev
      >> pure (record { rev = rev; events = events; is_compacted = false })

unfoldable pub list : Config → Bytes → Bytes → ℕ → ℕ → Bool → M Answer
unfolding notify_watcher_poll rows_to_events
list d prefix start_key limit revision include_deleted = do
  rows ← list_rows d prefix (list_start prefix start_key) limit revision include_deleted
  interval ← Generic.get_compact_revision d
  list_answer revision (rows_to_events rows) interval

abbrev pub after_answer : ℕ → List Event → ℕ × ℕ → Answer
after_answer revision events (compact, rev) = record {
  rev = rev;
  events = events;
  is_compacted = below_compact revision compact;
}

unfoldable pub after : Config → Bytes → ℕ → ℕ → M Answer
unfolding rows_to_events
after d prefix revision limit = do
  rows ← Generic.after_prefix d prefix revision limit
  interval ← Generic.get_compact_revision d
  pure (after_answer revision (rows_to_events rows) interval)

unfoldable pub current_revision : Config → M ℕ
current_revision d = Generic.current_revision d

unfoldable pub count : Config → Bytes → Bytes → ℕ → M (ℕ × ℕ)
count d prefix start_key zero = Generic.count_current d prefix start_key
count d prefix start_key (suc revision) = Generic.count d prefix start_key (suc revision)

unfoldable pub db_size : Config → M ℕ
db_size d = Generic.get_size d

-- The first loop of compactStart: maxRev and maxID.
abbrev prev_mod : Option KeyValue → ℕ
prev_mod none = 0
prev_mod (some kv) = kv.mod_revision

unfoldable pub max_event : ℕ × ℕ → List Event → ℕ × ℕ
max_event best [] = best
max_event (max_rev, max_id) (e ∷ es) =
    max_event
      (if ltb max_rev (prev_mod e.prev_kv)
        then (prev_mod e.prev_kv, e.kv.mod_revision)
        else (max_rev, max_id))
      es

-- The second loop: every other row is deleted.
unfoldable pub delete_others : Config → ℕ → List Event → M (Unit {0})
delete_others d max_id [] = pure tt
delete_others d max_id (e ∷ es) =
    let rest = delete_others d max_id es in
    if e.kv.mod_revision == max_id
    then rest
    else (Generic.delete_revision d e.kv.mod_revision >> rest)

abbrev pub keep_one : Config → List Event → M (Unit {0})
keep_one d [] = create d compact_rev_key (some []) 0 >> pure tt
keep_one d (e ∷ []) = pure tt
keep_one d (e ∷ f ∷ es) = delete_others d (max_event (0, 0) (e ∷ f ∷ es)).1 (e ∷ f ∷ es)

unfoldable pub compact_start : Config → M (Unit {0})
unfolding rows_to_events max_event delete_others create
compact_start d = do
  rows ← Generic.after_prefix d compact_rev_key 0 0
  keep_one d (rows_to_events rows)

-- The end of the batch that starts at `start`.
abbrev pub batch_end : ℕ → ℕ → ℕ
batch_end start target =
    if ltb target (start + compact_batch_size) then target else start + compact_batch_size

-- The loop of DoCompact, with fuel.
pub batches : Config → ℕ → ℕ → ℕ → M (Unit {0})
batches d zero start target = pure tt
batches d (suc fuel) start target =
    let rest = batches d fuel (batch_end start target) target in
    if ltb start target then (Generic.compact d (batch_end start target) >> rest) else pure tt

abbrev initialised : M (Unit {0}) → M (Unit {0})
initialised m s =
    let (r, s') = m s in
    elim r [ ok _ ↦ (ok tt, s') | err e ↦ (err (caused "failed to initialise compaction" e), s') ]

-- Where the current revision is at most 100, the source's target is not positive, and as with 0 the
-- loop makes no round. The fuel is the target (Sqllog/Batches.antt).
unfoldable pub do_compact : Config → M (Unit {0})
unfolding compact_start batches
do_compact d = do
  initialised (compact_start d)
  (start, current) ← Generic.get_compact_revision d
  batches d (current - superseded_count) start (current - superseded_count)

-- startWatch, less its goroutines: the revision that polling starts from.
unfoldable pub start_watch : Config → M ℕ
unfolding compact_start
start_watch d = do
  compact_start d
  (poll_start, current) ← Generic.get_compact_revision d
  pure poll_start

-- The filter of Watch.
abbrev pub watched : Bool → Bytes → Event → Bool
watched check_prefix prefix e = (check_prefix && has_prefix e.kv.key prefix) || same e.kv.key prefix

unfoldable pub filter : Bool → Bytes → List Event → List Event × Bool
filter check_prefix prefix events =
    let kept = k8s_dqlite.Prelude.filter (watched check_prefix prefix) events in
    (kept, ltb 0 (length kept))

-- What Watch sends on of the batches that it is subscribed to.
unfoldable pub watch : Bytes → List (List Event) → List (List Event)
unfolding filter has_suffix_slash
watch prefix [] = []
watch prefix (batch ∷ rest) =
    let (events, sent) = filter (has_suffix_slash prefix) prefix batch in
    let more = watch prefix rest in if sent then events ∷ more else more
