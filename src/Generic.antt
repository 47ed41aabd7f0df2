-- ===== src/Generic.antt =====
-- The dialect over a database (pkg/kine/drivers/generic/generic.go): each method of `Generic`.
pub mod Retries
pub mod Compacts
pub mod Writes
pub mod Reads
use k8s_dqlite.Prelude.{
  ℕ, zero, suc, ◌+◌, ◌-◌, ◌*◌, ◌/◌, ◌%◌, String, Bool, true, false, Option, none, some, List, [],
  ◌∷◌, ◌++◌, arith, ltb, leb, ◌==◌, if◌then◌else◌, length,
}
use k8s_dqlite.Bytes.{Bytes, codes, has_prefix, one_byte, zero_digit}
use k8s_dqlite.Bytes.Ranges.{get_prefix_range}
use k8s_dqlite.Results.{Error, Result, ok, err, wrapped, message, null_scan}
use k8s_dqlite.Table.{
  Blob, Row, Table, null_zero, max_id, create_sql, update_sql, delete_sql, fill_sql, delete_rev_sql,
  revision_interval, delete_superseded, delete_tombstones, update_compact_sql,
}
use k8s_dqlite.Table.Select.{list_sql, after_prefix_sql, after_sql}
use k8s_dqlite.Exec.{Sys, M, Stmt, pure, raise, lift, attempt, transaction, ◌>>=◌, ◌>>◌}

-- The fields of `Generic` that the drivers set. A nil function is `none`; durations are nanoseconds.
-- The size is what GetSizeSQL answers, `none` where the field is empty.
pub record Config : Type 0 where
  pub retry : Option (Error → Bool)
  pub translate_err : Option (Error → Error)
  pub size : Option (Table → ℕ)
  pub compact_interval : ℕ
  pub poll_interval : ℕ
  pub watch_query_timeout : ℕ

abbrev pub max_retries : ℕ
max_retries = 500

abbrev pub second : ℕ
second = 1000000000

-- d.Retry == nil || !d.Retry(err)
unfoldable pub gives_up : Config → Error → Bool
gives_up d e = elim d.retry [ none ↦ true | some f ↦ if f e then false else true ]

module _ {A : Type 0} where
  -- After one try: its value, or another try, or the error under the number of tries.
  abbrev pub settle : Config → String → ℕ → (Error → M A) → Result A × Sys → Result A × Sys
  settle d label count rest (ok a, s) = (ok a, s)
  settle d label count rest (err e, s) =
      if gives_up d e then (err (wrapped label count e), s) else rest e s

  -- The loop of `query` and `execute` after `count` tries, with `left` more after this one.
  unfoldable pub retrying : Config → String → ℕ → ℕ → Stmt A → M A
  retrying d label zero count stmt s =
      settle d label count (λ e. raise (wrapped label (count + 1) e)) (attempt stmt s)
  retrying d label (suc left) count stmt s =
      settle d label count (λ e. retrying d label left (count + 1) stmt) (attempt stmt s)

  unfoldable pub query : Config → (Table → A) → M A
  query d read = retrying d "query" (max_retries - 1) 0 (λ t. (ok (read t), t))

  -- The lock of LockWrites orders the writes of one process, which here are in order as they stand.
  unfoldable pub execute : Config → Stmt A → M A
  execute d stmt = retrying d "exec" (max_retries - 1) 0 stmt

  -- d.TranslateErr, where it is set.
  abbrev pub translate : Option (Error → Error) → Result A × Sys → Result A × Sys
  translate f (ok a, s) = (ok a, s)
  translate none (err e, s) = (err e, s)
  translate (some f) (err e, s) = (err (f e), s)

  -- The deferred translation of the error.
  abbrev pub translated : Config → M A → M A
  translated d m s = translate d.translate_err (m s)

-- RowsAffected and LastInsertId: the revision, and whether a row was inserted. The source returns an error that
-- these two give, after the statement has had its effect; that exit is left out: the result of a
-- statement that ran holds both numbers.
abbrev pub inserted : Option ℕ → ℕ × Bool
inserted none = (0, false)
inserted (some id) = (id, true)

unfoldable pub create : Config → Bytes → Blob → ℕ → M (ℕ × Bool)
unfolding execute
create d key value ttl =
    translated d do row ← execute d (create_sql key ttl value); pure (inserted row)

unfoldable pub update : Config → Bytes → Blob → ℕ → ℕ → M (ℕ × Bool)
unfolding execute
update d key value prev ttl =
    translated d do row ← execute d (update_sql key ttl value prev); pure (inserted row)

unfoldable pub delete : Config → Bytes → ℕ → M (ℕ × Bool)
unfolding execute
delete d key revision = do row ← execute d (delete_sql key revision); pure (inserted row)

-- GetCompactRevision: the compact revision, and the current one.
unfoldable pub get_compact_revision : Config → M (ℕ × ℕ)
unfolding query
get_compact_revision d = query d revision_interval

-- A statement with no result that cannot fail by itself.
abbrev pub effect : (Table → Table) → Stmt (Unit {0})
effect f t = (ok tt, f t)

unfoldable pub try_compact : ℕ → ℕ → M (Unit {0})
unfolding attempt transaction
try_compact start stop = transaction do
  attempt (effect (λ t. t))
  attempt (effect (delete_superseded start stop))
  attempt (effect (delete_tombstones start stop))
  attempt (update_compact_sql stop)
  attempt (effect (λ t. t))

abbrev pub settle_compact :
    Config → (Error → M (Unit {0})) → Result (Unit {0}) × Sys → Result (Unit {0}) × Sys
settle_compact d rest (ok a, s) = (ok a, s)
settle_compact d rest (err e, s) = if gives_up d e then (err e, s) else rest e s

-- The retry loop of `Compact`, with `left` tries after this one. Its error is not wrapped.
unfoldable pub compacting : Config → ℕ → ℕ → ℕ → M (Unit {0})
unfolding try_compact
compacting d zero start stop s = settle_compact d (λ e. raise e) (try_compact start stop s)
compacting d (suc left) start stop s =
    settle_compact d (λ e. compacting d left start stop) (try_compact start stop s)

unfoldable pub compact : Config → ℕ → M (Unit {0})
unfolding get_compact_revision compacting
compact d revision = do
  (start, current) ← get_compact_revision d
  if leb revision start
      then pure tt
      else compacting d (max_retries - 1) start (if ltb current revision then current else revision)

unfoldable pub delete_revision : Config → ℕ → M (Unit {0})
unfolding execute
delete_revision d revision = execute d (effect (delete_rev_sql revision))

-- start = startKey + "\x01" where a start key is given
abbrev pub start_after : Bytes → Bytes → Bytes
start_after start [] = start
start_after start (x ∷ xs) = (x ∷ xs) ++ one_byte ∷ []

unfoldable pub list_current : Config → Bytes → Bytes → ℕ → Bool → M (List Row)
unfolding query
list_current d prefix start_key limit include_deleted =
    let (start, stop) = get_prefix_range prefix in
    query d (list_sql (start_after start start_key) stop none include_deleted limit)

unfoldable pub list : Config → Bytes → Bytes → ℕ → ℕ → Bool → M (List Row)
unfolding query
list d prefix start_key limit revision include_deleted =
    let (start, stop) = get_prefix_range prefix in
    query d (list_sql (start_after start start_key) stop (some revision) include_deleted limit)

-- SELECT (MAX(id)), COUNT(*) over listSQL.
abbrev pub count_sql : Bytes → Bytes → Option ℕ → Table → ℕ × ℕ
count_sql start stop revision t =
    (null_zero (max_id t.rows), length (list_sql start stop revision false 0 t))

unfoldable pub count_current : Config → Bytes → Bytes → M (ℕ × ℕ)
unfolding query
count_current d prefix start_key =
    let (start, stop) = get_prefix_range prefix in
    query d (count_sql (start_after start start_key) stop none)

unfoldable pub count : Config → Bytes → Bytes → ℕ → M (ℕ × ℕ)
unfolding query
count d prefix start_key revision =
    let (start, stop) = get_prefix_range prefix in
    query d (count_sql (start_after start start_key) stop (some revision))

-- rows.Scan of a NULL into an int64 fails.
abbrev pub scan_int : Option ℕ → M ℕ
scan_int none = raise null_scan
scan_int (some id) = pure id

unfoldable pub current_revision : Config → M ℕ
unfolding query
current_revision d = do id ← query d (λ t. max_id t.rows); scan_int id

unfoldable pub after_prefix : Config → Bytes → ℕ → ℕ → M (List Row)
unfolding query
after_prefix d prefix rev limit =
    let (start, stop) = get_prefix_range prefix in query d (after_prefix_sql start stop rev limit)

unfoldable pub after : Config → ℕ → ℕ → M (List Row)
unfolding query
after d rev limit = query d (after_sql rev limit)

-- %d, most significant digit first. `fuel` is more than the number of digits.
digits : ℕ → ℕ → Bytes → Bytes
digits zero n rest = rest
digits (suc fuel) n rest =
    let last = (zero_digit + n % 10) ∷ rest in
    let more = digits fuel (n / 10) last in if n / 10 == 0 then last else more

abbrev pub gap_prefix : Bytes
gap_prefix = codes "gap-"

-- fmt.Sprintf("gap-%d", revision)
unfoldable pub gap_name : ℕ → Bytes
unfolding digits
gap_name revision = gap_prefix ++ digits (suc revision) revision []

unfoldable pub fill : Config → ℕ → M (Option ℕ)
unfolding execute gap_name
fill d revision = execute d (fill_sql revision (gap_name revision))

unfoldable pub is_fill : Bytes → Bool
unfolding has_prefix
is_fill key = has_prefix key gap_prefix

unfoldable pub get_size : Config → M ℕ
unfolding query
get_size d = elim d.size [
  | none ↦ raise (message "driver does not support size reporting")
  | some size ↦ query d size
]

unfoldable pub get_compact_interval : Config → ℕ
get_compact_interval d = if ltb 0 d.compact_interval then d.compact_interval else 300 * second

unfoldable pub get_watch_query_timeout : Config → ℕ
get_watch_query_timeout d =
    if leb (5 * second) d.watch_query_timeout then d.watch_query_timeout else 20 * second

unfoldable pub get_poll_interval : Config → ℕ
get_poll_interval d = if ltb 0 d.poll_interval then d.poll_interval else second
