-- ===== src/Table.antt =====
-- The table `kine`: its columns (pkg/kine/drivers/sqlite/schema.go) and the statements that
-- pkg/kine/drivers/generic/generic.go runs on it, each as a function of the table. Rows stand in
-- the order of their ids, as the rowid table keeps them; `seq` is the largest id that was ever in
-- use, which AUTOINCREMENT counts from. The child modules hold the proofs.
pub mod Select
pub mod Invariant
pub mod Latest
pub mod Append
pub mod Cas
pub mod Compaction
pub mod Compacted
pub mod Accepted
pub mod Intervals
pub mod Snapshot
pub mod Lookup
pub mod History
pub mod Listing
pub mod Steps
pub mod Refines
pub mod Unchanged
use k8s_dqlite.Prelude.{
  ℕ, zero, suc, ◌+◌, max, Bool, true, false, not, ◌&&◌, ◌||◌, Option, none, some, List, [], ◌∷◌,
  map, arith, ltb, leb, ◌==◌, if◌then◌else◌, filter, any,
}
use k8s_dqlite.Bytes.{Bytes, codes, same}
use k8s_dqlite.Results.{Result, ok, err, unique_constraint, primary_key_constraint}

-- A BLOB or a Go byte slice; `none` is NULL or nil.
abbrev pub Blob : Type 0
Blob = Option Bytes

pub record Row : Type 0 where
  pub id : ℕ
  pub name : Bytes
  pub created : Bool
  pub deleted : Bool
  pub create_revision : ℕ
  pub prev_revision : ℕ
  pub lease : ℕ
  pub value : Blob
  pub old_value : Blob

pub record Table : Type 0 where
  pub rows : List Row
  pub seq : ℕ

abbrev pub empty : Table
empty = record { rows = []; seq = 0 }

abbrev pub compact_rev_key : Bytes
compact_rev_key = codes "compact_rev_key"

-- `WHERE name = ?`
abbrev pub named : Bytes → Row → Bool
named key r = same r.name key

abbrev newer : Row → Option Row → Row
newer r none = r
newer r (some s) = if ltb r.id s.id then s else r

-- The row of `SELECT MAX(id) FROM kine WHERE name = ?`.
unfoldable pub latest : Bytes → List Row → Option Row
latest key [] = none
latest key (r ∷ rs) = let rest = latest key rs in if named key r then some (newer r rest) else rest

-- `SELECT MAX(id) FROM kine`; `none` is NULL.
unfoldable pub max_id : List Row → Option ℕ
max_id [] = none
max_id (r ∷ rs) = some (elim (max_id rs) [ none ↦ r.id | some m ↦ max r.id m ])

-- `SELECT MAX(prev_revision) FROM kine WHERE name = 'compact_rev_key'`
unfoldable pub max_compact : List Row → Option ℕ
max_compact [] = none
max_compact (r ∷ rs) =
    let rest = max_compact rs in
    if named compact_rev_key r
    then some (elim rest [ none ↦ r.prev_revision | some m ↦ max r.prev_revision m ])
    else rest

-- sql.NullInt64.Int64
abbrev pub null_zero : Option ℕ → ℕ
null_zero none = 0
null_zero (some n) = n

-- A row takes its place by its id.
unfoldable pub place : Row → List Row → List Row
place r [] = r ∷ []
place r (x ∷ xs) = if ltb r.id x.id then r ∷ x ∷ xs else x ∷ place r xs

-- The unique index kine_name_prev_revision_uindex on (prev_revision, name).
abbrev pub conflicts : Row → Row → Bool
conflicts r x = x.prev_revision == r.prev_revision && same x.name r.name

-- INSERT of one row: the primary key and the unique index are checked, and the statement has no
-- effect when it fails.
unfoldable pub insert : Row → Table → Result (Option ℕ) × Table
unfolding place
insert r t =
    if any (λ x. x.id == r.id) t.rows
    then (err primary_key_constraint, t)
    else if any (conflicts r) t.rows
    then (err unique_constraint, t)
    else (ok (some r.id), record { rows = place r t.rows; seq = max t.seq r.id })

-- The row that CreateSQL selects, over the key's latest row.
abbrev pub created_row : Bytes → ℕ → Blob → ℕ → Table → Row
created_row key ttl value prev t = record {
  id = suc t.seq;
  name = key;
  created = true;
  deleted = false;
  create_revision = 0;
  prev_revision = prev;
  lease = ttl;
  value = value;
  old_value = none;
}

-- CASE WHEN kine.created THEN id ELSE create_revision END
abbrev pub origin : Row → ℕ
origin r = if r.created then r.id else r.create_revision

abbrev pub updated_row : Bytes → ℕ → Blob → Row → Table → Row
updated_row key ttl value r t = record {
  id = suc t.seq;
  name = key;
  created = false;
  deleted = false;
  create_revision = origin r;
  prev_revision = r.id;
  lease = ttl;
  value = value;
  old_value = r.value;
}

abbrev pub deleted_row : Row → Table → Row
deleted_row r t = record {
  id = suc t.seq;
  name = r.name;
  created = false;
  deleted = true;
  create_revision = origin r;
  prev_revision = r.id;
  lease = r.lease;
  value = none;
  old_value = r.value;
}

-- The statements return the id of the row that they inserted, `none` where they inserted none.
abbrev pub create_over : Option Row → Bytes → ℕ → Blob → Table → Result (Option ℕ) × Table
create_over none key ttl value t = insert (created_row key ttl value 0 t) t
create_over (some r) key ttl value t =
    if r.deleted then insert (created_row key ttl value r.id t) t else (ok none, t)

unfoldable pub create_sql : Bytes → ℕ → Blob → Table → Result (Option ℕ) × Table
create_sql key ttl value t = create_over (latest key t.rows) key ttl value t

abbrev pub update_over : Option Row → Bytes → ℕ → Blob → ℕ → Table → Result (Option ℕ) × Table
update_over none key ttl value prev t = (ok none, t)
update_over (some r) key ttl value prev t =
    if not r.deleted && r.id == prev then insert (updated_row key ttl value r t) t else (ok none, t)

unfoldable pub update_sql : Bytes → ℕ → Blob → ℕ → Table → Result (Option ℕ) × Table
update_sql key ttl value prev t = update_over (latest key t.rows) key ttl value prev t

abbrev pub delete_over : Option Row → ℕ → Table → Result (Option ℕ) × Table
delete_over none prev t = (ok none, t)
delete_over (some r) prev t =
    if not r.deleted && r.id == prev then insert (deleted_row r t) t else (ok none, t)

unfoldable pub delete_sql : Bytes → ℕ → Table → Result (Option ℕ) × Table
delete_sql key prev t = delete_over (latest key t.rows) prev t

abbrev pub fill_row : ℕ → Bytes → Row
fill_row revision name = record {
  id = revision;
  name = name;
  created = false;
  deleted = true;
  create_revision = 0;
  prev_revision = 0;
  lease = 0;
  value = none;
  old_value = none;
}

unfoldable pub fill_sql : ℕ → Bytes → Table → Result (Option ℕ) × Table
fill_sql revision name t = insert (fill_row revision name) t

-- DeleteRevSQL
unfoldable pub delete_rev_sql : ℕ → Table → Table
delete_rev_sql revision t = record t { rows = filter (λ r. not (r.id == revision)) t.rows }

-- revisionIntervalSQL, as GetCompactRevision reads it: NULL is 0.
unfoldable pub revision_interval : Table → ℕ × ℕ
revision_interval t = (null_zero (max_compact t.rows), null_zero (max_id t.rows))

-- `? < id AND id <= ?`
abbrev pub between : ℕ → ℕ → ℕ → Bool
between start stop id = ltb start id && leb id stop

-- A row whose predecessor the first statement of tryCompact deletes.
abbrev pub supersedes : ℕ → ℕ → Row → Bool
supersedes start stop r =
    not (named compact_rev_key r)
    && (not r.created && (not (r.prev_revision == 0) && between start stop r.id))

unfoldable pub delete_superseded : ℕ → ℕ → Table → Table
delete_superseded start stop t = record t {
  rows =
      filter (λ a. not (any (λ r. supersedes start stop r && r.prev_revision == a.id) t.rows))
        t.rows;
}

unfoldable pub delete_tombstones : ℕ → ℕ → Table → Table
delete_tombstones start stop t = record t {
  rows = filter (λ a. not (a.deleted && between start stop a.id)) t.rows;
}

abbrev pub raise_prev : ℕ → Row → Row
raise_prev stop r =
    if named compact_rev_key r then record r { prev_revision = max r.prev_revision stop } else r

-- Two rows that break the unique index.
clash : List Row → Bool
clash [] = false
clash (r ∷ rs) = any (conflicts r) rs || clash rs

-- UpdateCompactSQL
unfoldable pub update_compact_sql : ℕ → Table → Result (Unit {0}) × Table
unfolding clash
update_compact_sql stop t =
    let rows = map (raise_prev stop) t.rows in
    if clash rows then (err unique_constraint, t) else (ok tt, record t { rows = rows })
