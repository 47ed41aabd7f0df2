-- ===== src/Table/Steps.antt =====
-- The tables that the statements of pkg/kine/drivers/generic/generic.go can reach from any number of clients. A
-- statement is one step: the database runs each on its own, and a compaction batch is a transaction. Two uses
-- are no steps: DeleteRevSQL, which the start-up runs where compact_rev_key has several rows
-- (Sqllog/Duplicates.antt), and a fill at or below the compact revision.
use k8s_dqlite.Prelude.{ℕ, ◌≤◌, ◌<◌, ◌≡◌, refl, ◌≢◌, none, some, List, arith, In}
use k8s_dqlite.Bytes.{Bytes}
use k8s_dqlite.Table.{
  Blob, Row, Table, empty, compact_rev_key, create_sql, update_sql, delete_sql, fill_sql, fill_row,
  latest,
}
use k8s_dqlite.Table.Invariant.{IsLog}
use k8s_dqlite.Table.Append.{added-IsLog, insert_fits}
use k8s_dqlite.Table.Cas.{first-Fits, create_first}
use k8s_dqlite.Table.Compacted.{compacted, compacted-IsLog}
use k8s_dqlite.Table.Refines.{create_sql-Refines, update_sql-Refines, delete_sql-Refines}

-- FillSQL is run on a revision that no row has or names, under a name that no row has.
pub record IsGap (compact : ℕ) (t : Table) (revision : ℕ) (name : Bytes) : Type 0 where
  pub above : compact < revision
  pub user : name ≢ compact_rev_key
  pub unnamed : (a : Row) → In a t.rows → a.name ≢ name
  pub free : (a : Row) → In a t.rows → a.id ≢ revision
  pub unreferenced : (a : Row) → In a t.rows → a.name ≢ compact_rev_key → a.prev_revision ≢ revision

-- One statement takes the table `t`, compacted up to `c`, to `u`, compacted up to `d`. The key
-- compact_rev_key is written by the compaction alone.
pub data Step (c : ℕ) (t : Table) (d : ℕ) (u : Table) : Type 0 where
  create :
      (key : Bytes) (ttl : ℕ) (value : Blob)
      → key ≢ compact_rev_key
      → u ≡ (create_sql key ttl value t).1
      → d ≡ c
      → Step c t d u
  update :
      (key : Bytes) (ttl : ℕ) (value : Blob) (prev : ℕ)
      → key ≢ compact_rev_key
      → u ≡ (update_sql key ttl value prev t).1
      → d ≡ c
      → Step c t d u
  delete :
      (key : Bytes) (prev : ℕ)
      → key ≢ compact_rev_key
      → u ≡ (delete_sql key prev t).1
      → d ≡ c
      → Step c t d u
  begin :
      latest compact_rev_key t.rows ≡ none
      → c ≡ 0
      → u ≡ (create_sql compact_rev_key 0 (some List.[]) t).1
      → d ≡ c
      → Step c t d u
  fill :
      (revision : ℕ) (name : Bytes)
      → IsGap c t revision name
      → u ≡ (fill_sql revision name t).1
      → d ≡ c
      → Step c t d u
  compact : (stop : ℕ) → c ≤ stop → stop ≤ t.seq → u ≡ compacted c stop t → d ≡ stop → Step c t d u

pub data Reach : ℕ → Table → Type 0 where
  start : Reach 0 empty
  then : {c d : ℕ} {t u : Table} → Reach c t → Step c t d u → Reach d u

fill-IsLog :
    (c : ℕ) (t : Table) (revision : ℕ) (name : Bytes)
    → IsLog c t
    → IsGap c t revision name
    → IsLog c (fill_sql revision name t).1
unfolding fill_sql
fill-IsLog c t revision name l g =
    let r = fill_row revision name in
    let f =
      first-Fits l r g.above refl g.unnamed g.free g.unreferenced (λ d. refl)
        (λ n. absurd (g.user n)) in
    rw (insert_fits l f) (added-IsLog l f)

pub Step-IsLog : (c : ℕ) (t : Table) (d : ℕ) (u : Table) → IsLog c t → Step c t d u → IsLog d u
Step-IsLog c t d u l (create key ttl value n e q) =
    rw (e, q) (create_sql-Refines l key ttl value n).2
Step-IsLog c t d u l (update key ttl value prev n e q) =
    rw (e, q) (update_sql-Refines l key ttl value n prev).2
Step-IsLog c t d u l (delete key prev n e q) = rw (e, q) (delete_sql-Refines l key n prev).2
Step-IsLog c t d u l (begin unborn z e q) =
    rw (e, q) (create_first l compact_rev_key 0 (some List.[]) unborn (λ n. z)).1
Step-IsLog c t d u l (fill revision name g e q) = rw (e, q) (fill-IsLog c t revision name l g)
Step-IsLog c t d u l (compact stop p room e q) = rw (e, q) (compacted-IsLog c stop l p room)

empty-IsLog : IsLog 0 empty
empty-IsLog = record {
  id_pos = λ a m. elim m [ ];
  id_le_seq = λ a m. elim m [ ];
  compact_le_seq = omega arith;
  ascending = tt;
  unique = λ a b m. elim m [ ];
  id_inj = λ a b m. elim m [ ];
  prev_lt = λ a m. elim m [ ];
  tombstone = λ a m. elim m [ ];
  prev_name = λ a b m. elim m [ ];
  link = λ a b m. elim m [ ];
  reborn = λ a b m. elim m [ ];
  one_below = λ a b m. elim m [ ];
  live_below = λ a m. elim m [ ];
  key_row = λ a m. elim m [ ];
  one_key_row = λ a b m. elim m [ ];
}

pub Reach-IsLog : {c : ℕ} {t : Table} → Reach c t → IsLog c t
Reach-IsLog start = empty-IsLog
Reach-IsLog (then {c} {d} {t} {u} r s) = Step-IsLog c t d u (Reach-IsLog r) s
