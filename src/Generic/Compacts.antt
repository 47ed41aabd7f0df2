-- ===== src/Generic/Compacts.antt =====
-- `Compact` and `tryCompact` (pkg/kine/drivers/generic/generic.go), for every behaviour of the driver.
use k8s_dqlite.Prelude.{
  ℕ, zero, suc, ◌-◌, ◌≤◌, ◌≡◌, refl, ap, ◌∙◌, inl, inr, true, false, arith, if◌then◌else◌, leb, ltb,
  Bool-cases, leb_false→lt,
}
use k8s_dqlite.Results.{Error, Result, ok, err}
use k8s_dqlite.Table.{
  Table, delete_superseded, delete_tombstones, update_compact_sql, revision_interval,
}
use k8s_dqlite.Table.Invariant.{IsLog}
use k8s_dqlite.Table.Compaction.{pruned}
use k8s_dqlite.Table.Accepted.{update_compact_sql_ok}
use k8s_dqlite.Table.Compacted.{compacted}
use k8s_dqlite.Exec.{Sys, M, Stmt, attempt, transaction, rollback, raise, ◌>>◌}
use k8s_dqlite.Exec.Laws.{Ends, failed, ran, attempt-Ends}
use k8s_dqlite.Table.Refines.{abstract_store}
use k8s_dqlite.Table.Unchanged.{abstract_store-compacted}
use k8s_dqlite.Generic.Retries.{retrying-Ends}
use k8s_dqlite.Generic.{
  Config, effect, query, get_compact_revision, compact, try_compact, compacting, settle_compact,
  gives_up, max_retries,
}

-- A batch took place whole, or there is an error and the table is as it was.
pub data Atomic (start stop : ℕ) (before : Table) (out : Result (Unit {0}) × Sys) : Type 0 where
  undone : (e : Error) → out.0 ≡ err e → out.1.table ≡ before → Atomic start stop before out
  whole : out.0 ≡ ok tt → out.1.table ≡ compacted start stop before → Atomic start stop before out

module _ (start stop : ℕ) where
  -- A call of the transaction, at the table `t`, fails, or goes on at the next table.
  through :
      (before t u : Table) (stmt : Stmt (Unit {0})) (k : M (Unit {0})) (s : Sys)
      → s.table ≡ t
      → stmt t ≡ (ok tt, u)
      → ((s' : Sys) → s'.table ≡ u → Atomic start stop before (rollback before (k s')))
      → Atomic start stop before (rollback before ((attempt stmt >> k) s))
  through before t u stmt k s at does rest = elim (attempt-Ends stmt s) [
    | failed e r p ↦ rw p (undone e refl refl)
    | ran r p ↦ rw (p, at, does) (rest (record s { table = u; faults = r }) refl)
  ]

  -- The commit ends the transaction at the table that the statements left.
  commits :
      (before u : Table) (s : Sys)
      → s.table ≡ u
      → u ≡ compacted start stop before
      → Atomic start stop before (rollback before (attempt (effect (λ t. t)) s))
  commits before u s at done = elim (attempt-Ends (effect (λ t. t)) s) [
    | failed e r p ↦ rw p (undone e refl refl)
    | ran r p ↦ rw p (whole refl (at ∙ done))
  ]

  -- One batch: whole, or not at all, whatever calls of the driver fail.
  pub try_compact-Atomic :
      (s : Sys)
      → IsLog start s.table
      → start ≤ stop
      → stop ≤ s.table.seq
      → Atomic start stop s.table (try_compact start stop s)
  unfolding try_compact transaction
  try_compact-Atomic s l order room =
      let t = s.table in
      let a = delete_superseded start stop t in
      let b = delete_tombstones start stop a in
      let c = compacted start stop t in
      through t t t (effect (λ t. t)) _ s refl refl λ s1 e1.
        through t t a (effect (delete_superseded start stop)) _ s1 e1 refl λ s2 e2.
          through t a b (effect (delete_tombstones start stop)) _ s2 e2 refl λ s3 e3.
            through t b c (update_compact_sql stop) _ s3 e3
              (unfold pruned in (update_compact_sql_ok start stop l order room))
              λ s4 e4. commits t c s4 e4 refl

module _ (d : Config) (start stop : ℕ) where
  settled :
      (left : ℕ) (s : Sys) (next : Error → M (Unit {0})) (out : Result (Unit {0}) × Sys)
      → Atomic start stop s.table out
      → ((e : Error) (s' : Sys) → s'.table ≡ s.table → Atomic start stop s.table (next e s'))
      → Atomic start stop s.table (settle_compact d next out)
  settled left s next (ok _, s') h k = h
  settled left s next (err e, s') (undone x p q) k = elim (Bool-cases (gives_up d e)) [
    | inl b ↦ rw b (undone e refl q)
    | inr b ↦ rw b (k e s' q)
  ]
  settled left s next (err e, s') (whole p q) k = absurd (cc)

  compacting-Atomic :
      (left : ℕ) (s : Sys)
      → IsLog start s.table
      → start ≤ stop
      → stop ≤ s.table.seq
      → Atomic start stop s.table (compacting d left start stop s)
  unfolding compacting
  compacting-Atomic zero s l order room =
      settled zero s (λ e. raise e) (try_compact start stop s)
        (try_compact-Atomic start stop s l order room) (λ e s' q. undone e refl q)
  compacting-Atomic (suc left) s l order room =
      settled left s (λ e. compacting d left start stop) (try_compact start stop s)
        (try_compact-Atomic start stop s l order room)
        (λ e s' q. rw (← q) (compacting-Atomic left s' (rw q l) order (rw q room)))

interval-Ends :
    (d : Config) (s : Sys) → Ends (λ t. (ok (revision_interval t), t)) s (get_compact_revision d s)
unfolding get_compact_revision query
interval-Ends d s =
    retrying-Ends d "query" (λ t. (ok (revision_interval t), t)) (max_retries - 1) 0 s
      (revision_interval s.table) refl

-- At a revision that is compacted already, Compact changes nothing.
pub compact_nothing :
    (d : Config) (revision : ℕ) (s : Sys) (c high : ℕ)
    → revision_interval s.table ≡ (c, high)
    → leb revision c ≡ true
    → (compact d revision s).1.table ≡ s.table
unfolding compact
compact_nothing d revision s c high interval b = elim (interval-Ends d s) [
  | failed e r p ↦ rw p refl
  | ran r p ↦ rw (p, interval, b) refl
]

-- What GetCompactRevision reads: the compact revision and the newest id.
module _ {c high : ℕ} (d : Config) (revision : ℕ) (s : Sys) (l : IsLog c s.table)
    (interval : revision_interval s.table ≡ (c, high)) (order : c ≤ high)
    (room : high ≤ s.table.seq) where
  -- The end of the batch: no later than the newest row.
  abbrev clipped : ℕ
  clipped = if ltb high revision then high else revision

  -- Compact of the dialect took the one batch up to its revision, or had none to do, or failed.
  after_interval :
      (s' : Sys)
      → s'.table ≡ s.table
      → leb revision c ≡ false
      → Atomic c clipped s.table (compacting d (max_retries - 1) c clipped s')
  after_interval s' q b = rw (← q) (
      compacting-Atomic d c clipped (max_retries - 1) s' (rw q l)
        (ground (arith, leb_false→lt revision c b)) (rw q (ground arith)))

  -- On a log whose compact revision and newest id are `c` and `high`, with `c` at most `high` and `high` at
  -- most the counter: for a revision past `c`, Compact takes the one batch from `c` to the revision, or to
  -- `high` where that is less, whole, or it fails and leaves the table as it was. Whatever the driver does.
  pub compact-Atomic : leb revision c ≡ false → Atomic c clipped s.table (compact d revision s)
  unfolding compact
  compact-Atomic b = elim (interval-Ends d s) [
    | failed e r p ↦ rw p (undone e refl refl)
    | ran r p ↦ rw (p, interval, b) (after_interval (record s { faults = r }) refl b)
  ]

  -- On a log whose compact revision and newest id are `c` and `high`, with `c` at most `high` and `high` at
  -- most the counter, for every revision and whatever the driver does, Compact changes nothing that the
  -- abstract store holds.
  pub compact_unseen : abstract_store (compact d revision s).1.table ≡ abstract_store s.table
  compact_unseen = elim (Bool-cases (leb revision c)) [
    | inl b ↦ ap abstract_store (compact_nothing d revision s c high interval b)
    | inr b ↦ elim (compact-Atomic b) [
      | undone e p q ↦ ap abstract_store q
      | whole p q ↦
          ap abstract_store q
          ∙ abstract_store-compacted c clipped l (ground (arith, leb_false→lt revision c b))
              (ground arith)
    ]
  ]
