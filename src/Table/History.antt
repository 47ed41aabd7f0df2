-- ===== src/Table/History.antt =====
-- Range reads at an old revision (`listSQL` of pkg/kine/drivers/generic/generic.go) while statements go on.
use k8s_dqlite.Prelude.{
  ℕ, suc, ◌≤◌, ◌<◌, max, ◌≡◌, refl, sym, ap, ◌∙◌, ◌≢◌, inl, inr, Bool, true, false, not, ◌&&◌, ◌||◌,
  Option, none, some, List, [], ◌∷◌, arith, ltb, leb, ◌==◌, if◌then◌else◌, In, Bool-cases, any,
  filter, filter_congr, filter-filter,
}
use k8s_dqlite.Bytes.{Bytes, same}
use k8s_dqlite.Bytes.Order.{same_ne}
use k8s_dqlite.Bytes.Ranges.{in_range}
use k8s_dqlite.Results.{Result}
use k8s_dqlite.Table.{
  Blob, Row, Table, compact_rev_key, create_sql, create_over, update_sql, update_over, delete_sql,
  delete_over, fill_sql, fill_row, insert, place, conflicts, latest,
}
use k8s_dqlite.Table.Invariant.{IsLog}
use k8s_dqlite.Table.Select.{grouped, is_max, by_name, limited, list_sql}
use k8s_dqlite.Table.Snapshot.{list_sql-compacted}
use k8s_dqlite.Table.Steps.{Step, create, update, delete, begin, fill, compact, Step-IsLog}

-- A row that fails the test leaves no trace.
filter-place :
    (p : Row → Bool) (r : Row) (rows : List Row)
    → p r ≡ false
    → filter p (place r rows) ≡ filter p rows
unfolding place
filter-place p r [] h = rw h refl
filter-place p r (x ∷ xs) h = elim (Bool-cases (ltb r.id x.id)) [
  | inl t ↦ rw (t, h) refl
  | inr f ↦ rw (f, filter-place p r xs h) refl
]

any-filter-place :
    (p q : Row → Bool) (r : Row) (rows : List Row)
    → p r ≡ false
    → any p (filter q (place r rows)) ≡ any p (filter q rows)
unfolding place
any-filter-place p q r [] h = elim (Bool-cases (q r)) [ inl t ↦ rw (t, h) refl | inr f ↦ rw f refl ]
any-filter-place p q r (x ∷ xs) h = elim (Bool-cases (ltb r.id x.id)) [
  | inl t ↦ rw t (elim (Bool-cases (q r)) [ inl k ↦ rw (k, h) refl | inr f ↦ rw f refl ])
  | inr f ↦ rw f (elim (Bool-cases (q x)) [
    | inl k ↦ rw (k, any-filter-place p q r xs h) refl
    | inr n ↦ rw (n, any-filter-place p q r xs h) refl
  ])
]

module _ (from to : Bytes) (v limit : ℕ) where
  -- What is read of a table at the revision.
  abbrev pub seen : Table → List Row
  seen = list_sql from to (some v) false limit

  abbrev group : List Row → List Row
  group = grouped from to (some v)

  abbrev with : Row → Table → Table
  with r t = record { rows = place r t.rows; seq = max t.seq r.id }

  -- A row past the revision is not seen.
  later_same : (r : Row) (t : Table) → v < r.id → seen (with r t) ≡ seen t
  unfolding list_sql
  later_same r t p =
      let h : (in_range from to r.name && leb r.id v) ≡ false = ground arith in
      ap
        (λ (rows : List Row).
          limited limit (by_name (filter (λ x. (not x.deleted || false) && is_max rows x) rows)))
        (filter-place (λ x. in_range from to x.name && leb x.id v) r t.rows h)

  -- A tombstone of a name that no row has is not seen either.
  fresh_same :
      (r : Row) (t : Table)
      → r.deleted ≡ true
      → ((a : Row) → In a t.rows → a.name ≢ r.name)
      → seen (with r t) ≡ seen t
  unfolding list_sql
  fresh_same r t d fresh =
      let q = λ (x : Row). in_range from to x.name && leb x.id v in
      let alive = λ (rows : List Row) (x : Row). (not x.deleted || false) && is_max rows x in
      let gone : (q r && alive (group (place r t.rows)) r) ≡ false =
        dead (q r) (is_max (group (place r t.rows)) r) in
      let agree =
        filter_congr (λ x. q x && alive (group (place r t.rows)) x)
          (λ x. q x && alive (group t.rows) x) t.rows
          (λ a m.
            ap (λ (b : Bool). q a && ((not a.deleted || false) && not b))
              (any-filter-place (λ x. same x.name a.name && ltb a.id x.id) q r t.rows
                (other a m))) in
      ap (λ (rows : List Row). limited limit (by_name rows))
        (filter-filter (alive (group (place r t.rows))) q (place r t.rows)
          ∙ filter-place (λ x. q x && alive (group (place r t.rows)) x) r t.rows gone
          ∙ agree
          ∙ sym (filter-filter (alive (group t.rows)) q t.rows))
    where
      dead : (a b : Bool) → (a && ((not r.deleted || false) && b)) ≡ false
      dead true b = rw d refl
      dead false b = refl

      other : (a : Row) → In a t.rows → (same r.name a.name && ltb a.id r.id) ≡ false
      other a m = rw (same_ne r.name a.name (λ e. fresh a m (sym e))) refl

  insert_same : (r : Row) (t : Table) → seen (with r t) ≡ seen t → seen (insert r t).1 ≡ seen t
  unfolding insert
  insert_same r t h = elim (Bool-cases (any (λ x. x.id == r.id) t.rows)) [
    | inl a ↦ rw a refl
    | inr a ↦ elim (Bool-cases (any (conflicts r) t.rows)) [
      | inl b ↦ rw (a, b) refl
      | inr b ↦ rw (a, b) h
    ]
  ]

  module _ (t : Table) (old : v ≤ t.seq) where
    new_same : (r : Row) → r.id ≡ suc t.seq → seen (insert r t).1 ≡ seen t
    new_same r e = insert_same r t (later_same r t (omega arith))

    if_same :
        (b : Bool) (u : Result (Option ℕ) × Table) (n : Result (Option ℕ))
        → seen u.1 ≡ seen t
        → seen (if b then u else (n, t)).1 ≡ seen t
    if_same true u n h = h
    if_same false u n h = refl

    create_same :
        (key : Bytes) (ttl : ℕ) (value : Blob) (o : Option Row)
        → seen (create_over o key ttl value t).1 ≡ seen t
    create_same key ttl value none = new_same _ refl
    create_same key ttl value (some r) = if_same r.deleted _ _ (new_same _ refl)

    update_same :
        (key : Bytes) (ttl : ℕ) (value : Blob) (prev : ℕ) (o : Option Row)
        → seen (update_over o key ttl value prev t).1 ≡ seen t
    update_same key ttl value prev none = refl
    update_same key ttl value prev (some r) =
        if_same (not r.deleted && r.id == prev) _ _ (new_same _ refl)

    delete_same : (prev : ℕ) (o : Option Row) → seen (delete_over o prev t).1 ≡ seen t
    delete_same prev none = refl
    delete_same prev (some r) = if_same (not r.deleted && r.id == prev) _ _ (new_same _ refl)

    module _ {c d : ℕ} {u : Table} (l : IsLog c t) (uncompacted : d ≤ v)
        (away : in_range from to compact_rev_key ≡ false) where
      step_same : Step c t d u → seen u ≡ seen t
      unfolding create_sql update_sql delete_sql fill_sql
      step_same (create key ttl value n e q) = rw e (create_same key ttl value (latest key t.rows))
      step_same (update key ttl value prev n e q) =
          rw e (update_same key ttl value prev (latest key t.rows))
      step_same (delete key prev n e q) = rw e (delete_same prev (latest key t.rows))
      step_same (begin unborn z e q) =
          rw e (create_same compact_rev_key 0 (some List.[]) (latest compact_rev_key t.rows))
      step_same (fill revision name g e q) = rw e (
          insert_same (fill_row revision name) t
            (fresh_same (fill_row revision name) t refl g.unnamed))
      step_same (compact stop p room e q) =
          rw e
            (list_sql-compacted c stop l p room from to (some v) (rw (← q) uncompacted) away limit)

-- Statements in a row, from one table to another.
pub data Runs : ℕ → Table → ℕ → Table → Type 0 where
  done : {c : ℕ} {t : Table} → Runs c t c t
  next : {c d e : ℕ} {t u w : Table} → Step c t d u → Runs d u e w → Runs c t e w

insert-seq : (r : Row) (t : Table) → t.seq ≤ (insert r t).1.seq
unfolding insert
insert-seq r t = elim (Bool-cases (any (λ x. x.id == r.id) t.rows)) [
  | inl a ↦ rw a (omega arith)
  | inr a ↦ elim (Bool-cases (any (conflicts r) t.rows)) [
    | inl b ↦ rw (a, b) (omega arith)
    | inr b ↦ rw (a, b) (omega arith)
  ]
]

module _ (t : Table) where
  if-seq :
      (b : Bool) (u : Result (Option ℕ) × Table) (n : Result (Option ℕ))
      → t.seq ≤ u.1.seq
      → t.seq ≤ (if b then u else (n, t)).1.seq
  if-seq true u n h = h
  if-seq false u n h = omega arith

  create-seq :
      (key : Bytes) (ttl : ℕ) (value : Blob) (o : Option Row)
      → t.seq ≤ (create_over o key ttl value t).1.seq
  create-seq key ttl value none = insert-seq _ t
  create-seq key ttl value (some r) = if-seq r.deleted _ _ (insert-seq _ t)

  update-seq :
      (key : Bytes) (ttl : ℕ) (value : Blob) (prev : ℕ) (o : Option Row)
      → t.seq ≤ (update_over o key ttl value prev t).1.seq
  update-seq key ttl value prev none = omega arith
  update-seq key ttl value prev (some r) =
      if-seq (not r.deleted && r.id == prev) _ _ (insert-seq _ t)

  delete-seq : (prev : ℕ) (o : Option Row) → t.seq ≤ (delete_over o prev t).1.seq
  delete-seq prev none = omega arith
  delete-seq prev (some r) = if-seq (not r.deleted && r.id == prev) _ _ (insert-seq _ t)

step-seq : {c d : ℕ} {t u : Table} → Step c t d u → t.seq ≤ u.seq
unfolding create_sql update_sql delete_sql fill_sql
step-seq {t = t} (create key ttl value n e q) =
    rw e (create-seq t key ttl value (latest key t.rows))
step-seq {t = t} (update key ttl value prev n e q) =
    rw e (update-seq t key ttl value prev (latest key t.rows))
step-seq {t = t} (delete key prev n e q) = rw e (delete-seq t prev (latest key t.rows))
step-seq {t = t} (begin unborn z e q) =
    rw e (create-seq t compact_rev_key 0 (some List.[]) (latest compact_rev_key t.rows))
step-seq {t = t} (fill revision name g e q) = rw e (insert-seq (fill_row revision name) t)
step-seq (compact stop p room e q) = rw e (omega arith)

step-compact : {c d : ℕ} {t u : Table} → Step c t d u → c ≤ d
step-compact (create key ttl value n e q) = omega (arith, q)
step-compact (update key ttl value prev n e q) = omega (arith, q)
step-compact (delete key prev n e q) = omega (arith, q)
step-compact (begin unborn z e q) = omega (arith, q)
step-compact (fill revision name g e q) = omega (arith, q)
step-compact (compact stop p room e q) = omega (arith, q, p)

runs-compact : {c d : ℕ} {t u : Table} → Runs c t d u → c ≤ d
runs-compact done = omega arith
runs-compact (next s r) = omega (arith, step-compact s, runs-compact r)

pub Runs-IsLog : {c d : ℕ} {t u : Table} → IsLog c t → Runs c t d u → IsLog d u
Runs-IsLog l done = l
Runs-IsLog {c = c} {t = t} l (next {d = d} {u = u} s r) = Runs-IsLog (Step-IsLog c t d u l s) r

-- From a log, for a revision that is not newer than its counter: whatever statements run, in whatever order,
-- a range read at the revision finds what it found before, until a compaction passes the revision. The
-- range does not hold compact_rev_key.
pub seen-Runs :
    (from to : Bytes) (v limit : ℕ) {c d : ℕ} {t u : Table}
    → IsLog c t
    → v ≤ t.seq
    → d ≤ v
    → in_range from to compact_rev_key ≡ false
    → Runs c t d u
    → seen from to v limit u ≡ seen from to v limit t
seen-Runs from to v limit l old uncompacted away done = refl
seen-Runs from to v limit {t = t} l old uncompacted away (next {d = c'} {u = t'} s r) =
    seen-Runs from to v limit (Step-IsLog _ t c' t' l s) (omega (arith, old, step-seq s))
      uncompacted away r
    ∙ step_same from to v limit t old l (omega (arith, uncompacted, runs-compact r)) away s
