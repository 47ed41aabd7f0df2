-- ===== src/Table/Snapshot.antt =====
-- Range reads before and after a compaction (`listSQL` of pkg/kine/drivers/generic/generic.go).
use k8s_dqlite.Prelude.{
  ℕ, ◌≤◌, ◌<◌, ◌≡◌, refl, sym, ap, ◌∙◌, ◌≢◌, inl, inr, Bool, true, false, not, ◌&&◌, ◌||◌, Option,
  none, some, List, [], ◌∷◌, map, arith, ltb, ltb→lt, lt→ltb, le→leb, In, Bool-cases, any,
  In-of_any, any_of_In, &&_left, &&_right, &&_intro, filter, filter_congr, filter-filter, In-filter,
  In-of_filter, bool_ext,
}
use k8s_dqlite.Bytes.{Bytes, same}
use k8s_dqlite.Bytes.Order.{same→eq, eq→same}
use k8s_dqlite.Bytes.Ranges.{in_range}
use k8s_dqlite.Table.{Row, Table, compact_rev_key, named, raise_prev}
use k8s_dqlite.Table.Select.{upto, grouped, is_max, by_name, limited, selected, list_sql}
use k8s_dqlite.Table.Invariant.{IsLog}
use k8s_dqlite.Table.Compaction.{pruned, In-of_pruned, stays, stays_last, is_superseded, is_dead}
use k8s_dqlite.Table.Compacted.{compacted, later_stays}

-- The read is of the current state, or at a revision that is not below `stop`.
abbrev pub NotBefore : ℕ → Option ℕ → Type 0
NotBefore stop none = Unit
NotBefore stop (some revision) = stop ≤ revision

upto_of_NotBefore :
    (stop : ℕ) (revision : Option ℕ) (r : Row)
    → NotBefore stop revision
    → r.id ≤ stop
    → upto revision r ≡ true
upto_of_NotBefore stop none r h p = refl
upto_of_NotBefore stop (some v) r h p = le→leb _ _ (omega arith)

after_parts :
    (k p d m : Bool)
    → ((k && p) && ((not d || false) && m)) ≡ true
    → (k ≡ true) × (p ≡ true) × (d ≡ false) × (m ≡ true)
after_parts k p d m h = ground arith

after_intro :
    (k p d m : Bool)
    → k ≡ true
    → p ≡ true
    → d ≡ false
    → m ≡ true
    → ((k && p) && ((not d || false) && m)) ≡ true
after_intro k p d m a b c e = ground arith

before_parts :
    (p d m : Bool) → (p && ((not d || false) && m)) ≡ true → (p ≡ true) × (d ≡ false) × (m ≡ true)
before_parts p d m h = ground arith

before_intro :
    (p d m : Bool) → p ≡ true → d ≡ false → m ≡ true → (p && ((not d || false) && m)) ≡ true
before_intro p d m a b c = ground arith

-- The rows that a read groups.
abbrev reads : Bytes → Bytes → Option ℕ → Row → Bool
reads from to revision r = in_range from to r.name && upto revision r

-- A later row of the name of `r`.
abbrev beats : Row → Row → Bool
beats r x = same x.name r.name && ltb r.id x.id

grouped_raise :
    (from to : Bytes) (revision : Option ℕ) (stop : ℕ) (rows : List Row)
    → in_range from to compact_rev_key ≡ false
    → grouped from to revision (map (raise_prev stop) rows) ≡ grouped from to revision rows
grouped_raise from to revision stop [] h = refl
grouped_raise from to revision stop (x ∷ xs) h = elim (Bool-cases (named compact_rev_key x)) [
  | inl k ↦
      let n : in_range from to x.name ≡ false = ap (in_range from to) (same→eq _ _ k) ∙ h in
      rw (k, n, grouped_raise from to revision stop xs h) refl
  | inr k ↦ rw (k, grouped_raise from to revision stop xs h) refl
]

module _ (start stop : ℕ) {t : Table} (l : IsLog start t) (order : start ≤ stop)
    (room : stop ≤ t.seq) (from to : Bytes) (revision : Option ℕ)
    (late : NotBefore stop revision) where
  abbrev before : List Row
  before = grouped from to revision t.rows

  abbrev after : List Row
  after = grouped from to revision (pruned start stop t).rows

  keeps : Row → Bool
  keeps a = not (is_superseded start stop t.rows a) && not (is_dead start stop a)

  -- What survives is read as the latest only if it was the latest.
  was_max :
      (a : Row)
      → In a (pruned start stop t).rows
      → a.name ≢ compact_rev_key
      → is_max after a ≡ true
      → is_max before a ≡ true
  was_max a i user h = elim (Bool-cases (any (beats a) before)) [
    | inl b ↦
        let (x, j, e) = In-of_any (beats a) before b in
        let (k, p) = In-of_filter (reads from to revision) x t.rows j in
        let n : x.name ≡ a.name = same→eq _ _ (&&_left _ _ e) in
        elim (Bool-cases (ltb stop x.id)) [
          | inl new ↦
              let m =
                In-filter (reads from to revision) x (pruned start stop t).rows
                  (later_stays start stop l order room x k (ltb→lt _ _ new)) p in
              cc (h, any_of_In (beats a) x after m e)
          | inr old ↦
              absurd (
                stays_last start stop l a x i k n user (ltb→lt _ _ (&&_right _ _ e)) (ground arith))
        ]
    | inr b ↦ rw b
  ]

  -- A live row that is the latest of its name at the revision survives.
  max_stays :
      (a : Row)
      → In a t.rows
      → reads from to revision a ≡ true
      → a.deleted ≡ false
      → is_max before a ≡ true
      → In a (pruned start stop t).rows
  max_stays a i p live h =
      stays start stop l a i (λ d q r. cc (d, live))
        (λ s.
          let n = l.prev_name a s.by i s.member s.user (sym s.prev) in
          let lt : a.id < s.by.id = omega (arith, s.prev, l.prev_lt s.by s.member s.user) in
          let q : reads from to revision s.by ≡ true =
            &&_intro _ _ (ap (in_range from to) (sym n) ∙ &&_left _ _ p)
              (upto_of_NotBefore stop revision s.by late s.upto) in
          cc (
            h,
            any_of_In (beats a) s.by before
                (In-filter (reads from to revision) s.by t.rows s.member q)
                (&&_intro _ _ (eq→same _ _ (sym n)) (lt→ltb _ _ lt)),
          ))

  is_max_after : (a : Row) → is_max before a ≡ true → is_max after a ≡ true
  is_max_after a h = elim (Bool-cases (any (beats a) after)) [
    | inl b ↦
        let (x, j, e) = In-of_any (beats a) after b in
        let (k, p) = In-of_filter (reads from to revision) x (pruned start stop t).rows j in
        cc (
          h,
          any_of_In (beats a) x before
              (In-filter (reads from to revision) x t.rows (In-of_pruned start stop l x k).0 p) e,
        )
    | inr b ↦ rw b
  ]

  module _ (away : in_range from to compact_rev_key ≡ false) where
    user_of_reads : (a : Row) → reads from to revision a ≡ true → a.name ≢ compact_rev_key
    user_of_reads a p n =
        cc (away, ap (in_range from to) n, &&_left (in_range from to a.name) (upto revision a) p)

    -- The test of a row by the read of the new table, and by the read of the old one.
    abbrev chosen_after : Row → Bool
    chosen_after a =
        (keeps a && reads from to revision a) && ((not a.deleted || false) && is_max after a)

    abbrev chosen_before : Row → Bool
    chosen_before a = reads from to revision a && ((not a.deleted || false) && is_max before a)

    In-of_keeps : (a : Row) → In a t.rows → keeps a ≡ true → In a (pruned start stop t).rows
    unfolding keeps pruned
    In-of_keeps a i k =
        In-filter (λ x. not (is_dead start stop x)) a
          (filter (λ x. not (is_superseded start stop t.rows x)) t.rows)
          (In-filter (λ x. not (is_superseded start stop t.rows x)) a t.rows i (&&_left _ _ k))
          (&&_right _ _ k)

    keeps_of_In : (a : Row) → In a (pruned start stop t).rows → keeps a ≡ true
    unfolding keeps
    keeps_of_In a m = let h = In-of_pruned start stop l a m in &&_intro _ _ h.1 h.2

    chosen_same : (a : Row) → In a t.rows → chosen_after a ≡ chosen_before a
    chosen_same a i =
        bool_ext (chosen_after a) (chosen_before a)
          (λ h.
            let (k, p, live, m) =
              after_parts (keeps a) (reads from to revision a) a.deleted (is_max after a) h in
            before_intro (reads from to revision a) a.deleted (is_max before a) p live
              (was_max a (In-of_keeps a i k) (user_of_reads a p) m))
          (λ h.
            let (p, live, m) =
              before_parts (reads from to revision a) a.deleted (is_max before a) h in
            after_intro (keeps a) (reads from to revision a) a.deleted (is_max after a)
              (keeps_of_In a (max_stays a i p live m)) p live (is_max_after a m))

    pruned_rows : (pruned start stop t).rows ≡ filter keeps t.rows
    unfolding keeps pruned
    pruned_rows =
        filter-filter (λ x. not (is_dead start stop x))
          (λ x. not (is_superseded start stop t.rows x)) t.rows

    latest_after : Row → Bool
    latest_after a = (not a.deleted || false) && is_max after a

    selected_after : filter latest_after after ≡ filter chosen_after t.rows
    unfolding latest_after
    selected_after =
        ap (λ (rows : List Row). filter latest_after (filter (reads from to revision) rows))
          pruned_rows
        ∙ ap (filter latest_after) (filter-filter (reads from to revision) keeps t.rows)
        ∙ filter-filter latest_after (λ a. keeps a && reads from to revision a) t.rows

    selected_same :
        selected from to revision false (compacted start stop t).rows
        ≡ selected from to revision false t.rows
    unfolding latest_after
    selected_same =
        ap (λ (rows : List Row). filter (λ r. (not r.deleted || false) && is_max rows r) rows)
          (grouped_raise from to revision stop (pruned start stop t).rows away)
        ∙ selected_after
        ∙ filter_congr chosen_after chosen_before t.rows chosen_same
        ∙ sym (
            filter-filter (λ r. (not r.deleted || false) && is_max before r)
              (reads from to revision) t.rows)

    -- On a log, with `start` at most `stop` and `stop` at most the counter: a list read over a range that
    -- does not hold compact_rev_key, of the current state or at a revision from `stop` on, returns the same
    -- rows before and after the batch.
    pub list_sql-compacted :
        (limit : ℕ)
        → list_sql from to revision false limit (compacted start stop t)
          ≡ list_sql from to revision false limit t
    unfolding list_sql
    list_sql-compacted limit = ap (λ (rows : List Row). limited limit (by_name rows)) selected_same
