-- ===== src/Table/Intervals.antt =====
-- What the interval of revisions (revisionIntervalSQL of pkg/kine/drivers/generic/generic.go) says of a log, and
-- how a compaction batch changes it.
use k8s_dqlite.Prelude.{
  ℕ, ◌≤◌, ◌<◌, max, ◌≡◌, refl, sym, ap, ◌∙◌, ◌≢◌, ◌⊎◌, inl, inr, Bool, true, false, Option, none,
  some, List, [], ◌∷◌, arith, In, In-map, leb, Bool-cases, if◌then◌else◌,
}
use k8s_dqlite.Bytes.Order.{same→eq, eq→same}
use k8s_dqlite.Table.{
  Row, Table, compact_rev_key, named, null_zero, max_id, max_compact, revision_interval, raise_prev,
}
use k8s_dqlite.Table.Invariant.{IsLog}
use k8s_dqlite.Table.Compaction.{pruned, stays}
use k8s_dqlite.Table.Compacted.{compacted, raise_prev-SameButPrev, later_stays}

-- The table has a row of compact_rev_key.
abbrev pub HasKey : List Row → Type 0
HasKey rows = (a : Row) × In a rows × (a.name ≡ compact_rev_key)

-- Some row is newer than the revision.
abbrev pub Newer : ℕ → List Row → Type 0
Newer n rows = (a : Row) × In a rows × (n < a.id)

max_id_at_most :
    (n : ℕ) (xs : List Row) → ((a : Row) → In a xs → a.id ≤ n) → null_zero (max_id xs) ≤ n
unfolding max_id
max_id_at_most n [] h = omega arith
max_id_at_most n (x ∷ xs) h = by_rest (max_id xs) (max_id_at_most n xs (λ a m. h a (inr m)))
  where
    by_rest :
        (o : Option ℕ)
        → null_zero o ≤ n
        → null_zero (some (elim o as (λ x. ℕ) [ none ↦ x.id | some m ↦ max x.id m ])) ≤ n
    by_rest none p = h x (inl refl)
    by_rest (some m) p = omega (arith, p, h x (inl refl))

max_id_at_least : (xs : List Row) (a : Row) → In a xs → a.id ≤ null_zero (max_id xs)
unfolding max_id
max_id_at_least [] a m = elim m [ ]
max_id_at_least (x ∷ xs) a m = by_rest (max_id xs) m (max_id_at_least xs a)
  where
    by_rest :
        (o : Option ℕ)
        → (a ≡ x) ⊎ In a xs
        → (In a xs → a.id ≤ null_zero o)
        → a.id ≤ null_zero (some (elim o as (λ x. ℕ) [ none ↦ x.id | some m ↦ max x.id m ]))
    by_rest none (inl e) p = omega (arith, ap (λ (r : Row). r.id) e)
    by_rest none (inr i) p = let q = p i in omega (arith, q)
    by_rest (some k) (inl e) p = omega (arith, ap (λ (r : Row). r.id) e)
    by_rest (some k) (inr i) p = let q = p i in omega (arith, q)

max_id_attained :
    (xs : List Row) (a : Row) → In a xs → (b : Row) × In b xs × (b.id ≡ null_zero (max_id xs))
unfolding max_id
max_id_attained [] a m = elim m [ ]
max_id_attained (x ∷ []) a m = (x, inl refl, refl)
max_id_attained (x ∷ y ∷ ys) a m =
    let (b, i, e) = max_id_attained (y ∷ ys) y (inl refl) in
    elim (Bool-cases (leb b.id x.id)) [
      | inl h ↦ (x, inl refl, ground (arith, e, h))
      | inr h ↦ (b, inr i, ground (arith, e, h))
    ]

max_compact_either :
    (c : ℕ) (xs : List Row)
    → ((a : Row) → In a xs → a.name ≡ compact_rev_key → a.prev_revision ≡ c)
    → (max_compact xs ≡ none) ⊎ (max_compact xs ≡ some c)
unfolding max_compact
max_compact_either c [] h = inl refl
max_compact_either c (x ∷ xs) h =
    by_name (named compact_rev_key x) refl (max_compact xs)
      (max_compact_either c xs (λ a m. h a (inr m)))
  where
    by_name :
        (b : Bool)
        → named compact_rev_key x ≡ b
        → (o : Option ℕ) → (o ≡ none) ⊎ (o ≡ some c)
        → ((if b
              then some
                  (elim o as (λ x. ℕ) [ none ↦ x.prev_revision | some m ↦ max x.prev_revision m ])
              else o)
            ≡ none)
          ⊎ ((if b
                then some
                    (elim o as (λ x. ℕ) [ none ↦ x.prev_revision | some m ↦ max x.prev_revision m ])
                else o)
              ≡ some c)
    by_name false n o p = p
    by_name true n none p = inr (ap some (h x (inl refl) (same→eq x.name compact_rev_key n)))
    by_name true n (some k) (inl p) = absurd (cc (p))
    by_name true n (some k) (inr p) =
        let e : k ≡ c = cc (p) in
        inr (ap some (omega (arith, e, h x (inl refl) (same→eq x.name compact_rev_key n))))

max_compact_some :
    (xs : List Row) (a : Row) → In a xs → a.name ≡ compact_rev_key → max_compact xs ≢ none
unfolding max_compact
max_compact_some [] a m e q = elim m [ ]
max_compact_some (x ∷ xs) a m e q =
    by_name (named compact_rev_key x) refl (max_compact xs) m (λ i. max_compact_some xs a i e) q
  where
    by_name :
        (b : Bool)
        → named compact_rev_key x ≡ b
        → (o : Option ℕ) → (a ≡ x) ⊎ In a xs
        → (In a xs → o ≢ none)
        → (if b
            then some
                (elim o as (λ x. ℕ) [ none ↦ x.prev_revision | some m ↦ max x.prev_revision m ])
            else o)
          ≡ none
        → ⊥
    by_name true n o m rest q = absurd (cc (q))
    by_name false n o (inr i) rest q = rest i q
    by_name false n o (inl p) rest q =
        cc (n, eq→same x.name compact_rev_key (ap (λ (r : Row). r.name) (sym p) ∙ e))

module _ {c : ℕ} {t : Table} (l : IsLog c t) where
  -- On a log with a row of the key, the interval starts at the compact revision.
  pub interval_start : HasKey t.rows → (revision_interval t).0 ≡ c
  unfolding revision_interval
  interval_start (a, m, e) = by_case (max_compact_either c t.rows (λ a m e. (l.key_row a m e).0))
    where
      by_case :
          (max_compact t.rows ≡ none) ⊎ (max_compact t.rows ≡ some c)
          → null_zero (max_compact t.rows) ≡ c
      by_case (inl n) = absurd (max_compact_some t.rows a m e n)
      by_case (inr s) = ap null_zero s

  pub interval_end : (revision_interval t).1 ≤ t.seq
  unfolding revision_interval
  interval_end = max_id_at_most t.seq t.rows l.id_le_seq

  pub interval-Newer : (n : ℕ) → Newer n t.rows → n < (revision_interval t).1
  unfolding revision_interval
  interval-Newer n (a, m, p) = omega (arith, p, max_id_at_least t.rows a m)

  -- The newest row is past every revision below the end of the interval.
  pub newest-Newer :
      (n : ℕ) → HasKey t.rows → (n < (revision_interval t).1) ⊎ (n ≡ 0) → Newer n t.rows
  unfolding revision_interval
  newest-Newer n (a, m, k) h =
      let (b, i, e) = max_id_attained t.rows a m in
      (b, i, elim h [ inl p ↦ omega (arith, e, p) | inr p ↦ omega (arith, p, l.id_pos b i) ])

module _ (start stop : ℕ) {t : Table} (l : IsLog start t) (order : start ≤ stop)
    (room : stop ≤ t.seq) where
  -- A batch keeps the row of the key, and the rows past it.
  pub compacted-HasKey : HasKey t.rows → HasKey (compacted start stop t).rows
  compacted-HasKey (a, m, e) =
      let i =
        stays start stop l a m (λ d p q. cc (d, (l.key_row a m e).2))
          (λ s. s.user (sym (l.prev_name a s.by m s.member s.user (sym s.prev)) ∙ e)) in
      (
        raise_prev stop a,
        In-map (raise_prev stop) a (pruned start stop t).rows i,
        (raise_prev-SameButPrev stop a).name ∙ e,
      )

  pub compacted-Newer : (n : ℕ) → stop ≤ n → Newer n t.rows → Newer n (compacted start stop t).rows
  compacted-Newer n h (a, m, p) =
      let i = later_stays start stop l order room a m (omega (arith, h, p)) in
      (
        raise_prev stop a,
        In-map (raise_prev stop) a (pruned start stop t).rows i,
        omega (arith, p, (raise_prev-SameButPrev stop a).id),
      )
