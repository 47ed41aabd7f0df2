-- ===== src/Table/Append.antt =====
-- When a new row fits the log: it is the last of its name, and it names its predecessor.
use k8s_dqlite.Prelude.{
  ℕ, ◌≤◌, ◌<◌, max, ◌≡◌, refl, sym, ap, ◌∙◌, ◌≢◌, ◌⊎◌, inl, inr, true, false, some, arith, ◌==◌,
  ==_iff, In, Bool-cases, any, In-of_any, &&_left, &&_right,
}
use k8s_dqlite.Bytes.{same}
use k8s_dqlite.Bytes.Order.{same→eq}
use k8s_dqlite.Results.{ok}
use k8s_dqlite.Table.{Row, Table, compact_rev_key, place, insert, conflicts}
use k8s_dqlite.Table.Invariant.{IsLog, NoneBetween, In-place, In-place_old, Ascending-place}

pub record Fits (compact : ℕ) (t : Table) (r : Row) : Type 0 where
  pub above : compact < r.id
  pub fresh : (a : Row) → In a t.rows → a.id ≢ r.id
  pub unreferenced : (a : Row) → In a t.rows → a.name ≢ compact_rev_key → a.prev_revision ≢ r.id
  pub last : (a : Row) → In a t.rows → a.name ≡ r.name → a.id < r.id
  pub distinct : (a : Row) → In a t.rows → a.name ≡ r.name → a.prev_revision ≢ r.prev_revision
  pub tombstone : r.deleted ≡ true → r.created ≡ false
  pub prev_lt : r.name ≢ compact_rev_key → r.prev_revision < r.id
  pub prev_name :
      r.name ≢ compact_rev_key → (a : Row) → In a t.rows → a.id ≡ r.prev_revision → a.name ≡ r.name
  pub link :
      r.name ≢ compact_rev_key
      → (a : Row) → In a t.rows
      → a.name ≡ r.name
      → NoneBetween t.rows a r
      → r.prev_revision ≡ a.id
  pub reborn :
      r.name ≢ compact_rev_key
      → r.created ≡ true
      → (a : Row) → In a t.rows
      → a.id ≡ r.prev_revision
      → a.deleted ≡ true
  pub key_row :
      r.name ≡ compact_rev_key
      → (r.prev_revision ≡ compact)
        × (r.created ≡ true)
        × (r.deleted ≡ false)
        × ((a : Row) → In a t.rows → a.name ≢ compact_rev_key)

abbrev pub added : Row → Table → Table
added r t = record { rows = place r t.rows; seq = max t.seq r.id }

module _ {c : ℕ} {t : Table} {r : Row} (l : IsLog c t) (f : Fits c t r) where
  added_prev_lt :
      (a : Row) → (a ≡ r) ⊎ In a t.rows → a.name ≢ compact_rev_key → a.prev_revision < a.id
  added_prev_lt a (inl e) n = rw e (f.prev_lt (rw e at n))
  added_prev_lt a (inr i) n = l.prev_lt a i n

  added_id_inj : (a b : Row) → (a ≡ r) ⊎ In a t.rows → (b ≡ r) ⊎ In b t.rows → a.id ≡ b.id → a ≡ b
  added_id_inj a b (inl e) (inl e') q = e ∙ sym e'
  added_id_inj a b (inl e) (inr j) q = absurd (f.fresh b j (sym q ∙ ap (λ (y : Row). y.id) e))
  added_id_inj a b (inr i) (inl e') q = absurd (f.fresh a i (q ∙ ap (λ (y : Row). y.id) e'))
  added_id_inj a b (inr i) (inr j) q = l.id_inj a b i j q

  added_prev_name :
      (a b : Row)
      → (a ≡ r) ⊎ In a t.rows
      → (b ≡ r) ⊎ In b t.rows
      → b.name ≢ compact_rev_key
      → a.id ≡ b.prev_revision
      → a.name ≡ b.name
  added_prev_name a b (inl e) (inl e') n q = ap (λ (y : Row). y.name) (e ∙ sym e')
  added_prev_name a b (inl e) (inr j) n q =
      absurd (f.unreferenced b j n (sym q ∙ ap (λ (y : Row). y.id) e))
  added_prev_name a b (inr i) (inl e') n q =
      f.prev_name (rw e' at n) a i (q ∙ ap (λ (y : Row). y.prev_revision) e')
      ∙ sym (ap (λ (y : Row). y.name) e')
  added_prev_name a b (inr i) (inr j) n q = l.prev_name a b i j n q

  added_reborn :
      (a b : Row)
      → (a ≡ r) ⊎ In a t.rows
      → (b ≡ r) ⊎ In b t.rows
      → b.name ≢ compact_rev_key
      → b.created ≡ true
      → a.id ≡ b.prev_revision
      → a.deleted ≡ true
  added_reborn a b (inl e) (inl e') n k q =
      let p : r.prev_revision < r.id = f.prev_lt (rw e' at n) in
      absurd (omega (arith, p, ap (λ (y : Row). y.id) e, ap (λ (y : Row). y.prev_revision) e'))
  added_reborn a b (inl e) (inr j) n k q =
      absurd (f.unreferenced b j n (sym q ∙ ap (λ (y : Row). y.id) e))
  added_reborn a b (inr i) (inl e') n k q =
      f.reborn (rw e' at n) (rw e' at k) a i (q ∙ ap (λ (y : Row). y.prev_revision) e')
  added_reborn a b (inr i) (inr j) n k q = l.reborn a b i j n k q

  added_link :
      (a b : Row)
      → (a ≡ r) ⊎ In a t.rows
      → (b ≡ r) ⊎ In b t.rows
      → b.name ≢ compact_rev_key
      → a.name ≡ b.name
      → a.id < b.id
      → c < b.id
      → NoneBetween t.rows a b
      → b.prev_revision ≡ a.id
  added_link a b (inl e) (inl e') n q lt above gap =
      absurd (omega (arith, ap (λ (y : Row). y.id) e, ap (λ (y : Row). y.id) e'))
  added_link a b (inl e) (inr j) n q lt above gap =
      absurd
        (omega (arith, f.last b j (sym q ∙ ap (λ (y : Row). y.name) e), ap (λ (y : Row). y.id) e))
  added_link a b (inr i) (inl e') n q lt above gap =
      rw e' (f.link (rw e' at n) a i (q ∙ ap (λ (y : Row). y.name) e') (rw e' at gap))
  added_link a b (inr i) (inr j) n q lt above gap = l.link a b i j n q lt above gap

  old_of_below : (a : Row) → (a ≡ r) ⊎ In a t.rows → a.id ≤ c → In a t.rows
  old_of_below a (inl e) h = absurd (omega (arith, f.above, ap (λ (y : Row). y.id) e))
  old_of_below a (inr i) h = i

  added_key_row :
      (a : Row)
      → (a ≡ r) ⊎ In a t.rows
      → a.name ≡ compact_rev_key
      → (a.prev_revision ≡ c) × (a.created ≡ true) × (a.deleted ≡ false)
  added_key_row a (inl e) n = let k = f.key_row (rw e at n) in rw e (k.0, k.1, k.2)
  added_key_row a (inr i) n = l.key_row a i n

  added_one_key_row :
      (a b : Row)
      → (a ≡ r) ⊎ In a t.rows
      → (b ≡ r) ⊎ In b t.rows
      → a.name ≡ compact_rev_key
      → b.name ≡ compact_rev_key
      → a ≡ b
  added_one_key_row a b (inl e) (inl e') n m = e ∙ sym e'
  added_one_key_row a b (inl e) (inr j) n m = let k = f.key_row (rw e at n) in absurd (k.3 b j m)
  added_one_key_row a b (inr i) (inl e') n m = let k = f.key_row (rw e' at m) in absurd (k.3 a i n)
  added_one_key_row a b (inr i) (inr j) n m = l.one_key_row a b i j n m

  added_unique :
      (a b : Row)
      → (a ≡ r) ⊎ In a t.rows
      → (b ≡ r) ⊎ In b t.rows
      → a.name ≡ b.name
      → a.prev_revision ≡ b.prev_revision
      → a ≡ b
  added_unique a b (inl e) (inl e') n q = e ∙ sym e'
  added_unique a b (inl e) (inr j) n q = absurd (
      f.distinct b j (sym n ∙ ap (λ (y : Row). y.name) e)
        (sym q ∙ ap (λ (y : Row). y.prev_revision) e))
  added_unique a b (inr i) (inl e') n q =
      absurd (
        f.distinct a i (n ∙ ap (λ (y : Row). y.name) e') (q ∙ ap (λ (y : Row). y.prev_revision) e'))
  added_unique a b (inr i) (inr j) n q = l.unique a b i j n q

  -- A row that fits keeps the log.
  pub added-IsLog : IsLog c (added r t)
  added-IsLog = record {
    id_pos = λ a m. elim (In-place a r t.rows m) [
      | inl e ↦ rw e (omega (arith, f.above))
      | inr i ↦ l.id_pos a i
    ];
    id_le_seq = λ a m. elim (In-place a r t.rows m) [
      | inl e ↦ rw e (omega arith)
      | inr i ↦ omega (arith, l.id_le_seq a i)
    ];
    compact_le_seq = omega (arith, l.compact_le_seq);
    ascending = Ascending-place r t.rows l.ascending f.fresh;
    unique = λ a b m k. added_unique a b (In-place a r t.rows m) (In-place b r t.rows k);
    id_inj = λ a b m k. added_id_inj a b (In-place a r t.rows m) (In-place b r t.rows k);
    prev_lt = λ a m. added_prev_lt a (In-place a r t.rows m);
    tombstone =
        λ a m. elim (In-place a r t.rows m) [ inl e ↦ rw e f.tombstone | inr i ↦ l.tombstone a i ];
    prev_name = λ a b m k. added_prev_name a b (In-place a r t.rows m) (In-place b r t.rows k);
    link = λ a b m k n q lt above gap.
        added_link a b (In-place a r t.rows m) (In-place b r t.rows k) n q lt above
          (λ x i. gap x (In-place_old x r t.rows i));
    reborn = λ a b m k. added_reborn a b (In-place a r t.rows m) (In-place b r t.rows k);
    one_below = λ a b m k n p q.
        l.one_below a b (old_of_below a (In-place a r t.rows m) p)
          (old_of_below b (In-place b r t.rows k) q) n p q;
    live_below = λ a m p. l.live_below a (old_of_below a (In-place a r t.rows m) p) p;
    key_row = λ a m. added_key_row a (In-place a r t.rows m);
    one_key_row = λ a b m k. added_one_key_row a b (In-place a r t.rows m) (In-place b r t.rows k);
  }

  no_same_id : any (λ x. x.id == r.id) t.rows ≡ false
  no_same_id = elim (Bool-cases (any (λ x. x.id == r.id) t.rows)) [
    | inl h ↦
        let (a, m, e) = In-of_any (λ x. x.id == r.id) t.rows h in
        absurd (f.fresh a m ((==_iff _ _).0 e))
    | inr h ↦ h
  ]

  no_conflict : any (conflicts r) t.rows ≡ false
  no_conflict = elim (Bool-cases (any (conflicts r) t.rows)) [
    | inl h ↦
        let (a, m, e) = In-of_any (conflicts r) t.rows h in
        absurd (
          f.distinct a m (same→eq a.name r.name (&&_right (a.prev_revision == r.prev_revision) _ e))
            ((==_iff _ _).0 (&&_left (a.prev_revision == r.prev_revision) (same a.name r.name) e)))
    | inr h ↦ h
  ]

  -- Neither the primary key nor the unique index refuses a row that fits.
  pub insert_fits : insert r t ≡ (ok (some r.id), added r t)
  unfolding insert
  insert_fits = rw (no_same_id, no_conflict) refl
