-- ===== src/Table/Cas.antt =====
-- The INSERT statements are compare-and-swap on the latest row of a key: CreateSQL, UpdateSQL,
-- DeleteSQL and FillSQL of pkg/kine/drivers/generic/generic.go.
use k8s_dqlite.Prelude.{
  ℕ, suc, ◌≤◌, ◌<◌, ◌≡◌, refl, sym, ap, ◌∙◌, ◌≢◌, inl, inr, true, false, Option, none, some, arith,
  ltb, ==_iff, In, Bool-cases,
}
use k8s_dqlite.Bytes.{Bytes}
use k8s_dqlite.Results.{Result, ok}
use k8s_dqlite.Table.{
  Blob, Row, Table, compact_rev_key, latest, insert, create_sql, update_sql, delete_sql,
  created_row, updated_row, deleted_row, create_over, update_over, delete_over,
}
use k8s_dqlite.Table.Invariant.{IsLog}
use k8s_dqlite.Table.Latest.{IsLatest, latest-some, latest-none}
use k8s_dqlite.Table.Append.{Fits, added, added-IsLog, insert_fits}

module _ {c : ℕ} {t : Table} (l : IsLog c t) where
  -- A row that follows the latest row of its name.
  follows-Fits :
      (s r : Row)
      → r.id ≡ suc t.seq
      → IsLatest r.name t.rows s
      → r.prev_revision ≡ s.id
      → r.name ≢ compact_rev_key
      → (r.deleted ≡ true → r.created ≡ false)
      → (r.created ≡ true → s.deleted ≡ true)
      → Fits c t r
  follows-Fits s r new top back user tomb born =
      let unique : (a : Row) → In a t.rows → a.id ≡ r.prev_revision → a ≡ s =
        λ a i q. l.id_inj a s i top.member (q ∙ back) in
      record {
        above = omega (arith, l.compact_le_seq);
        fresh = λ a i e. omega (arith, l.id_le_seq a i);
        unreferenced = λ a i n e. omega (arith, l.prev_lt a i n, l.id_le_seq a i);
        last = λ a i n. omega (arith, l.id_le_seq a i);
        distinct = λ a i n q.
            omega (arith, q, back, l.prev_lt a i (λ e. user (sym n ∙ e)), top.largest a i n);
        tombstone = tomb;
        prev_lt = λ n. omega (arith, l.id_le_seq s top.member);
        prev_name = λ n a i q. ap (λ (y : Row). y.name) (unique a i q) ∙ top.name;
        link = λ n a i q gap. elim (Bool-cases (ltb a.id s.id)) [
          | inl lt ↦ absurd (
              gap s top.member (top.name ∙ sym q) (ground arith)
                (omega (arith, l.id_le_seq s top.member)))
          | inr ge ↦ let h : s.id ≤ a.id = ground arith in omega (arith, top.largest a i q)
        ];
        reborn = λ n k a i q. ap (λ (y : Row). y.deleted) (unique a i q) ∙ born k;
        key_row = λ n. absurd (user n);
      }

  -- The first row of its name.
  pub first-Fits :
      (r : Row)
      → c < r.id
      → r.prev_revision ≡ 0
      → ((a : Row) → In a t.rows → a.name ≢ r.name)
      → ((a : Row) → In a t.rows → a.id ≢ r.id)
      → ((a : Row) → In a t.rows → a.name ≢ compact_rev_key → a.prev_revision ≢ r.id)
      → (r.deleted ≡ true → r.created ≡ false)
      → (r.name ≡ compact_rev_key → (c ≡ 0) × (r.created ≡ true) × (r.deleted ≡ false))
      → Fits c t r
  first-Fits r above back alone fresh free tomb key = record {
    above = above;
    fresh = fresh;
    unreferenced = free;
    last = λ a i n. absurd (alone a i n);
    distinct = λ a i n q. alone a i n;
    tombstone = tomb;
    prev_lt = λ n. omega arith;
    prev_name = λ n a i q. absurd (omega (arith, l.id_pos a i));
    link = λ n a i q gap. absurd (alone a i q);
    reborn = λ n k a i q. absurd (omega (arith, l.id_pos a i));
    key_row = λ n. (back ∙ sym (key n).0, (key n).1, (key n).2, λ a i e. alone a i (e ∙ sym n));
  }

  follows_inserts :
      (s r : Row)
      → r.id ≡ suc t.seq
      → IsLatest r.name t.rows s
      → r.prev_revision ≡ s.id
      → r.name ≢ compact_rev_key
      → (r.deleted ≡ true → r.created ≡ false)
      → (r.created ≡ true → s.deleted ≡ true)
      → (insert r t ≡ (ok (some r.id), added r t)) × IsLog c (added r t)
  follows_inserts s r new top back user tomb born =
      let f = follows-Fits s r new top back user tomb born in (insert_fits l f, added-IsLog l f)

  first_inserts :
      (r : Row)
      → r.id ≡ suc t.seq
      → r.prev_revision ≡ 0
      → ((a : Row) → In a t.rows → a.name ≢ r.name)
      → (r.deleted ≡ true → r.created ≡ false)
      → (r.name ≡ compact_rev_key → (c ≡ 0) × (r.created ≡ true) × (r.deleted ≡ false))
      → (insert r t ≡ (ok (some r.id), added r t)) × IsLog c (added r t)
  first_inserts r new back alone tomb key =
      let f =
        first-Fits r (omega (arith, l.compact_le_seq)) back alone
          (λ a i e. omega (arith, l.id_le_seq a i))
          (λ a i n e. omega (arith, l.prev_lt a i n, l.id_le_seq a i)) tomb key in
      (insert_fits l f, added-IsLog l f)

-- The statement inserted the row, and the log is kept.
abbrev Inserted : ℕ → Table → Row → Result (Option ℕ) × Table → Type 0
Inserted c t r out = (out ≡ (ok (some (suc t.seq)), added r t)) × IsLog c out.1

module _ {c : ℕ} {t : Table} (l : IsLog c t) (key : Bytes) (ttl : ℕ) (value : Blob) where
  insert_next :
      (r : Row)
      → r.id ≡ suc t.seq
      → (insert r t ≡ (ok (some r.id), added r t)) × IsLog c (added r t)
      → Inserted c t r (insert r t)
  insert_next r e (q, k) = (q ∙ ap (λ (n : ℕ). (ok (some n), added r t)) e, rw q k)

  -- Where the statement is this insertion, it does what the insertion does.
  by_insert :
      (r : Row) (out : Result (Option ℕ) × Table)
      → out ≡ insert r t
      → r.id ≡ suc t.seq
      → (insert r t ≡ (ok (some r.id), added r t)) × IsLog c (added r t)
      → Inserted c t r out
  by_insert r out e new h = rw e (insert_next r new h)

  pub create_first :
      latest key t.rows ≡ none
      → (key ≡ compact_rev_key → c ≡ 0)
      → Inserted c t (created_row key ttl value 0 t) (create_sql key ttl value t)
  unfolding create_sql
  create_first e key0 =
      let r = created_row key ttl value 0 t in
      by_insert r _ (ap (λ o. create_over o key ttl value t) e) refl (
        first_inserts l r refl refl (latest-none key t.rows e) (λ q. absurd (cc))
          (λ n. (key0 n, refl, refl)))

  pub create_again :
      (s : Row)
      → latest key t.rows ≡ some s
      → s.deleted ≡ true
      → key ≢ compact_rev_key
      → Inserted c t (created_row key ttl value s.id t) (create_sql key ttl value t)
  unfolding create_sql
  create_again s e d user =
      let r = created_row key ttl value s.id t in
      by_insert r _ (ap (λ o. create_over o key ttl value t) e ∙ rw d) refl (
        follows_inserts l s r refl (latest-some key t.rows s e) refl user (λ q. absurd (cc))
          (λ q. d))

  pub update_next :
      (s : Row)
      → latest key t.rows ≡ some s
      → s.deleted ≡ false
      → key ≢ compact_rev_key
      → Inserted c t (updated_row key ttl value s t) (update_sql key ttl value s.id t)
  unfolding update_sql
  update_next s e d user =
      let r = updated_row key ttl value s t in
      by_insert r _
        (ap (λ o. update_over o key ttl value s.id t) e ∙ rw (d, (==_iff s.id s.id).1 refl)) refl
        (follows_inserts l s r refl (latest-some key t.rows s e) refl user (λ q. absurd (cc))
          (λ q. absurd (cc)))

  pub delete_next :
      (s : Row)
      → latest key t.rows ≡ some s
      → s.deleted ≡ false
      → key ≢ compact_rev_key
      → Inserted c t (deleted_row s t) (delete_sql key s.id t)
  unfolding delete_sql
  delete_next s e d user =
      let r = deleted_row s t in
      let top = latest-some key t.rows s e in
      by_insert r _ (ap (λ o. delete_over o s.id t) e ∙ rw (d, (==_iff s.id s.id).1 refl)) refl (
        follows_inserts l s r refl
          (record {
            member = top.member;
            name = refl;
            largest = λ a i n. top.largest a i (n ∙ top.name);
          })
          refl (λ n. user (sym top.name ∙ n)) (λ q. refl) (λ q. absurd (cc)))
