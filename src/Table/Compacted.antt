-- ===== src/Table/Compacted.antt =====
-- The table after a whole compaction batch: `tryCompact` of pkg/kine/drivers/generic/generic.go.
use k8s_dqlite.Prelude.{
  ℕ, ◌≤◌, ◌<◌, max, ◌≡◌, refl, sym, ap, ◌∙◌, ◌≢◌, inl, inr, true, false, not, List, [], ◌∷◌, map,
  arith, ltb, ltb→lt, In, Bool-cases, filter, In-map, In-of_map,
}
use k8s_dqlite.Bytes.Order.{same→eq, eq→same, same_ne}
use k8s_dqlite.Table.{Row, Table, compact_rev_key, named, raise_prev}
use k8s_dqlite.Table.Invariant.{IsLog, NoneBetween, Ascending, Ascending-filter}
use k8s_dqlite.Table.Compaction.{
  pruned, In-of_pruned, stays_live, stays, stays_last, is_dead, is_superseded,
}

-- What the UPDATE leaves of a row.
pub record SameButPrev (a b : Row) : Type 0 where
  pub id : b.id ≡ a.id
  pub name : b.name ≡ a.name
  pub created : b.created ≡ a.created
  pub deleted : b.deleted ≡ a.deleted

pub raise_prev-SameButPrev : (stop : ℕ) (a : Row) → SameButPrev a (raise_prev stop a)
raise_prev-SameButPrev stop a = elim (Bool-cases (named compact_rev_key a)) [
  | inl h ↦ rw h (record { id = refl; name = refl; created = refl; deleted = refl })
  | inr h ↦ rw h (record { id = refl; name = refl; created = refl; deleted = refl })
]

pub raise_prev_user : (stop : ℕ) (a : Row) → a.name ≢ compact_rev_key → raise_prev stop a ≡ a
raise_prev_user stop a n = rw (same_ne a.name compact_rev_key n)

raise_prev_key :
    (stop : ℕ) (a : Row)
    → a.name ≡ compact_rev_key
    → (raise_prev stop a).prev_revision ≡ max a.prev_revision stop
raise_prev_key stop a n = rw (eq→same a.name compact_rev_key n)

-- The table after the three statements of tryCompact.
abbrev pub compacted : ℕ → ℕ → Table → Table
compacted start stop t = record {
  rows = map (raise_prev stop) (pruned start stop t).rows;
  seq = t.seq;
}

module _ (start stop : ℕ) {t : Table} (l : IsLog start t) (order : start ≤ stop)
    (room : stop ≤ t.seq) where
  -- A row of the new table comes from a row that stayed.
  pub record From (b : Row) : Type 0 where
    pub row : Row
    pub stayed : In row (pruned start stop t).rows
    pub old : In row t.rows
    pub image : b ≡ raise_prev stop row
    pub like : SameButPrev row b

  pub from : (b : Row) → In b (compacted start stop t).rows → From b
  from b m =
      let (a, i, e) = In-of_map (raise_prev stop) b (pruned start stop t).rows m in
      record {
        row = a;
        stayed = i;
        old = (In-of_pruned start stop l a i).0;
        image = e;
        like = rw e (raise_prev-SameButPrev stop a);
      }

  from_user :
      (b : Row)
      → In b (compacted start stop t).rows
      → b.name ≢ compact_rev_key
      → In b (pruned start stop t).rows
  from_user b m n =
      let f = from b m in
      let q : b ≡ f.row = f.image ∙ raise_prev_user stop f.row (λ e. n (f.like.name ∙ e)) in
      rw q f.stayed

  into_user :
      (a : Row)
      → In a (pruned start stop t).rows
      → a.name ≢ compact_rev_key
      → In a (compacted start stop t).rows
  into_user a i n =
      rw (raise_prev_user stop a n) at (In-map (raise_prev stop) a (pruned start stop t).rows i)

  -- A row past the batch stays.
  pub later_stays : (a : Row) → In a t.rows → stop < a.id → In a (pruned start stop t).rows
  later_stays a i p =
      stays start stop l a i (λ d q r. omega arith)
        (λ s. omega (arith, p, s.prev, s.upto, l.prev_lt s.by s.member s.user))

  gap_before :
      (a b : Row)
      → In a (pruned start stop t).rows
      → a.name ≢ compact_rev_key
      → stop < b.id
      → NoneBetween (compacted start stop t).rows a b
      → NoneBetween t.rows a b
  gap_before a b i user p gap x j n q r = elim (Bool-cases (ltb stop x.id)) [
    | inl late ↦
        gap x (into_user x (later_stays x j (ltb→lt _ _ late)) (λ e. user (sym n ∙ e))) n q r
    | inr early ↦ stays_last start stop l a x i j n user q (ground arith)
  ]

  same_row :
      (a b : Row)
      → In a (pruned start stop t).rows
      → In b (pruned start stop t).rows
      → a.name ≡ b.name
      → a.id ≤ stop
      → b.id ≤ stop
      → a.name ≢ compact_rev_key
      → a.id ≡ b.id
  same_row a b i j n p q user = elim (Bool-cases (ltb a.id b.id)) [
    | inl lt ↦ absurd (
        stays_last start stop l a b i (In-of_pruned start stop l b j).0 (sym n) user (ltb→lt _ _ lt)
          q)
    | inr ge ↦ elim (Bool-cases (ltb b.id a.id)) [
      | inl gt ↦ absurd (
          stays_last start stop l b a j (In-of_pruned start stop l a i).0 n (λ e. user (n ∙ e))
            (ltb→lt _ _ gt) p)
      | inr le ↦ ground arith
    ]
  ]

  stays_deleted : (a : Row) → In a (pruned start stop t).rows → a.id ≤ stop → a.deleted ≡ true → ⊥
  stays_deleted a i p d = elim (Bool-cases (ltb start a.id)) [
    | inl new ↦ stays_live start stop l a i d (ltb→lt _ _ new) p
    | inr old ↦ cc (d, l.live_below a (In-of_pruned start stop l a i).0 (ground arith))
  ]

  image_eq : (a b : Row) (f : From a) (g : From b) → f.row ≡ g.row → a ≡ b
  image_eq a b f g e = f.image ∙ ap (raise_prev stop) e ∙ sym g.image

  compacted_one_below :
      (a b : Row) → From a → From b → a.name ≡ b.name → a.id ≤ stop → b.id ≤ stop → a ≡ b
  compacted_one_below a b f g n p q =
      let n' : f.row.name ≡ g.row.name = sym f.like.name ∙ n ∙ g.like.name in
      elim (Bool-cases (named compact_rev_key f.row)) [
        | inl k ↦
            let e : f.row.name ≡ compact_rev_key = same→eq _ _ k in
            image_eq a b f g (l.one_key_row f.row g.row f.old g.old e (sym n' ∙ e))
        | inr k ↦ image_eq a b f g (
            l.id_inj f.row g.row f.old g.old (
              same_row f.row g.row f.stayed g.stayed n' (rw f.like.id at p) (rw g.like.id at q)
                (λ e. cc (k, eq→same f.row.name compact_rev_key e))))
      ]

  compacted_key_row :
      (a : Row)
      → From a
      → a.name ≡ compact_rev_key
      → (a.prev_revision ≡ stop) × (a.created ≡ true) × (a.deleted ≡ false)
  compacted_key_row a f n =
      let e : f.row.name ≡ compact_rev_key = sym f.like.name ∙ n in
      let k = l.key_row f.row f.old e in
      (
        ap (λ (y : Row). y.prev_revision) f.image
            ∙ raise_prev_key stop f.row e
            ∙ omega (arith, k.0),
        f.like.created ∙ k.1,
        f.like.deleted ∙ k.2,
      )

  Ascending-raise : (rows : List Row) → Ascending rows → Ascending (map (raise_prev stop) rows)
  Ascending-raise [] h = tt
  Ascending-raise (x ∷ xs) h = (
    λ y m.
        let (a, i, e) = In-of_map (raise_prev stop) y xs m in
        omega (
          arith,
          h.0 a i,
          ap (λ (z : Row). z.id) e,
          (raise_prev-SameButPrev stop x).id,
          (raise_prev-SameButPrev stop a).id,
        ),
    Ascending-raise xs h.1,
  )

  pruned-Ascending : Ascending (pruned start stop t).rows
  unfolding pruned
  pruned-Ascending =
      Ascending-filter (λ x. not (is_dead start stop x))
        (filter (λ x. not (is_superseded start stop t.rows x)) t.rows)
        (Ascending-filter (λ x. not (is_superseded start stop t.rows x)) t.rows l.ascending)

  compacted_unique :
      (a b : Row) → From a → From b → a.name ≡ b.name → a.prev_revision ≡ b.prev_revision → a ≡ b
  compacted_unique a b f g n q =
      let n' : f.row.name ≡ g.row.name = sym f.like.name ∙ n ∙ g.like.name in
      elim (Bool-cases (named compact_rev_key f.row)) [
        | inl k ↦
            let e : f.row.name ≡ compact_rev_key = same→eq _ _ k in
            image_eq a b f g (l.one_key_row f.row g.row f.old g.old e (sym n' ∙ e))
        | inr k ↦
            let user : f.row.name ≢ compact_rev_key =
              λ e. cc (k, eq→same f.row.name compact_rev_key e) in
            let ea : a ≡ f.row = f.image ∙ raise_prev_user stop f.row user in
            let eb : b ≡ g.row = g.image ∙ raise_prev_user stop g.row (λ e. user (n' ∙ e)) in
            image_eq a b f g (
              l.unique f.row g.row f.old g.old n' (
                sym (ap (λ (y : Row). y.prev_revision) ea)
                ∙ q
                ∙ ap (λ (y : Row). y.prev_revision) eb))
      ]

  -- On a log that is compacted up to `start`, a compaction batch from there to `stop`, which is no less than
  -- `start` and at most the counter, leaves a log that is compacted up to `stop`.
  pub compacted-IsLog : IsLog stop (compacted start stop t)
  compacted-IsLog = record {
    id_pos = λ a m. let f = from a m in rw f.like.id (l.id_pos f.row f.old);
    id_le_seq = λ a m. let f = from a m in rw f.like.id (l.id_le_seq f.row f.old);
    compact_le_seq = room;
    ascending = Ascending-raise (pruned start stop t).rows pruned-Ascending;
    unique = λ a b m k n q. compacted_unique a b (from a m) (from b k) n q;
    id_inj = λ a b m k e.
        let f = from a m in
        let g = from b k in
        image_eq a b f g (l.id_inj f.row g.row f.old g.old (sym f.like.id ∙ e ∙ g.like.id));
    prev_lt = λ a m n. l.prev_lt a (In-of_pruned start stop l a (from_user a m n)).0 n;
    tombstone = λ a m d.
        let f = from a m in f.like.created ∙ l.tombstone f.row f.old (sym f.like.deleted ∙ d);
    prev_name = λ a b m k n e.
        let f = from a m in
        f.like.name
        ∙ l.prev_name f.row b f.old (In-of_pruned start stop l b (from_user b k n)).0 n
            (sym f.like.id ∙ e);
    link = λ a b m k n e lt above gap.
        let user : a.name ≢ compact_rev_key = λ q. n (sym e ∙ q) in
        let i = from_user a m user in
        l.link a b (In-of_pruned start stop l a i).0
          (In-of_pruned start stop l b (from_user b k n)).0 n e lt (omega arith)
          (gap_before a b i user above gap);
    reborn = λ a b m k n born e.
        let f = from a m in
        f.like.deleted
        ∙ l.reborn f.row b f.old (In-of_pruned start stop l b (from_user b k n)).0 n born
            (sym f.like.id ∙ e);
    one_below = λ a b m k n p q. compacted_one_below a b (from a m) (from b k) n p q;
    live_below = λ a m p.
        let f = from a m in
        elim (Bool-cases a.deleted) [
          | inl d ↦
              absurd (stays_deleted f.row f.stayed (rw f.like.id at p) (sym f.like.deleted ∙ d))
          | inr d ↦ d
        ];
    key_row = λ a m n. compacted_key_row a (from a m) n;
    one_key_row = λ a b m k n q.
        let f = from a m in
        let g = from b k in
        image_eq a b f g
          (l.one_key_row f.row g.row f.old g.old (sym f.like.name ∙ n) (sym g.like.name ∙ q));
  }
