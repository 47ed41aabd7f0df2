-- ===== src/Table/Compaction.antt =====
-- `tryCompact` of pkg/kine/drivers/generic/generic.go: what its two DELETE statements take away.
use k8s_dqlite.Prelude.{
  ℕ, zero, suc, ◌≤◌, ◌<◌, ◌≡◌, refl, sym, ap, ◌∙◌, ◌≢◌, inl, inr, Bool, true, false, not, ◌&&◌,
  List, arith, ltb, ltb→lt, leb→le, ◌==◌, ==_iff, In, Bool-cases, any, In-of_any, any_of_In,
  &&_left, &&_right, &&_intro, filter, In-filter, In-of_filter,
}
use k8s_dqlite.Bytes.{same}
use k8s_dqlite.Bytes.Order.{same→eq, same_ne, eq→same}
use k8s_dqlite.Table.{
  Row, Table, compact_rev_key, supersedes, between, delete_superseded, delete_tombstones,
}
use k8s_dqlite.Table.Invariant.{IsLog, NoneBetween}

-- The two DELETE statements, one after the other.
unfoldable pub pruned : ℕ → ℕ → Table → Table
unfolding delete_superseded delete_tombstones
pruned start stop t = delete_tombstones start stop (delete_superseded start stop t)

not-true : (b : Bool) → not b ≡ true → b ≡ true → ⊥
not-true b p q = cc

not_intro : (b : Bool) → (b ≡ true → ⊥) → not b ≡ true
not_intro true h = absurd (h refl)
not_intro false h = refl

-- Why a row goes: the row that supersedes it, or that it is a tombstone of the batch.
pub record Superseded (start stop : ℕ) (rows : List Row) (a : Row) : Type 0 where
  pub by : Row
  pub member : In by rows
  pub user : by.name ≢ compact_rev_key
  pub update : by.created ≡ false
  pub after : start < by.id
  pub upto : by.id ≤ stop
  pub prev : by.prev_revision ≡ a.id

-- The test of the first DELETE, and of the second.
abbrev pub is_superseded : ℕ → ℕ → List Row → Row → Bool
is_superseded start stop rows a = any (λ r. supersedes start stop r && r.prev_revision == a.id) rows

abbrev pub is_dead : ℕ → ℕ → Row → Bool
is_dead start stop a = a.deleted && between start stop a.id

module _ (start stop : ℕ) {t : Table} (l : IsLog start t) where
  supersedes_intro :
      (a b : Row)
      → In a t.rows
      → In b t.rows
      → b.name ≢ compact_rev_key
      → b.created ≡ false
      → start < b.id
      → b.id ≤ stop
      → b.prev_revision ≡ a.id
      → is_superseded start stop t.rows a ≡ true
  supersedes_intro a b i j n k p q e =
      any_of_In (λ r. supersedes start stop r && r.prev_revision == a.id) b t.rows j
        (&&_intro _ _ (ground (arith, same_ne b.name compact_rev_key n, l.id_pos a i))
          ((==_iff _ _).1 e))

  Superseded-of :
      (a : Row) → is_superseded start stop t.rows a ≡ true → Superseded start stop t.rows a
  Superseded-of a h =
      let (b, j, e) =
        In-of_any (λ r. supersedes start stop r && r.prev_revision == a.id) t.rows h in
      let s : supersedes start stop b ≡ true = &&_left _ _ e in
      record {
        by = b;
        member = j;
        user = λ n. cc (s, eq→same b.name compact_rev_key n);
        update = ground arith;
        after = ground arith;
        upto = ground arith;
        prev = (==_iff _ _).0 (&&_right _ _ e);
      }

  pub In-of_pruned :
      (a : Row)
      → In a (pruned start stop t).rows
      → In a t.rows
        × (not (is_superseded start stop t.rows a) ≡ true)
        × (not (is_dead start stop a) ≡ true)
  unfolding pruned
  In-of_pruned a m =
      let (i, d) =
        In-of_filter (λ x. not (is_dead start stop x)) a
          (filter (λ x. not (is_superseded start stop t.rows x)) t.rows) m in
      let (j, s) = In-of_filter (λ x. not (is_superseded start stop t.rows x)) a t.rows i in
      (j, s, d)

  pub stays_live :
      (a : Row)
      → In a (pruned start stop t).rows
      → a.deleted ≡ true
      → start < a.id
      → a.id ≤ stop
      → ⊥
  stays_live a m d p q = let h = In-of_pruned a m in ground (arith, h.2)

  pub stays_unsuperseded :
      (a b : Row)
      → In a (pruned start stop t).rows
      → In b t.rows
      → b.name ≢ compact_rev_key
      → b.created ≡ false
      → start < b.id
      → b.id ≤ stop
      → b.prev_revision ≢ a.id
  stays_unsuperseded a b m j n k p q e =
      let h = In-of_pruned a m in not-true _ h.1 (supersedes_intro a b h.0 j n k p q e)

  pub stays :
      (a : Row)
      → In a t.rows
      → (a.deleted ≡ true → start < a.id → a.id ≤ stop → ⊥)
      → (Superseded start stop t.rows a → ⊥)
      → In a (pruned start stop t).rows
  unfolding pruned
  stays a i live last =
      In-filter (λ x. not (is_dead start stop x)) a
        (filter (λ x. not (is_superseded start stop t.rows x)) t.rows)
        (In-filter (λ x. not (is_superseded start stop t.rows x)) a t.rows i
          (not_intro _ (λ h. last (Superseded-of a h))))
        (not_intro _ (λ h.
          live (&&_left _ _ h) (ltb→lt _ _ (&&_left _ _ (&&_right _ _ h)))
            (leb→le _ _ (&&_right _ _ (&&_right _ _ h)))))

-- The next row of a name: the one with the least id above the given row's.
record Next (rows : List Row) (a s : Row) : Type 0 where
  member : In s rows
  name : s.name ≡ a.name
  above : a.id < s.id
  nearest : NoneBetween rows a s

-- `y` is of the name of `a`, and stands between `a` and `x`.
abbrev closer : Row → Row → Row → Bool
closer a x y = same y.name a.name && (ltb a.id y.id && ltb y.id x.id)

closer_parts :
    (a x y : Row)
    → closer a x y ≡ true
    → (same y.name a.name ≡ true) × (a.id < y.id) × (y.id < x.id)
closer_parts a x y h = ground arith

closer_intro :
    (a x y : Row) → same y.name a.name ≡ true → a.id < y.id → y.id < x.id → closer a x y ≡ true
closer_intro a x y n p q = ground arith

-- Where a later row of the name stands, there is a next one, and it is no later.
Next-exists :
    (a : Row) (rows : List Row) (fuel : ℕ) (x : Row)
    → x.id < fuel
    → In x rows
    → x.name ≡ a.name
    → a.id < x.id
    → (s : Row) × Next rows a s × (s.id ≤ x.id)
Next-exists a rows zero x h i n p = elim h [ ]
Next-exists a rows (suc fuel) x h i n p = elim (Bool-cases (any (closer a x) rows)) [
  | inl t ↦
      let (y, j, e) = In-of_any (closer a x) rows t in
      let (m, q, r) = closer_parts a x y e in
      let (s, nx, le) =
        Next-exists a rows fuel y (omega (arith, h, r)) j (same→eq y.name a.name m) q in
      (s, nx, omega (arith, le, r))
  | inr f ↦ (
    x,
    record {
      member = i;
      name = n;
      above = p;
      nearest = λ y j m q r.
          cc
            (f, any_of_In (closer a x) y rows j (closer_intro a x y (eq→same y.name a.name m) q r));
    },
    omega arith,
  )
]

module _ (start stop : ℕ) {t : Table} (l : IsLog start t) where
  -- Up to `stop` no row of a key is left below another one.
  pub stays_last :
      (a x : Row)
      → In a (pruned start stop t).rows
      → In x t.rows
      → x.name ≡ a.name
      → a.name ≢ compact_rev_key
      → a.id < x.id
      → x.id ≤ stop
      → ⊥
  stays_last a x m i n user p q =
      let h = In-of_pruned start stop l a m in
      let (s, nx, le) = Next-exists a t.rows (suc x.id) x (omega arith) i n p in
      let user' : s.name ≢ compact_rev_key = λ e. user (sym nx.name ∙ e) in
      elim (Bool-cases (ltb start s.id)) [
        | inl above ↦
            let up : start < s.id = ltb→lt _ _ above in
            let back : s.prev_revision ≡ a.id =
              l.link a s h.0 nx.member user' (sym nx.name) nx.above up nx.nearest in
            elim (Bool-cases s.created) [
              | inl born ↦
                  let dead : a.deleted ≡ true = l.reborn a s h.0 nx.member user' born (sym back) in
                  elim (Bool-cases (ltb start a.id)) [
                    | inl new ↦
                        stays_live start stop l a m dead (ltb→lt _ _ new) (omega (arith, nx.above))
                    | inr old ↦ cc (dead, l.live_below a h.0 (ground arith))
                  ]
              | inr later ↦
                  stays_unsuperseded start stop l a s m nx.member user' later up (omega arith) back
            ]
        | inr below ↦
            let b : s.id ≤ start = ground arith in
            let e = l.one_below a s h.0 nx.member (sym nx.name) (omega (arith, nx.above)) b in
            omega (arith, ap (λ (y : Row). y.id) e, nx.above)
      ]
