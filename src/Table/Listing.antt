-- ===== src/Table/Listing.antt =====
-- listSQL over the range of a prefix (pkg/kine/drivers/generic/generic.go): which rows it finds.
use k8s_dqlite.Prelude.{
  ℕ, ◌≤◌, ◌≡◌, refl, sym, ap, ◌∙◌, ◌⊎◌, inl, inr, Bool, true, false, not, ◌&&◌, ◌||◌, Option, none,
  some, List, [], ◌∷◌, arith, ltb, ltb→lt, if◌then◌else◌, In, Bool-cases, any, In-of_any, any_of_In,
  &&_left, &&_right, &&_intro, In-filter, In-of_filter,
}
use k8s_dqlite.Bytes.{Bytes, same, has_prefix, has_suffix_slash, lt_bytes}
use k8s_dqlite.Bytes.Order.{same→eq, eq→same}
use k8s_dqlite.Bytes.Ranges.{get_prefix_range, in_range, get_prefix_range-has_prefix}
use k8s_dqlite.Table.{Row, Table, latest}
use k8s_dqlite.Table.Invariant.{IsLog}
use k8s_dqlite.Table.Latest.{IsLatest, latest-some, latest-none}
use k8s_dqlite.Table.Lookup.{known}
use k8s_dqlite.Table.Select.{upto, grouped, is_max, name_place, by_name, selected, list_sql}

In-name_place : (a r : Row) (xs : List Row) → (a ≡ r) ⊎ In a xs → In a (name_place r xs)
In-name_place a r [] h = h
In-name_place a r (x ∷ xs) h = by_order (lt_bytes x.name r.name) (In-name_place a r xs) h
  where
    by_order :
        (b : Bool)
        → ((a ≡ r) ⊎ In a xs → In a (name_place r xs))
        → (a ≡ r) ⊎ In a (x ∷ xs)
        → In a (if b then x ∷ name_place r xs else r ∷ x ∷ xs)
    by_order true further (inl e) = inr (further (inl e))
    by_order true further (inr (inl e)) = inl e
    by_order true further (inr (inr m)) = inr (further (inr m))
    by_order false further k = k

In-of_name_place : (a r : Row) (xs : List Row) → In a (name_place r xs) → (a ≡ r) ⊎ In a xs
In-of_name_place a r [] m = m
In-of_name_place a r (x ∷ xs) m = by_order (lt_bytes x.name r.name) (In-of_name_place a r xs) m
  where
    by_order :
        (b : Bool)
        → (In a (name_place r xs) → (a ≡ r) ⊎ In a xs)
        → In a (if b then x ∷ name_place r xs else r ∷ x ∷ xs)
        → (a ≡ r) ⊎ In a (x ∷ xs)
    by_order true further (inl e) = inr (inl e)
    by_order true further (inr k) = elim (further k) [ inl e ↦ inl e | inr i ↦ inr (inr i) ]
    by_order false further k = k

In-by_name : (a : Row) (xs : List Row) → In a xs → In a (by_name xs)
In-by_name a [] m = m
In-by_name a (x ∷ xs) (inl e) = In-name_place a x (by_name xs) (inl e)
In-by_name a (x ∷ xs) (inr m) = In-name_place a x (by_name xs) (inr (In-by_name a xs m))

In-of_by_name : (a : Row) (xs : List Row) → In a (by_name xs) → In a xs
In-of_by_name a [] m = m
In-of_by_name a (x ∷ xs) m = elim (In-of_name_place a x (by_name xs) m) [
  | inl e ↦ inl e
  | inr i ↦ inr (In-of_by_name a xs i)
]

-- Whether the row is live and has the largest id of its name among those that are grouped.
alive_parts : (d m : Bool) → ((not d || false) && m) ≡ true → (d ≡ false) × (m ≡ true)
alive_parts d m h = ground arith

alive_intro : (d m : Bool) → d ≡ false → m ≡ true → ((not d || false) && m) ≡ true
alive_intro d m p q = ground arith

-- The latest row is the only one with the largest id.
latest_is :
    {c : ℕ} {t : Table}
    → IsLog c t
    → (revision : Option ℕ) (r : Row) → IsLatest r.name (known revision t.rows) r
    → latest r.name (known revision t.rows) ≡ some r
latest_is {t = t} l revision r top = by_latest (latest r.name (known revision t.rows)) refl
  where
    by_latest : (o : Option Row) → latest r.name (known revision t.rows) ≡ o → o ≡ some r
    by_latest none e = absurd (latest-none r.name (known revision t.rows) e r top.member refl)
    by_latest (some x) e =
        let other = latest-some r.name (known revision t.rows) x e in
        let low = other.largest r top.member refl in
        let high = top.largest x other.member other.name in
        let (i, _) = In-of_filter (upto revision) x t.rows other.member in
        let (j, _) = In-of_filter (upto revision) r t.rows top.member in
        ap some (l.id_inj x r i j (omega (arith, low, high)))

module _ {c : ℕ} {t : Table} (l : IsLog c t) (prefix : Bytes)
    (directory : has_suffix_slash prefix ≡ true) (revision : Option ℕ) where
  abbrev start : Bytes
  start = (get_prefix_range prefix).0

  abbrev stop : Bytes
  stop = (get_prefix_range prefix).1

  abbrev group : List Row
  group = grouped start stop revision t.rows

  abbrev alive : Row → Bool
  alive r = (not r.deleted || false) && is_max group r

  abbrev within : Row → Bool
  within r = in_range start stop r.name && upto revision r

  in_range_prefix : (r : Row) → in_range start stop r.name ≡ has_prefix r.name prefix
  in_range_prefix r = get_prefix_range-has_prefix prefix r.name directory

  -- A row that is listed is its key's latest, and live.
  pub listed_latest :
      (r : Row)
      → In r (list_sql start stop revision false 0 t)
      → (has_prefix r.name prefix ≡ true)
        × (latest r.name (known revision t.rows) ≡ some r)
        × (r.deleted ≡ false)
  unfolding list_sql
  listed_latest r m =
      let (g, a) =
        In-of_filter alive r group
          (In-of_by_name r (selected start stop revision false t.rows) m) in
      let (i, w) = In-of_filter within r t.rows g in
      let (live, x) = alive_parts r.deleted (is_max group r) a in
      let k = &&_left (in_range start stop r.name) (upto revision r) w in
      let u = &&_right (in_range start stop r.name) (upto revision r) w in
      (
        sym (in_range_prefix r) ∙ k,
        latest_is l revision r (record {
          member = In-filter (upto revision) r t.rows i u;
          name = refl;
          largest = λ a j n. below r k x a j n;
        }),
        live,
      )
    where
      below :
          (r : Row)
          → in_range start stop r.name ≡ true
          → is_max group r ≡ true
          → (a : Row) → In a (known revision t.rows)
          → a.name ≡ r.name
          → a.id ≤ r.id
      below r k x a j n = elim (Bool-cases (ltb r.id a.id)) [
        | inr ge ↦ ground arith
        | inl lt ↦
            let (i, u) = In-of_filter (upto revision) a t.rows j in
            let g = In-filter within a t.rows i (&&_intro _ _ (ap (in_range start stop) n ∙ k) u) in
            let h =
              any_of_In (λ y. same y.name r.name && ltb r.id y.id) a group g
                (&&_intro _ _ (eq→same _ _ n) lt) in
            let f : not true ≡ true = ap not (sym h) ∙ x in absurd (cc (f))
      ]

  -- And every live latest row of a name with the prefix is listed.
  pub latest_listed :
      (r : Row)
      → has_prefix r.name prefix ≡ true
      → latest r.name (known revision t.rows) ≡ some r
      → r.deleted ≡ false
      → In r (list_sql start stop revision false 0 t)
  unfolding list_sql
  latest_listed r k e d =
      let top = latest-some r.name (known revision t.rows) r e in
      let (i, u) = In-of_filter (upto revision) r t.rows top.member in
      let g = In-filter within r t.rows i (&&_intro _ _ (in_range_prefix r ∙ k) u) in
      In-by_name r (selected start stop revision false t.rows)
        (In-filter alive r group g (alive_intro r.deleted (is_max group r) d (greatest r top)))
    where
      greatest : (r : Row) → IsLatest r.name (known revision t.rows) r → is_max group r ≡ true
      greatest r top = elim (Bool-cases (any (λ y. same y.name r.name && ltb r.id y.id) group)) [
        | inr f ↦ ap not f
        | inl h ↦
            let (y, m, q) = In-of_any (λ y. same y.name r.name && ltb r.id y.id) group h in
            let (j, w) = In-of_filter within y t.rows m in
            let n = same→eq y.name r.name (&&_left (same y.name r.name) (ltb r.id y.id) q) in
            let low =
              top.largest y
                (In-filter (upto revision) y t.rows j
                  (&&_right (in_range start stop y.name) (upto revision y) w))
                n in
            absurd (
              omega
                (arith, low, ltb→lt r.id y.id (&&_right (same y.name r.name) (ltb r.id y.id) q)))
      ]
