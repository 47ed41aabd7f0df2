-- ===== src/Table/Lookup.antt =====
-- listSQL over the range of one key (pkg/kine/drivers/generic/generic.go), and the key's latest row.
use k8s_dqlite.Prelude.{
  ℕ, zero, suc, ◌≡◌, refl, sym, ap, ◌∙◌, inl, inr, Bool, true, false, not, ◌&&◌, ◌||◌, Option, none,
  some, List, [], ◌∷◌, arith, ltb, ltb→lt, In, Bool-cases, any, In-of_any, any_of_In, &&_left,
  &&_right, &&_intro, filter, filter-filter, In-filter, In-of_filter,
}
use k8s_dqlite.Bytes.{Bytes, same, has_suffix_slash}
use k8s_dqlite.Bytes.Order.{same→eq, eq→same}
use k8s_dqlite.Bytes.Ranges.{IsReadable, get_prefix_range, in_range, get_prefix_range-same}
use k8s_dqlite.Table.{Row, Table, latest}
use k8s_dqlite.Table.Invariant.{IsLog, Ascending}
use k8s_dqlite.Table.Latest.{IsLatest, latest-some, latest-none}
use k8s_dqlite.Table.Select.{upto, grouped, is_max, by_name, limited, list_sql}

-- Every name in the table is of bytes above 1.
abbrev pub AllReadable : List Row → Type 0
AllReadable rows = (a : Row) → In a rows → IsReadable a.name

-- The row where it shows its key, and nothing where it is a tombstone.
abbrev pub unless : Bool → Row → List Row
unless true r = []
unless false r = r ∷ []

abbrev pub live : Option Row → List Row
live none = []
live (some r) = unless r.deleted r

-- The rows that a read at a revision knows.
abbrev pub known : Option ℕ → List Row → List Row
known revision = filter (upto revision)

filter_none :
    (p : Row → Bool) (xs : List Row) → ((a : Row) → In a xs → p a ≡ true → ⊥) → filter p xs ≡ []
filter_none p [] h = refl
filter_none p (x ∷ xs) h = elim (Bool-cases (p x)) [
  | inl t ↦ absurd (h x (inl refl) t)
  | inr f ↦ rw f (filter_none p xs (λ a m. h a (inr m)))
]

-- Where one row alone passes the test, it is what is left.
pub filter_only :
    (p : Row → Bool) (r : Row) (xs : List Row)
    → Ascending xs
    → In r xs
    → p r ≡ true
    → ((a : Row) → In a xs → p a ≡ true → a ≡ r)
    → filter p xs ≡ r ∷ []
filter_only p r [] s m t only = elim m [ ]
filter_only p r (x ∷ xs) s (inl e) t only = rw (ap p (sym e) ∙ t) (
    let nothing =
      filter_none p xs
        (λ a i q. omega (arith, s.0 a i, ap (λ (y : Row). y.id) (only a (inr i) q ∙ e))) in
    rw nothing (ap (λ (y : Row). y ∷ []) (sym e)))
filter_only p r (x ∷ xs) s (inr m) t only = elim (Bool-cases (p x)) [
  | inl b ↦ absurd (omega (arith, s.0 r m, ap (λ (y : Row). y.id) (only x (inl refl) b)))
  | inr b ↦ rw b (filter_only p r xs s.1 m t (λ a i. only a (inr i)))
]

limited-unless :
    (limit : ℕ) (b : Bool) (r : Row) → limited limit (by_name (unless b r)) ≡ unless b r
limited-unless zero true r = refl
limited-unless (suc n) true r = refl
limited-unless zero false r = refl
limited-unless (suc zero) false r = refl
limited-unless (suc (suc n)) false r = refl

limited-live : (limit : ℕ) (o : Option Row) → limited limit (by_name (live o)) ≡ live o
limited-live zero none = refl
limited-live (suc n) none = refl
limited-live limit (some r) = limited-unless limit r.deleted r

test_parts :
    (k u d m : Bool)
    → ((k && u) && ((not d || false) && m)) ≡ true
    → (k ≡ true) × (u ≡ true) × (d ≡ false) × (m ≡ true)
test_parts k u d m h = ground arith

test_intro :
    (k u d m : Bool)
    → k ≡ true
    → u ≡ true
    → d ≡ false
    → m ≡ true
    → ((k && u) && ((not d || false) && m)) ≡ true
test_intro k u d m a b c e = ground arith

module _ {c : ℕ} {t : Table} (l : IsLog c t) (readable : AllReadable t.rows) (key : Bytes)
    (plain : has_suffix_slash key ≡ false) (revision : Option ℕ) where
  abbrev start : Bytes
  start = (get_prefix_range key).0

  abbrev stop : Bytes
  stop = (get_prefix_range key).1

  abbrev group : List Row
  group = grouped start stop revision t.rows

  abbrev chosen : Row → Bool
  chosen r =
      (in_range start stop r.name && upto revision r)
      && ((not r.deleted || false) && is_max group r)

  in_range_name : (a : Row) → In a t.rows → in_range start stop a.name ≡ true → a.name ≡ key
  in_range_name a m h =
      same→eq a.name key (sym (get_prefix_range-same key a.name plain (readable a m)) ∙ h)

  name_in_range : (a : Row) → In a t.rows → a.name ≡ key → in_range start stop a.name ≡ true
  name_in_range a m e = get_prefix_range-same key a.name plain (readable a m) ∙ eq→same a.name key e

  -- The test of a row, and the latest known row of the key.
  chosen_latest :
      (r : Row)
      → IsLatest key (known revision t.rows) r
      → (a : Row) → In a t.rows
      → chosen a ≡ true
      → a ≡ r
  chosen_latest r top a m h =
      let (k, u, _, x) =
        test_parts (in_range start stop a.name) (upto revision a) a.deleted (is_max group a) h in
      let n = in_range_name a m k in
      let (i, v) = In-of_filter (upto revision) r t.rows top.member in
      let below = top.largest a (In-filter (upto revision) a t.rows m u) n in
      l.id_inj a r m i (elim (Bool-cases (ltb a.id r.id)) [
        | inl lt ↦ absurd (beaten a r i v (name_in_range r i top.name) (top.name ∙ sym n) lt x)
        | inr ge ↦ ground (arith, below)
      ])
    where
      beaten :
          (a r : Row)
          → In r t.rows
          → upto revision r ≡ true
          → in_range start stop r.name ≡ true
          → r.name ≡ a.name
          → ltb a.id r.id ≡ true
          → is_max group a ≡ true
          → ⊥
      beaten a r i v k e lt x =
          let g =
            In-filter (λ y. in_range start stop y.name && upto revision y) r t.rows i
              (&&_intro _ _ k v) in
          let h =
            any_of_In (λ y. same y.name a.name && ltb a.id y.id) r group g
              (&&_intro _ _ (eq→same _ _ e) lt) in
          let f : not true ≡ true = ap not (sym h) ∙ x in cc (f)

  latest_chosen :
      (r : Row) → IsLatest key (known revision t.rows) r → r.deleted ≡ false → chosen r ≡ true
  latest_chosen r top d =
      let (i, v) = In-of_filter (upto revision) r t.rows top.member in
      test_intro (in_range start stop r.name) (upto revision r) r.deleted (is_max group r)
        (name_in_range r i top.name) v d (greatest r top)
    where
      greatest : (r : Row) → IsLatest key (known revision t.rows) r → is_max group r ≡ true
      greatest r top = elim (Bool-cases (any (λ y. same y.name r.name && ltb r.id y.id) group)) [
        | inr f ↦ ap not f
        | inl h ↦
            let (y, m, q) = In-of_any (λ y. same y.name r.name && ltb r.id y.id) group h in
            let (j, w) =
              In-of_filter (λ y. in_range start stop y.name && upto revision y) y t.rows m in
            let n = same→eq y.name r.name (&&_left _ _ q) ∙ top.name in
            let low =
              top.largest y
                (In-filter (upto revision) y t.rows j
                  (&&_right (in_range start stop y.name) (upto revision y) w))
                n in
            absurd (
              omega
                (arith, low, ltb→lt r.id y.id (&&_right (same y.name r.name) (ltb r.id y.id) q)))
      ]

  selected_live :
      (o : Option Row) → latest key (known revision t.rows) ≡ o → filter chosen t.rows ≡ live o
  selected_live none e = filter_none chosen t.rows (λ a m h.
      let (k, u, _, _) =
        test_parts (in_range start stop a.name) (upto revision a) a.deleted (is_max group a) h in
      latest-none key (known revision t.rows) e a (In-filter (upto revision) a t.rows m u)
        (in_range_name a m k))
  selected_live (some r) e =
      let top = latest-some key (known revision t.rows) r e in by_deleted r top r.deleted refl
    where
      by_deleted :
          (r : Row)
          → IsLatest key (known revision t.rows) r
          → (b : Bool) → r.deleted ≡ b
          → filter chosen t.rows ≡ unless b r
      by_deleted r top true d = filter_none chosen t.rows (λ a m h.
          let (_, _, f, _) =
            test_parts (in_range start stop a.name) (upto revision a) a.deleted (is_max group a)
              h in
          let q = chosen_latest r top a m h in cc (d, f, ap (λ (y : Row). y.deleted) q))
      by_deleted r top false d =
          let (i, v) = In-of_filter (upto revision) r t.rows top.member in
          filter_only chosen r t.rows l.ascending i (latest_chosen r top d) (chosen_latest r top)

  -- On a log whose names are readable, a read over the range of a key that does not end in a slash, at a
  -- revision or not and with any limit, finds the latest row of the key that the revision knows, or
  -- nothing where that is a tombstone.
  pub list_sql-latest :
      (limit : ℕ)
      → list_sql start stop revision false limit t ≡ live (latest key (known revision t.rows))
  unfolding list_sql
  list_sql-latest limit =
      let p =
        filter-filter (λ r. (not r.deleted || false) && is_max group r)
          (λ r. in_range start stop r.name && upto revision r) t.rows in
      ap (λ (rows : List Row). limited limit (by_name rows))
        (p ∙ selected_live (latest key (known revision t.rows)) refl)
      ∙ limited-live limit (latest key (known revision t.rows))
