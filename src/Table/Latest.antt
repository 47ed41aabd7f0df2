-- ===== src/Table/Latest.antt =====
-- `latest` and the row that `SELECT MAX(id) ... WHERE name = ?` finds.
use k8s_dqlite.Prelude.{
  ℕ, ◌≤◌, ◌<◌, ◌≡◌, refl, sym, ap, ◌∙◌, ◌≢◌, inl, inr, true, false, Option, none, some, List, [],
  ◌∷◌, arith, ltb, lt→ltb, In, Bool-cases,
}
use k8s_dqlite.Bytes.{Bytes}
use k8s_dqlite.Bytes.Order.{same→eq, eq→same}
use k8s_dqlite.Bytes.Order.{same_refl, same_ne}
use k8s_dqlite.Table.{Row, named, latest, place}

-- `r` has the largest id of all rows of the name `key`.
pub record IsLatest (key : Bytes) (rows : List Row) (r : Row) : Type 0 where
  pub member : In r rows
  pub name : r.name ≡ key
  pub largest : (a : Row) → In a rows → a.name ≡ key → a.id ≤ r.id

cons_other :
    (key : Bytes) (x r : Row) (rs : List Row)
    → named key x ≡ false
    → IsLatest key rs r
    → IsLatest key (x ∷ rs) r
cons_other key x r rs f l = record {
  member = inr l.member;
  name = l.name;
  largest = λ a m n. elim m [
    | inl e ↦ absurd (cc (eq→same x.name key (sym (ap (λ (y : Row). y.name) e) ∙ n)))
    | inr i ↦ l.largest a i n
  ];
}

cons_first :
    (key : Bytes) (x : Row) (rs : List Row)
    → named key x ≡ true
    → ((a : Row) → In a rs → a.name ≡ key → a.id ≤ x.id)
    → IsLatest key (x ∷ rs) x
cons_first key x rs t h = record {
  member = inl refl;
  name = same→eq x.name key t;
  largest = λ a m n. elim m [ inl e ↦ rw e (omega arith) | inr i ↦ h a i n ];
}

cons_rest :
    (key : Bytes) (x r : Row) (rs : List Row)
    → x.id ≤ r.id
    → IsLatest key rs r
    → IsLatest key (x ∷ rs) r
cons_rest key x r rs h l = record {
  member = inr l.member;
  name = l.name;
  largest = λ a m n. elim m [ inl e ↦ rw e h | inr i ↦ l.largest a i n ];
}

-- No row has the name exactly when there is no latest row.
pub latest-none :
    (key : Bytes) (rows : List Row) → latest key rows ≡ none → (a : Row) → In a rows → a.name ≢ key
unfolding latest
latest-none key [] h a m n = m
latest-none key (x ∷ xs) h a m n = elim (Bool-cases (named key x)) [
  | inl t ↦ cc (let h' : latest key (x ∷ xs) ≡ none = h in (rw (t, latest) at h'))
  | inr f ↦ elim m [
    | inl e ↦ cc (f, eq→same x.name key (sym (ap (λ (y : Row). y.name) e) ∙ n))
    | inr i ↦ latest-none key xs (rw (f, latest) at h) a i n
  ]
]

latest_cons :
    (key : Bytes) (x : Row) (xs : List Row) (o : Option Row)
    → latest key xs ≡ o
    → named key x ≡ true
    → ((s : Row) → o ≡ some s → IsLatest key xs s)
    → (r : Row) → latest key (x ∷ xs) ≡ some r
    → IsLatest key (x ∷ xs) r
unfolding latest
latest_cons key x xs none e t ih r h =
    let q : x ≡ r = ground arith in
    rw (sym q) (cons_first key x xs t (λ a i n. absurd (latest-none key xs e a i n)))
latest_cons key x xs (some s) e t ih r h = elim (Bool-cases (ltb x.id s.id)) [
  | inl lt ↦
      let q : s ≡ r = ground arith in rw (sym q) (cons_rest key x s xs (ground arith) (ih s refl))
  | inr ge ↦
      let q : x ≡ r = ground arith in
      rw (sym q) (
        cons_first key x xs t
          (λ a i n. omega (arith, (ih s refl).largest a i n, le_of_not_ltb x.id s.id ge)))
]
  where
    le_of_not_ltb : (a b : ℕ) → ltb a b ≡ false → b ≤ a
    le_of_not_ltb a b h = ground arith

pub latest-some :
    (key : Bytes) (rows : List Row) (r : Row) → latest key rows ≡ some r → IsLatest key rows r
unfolding latest
latest-some key [] r h = absurd (cc)
latest-some key (x ∷ xs) r h = elim (Bool-cases (named key x)) [
  | inl t ↦ latest_cons key x xs (latest key xs) refl t (λ s e. latest-some key xs s e) r h
  | inr f ↦ cons_other key x r xs f (latest-some key xs r (rw (f, latest) at h))
]

latest_top :
    (r : Row) (rows : List Row) (o : Option Row)
    → latest r.name rows ≡ o
    → ((a : Row) → In a rows → a.name ≡ r.name → a.id < r.id)
    → latest r.name (r ∷ rows) ≡ some r
unfolding latest
latest_top r rows none e h = rw (same_refl r.name, e) refl
latest_top r rows (some s) e h =
    let i = latest-some r.name rows s e in
    rw (same_refl r.name, e) (ground (arith, h s i.member i.name))

-- A row that is the last of its name becomes the latest of it.
pub latest-place_self :
    (r : Row) (rows : List Row)
    → ((a : Row) → In a rows → a.name ≡ r.name → a.id < r.id)
    → latest r.name (place r rows) ≡ some r
unfolding latest place
latest-place_self r [] h = rw (same_refl r.name)
latest-place_self r (x ∷ xs) h = elim (Bool-cases (ltb r.id x.id)) [
  | inl t ↦ rw t (latest_top r (x ∷ xs) (latest r.name (x ∷ xs)) refl h)
  | inr f ↦
      rw (f, latest-place_self r xs (λ a i. h a (inr i)))
        (elim (Bool-cases (named r.name x)) [
          | inl n ↦ rw (n, lt→ltb x.id r.id (h x (inl refl) (same→eq _ _ n))) refl
          | inr n ↦ rw n refl
        ])
]

pub latest-place_ne :
    (k : Bytes) (r : Row) (rows : List Row) → k ≢ r.name → latest k (place r rows) ≡ latest k rows
unfolding latest place
latest-place_ne k r [] h = rw (same_ne r.name k (λ e. h (sym e)))
latest-place_ne k r (x ∷ xs) h = elim (Bool-cases (ltb r.id x.id)) [
  | inl t ↦ ground (arith, same_ne r.name k (λ e. h (sym e)))
  | inr f ↦ rw (f, latest-place_ne k r xs h) refl
]
