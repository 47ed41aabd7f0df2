-- ===== src/Table/Invariant.antt =====
-- What holds of the table `kine` between two statements, and what `insert` does to its members.
use k8s_dqlite.Prelude.{
  ℕ, ◌≤◌, ◌<◌, ◌≡◌, refl, ◌≢◌, ◌⊎◌, inl, inr, Bool, true, false, List, [], ◌∷◌, arith, ltb, filter,
  In, In-of_filter, Bool-cases,
}
use k8s_dqlite.Table.{Row, Table, compact_rev_key, place}

-- No row of the name stands strictly between the two ids.
abbrev pub NoneBetween : List Row → Row → Row → Type 0
NoneBetween rows a b = (c : Row) → In c rows → c.name ≡ a.name → a.id < c.id → c.id < b.id → ⊥

-- The ids grow along the list, so no row stands twice.
abbrev pub Ascending : List Row → Type 0
Ascending [] = Unit
Ascending (x ∷ xs) = ((y : Row) → In y xs → x.id < y.id) × Ascending xs

-- `compact` is the revision up to which the table is compacted. The rows of a key form a chain: a row
-- past `compact` names the key's previous row, unless it is the key's first row or opens a new life
-- of the key behind a tombstone. Up to `compact` a key has one row at most, and no tombstone.
pub record IsLog (compact : ℕ) (t : Table) : Type 0 where
  pub id_pos : (a : Row) → In a t.rows → 0 < a.id
  pub id_le_seq : (a : Row) → In a t.rows → a.id ≤ t.seq
  pub compact_le_seq : compact ≤ t.seq
  pub ascending : Ascending t.rows
  pub unique :
      (a b : Row)
      → In a t.rows
      → In b t.rows
      → a.name ≡ b.name
      → a.prev_revision ≡ b.prev_revision
      → a ≡ b
  pub id_inj : (a b : Row) → In a t.rows → In b t.rows → a.id ≡ b.id → a ≡ b
  pub prev_lt : (a : Row) → In a t.rows → a.name ≢ compact_rev_key → a.prev_revision < a.id
  pub tombstone : (a : Row) → In a t.rows → a.deleted ≡ true → a.created ≡ false
  pub prev_name :
      (a b : Row)
      → In a t.rows
      → In b t.rows
      → b.name ≢ compact_rev_key
      → a.id ≡ b.prev_revision
      → a.name ≡ b.name
  pub link :
      (a b : Row)
      → In a t.rows
      → In b t.rows
      → b.name ≢ compact_rev_key
      → a.name ≡ b.name
      → a.id < b.id
      → compact < b.id
      → NoneBetween t.rows a b
      → b.prev_revision ≡ a.id
  pub reborn :
      (a b : Row)
      → In a t.rows
      → In b t.rows
      → b.name ≢ compact_rev_key
      → b.created ≡ true
      → a.id ≡ b.prev_revision
      → a.deleted ≡ true
  pub one_below :
      (a b : Row)
      → In a t.rows
      → In b t.rows
      → a.name ≡ b.name
      → a.id ≤ compact
      → b.id ≤ compact
      → a ≡ b
  pub live_below : (a : Row) → In a t.rows → a.id ≤ compact → a.deleted ≡ false
  pub key_row :
      (a : Row)
      → In a t.rows
      → a.name ≡ compact_rev_key
      → (a.prev_revision ≡ compact) × (a.created ≡ true) × (a.deleted ≡ false)
  pub one_key_row :
      (a b : Row)
      → In a t.rows
      → In b t.rows
      → a.name ≡ compact_rev_key
      → b.name ≡ compact_rev_key
      → a ≡ b

pub In-place : (a r : Row) (rows : List Row) → In a (place r rows) → (a ≡ r) ⊎ In a rows
unfolding place
In-place a r [] m = m
In-place a r (x ∷ xs) m = elim (Bool-cases (ltb r.id x.id)) [
  | inl t ↦ rw (t, place) at m
  | inr f ↦ elim (let m' : (a ≡ x) ⊎ In a (place r xs) = rw (f, place) at m in m') [
    | inl e ↦ inr (inl e)
    | inr i ↦ elim (In-place a r xs i) [ inl e ↦ inl e | inr j ↦ inr (inr j) ]
  ]
]

pub In-place_new : (r : Row) (rows : List Row) → In r (place r rows)
unfolding place
In-place_new r [] = inl refl
In-place_new r (x ∷ xs) = elim (Bool-cases (ltb r.id x.id)) [
  | inl t ↦ rw t (inl refl)
  | inr f ↦ rw f (inr (In-place_new r xs))
]

pub In-place_old : (a r : Row) (rows : List Row) → In a rows → In a (place r rows)
unfolding place
In-place_old a r [] m = elim m [ ]
In-place_old a r (x ∷ xs) m = elim (Bool-cases (ltb r.id x.id)) [
  | inl t ↦ rw t (inr m)
  | inr f ↦ rw f (elim m [ inl e ↦ inl e | inr i ↦ inr (In-place_old a r xs i) ])
]

pub Ascending-place :
    (r : Row) (rows : List Row)
    → Ascending rows
    → ((a : Row) → In a rows → a.id ≢ r.id)
    → Ascending (place r rows)
unfolding place
Ascending-place r [] h fresh = (λ y m. elim m [ ], tt)
Ascending-place r (x ∷ xs) h fresh = elim (Bool-cases (ltb r.id x.id)) [
  | inl t ↦
      let p : r.id < x.id = ground arith in
      rw t (λ y m. elim m [ inl e ↦ rw e p | inr i ↦ omega (arith, p, h.0 y i) ], h)
  | inr f ↦
      let p : x.id < r.id = ground (arith, fresh x (inl refl)) in
      rw f (
        λ y m. elim (In-place y r xs m) [ inl e ↦ rw e p | inr i ↦ h.0 y i ],
        Ascending-place r xs h.1 (λ a i. fresh a (inr i)),
      )
]

pub Ascending-filter :
    (p : Row → Bool) (rows : List Row) → Ascending rows → Ascending (filter p rows)
Ascending-filter p [] h = tt
Ascending-filter p (x ∷ xs) h = elim (Bool-cases (p x)) [
  | inl t ↦ rw t (λ y m. h.0 y (In-of_filter p y xs m).0, Ascending-filter p xs h.1)
  | inr f ↦ rw f (Ascending-filter p xs h.1)
]
