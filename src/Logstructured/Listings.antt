-- ===== src/Logstructured/Listings.antt =====
-- What a listing is, and the rows of a list (pkg/kine/logstructured/logstructured.go): the entries of the
-- abstract store under a prefix.
use k8s_dqlite.Prelude.{
  ℕ, zero, suc, ◌≤◌, max, ◌≡◌, refl, sym, ap, ◌∙◌, ◌↔◌, ◌⊎◌, inl, inr, Bool, true, false, Option,
  none, some, List, [], ◌∷◌, map, In, In-map, In-of_map, arith, le→leb, subst,
}
use k8s_dqlite.Bytes.{Bytes, has_prefix, has_suffix_slash}
use k8s_dqlite.Bytes.Order.{same_refl}
use k8s_dqlite.Bytes.Ranges.{get_prefix_range}
use k8s_dqlite.Table.{Table, Row, latest, max_id}
use k8s_dqlite.Table.Invariant.{IsLog}
use k8s_dqlite.Table.Latest.{latest-some}
use k8s_dqlite.Table.Select.{list_sql}
use k8s_dqlite.Table.Lookup.{known}
use k8s_dqlite.Table.Listing.{listed_latest, latest_listed}
use k8s_dqlite.Table.Refines.{entry_of, abstract_store}
use k8s_dqlite.Events.{KeyValue, Event, scan, rows_to_events}
use k8s_dqlite.Sqllog.{list_start}
use k8s_dqlite.Sqllog.Rows.{at_revision, rows_of}
use k8s_dqlite.Logstructured.Gets.{kv_of, as_of, scan_kv, known_now, known-as_of}

-- The key-values are the entries whose keys have the prefix.
abbrev pub IsListing : Bytes → Table → List KeyValue → Type 0
IsListing prefix t kvs =
    (kv : KeyValue)
    → In kv kvs ↔ (
        (has_prefix kv.key prefix ≡ true)
        × (some kv ≡ kv_of kv.key ((abstract_store t).entries kv.key)))

scan_key : (r : Row) → (scan r).kv.key ≡ r.name
unfolding scan
scan_key r = by_flag r.created refl
  where
    by_flag : (b : Bool) → r.created ≡ b → (scan r).kv.key ≡ r.name
    by_flag true e = simp (e) refl
    by_flag false e = simp (e) refl

abbrev event_kvs : List Row → List KeyValue
event_kvs rows = map (λ (e : Event). e.kv) (map scan rows)

In-of_event_kvs :
    (kv : KeyValue) (rows : List Row)
    → In kv (event_kvs rows)
    → (r : Row) × In r rows × (kv ≡ (scan r).kv)
In-of_event_kvs kv rows m =
    let (e, i, p) = In-of_map (λ (e : Event). e.kv) kv (map scan rows) m in
    let (r, j, q) = In-of_map scan e rows i in (r, j, p ∙ ap (λ (e : Event). e.kv) q)

-- The row that an entry stands for.
entry-row :
    (key : Bytes) (kv : KeyValue) (o : Option Row)
    → some kv ≡ kv_of key (entry_of o)
    → (r : Row) × (o ≡ some r) × (r.deleted ≡ false)
entry-row key kv none e = absurd (cc)
entry-row key kv (some r) e = by_flag r.deleted refl
  where
    by_flag : (b : Bool) → r.deleted ≡ b → (x : Row) × (some r ≡ some x) × (x.deleted ≡ false)
    by_flag true d = absurd (let g : some kv ≡ none = simp (d) at e in cc)
    by_flag false d = (r, refl, d)

module _ {c : ℕ} {t : Table} (l : IsLog c t) (prefix : Bytes)
    (directory : has_suffix_slash prefix ≡ true) (revision : ℕ) where
  abbrev rows : List Row
  rows = known (at_revision revision) t.rows

  -- The table of the rows that the list reads.
  abbrev cut : Table
  cut = record t { rows = rows }

  at_latest :
      (r : Row) (key : Bytes)
      → key ≡ r.name
      → latest r.name rows ≡ some r
      → r.deleted ≡ false
      → some (scan r).kv ≡ kv_of key ((abstract_store cut).entries key)
  unfolding abstract_store
  at_latest r key n e d = rw (n, e) (scan_kv r d)

  pub list_start_same : list_start prefix prefix ≡ []
  list_start_same = rw directory (rw (same_refl prefix) refl)

  abbrev found : List Row
  found =
      list_sql (get_prefix_range prefix).0 (get_prefix_range prefix).1 (at_revision revision) false
        0 t

  found-of_kv :
      (kv : KeyValue)
      → In kv (event_kvs found)
      → (has_prefix kv.key prefix ≡ true)
        × (some kv ≡ kv_of kv.key ((abstract_store cut).entries kv.key))
  found-of_kv kv m =
      let (r, i, p) = In-of_event_kvs kv found m in
      let (h, e, d) = listed_latest l prefix directory (at_revision revision) r i in
      let n : kv.key ≡ r.name = ap (λ (kv : KeyValue). kv.key) p ∙ scan_key r in
      (ap (λ (k : Bytes). has_prefix k prefix) n ∙ h, ap some p ∙ at_latest r kv.key n e d)

  kv-In-found :
      (kv : KeyValue)
      → (has_prefix kv.key prefix ≡ true)
        × (some kv ≡ kv_of kv.key ((abstract_store cut).entries kv.key))
      → In kv (event_kvs found)
  unfolding abstract_store
  kv-In-found kv (h, e) =
      let (r, q, d) = entry-row kv.key kv (latest kv.key rows) e in
      let n : r.name ≡ kv.key = (latest-some kv.key rows r q).name in
      let i =
        latest_listed l prefix directory (at_revision revision) r
          (ap (λ (k : Bytes). has_prefix k prefix) n ∙ h) (ap (λ (k : Bytes). latest k rows) n ∙ q)
          d in
      let same_kv : some (scan r).kv ≡ some kv =
        at_latest r kv.key (sym n) (ap (λ (k : Bytes). latest k rows) n ∙ q) d ∙ sym e in
      let m = In-map (λ (e : Event). e.kv) (scan r) (map scan found) (In-map scan r found i) in
      subst (λ (x : KeyValue). In x (event_kvs found)) (cc (same_kv)) m

  pub listing :
      IsListing prefix
        (as_of revision t)
        (map (λ (e : Event). e.kv) (rows_to_events (rows_of prefix prefix 0 revision false t)))
  unfolding rows_to_events
  listing = rw list_start_same (
      subst (λ (u : Table). IsListing prefix u (event_kvs found)) (known-as_of revision t)
        (λ kv. (found-of_kv kv, kv-In-found kv)))

-- At the newest id, all rows are known.
pub known_all :
    (n : ℕ) (xs : List Row) → ((a : Row) → In a xs → a.id ≤ n) → known (at_revision n) xs ≡ xs
known_all zero xs h = known_now xs
known_all (suc n) [] h = refl
known_all (suc n) (x ∷ xs) h =
    rw (le→leb x.id (suc n) (h x (inl refl)), known_all (suc n) xs (λ a m. h a (inr m))) refl

max_id-none : (xs : List Row) (a : Row) → max_id xs ≡ none → In a xs → ⊥
unfolding max_id
max_id-none [] a e m = elim m [ ]
max_id-none (x ∷ xs) a e m = absurd (cc (e))

pub max_id-bound : (n : ℕ) (xs : List Row) → max_id xs ≡ some n → (a : Row) → In a xs → a.id ≤ n
unfolding max_id
max_id-bound n [] e a m = elim m [ ]
max_id-bound n (x ∷ xs) e a m =
    by_rest (max_id xs) (max_id-none xs a) (λ k q. max_id-bound k xs q a) refl e m
  where
    by_rest :
        (o : Option ℕ)
        → (max_id xs ≡ none → In a xs → ⊥)
        → ((k : ℕ) → max_id xs ≡ some k → In a xs → a.id ≤ k)
        → max_id xs ≡ o
        → Option.some (elim o as (λ x. ℕ) [ none ↦ x.id | some m ↦ max x.id m ]) ≡ some n
        → (a ≡ x) ⊎ In a xs
        → a.id ≤ n
    by_rest none empty rest q e (inl k) =
        let g : x.id ≡ n = cc in omega (arith, ap (λ (r : Row). r.id) k, g)
    by_rest none empty rest q e (inr i) = absurd (empty q i)
    by_rest (some k) empty rest q e (inl p) =
        let g : max x.id k ≡ n = cc in omega (arith, ap (λ (r : Row). r.id) p, g)
    by_rest (some k) empty rest q e (inr i) =
        let g : max x.id k ≡ n = cc in omega (arith, rest k q i, g)
