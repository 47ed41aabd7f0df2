-- ===== src/Logstructured/Past.antt =====
-- `List` of the backend (pkg/kine/logstructured/logstructured.go) at an old revision.
use k8s_dqlite.Prelude.{ℕ, suc, ◌≤◌, ◌≡◌, sym, ap, ◌∙◌, true, false, List, map, arith, subst, In}
use k8s_dqlite.Bytes.{Bytes, has_prefix, has_suffix_slash}
use k8s_dqlite.Bytes.Ranges.{get_prefix_range, in_range, get_prefix_range-has_prefix}
use k8s_dqlite.Table.{Table, Row, compact_rev_key}
use k8s_dqlite.Table.Invariant.{IsLog}
use k8s_dqlite.Table.History.{Runs, Runs-IsLog, seen-Runs}
use k8s_dqlite.Events.{KeyValue, Event, rows_to_events}
use k8s_dqlite.Exec.{Sys}
use k8s_dqlite.Exec.Gives.{Gives, map-Gives}
use k8s_dqlite.Generic.{Config}
use k8s_dqlite.Sqllog.Rows.{rows_of}
use k8s_dqlite.Logstructured.{list}
use k8s_dqlite.Logstructured.Gets.{as_of}
use k8s_dqlite.Logstructured.Listings.{IsListing, listing, known_all, list_start_same}
use k8s_dqlite.Logstructured.Lists.{list-IsListing}

module _ {c e : ℕ} {t u : Table} (l : IsLog c t) (later : Runs c t e u) (n : ℕ)
    (now : t.seq ≡ suc n) (kept : e ≤ t.seq) (prefix : Bytes)
    (directory : has_suffix_slash prefix ≡ true)
    (user : has_prefix compact_rev_key prefix ≡ false) where
  m : IsLog e u
  m = Runs-IsLog l later

  -- The rows of the list at the revision, then and later.
  rows_same : rows_of prefix prefix 0 (suc n) false u ≡ rows_of prefix prefix 0 (suc n) false t
  rows_same =
      let away : in_range (get_prefix_range prefix).0 (get_prefix_range prefix).1 compact_rev_key
          ≡ false =
        get_prefix_range-has_prefix prefix compact_rev_key directory ∙ user in
      rw (list_start_same l prefix directory (suc n))
        (seen-Runs _ _ (suc n) 0 l (omega (arith, now)) (omega (arith, now, kept)) away later)

  as_of_then : as_of (suc n) t ≡ t
  as_of_then =
      ap (λ (rows : List Row). record t { rows = rows })
        (known_all (suc n) t.rows (λ a i. omega (arith, l.id_le_seq a i, now)))

  -- What is a listing at the revision later is one of what the store was.
  then_listed :
      (kvs : List KeyValue) → IsListing prefix (as_of (suc n) u) kvs → IsListing prefix t kvs
  then_listed kvs h kv =
      let kvs_of = λ (rows : List Row). map (λ (e : Event). e.kv) (rows_to_events rows) in
      let (to_late, of_late) = listing m prefix directory (suc n) kv in
      let (to_then, of_then) =
        subst (λ (x : Table). IsListing prefix x (kvs_of (rows_of prefix prefix 0 (suc n) false t)))
          as_of_then (listing l prefix directory (suc n)) kv in
      let same_kvs = ap kvs_of rows_same in
      (
        λ i. to_then (subst (In kv) same_kvs (of_late ((h kv).0 i))),
        λ a. (h kv).1 (to_late (subst (In kv) (sym same_kvs) (of_then a))),
      )

  -- On a log whose newest revision is not 0, for a prefix that ends in a slash and is none of compact_rev_key, and
  -- without a limit: whatever statements run afterwards, until a compaction passes the revision, List at the
  -- revision, where it ends without an error, gives exactly the entries under the prefix that the abstract
  -- store had then.
  pub list-Past :
      (d : Config) (s : Sys)
      → s.table ≡ u
      → Gives
          (λ (r : ℕ × List KeyValue) s'. IsListing prefix t r.1 × (s'.table ≡ u))
          (list d prefix prefix 0 (suc n) s)
  list-Past d s h =
      map-Gives
        (λ (r : ℕ × List KeyValue) s'. IsListing prefix (as_of (suc n) u) r.1 × (s'.table ≡ u))
        (λ (r : ℕ × List KeyValue) s'. IsListing prefix t r.1 × (s'.table ≡ u))
        (list d prefix prefix 0 (suc n) s) (λ r s' p. (then_listed r.1 p.0, p.1))
        (list-IsListing d m prefix directory (suc n) s h)
