-- ===== src/Sqllog/Duplicates.antt =====
-- `compactStart` (pkg/kine/logstructured/sqllog/sql.go) on a table with several rows of the key.
use k8s_dqlite.Prelude.{
  ℕ, ◌<◌, ◌≡◌, refl, ap, sym, ◌∙◌, inl, inr, Bool, true, false, not, ◌&&◌, ◌||◌, none, List, [],
  ◌∷◌, arith, ◌==◌, ==_iff, lt→ltb, length, map, filter, any, In, In-filter, In-of_filter,
  In-of_any, any_of_In, filter_congr, filter-filter, Bool-cases,
}
use k8s_dqlite.Bytes.{same, has_suffix_slash}
use k8s_dqlite.Bytes.Order.{same→eq}
use k8s_dqlite.Bytes.Ranges.{get_prefix_range, get_prefix_range-same}
use k8s_dqlite.Results.{Result, ok}
use k8s_dqlite.Table.{Row, Table, compact_rev_key, delete_rev_sql}
use k8s_dqlite.Table.Select.{after_prefix_sql}
use k8s_dqlite.Table.Lookup.{AllReadable}
use k8s_dqlite.Events.{Event, scan, rows_to_events}
use k8s_dqlite.Exec.{Sys, attempt}
use k8s_dqlite.Generic
use k8s_dqlite.Generic.{Config, execute, query, retrying}
use k8s_dqlite.Sqllog.{max_event, delete_others, keep_one, compact_start}

-- The rows were inserted by Create: their events have no previous value.
abbrev AllCreated : List Event → Type 0
AllCreated [] = Unit
AllCreated (e ∷ es) = (e.prev_kv ≡ none) × (0 < e.kv.mod_revision) × AllCreated es

abbrev without : List Event → Table → Table
without [] t = t
without (e ∷ es) t = without es (delete_rev_sql e.kv.mod_revision t)

max_event_created : (es : List Event) → AllCreated es → max_event (0, 0) es ≡ (0, 0)
unfolding max_event
max_event_created [] h = refl
max_event_created (e ∷ es) h = rw h.0 (max_event_created es h.2)

delete_step :
    (d : Config) (revision : ℕ) (t : Table) (n : List ℕ)
    → Generic.delete_revision d revision (record { table = t; faults = []; notify = n })
      ≡ (ok tt, record { table = delete_rev_sql revision t; faults = []; notify = n })
unfolding Generic.delete_revision execute retrying attempt
delete_step d revision t n = refl

delete_all :
    (d : Config) (es : List Event) (t : Table) (n : List ℕ)
    → AllCreated es
    → delete_others d 0 es (record { table = t; faults = []; notify = n })
      ≡ (ok tt, record { table = without es t; faults = []; notify = n })
unfolding delete_others
delete_all d [] t n h = refl
delete_all d (e ∷ es) t n h =
    let b : (e.kv.mod_revision == 0) ≡ false = ground arith in
    rw (b, delete_step d e.kv.mod_revision t n)
      (delete_all d es (delete_rev_sql e.kv.mod_revision t) n h.2)

-- The events of rows that Create inserted.
AllCreated-scan :
    (rows : List Row)
    → ((r : Row) → In r rows → (r.created ≡ true) × (0 < r.id))
    → AllCreated (map scan rows)
unfolding scan
AllCreated-scan [] h = tt
AllCreated-scan (r ∷ rs) h =
    let (made, positive) = h r (inl refl) in
    simp (made) (refl, positive, AllCreated-scan rs (λ a m. h a (inr m)))

scan_id : (r : Row) → (scan r).kv.mod_revision ≡ r.id
unfolding scan
scan_id r = by_flag r.created refl
  where
    by_flag : (b : Bool) → r.created ≡ b → (scan r).kv.mod_revision ≡ r.id
    by_flag true e = simp (e) refl
    by_flag false e = simp (e) refl

-- Whether a row has the id of one of them.
abbrev among : List Row → Row → Bool
among ks r = any (λ (k : Row). r.id == k.id) ks

without-among :
    (ks : List Row) (t : Table)
    → without (map scan ks) t ≡ record t { rows = filter (λ r. not (among ks r)) t.rows }
unfolding delete_rev_sql
without-among [] t = ap (λ (rows : List Row). record t { rows = rows }) (sym (filter_all t.rows))
  where
    filter_all : (rows : List Row) → filter (λ r. true) rows ≡ rows
    filter_all [] = refl
    filter_all (r ∷ rs) = ap (◌∷◌ r) (filter_all rs)
without-among (k ∷ ks) t = rw (scan_id k) (
    without-among ks (record t { rows = filter (λ r. not (r.id == k.id)) t.rows })
    ∙ ap (λ (rows : List Row). record t { rows = rows })
        (filter-filter (λ r. not (among ks r)) (λ r. not (r.id == k.id)) t.rows
          ∙ filter_congr _ _ t.rows (λ r m. not_or (r.id == k.id) (among ks r))))
  where
    not_or : (a b : Bool) → (not a && not b) ≡ not (a || b)
    not_or true b = refl
    not_or false b = refl

several :
    (d : Config) (ks : List Row) (s : Sys)
    → 1 < length ks
    → keep_one d (map scan ks) s
      ≡ delete_others d (max_event (0, 0) (map scan ks)).1 (map scan ks) s
several d [] s h = absurd (omega (arith, h))
several d (a ∷ []) s h = absurd (omega (arith, h))
several d (a ∷ b ∷ ks) s h = refl

-- A driver that does not fail.
abbrev working : List ℕ → Table → Sys
working n t = record { table = t; faults = []; notify = n }

abbrev ended : List ℕ → Table → Result (Unit {0}) × Sys
ended n t = (ok tt, working n t)

-- The row is one of the key's.
abbrev pub is_key_row : Row → Bool
is_key_row r = same r.name compact_rev_key

key_plain : has_suffix_slash compact_rev_key ≡ false
unfolding has_suffix_slash
key_plain = refl

module _ (t : Table) (readable : AllReadable t.rows) (positive : (a : Row) → In a t.rows → 0 < a.id)
    (apart : (a b : Row) → In a t.rows → In b t.rows → a.id ≡ b.id → a ≡ b)
    (made : (a : Row) → In a t.rows → a.name ≡ compact_rev_key → a.created ≡ true)
    (two : 1 < length (filter is_key_row t.rows)) where
  abbrev ks : List Row
  ks = filter is_key_row t.rows

  abbrev read : List Row
  read =
      after_prefix_sql (get_prefix_range compact_rev_key).0 (get_prefix_range compact_rev_key).1 0 0
        t

  read-ks : read ≡ ks
  unfolding after_prefix_sql
  read-ks = filter_congr _ _ t.rows λ a m.
      rw
        (
          lt→ltb 0 a.id (positive a m),
          get_prefix_range-same compact_rev_key a.name key_plain (readable a m),
        )
        (and_true (same a.name compact_rev_key))
    where
      and_true : (b : Bool) → (b && true) ≡ b
      and_true true = refl
      and_true false = refl

  ks_made : (r : Row) → In r ks → (r.created ≡ true) × (0 < r.id)
  ks_made r m =
      let (i, e) = In-of_filter is_key_row r t.rows m in
      (made r i (same→eq r.name compact_rev_key e), positive r i)

  among-ks : (r : Row) → In r t.rows → among ks r ≡ is_key_row r
  among-ks r m = elim (Bool-cases (is_key_row r)) [
    | inl here ↦
        any_of_In (λ (k : Row). r.id == k.id) r ks (In-filter is_key_row r t.rows m here)
          ((==_iff r.id r.id).1 refl)
        ∙ sym here
    | inr away ↦ elim (Bool-cases (among ks r)) [
      | inl found ↦
          let (k, i, e) = In-of_any (λ (k : Row). r.id == k.id) ks found in
          let (j, is_key) = In-of_filter is_key_row k t.rows i in
          let q : r ≡ k = apart r k m j ((==_iff r.id k.id).0 e) in
          absurd (cc (away, is_key, ap is_key_row q))
      | inr lost ↦ lost ∙ sym away
    ]
  ]

  gone : without (map scan ks) t ≡ record t { rows = filter (λ r. not (is_key_row r)) t.rows }
  gone =
      without-among ks t
      ∙ ap (λ (rows : List Row). record t { rows = rows })
          (filter_congr _ _ t.rows (λ r m. ap not (among-ks r m)))

  -- On a table whose names are readable and whose ids are positive and differ, with more than one row of
  -- compact_rev_key, all of them as Create inserts them, and where the driver does not fail: compactStart
  -- deletes every row of compact_rev_key and keeps none, and leaves the other rows.
  pub compact_start_deletes :
      (d : Config) (n : List ℕ)
      → compact_start d (record { table = t; faults = []; notify = n }) ≡ (
        ok tt,
        record {
          table = record t { rows = filter (λ r. not (is_key_row r)) t.rows };
          faults = [];
          notify = n;
        },
      )
  unfolding compact_start Generic.after_prefix query retrying attempt rows_to_events
  compact_start_deletes d n =
      let s : Sys = record { table = t; faults = []; notify = n } in
      ap (λ (rows : List Row). keep_one d (map scan rows) s) read-ks
      ∙ several d ks s two
      ∙ ap (λ (b : ℕ × ℕ). delete_others d b.1 (map scan ks) s)
          (max_event_created (map scan ks) (AllCreated-scan ks ks_made))
      ∙ delete_all d (map scan ks) t n (AllCreated-scan ks ks_made)
      ∙ ap (λ (u : Table). ended n u) gone
