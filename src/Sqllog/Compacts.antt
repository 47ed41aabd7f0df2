-- ===== src/Sqllog/Compacts.antt =====
-- A whole compaction (`DoCompact` and `compactStart` of pkg/kine/logstructured/sqllog/sql.go) and the abstract
-- store.
use k8s_dqlite.Prelude.{
  ℕ, zero, suc, ◌-◌, ◌≤◌, ◌<◌, ◌≡◌, refl, sym, ap, ◌∙◌, ◌⊎◌, inl, inr, Bool, true, false, List, [],
  ◌∷◌, arith, In, Bool-cases, if◌then◌else◌, ltb, leb, leb_false→lt, ltb→lt, subst, ◌&&◌, &&_intro,
  &&_left, lt→ltb,
}
use k8s_dqlite.Bytes.{has_suffix_slash}
use k8s_dqlite.Bytes.Order.{same→eq, eq→same}
use k8s_dqlite.Bytes.Ranges.{get_prefix_range, in_range, get_prefix_range-same}
use k8s_dqlite.Results.{Result, ok, err}
use k8s_dqlite.Spec.{Store}
use k8s_dqlite.Table.{Row, Table, compact_rev_key, revision_interval}
use k8s_dqlite.Table.Select.{after_prefix_sql}
use k8s_dqlite.Table.Invariant.{IsLog}
use k8s_dqlite.Table.Compacted.{compacted-IsLog}
use k8s_dqlite.Table.Lookup.{AllReadable, filter_only}
use k8s_dqlite.Table.Intervals.{
  HasKey, Newer, interval_start, interval_end, interval-Newer, newest-Newer, compacted-HasKey,
  compacted-Newer,
}
use k8s_dqlite.Table.Refines.{abstract_store}
use k8s_dqlite.Table.Unchanged.{abstract_store-compacted}
use k8s_dqlite.Events.{rows_to_events}
use k8s_dqlite.Exec.{Sys, M, continue, pure, ◌>>=◌, ◌>>◌}
use k8s_dqlite.Generic
use k8s_dqlite.Generic.{Config}
use k8s_dqlite.Generic.Reads.{IsRead, query-Gives, query-Keeps}
use k8s_dqlite.Exec.Gives.{Gives}
use k8s_dqlite.Generic.Compacts.{Atomic, undone, whole, compact-Atomic, compact_nothing}
use k8s_dqlite.Sqllog.{batches, batch_end, compact_start, keep_one, initialised, do_compact}

-- A log with a row of the key and a row past the target, and the store that it stands for.
abbrev pub Holding : ℕ → Store → Table → Type 0
Holding target store t =
    (c : ℕ) × IsLog c t × HasKey t.rows × Newer target t.rows × (abstract_store t ≡ store)

module _ (d : Config) (target : ℕ) (store : Store) where
  compact-Holding :
      (stop : ℕ) (s : Sys)
      → stop ≤ target
      → Holding target store s.table
      → Holding target store (Generic.compact d stop s).1.table
  compact-Holding stop s h (c, l, k, w, e) =
      let high = (revision_interval s.table).1 in
      let interval : revision_interval s.table ≡ (c, high) = λ i. (interval_start l k i, high) in
      let above = interval-Newer l target w in
      elim (Bool-cases (leb stop c)) [
        | inl b ↦
            subst (Holding target store) (sym (compact_nothing d stop s c high interval b))
              (c, l, k, w, e)
        | inr b ↦
            let low = leb_false→lt stop c b in
            taken c l k w e
              (subst (λ (n : ℕ). Atomic c n s.table (Generic.compact d stop s))
                (ground (arith, h, above))
                (compact-Atomic d stop s l interval (omega (arith, low, h, above)) (interval_end l)
                  b))
              (omega (arith, low)) (omega (arith, h, above, interval_end l))
      ]
    where
      taken :
          (c : ℕ)
          → IsLog c s.table
          → HasKey s.table.rows
          → Newer target s.table.rows
          → abstract_store s.table ≡ store
          → Atomic c stop s.table (Generic.compact d stop s)
          → c ≤ stop
          → stop ≤ s.table.seq
          → Holding target store (Generic.compact d stop s).1.table
      taken c l k w e (undone x p q) order room =
          subst (Holding target store) (sym q) (c, l, k, w, e)
      taken c l k w e (whole p q) order room = subst (Holding target store) (sym q) (
        stop,
        compacted-IsLog c stop l order room,
        compacted-HasKey c stop l order room k,
        compacted-Newer c stop l order room target h w,
        abstract_store-compacted c stop l order room ∙ e,
      )

  end_at_most : (start : ℕ) → batch_end start target ≤ target
  end_at_most start = ground arith

  batches-Holding :
      (fuel start : ℕ) (s : Sys)
      → Holding target store s.table
      → Holding target store (batches d fuel start target s).1.table
  unfolding batches
  batches-Holding zero start s h = h
  batches-Holding (suc fuel) start s h =
      by_flag (ltb start target) (batches-Holding fuel (batch_end start target))
    where
      rest : M (Unit {0})
      rest = batches d fuel (batch_end start target) target

      by_result :
          (r : Result (Unit {0})) (s' : Sys)
          → Holding target store s'.table
          → ((s : Sys)
              → Holding target store s.table
              → Holding target store (batches d fuel (batch_end start target) target s).1.table)
          → Holding target store
              (continue r (λ u. batches d fuel (batch_end start target) target) s').1.table
      by_result (ok u) s' h k = k s' h
      by_result (err e) s' h k = h

      by_flag :
          (b : Bool)
          → ((s : Sys)
              → Holding target store s.table
              → Holding target store (batches d fuel (batch_end start target) target s).1.table)
          → Holding target store
              ((if b
                  then (Generic.compact d (batch_end start target)
                      >> batches d fuel (batch_end start target) target)
                  else pure tt)
                s).1.table
      by_flag false k = h
      by_flag true k =
          let (r, s') = Generic.compact d (batch_end start target) s in
          by_result r s' (compact-Holding (batch_end start target) s (end_at_most start) h) k

module _ {c : ℕ} (d : Config) (s : Sys) (l : IsLog c s.table) (readable : AllReadable s.table.rows)
    (k : HasKey s.table.rows) where
  key_plain : has_suffix_slash compact_rev_key ≡ false
  unfolding has_suffix_slash
  key_plain = refl

  -- The start-up finds the one row of the key.
  one_row :
      after_prefix_sql
        (get_prefix_range compact_rev_key).0
        (get_prefix_range compact_rev_key).1
        0
        0
        s.table
      ≡ k.0 ∷ []
  unfolding after_prefix_sql
  one_row =
      let (a, m, e) = k in
      let test = λ (r : Row).
        in_range (get_prefix_range compact_rev_key).0 (get_prefix_range compact_rev_key).1 r.name
        && ltb 0 r.id in
      let names = λ (r : Row) (i : In r s.table.rows).
        get_prefix_range-same compact_rev_key r.name key_plain (readable r i) in
      filter_only test a s.table.rows l.ascending m
        (&&_intro _ _ (names a m ∙ eq→same a.name compact_rev_key e) (lt→ltb 0 a.id (l.id_pos a m)))
        (λ b i h.
          l.one_key_row b a i m
            (same→eq b.name compact_rev_key (sym (names b i) ∙ &&_left _ (ltb 0 b.id) h)) e)

  start-Keeps : (compact_start d s).1.table ≡ s.table
  unfolding compact_start Generic.after_prefix rows_to_events
  start-Keeps =
      let read =
        after_prefix_sql (get_prefix_range compact_rev_key).0 (get_prefix_range compact_rev_key).1 0
          0 in
      let (r, s') = Generic.query d read s in
      by_result r s' (query-Keeps d read s) (query-Gives d read s)
    where
      by_rows :
          (rows : List Row) (s' : Sys)
          → rows ≡ k.0 ∷ []
          → s'.table ≡ s.table
          → (keep_one d (rows_to_events rows) s').1.table ≡ s.table
      by_rows rows s' e h = rw e h

      by_result :
          (r : Result (List Row)) (s' : Sys)
          → s'.table ≡ s.table
          → Gives
              (IsRead
                (after_prefix_sql
                  (get_prefix_range compact_rev_key).0
                  (get_prefix_range compact_rev_key).1
                  0
                  0)
                s.table)
              (r, s')
          → (continue r (λ rows. keep_one d (rows_to_events rows)) s').1.table ≡ s.table
      by_result (ok rows) s' h g = by_rows rows s' (g.0 ∙ one_row) h
      by_result (err e) s' h g = h

  -- A log, with the store as it was.
  abbrev pub Unseen : Table → Type 0
  Unseen t = (c : ℕ) × IsLog c t × (abstract_store t ≡ abstract_store s.table)

  batches-Unseen :
      (high start : ℕ) (s' : Sys)
      → s'.table ≡ s.table
      → high ≡ (revision_interval s.table).1
      → Unseen (batches d (high - 100) start (high - 100) s').1.table
  batches-Unseen high start s' h e =
      let (c', l', k', w', q) =
        batches-Holding d (high - 100) (abstract_store s.table) (high - 100) start s' (
          subst (Holding (high - 100) (abstract_store s.table)) (sym h)
            (c, l, k, newest-Newer l (high - 100) k below, refl)) in
      (c', l', q)
    where
      below : ((high - 100) < (revision_interval s.table).1) ⊎ (high - 100 ≡ 0)
      below = elim (Bool-cases (ltb (high - 100) high)) [
        | inl b ↦ inl (omega (arith, e, ltb→lt _ _ b))
        | inr b ↦ inr (ground (arith, b))
      ]

  -- On a log whose names are readable and that has a row of compact_rev_key, whatever the driver does:
  -- DoCompact, over all its batches, changes nothing that the abstract store holds, and leaves a log.
  pub do_compact-Unseen : Unseen (do_compact d s).1.table
  unfolding do_compact Generic.get_compact_revision
  do_compact-Unseen = let (r, s1) = compact_start d s in started r s1 start-Keeps
    where
      read :
          (r : Result (ℕ × ℕ)) (s2 : Sys)
          → s2.table ≡ s.table
          → Gives (IsRead revision_interval s.table) (r, s2)
          → Unseen (continue r (λ (x : ℕ × ℕ). batches d (x.1 - 100) x.0 (x.1 - 100)) s2).1.table
      read (ok (start, high)) s2 h g = batches-Unseen high start s2 h (ap (λ (x : ℕ × ℕ). x.1) g.0)
      read (err e) s2 h g = (c, subst (λ (t : Table). IsLog c t) (sym h) l, ap abstract_store h)

      started :
          (r : Result (Unit {0})) (s1 : Sys)
          → s1.table ≡ s.table
          → Unseen
              ((initialised (λ (s0 : Sys). (r, s1))
                  >> (Generic.query d revision_interval >>= λ (x : ℕ × ℕ).
                      batches d (x.1 - 100) x.0 (x.1 - 100)))
                s).1.table
      started (ok u) s1 h =
          let (r, s2) = Generic.query d revision_interval s1 in
          read r s2 (query-Keeps d revision_interval s1 ∙ h) (
            subst (λ (t : Table). Gives (IsRead revision_interval t) (r, s2)) h
              (query-Gives d revision_interval s1))
      started (err e) s1 h = (c, subst (λ (t : Table). IsLog c t) (sym h) l, ap abstract_store h)
