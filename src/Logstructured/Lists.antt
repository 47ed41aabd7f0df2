-- ===== src/Logstructured/Lists.antt =====
-- `List` of the backend (pkg/kine/logstructured/logstructured.go) and the abstract store.
use k8s_dqlite.Prelude.{
  ℕ, zero, suc, ◌≡◌, refl, sym, ap, ◌∙◌, Bool, true, false, Option, none, some, List, map,
  if◌then◌else◌, ◌≢◌, subst,
}
use k8s_dqlite.Bytes.{Bytes, has_suffix_slash}
use k8s_dqlite.Results.{Result, ok, err, compacted}
use k8s_dqlite.Table.{Table, Row, max_id}
use k8s_dqlite.Table.Invariant.{IsLog}
use k8s_dqlite.Events.{KeyValue, Event, rows_to_events}
use k8s_dqlite.Exec.{Sys, pure, raise, continue, ◌>>=◌}
use k8s_dqlite.Exec.Gives.{Gives, bind-Gives, map-Gives, if-Gives}
use k8s_dqlite.Generic
use k8s_dqlite.Generic.{Config, scan_int}
use k8s_dqlite.Generic.Reads.{IsRead, query-Gives}
use k8s_dqlite.Sqllog
use k8s_dqlite.Sqllog.{Answer, list_start}
use k8s_dqlite.Sqllog.Rows.{HasEvents, rows_of, list-Gives}
use k8s_dqlite.Logstructured.{listed, list_done, relists, list_within, list, out_of_fuel}
use k8s_dqlite.Logstructured.Relists.{list_within_ends}
use k8s_dqlite.Logstructured.Gets.{as_of, known-as_of}
use k8s_dqlite.Logstructured.Listings.{IsListing, listing, known_all, max_id-bound}

module _ {c : ℕ} (d : Config) {t : Table} (l : IsLog c t) (prefix : Bytes)
    (directory : has_suffix_slash prefix ≡ true) where
  abbrev IsCurrent : ℕ → Sys → Type 0
  IsCurrent n s = (as_of n t ≡ t) × (s.table ≡ t)

  -- What the call gives; nothing is said of the end of the fuel.
  abbrev Shown : ℕ → Option (ℕ × List KeyValue) → Sys → Type 0
  Shown revision none s = Unit
  Shown revision (some (rev, kvs)) s = IsListing prefix (as_of revision t) kvs × (s.table ≡ t)

  IsCurrent-Gives : (s : Sys) → s.table ≡ t → Gives IsCurrent (Sqllog.current_revision d s)
  unfolding Sqllog.current_revision Generic.current_revision
  IsCurrent-Gives s e =
      bind-Gives (IsRead (λ (t : Table). max_id t.rows) s.table) IsCurrent
        (Generic.query d (λ t. max_id t.rows)) scan_int s (query-Gives d (λ t. max_id t.rows) s)
        λ id s' h. by_id id s' h.0 (h.1 ∙ e)
    where
      by_id :
          (id : Option ℕ) (s' : Sys)
          → id ≡ max_id s.table.rows
          → s'.table ≡ t
          → Gives IsCurrent (scan_int id s')
      by_id none s' q e' = tt
      by_id (some n) s' q e' = (
        sym (known-as_of n t)
            ∙ ap (λ (rows : List Row). record t { rows = rows })
                (known_all n t.rows
                  (max_id-bound n t.rows (ap (λ (u : Table). max_id u.rows) (sym e) ∙ sym q))),
        e',
      )

  done-Gives :
      (revision : ℕ) (answer : Answer) (s : Sys)
      → answer.events ≡ rows_to_events (rows_of prefix prefix 0 revision false t)
      → s.table ≡ t
      → Gives (Shown revision) ((list_done revision answer >>= λ r. pure (some r)) s)
  done-Gives revision answer s h e = by_flag answer.is_compacted
    where
      kvs : IsListing prefix (as_of revision t) (map (λ (e : Event). e.kv) answer.events)
      kvs = rw h (listing l prefix directory revision)

      by_flag :
          (b : Bool)
          → Gives (Shown revision) (
              ((if b then raise compacted else pure (listed revision answer)) >>= λ r.
              pure (some r))
                s)
      by_flag true = tt
      by_flag false = (kvs, e)

  now :
      (current : ℕ)
      → as_of current t ≡ t
      → (o : Option (ℕ × List KeyValue)) (s : Sys) → Shown current o s
      → Shown 0 o s
  now current h none s p = tt
  now current h (some (rev, kvs)) s p = (subst (λ (u : Table). IsListing prefix u kvs) h p.0, p.1)

  within-Gives :
      (fuel revision : ℕ) (s : Sys)
      → s.table ≡ t
      → Gives (Shown revision) (list_within d fuel prefix prefix 0 revision s)
  unfolding list_within
  within-Gives zero revision s e = tt
  within-Gives (suc fuel) revision s e =
      let events = rows_to_events (rows_of prefix prefix 0 revision false t) in
      bind-Gives (HasEvents events t) (Shown revision)
        (Sqllog.list d prefix prefix 0 revision false) _ s
        (subst
          (λ (u : Table).
            Gives (HasEvents (rows_to_events (rows_of prefix prefix 0 revision false u)) u)
              (Sqllog.list d prefix prefix 0 revision false s))
          e (list-Gives d prefix prefix 0 revision false s))
        λ answer s' h.
          if-Gives (Shown revision) (relists revision answer) _ _ s'
            (again (within-Gives fuel) revision answer s' h.1)
            (λ b. done-Gives revision answer s' h.0 h.1)
    where
      again :
          ((current : ℕ) (s : Sys)
            → s.table ≡ t
            → Gives (Shown current) (list_within d fuel prefix prefix 0 current s))
          → (revision : ℕ) (answer : Answer) (s' : Sys) → s'.table ≡ t
          → relists revision answer ≡ true
          → Gives (Shown revision) (
              (Sqllog.current_revision d >>= λ current. list_within d fuel prefix prefix 0 current)
                s')
      again rest zero answer s' e' b =
          bind-Gives IsCurrent (Shown 0) (Sqllog.current_revision d)
            (λ current. list_within d fuel prefix prefix 0 current) s' (IsCurrent-Gives s' e')
            λ current s'' h.
              map-Gives (Shown current) (Shown 0) (list_within d fuel prefix prefix 0 current s'')
                (now current h.0) (rest current s'' h.1)
      again rest (suc revision) answer s' e' b = absurd (cc (b))

  -- On a log, for a prefix that ends in a slash and without a limit, where the database hands out every row of a
  -- query that it answers, and whichever of its calls fail: List at a revision, where it ends without an
  -- error, gives exactly the entries under the prefix that the abstract store of the rows with ids up to the
  -- revision has, or of all rows where the revision is 0. It changes no table.
  pub list-IsListing :
      (revision : ℕ) (s : Sys)
      → s.table ≡ t
      → Gives
          (λ (r : ℕ × List KeyValue) s'. IsListing prefix (as_of revision t) r.1 × (s'.table ≡ t))
          (list d prefix prefix 0 revision s)
  unfolding list
  list-IsListing revision s e =
      ended (list_within d 2 prefix prefix 0 revision s)
        (list_within_ends d {c = c} prefix prefix 0 revision s (subst (IsLog c) (sym e) l))
        (within-Gives 2 revision s e)
    where
      ended :
          (out : Result (Option (ℕ × List KeyValue)) × Sys)
          → out.0 ≢ ok none
          → Gives (Shown revision) out
          → Gives
              (λ (r : ℕ × List KeyValue) s'.
                IsListing prefix (as_of revision t) r.1 × (s'.table ≡ t))
              (continue out.0 out_of_fuel out.1)
      ended (ok none, s') n p = absurd (n refl)
      ended (ok (some r), s') n p = p
      ended (err x, s') n p = tt
