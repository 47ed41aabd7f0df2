-- ===== src/Logstructured/Gets.antt =====
-- `Get` of the backend (pkg/kine/logstructured/logstructured.go) and the abstract store.
use k8s_dqlite.Prelude.{
  ℕ, zero, suc, leb, filter, ◌≡◌, refl, ap, ◌∙◌, Bool, true, false, Option, none, some, List, [],
  ◌∷◌,
}
use k8s_dqlite.Bytes.{Bytes, has_suffix_slash}
use k8s_dqlite.Results.{Result, ok, err}
use k8s_dqlite.Spec.{Entry}
use k8s_dqlite.Table.{Table, Row, latest}
use k8s_dqlite.Table.Invariant.{IsLog}
use k8s_dqlite.Table.Latest.{latest-some}
use k8s_dqlite.Table.Lookup.{AllReadable, known, live, unless, list_sql-latest}
use k8s_dqlite.Table.Refines.{entry, entry_of, abstract_store}
use k8s_dqlite.Events.{KeyValue, Event, scan, rows_to_events}
use k8s_dqlite.Exec.{Sys, pure}
use k8s_dqlite.Exec.Gives.{Gives, bind-Gives}
use k8s_dqlite.Generic.{Config}
use k8s_dqlite.Sqllog
use k8s_dqlite.Sqllog.{Answer, list_start}
use k8s_dqlite.Sqllog.Rows.{at_revision, rows_of, list-Gives}
use k8s_dqlite.Logstructured.{
  get_event, first_event, event_kv, requested, adjusted, answer_get, get,
}
use k8s_dqlite.Logstructured.Reads.{adjust-Keeps}

-- The key-value that an entry of the abstract store stands for.
abbrev pub kv_of : Bytes → Option Entry → Option KeyValue
kv_of key none = none
kv_of key (some e) = some (record {
  key = key;
  create_revision = e.create_revision;
  mod_revision = e.mod_revision;
  value = e.value;
  lease = e.lease;
})

-- The table as it was at a revision, as far as its rows still tell: its rows with ids up to the revision. 0
-- stands for now.
abbrev pub as_of : ℕ → Table → Table
as_of zero t = t
as_of (suc revision) t = record t { rows = filter (λ r. leb r.id (suc revision)) t.rows }

pub known_now : (rows : List Row) → known none rows ≡ rows
known_now [] = refl
known_now (r ∷ rs) = ap (◌∷◌ r) (known_now rs)

-- The rows that the statement reads.
pub known-as_of :
    (revision : ℕ) (t : Table)
    → record t { rows = known (at_revision revision) t.rows } ≡ as_of revision t
known-as_of zero t = ap (λ (rows : List Row). record t { rows = rows }) (known_now t.rows)
known-as_of (suc revision) t = refl

pub scan_kv : (r : Row) → r.deleted ≡ false → some (scan r).kv ≡ kv_of r.name (entry r)
unfolding scan
scan_kv r d = by_flags r.created r.deleted d refl refl
  where
    by_flags :
        (b x : Bool)
        → x ≡ false
        → r.created ≡ b
        → r.deleted ≡ x
        → some (scan r).kv ≡ kv_of r.name (entry r)
    by_flags true true e p q = absurd (cc)
    by_flags false true e p q = absurd (cc)
    by_flags true false e p q = simp (p, q) refl
    by_flags false false e p q = simp (p, q) refl

unless_kv :
    (r : Row) (b : Bool)
    → r.deleted ≡ b
    → event_kv (first_event (rows_to_events (unless b r))) ≡ kv_of r.name (entry r)
unfolding rows_to_events
unless_kv r true d = simp (d) refl
unless_kv r false d = scan_kv r d

live_kv :
    (key : Bytes) (o : Option Row)
    → ((r : Row) → o ≡ some r → r.name ≡ key)
    → event_kv (first_event (rows_to_events (live o))) ≡ kv_of key (entry_of o)
unfolding rows_to_events
live_kv key none h = refl
live_kv key (some r) h =
    unless_kv r r.deleted refl ∙ ap (λ (k : Bytes). kv_of k (entry r)) (h r refl)

list_start_plain :
    (key start_key : Bytes) → has_suffix_slash key ≡ false → list_start key start_key ≡ []
list_start_plain key start_key h = rw h refl

-- What Get gives of a table.
abbrev pub Finds : Bytes → ℕ → Table → ℕ × Option KeyValue → Sys → Type 0
Finds key revision t (rev, kv) s =
    (kv ≡ kv_of key ((abstract_store (as_of revision t)).entries key)) × (s.table ≡ t)

module _ {c : ℕ} (d : Config) (s : Sys) (l : IsLog c s.table) (readable : AllReadable s.table.rows)
    (key : Bytes) (plain : has_suffix_slash key ≡ false) (revision limit : ℕ) where
  abbrev t : Table
  t = s.table

  -- The rows of the key that the read at the revision finds.
  key_rows :
      rows_of key [] limit revision false t
      ≡ live (latest key (known (at_revision revision) t.rows))
  key_rows =
      rw (list_start_plain key [] plain)
        (list_sql-latest l readable key plain (at_revision revision) limit)

  first_kv :
      event_kv (first_event (rows_to_events (rows_of key [] limit revision false t)))
      ≡ kv_of key ((abstract_store (as_of revision t)).entries key)
  unfolding abstract_store
  first_kv =
      let rows = known (at_revision revision) t.rows in
      ap (λ (x : List Row). event_kv (first_event (rows_to_events x))) key_rows
      ∙ live_kv key (latest key rows) (λ r e. (latest-some key rows r e).name)
      ∙ ap (λ (u : Table). kv_of key ((abstract_store u).entries key)) (known-as_of revision t)

  adjusted-Gives :
      (rev : ℕ) (kv : Option KeyValue) (s' : Sys)
      → kv ≡ kv_of key ((abstract_store (as_of revision t)).entries key)
      → s'.table ≡ t
      → Gives (Finds key revision t) (adjusted d rev kv s')
  adjusted-Gives rev kv s' e h = (e, adjust-Keeps d rev s' ∙ h)

  -- On a log whose names are readable, for a key that does not end in a slash, where the database hands out every
  -- row of a query that it answers: Get at a revision, where it ends without an error, gives the key's entry
  -- in the abstract store of the rows with ids up to the revision, or of all rows where the revision is 0,
  -- and nothing where that has none. At a compacted revision this is what the rows left tell, not what the
  -- store was, and no error. It changes no table.
  pub get-Finds : Gives (Finds key revision t) (get d key [] limit revision s)
  unfolding get get_event
  get-Finds = answered (get_event d key [] limit revision false s) (
      bind-Gives _
        (λ (x : ℕ × Option Event) s'.
          (event_kv x.1 ≡ kv_of key ((abstract_store (as_of revision t)).entries key))
          × (s'.table ≡ t))
        (Sqllog.list d key [] limit revision false)
        (λ answer. pure (requested revision answer.rev, first_event answer.events)) s
        (list-Gives d key [] limit revision false s)
        (λ answer s' h. (ap (λ (es : List Event). event_kv (first_event es)) h.0 ∙ first_kv, h.1)))
    where
      answered :
          (out : Result (ℕ × Option Event) × Sys)
          → Gives
              (λ (x : ℕ × Option Event) s'.
                (event_kv x.1 ≡ kv_of key ((abstract_store (as_of revision t)).entries key))
                × (s'.table ≡ t))
              out
          → Gives (Finds key revision t) (answer_get d out.0 out.1)
      answered (ok (rev, event), s') h = adjusted-Gives rev (event_kv event) s' h.0 h.1
      answered (err e, s') h = tt
