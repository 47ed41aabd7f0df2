-- ===== src/Logstructured/Ttl.antt =====
-- Leases (`ttlEvents` and `ttl` of pkg/kine/logstructured/logstructured.go): which events get a timer,
-- and what the timer does when it fires.
use k8s_dqlite.Prelude.{
  ℕ, zero, suc, ◌≡◌, refl, ap, ◌∙◌, ◌≢◌, false, Option, none, some, List, [], ◌∷◌, ◌++◌, ltb, ◌==◌,
  ==_iff, if◌then◌else◌, filter, Bool-cases, inl, inr,
}
use k8s_dqlite.Bytes.{Bytes, codes}
use k8s_dqlite.Results.{Result, ok, err}
use k8s_dqlite.Spec
use k8s_dqlite.Spec.{Store, Entry}
use k8s_dqlite.Table.{compact_rev_key}
use k8s_dqlite.Table.Invariant.{IsLog}
use k8s_dqlite.Table.Refines.{abstract_store}
use k8s_dqlite.Events.{Event}
use k8s_dqlite.Exec.{Sys, M}
use k8s_dqlite.Generic.{Config}
use k8s_dqlite.Generic.Writes.{refused, wrote}
use k8s_dqlite.Sqllog
use k8s_dqlite.Sqllog.{Answer}
use k8s_dqlite.Logstructured.{delete, ignoring}
use k8s_dqlite.Logstructured.Writes.{delete-refines}

-- The events with a lease.
unfoldable pub leased : List Event → List Event
leased = filter (λ (e : Event). ltb 0 e.kv.lease)

abbrev last_key : Bytes → List Event → Bytes
last_key key [] = key
last_key key (e ∷ es) = last_key e.kv.key es

-- The next page, of at most 1000, at the revision of the first; where the read fails there is none, and
-- where it is of a compacted revision the loop ends with a message.
abbrev next_page : Result Answer → List Event
next_page (ok answer) = if answer.is_compacted then [] else answer.events
next_page (err e) = []

-- The loop over the pages of what the store holds at the start, with fuel.
pub old_leases : Config → ℕ → ℕ → List Event → Sys → List Event × Sys
unfolding leased
old_leases d zero rev page s = ([], s)
old_leases d (suc fuel) rev [] s = ([], s)
old_leases d (suc fuel) rev (e ∷ es) s =
    let (r, s') = Sqllog.list d (codes "/") (last_key [] (e ∷ es)) 1000 rev false s in
    let (more, s'') = old_leases d fuel rev (next_page r) s' in (leased (e ∷ es) ++ more, s'')

abbrev first_rev : Result Answer → ℕ
first_rev (ok answer) = answer.rev
first_rev (err e) = 0

-- The first goroutine of ttlEvents, from the first page on.
unfoldable pub ttl_events : Config → ℕ → Sys → List Event × Sys
unfolding old_leases
ttl_events d fuel s =
    let (r, s') = Sqllog.list d (codes "/") [] 1000 0 false s in
    old_leases d fuel (first_rev r) (next_page r) s'

-- The timer fires: the key is deleted at the revision of the event; what Delete returns is dropped.
unfoldable pub expire : Config → Event → M (Unit {0})
unfolding delete
expire d e = ignoring (delete d e.kv.key e.kv.mod_revision)

-- The entry of the key was written at the revision.
abbrev pub WrittenAt : ℕ → Option Entry → Type 0
WrittenAt revision none = ⊥
WrittenAt revision (some e) = e.mod_revision ≡ revision

not_written :
    (key : Bytes) (revision : ℕ) (store : Store)
    → (WrittenAt revision (store.entries key) → ⊥)
    → (Spec.delete key revision store).1 ≡ store
unfolding Spec.delete
not_written key revision store h = by_entry (store.entries key) h
  where
    by_entry :
        (o : Option Entry)
        → (WrittenAt revision o → ⊥)
        → (Spec.delete_over o key revision store).1 ≡ store
    by_entry none h = refl
    by_entry (some e) h = elim (Bool-cases (e.mod_revision == revision)) [
      | inl t ↦ absurd (h ((==_iff _ _).0 t))
      | inr f ↦ rw f refl
    ]

-- On a log, whatever the driver does: where the key of the event, other than compact_rev_key, is gone or
-- was written again since, a timer that fires changes nothing in the store.
pub expire_keeps :
    {c : ℕ} (d : Config) (e : Event) (s : Sys)
    → IsLog c s.table
    → e.kv.key ≢ compact_rev_key
    → (WrittenAt e.kv.mod_revision ((abstract_store s.table).entries e.kv.key) → ⊥)
    → abstract_store (expire d e s).1.table ≡ abstract_store s.table
unfolding expire
expire_keeps d e s l user h = elim (delete-refines d s l e.kv.key user e.kv.mod_revision) [
  | refused x p q ↦ ap abstract_store q
  | wrote p q m ↦ q ∙ not_written e.kv.key e.kv.mod_revision (abstract_store s.table) h
]
