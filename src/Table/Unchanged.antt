-- ===== src/Table/Unchanged.antt =====
-- The abstract store before and after a compaction (`tryCompact` of pkg/kine/drivers/generic/generic.go).
use k8s_dqlite.Prelude.{
  In-map, ℕ, ◌≤◌, ◌≡◌, refl, sym, ap, ◌∙◌, ◌≢◌, inl, inr, true, false, Option, none, some, List,
  arith, ltb, ltb→lt, In, Bool-cases,
}
use k8s_dqlite.Bytes.{Bytes}
use k8s_dqlite.Table.{Row, Table, compact_rev_key, latest, named, raise_prev}
use k8s_dqlite.Table.Invariant.{IsLog}
use k8s_dqlite.Table.Latest.{IsLatest, latest-some, latest-none}
use k8s_dqlite.Table.Compaction.{pruned, stays, stays_last}
use k8s_dqlite.Table.Compacted.{compacted, From, from, later_stays, raise_prev-SameButPrev}
use k8s_dqlite.Table.Refines.{entry, entry_of, abstract_store}

entry-raise_prev : (stop : ℕ) (a : Row) → entry (raise_prev stop a) ≡ entry a
entry-raise_prev stop a = elim (Bool-cases (named compact_rev_key a)) [
  | inl h ↦ rw h refl
  | inr h ↦ rw h refl
]

entry_deleted : (a : Row) → a.deleted ≡ true → entry a ≡ none
entry_deleted a d = rw d

module _ (start stop : ℕ) {t : Table} (l : IsLog start t) (order : start ≤ stop)
    (room : stop ≤ t.seq) (key : Bytes) where
  abbrev after : List Row
  after = (compacted start stop t).rows

  -- The row of the old table that a latest row of the new one comes from.
  abbrev source : (u : Row) → IsLatest key after u → From start stop l order room u
  source u top = from start stop l order room u top.member

  live_stays :
      (s : Row) → IsLatest key t.rows s → s.deleted ≡ false → In s (pruned start stop t).rows
  live_stays s top live =
      stays start stop l s top.member (λ d p q. cc (d, live))
        (λ x.
          let n = l.prev_name s x.by top.member x.member x.user (sym x.prev) in
          omega (
            arith,
            x.prev,
            l.prev_lt x.by x.member x.user,
            top.largest x.by x.member (sym n ∙ top.name),
          ))

  live_same :
      (s u : Row)
      → IsLatest key t.rows s
      → IsLatest key after u
      → s.deleted ≡ false
      → entry u ≡ entry s
  live_same s u top new live =
      let f = source u new in
      let i = In-map (raise_prev stop) s (pruned start stop t).rows (live_stays s top live) in
      let k = raise_prev-SameButPrev stop s in
      let above = new.largest (raise_prev stop s) i (k.name ∙ top.name) in
      let below = top.largest f.row f.old (sym f.like.name ∙ new.name) in
      let e : f.row ≡ s =
        l.id_inj f.row s f.old top.member (omega (arith, above, below, k.id, f.like.id)) in
      ap entry f.image ∙ entry-raise_prev stop f.row ∙ ap entry e

  dead_same :
      (s u : Row) → IsLatest key t.rows s → IsLatest key after u → s.deleted ≡ true → entry u ≡ none
  dead_same s u top new dead =
      let f = source u new in
      let n : f.row.name ≡ key = sym f.like.name ∙ new.name in
      let user : s.name ≢ compact_rev_key = λ e. cc (dead, (l.key_row s top.member e).2) in
      elim (Bool-cases (ltb f.row.id s.id)) [
        | inl lt ↦ elim (Bool-cases (ltb stop s.id)) [
          | inl late ↦
              let i =
                In-map (raise_prev stop) s (pruned start stop t).rows
                  (later_stays start stop l order room s top.member (ltb→lt _ _ late)) in
              let k = raise_prev-SameButPrev stop s in
              absurd (
                omega (
                  arith,
                  ltb→lt _ _ lt,
                  new.largest (raise_prev stop s) i (k.name ∙ top.name),
                  k.id,
                  f.like.id,
                ))
          | inr early ↦ absurd (
              stays_last start stop l f.row s f.stayed top.member (top.name ∙ sym n)
                (λ e. user (top.name ∙ sym n ∙ e)) (ltb→lt _ _ lt) (ground arith))
        ]
        | inr ge ↦
            let below = top.largest f.row f.old n in
            let e : f.row ≡ s = l.id_inj f.row s f.old top.member (ground (arith, below)) in
            entry_deleted u (f.like.deleted ∙ ap (λ (y : Row). y.deleted) e ∙ dead)
      ]

  entry_cases :
      (o p : Option Row) → latest key t.rows ≡ o → latest key after ≡ p → entry_of p ≡ entry_of o
  entry_cases none none e g = refl
  entry_cases none (some u) e g =
      let new = latest-some key after u g in
      let f = source u new in
      absurd (latest-none key t.rows e f.row f.old (sym f.like.name ∙ new.name))
  entry_cases (some s) none e g = elim (Bool-cases s.deleted) [
    | inl d ↦ sym (entry_deleted s d)
    | inr d ↦
        let top = latest-some key t.rows s e in
        let i = In-map (raise_prev stop) s (pruned start stop t).rows (live_stays s top d) in
        absurd (
          latest-none key after g (raise_prev stop s) i
            ((raise_prev-SameButPrev stop s).name ∙ top.name))
  ]
  entry_cases (some s) (some u) e g =
      let top = latest-some key t.rows s e in
      let new = latest-some key after u g in
      elim (Bool-cases s.deleted) [
        | inl d ↦ dead_same s u top new d ∙ sym (entry_deleted s d)
        | inr d ↦ live_same s u top new d
      ]

-- On a log, a compaction batch from `start` to `stop`, with `start` at most `stop` and `stop` at most the
-- counter, leaves the revision, and the entry of every key, as they were.
pub abstract_store-compacted :
    (start stop : ℕ) {t : Table}
    → IsLog start t
    → start ≤ stop
    → stop ≤ t.seq
    → abstract_store (compacted start stop t) ≡ abstract_store t
unfolding abstract_store
abstract_store-compacted start stop {t} l order room = λ i. record {
  revision = t.seq;
  entries = λ k.
      entry_cases start stop l order room k (latest k t.rows)
        (latest k (compacted start stop t).rows) refl refl i;
}
