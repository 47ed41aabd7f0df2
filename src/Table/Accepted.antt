-- ===== src/Table/Accepted.antt =====
-- The UPDATE of the compact revision (UpdateCompactSQL of pkg/kine/drivers/generic/generic.go) and the unique
-- index.
use k8s_dqlite.Prelude.{
  ℕ, ◌≤◌, ◌≡◌, refl, ap, inl, inr, false, List, [], ◌∷◌, arith, ◌==◌, ==_iff, In, Bool-cases, any,
  In-of_any, &&_left, &&_right,
}
use k8s_dqlite.Bytes.{same}
use k8s_dqlite.Bytes.Order.{same→eq}
use k8s_dqlite.Results.{ok}
use k8s_dqlite.Table.{Row, Table, conflicts, clash, update_compact_sql}
use k8s_dqlite.Table.Invariant.{IsLog, Ascending}
use k8s_dqlite.Table.Compaction.{pruned}
use k8s_dqlite.Table.Compacted.{compacted, compacted-IsLog}

-- Rows that are told apart by name and previous revision do not clash.
clash_none :
    (rows : List Row)
    → Ascending rows
    → ((a b : Row)
        → In a rows
        → In b rows
        → a.name ≡ b.name
        → a.prev_revision ≡ b.prev_revision
        → a ≡ b)
    → clash rows ≡ false
unfolding clash
clash_none [] h u = refl
clash_none (x ∷ xs) h u = elim (Bool-cases (any (conflicts x) xs)) [
  | inl t ↦
      let (y, i, e) = In-of_any (conflicts x) xs t in
      let q =
        u y x (inr i) (inl refl)
          (same→eq y.name x.name (&&_right (y.prev_revision == x.prev_revision) _ e))
          ((==_iff _ _).0 (&&_left (y.prev_revision == x.prev_revision) (same y.name x.name) e)) in
      absurd (omega (arith, h.0 y i, ap (λ (z : Row). z.id) q))
  | inr f ↦ rw (f, clash_none xs h.1 (λ a b i j. u a b (inr i) (inr j))) refl
]

-- The UPDATE of the compact revision is never refused by the unique index.
pub update_compact_sql_ok :
    (start stop : ℕ) {t : Table}
    → IsLog start t
    → start ≤ stop
    → stop ≤ t.seq
    → update_compact_sql stop (pruned start stop t) ≡ (ok tt, compacted start stop t)
unfolding update_compact_sql pruned
update_compact_sql_ok start stop {t} l order room =
    let k = compacted-IsLog start stop l order room in
    rw (clash_none (compacted start stop t).rows k.ascending k.unique) refl
