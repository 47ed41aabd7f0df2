-- ===== src/Tests/Repairs.antt =====
-- A witness for the repair of a table with two rows of compact_rev_key.
use k8s_dqlite.Prelude.{
  ℕ, ◌≡◌, refl, inl, inr, true, false, not, none, some, [], ◌∷◌, arith, filter, length, ◌<◌, In,
  sym, subst,
}
use k8s_dqlite.Bytes.{Bytes, codes, same}
use k8s_dqlite.Bytes.Ranges.{IsReadable}
use k8s_dqlite.Results.{ok}
use k8s_dqlite.Table.{Row, Table, compact_rev_key}
use k8s_dqlite.Sqllog.{compact_start}
use k8s_dqlite.Sqllog.Duplicates.{is_key_row, compact_start_deletes}
use k8s_dqlite.Tests.{busy}

abbrev made_row : ℕ → Bytes → Row
made_row id name = record {
  id = id;
  name = name;
  created = true;
  deleted = false;
  create_revision = 0;
  prev_revision = 0;
  lease = 0;
  value = some [];
  old_value = none;
}

abbrev node : Bytes
node = codes "/n"

-- The rows 1 and 3 are two rows of compact_rev_key.
abbrev doubled : Table
doubled = record {
  rows = made_row 1 compact_rev_key ∷ made_row 2 node ∷ made_row 3 compact_rev_key ∷ [];
  seq = 3;
}

in_doubled :
    (P : Row → Type 0)
    → P (made_row 1 compact_rev_key)
    → P (made_row 2 node)
    → P (made_row 3 compact_rev_key)
    → (a : Row) → In a doubled.rows
    → P a
in_doubled P p q r a (inl e) = subst P (sym e) p
in_doubled P p q r a (inr (inl e)) = subst P (sym e) q
in_doubled P p q r a (inr (inr (inl e))) = subst P (sym e) r
in_doubled P p q r a (inr (inr (inr m))) = absurd m

node-IsReadable : IsReadable node
node-IsReadable = (omega arith, (omega arith, tt))

key-IsReadable : IsReadable compact_rev_key
key-IsReadable = (
  omega arith,
  (
    omega arith,
    (
      omega arith,
      (
        omega arith,
        (
          omega arith,
          (
            omega arith,
            (
              omega arith,
              (
                omega arith,
                (
                  omega arith,
                  (
                    omega arith,
                    (omega arith, (omega arith, (omega arith, (omega arith, (omega arith, tt))))),
                  ),
                ),
              ),
            ),
          ),
        ),
      ),
    ),
  ),
)

two_rows : 1 < length (filter is_key_row doubled.rows)
unfolding same
two_rows = omega arith

apart_rows : (a b : Row) → In a doubled.rows → In b doubled.rows → a.id ≡ b.id → a ≡ b
apart_rows a b m k =
    in_doubled (λ x. (y : Row) → In y doubled.rows → x.id ≡ y.id → x ≡ y)
      (in_doubled (λ y. 1 ≡ y.id → made_row 1 compact_rev_key ≡ y) (λ e. refl)
        (λ e. absurd (omega (arith, e))) (λ e. absurd (omega (arith, e))))
      (in_doubled (λ y. 2 ≡ y.id → made_row 2 node ≡ y) (λ e. absurd (omega (arith, e))) (λ e. refl)
        (λ e. absurd (omega (arith, e))))
      (in_doubled (λ y. 3 ≡ y.id → made_row 3 compact_rev_key ≡ y) (λ e. absurd (omega (arith, e)))
        (λ e. absurd (omega (arith, e))) (λ e. refl))
      a m b k

compact_start_deletes_example :
    compact_start busy (record { table = doubled; faults = []; notify = [] }) ≡ (
      ok tt,
      record {
        table = record doubled { rows = filter (λ r. not (is_key_row r)) doubled.rows };
        faults = [];
        notify = [];
      },
    )
compact_start_deletes_example =
    compact_start_deletes doubled
      (in_doubled (λ a. IsReadable a.name) key-IsReadable node-IsReadable key-IsReadable)
      (in_doubled (λ a. 0 < a.id) (omega arith) (omega arith) (omega arith)) apart_rows
      (in_doubled (λ a. a.name ≡ compact_rev_key → a.created ≡ true) (λ e. refl) (λ e. refl)
        (λ e. refl))
      two_rows busy []
