-- ===== src/Table/Select.antt =====
-- The SELECT statements of pkg/kine/drivers/generic/generic.go.
use k8s_dqlite.Prelude.{
  ℕ, zero, suc, Bool, true, not, ◌&&◌, ◌||◌, Option, none, some, List, [], ◌∷◌, ltb, leb,
  if◌then◌else◌, filter, any, take,
}
use k8s_dqlite.Bytes.{Bytes, same, lt_bytes}
use k8s_dqlite.Bytes.Ranges.{in_range}
use k8s_dqlite.Table.{Row, Table}

-- `AND mkv.id <= ?` where a revision is asked for.
abbrev pub upto : Option ℕ → Row → Bool
upto none r = true
upto (some revision) r = leb r.id revision

-- The rows that the inner SELECT of listSQL groups by name.
abbrev pub grouped : Bytes → Bytes → Option ℕ → List Row → List Row
grouped start stop revision rows = filter (λ r. in_range start stop r.name && upto revision r) rows

-- `r` is the row with the largest id of its name.
abbrev pub is_max : List Row → Row → Bool
is_max rows r = not (any (λ x. same x.name r.name && ltb r.id x.id) rows)

-- `ORDER BY kv.name ASC, kv.id ASC`: equal names keep the order of their ids.
abbrev pub name_place : Row → List Row → List Row
name_place r [] = r ∷ []
name_place r (x ∷ xs) = if lt_bytes x.name r.name then x ∷ name_place r xs else r ∷ x ∷ xs

abbrev pub by_name : List Row → List Row
by_name [] = []
by_name (r ∷ rs) = name_place r (by_name rs)

-- `LIMIT ?`, which the callers add where the limit is positive.
abbrev pub limited : ℕ → List Row → List Row
limited zero rows = rows
limited (suc n) rows = take (suc n) rows

-- The rows of listSQL, before they are ordered.
abbrev pub selected : Bytes → Bytes → Option ℕ → Bool → List Row → List Row
selected start stop revision include_deleted rows =
    filter (λ r. (not r.deleted || include_deleted) && is_max (grouped start stop revision rows) r)
      (grouped start stop revision rows)

-- listSQL with or without its revision bound, and revisionAfterSQL, which joins the same rows.
unfoldable pub list_sql : Bytes → Bytes → Option ℕ → Bool → ℕ → Table → List Row
list_sql start stop revision include_deleted limit t =
    limited limit (by_name (selected start stop revision include_deleted t.rows))

-- AfterSQLPrefix, AfterSQL: the rows are in the order of their ids.
unfoldable pub after_prefix_sql : Bytes → Bytes → ℕ → ℕ → Table → List Row
after_prefix_sql start stop revision limit t =
    limited limit (filter (λ r. in_range start stop r.name && ltb revision r.id) t.rows)

unfoldable pub after_sql : ℕ → ℕ → Table → List Row
after_sql revision limit t = limited limit (filter (λ r. ltb revision r.id) t.rows)
