-- ===== src/Drivers/Dqlite.antt =====
-- What the dqlite driver adds (pkg/kine/drivers/dqlite/dqlite.go): which errors are tried again, and the rows of an
-- old sqlite database.
use k8s_dqlite.Prelude.{
  ℕ, Bool, true, false, ◌||◌, Option, none, some, List, [], ◌∷◌, if◌then◌else◌, ◌==◌,
}
use k8s_dqlite.Bytes.{Bytes, codes, has_prefix}
use k8s_dqlite.Results.{Error, Result, ok, err}
use k8s_dqlite.Table.{Row, Table, insert}

-- strings.Contains
unfoldable pub contains : Bytes → Bytes → Bool
unfolding has_prefix
contains [] part = has_prefix [] part
contains (x ∷ xs) part = has_prefix (x ∷ xs) part || contains xs part

-- The innermost error: the code of an error of the driver, whether it is one of sqlite3.ErrLocked and
-- sqlite3.ErrBusy, and its text.
pub record Cause : Type 0 where
  pub driver_code : Option ℕ
  pub locked_or_busy : Bool
  pub text : Bytes

abbrev pub by_text : Bytes → Bool
unfolding contains
by_text text =
    contains text (codes "database is locked")
    || contains text (codes "cannot start a transaction within a transaction")
    || contains text (codes "bad connection")
    || contains text (codes "checkpoint in progress")

-- Retry; `busy` is driver.ErrBusy.
unfoldable pub retry : ℕ → Cause → Bool
unfolding contains
retry busy cause = elim cause.driver_code [
  | some code ↦ code == busy
  | none ↦ cause.locked_or_busy || by_text cause.text
]

-- TranslateErr, which looks at the text of the error itself: whether it becomes ErrKeyExists.
unfoldable pub is_key_exists : Bytes → Bool
unfolding contains
is_key_exists text = contains text (codes "UNIQUE constraint")

-- The old database: the rows that the query gives, where the file is there, opens and has the table, and the error
-- that ends them, if there is one.
pub record OldData : Type 0 where
  pub rows : List Row
  pub ending : Option Error

-- The answers of the driver, one for each call on the new database: an error, or `none` where it runs.
abbrev pub Answers : Type 0
Answers = List (Option Error)

abbrev pub answer : {A : Type 0} → Answers → (Answers → A) → (Error → Answers → A) → A
answer [] run fail = run []
answer (none ∷ rest) run fail = run rest
answer (some e ∷ rest) run fail = fail e rest

-- The INSERTs, one after the other. They run on the database, and not in the transaction that was begun.
abbrev pub inserted :
    Result (Option ℕ) × Table → (Table → Result (Unit {0}) × Table) → Result (Unit {0}) × Table
inserted (ok id, t) rest = rest t
inserted (err e, t) rest = (err e, t)

unfoldable pub copy_rows : List Row → Answers → Option Error → Table → Result (Unit {0}) × Table
unfolding insert
copy_rows [] answers none t = answer answers (λ rest. (ok tt, t)) (λ e rest. (err e, t))
copy_rows [] answers (some e) t = (err e, t)
copy_rows (row ∷ rows) answers ending t =
    answer answers (λ rest. inserted (insert row t) (copy_rows rows rest ending))
      (λ e rest. (err e, t))

abbrev pub is_full : List Row → Bool
is_full [] = false
is_full (r ∷ rs) = true

-- migrate: the count, the old data (`none` where there are none), BEGIN and the rows. COMMIT is the last answer.
unfoldable pub migrate : Option OldData → Answers → Table → Result (Unit {0}) × Table
unfolding copy_rows
migrate old answers t =
    answer answers
      (λ rest. if is_full t.rows then (ok tt, t) else elim old [
        | none ↦ (ok tt, t)
        | some found ↦
            answer rest (λ rest. copy_rows found.rows rest found.ending t) (λ e rest. (err e, t))
      ])
      (λ e rest. (err e, t))
