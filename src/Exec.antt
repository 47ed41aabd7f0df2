-- ===== src/Exec.antt =====
-- State and failure of the layers above the table. An operation runs on the system: the table, the
-- answers that the driver will give instead of running a statement, and the channel
-- `SQLLog.notify` (pkg/kine/logstructured/sqllog/sql.go).
pub mod Laws
pub mod Keeps
pub mod Gives
use k8s_dqlite.Prelude.{ℕ, Bool, true, false, Option, none, some, List, [], ◌∷◌, if◌then◌else◌}
use k8s_dqlite.Results.{Error, Result, ok, err}
use k8s_dqlite.Table.{Table}

-- `faults` holds, for the next calls of the driver in turn, the error that the call ends with, or
-- `none` where it runs its statement. After the last one every call runs its statement.
pub record Sys : Type 0 where
  pub table : Table
  pub faults : List (Option Error)
  pub notify : List ℕ

abbrev pub M : Type 0 → Type 0
M A = Sys → Result A × Sys

module _ {A : Type 0} where
  abbrev pub pure : A → M A
  pure a s = (ok a, s)

  abbrev pub raise : Error → M A
  raise e s = (err e, s)

  abbrev pub lift : Result A → M A
  lift r s = (r, s)

abbrev pub continue : {A B : Type 0} → Result A → (A → M B) → M B
continue (ok a) f s = f a s
continue (err e) f s = (err e, s)

infixl 5 ◌>>=◌ ◌>>◌
abbrev pub ◌>>=◌ : {A B : Type 0} → M A → (A → M B) → M B
◌>>=◌ m f s = let (r, s') = m s in continue r f s'

abbrev pub ◌>>◌ : {A B : Type 0} → M A → M B → M B
m >> k = m >>= λ _. k

-- A statement of the database: what it returns, and the table after it.
abbrev pub Stmt : Type 0 → Type 0
Stmt A = Table → Result A × Table

module _ {A : Type 0} where
  abbrev pub run : Stmt A → Sys → List (Option Error) → Result A × Sys
  run stmt s rest = ((stmt s.table).0, record s { table = (stmt s.table).1; faults = rest })

  abbrev pub answer : List (Option Error) → Stmt A → M A
  answer [] stmt s = run stmt s []
  answer (none ∷ rest) stmt s = run stmt s rest
  answer (some e ∷ rest) stmt s = (err e, record s { faults = rest })

  -- One call of the driver. A call that fails has changed nothing.
  unfoldable pub attempt : Stmt A → M A
  attempt stmt s = answer s.faults stmt s

  abbrev pub rollback : Table → Result A × Sys → Result A × Sys
  rollback before (ok a, s) = (ok a, s)
  rollback before (err e, s) = (err e, record s { table = before })

  -- BeginTx to Commit, with the deferred Rollback: on an error the table is as it was.
  unfoldable pub transaction : M A → M A
  transaction m s = rollback s.table (m s)
