-- ===== src/Exec/Laws.antt =====
-- How a call of the driver, and a transaction of such calls, can end.
use k8s_dqlite.Prelude.{◌≡◌, refl, ap, Option, none, some, List, [], ◌∷◌}
use k8s_dqlite.Results.{Error, Result, err}
use k8s_dqlite.Exec.{Sys, Stmt, run, answer, attempt}

-- A call ends with a fault, and changes no table, or it runs its statement.
pub data Ends {A : Type 0} (stmt : Stmt A) (s : Sys) (out : Result A × Sys) : Type 0 where
  failed :
      (e : Error) (rest : List (Option Error))
      → out ≡ (err e, record s { faults = rest })
      → Ends stmt s out
  ran : (rest : List (Option Error)) → out ≡ run stmt s rest → Ends stmt s out

answer-Ends :
    {A : Type 0} (faults : List (Option Error)) (stmt : Stmt A) (s : Sys)
    → Ends stmt s (answer faults stmt s)
answer-Ends [] stmt s = ran [] refl
answer-Ends (none ∷ rest) stmt s = ran rest refl
answer-Ends (some e ∷ rest) stmt s = failed e rest refl

pub attempt-Ends : {A : Type 0} (stmt : Stmt A) (s : Sys) → Ends stmt s (attempt stmt s)
unfolding attempt
attempt-Ends stmt s = answer-Ends s.faults stmt s

-- With no faults left the call runs its statement.
pub attempt_clear :
    {A : Type 0} (stmt : Stmt A) (s : Sys) → s.faults ≡ [] → attempt stmt s ≡ run stmt s []
unfolding attempt
attempt_clear stmt s h = ap (λ (f : List (Option Error)). answer f stmt s) h
