-- ===== src/Generic/Retries.antt =====
-- The retry loop of `query` and `execute` (pkg/kine/drivers/generic/generic.go).
use k8s_dqlite.Prelude.{
  ℕ, zero, suc, ◌+◌, ◌≤◌, String, ◌≡◌, refl, ap, sym, ◌∙◌, Bool, true, false, Option, some, List,
  [], ◌∷◌, ◌++◌, map, arith, length, if◌then◌else◌,
}
use k8s_dqlite.Results.{Error, Result, ok, err, wrapped}
use k8s_dqlite.Exec.{Sys, M, Stmt, raise, run, attempt}
use k8s_dqlite.Exec.Laws.{Ends, failed, ran, attempt-Ends}
use k8s_dqlite.Generic.{Config, gives_up, retrying, settle}

-- The driver's next errors, each of which is to be tried again.
abbrev pub AllRetried : Config → List Error → Type 0
AllRetried d [] = Unit
AllRetried d (e ∷ es) = (gives_up d e ≡ false) × AllRetried d es

abbrev pub failing : List Error → Sys → Sys
failing es s = record s { faults = map some es }

module _ {A : Type 0} (d : Config) (label : String) (stmt : Stmt A) where
  first_try :
      (rest : Error → M A) (count : ℕ) (s : Sys) (a : A)
      → (stmt s.table).0 ≡ ok a
      → settle d label count rest (attempt stmt (failing [] s)) ≡ run stmt (failing [] s) []
  unfolding attempt
  first_try rest count s a q =
      let after = record s { table = (stmt s.table).1; faults = [] } in
      ap (λ (r : Result A). settle d label count rest (r, after)) q
      ∙ sym (ap (λ (r : Result A). (r, after)) q)

  failed_try :
      (e : Error) (es : List Error) (s : Sys)
      → attempt stmt (failing (e ∷ es) s) ≡ (err e, failing es s)
  unfolding attempt
  failed_try e es s = refl

  -- Where the driver's errors are all to be tried again and are fewer than the tries, a statement that ends
  -- without an error of its own runs once and gives its answer.
  pub retrying_recovers :
      (left count : ℕ) (es : List Error) (s : Sys) (a : A)
      → AllRetried d es
      → length es ≤ left
      → (stmt s.table).0 ≡ ok a
      → retrying d label left count stmt (failing es s) ≡ run stmt (failing [] s) []
  unfolding retrying
  retrying_recovers zero count [] s a h p q =
      first_try (λ e. raise (wrapped label (count + 1) e)) count s a q
  retrying_recovers (suc left) count [] s a h p q =
      first_try (λ e. retrying d label left (count + 1) stmt) count s a q
  retrying_recovers zero count (e ∷ es) s a h p q = absurd (omega arith)
  retrying_recovers (suc left) count (e ∷ es) s a h p q =
      ap (settle d label count (λ e. retrying d label left (count + 1) stmt)) (failed_try e es s)
      ∙ rw h.0 (retrying_recovers left (count + 1) es s a h.1 (omega arith) q)

  -- Where there is an error, to be tried again, for every try, the last one comes back under the number of
  -- tries, and nothing is changed.
  pub retrying_exhausted :
      (left count : ℕ) (es : List Error) (e : Error) (s : Sys)
      → AllRetried d es
      → gives_up d e ≡ false
      → length es ≡ left
      → retrying d label left count stmt (failing (es ++ e ∷ []) s)
        ≡ (err (wrapped label (count + left + 1) e), failing [] s)
  unfolding retrying
  retrying_exhausted zero count [] e s h g p =
      ap (settle d label count (λ e. raise (wrapped label (count + 1) e))) (failed_try e [] s)
      ∙ rw g (ap (λ (n : ℕ). (err (wrapped label n e), failing [] s)) (omega arith))
  retrying_exhausted (suc left) count [] e s h g p = absurd (omega arith)
  retrying_exhausted zero count (x ∷ es) e s h g p = absurd (omega arith)
  retrying_exhausted (suc left) count (x ∷ es) e s h g p =
      ap (settle d label count (λ e. retrying d label left (count + 1) stmt))
        (failed_try x (es ++ e ∷ []) s)
      ∙ rw h.0 (
          retrying_exhausted left (count + 1) es e s h.1 g (omega arith)
          ∙ ap (λ (n : ℕ). (err (wrapped label n e), failing [] s)) (omega arith))

  if_Ends :
      (b : Bool) (count : ℕ) (e : Error) (rest : List (Option Error)) (s : Sys) (m : M A)
      → Ends stmt s (m (record s { faults = rest }))
      → Ends stmt s (
          if b
          then (err (wrapped label count e), record s { faults = rest })
          else m (record s { faults = rest }))
  if_Ends true count e rest s m h = failed (wrapped label count e) rest refl
  if_Ends false count e rest s m h = h

  by_try :
      (count : ℕ) (next : Error → M A) (s : Sys) (a : A)
      → (stmt s.table).0 ≡ ok a
      → ((e : Error) (rest : List (Option Error))
          → Ends stmt s (next e (record s { faults = rest })))
      → Ends stmt s (settle d label count next (attempt stmt s))
  by_try count next s a q h = elim (attempt-Ends stmt s) [
    | failed e rest p ↦ rw p (if_Ends (gives_up d e) count e rest s (next e) (h e rest))
    | ran rest p ↦
        let after = record s { table = (stmt s.table).1; faults = rest } in
        rw p (
          ran rest (
            ap (λ (r : Result A). settle d label count next (r, after)) q
            ∙ sym (ap (λ (r : Result A). (r, after)) q)))
  ]

  -- Whatever the driver does, a statement that does not fail by itself has run once, or not at all.
  pub retrying-Ends :
      (left count : ℕ) (s : Sys) (a : A)
      → (stmt s.table).0 ≡ ok a
      → Ends stmt s (retrying d label left count stmt s)
  unfolding retrying
  retrying-Ends zero count s a q =
      by_try count (λ e. raise (wrapped label (count + 1) e)) s a q
        (λ e rest. failed (wrapped label (count + 1) e) rest refl)
  retrying-Ends (suc left) count s a q =
      by_try count (λ e. retrying d label left (count + 1) stmt) s a q
        (λ e rest. forget rest (retrying-Ends left (count + 1) (record s { faults = rest }) a q))
    where
      forget :
          {s : Sys} {out : Result A × Sys} (rest : List (Option Error))
          → Ends stmt (record s { faults = rest }) out
          → Ends stmt s out
      forget rest (failed e r h) = failed e r h
      forget rest (ran r h) = ran r h
