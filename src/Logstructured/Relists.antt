-- ===== src/Logstructured/Relists.antt =====
-- `List` of the backend (pkg/kine/logstructured/logstructured.go): its call of itself.
use k8s_dqlite.Prelude.{
  ℕ, zero, suc, ◌-◌, ◌<◌, max, ◌≡◌, refl, ◌≢◌, Bool, true, false, Option, none, some, List, [], ◌∷◌,
  if◌then◌else◌, arith, In, inl,
}
use k8s_dqlite.Bytes.{Bytes}
use k8s_dqlite.Results.{Result, ok, err, compacted}
use k8s_dqlite.Table.{Row, max_id}
use k8s_dqlite.Table.Invariant.{IsLog}
use k8s_dqlite.Events.{KeyValue}
use k8s_dqlite.Exec.{Sys, M, pure, raise, continue, ◌>>=◌}
use k8s_dqlite.Exec.Laws.{Ends, failed, ran}
use k8s_dqlite.Generic
use k8s_dqlite.Generic.{Config, max_retries, query, scan_int}
use k8s_dqlite.Generic.Retries.{retrying-Ends}
use k8s_dqlite.Sqllog
use k8s_dqlite.Sqllog.{Answer}
use k8s_dqlite.Sqllog.Reads as Log
use k8s_dqlite.Logstructured.{list_within, list_done, listed, relists}

max_id_pos :
    (rows : List Row) → ((a : Row) → In a rows → 0 < a.id) → (n : ℕ) → max_id rows ≡ some n → 0 < n
unfolding max_id
max_id_pos [] h n e = absurd (cc)
max_id_pos (r ∷ rs) h n e = by_rest (max_id rs) e
  where
    by_rest :
        (o : Option ℕ)
        → Option.some (elim o as (λ x. ℕ) [ none ↦ r.id | some m ↦ max r.id m ]) ≡ some n
        → 0 < n
    by_rest none e = let p = h r (inl refl) in let q : r.id ≡ n = cc in omega (arith, p, q)
    by_rest (some m) e =
        let p = h r (inl refl) in let q : max r.id m ≡ n = cc in omega (arith, p, q)

scanned_pos :
    (o : Option ℕ) (s : Sys) (n : ℕ)
    → ((m : ℕ) → o ≡ some m → 0 < m)
    → (scan_int o s).0 ≡ ok n
    → 0 < n
scanned_pos none s n h e = absurd (cc)
scanned_pos (some m) s n h e = h n (cc)

module _ {c : ℕ} (d : Config) where
  current_pos :
      (s : Sys) → IsLog c s.table → (n : ℕ) → (Sqllog.current_revision d s).0 ≡ ok n → 0 < n
  unfolding Sqllog.current_revision Generic.current_revision query
  current_pos s l n e =
      by_end
        (retrying-Ends d "query" (λ t. (ok (max_id t.rows), t)) (max_retries - 1) 0 s
          (max_id s.table.rows) refl)
        e
    where
      by_end :
          {out : Result (Option ℕ) × Sys}
          → Ends (λ t. (ok (max_id t.rows), t)) s out
          → (continue out.0 scan_int out.1).0 ≡ ok n
          → 0 < n
      by_end (failed x rest p) e = absurd (let g : Result.err x ≡ ok n = rw p at e in cc)
      by_end (ran rest p) e =
          scanned_pos (max_id s.table.rows) _ n (max_id_pos s.table.rows l.id_pos) (rw p at e)

-- A result that is not the end of the fuel.
abbrev pub Ended : Result (Option (ℕ × List KeyValue)) → Type 0
Ended r = r ≢ ok none

module _ (d : Config) where
  done_ends :
      (revision : ℕ) (answer : Answer) (s : Sys)
      → Ended ((list_done revision answer >>= λ r. pure (some r)) s).0
  done_ends revision answer s = by_flag answer.is_compacted
    where
      by_flag :
          (b : Bool)
          → Ended
              (((if b then raise compacted else pure (listed revision answer)) >>= λ r.
                  pure (some r))
                s).0
      by_flag true e = absurd (cc)
      by_flag false e = absurd (cc)

  continue_ends :
      {A : Type 0} (r : Result A) (s : Sys) (f : A → M (Option (ℕ × List KeyValue)))
      → ((a : A) → r ≡ ok a → Ended (f a s).0)
      → Ended (continue r f s).0
  continue_ends (ok a) s f h = h a refl
  continue_ends (err x) s f h = λ e. absurd (cc)

  at_revision :
      (n : ℕ) (prefix start_key : Bytes) (limit revision : ℕ) (s : Sys)
      → 0 < revision
      → Ended (list_within d (suc n) prefix start_key limit revision s).0
  unfolding list_within
  at_revision n prefix start_key limit zero s p = absurd (omega arith)
  at_revision n prefix start_key limit (suc revision) s p =
      let (r, s') = Sqllog.list d prefix start_key limit (suc revision) false s in
      continue_ends r s' (λ answer. list_done (suc revision) answer >>= λ x. pure (some x))
        (λ answer e. done_ends (suc revision) answer s')

  again_ends :
      {c : ℕ} (prefix start_key : Bytes) (limit : ℕ) (s : Sys)
      → IsLog c s.table
      → Ended
          ((Sqllog.current_revision d >>= λ current. list_within d 1 prefix start_key limit current)
            s).0
  again_ends prefix start_key limit s l =
      let (r, s') = Sqllog.current_revision d s in
      continue_ends r s' (λ current. list_within d 1 prefix start_key limit current)
        (λ current e. at_revision 0 prefix start_key limit current s' (current_pos d s l current e))

  either_ends :
      (b : Bool) (m n : M (Option (ℕ × List KeyValue))) (s : Sys)
      → Ended (m s).0
      → Ended (n s).0
      → Ended ((if b then m else n) s).0
  either_ends true m n s h k = h
  either_ends false m n s h k = k

  -- On a log, List calls itself at most once, at a revision that is not 0: the fuel of 2 calls does not run out.
  pub list_within_ends :
      {c : ℕ} (prefix start_key : Bytes) (limit revision : ℕ) (s : Sys)
      → IsLog c s.table
      → (list_within d 2 prefix start_key limit revision s).0 ≢ ok none
  unfolding list_within
  list_within_ends {c} prefix start_key limit revision s l =
      let (r, s') = Sqllog.list d prefix start_key limit revision false s in
      let again =
        Sqllog.current_revision d >>= λ current. list_within d 1 prefix start_key limit current in
      continue_ends r s' _ (λ answer e.
        either_ends (relists revision answer) again
          (list_done revision answer >>= λ x. pure (some x)) s'
          (again_ends {c = c} prefix start_key limit s'
            (rw (Log.list-Keeps d prefix start_key limit revision false s) l))
          (done_ends revision answer s'))
