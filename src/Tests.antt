-- ===== src/Tests.antt =====
-- Concrete runs of the model: a small table and the proof that it is a log, for the witnesses of the
-- child modules.
pub mod Tables
pub mod Repairs
pub mod Stacks
pub mod Watches
pub mod Clients
pub mod Views
pub mod Starts
use k8s_dqlite.Prelude.{
  ℕ, zero, suc, ◌≡◌, refl, ◌≢◌, Bool, true, false, Option, none, some, List, [], ◌∷◌,
}
use k8s_dqlite.Bytes.{Bytes, codes, same}
use k8s_dqlite.Bytes.Order.{eq→same}
use k8s_dqlite.Results.{Error}
use k8s_dqlite.Table.{
  Row, Table, empty, compact_rev_key, create_sql, update_sql, delete_sql, latest, insert, place,
  max_id, max_compact, revision_interval,
}
use k8s_dqlite.Table.Invariant.{IsLog}
use k8s_dqlite.Table.Steps.{Step, Reach, start, then, begin, create, update, delete, Reach-IsLog}
use k8s_dqlite.Exec.{Sys}
use k8s_dqlite.Generic.{Config}

abbrev pub pod : Bytes
pod = codes "/pods/a"

pub pod_user : pod ≢ compact_rev_key
unfolding same
pod_user e = let p : same pod compact_rev_key ≡ true = eq→same pod compact_rev_key e in absurd (cc)

-- The compact row at 1, the pod created at 2, changed at 3, deleted at 4 and created again at 5.
abbrev pub t1 : Table
t1 = (create_sql compact_rev_key 0 (some []) empty).1

abbrev pub t2 : Table
t2 = (create_sql pod 0 (some (codes "v")) t1).1

abbrev pub t3 : Table
t3 = (update_sql pod 0 (some (codes "w")) 2 t2).1

abbrev pub t4 : Table
t4 = (delete_sql pod 3 t3).1

abbrev pub t5 : Table
t5 = (create_sql pod 0 (some (codes "x")) t4).1

pub reach_t3 : Reach 0 t3
unfolding latest
reach_t3 =
    let r1 : Reach 0 t1 = then start (begin refl refl refl refl) in
    let r2 : Reach 0 t2 = then r1 (create pod 0 (some (codes "v")) pod_user refl refl) in
    then r2 (update pod 0 (some (codes "w")) 2 pod_user refl refl)

pub t3-IsLog : IsLog 0 t3
t3-IsLog = Reach-IsLog reach_t3

pub reach_t5 : Reach 0 t5
unfolding latest
reach_t5 =
    let r4 : Reach 0 t4 = then reach_t3 (delete pod 3 pod_user refl refl) in
    then r4 (create pod 0 (some (codes "x")) pod_user refl refl)

pub t5-IsLog : IsLog 0 t5
t5-IsLog = Reach-IsLog reach_t5

pub interval_t5 : revision_interval t5 ≡ (0, 5)
unfolding revision_interval create_sql update_sql delete_sql latest insert place max_id max_compact
    same
interval_t5 = refl

-- A driver that calls any error a busy database, and one that fails twice first.
abbrev pub busy : Config
busy = record {
  retry = some (λ (e : Error). true);
  translate_err = none;
  size = none;
  compact_interval = 0;
  poll_interval = 0;
  watch_query_timeout = 0;
}

abbrev pub shaky : Sys
shaky = record {
  table = t5;
  faults = some (Error.fault 5) ∷ some (Error.fault 6) ∷ [];
  notify = [];
}
