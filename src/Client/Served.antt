-- ===== src/Client/Served.antt =====
-- The client (pkg/kine/client/client.go) on the server (pkg/kine/server) with the backend that the program
-- uses, where the library hands the transactions over.
use k8s_dqlite.Prelude.{ℕ, suc, ◌≡◌, refl, sym, ◌∙◌, ◌≢◌, Bool, true, false, Option, none, some}
use k8s_dqlite.Bytes.{Bytes}
use k8s_dqlite.Results.{Error, Result, ok, err}
use k8s_dqlite.Spec
use k8s_dqlite.Spec.{Store}
use k8s_dqlite.Table.{compact_rev_key}
use k8s_dqlite.Table.Invariant.{IsLog}
use k8s_dqlite.Table.Refines.{abstract_store}
use k8s_dqlite.Exec.{Sys}
use k8s_dqlite.Generic.{Config}
use k8s_dqlite.Server.{TxnRequest, TxnResponse, kine}
use k8s_dqlite.Server.Bridge
use k8s_dqlite.Server.Txns
use k8s_dqlite.Server.Replies.{Applies, Idle, create-Idle, update-Idle, delete-Idle}
use k8s_dqlite.Server.Replies as Replies
use k8s_dqlite.Server.Stack.{
  create_request, update_request, delete_request, txn_create, txn_update, txn_delete,
}
use k8s_dqlite.Client
use k8s_dqlite.Client.{
  Failure, service, mismatch, key_exists, Reply, done, failed, Etcd, op_get, proceed,
  unless_refused,
}

-- What comes back of a transaction.
abbrev pub handed : (Error → Bytes) → Result TxnResponse × Sys → Reply Failure Bool × Sys
handed text (ok response, s) = (done response.succeeded, s)
handed text (err e, s) = (failed (service (text e)), s)

-- The operation took effect, or it ended with an error and the store is as it was. The table is a log.
abbrev pub Took : ℕ → Store → Option ℕ × Store → Reply Failure (Unit {0}) × Sys → Type 0
Took n t (o, t') (done u, s) =
    (Spec.took o ≡ true) × (abstract_store s.table ≡ t') × IsLog n s.table
Took n t (o, t') (failed e, s) = (abstract_store s.table ≡ t) × IsLog n s.table

not_inserted : (o : Option ℕ) → Spec.took o ≡ false → o ≡ none
not_inserted none h = refl
not_inserted (some id) h = absurd (cc (h))

module _ (d : Config) (text : Error → Bytes) (c : Etcd Sys)
    (hands : (t : TxnRequest) (s : Sys)
      → c.commit t s ≡ handed text (Bridge.txn (kine d) t s)) where
  applied :
      (n : ℕ) (s : Sys) (spec : Option ℕ × Store) (e : Failure)
      → Idle (abstract_store s.table) spec
      → (out : Result TxnResponse × Sys) → Applies n s spec out
      → Took n
          (abstract_store s.table)
          spec
          (let (r, s') = handed text out in proceed r (unless_refused c e) s')
  applied n s spec e idle (ok response, s') (Replies.answered x p q h l) =
      by_answer response.succeeded refl
    where
      same_flag : {b : Bool} → response.succeeded ≡ b → x.succeeded ≡ b
      same_flag k = cc (p, k)

      by_answer :
          (b : Bool)
          → response.succeeded ≡ b
          → Took n (abstract_store s.table) spec (unless_refused c e b s')
      by_answer true k = (sym q ∙ same_flag k, h, l)
      by_answer false k = (h ∙ idle (not_inserted spec.0 (sym q ∙ same_flag k)), l)
  applied n s spec e idle (err y, s') (Replies.answered x p q h l) = absurd (cc (p))
  applied n s spec e idle (ok response, s') (Replies.failed x p h l) = absurd (cc (p))
  applied n s spec e idle (err y, s') (Replies.failed x p h l) = (h, l)

  module _ {n : ℕ} (s : Sys) (l : IsLog n s.table) (key : Bytes)
      (user : key ≢ compact_rev_key) where
    -- Where the library hands transactions on to the server: on a log, for a key other than compact_rev_key, and
    -- whichever statements the driver fails to run (RowsAffected and LastInsertId of one that ran do not
    -- fail), the client's Create does the abstract create, and it took effect, or it ends with
    -- an error and the store is as it was.
    pub client_create :
        (value : Bytes)
        → Took n
            (abstract_store s.table)
            (Spec.create key 0 (some value) (abstract_store s.table))
            (Client.create c key value s)
    unfolding Client.create Bridge.txn
    client_create value =
        let request = create_request key (some value) 0 in
        let spec = Spec.create key 0 (some value) (abstract_store s.table) in
        rw (hands request s) (
          applied n s spec key_exists (create-Idle key 0 (some value) (abstract_store s.table))
            (Txns.txn (kine d) request s) (txn_create d s l key user (some value) 0))

    -- Where the library hands transactions on to the server: on a log, for a key other than compact_rev_key, and
    -- whichever statements the driver fails to run (RowsAffected and LastInsertId of one that ran do not
    -- fail), the client's Update at a revision that is not 0 does the abstract update, and it
    -- took effect, or it ends with an error and the store is as it was.
    pub client_update :
        (revision : ℕ) (value : Bytes)
        → Took n
            (abstract_store s.table)
            (Spec.update key 0 (some value) (suc revision) (abstract_store s.table))
            (Client.update c key (suc revision) value s)
    unfolding Client.update Bridge.txn
    client_update revision value =
        let request = update_request key (suc revision) (some value) 0 (op_get key) in
        let spec = Spec.update key 0 (some value) (suc revision) (abstract_store s.table) in
        rw (hands request s) (
          applied n s spec (mismatch (suc revision))
            (update-Idle key 0 (some value) (suc revision) (abstract_store s.table))
            (Txns.txn (kine d) request s)
            (txn_update d s l key user (suc revision) (some value) 0 (op_get key)))

    -- Where the library hands transactions on to the server: on a log, for a key other than compact_rev_key, and
    -- whichever statements the driver fails to run (RowsAffected and LastInsertId of one that ran do not
    -- fail), the client's Delete does the abstract delete, and it took effect, or it ends with
    -- an error and the store is as it was.
    pub client_delete :
        (revision : ℕ)
        → Took n
            (abstract_store s.table)
            (Spec.delete key revision (abstract_store s.table))
            (Client.delete c key revision s)
    unfolding Client.delete Bridge.txn
    client_delete revision =
        let request = delete_request key revision (op_get key) in
        let spec = Spec.delete key revision (abstract_store s.table) in
        rw (hands request s) (
          applied n s spec (mismatch revision) (delete-Idle key revision (abstract_store s.table))
            (Txns.txn (kine d) request s) (txn_delete d s l key user revision (op_get key)))
