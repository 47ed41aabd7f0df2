-- ===== src/Server/Stack.antt =====
-- The transactions that the API server of Kubernetes sends, through `LimitedServer.Txn`
-- (pkg/kine/server/limited.go), on the backend that the program uses.
use k8s_dqlite.Prelude.{
  ℕ, zero, suc, ◌≡◌, refl, ◌≢◌, Bool, true, false, ◌&&◌, Option, none, [], ◌∷◌, ◌==◌,
}
use k8s_dqlite.Bytes.{Bytes}
use k8s_dqlite.Spec
use k8s_dqlite.Spec.{Store, Entry}
use k8s_dqlite.Table.{Blob, compact_rev_key}
use k8s_dqlite.Table.Invariant.{IsLog}
use k8s_dqlite.Table.Refines.{abstract_store}
use k8s_dqlite.Exec.{Sys}
use k8s_dqlite.Generic.{Config}
use k8s_dqlite.Logstructured
use k8s_dqlite.Logstructured.Writes.{create-refines, update-refines, delete-refines}
use k8s_dqlite.Server.Requests.{
  RangeRequest, PutRequest, request_range, request_put, request_delete_range, mod_revision, equal,
  Compare, TxnRequest,
}
use k8s_dqlite.Server.Backends.{Backend, kine}
use k8s_dqlite.Server.Txns
use k8s_dqlite.Server.Txns.{
  txn, is_create, is_delete, is_update, updated_or, deleted_or, refused, write,
}
use k8s_dqlite.Server.Replies.{
  Applies, yes, after_write, updated-Reply, deleted-Reply, create-Idle, update-Idle, delete-Idle,
}

abbrev mod_is : Bytes → ℕ → Compare
mod_is key revision = record {
  target = mod_revision;
  outcome = equal;
  key = key;
  mod_rev = revision;
}

abbrev put_of : Bytes → Blob → ℕ → PutRequest
put_of key value lease = record {
  key = key;
  value = value;
  lease = lease;
  prev_kv = false;
  ignore_value = false;
  ignore_lease = false;
}

-- Txn().If(ModRevision(key) == 0).Then(OpPut(key, value, lease))
abbrev pub create_request : Bytes → Blob → ℕ → TxnRequest
create_request key value lease = record {
  compare = mod_is key 0 ∷ [];
  success = request_put (put_of key value lease) ∷ [];
  failure = [];
}

-- Txn().If(ModRevision(key) == revision).Then(OpPut(key, value, lease)).Else(OpGet(...))
abbrev pub update_request : Bytes → ℕ → Blob → ℕ → RangeRequest → TxnRequest
update_request key revision value lease get = record {
  compare = mod_is key revision ∷ [];
  success = request_put (put_of key value lease) ∷ [];
  failure = request_range get ∷ [];
}

-- Txn().If(ModRevision(key) == revision).Then(OpDelete(key)).Else(OpGet(...))
abbrev pub delete_request : Bytes → ℕ → RangeRequest → TxnRequest
delete_request key revision get = record {
  compare = mod_is key revision ∷ [];
  success = request_delete_range key ∷ [];
  failure = request_range get ∷ [];
}

-- At revision 0 the key must not be there.
abbrev pub put_at : Bytes → ℕ → Blob → ℕ → Store → Option ℕ × Store
put_at key zero value lease = Spec.create key lease value
put_at key (suc revision) value lease = Spec.update key lease value (suc revision)

and_false : (b : Bool) → (b && false) ≡ false
and_false true = refl
and_false false = refl

pub is_create-update_request :
    (key : Bytes) (revision : ℕ) (value : Blob) (lease : ℕ) (get : RangeRequest)
    → is_create (update_request key revision value lease get) ≡ none
unfolding is_create
is_create-update_request key revision value lease get = rw (and_false (revision == 0)) refl

is_create-delete_request :
    (key : Bytes) (revision : ℕ) (get : RangeRequest)
    → is_create (delete_request key revision get) ≡ none
unfolding is_create
is_create-delete_request key revision get = rw (and_false (revision == 0)) refl

dispatch_update :
    (backend : Backend) (key : Bytes) (revision : ℕ) (value : Blob) (lease : ℕ) (get : RangeRequest)
    → txn backend (update_request key revision value lease get)
      ≡ Txns.update backend revision key value lease
unfolding txn is_delete is_update
dispatch_update backend key revision value lease get =
    rw (txn, is_create-update_request key revision value lease get) refl

dispatch_delete :
    (backend : Backend) (key : Bytes) (revision : ℕ) (get : RangeRequest)
    → txn backend (delete_request key revision get) ≡ Txns.delete backend key revision
unfolding txn is_delete
dispatch_delete backend key revision get = rw (txn, is_create-delete_request key revision get) refl

module _ {c : ℕ} (d : Config) (s : Sys) (l : IsLog c s.table) (key : Bytes)
    (user : key ≢ compact_rev_key) where
  -- On a log, for a key other than compact_rev_key, and whichever statements the driver fails to run, where
  -- RowsAffected and LastInsertId of one that ran do not fail: the create transaction fails and leaves the
  -- store as it was, or does the abstract create and says that it succeeded exactly where that took effect.
  -- A log is left.
  pub txn_create :
      (value : Blob) (lease : ℕ)
      → Applies c s
          (Spec.create key lease value (abstract_store s.table))
          (txn (kine d) (create_request key value lease) s)
  unfolding txn is_create Txns.create
  txn_create value lease =
      let spec = Spec.create key lease value (abstract_store s.table) in
      let (r, s') = Logstructured.create d key value lease s in
      after_write c s l spec (create-Idle key lease value (abstract_store s.table)) _
        (λ rev b s'. yes _ refl refl) r s' (create-refines d s l key user value lease)

  -- On a log, for a key other than compact_rev_key, and whichever statements the driver fails to run, where
  -- RowsAffected and LastInsertId of one that ran do not fail: the update transaction fails and leaves the
  -- store as it was, or does the abstract create, where the revision is 0, or the abstract update at the
  -- revision, and says that it succeeded exactly where that took effect. A log is left.
  pub txn_update :
      (revision : ℕ) (value : Blob) (lease : ℕ) (get : RangeRequest)
      → Applies c s
          (put_at key revision value lease (abstract_store s.table))
          (txn (kine d) (update_request key revision value lease get) s)
  unfolding Txns.update
  txn_update zero value lease get =
      let spec = Spec.create key lease value (abstract_store s.table) in
      let (r, s') = Logstructured.create d key value lease s in
      rw (dispatch_update (kine d) key 0 value lease get) (
        after_write c s l spec (create-Idle key lease value (abstract_store s.table))
          (updated_or (kine d) key) (updated-Reply d key) r s'
          (create-refines d s l key user value lease))
  txn_update (suc revision) value lease get =
      let spec = Spec.update key lease value (suc revision) (abstract_store s.table) in
      let (r, s') = Logstructured.update d key value (suc revision) lease s in
      rw (dispatch_update (kine d) key (suc revision) value lease get) (
        after_write c s l spec (update-Idle key lease value (suc revision) (abstract_store s.table))
          (updated_or (kine d) key) (updated-Reply d key) r s'
          (update-refines d s l key user value (suc revision) lease))

  -- On a log, for a key other than compact_rev_key, and whichever statements the driver fails to run, where
  -- RowsAffected and LastInsertId of one that ran do not fail: the delete transaction fails and leaves the
  -- store as it was, or does the abstract delete at the revision and says that it succeeded exactly where
  -- that took effect. A log is left.
  pub txn_delete :
      (revision : ℕ) (get : RangeRequest)
      → Applies c s
          (Spec.delete key revision (abstract_store s.table))
          (txn (kine d) (delete_request key revision get) s)
  unfolding Txns.delete
  txn_delete revision get =
      let spec = Spec.delete key revision (abstract_store s.table) in
      let (r, s') = Logstructured.delete d key revision s in
      rw (dispatch_delete (kine d) key revision get) (
        after_write c s l spec (delete-Idle key revision (abstract_store s.table))
          (deleted_or (kine d) key) (deleted-Reply d key) r s'
          (delete-refines d s l key user revision))
