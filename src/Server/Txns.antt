-- ===== src/Server/Txns.antt =====
-- Transactions: the shapes that `LimitedServer.Txn` knows, and what it does for each
-- (pkg/kine/server/create.go, update.go, delete.go, compact.go, limited.go).
use k8s_dqlite.Prelude.{
  ℕ, zero, suc, Bool, true, false, ◌&&◌, Option, none, some, List, [], ◌∷◌, ◌==◌, if◌then◌else◌,
}
use k8s_dqlite.Bytes.{Bytes, same}
use k8s_dqlite.Results.{message}
use k8s_dqlite.Table.{Blob, compact_rev_key}
use k8s_dqlite.Exec.{M, pure, raise, ◌>>=◌}
use k8s_dqlite.Server.Requests.{
  PutRequest, RequestOp, request_range, request_put, request_delete_range, Target, version,
  mod_revision, Outcome, equal, Compare, TxnRequest, TxnResponse, response_put,
  response_delete_range, response_range,
}
use k8s_dqlite.Server.Backends.{Backend}
use k8s_dqlite.Server.Ranges.{found}

-- Target == Compare_MOD, Target == Compare_VERSION, Result == Compare_EQUAL
abbrev pub is_mod : Target → Bool
is_mod mod_revision = true
is_mod _ = false

abbrev pub is_version : Target → Bool
is_version version = true
is_version _ = false

abbrev pub is_equal : Outcome → Bool
is_equal equal = true
is_equal _ = false

-- GetRequestPut, GetRequestRange and GetRequestDeleteRange of the one operation of a list.
abbrev pub one_put : List RequestOp → Option PutRequest
one_put (request_put p ∷ []) = some p
one_put _ = none

abbrev pub one_delete : List RequestOp → Option Bytes
one_delete (request_delete_range key ∷ []) = some key
one_delete _ = none

abbrev pub one_range : List RequestOp → Bool
one_range (request_range r ∷ []) = true
one_range _ = false

abbrev pub no_ops : List RequestOp → Bool
no_ops [] = true
no_ops (op ∷ ops) = false

-- The one comparison, where it is for equality with a revision.
abbrev pub one_mod : List Compare → Option Compare
one_mod (c ∷ []) = if is_mod c.target && is_equal c.outcome then some c else none
one_mod _ = none

abbrev pub one_version : List Compare → Option Compare
one_version (c ∷ []) = if is_version c.target && is_equal c.outcome then some c else none
one_version _ = none

abbrev pub when : {A : Type 0} → Bool → Option A → Option A
when true o = o
when false o = none

unfoldable pub is_create : TxnRequest → Option PutRequest
is_create txn = elim (one_mod txn.compare) [
  | none ↦ none
  | some c ↦ when (c.mod_rev == 0 && no_ops txn.failure) (one_put txn.success)
]

unfoldable pub is_delete : TxnRequest → Option (ℕ × Bytes)
is_delete txn = elim (one_mod txn.compare) [
  | none ↦ none
  | some c ↦
      when (one_range txn.failure)
        (elim (one_delete txn.success) [ none ↦ none | some key ↦ some (c.mod_rev, key) ])
]

unfoldable pub is_update : TxnRequest → Option (ℕ × Bytes × Blob × ℕ)
is_update txn = elim (one_mod txn.compare) [
  | none ↦ none
  | some c ↦ when (one_range txn.failure) (elim (one_put txn.success) [
    | none ↦ none
    | some p ↦ some (c.mod_rev, c.key, p.value, p.lease)
  ])
]

unfoldable pub is_compact : TxnRequest → Bool
is_compact txn = elim (one_version txn.compare) [
  | none ↦ false
  | some c ↦ elim (one_put txn.success) [
    | none ↦ false
    | some p ↦ one_range txn.failure && same c.key compact_rev_key
  ]
]

unfoldable pub create : Backend → PutRequest → M TxnResponse
create backend put =
    if put.ignore_lease
    then raise (message "ignoreLease is unsupported")
    else if put.ignore_value
    then raise (message "ignoreValue is unsupported")
    else if put.prev_kv
    then raise (message "prevKv is unsupported")
    else do
      (rev, created) ← backend.create put.key put.value put.lease
      pure (record {
        header = rev;
        succeeded = created;
        responses = if created then response_put rev ∷ [] else [];
      })

-- The answer where a write did not happen: the header is the write's, and what is found comes with its own.
abbrev pub refused : Backend → Bytes → ℕ → M TxnResponse
refused backend key rev = do
  (at, kv) ← backend.get key [] 1 rev
  pure (record { header = rev; succeeded = false; responses = response_range at (found kv) 0 ∷ [] })

abbrev pub deleted_or : Backend → Bytes → ℕ × Bool → M TxnResponse
deleted_or backend key (rev, true) =
    pure (record { header = rev; succeeded = true; responses = response_delete_range rev ∷ [] })
deleted_or backend key (rev, false) = refused backend key rev

unfoldable pub delete : Backend → Bytes → ℕ → M TxnResponse
delete backend key revision = backend.delete key revision >>= deleted_or backend key

abbrev pub updated_or : Backend → Bytes → ℕ × Bool → M TxnResponse
updated_or backend key (rev, true) =
    pure (record { header = rev; succeeded = true; responses = response_put rev ∷ [] })
updated_or backend key (rev, false) = refused backend key rev

abbrev pub write : Backend → ℕ → Bytes → Blob → ℕ → M (ℕ × Bool)
write backend zero key value lease = backend.create key value lease
write backend (suc rev) key value lease = backend.update key value (suc rev) lease

unfoldable pub update : Backend → ℕ → Bytes → Blob → ℕ → M TxnResponse
update backend rev key value lease = write backend rev key value lease >>= updated_or backend key

-- A failed comparison, so that the apiserver does not compact: one empty key-value is shown.
unfoldable pub compact : M TxnResponse
compact = pure (record {
  header = 0;
  succeeded = false;
  responses =
      response_range 0
        (record { key = []; create_revision = 0; mod_revision = 0; value = none; lease = 0 } ∷ []) 1
      ∷ [];
})

-- `LimitedServer.Txn`
unfoldable pub txn : Backend → TxnRequest → M TxnResponse
unfolding is_create is_delete is_update is_compact create delete update compact
txn backend t = elim (is_create t) [
  | some put ↦ create backend put
  | none ↦ elim (is_delete t) [
    | some (rev, key) ↦ delete backend key rev
    | none ↦ elim (is_update t) [
      | some (rev, key, value, lease) ↦ update backend rev key value lease
      | none ↦ if is_compact t then compact else raise (message "unsupported transaction")
    ]
  ]
]
