-- ===== src/Server/Bridge.antt =====
-- `KVServerBridge` (pkg/kine/server/server.go, lease.go, maintenance.go): the fields that a range
-- request must leave at their zero values, and the calls that are answered without the backend.
use k8s_dqlite.Prelude.{ℕ, String, not, Option, none, some, ◌==◌, if◌then◌else◌}
use k8s_dqlite.Results.{message}
use k8s_dqlite.Exec.{M, raise}
use k8s_dqlite.Server.Requests.{RangeRequest, RangeResponse, TxnRequest, TxnResponse}
use k8s_dqlite.Server.Backends.{Backend}
use k8s_dqlite.Server.Ranges
use k8s_dqlite.Server.Txns

-- The first unsupported field that is set, in the order of the tests.
unfoldable pub unsupported_field : RangeRequest → Option String
unsupported_field r =
    if r.keys_only
    then some "keysOnly is unsupported"
    else if not (r.max_create_revision == 0)
    then some "maxCreateRevision is unsupported"
    else if not (r.sort_order == 0)
    then some "sortOrder is unsupported"
    else if not (r.sort_target == 0)
    then some "sortTarget is unsupported"
    else if r.serializable
    then some "serializable is unsupported"
    else if not (r.min_mod_revision == 0)
    then some "minModRevision is unsupported"
    else if not (r.min_create_revision == 0)
    then some "minCreateRevision is unsupported"
    else if not (r.max_mod_revision == 0)
    then some "maxModRevision is unsupported"
    else none

unfoldable pub range : Backend → RangeRequest → M RangeResponse
unfolding unsupported_field
range backend r = elim (unsupported_field r) [
  | some field ↦ raise (message field)
  | none ↦ Ranges.range backend r
]

unfoldable pub txn : Backend → TxnRequest → M TxnResponse
txn backend t = Txns.txn backend t

-- `Compact` of the bridge echoes the revision.
unfoldable pub compact : ℕ → ℕ
compact revision = revision

-- LeaseGrant: the lease's ID is its TTL.
unfoldable pub lease_grant : ℕ → ℕ × ℕ
lease_grant ttl = (ttl, ttl)

-- Status
unfoldable pub status : Backend → M ℕ
status backend = backend.db_size
