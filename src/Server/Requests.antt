-- ===== src/Server/Requests.antt =====
-- The requests and responses of the etcd API that the server reads (the fields of etcdserverpb that
-- pkg/kine/server uses).
use k8s_dqlite.Prelude.{ℕ, Bool, List}
use k8s_dqlite.Bytes.{Bytes}
use k8s_dqlite.Table.{Blob}
use k8s_dqlite.Events.{KeyValue}

-- The fields that `KVServerBridge.Range` refuses, and those that the handlers read.
pub record RangeRequest : Type 0 where
  pub key : Bytes
  pub range_end : Bytes
  pub limit : ℕ
  pub revision : ℕ
  pub count_only : Bool
  pub keys_only : Bool
  pub serializable : Bool
  pub sort_order : ℕ
  pub sort_target : ℕ
  pub min_mod_revision : ℕ
  pub max_mod_revision : ℕ
  pub min_create_revision : ℕ
  pub max_create_revision : ℕ

pub record PutRequest : Type 0 where
  pub key : Bytes
  pub value : Blob
  pub lease : ℕ
  pub prev_kv : Bool
  pub ignore_value : Bool
  pub ignore_lease : Bool

pub data RequestOp : Type 0 where
  request_range : RangeRequest → RequestOp
  request_put : PutRequest → RequestOp
  request_delete_range : Bytes → RequestOp
  request_txn : RequestOp

pub data Target : Type 0 where
  version create_revision mod_revision value lease : Target

pub data Outcome : Type 0 where
  equal greater less not_equal : Outcome

-- `mod` is GetModRevision, which is 0 where the comparison holds another field.
pub record Compare : Type 0 where
  pub target : Target
  pub outcome : Outcome
  pub key : Bytes
  pub mod_rev : ℕ

pub record TxnRequest : Type 0 where
  pub compare : List Compare
  pub success : List RequestOp
  pub failure : List RequestOp

-- RangeResponse of pkg/kine/server/limited.go; the header is its revision.
pub record RangeResponse : Type 0 where
  pub header : ℕ
  pub kvs : List KeyValue
  pub more : Bool
  pub count : ℕ

pub data ResponseOp : Type 0 where
  response_put : ℕ → ResponseOp
  response_delete_range : ℕ → ResponseOp
  response_range : ℕ → List KeyValue → ℕ → ResponseOp

pub record TxnResponse : Type 0 where
  pub header : ℕ
  pub succeeded : Bool
  pub responses : List ResponseOp
