-- ===== src/Client.antt =====
-- The client that the program's own tools use (pkg/kine/client/client.go). The etcd client library, which
-- it wraps, is the record `Etcd`, a parameter.
pub mod Stores
pub mod Puts
pub mod Sure
pub mod Served
use k8s_dqlite.Prelude.{
  ℕ, zero, suc, Bool, true, false, ◌||◌, Option, none, some, List, [], ◌∷◌, map,
}
use k8s_dqlite.Bytes.{Bytes, codes, same}
use k8s_dqlite.Table.{Blob}
use k8s_dqlite.Events.{KeyValue}
use k8s_dqlite.Server.{RangeRequest, TxnRequest}
use k8s_dqlite.Server.Stack.{create_request, update_request, delete_request}

-- The errors: of the client itself, and those that the library gives, by their text.
pub data Failure : Type 0 where
  not_found key_exists : Failure
  mismatch : ℕ → Failure
  service : Bytes → Failure

pub data Reply (E A : Type 0) : Type 0 where
  done : A → Reply E A
  failed : E → Reply E A

-- An operation on what the library's calls reach, whatever that is.
abbrev pub Act : Type 0 → Type 0 → Type 0
Act S A = S → Reply Failure A × S

module _ {S : Type 0} where
  abbrev pub give : {A : Type 0} → A → Act S A
  give a s = (done a, s)

  abbrev pub fail : {A : Type 0} → Failure → Act S A
  fail e s = (failed e, s)

  abbrev pub proceed : {A B : Type 0} → Reply Failure A → (A → Act S B) → Act S B
  proceed (done a) f s = f a s
  proceed (failed e) f s = (failed e, s)

  abbrev pub after : {A B : Type 0} → Act S A → (A → Act S B) → Act S B
  after m f s = let (r, s') = m s in proceed r f s'

-- What the wrapper calls of clientv3.Client: `get_key` is Get of one key, `get_prefix` is Get with WithPrefix
-- and WithRev, `commit` is Txn with its If, Then and Else up to Commit, of which `Succeeded` is read. Of the
-- migrator's calls (pkg/migrator/migrator.go), `get_all` is Get of "" with WithPrefix, sorted by descending
-- keys, and `put` is Put.
pub record Etcd (S : Type 0) : Type 0 where
  pub get_key : Bytes → Act S (List KeyValue)
  pub get_prefix : Bytes → ℕ → Act S (List KeyValue)
  pub commit : TxnRequest → Act S Bool
  pub get_all : Act S (List KeyValue)
  pub put : Bytes → Bytes → Act S (Unit {0})

-- `content` is the field Data.
pub record Value : Type 0 where
  pub key : Bytes
  pub content : Blob
  pub modified : ℕ

abbrev pub value_of : KeyValue → Value
value_of kv = record { key = kv.key; content = kv.value; modified = kv.mod_revision }

-- clientv3.OpGet(key)
abbrev pub op_get : Bytes → RangeRequest
op_get key = record {
  key = key;
  range_end = [];
  limit = 0;
  revision = 0;
  count_only = false;
  keys_only = false;
  serializable = false;
  sort_order = 0;
  sort_target = 0;
  min_mod_revision = 0;
  max_mod_revision = 0;
  min_create_revision = 0;
  max_create_revision = 0;
}

module _ {S : Type 0} (c : Etcd S) where
  unfoldable pub list : Bytes → ℕ → Act S (List Value)
  list key rev = after (c.get_prefix key rev) λ kvs. give (map value_of kvs)

  abbrev pub the_one : List KeyValue → Act S Value
  the_one (kv ∷ []) = give (value_of kv)
  the_one [] = fail not_found
  the_one (kv ∷ kv' ∷ kvs) = fail not_found

  unfoldable pub get : Bytes → Act S Value
  get key = after (c.get_key key) the_one

  abbrev pub unless_refused : Failure → Bool → Act S (Unit {0})
  unless_refused e true = give tt
  unless_refused e false = fail e

  unfoldable pub create : Bytes → Bytes → Act S (Unit {0})
  create key value =
      after (c.commit (create_request key (some value) 0)) (unless_refused key_exists)

  unfoldable pub update : Bytes → ℕ → Bytes → Act S (Unit {0})
  update key revision value =
      after (c.commit (update_request key revision (some value) 0 (op_get key)))
        (unless_refused (mismatch revision))

  unfoldable pub delete : Bytes → ℕ → Act S (Unit {0})
  delete key revision =
      after (c.commit (delete_request key revision (op_get key)))
        (unless_refused (mismatch revision))

  abbrev pub put_over : Bytes → Bytes → ℕ → Act S (Unit {0})
  unfolding create update
  put_over key value zero = create key value
  put_over key value (suc revision) = update key (suc revision) value

  unfoldable pub put : Bytes → Bytes → Act S (Unit {0})
  unfolding get create update
  put key value = after (get key) λ val. put_over key value val.modified

-- Whether err.Error() is "key exists".
unfoldable pub says_key_exists : Failure → Bool
says_key_exists not_found = false
says_key_exists key_exists = true
says_key_exists (mismatch revision) = false
says_key_exists (service text) = same text (codes "key exists")
