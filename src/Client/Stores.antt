-- ===== src/Client/Stores.antt =====
-- What the etcd API promises of the library's calls (the record `Etcd`, for pkg/kine/client/client.go): the
-- calls work on an abstract store.
use k8s_dqlite.Prelude.{ℕ, suc, ◌<◌, ◌≡◌, ◌⊎◌, Bool, Option, none, some, List, [], ◌∷◌}
use k8s_dqlite.Bytes.{Bytes}
use k8s_dqlite.Spec
use k8s_dqlite.Spec.{Entry, Store, took}
use k8s_dqlite.Events.{KeyValue}
use k8s_dqlite.Server.{TxnRequest}
use k8s_dqlite.Server.Stack.{create_request, update_request}
use k8s_dqlite.Client.{Failure, Reply, done, failed, Etcd, op_get}

-- The answer to a Get of a key.
abbrev pub kvs_of : Bytes → Option Entry → List KeyValue
kvs_of key none = []
kvs_of key (some e) =
    record {
      key = key;
      create_revision = e.create_revision;
      mod_revision = e.mod_revision;
      value = e.value;
      lease = e.lease;
    }
    ∷ []

module _ {S : Type 0} (good : S → Type 0) (view : S → Store) where
  -- A read that fails, or not, changes nothing.
  abbrev pub Reads : {A : Type 0} → A → Store → Reply Failure A × S → Type 0
  Reads a t (done b, s) = (b ≡ a) × (view s ≡ t) × good s
  Reads a t (failed e, s) = (view s ≡ t) × good s

  -- A write that fails may have taken effect.
  abbrev pub Commits : Option ℕ × Store → Store → Reply Failure Bool × S → Type 0
  Commits (o, t') t (done b, s) = (b ≡ took o) × (view s ≡ t') × good s
  Commits (o, t') t (failed e, s) = ((view s ≡ t) ⊎ (view s ≡ t')) × good s

  -- Gets, and the transactions that the client sends to write, do what the API says.
  pub record IsStore (c : Etcd S) : Type 0 where
    pub written_at :
        (s : S)
        → good s
        → (key : Bytes) (e : Entry) → (view s).entries key ≡ some e
        → 0 < e.mod_revision
    pub gets :
        (s : S)
        → good s
        → (key : Bytes) → Reads (kvs_of key ((view s).entries key)) (view s) (c.get_key key s)
    pub creates :
        (s : S)
        → good s
        → (key value : Bytes)
        → Commits
            (Spec.create key 0 (some value) (view s))
            (view s)
            (c.commit (create_request key (some value) 0) s)
    pub updates :
        (s : S)
        → good s
        → (key value : Bytes) (revision : ℕ)
        → Commits
            (Spec.update key 0 (some value) (suc revision) (view s))
            (view s)
            (c.commit (update_request key (suc revision) (some value) 0 (op_get key)) s)

  -- And none of them ever fails.
  pub record IsReliable (c : Etcd S) : Type 0 where
    pub store : IsStore c
    pub got :
        (s : S) → good s → (key : Bytes) → (a : List KeyValue) × ((c.get_key key s).0 ≡ done a)
    pub committed : (s : S) → good s → (t : TxnRequest) → (b : Bool) × ((c.commit t s).0 ≡ done b)
