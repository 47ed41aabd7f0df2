-- ===== src/Tests/Clients.antt =====
-- Witnesses for the client and the migrator: a small store in place of etcd.
use k8s_dqlite.Prelude.{
  ℕ, suc, ◌≡◌, refl, ap, ◌≢◌, ◌<◌, inl, inr, Bool, true, false, Option, none, some, List, [], ◌∷◌,
  map, arith, if◌then◌else◌, ◌==◌, Bool-cases, In, subst,
}
use k8s_dqlite.Bytes.{Bytes, codes, same}
use k8s_dqlite.Results.{Error}
use k8s_dqlite.Spec
use k8s_dqlite.Spec.{Entry, Store, took}
use k8s_dqlite.Events.{KeyValue}
use k8s_dqlite.Exec.{Sys}
use k8s_dqlite.Table.Refines.{abstract_store}
use k8s_dqlite.Table.{Blob}
use k8s_dqlite.Server.{PutRequest, kine}
use k8s_dqlite.Server.Bridge
use k8s_dqlite.Server.Txns.{is_create, is_update}
use k8s_dqlite.Server.Stack.{update_request, is_create-update_request}
use k8s_dqlite.Client
use k8s_dqlite.Client.{Reply, done, failed, Etcd, op_get, list, value_of}
use k8s_dqlite.Client.Stores.{IsReliable, Commits, kvs_of}
use k8s_dqlite.Client.Puts.{Holds, Written, Fails, put-Written, put_missing}
use k8s_dqlite.Client.Served.{handed, Took, client_create}
use k8s_dqlite.Migrator.{FileName, restore_from, restore_to_dqlite, backup_etcd}
use k8s_dqlite.Migrator.Files.{restore_ends}
use k8s_dqlite.Migrator.Puts.{Distinct}
use k8s_dqlite.Migrator.Runs.{sound, bytes_of, pair_of, etcd_to_dqlite}
use k8s_dqlite.Tests.{pod, pod_user, t5, t5-IsLog, busy, shaky}

-- A store that lists the same key-values always.
abbrev told : Option ℕ × Store → Reply Client.Failure Bool × Store
told (o, s) = (done (took o), s)

abbrev commit_as :
    Option PutRequest → Option (ℕ × Bytes × Blob × ℕ) → Store → Reply Client.Failure Bool × Store
commit_as (some put) o s = told (Spec.create put.key put.lease put.value s)
commit_as none (some (rev, key, value, lease)) s = told (Spec.update key lease value rev s)
commit_as none none s = (done false, s)

abbrev toy : List KeyValue → Etcd Store
toy kvs = record {
  get_key = λ key s. (done (kvs_of key (s.entries key)), s);
  get_prefix = λ key rev s. (done kvs, s);
  commit = λ t. commit_as (is_create t) (is_update t);
  get_all = λ s. (done kvs, s);
  put = λ key value s. (
    done tt,
    Spec.put key
        (some (record {
          create_revision = 1;
          mod_revision = suc s.revision;
          lease = 0;
          value = some value;
        }))
        s,
  );
}

-- Every entry was written at some revision.
abbrev Dated : Store → Type 0
Dated s = (key : Bytes) (e : Entry) → s.entries key ≡ some e → 0 < e.mod_revision

put-Dated :
    (s : Store) (key : Bytes) (e : Entry)
    → 0 < e.mod_revision
    → Dated s
    → Dated (Spec.put key (some e) s)
put-Dated s key e p d k x h = by_flag (same k key) h
  where
    by_flag : (b : Bool) → (if b then some e else s.entries k) ≡ some x → 0 < x.mod_revision
    by_flag true h = let g : e ≡ x = cc (h) in subst (λ (x : Entry). 0 < x.mod_revision) g p
    by_flag false h = d k x h

create-Dated :
    (s : Store) (key value : Bytes) → Dated s → Dated (Spec.create key 0 (some value) s).1
unfolding Spec.create
create-Dated s key value d = by_entry (s.entries key)
  where
    by_entry : (o : Option Entry) → Dated (Spec.create_over o key 0 (some value) s).1
    by_entry none = put-Dated s key _ (omega arith) d
    by_entry (some e) = d

update-Dated :
    (s : Store) (key value : Bytes) (revision : ℕ)
    → Dated s
    → Dated (Spec.update key 0 (some value) revision s).1
unfolding Spec.update
update-Dated s key value revision d = by_entry (s.entries key)
  where
    by_entry : (o : Option Entry) → Dated (Spec.update_over o key 0 (some value) revision s).1
    by_entry none = d
    by_entry (some e) = elim (Bool-cases (e.mod_revision == revision)) [
      | inl m ↦ rw m (put-Dated s key _ (omega arith) d)
      | inr m ↦ rw m d
    ]

commit_as-done :
    (o : Option PutRequest) (u : Option (ℕ × Bytes × Blob × ℕ)) (s : Store)
    → (b : Bool) × ((commit_as o u s).0 ≡ done b)
commit_as-done (some put) u s = (_, refl)
commit_as-done none (some (rev, key, value, lease)) s = (_, refl)
commit_as-done none none s = (_, refl)

toy-updates :
    (s : Store)
    → Dated s
    → (key value : Bytes) (revision : ℕ)
    → Commits Dated
        (λ s. s)
        (Spec.update key 0 (some value) (suc revision) s)
        s
        (let t = update_request key (suc revision) (some value) 0 (op_get key) in
          commit_as (is_create t) (is_update t) s)
unfolding is_update
toy-updates s d key value revision =
    rw (is_create-update_request key (suc revision) (some value) 0 (op_get key))
      (refl, refl, update-Dated s key value (suc revision) d)

toy-IsReliable : (kvs : List KeyValue) → IsReliable Dated (λ s. s) (toy kvs)
unfolding is_create
toy-IsReliable kvs = record {
  store = record {
    written_at = λ s d key e h. d key e h;
    gets = λ s d key. (refl, refl, d);
    creates = λ s d key value. (refl, refl, create-Dated s key value d);
    updates = toy-updates;
  };
  got = λ s d key. (_, refl);
  committed = λ s d t. commit_as-done (is_create t) (is_update t) s;
}

abbrev bare : Store
bare = record { revision = 0; entries = λ key. none }

bare-Dated : Dated bare
bare-Dated key e h = absurd (cc (h))

abbrev kv : Bytes → Bytes → KeyValue
kv key value = record {
  key = key;
  create_revision = 1;
  mod_revision = 2;
  value = some value;
  lease = 0;
}

abbrev listing : List KeyValue
listing = kv (codes "/pods/b") (codes "2") ∷ kv (codes "/pods/a") (codes "1") ∷ []

listing-Distinct : Distinct (map pair_of listing)
unfolding same
listing-Distinct = (
  λ p m. elim m [
    | inl e ↦ ap (λ (p : Bytes × Bytes). same (codes "/pods/b") p.0) e
    | inr i ↦ absurd i
  ],
  ((λ p m. absurd m), tt),
)

no_files : FileName → Option Bytes
no_files name = none

etcd_to_dqlite_example :
    (let (r, (s', disk)) = backup_etcd (done (toy listing)) (bare, sound no_files) in
      let (o, (t', disk')) = restore_to_dqlite 3 (done (toy [])) (bare, disk) in
      (r ≡ done tt)
      × (o ≡ some (done tt))
      × ((kv : KeyValue) → In kv listing → Holds kv.key (bytes_of kv.value) t'))
unfolding no_files
etcd_to_dqlite_example =
    etcd_to_dqlite no_files 3 (toy listing) bare (toy []) bare listing refl listing-Distinct refl
      (omega arith) (toy-IsReliable []) bare-Dated

restore_ends_example :
    (restore_from (λ key value (s : Store). s) 1 0 bare (sound no_files)).0 ≢ none
unfolding no_files
restore_ends_example =
    restore_ends (λ key value (s : Store). s) 1 0 0 bare (sound no_files) refl (omega arith)
      (omega arith)

put-Written_example :
    Written {view = λ s. s}
      (toy [])
      (toy-IsReliable []).store
      pod
      (codes "v")
      bare
      (Client.put (toy []) pod (codes "v") bare)
put-Written_example = put-Written (toy []) (toy-IsReliable []).store pod (codes "v") bare bare-Dated

put_missing_example :
    Fails {view = λ s. s}
      (toy [])
      (toy-IsReliable []).store
      pod
      (codes "v")
      bare
      (Client.put (toy []) pod (codes "v") bare)
put_missing_example =
    put_missing (toy []) (toy-IsReliable []).store pod (codes "v") bare bare-Dated refl

-- The library hands the transactions to the server, and its errors are of one text.
abbrev no_text : Error → Bytes
no_text e = []

abbrev wired : Etcd Sys
wired = record {
  get_key = λ key s. (done [], s);
  get_prefix = λ key rev s. (done [], s);
  commit = λ t s. handed no_text (Bridge.txn (kine busy) t s);
  get_all = λ s. (done [], s);
  put = λ key value s. (done tt, s);
}

client_create_example :
    Took 0
      (abstract_store t5)
      (Spec.create pod 0 (some (codes "y")) (abstract_store t5))
      (Client.create wired pod (codes "y") shaky)
client_create_example =
    client_create busy no_text wired (λ t s. refl) shaky t5-IsLog pod pod_user (codes "y")
