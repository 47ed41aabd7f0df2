-- ===== src/Client/Sure.antt =====
-- The client's writes (pkg/kine/client/client.go) where the library's calls never fail.
use k8s_dqlite.Prelude.{
  ℕ, zero, suc, ◌<◌, ◌≡◌, refl, ap, ◌∙◌, ◌⊎◌, inl, inr, Bool, true, false, Option, none, some, List,
  ==_iff, arith, subst,
}
use k8s_dqlite.Bytes.{Bytes}
use k8s_dqlite.Spec
use k8s_dqlite.Spec.{Entry, Store, took}
use k8s_dqlite.Events.{KeyValue}
use k8s_dqlite.Server.Stack.{create_request, update_request}
use k8s_dqlite.Client
use k8s_dqlite.Client.{
  Failure, not_found, key_exists, mismatch, Reply, done, failed, Etcd, proceed, the_one,
  unless_refused, put_over, op_get,
}
use k8s_dqlite.Client.Stores.{IsReliable, Commits, Reads, kvs_of}

module _ {S : Type 0} {good : S → Type 0} {view : S → Store} (c : Etcd S) where
  module _ (l : IsReliable good view c) (key value : Bytes) where
    took-update :
        (o : Option Entry) (t : Store) (e : Entry) (revision : ℕ)
        → o ≡ some e
        → e.mod_revision ≡ revision
        → took (Spec.update_over o key 0 (some value) revision t).0 ≡ true
    took-update none t e revision h m = absurd (cc (h))
    took-update (some x) t e revision h m =
        let k : x.mod_revision ≡ revision =
          ap (λ (y : Entry). y.mod_revision) (let g : x ≡ e = cc (h) in g) ∙ m in
        rw ((==_iff x.mod_revision revision).1 k) refl

    pub update-Done :
        (s : S)
        → good s
        → (e : Entry) (revision : ℕ) → (view s).entries key ≡ some e
        → e.mod_revision ≡ suc revision
        → (Client.update c key (suc revision) value s).0 ≡ done tt
    unfolding Client.update Spec.update
    update-Done s g e revision h m =
        let request = update_request key (suc revision) (some value) 0 (op_get key) in
        let (b, p) = l.committed s g request in
        let (r, s') = c.commit request s in said r s' b p (l.store.updates s g key value revision)
      where
        said :
            (r : Reply Failure Bool) (s' : S) (b : Bool)
            → r ≡ done b
            → Commits good view
                (Spec.update key 0 (some value) (suc revision) (view s))
                (view s)
                (r, s')
            → (proceed r (unless_refused c (mismatch (suc revision))) s').0 ≡ done tt
        said (failed x) s' b p q = absurd (cc (p))
        said (done true) s' b p q = refl
        said (done false) s' b p (q, v, g') =
            absurd (cc (q, took-update ((view s).entries key) (view s) e (suc revision) h m))

    pub put-Done :
        (s : S)
        → good s
        → (e : Entry) → (view s).entries key ≡ some e
        → (Client.put c key value s).0 ≡ done tt
    unfolding Client.put Client.get put_over Client.update
    put-Done s g e h =
        let (kvs, p) = l.got s g key in
        let (r, s') = c.get_key key s in
        read r s' kvs p (
          subst (λ (o : Option Entry). Reads good view (kvs_of key o) (view s) (r, s')) h
            (l.store.gets s g key))
      where
        at :
            (s' : S)
            → good s'
            → (view s').entries key ≡ some e
            → (revision : ℕ) → 0 < revision
            → e.mod_revision ≡ revision
            → (put_over c key value revision s').0 ≡ done tt
        at s' g' h' zero p m = absurd (omega (arith, p))
        at s' g' h' (suc revision) p m = update-Done s' g' e revision h' m

        read :
            (r : Reply Failure (List KeyValue)) (s' : S) (kvs : List KeyValue)
            → r ≡ done kvs
            → Reads good view (kvs_of key (some e)) (view s) (r, s')
            → (let (x, s'') = proceed r (the_one c) s' in
                (proceed x (λ val. put_over c key value val.modified) s'').0)
              ≡ done tt
        read (failed x) s' kvs p q = absurd (cc (p))
        read (done ks) s' kvs p (q, v, g') = rw q (
            at s' g' (ap (λ (u : Store). u.entries key) v ∙ h) e.mod_revision
              (l.store.written_at s g key e h) refl)

    -- Create ends well, or it says that the key exists, and then the key does.
    pub create-Done :
        (s : S)
        → good s
        → ((Client.create c key value s).0 ≡ done tt)
          ⊎ (((Client.create c key value s).0 ≡ failed key_exists)
              × (e : Entry) × ((view (Client.create c key value s).1).entries key ≡ some e)
              × good (Client.create c key value s).1)
    unfolding Client.create Spec.create
    create-Done s g =
        let request = create_request key (some value) 0 in
        let (b, p) = l.committed s g request in
        let (r, s') = c.commit request s in said r s' b p (l.store.creates s g key value)
      where
        there :
            (o : Option Entry) (t : Store)
            → false ≡ took (Spec.create_over o key 0 (some value) t).0
            → (e : Entry) × (o ≡ some e) × ((Spec.create_over o key 0 (some value) t).1 ≡ t)
        there none t q = absurd (cc (q))
        there (some e) t q = (e, refl, refl)

        said :
            (r : Reply Failure Bool) (s' : S) (b : Bool)
            → r ≡ done b
            → Commits good view (Spec.create key 0 (some value) (view s)) (view s) (r, s')
            → (let out = proceed r (unless_refused c key_exists) s' in
                (out.0 ≡ done tt)
                ⊎ ((out.0 ≡ failed key_exists)
                    × (e : Entry) × ((view out.1).entries key ≡ some e)
                    × good out.1))
        said (failed x) s' b p q = absurd (cc (p))
        said (done true) s' b p q = inl refl
        said (done false) s' b p (q, v, g') =
            let (e, h, k) = there ((view s).entries key) (view s) q in
            inr (refl, e, ap (λ (u : Store). u.entries key) (v ∙ k) ∙ h, g')
