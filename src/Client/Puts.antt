-- ===== src/Client/Puts.antt =====
-- What the client's writes do to the store behind the library (pkg/kine/client/client.go).
use k8s_dqlite.Prelude.{
  ℕ, zero, suc, ◌<◌, ◌≡◌, refl, sym, ap, ◌∙◌, inl, inr, Bool, true, false, Option, none, some, List,
  ◌==◌, Bool-cases, arith, subst,
}
use k8s_dqlite.Bytes.{Bytes, same}
use k8s_dqlite.Bytes.Order.{same_refl}
use k8s_dqlite.Spec
use k8s_dqlite.Spec.{Entry, Store, took}
use k8s_dqlite.Events.{KeyValue}
use k8s_dqlite.Server.Stack.{create_request, update_request}
use k8s_dqlite.Client.{
  Failure, key_exists, mismatch, Reply, done, failed, Etcd, proceed, the_one, unless_refused,
  put_over, op_get, create, update, get, put,
}
use k8s_dqlite.Client.Stores.{IsStore, Commits, Reads, kvs_of}

-- The key has the value.
abbrev pub Holds : Bytes → Bytes → Store → Type 0
Holds key value t = (e : Entry) × (t.entries key ≡ some e) × (e.value ≡ some value)

-- No other key's entry differs.
abbrev pub Others : Bytes → Store → Store → Type 0
Others key t t' = (k : Bytes) → same k key ≡ false → t'.entries k ≡ t.entries k

module _ (key value : Bytes) (t : Store) where
  put-Others : (e : Entry) → Others key t (Spec.put key (some e) t)
  put-Others e k h = rw h refl

  create-Others : Others key t (Spec.create key 0 (some value) t).1
  unfolding Spec.create
  create-Others = by_entry (t.entries key)
    where
      by_entry : (o : Option Entry) → Others key t (Spec.create_over o key 0 (some value) t).1
      by_entry none = put-Others _
      by_entry (some e) = λ k h. refl

  update-Others : (revision : ℕ) → Others key t (Spec.update key 0 (some value) revision t).1
  unfolding Spec.update
  update-Others revision = by_entry (t.entries key)
    where
      by_entry :
          (o : Option Entry) → Others key t (Spec.update_over o key 0 (some value) revision t).1
      by_entry none = λ k h. refl
      by_entry (some e) = elim (Bool-cases (e.mod_revision == revision)) [
        | inl m ↦ rw m (put-Others _)
        | inr m ↦ rw m (λ k h. refl)
      ]

  put-Holds : (e : Entry) → e.value ≡ some value → Holds key value (Spec.put key (some e) t)
  put-Holds e h = (e, rw (same_refl key) refl, h)

  create-Holds :
      took (Spec.create key 0 (some value) t).0 ≡ true
      → Holds key value (Spec.create key 0 (some value) t).1
  unfolding Spec.create
  create-Holds = by_entry (t.entries key)
    where
      by_entry :
          (o : Option Entry)
          → took (Spec.create_over o key 0 (some value) t).0 ≡ true
          → Holds key value (Spec.create_over o key 0 (some value) t).1
      by_entry none h = put-Holds _ refl
      by_entry (some e) h = absurd (cc (h))

  update-Holds :
      (revision : ℕ)
      → took (Spec.update key 0 (some value) revision t).0 ≡ true
      → Holds key value (Spec.update key 0 (some value) revision t).1
  unfolding Spec.update
  update-Holds revision = by_entry (t.entries key)
    where
      by_entry :
          (o : Option Entry)
          → took (Spec.update_over o key 0 (some value) revision t).0 ≡ true
          → Holds key value (Spec.update_over o key 0 (some value) revision t).1
      by_entry none = λ h. absurd (cc (h))
      by_entry (some e) = elim (Bool-cases (e.mod_revision == revision)) [
        | inl m ↦ rw m (λ h. put-Holds _ refl)
        | inr m ↦ rw m (λ h. absurd (cc (h)))
      ]

module _ {S : Type 0} {good : S → Type 0} {view : S → Store} (c : Etcd S) (l : IsStore good view c)
    (key value : Bytes) where
  -- A write that ended without an error has set the key, and no write touches another key.
  abbrev pub Written : {E : Type 0} → Store → Reply E (Unit {0}) × S → Type 0
  Written t (done u, s) = Holds key value (view s) × Others key t (view s) × good s
  Written t (failed e, s) = Others key t (view s) × good s

  commit-Written :
      (t : Store) (o : Option ℕ × Store) (e : Failure) (r : Reply Failure Bool) (s : S)
      → Others key t o.1
      → (took o.0 ≡ true → Holds key value o.1)
      → Commits good view o t (r, s)
      → Written t (proceed r (unless_refused c e) s)
  commit-Written t (o, t') e (failed x) s others holds (inl h, g) =
      (λ k n. ap (λ (u : Store). u.entries k) h, g)
  commit-Written t (o, t') e (failed x) s others holds (inr h, g) =
      (λ k n. ap (λ (u : Store). u.entries k) h ∙ others k n, g)
  commit-Written t (o, t') e (done true) s others holds (b, h, g) =
      (rw h (holds (sym b)), rw h others, g)
  commit-Written t (o, t') e (done false) s others holds (b, h, g) = (rw h others, g)

  pub create-Written : (s : S) → good s → Written (view s) (create c key value s)
  unfolding create
  create-Written s g =
      let (r, s') = c.commit (create_request key (some value) 0) s in
      commit-Written (view s) (Spec.create key 0 (some value) (view s)) key_exists r s'
        (create-Others key value (view s)) (create-Holds key value (view s))
        (l.creates s g key value)

  pub update-Written :
      (s : S) → good s → (revision : ℕ) → Written (view s) (update c key (suc revision) value s)
  unfolding update
  update-Written s g revision =
      let (r, s') = c.commit (update_request key (suc revision) (some value) 0 (op_get key)) s in
      commit-Written (view s) (Spec.update key 0 (some value) (suc revision) (view s))
        (mismatch (suc revision)) r s' (update-Others key value (view s) (suc revision))
        (update-Holds key value (view s) (suc revision)) (l.updates s g key value revision)

  put_over-Written :
      (t : Store) (e : Entry) (s : S)
      → view s ≡ t
      → good s
      → 0 < e.mod_revision
      → Written t (put_over c key value e.mod_revision s)
  unfolding put_over update
  put_over-Written t e s h g p = by_revision e.mod_revision p
    where
      by_revision : (revision : ℕ) → 0 < revision → Written t (put_over c key value revision s)
      by_revision zero p = absurd (omega (arith, p))
      by_revision (suc revision) p =
          subst (λ (u : Store). Written u (update c key (suc revision) value s)) h
            (update-Written s g revision)

  -- What Put does of an entry, as Get found it.
  put_found-Written :
      (t : Store) (o : Option Entry)
      → ((e : Entry) → o ≡ some e → 0 < e.mod_revision)
      → (r : Reply Failure (List KeyValue)) (s : S) → Reads good view (kvs_of key o) t (r, s)
      → Written t (
          let (x, s') = proceed r (the_one c) s in
          proceed x (λ val. put_over c key value val.modified) s')
  put_found-Written t o p (failed x) s (h, g) = (λ k n. ap (λ (u : Store). u.entries k) h, g)
  put_found-Written t none p (done kvs) s (q, h, g) =
      rw q (λ k n. ap (λ (u : Store). u.entries k) h, g)
  put_found-Written t (some e) p (done kvs) s (q, h, g) =
      rw q (put_over-Written t e s h g (p e refl))

  -- Where the library's calls do what the API promises, Put that ends without an error has set the key, and
  -- in any case it touches no other key.
  pub put-Written : (s : S) → good s → Written (view s) (put c key value s)
  unfolding put get
  put-Written s g =
      let (r, s') = c.get_key key s in
      put_found-Written (view s) ((view s).entries key) (l.written_at s g key) r s' (l.gets s g key)

  -- An error, and the store as it was.
  abbrev pub Fails : Store → Reply Failure (Unit {0}) × S → Type 0
  Fails t (done u, s) = ⊥
  Fails t (failed e, s) = view s ≡ t

  put_missing_found :
      (t : Store) (o : Option Entry)
      → o ≡ none
      → (r : Reply Failure (List KeyValue)) (s : S) → Reads good view (kvs_of key o) t (r, s)
      → Fails t (
          let (x, s') = proceed r (the_one c) s in
          proceed x (λ val. put_over c key value val.modified) s')
  put_missing_found t o n (failed x) s (h, g) = h
  put_missing_found t none n (done kvs) s (q, h, g) = rw q h
  put_missing_found t (some e) n (done kvs) s (q, h, g) = absurd (cc (n))

  -- Where the library's calls do what the API promises: Put of a key that is not there ends with an error
  -- and changes nothing.
  pub put_missing :
      (s : S) → good s → (view s).entries key ≡ none → Fails (view s) (put c key value s)
  unfolding put get
  put_missing s g n =
      let (r, s') = c.get_key key s in
      put_missing_found (view s) ((view s).entries key) n r s' (l.gets s g key)
