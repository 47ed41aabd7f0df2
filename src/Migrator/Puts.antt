-- ===== src/Migrator/Puts.antt =====
-- `putKey` (pkg/migrator/util.go) on a store that does what the etcd API promises.
use k8s_dqlite.Prelude.{
  ℕ, zero, suc, ◌≡◌, refl, sym, ◌∙◌, ◌⊎◌, inl, inr, Bool, true, false, some, List, [], ◌∷◌,
  if◌then◌else◌, subst, In,
}
use k8s_dqlite.Bytes.{Bytes, same}
use k8s_dqlite.Spec.{Entry, Store}
use k8s_dqlite.Client
use k8s_dqlite.Client.{
  Failure, not_found, key_exists, mismatch, Reply, done, failed, Etcd, proceed, the_one,
  unless_refused, put_over, op_get, says_key_exists,
}
use k8s_dqlite.Client.Stores.{IsStore, IsReliable}
use k8s_dqlite.Client.Puts.{Holds, Others, Written, create-Written, put-Written}
use k8s_dqlite.Client.Sure.{create-Done, put-Done}
use k8s_dqlite.Migrator.{Trouble, put_key, put_after, overwrite, writes_key}
use k8s_dqlite.Migrator.Files.{put_pairs}

module _ {S : Type 0} {good : S → Type 0} {view : S → Store} (c : Etcd S) where
  module _ (l : IsStore good view c) (key value : Bytes) where
    Written-after :
        {E : Type 0} (t t' : Store)
        → Others key t t'
        → (r : Reply E (Unit {0})) (s : S) → Written c l key value t' (r, s)
        → Written c l key value t (r, s)
    Written-after t t' h (done u) s (x, o, g) = (x, λ k n. o k n ∙ h k n, g)
    Written-after t t' h (failed e) s (o, g) = (λ k n. o k n ∙ h k n, g)

    overwrite-Written :
        (n : ℕ) (e : Failure) (s : S)
        → good s
        → Written c l key value (view s) (overwrite c n key value e s)
    unfolding overwrite
    overwrite-Written zero e s g = (λ k n. refl, g)
    overwrite-Written (suc n) e s g =
        let (r, s') = Client.put c key value s in
        again r s' (put-Written c l key value s g) (overwrite-Written n)
      where
        again :
            (r : Reply Failure (Unit {0})) (s' : S)
            → Written c l key value (view s) (r, s')
            → ((e : Failure) (s : S)
                → good s
                → Written c l key value (view s) (overwrite c n key value e s))
            → Written c l key value (view s) (elim r as (λ x. Reply Trouble (Unit {0}) × S) [
              | done u ↦ (done tt, s')
              | failed e' ↦ overwrite c n key value e' s'
            ])
        again (done u) s' w rest = w
        again (failed e') s' (o, g') rest =
            let (x, s'') = overwrite c n key value e' s' in
            Written-after (view s) (view s') o x s'' (rest e' s' g')

    -- Where the library's calls do what the API promises, putKey that ends without an error has set the key, and
    -- in any case it touches no other key.
    pub put_key-Written : (s : S) → good s → Written c l key value (view s) (put_key c key value s)
    unfolding put_key put_after
    put_key-Written s g =
        let (r, s') = Client.create c key value s in
        followed r s' (create-Written c l key value s g)
      where
        followed :
            (r : Reply Failure (Unit {0})) (s' : S)
            → Written c l key value (view s) (r, s')
            → Written c l key value (view s) (put_after c key value r s')
        followed (done u) s' w = w
        followed (failed e) s' (o, g') = by_text (says_key_exists e)
          where
            by_text :
                (b : Bool)
                → Written c l key value (view s) (
                    if b then overwrite c 5 key value e s' else (
                      failed (
                          k8s_dqlite.Migrator.about_key "failed to create key" key
                            (k8s_dqlite.Migrator.of_client e)),
                      s',
                    ))
            by_text true =
                let (x, s'') = overwrite c 5 key value e s' in
                Written-after (view s) (view s') o x s'' (overwrite-Written 5 e s' g')
            by_text false = (o, g')

  module _ (l : IsReliable good view c) (key value : Bytes) where
    overwrite-Done :
        (n : ℕ) (x : Failure) (s : S)
        → good s
        → (e : Entry) → (view s).entries key ≡ some e
        → (overwrite c (suc n) key value x s).0 ≡ done tt
    unfolding overwrite
    overwrite-Done n x s g e h =
        let (r, s') = Client.put c key value s in ended r s' (put-Done c l key value s g e h)
      where
        ended :
            (r : Reply Failure (Unit {0})) (s' : S)
            → r ≡ done tt
            → (elim r as (λ x. Reply Trouble (Unit {0}) × S) [
              | done u ↦ (done tt, s')
              | failed e' ↦ overwrite c n key value e' s'
            ]).0
              ≡ done tt
        ended (done u) s' d = refl
        ended (failed e') s' d = absurd (cc (d))

    -- On a store that does what the API promises and never fails, putKey never fails.
    pub put_key-Done : (s : S) → good s → (put_key c key value s).0 ≡ done tt
    unfolding put_key says_key_exists
    put_key-Done s g = elim (create-Done c l key value s g) [
      | inl d ↦ rw d refl
      | inr (d, e, h, g') ↦
          rw d (overwrite-Done 4 key_exists (Client.create c key value s).1 g' e h)
    ]

-- No key comes twice.
abbrev pub Distinct : List (Bytes × Bytes) → Type 0
Distinct [] = Unit
Distinct ((key, value) ∷ pairs) =
    ((p : Bytes × Bytes) → In p pairs → same key p.0 ≡ false) × Distinct pairs

module _ {S : Type 0} {good : S → Type 0} {view : S → Store} (c : Etcd S)
    (l : IsReliable good view c) where
  -- A write that has not failed has set the key.
  sure :
      (key value : Bytes) (t : Store) (r : Reply Trouble (Unit {0})) (s : S)
      → r ≡ done tt
      → Written c l.store key value t (r, s)
      → Holds key value (view s) × Others key t (view s) × good s
  sure key value t (done u) s d w = w
  sure key value t (failed e) s d w = absurd (cc (d))

  writes_key-Holds :
      (key value : Bytes) (s : S)
      → good s
      → Holds key value (view (writes_key c key value s))
        × Others key (view s) (view (writes_key c key value s))
        × good (writes_key c key value s)
  unfolding writes_key put_key
  writes_key-Holds key value s g =
      let (r, s') = put_key c key value s in
      sure key value (view s) r s' (put_key-Done c l key value s g)
        (put_key-Written c l.store key value s g)

  -- A key that is not among the pairs keeps its entry.
  put_pairs-Others :
      (pairs : List (Bytes × Bytes)) (s : S) (k : Bytes)
      → good s
      → ((p : Bytes × Bytes) → In p pairs → same k p.0 ≡ false)
      → (view (put_pairs (writes_key c) pairs s)).entries k ≡ (view s).entries k
  put_pairs-Others [] s k g h = refl
  put_pairs-Others ((key, value) ∷ pairs) s k g h =
      let (x, o, g') = writes_key-Holds key value s g in
      put_pairs-Others pairs (writes_key c key value s) k g' (λ p m. h p (inr m))
      ∙ o k (h (key, value) (inl refl))

  -- After all pairs are put, each key has its value.
  pub put_pairs-Holds :
      (pairs : List (Bytes × Bytes)) (s : S)
      → good s
      → Distinct pairs
      → (p : Bytes × Bytes) → In p pairs
      → Holds p.0 p.1 (view (put_pairs (writes_key c) pairs s))
  put_pairs-Holds [] s g d p m = elim m [ ]
  put_pairs-Holds ((key, value) ∷ pairs) s g (away, d) p m = by_place m (
      let (x, o, g') = writes_key-Holds key value s g in
      put_pairs-Holds pairs (writes_key c key value s) g' d p)
    where
      by_place :
          (p ≡ (key, value)) ⊎ In p pairs
          → (In p pairs
              → Holds p.0 p.1 (view (put_pairs (writes_key c) pairs (writes_key c key value s))))
          → Holds p.0 p.1 (view (put_pairs (writes_key c) pairs (writes_key c key value s)))
      by_place (inl e) rest =
          let ((x, h, v), o, g') = writes_key-Holds key value s g in
          subst
            (λ (p : Bytes × Bytes).
              Holds p.0 p.1 (view (put_pairs (writes_key c) pairs (writes_key c key value s))))
            (sym e) (x, put_pairs-Others pairs (writes_key c key value s) key g' away ∙ h, v)
      by_place (inr m) rest = rest m
