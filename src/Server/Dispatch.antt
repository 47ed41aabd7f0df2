-- ===== src/Server/Dispatch.antt =====
-- The shapes of transactions (pkg/kine/server/create.go, delete.go, update.go, compact.go) side by side.
use k8s_dqlite.Prelude.{
  ℕ, ◌≡◌, refl, Bool, true, false, ◌&&◌, Option, none, some, List, [], ◌∷◌, ◌==◌, ◌⊎◌, inl, inr,
  if◌then◌else◌,
}
use k8s_dqlite.Bytes.{Bytes}
use k8s_dqlite.Server.Requests.{
  RequestOp, request_range, request_put, request_delete_range, request_txn, Target, Compare,
  TxnRequest,
}
use k8s_dqlite.Server.Txns.{
  is_create, is_delete, is_update, is_compact, when, one_mod, one_version, one_range, one_put,
  one_delete, no_ops, is_mod, is_version, is_equal,
}

-- No transaction has two of the shapes: it does not depend on the order in which `Txn` tries them.
pub data Shape (t : TxnRequest) : Type 0 where
  creates : is_delete t ≡ none → is_update t ≡ none → is_compact t ≡ false → Shape t
  deletes : is_create t ≡ none → is_update t ≡ none → is_compact t ≡ false → Shape t
  updates : is_create t ≡ none → is_delete t ≡ none → is_compact t ≡ false → Shape t
  compacts : is_create t ≡ none → is_delete t ≡ none → is_update t ≡ none → Shape t

or_none :
    {A : Type 0} (o : Option Compare) (k : Compare → Option A)
    → ((c : Compare) → k c ≡ none)
    → (elim o as (λ x. Option A) [ none ↦ none | some c ↦ k c ]) ≡ none
or_none none k h = refl
or_none (some c) k h = h c

or_false :
    (o : Option Compare) (k : Compare → Bool)
    → o ≡ none
    → (elim o as (λ x. Bool) [ none ↦ false | some c ↦ k c ]) ≡ false
or_false none k h = refl
or_false (some c) k h = absurd (cc)

none_or :
    {A : Type 0} (o : Option Compare) (k : Compare → Option A)
    → o ≡ none
    → (elim o as (λ x. Option A) [ none ↦ none | some c ↦ k c ]) ≡ none
none_or none k h = refl
none_or (some c) k h = absurd (cc)

when-false : {A : Type 0} (b : Bool) (o : Option A) → b ≡ false → when b o ≡ none
when-false true o h = absurd (cc)
when-false false o h = refl

when-none : {A : Type 0} (b : Bool) (o : Option A) → o ≡ none → when b o ≡ none
when-none true o h = h
when-none false o h = refl

and_false_right : (a b : Bool) → b ≡ false → (a && b) ≡ false
and_false_right true b h = h
and_false_right false b h = refl

one_target : (cs : List Compare) → (one_mod cs ≡ none) ⊎ (one_version cs ≡ none)
one_target [] = inl refl
one_target (c ∷ d ∷ cs) = inl refl
one_target (c ∷ []) = by_field c.target
  where
    by_field :
        (x : Target)
        → ((if is_mod x && is_equal c.outcome then some c else none) ≡ none)
          ⊎ ((if is_version x && is_equal c.outcome then some c else none) ≡ none)
    by_field Target.version = inl refl
    by_field Target.create_revision = inl refl
    by_field Target.mod_revision = inr refl
    by_field Target.value = inl refl
    by_field Target.lease = inl refl

one_op : (ops : List RequestOp) → (one_put ops ≡ none) ⊎ (one_delete ops ≡ none)
one_op [] = inl refl
one_op (op ∷ op' ∷ ops) = more op
  where
    more :
        (op : RequestOp) → (one_put (op ∷ op' ∷ ops) ≡ none) ⊎ (one_delete (op ∷ op' ∷ ops) ≡ none)
    more (request_range r) = inl refl
    more (request_put p) = inl refl
    more (request_delete_range key) = inl refl
    more request_txn = inl refl
one_op (request_range r ∷ []) = inl refl
one_op (request_put p ∷ []) = inr refl
one_op (request_delete_range key ∷ []) = inl refl
one_op (request_txn ∷ []) = inl refl

one_failure : (ops : List RequestOp) → (one_range ops ≡ false) ⊎ (no_ops ops ≡ false)
one_failure [] = inl refl
one_failure (op ∷ ops) = inr refl

module _ (t : TxnRequest) where
  is_create-none : (one_mod t.compare ≡ none) ⊎ (no_ops t.failure ≡ false) → is_create t ≡ none
  unfolding is_create
  is_create-none (inl h) = none_or (one_mod t.compare) _ h
  is_create-none (inr h) =
      or_none (one_mod t.compare) _
        (λ c. when-false _ _ (and_false_right (c.mod_rev == 0) (no_ops t.failure) h))

  no_delete :
      one_delete t.success ≡ none
      → (c : Compare)
      → (elim (one_delete t.success) as (λ x. Option (ℕ × Bytes)) [
        | none ↦ none
        | some key ↦ some (c.mod_rev, key)
      ])
        ≡ none
  no_delete h c = rw h refl

  is_delete-none :
      (one_mod t.compare ≡ none) ⊎ (one_range t.failure ≡ false) ⊎ (one_delete t.success ≡ none)
      → is_delete t ≡ none
  unfolding is_delete
  is_delete-none (inl h) = none_or (one_mod t.compare) _ h
  is_delete-none (inr (inl h)) = or_none (one_mod t.compare) _ (λ c. when-false _ _ h)
  is_delete-none (inr (inr h)) =
      or_none (one_mod t.compare) _ (λ c. when-none (one_range t.failure) _ (no_delete h c))

  is_update-none :
      (one_mod t.compare ≡ none) ⊎ (one_range t.failure ≡ false) ⊎ (one_put t.success ≡ none)
      → is_update t ≡ none
  unfolding is_update
  is_update-none (inl h) = none_or (one_mod t.compare) _ h
  is_update-none (inr (inl h)) = or_none (one_mod t.compare) _ (λ c. when-false _ _ h)
  is_update-none (inr (inr h)) =
      or_none (one_mod t.compare) _ (λ c. when-none (one_range t.failure) _ (rw h refl))

  is_compact-false : one_version t.compare ≡ none → is_compact t ≡ false
  unfolding is_compact
  is_compact-false h = or_false (one_version t.compare) _ h

  -- Every transaction has at most one of the four shapes.
  pub txn-Shape : Shape t
  txn-Shape = elim (one_target t.compare) [
    | inl h ↦ compacts (is_create-none (inl h)) (is_delete-none (inl h)) (is_update-none (inl h))
    | inr v ↦ elim (one_failure t.failure) [
      | inl f ↦
          creates (is_delete-none (inr (inl f))) (is_update-none (inr (inl f))) (is_compact-false v)
      | inr f ↦ elim (one_op t.success) [
        | inl p ↦
            deletes (is_create-none (inr f)) (is_update-none (inr (inr p))) (is_compact-false v)
        | inr e ↦
            updates (is_create-none (inr f)) (is_delete-none (inr (inr e))) (is_compact-false v)
      ]
    ]
  ]
