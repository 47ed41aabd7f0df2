-- ===== src/Server/Replies.antt =====
-- How a transaction ends on the backend that the program uses (pkg/kine/server/update.go, delete.go): the
-- write, and the read of the key where the write was refused.
use k8s_dqlite.Prelude.{
  ℕ, ◌≡◌, refl, ap, ◌∙◌, inl, inr, Bool, true, false, Option, none, some, [], ◌∷◌, ◌==◌, Bool-cases,
}
use k8s_dqlite.Bytes.{Bytes}
use k8s_dqlite.Results.{Error, Result, ok, err}
use k8s_dqlite.Spec
use k8s_dqlite.Spec.{Store, Entry}
use k8s_dqlite.Table.{Blob}
use k8s_dqlite.Table.Invariant.{IsLog}
use k8s_dqlite.Table.Refines.{abstract_store}
use k8s_dqlite.Events.{KeyValue}
use k8s_dqlite.Exec.{Sys, M, continue, pure}
use k8s_dqlite.Generic.{Config}
use k8s_dqlite.Generic.Writes.{Writes}
use k8s_dqlite.Generic.Writes as W
use k8s_dqlite.Logstructured
use k8s_dqlite.Logstructured.Reads.{get-Keeps}
use k8s_dqlite.Server.Requests.{TxnResponse, response_range}
use k8s_dqlite.Server.Backends.{kine}
use k8s_dqlite.Server.Ranges.{found}
use k8s_dqlite.Server.Txns.{updated_or, deleted_or, refused}

-- A transaction with its answer: it failed, and the store is as it was, or it did what the operation of
-- the abstract store does, and says whether that took effect. The table is a log either way.
pub data Applies (c : ℕ) (s : Sys) (spec : Option ℕ × Store) (out : Result TxnResponse × Sys)
    : Type 0 where
  failed :
      (e : Error)
      → out.0 ≡ err e
      → abstract_store out.1.table ≡ abstract_store s.table
      → IsLog c out.1.table
      → Applies c s spec out
  answered :
      (response : TxnResponse)
      → out.0 ≡ ok response
      → response.succeeded ≡ Spec.took spec.0
      → abstract_store out.1.table ≡ spec.1
      → IsLog c out.1.table
      → Applies c s spec out

-- What the handler does after the write: it says yes, or reads the key and says no.
pub data Reply (b : Bool) (s : Sys) (out : Result TxnResponse × Sys) : Type 0 where
  yes : (response : TxnResponse) → out ≡ (ok response, s) → response.succeeded ≡ b → Reply b s out
  unread : (e : Error) → b ≡ false → out.0 ≡ err e → out.1.table ≡ s.table → Reply b s out
  shown :
      (response : TxnResponse)
      → out.0 ≡ ok response
      → response.succeeded ≡ b
      → out.1.table ≡ s.table
      → Reply b s out

-- An operation of the abstract store that has no effect changes nothing.
abbrev pub Idle : Store → Option ℕ × Store → Type 0
Idle store spec = spec.0 ≡ none → spec.1 ≡ store

module _ (c : ℕ) (s : Sys) (l : IsLog c s.table) (spec : Option ℕ × Store)
    (idle : Idle (abstract_store s.table) spec) (k : ℕ × Bool → M TxnResponse) where
  flag :
      (o : Option ℕ) (rev : ℕ) {b : Bool}
      → Result.ok (rev, b) ≡ ok (Spec.answer o)
      → b ≡ Spec.took o
  flag none rev p = cc (p)
  flag (some n) rev p = cc (p)

  idle_false : (o : Option ℕ) (rev : ℕ) → Result.ok (rev, false) ≡ ok (Spec.answer o) → o ≡ none
  idle_false none rev p = refl
  idle_false (some n) rev p = absurd (cc)

  replied :
      (rev : ℕ) (b : Bool) (s' : Sys)
      → Result.ok (rev, b) ≡ ok (Spec.answer spec.0)
      → abstract_store s'.table ≡ spec.1
      → IsLog c s'.table
      → (out : Result TxnResponse × Sys) → Reply b s' out
      → Applies c s spec out
  replied rev b s' p q m out (yes response e h) =
      answered response (ap (λ x. x.0) e) (h ∙ flag spec.0 rev p)
        (ap (λ x. abstract_store x.1.table) e ∙ q) (rw e m)
  replied rev b s' p q m out (shown response e h t) =
      answered response e (h ∙ flag spec.0 rev p) (ap abstract_store t ∙ q) (rw t m)
  replied rev b s' p q m out (unread e f g t) =
      failed e g (ap abstract_store t ∙ q ∙ idle (idle_false spec.0 rev (cc))) (rw t m)

  pub after_write :
      ((rev : ℕ) (b : Bool) (s' : Sys) → Reply b s' (k (rev, b) s'))
      → (r : Result (ℕ × Bool)) (s' : Sys) → Writes c s spec (r, s')
      → Applies c s spec (continue r k s')
  after_write h (ok (rev, b)) s' (W.wrote p q m) =
      replied rev b s' p q m (k (rev, b) s') (h rev b s')
  after_write h (ok (rev, b)) s' (W.refused e p q) = absurd (cc)
  after_write h (err e) s' (W.refused e' p q) = failed e refl (ap abstract_store q) (rw q l)
  after_write h (err e) s' (W.wrote p q m) = absurd (cc)

module _ (d : Config) where
  shown_or_not :
      (rev : ℕ) (r : Result (ℕ × Option KeyValue)) (s s' : Sys)
      → s'.table ≡ s.table
      → Reply false s (
          continue r
            (λ answer. pure (record {
              header = rev;
              succeeded = false;
              responses = response_range answer.0 (found answer.1) 0 ∷ [];
            }))
            s')
  shown_or_not rev (ok (at, kv)) s s' h = shown _ refl refl h
  shown_or_not rev (err e) s s' h = unread e refl refl h

  refused-Reply : (key : Bytes) (rev : ℕ) (s : Sys) → Reply false s (refused (kine d) key rev s)
  refused-Reply key rev s =
      let (r, s') = Logstructured.get d key [] 1 rev s in
      shown_or_not rev r s s' (get-Keeps d key [] 1 rev s)

  pub updated-Reply :
      (key : Bytes) (rev : ℕ) (b : Bool) (s : Sys) → Reply b s (updated_or (kine d) key (rev, b) s)
  updated-Reply key rev true s = yes _ refl refl
  updated-Reply key rev false s = refused-Reply key rev s

  pub deleted-Reply :
      (key : Bytes) (rev : ℕ) (b : Bool) (s : Sys) → Reply b s (deleted_or (kine d) key (rev, b) s)
  deleted-Reply key rev true s = yes _ refl refl
  deleted-Reply key rev false s = refused-Reply key rev s

pub create-Idle :
    (key : Bytes) (lease : ℕ) (value : Blob) (store : Store)
    → Idle store (Spec.create key lease value store)
unfolding Spec.create
create-Idle key lease value store = by_entry (store.entries key)
  where
    by_entry : (o : Option Entry) → Idle store (Spec.create_over o key lease value store)
    by_entry none h = absurd (cc)
    by_entry (some e) h = refl

pub update-Idle :
    (key : Bytes) (lease : ℕ) (value : Blob) (revision : ℕ) (store : Store)
    → Idle store (Spec.update key lease value revision store)
unfolding Spec.update
update-Idle key lease value revision store = by_entry (store.entries key)
  where
    by_entry : (o : Option Entry) → Idle store (Spec.update_over o key lease value revision store)
    by_entry none h = refl
    by_entry (some e) h = elim (Bool-cases (e.mod_revision == revision)) [
      | inl t ↦ absurd (let g = rw t at h in cc)
      | inr f ↦ rw f refl
    ]

pub delete-Idle :
    (key : Bytes) (revision : ℕ) (store : Store) → Idle store (Spec.delete key revision store)
unfolding Spec.delete
delete-Idle key revision store = by_entry (store.entries key)
  where
    by_entry : (o : Option Entry) → Idle store (Spec.delete_over o key revision store)
    by_entry none h = refl
    by_entry (some e) h = elim (Bool-cases (e.mod_revision == revision)) [
      | inl t ↦ absurd (let g = rw t at h in cc)
      | inr f ↦ rw f refl
    ]
