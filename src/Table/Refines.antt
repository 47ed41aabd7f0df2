-- ===== src/Table/Refines.antt =====
-- The statements of pkg/kine/drivers/generic/generic.go and the operations of the abstract store.
use k8s_dqlite.Prelude.{
  ℕ, suc, max, ◌≡◌, refl, ap, ◌∙◌, ◌≢◌, ◌⊎◌, inl, inr, true, false, Option, none, some, arith, ◌==◌,
  ==_iff, if◌then◌else◌, Bool-cases, subst,
}
use k8s_dqlite.Bytes.{Bytes, same}
use k8s_dqlite.Bytes.Order.{same→eq, same_refl}
use k8s_dqlite.Results.{Result, ok}
use k8s_dqlite.Spec
use k8s_dqlite.Spec.{Entry, Store}
use k8s_dqlite.Table.{
  Blob, Row, Table, compact_rev_key, origin, latest, create_sql, update_sql, delete_sql,
  created_row, updated_row, deleted_row, create_over, update_over, delete_over,
}
use k8s_dqlite.Table.Invariant.{IsLog}
use k8s_dqlite.Table.Latest.{latest-some, latest-place_self, latest-place_ne}
use k8s_dqlite.Table.Append.{added}
use k8s_dqlite.Table.Cas.{create_first, create_again, update_next, delete_next}

-- What a row says of its key: nothing where it is a tombstone.
abbrev pub entry : Row → Option Entry
entry r =
    if r.deleted
    then none
    else some (record {
      create_revision = origin r;
      mod_revision = r.id;
      lease = r.lease;
      value = r.value;
    })

abbrev pub entry_of : Option Row → Option Entry
entry_of none = none
entry_of (some r) = entry r

unfoldable pub abstract_store : Table → Store
abstract_store t = record { revision = t.seq; entries = λ k. entry_of (latest k t.rows) }

-- A statement and an operation agree: the same answer, and the same store after it.
abbrev pub Refines : ℕ → Result (Option ℕ) × Table → Option ℕ × Store → Type 0
Refines c out spec = (out.0 ≡ ok spec.0) × (abstract_store out.1 ≡ spec.1) × IsLog c out.1

module _ {c : ℕ} {t : Table} (l : IsLog c t) where
  abstract_added :
      (r : Row)
      → r.id ≡ suc t.seq
      → abstract_store (added r t) ≡ Spec.put r.name (entry r) (abstract_store t)
  unfolding abstract_store
  abstract_added r new =
      λ i. record { revision = counter i; entries = λ k. at k (Bool-cases (same k r.name)) i }
    where
      counter : max t.seq r.id ≡ suc t.seq
      counter = omega arith

      at :
          (k : Bytes)
          → (same k r.name ≡ true) ⊎ (same k r.name ≡ false)
          → entry_of (latest k (added r t).rows)
            ≡ (if same k r.name then entry r else entry_of (latest k t.rows))
      at k (inl h) =
          rw
            (
              h,
              same→eq k r.name h,
              latest-place_self r t.rows (λ a i n. omega (arith, l.id_le_seq a i)),
            )
            refl
      at k (inr h) =
          rw
            (
              h,
              latest-place_ne k r t.rows
                  (λ e. cc (h, same_refl r.name, ap (λ (x : Bytes). same x r.name) e)),
            )
            refl

  Refines-insert :
      (r : Row) (out : Result (Option ℕ) × Table)
      → r.id ≡ suc t.seq
      → (out ≡ (ok (some (suc t.seq)), added r t)) × IsLog c out.1
      → Refines c out (some (suc t.seq), Spec.put r.name (entry r) (abstract_store t))
  Refines-insert r out new (q, k) = (
    ap (λ (o : Result (Option ℕ) × Table). o.0) q,
    ap (λ (o : Result (Option ℕ) × Table). abstract_store o.1) q ∙ abstract_added r new,
    k,
  )

  Refines-nothing :
      (out : Result (Option ℕ) × Table)
      → out ≡ (ok none, t)
      → Refines c out (none, abstract_store t)
  Refines-nothing out q = (
    ap (λ (o : Result (Option ℕ) × Table). o.0) q,
    ap (λ (o : Result (Option ℕ) × Table). abstract_store o.1) q,
    rw q l,
  )

  module _ (key : Bytes) (ttl : ℕ) (value : Blob) (user : key ≢ compact_rev_key) where
    create_cases :
        (o : Option Row)
        → latest key t.rows ≡ o
        → Refines c
            (create_sql key ttl value t)
            (Spec.create_over (entry_of o) key ttl value (abstract_store t))
    unfolding abstract_store
    create_cases none e =
        Refines-insert (created_row key ttl value 0 t) _ refl
          (create_first l key ttl value e (λ q. absurd (user q)))
    create_cases (some s) e = elim (Bool-cases s.deleted) [
      | inl d ↦ rw d (
          Refines-insert (created_row key ttl value s.id t) _ refl
            (create_again l key ttl value s e d user))
      | inr d ↦ rw d (
          Refines-nothing (create_sql key ttl value t)
            (unfold create_sql in (ap (λ o. create_over o key ttl value t) e ∙ rw d)))
    ]

    -- CreateSQL is the create of the store: it never fails, and it keeps the log.
    pub create_sql-Refines :
        Refines c (create_sql key ttl value t) (Spec.create key ttl value (abstract_store t))
    unfolding Spec.create abstract_store
    create_sql-Refines = create_cases (latest key t.rows) refl

    update_cases :
        (prev : ℕ) (o : Option Row)
        → latest key t.rows ≡ o
        → Refines c
            (update_sql key ttl value prev t)
            (Spec.update_over (entry_of o) key ttl value prev (abstract_store t))
    unfolding abstract_store
    update_cases prev none e =
        Refines-nothing (update_sql key ttl value prev t)
          (unfold update_sql in (ap (λ o. update_over o key ttl value prev t) e))
    update_cases prev (some s) e = elim (Bool-cases s.deleted) [
      | inl d ↦ rw d (
          Refines-nothing (update_sql key ttl value prev t)
            (unfold update_sql in (ap (λ o. update_over o key ttl value prev t) e ∙ rw d)))
      | inr d ↦ elim (Bool-cases (s.id == prev)) [
        | inl q ↦
            rw (d, q)
              (subst
                (λ (p : ℕ). Refines c (update_sql key ttl value p t) (
                  some (suc t.seq),
                  Spec.put key (entry (updated_row key ttl value s t)) (abstract_store t),
                ))
                ((==_iff s.id prev).0 q)
                (Refines-insert (updated_row key ttl value s t) _ refl
                  (update_next l key ttl value s e d user)))
        | inr q ↦
            rw (d, q)
              (Refines-nothing (update_sql key ttl value prev t)
                (unfold update_sql in (ap (λ o. update_over o key ttl value prev t) e ∙ rw (d, q))))
      ]
    ]

    -- UpdateSQL is the compare-and-swap of the store.
    pub update_sql-Refines :
        (prev : ℕ)
        → Refines c
            (update_sql key ttl value prev t)
            (Spec.update key ttl value prev (abstract_store t))
    unfolding Spec.update abstract_store
    update_sql-Refines prev = update_cases prev (latest key t.rows) refl

  module _ (key : Bytes) (user : key ≢ compact_rev_key) where
    delete_hit :
        (s : Row)
        → latest key t.rows ≡ some s
        → s.deleted ≡ false
        → Refines c (delete_sql key s.id t) (some (suc t.seq), Spec.put key none (abstract_store t))
    delete_hit s e d =
        subst
          (λ (n : Bytes).
            Refines c (delete_sql key s.id t)
              (some (suc t.seq), Spec.put n none (abstract_store t)))
          ((latest-some key t.rows s e).name)
          (Refines-insert (deleted_row s t) _ refl (delete_next l key 0 none s e d user))

    delete_cases :
        (prev : ℕ) (o : Option Row)
        → latest key t.rows ≡ o
        → Refines c
            (delete_sql key prev t)
            (Spec.delete_over (entry_of o) key prev (abstract_store t))
    unfolding abstract_store
    delete_cases prev none e =
        Refines-nothing (delete_sql key prev t)
          (unfold delete_sql in (ap (λ o. delete_over o prev t) e))
    delete_cases prev (some s) e = elim (Bool-cases s.deleted) [
      | inl d ↦ rw d (
          Refines-nothing (delete_sql key prev t)
            (unfold delete_sql in (ap (λ o. delete_over o prev t) e ∙ rw d)))
      | inr d ↦ elim (Bool-cases (s.id == prev)) [
        | inl q ↦
            rw (d, q)
              (subst
                (λ (p : ℕ).
                  Refines c (delete_sql key p t)
                    (some (suc t.seq), Spec.put key none (abstract_store t)))
                ((==_iff s.id prev).0 q) (delete_hit s e d))
        | inr q ↦
            rw (d, q)
              (Refines-nothing (delete_sql key prev t)
                (unfold delete_sql in (ap (λ o. delete_over o prev t) e ∙ rw (d, q))))
      ]
    ]

    -- DeleteSQL is the compare-and-delete of the store.
    pub delete_sql-Refines :
        (prev : ℕ) → Refines c (delete_sql key prev t) (Spec.delete key prev (abstract_store t))
    unfolding Spec.delete abstract_store
    delete_sql-Refines prev = delete_cases prev (latest key t.rows) refl
