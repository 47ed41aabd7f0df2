-- ===== src/Drivers/Setup/Outcomes.antt =====
-- How the setup of the database ends (`setup` of pkg/kine/drivers/sqlite/sqlite.go).
use k8s_dqlite.Prelude.{
  ℕ, ◌<◌, ◌^◌, ◌≡◌, refl, sym, ap, ◌∙◌, ◌⊎◌, inl, inr, Bool, true, false, none, some, ◌==◌,
  if◌then◌else◌, arith, String, subst,
}
use k8s_dqlite.Results.{Result, ok, err, message}
use k8s_dqlite.Drivers.Schema.{
  new_schema_version, major, compatible_with, database_schema_version, at_least,
}
use k8s_dqlite.Drivers.Setup.{
  name_id, prev_revision_name, Schema, Database, Work, after, call, exec, has_table, user_version,
  table_or_drops, create_table, drop_name_index, drop_revision_index, create_name_index,
  create_revision_index, set_user_version, apply_schema_v0_1, migrate_from, migrate_in_transaction,
  checked, stop, nothing, migrate, setup, rollback, why,
}
use k8s_dqlite.Drivers.Setup.Calls.{
  Ensures, call-Ensures, weaken, after-Ensures, exec-Ensures, Restores, call-Restores,
  after-Restores,
}

-- The schema that the program is written for.
abbrev pub sound_schema : ℕ → Schema
sound_schema version = record {
  user_version = version;
  kine_table = true;
  name_index = some (record { unique = false; columns = name_id });
  revision_index = some (record { unique = true; columns = prev_revision_name });
}

-- Without the table there is no index of it.
abbrev pub Whole : Schema → Type 0
Whole s = s.kine_table ≡ false → (s.name_index ≡ none) × (s.revision_index ≡ none)

-- A table without these two indexes.
abbrev Bare : ℕ → Schema → Type 0
Bare version s =
    s
    ≡ record { user_version = version; kine_table = true; name_index = none; revision_index = none }

module _ (s : Schema) (whole : Whole s) where
  abbrev IsBare : Unit {0} → Schema → Type 0
  IsBare u s' = Bare s.user_version s'

  table-Bare :
      (b : Bool)
      → s.kine_table ≡ b
      → (db : Database) → db.schema ≡ s
      → Ensures IsBare (table_or_drops b db)
  unfolding table_or_drops exec
  table-Bare false n db e =
      weaken (exec create_table db) (λ u s' h. h ∙ bare_created) (exec-Ensures create_table db s e)
    where
      bare_created : Bare s.user_version (create_table s)
      bare_created =
          let (p, q) = whole n in
          λ i. record {
            user_version = s.user_version;
            kine_table = true;
            name_index = p i;
            revision_index = q i;
          }
  table-Bare true n db e =
      after-Ensures (λ (u : Unit {0}) s'. s' ≡ drop_name_index s) IsBare (exec drop_name_index)
        (λ u. exec drop_revision_index) db (exec-Ensures drop_name_index db s e)
        λ u db' h.
          weaken (exec drop_revision_index db') (λ u s' k. k ∙ bare_dropped)
            (exec-Ensures drop_revision_index db' (drop_name_index s) h)
    where
      bare_dropped : Bare s.user_version (drop_revision_index (drop_name_index s))
      bare_dropped = λ i. record {
        user_version = s.user_version;
        kine_table = n i;
        name_index = none;
        revision_index = none;
      }

  IsSound : Unit {0} → Schema → Type 0
  IsSound u s' = s' ≡ sound_schema s.user_version

  apply-Sound :
      (db : Database)
      → db.schema ≡ s
      → Ensures (λ (u : Unit {0}) s'. s' ≡ sound_schema s.user_version) (apply_schema_v0_1 db)
  unfolding apply_schema_v0_1 has_table exec
  apply-Sound db e =
      let bare : Schema = record {
        user_version = s.user_version;
        kine_table = true;
        name_index = none;
        revision_index = none;
      } in
      after-Ensures _ _ has_table _ db (call-Ensures (λ schema. (schema.kine_table, schema)) db)
        λ exists db1 h.
          after-Ensures IsBare _ (table_or_drops exists) _ db1
            (table-Bare exists (sym (h.0 ∙ ap (λ (x : Schema). x.kine_table) e)) db1 (h.1 ∙ e))
            λ u db2 k.
              after-Ensures _ _ (exec create_name_index) (λ u. exec create_revision_index) db2
                (exec-Ensures create_name_index db2 bare k)
                λ u db3 j. exec-Ensures create_revision_index db3 (create_name_index bare) j

dsv : database_schema_version ≡ 1
unfolding new_schema_version
dsv = refl

-- A version of the same major number that is older is 0.
older_zero :
    (v : ℕ)
    → v < 2 ^ 32
    → (major v == major database_schema_version) ≡ true
    → at_least v database_schema_version ≡ false
    → v ≡ 0
unfolding major new_schema_version
older_zero v p h k = ground (arith, p, h, k)

module _ (s : Schema) (whole : Whole s) (fits : s.user_version < 2 ^ 32) where
  -- The schema was made as it is wanted, or the version says that it is there already.
  abbrev pub IsSetUp : Unit {0} → Schema → Type 0
  IsSetUp u s' =
      ((s' ≡ sound_schema database_schema_version) × (s.user_version ≡ 0))
      ⊎ ((s' ≡ s) × (at_least s.user_version database_schema_version ≡ true))

  checked-IsSetUp :
      (version : ℕ) (rest : Work (Unit {0})) (db : Database)
      → version ≡ s.user_version
      → db.schema ≡ s
      → (version ≡ 0 → Ensures IsSetUp (rest db))
      → Ensures IsSetUp (checked version rest db)
  unfolding compatible_with
  checked-IsSetUp version rest db v e h =
      by_flags (major version == major database_schema_version)
        (at_least version database_schema_version) refl refl
    where
      by_flags :
          (a b : Bool)
          → (major version == major database_schema_version) ≡ a
          → at_least version database_schema_version ≡ b
          → Ensures IsSetUp (
              stop
                (if a
                  then ok tt
                  else err (message "can not migrate between different major versions"))
                (if b then nothing else rest)
                db)
      by_flags false b p q = tt
      by_flags true true p q =
          inr (e, ap (λ (x : ℕ). at_least x database_schema_version) (sym v) ∙ q)
      by_flags true false p q =
          h (older_zero version (subst (λ (x : ℕ). x < 2 ^ 32) (sym v) fits) p q)

  from-IsSetUp :
      (version : ℕ) (db : Database)
      → version ≡ s.user_version
      → version ≡ 0
      → db.schema ≡ s
      → Ensures IsSetUp (migrate_from version db)
  unfolding migrate_from new_schema_version
  from-IsSetUp version db v z e = rw z (
      after-Ensures (λ (u : Unit {0}) s'. s' ≡ sound_schema s.user_version) IsSetUp
        apply_schema_v0_1 (λ u. exec set_user_version) db (apply-Sound s whole db e)
        λ u db' h.
          weaken (exec set_user_version db') (λ u s' k. inl (k, sym v ∙ z))
            (exec-Ensures set_user_version db' (sound_schema s.user_version) h))

  read_version :
      (db : Database)
      → db.schema ≡ s
      → Ensures (λ (v : ℕ) s'. (v ≡ s.user_version) × (s' ≡ s)) (user_version db)
  unfolding user_version
  read_version db e =
      weaken (call (λ schema. (schema.user_version, schema)) db)
        (λ v s' h. (h.0 ∙ ap (λ (x : Schema). x.user_version) e, h.1 ∙ e))
        (call-Ensures (λ schema. (schema.user_version, schema)) db)

  migrate-IsSetUp : (db : Database) → db.schema ≡ s → Ensures IsSetUp (migrate db)
  unfolding migrate
  migrate-IsSetUp db e =
      after-Ensures (λ (v : ℕ) s'. (v ≡ s.user_version) × (s' ≡ s)) IsSetUp user_version
        (λ version. checked version (migrate_from version)) db (read_version db e)
        λ version db' h.
          checked-IsSetUp version (migrate_from version) db' h.0 h.1
            (λ z. from-IsSetUp version db' h.0 z h.1)

  why-Ensures :
      (text : String) (out : Result (Unit {0}) × Database)
      → Ensures IsSetUp out
      → Ensures IsSetUp (why text out)
  why-Ensures text (ok u, db) h = h
  why-Ensures text (err e, db) h = tt

  rollback-Ensures :
      (before : Schema) (out : Result (Unit {0}) × Database)
      → Ensures IsSetUp out
      → Ensures IsSetUp (rollback before out)
  rollback-Ensures before (ok u, db) h = h
  rollback-Ensures before (err e, db) h = tt

  transaction-IsSetUp :
      (db : Database) → db.schema ≡ s → Ensures IsSetUp (migrate_in_transaction db)
  unfolding migrate_in_transaction
  transaction-IsSetUp db e =
      after-Ensures (λ (u : Unit {0}) s'. s' ≡ s) IsSetUp (exec (λ schema. schema)) _ db
        (exec-Ensures (λ schema. schema) db s e)
        λ u db' h.
          rollback-Ensures db'.schema
            (after (λ db. why "migration failed" (migrate db)) (λ u. exec (λ schema. schema)) db')
            (after-Ensures IsSetUp IsSetUp (λ db. why "migration failed" (migrate db))
              (λ u. exec (λ schema. schema)) db'
              (why-Ensures "migration failed" (migrate db') (migrate-IsSetUp db' h))
              λ u db'' k.
                weaken (exec (λ schema. schema) db'')
                  (λ u s' j. subst (λ (x : Schema). IsSetUp tt x) (sym j) k)
                  (exec-Ensures (λ schema. schema) db'' db''.schema refl))

  setup-IsSetUp : (db : Database) → db.schema ≡ s → Ensures IsSetUp (setup db)
  unfolding setup
  setup-IsSetUp db e =
      after-Ensures (λ (v : ℕ) s'. (v ≡ s.user_version) × (s' ≡ s)) IsSetUp user_version
        (λ version. checked version migrate_in_transaction) db (read_version db e)
        λ version db' h.
          checked-IsSetUp version migrate_in_transaction db' h.0 h.1
            (λ z. transaction-IsSetUp db' h.1)

module _ (s : Schema) where
  rollback-Restores :
      (before : Schema)
      → before ≡ s
      → (out : Result (Unit {0}) × Database) → Restores s (rollback before out)
  rollback-Restores before e (ok u, db) = tt
  rollback-Restores before e (err x, db) = e

  checked-Restores :
      (version : ℕ) (rest : Work (Unit {0})) (db : Database)
      → db.schema ≡ s
      → Restores s (rest db)
      → Restores s (checked version rest db)
  unfolding compatible_with
  checked-Restores version rest db e h =
      by_flags (major version == major database_schema_version)
        (at_least version database_schema_version)
    where
      by_flags :
          (a b : Bool)
          → Restores s (
              stop
                (if a
                  then ok tt
                  else err (message "can not migrate between different major versions"))
                (if b then nothing else rest)
                db)
      by_flags false b = e
      by_flags true true = tt
      by_flags true false = h

  transaction-Restores : (db : Database) → db.schema ≡ s → Restores s (migrate_in_transaction db)
  unfolding migrate_in_transaction exec
  transaction-Restores db e =
      after-Restores s (λ (u : Unit {0}) s'. s' ≡ s) (exec (λ schema. schema)) _ db
        (call-Restores s (λ schema. (tt, schema)) db e) (exec-Ensures (λ schema. schema) db s e)
        λ u db' h. rollback-Restores db'.schema h _

-- Either the schema is set up, or the setup ends with an error and the schema is as it was.
abbrev pub Ends :
    (s : Schema) → Whole s → s.user_version < 2 ^ 32 → Result (Unit {0}) × Database → Type 0
Ends s whole fits (ok u, db) = IsSetUp s whole fits u db.schema
Ends s whole fits (err e, db) = db.schema ≡ s

both :
    (s : Schema) (whole : Whole s) (fits : s.user_version < 2 ^ 32)
    (out : Result (Unit {0}) × Database)
    → Ensures (IsSetUp s whole fits) out
    → Restores s out
    → Ends s whole fits out
both s whole fits (ok u, db) h r = h
both s whole fits (err e, db) h r = r

-- On a schema whose version has 32 bits, and that has no index without its table, and whatever the driver does: the setup ends with an error
-- and leaves the schema as it was, or the version was 0 and the schema is made exactly as the program wants
-- it, old indexes replaced, or the version is no older than the program's and nothing is changed.
pub setup-Ends :
    (db : Database) (whole : Whole db.schema) (fits : db.schema.user_version < 2 ^ 32)
    → Ends db.schema whole fits (setup db)
unfolding setup user_version
setup-Ends db whole fits =
    let s = db.schema in
    both s whole fits (setup db) (setup-IsSetUp s whole fits db refl) (
      after-Restores s (λ (v : ℕ) s'. (v ≡ s.user_version) × (s' ≡ s)) user_version
        (λ version. checked version migrate_in_transaction) db
        (call-Restores s (λ schema. (schema.user_version, schema)) db refl)
        (read_version s whole fits db refl)
        (λ version db' h.
          checked-Restores s version migrate_in_transaction db' h.1
            (transaction-Restores s db' h.1)))
