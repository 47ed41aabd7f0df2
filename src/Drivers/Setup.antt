-- ===== src/Drivers/Setup.antt =====
-- The setup of the database (`setup`, `migrate` of pkg/kine/drivers/sqlite/sqlite.go, `applySchemaV0_1` and
-- `hasTable` of schema.go), and the loop that tries it.
pub mod Calls
pub mod Outcomes
use k8s_dqlite.Prelude.{
  ℕ, zero, suc, String, Bool, true, false, Option, none, some, List, [], ◌∷◌, ◌==◌, if◌then◌else◌,
}
use k8s_dqlite.Results.{Error, Result, ok, err, message, caused}
use k8s_dqlite.Drivers.Schema.{
  new_schema_version, compatible_with, database_schema_version, at_least,
}

pub data Columns : Type 0 where
  name_id prev_revision_name other_columns : Columns

pub record Index : Type 0 where
  pub unique : Bool
  pub columns : Columns

-- What the setup sees of the database: the number that `PRAGMA user_version` reads, whether there is a table
-- kine, and the indexes kine_name_index and kine_name_prev_revision_uindex.
pub record Schema : Type 0 where
  pub user_version : ℕ
  pub kine_table : Bool
  pub name_index : Option Index
  pub revision_index : Option Index

-- `broken` holds, for the next calls of the driver in turn, the error that the call ends with, or `none`.
pub record Database : Type 0 where
  pub schema : Schema
  pub broken : List (Option Error)

abbrev pub Work : Type 0 → Type 0
Work A = Database → Result A × Database

abbrev pub next : {A B : Type 0} → Result A → (A → Work B) → Work B
next (ok a) f db = f a db
next (err e) f db = (err e, db)

abbrev pub after : {A B : Type 0} → Work A → (A → Work B) → Work B
after m f db = let (r, db') = m db in next r f db'

module _ {A : Type 0} where
  abbrev pub apply : (Schema → A × Schema) → List (Option Error) → Database → Result A × Database
  apply f rest db =
      let (a, schema) = f db.schema in (ok a, record { schema = schema; broken = rest })

  abbrev pub call_over : List (Option Error) → (Schema → A × Schema) → Work A
  call_over [] f db = apply f [] db
  call_over (none ∷ rest) f db = apply f rest db
  call_over (some e ∷ rest) f db = (err e, record db { broken = rest })

  -- One call of the driver.
  unfoldable pub call : (Schema → A × Schema) → Work A
  call f db = call_over db.broken f db

abbrev pub exec : (Schema → Schema) → Work (Unit {0})
unfolding call
exec f = call (λ schema. (tt, f schema))

abbrev pub if_not_exists : Option Index → Index → Option Index
if_not_exists none index = some index
if_not_exists (some old) index = some old

-- CREATE TABLE kine, where there is none.
abbrev pub create_table : Schema → Schema
create_table schema = record schema { kine_table = true }

-- DROP INDEX IF EXISTS
abbrev pub drop_name_index : Schema → Schema
drop_name_index schema = record schema { name_index = none }

abbrev pub drop_revision_index : Schema → Schema
drop_revision_index schema = record schema { revision_index = none }

-- CREATE INDEX IF NOT EXISTS kine_name_index ON kine (name, id)
abbrev pub create_name_index : Schema → Schema
create_name_index schema = record schema {
  name_index = if_not_exists schema.name_index (record { unique = false; columns = name_id });
}

-- CREATE UNIQUE INDEX IF NOT EXISTS kine_name_prev_revision_uindex ON kine (prev_revision, name)
abbrev pub create_revision_index : Schema → Schema
create_revision_index schema = record schema {
  revision_index =
      if_not_exists schema.revision_index (record { unique = true; columns = prev_revision_name });
}

abbrev pub set_user_version : Schema → Schema
set_user_version schema = record schema { user_version = database_schema_version }

unfoldable pub has_table : Work Bool
unfolding call
has_table = call (λ schema. (schema.kine_table, schema))

unfoldable pub user_version : Work ℕ
unfolding call
user_version = call (λ schema. (schema.user_version, schema))

abbrev pub table_or_drops : Bool → Work (Unit {0})
unfolding call
table_or_drops false = exec create_table
table_or_drops true = after (exec drop_name_index) λ u. exec drop_revision_index

unfoldable pub apply_schema_v0_1 : Work (Unit {0})
unfolding call has_table
apply_schema_v0_1 = after has_table λ exists.
    after (table_or_drops exists)
      λ u. after (exec create_name_index) λ u. exec create_revision_index

abbrev pub stop : Result (Unit {0}) → Work (Unit {0}) → Work (Unit {0})
stop (ok u) rest db = rest db
stop (err e) rest db = (err e, db)

abbrev pub nothing : Work (Unit {0})
nothing db = (ok tt, db)

-- The switch of `migrate`, on the version.
abbrev pub migrate_from : ℕ → Work (Unit {0})
unfolding call apply_schema_v0_1 new_schema_version
migrate_from version =
    if version == new_schema_version 0 0
    then after apply_schema_v0_1 (λ u. exec set_user_version)
    else nothing

-- The two tests of the version, before the work that an old one needs.
abbrev pub checked : ℕ → Work (Unit {0}) → Work (Unit {0})
unfolding compatible_with
checked version rest =
    stop (compatible_with version database_schema_version)
      (if at_least version database_schema_version then nothing else rest)

unfoldable pub migrate : Work (Unit {0})
unfolding user_version apply_schema_v0_1 call new_schema_version compatible_with
migrate = after user_version λ version. checked version (migrate_from version)

abbrev pub rollback : Schema → Result (Unit {0}) × Database → Result (Unit {0}) × Database
rollback before (ok u, db) = (ok u, db)
rollback before (err e, db) = (err e, record db { schema = before })

abbrev pub why : String → Result (Unit {0}) × Database → Result (Unit {0}) × Database
why text (ok u, db) = (ok u, db)
why text (err e, db) = (err (caused text e), db)

-- BeginTx, `migrate` and Commit, with the deferred Rollback.
abbrev pub migrate_in_transaction : Work (Unit {0})
unfolding migrate call
migrate_in_transaction = after (exec (λ schema. schema)) λ u db.
    rollback db.schema
      (after (λ db. why "migration failed" (migrate db)) (λ u. exec (λ schema. schema)) db)

unfoldable pub setup : Work (Unit {0})
unfolding user_version migrate compatible_with call
setup = after user_version λ version. checked version migrate_in_transaction

-- The loop of `NewVariant`, where the context is over at the waits that `stops` tells: the last error is not
-- returned when the tries are over.
abbrev pub tries_over : Bool → Error → Work (Unit {0}) → Database → Result (Unit {0}) × Database
tries_over true e rest db = (err e, db)
tries_over false e rest db = rest db

abbrev pub tried : Result (Unit {0}) → Bool → Error → Work (Unit {0}) → Work (Unit {0})
tried (ok u) stopped e rest db = (ok tt, db)
tried (err x) stopped e rest db = tries_over stopped e rest db

unfoldable pub setup_within : (ℕ → Bool) → Error → ℕ → Work (Unit {0})
unfolding setup
setup_within stops ended zero db = (ok tt, db)
setup_within stops ended (suc n) db =
    let (r, db') = setup db in tried r (stops n) ended (setup_within stops ended n) db'

abbrev pub retry_attempts : ℕ
retry_attempts = 300
