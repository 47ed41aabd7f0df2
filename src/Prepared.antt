-- ===== src/Prepared.antt =====
-- The cache of prepared statements (pkg/kine/prepared/db.go, tx.go). database/sql is a parameter. A call is one
-- step: `prepare` looks the query up again under the lock that its last part holds.
pub mod Again
use k8s_dqlite.Prelude.{
  ℕ, Bool, true, false, Option, none, some, List, [], ◌∷◌, ◌++◌, if◌then◌else◌,
}
use k8s_dqlite.Bytes.{Bytes, same}
use k8s_dqlite.Results.{Error, Result, ok, err, message}

-- What the cache calls of sql.DB, sql.Stmt and sql.Tx, with statements of type `T`, arguments of type `A`, what an
-- execution gives of type `R`, and transactions of type `X`.
pub record Sql (S T A R X : Type 0) : Type 0 where
  pub prepare_context : Bytes → S → Result T × S
  pub exec_stmt : T → A → S → Result R × S
  pub query_stmt : T → A → S → Result R × S
  pub close_stmt : T → S → Result (Unit {0}) × S
  pub close_db : S → Result (Unit {0}) × S
  pub begin_tx : S → Result X × S
  pub stmt_context : X → T → T
  pub commit : X → S → Result (Unit {0}) × S
  pub rollback : X → S → Result (Unit {0}) × S

-- DB: whether the database is there, and the statements by their queries. A closed DB has neither; a nil map reads
-- like an empty one.
pub record Db (T : Type 0) : Type 0 where
  pub underlying : Bool
  pub store : List (Bytes × T)

module _ {T : Type 0} where
  unfoldable pub lookup : Bytes → List (Bytes × T) → Option T
  unfolding same
  lookup query [] = none
  lookup query ((q, stmt) ∷ store) =
      let rest = lookup query store in if same query q then some stmt else rest

  abbrev pub new : Db T
  new = record { underlying = true; store = [] }

module _ {S T A R X : Type 0} (sql : Sql S T A R X) where
  abbrev pub stored : Bytes → Db T → Result T × S → Result T × (Db T × S)
  stored query db (ok stmt, s) = (ok stmt, (record db { store = (query, stmt) ∷ db.store }, s))
  stored query db (err e, s) = (err e, (db, s))

  -- What follows under the write lock, where the query was not found.
  abbrev pub prepare_missing : Bytes → Bool → Db T × S → Result T × (Db T × S)
  prepare_missing query false (db, s) = (err (message "database is closed"), (db, s))
  prepare_missing query true (db, s) = stored query db (sql.prepare_context query s)

  abbrev pub prepare_over : Bytes → Option T → Db T × S → Result T × (Db T × S)
  prepare_over query (some stmt) (db, s) = (ok stmt, (db, s))
  prepare_over query none (db, s) = prepare_missing query db.underlying (db, s)

  unfoldable pub prepare : Bytes → Db T × S → Result T × (Db T × S)
  unfolding lookup
  prepare query (db, s) = prepare_over query (lookup query db.store) (db, s)

  abbrev pub with_stmt : Result T × (Db T × S) → (T → S → Result R × S) → Result R × (Db T × S)
  with_stmt (ok stmt, (db, s)) run = let (r, s') = run stmt s in (r, (db, s'))
  with_stmt (err e, (db, s)) run = (err e, (db, s))

  unfoldable pub exec_context : Bytes → A → Db T × S → Result R × (Db T × S)
  unfolding prepare
  exec_context query args st = with_stmt (prepare query st) (λ stmt. sql.exec_stmt stmt args)

  unfoldable pub query_context : Bytes → A → Db T × S → Result R × (Db T × S)
  unfolding prepare
  query_context query args st = with_stmt (prepare query st) (λ stmt. sql.query_stmt stmt args)

  -- A transaction's statements come from the cache of the database, and from outside the transaction.
  unfoldable pub tx_exec_context : X → Bytes → A → Db T × S → Result R × (Db T × S)
  unfolding prepare
  tx_exec_context tx query args st =
      with_stmt (prepare query st) (λ stmt. sql.exec_stmt (sql.stmt_context tx stmt) args)

  unfoldable pub tx_query_context : X → Bytes → A → Db T × S → Result R × (Db T × S)
  unfolding prepare
  tx_query_context tx query args st =
      with_stmt (prepare query st) (λ stmt. sql.query_stmt (sql.stmt_context tx stmt) args)

  abbrev pub begun : Result X × S → Db T → Result X × (Db T × S)
  begun (r, s) db = (r, (db, s))

  -- BeginTx; `none` where the database is closed, and the call panics.
  unfoldable pub begin_tx : Db T × S → Option (Result X) × (Db T × S)
  begin_tx (db, s) =
      if db.underlying
      then (let (r, s') = sql.begin_tx s in (some r, (db, s')))
      else (none, (db, s))

  abbrev pub more : Result (Unit {0}) → List Error → List Error
  more (ok u) errs = errs
  more (err e) errs = e ∷ errs

  abbrev pub close_all : List (Bytes × T) → S → List Error × S
  close_all [] s = ([], s)
  close_all ((query, stmt) ∷ store) s =
      let (r, s1) = sql.close_stmt stmt s in
      let (errs, s2) = close_all store s1 in (more r errs, s2)

  -- Close: the errors that it joins; `none` where the database was closed before, and the call panics.
  unfoldable pub close : Db T × S → Option (List Error) × (Db T × S)
  close (db, s) =
      let (errs, s1) = close_all db.store s in
      if db.underlying
      then (let (r, s2) = sql.close_db s1 in
          (some (errs ++ more r []), (record { underlying = false; store = [] }, s2)))
      else (none, (record { underlying = false; store = [] }, s1))
