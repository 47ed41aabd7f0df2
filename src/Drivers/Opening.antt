-- ===== src/Drivers/Opening.antt =====
-- Opening a database (`Open`, `openAndTest`, `configureConnectionPooling` and `q` of
-- pkg/kine/drivers/generic/generic.go, `NewVariant` of pkg/kine/drivers/sqlite/sqlite.go). The connection that
-- database/sql gives, and the file system, are parameters.
use k8s_dqlite.Prelude.{
  ℕ, zero, suc, Bool, true, false, ◌&&◌, not, Option, none, some, [], ◌∷◌, ◌++◌, ◌==◌,
  if◌then◌else◌,
}
use k8s_dqlite.Bytes.{Bytes, codes, same}
use k8s_dqlite.Results.{Error, Result, ok, err, message, key_exists, unique_constraint, fault}
use k8s_dqlite.Table.{Table}
use k8s_dqlite.Generic.{Config}
use k8s_dqlite.Drivers.Options.{Texts, Opts, parse_opts}
use k8s_dqlite.Drivers.Setup.{Database, setup_within, retry_attempts}

-- A Go int.
pub data ℤ : Type 0 where
  pos : ℕ → ℤ
  negsuc : ℕ → ℤ

pub record ConnectionPoolConfig : Type 0 where
  pub max_idle : ℤ
  pub max_open : ℤ
  pub max_lifetime : ℕ
  pub max_idle_time : ℕ

abbrev pub default_max_idle_conns : ℕ
default_max_idle_conns = 2

abbrev pub idle_conns : ℤ → ℕ
idle_conns (negsuc n) = 0
idle_conns (pos zero) = default_max_idle_conns
idle_conns (pos (suc n)) = suc n

-- The settings that the connection gets.
unfoldable pub configure_connection_pooling : ConnectionPoolConfig → ConnectionPoolConfig
configure_connection_pooling config = record config { max_idle = pos (idle_conns config.max_idle) }

-- The parameters of a statement, numbered from `n + 1` on or not; `itoa` is strconv.Itoa.
abbrev pub place : (ℕ → Bytes) → Bytes → Bool → ℕ → Bytes
place itoa param true n = param ++ itoa (suc n)
place itoa param false n = param

abbrev pub with_params : (ℕ → Bytes) → Bytes → Bool → ℕ → Bytes → Bytes
with_params itoa param numbered n [] = []
with_params itoa param numbered n (x ∷ xs) =
    let same_place = with_params itoa param numbered n xs in
    let next_place = with_params itoa param numbered (suc n) xs in
    if x == b'?' then place itoa param numbered n ++ next_place else x ∷ same_place

unfoldable pub q : (ℕ → Bytes) → Bytes → Bytes → Bool → Bytes
unfolding same
q itoa sql param numbered =
    if same param (codes "?") && not numbered then sql else with_params itoa param numbered 0 sql

-- What opening calls: sql.Open, Ping and Close of what it gave, and os.MkdirAll of ./db. `over` tells the waits, by the tries that are left, at
-- which the context is done, and `ended` is its error.
pub record Connects (S : Type 0) : Type 0 where
  pub open_db : Bytes → Bytes → S → Result (Unit {0}) × S
  pub ping : S → Result (Unit {0}) × S
  pub close : S → S
  pub make_dir : S → Result (Unit {0}) × S
  pub over : ℕ → Bool
  pub ended : Error

module _ {S : Type 0} (c : Connects S) where
  abbrev pub next : {A B : Type 0} → Result A → (A → S → Result B × S) → S → Result B × S
  next (ok a) k s = k a s
  next (err e) k s = (err e, s)

  abbrev pub pinged : Result (Unit {0}) → (S → Result (Unit {0}) × S) → S → Result (Unit {0}) × S
  pinged (ok u) rest s = rest s
  pinged (err e) rest s = (err e, c.close s)

  abbrev pub pings : ℕ → S → Result (Unit {0}) × S
  pings zero s = (ok tt, s)
  pings (suc n) s = let (r, s') = c.ping s in pinged r (pings n) s'

  unfoldable pub open_and_test : Bytes → Bytes → S → Result (Unit {0}) × S
  open_and_test driver dsn s = let (r, s') = c.open_db driver dsn s in next r (λ u. pings 3) s'

  abbrev pub tried : ℕ → Result (Unit {0}) → (S → Result Bool × S) → S → Result Bool × S
  tried n (ok u) rest s = (ok true, s)
  tried n (err e) rest s = if c.over n then (err c.ended, s) else rest s

  -- The loop of Open: whether there is a connection when it is over. Without one, the connection is nil.
  unfoldable pub open_within : Bytes → Bytes → ℕ → S → Result Bool × S
  unfolding open_and_test
  open_within driver dsn zero s = (ok false, s)
  open_within driver dsn (suc n) s =
      let (r, s') = open_and_test driver dsn s in tried n r (open_within driver dsn n) s'

  -- Open; `ok none` where the settings of the pool are set on a nil connection, and the call panics.
  unfoldable pub open_generic :
      Bytes → Bytes → ConnectionPoolConfig → S → Result (Option ConnectionPoolConfig) × S
  unfolding open_within configure_connection_pooling
  open_generic driver dsn pool s =
      let (r, s') = open_within driver dsn 300 s in
      next r
        (λ connected s.
          (ok (if connected then some (configure_connection_pooling pool) else none), s))
        s'

-- sqlite3.ErrBusy, a `fault` by its code.
abbrev pub busy_code : ℕ
busy_code = 5

unfoldable pub retry_busy : Error → Bool
retry_busy (fault code) = code == busy_code
retry_busy _ = false

unfoldable pub translate_unique : Error → Error
translate_unique unique_constraint = key_exists
translate_unique e = e

abbrev pub default_dsn : Bytes
default_dsn = codes "./db/state.db?_journal=WAL&_synchronous=FULL&_foreign_keys=1"

abbrev pub chosen : Bytes → Result Bytes
chosen [] = err (message "required option 'driver-name' not set in connection string")
chosen (x ∷ xs) = ok (x ∷ xs)

-- The name that is given, or else the one of the options.
abbrev pub driver_of : Bytes → Opts → Result Bytes
driver_of [] opts = chosen opts.driver_name
driver_of (x ∷ xs) opts = ok (x ∷ xs)

-- What NewVariant sets on the dialect; `size` is what GetSizeSQL answers.
unfoldable pub config_of : (Table → ℕ) → Bytes → Opts → Config
unfolding same retry_busy translate_unique
config_of size driver opts = record {
  retry = if same driver (codes "sqlite3") then some retry_busy else none;
  translate_err = some translate_unique;
  size = some size;
  compact_interval = opts.compact_interval;
  poll_interval = opts.poll_interval;
  watch_query_timeout = opts.watch_query_timeout;
}

module _ {S : Type 0} (c : Connects S) (t : Texts) (size : Table → ℕ) where
  -- The directory ./db is made where the connection string is empty.
  abbrev pub dsn_made : Bytes → S → Result Bytes × S
  dsn_made [] s = let (r, s') = c.make_dir s in next c r (λ u s. (ok default_dsn, s)) s'
  dsn_made (x ∷ xs) s = (ok (x ∷ xs), s)

  -- The setup's tries, on the database that was opened; `ok none` where the opening panics.
  abbrev pub set_up :
      Config → Option ConnectionPoolConfig → S × Database → Result (Option Config) × (S × Database)
  unfolding setup_within
  set_up config none (s, db) = (ok none, (s, db))
  set_up config (some pool) (s, db) =
      let (r, db') = setup_within c.over c.ended retry_attempts db in
      (elim r [ ok u ↦ ok (some config) | err e ↦ err e ], (s, db'))

  abbrev pub lifted :
      {A B : Type 0}
      → Result A × S
      → (A → S × Database → Result B × (S × Database))
      → Database
      → Result B × (S × Database)
  lifted (ok a, s) k db = k a (s, db)
  lifted (err e, s) k db = (err e, (s, db))

  unfoldable pub new_variant :
      Bytes → Bytes → ConnectionPoolConfig → S × Database → Result (Option Config) × (S × Database)
  unfolding parse_opts open_generic setup_within config_of
  new_variant driver_name data_source_name pool (s, db) =
      lifted (parse_opts t data_source_name, s)
        (λ opts (s, db).
          lifted (driver_of driver_name opts, s)
            (λ driver (s, db).
              lifted (dsn_made opts.dsn s)
                (λ dsn (s, db).
                  lifted (open_generic c driver dsn pool s)
                    (λ opened (s, db). set_up (config_of size driver opts) opened (s, db)) db)
                db)
            db)
        db
