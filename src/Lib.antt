-- ===== src/Lib.antt =====
-- k8s-dqlite: a backend for the API server of Kubernetes that speaks the etcd API over SQLite or
-- dqlite. This library models the storage engine of the program, pkg/kine, against what the etcd API
-- promises.
--
-- The program's parts, from the bottom, and the files that model them:
--   * The table `kine` (pkg/kine/drivers/sqlite/schema.go) and the SQL statements of
--     pkg/kine/drivers/generic/generic.go: Table.antt and Table/Select.antt. Every statement is a function
--     of the table: the rows in the order of their ids, and the counter of AUTOINCREMENT. The primary key
--     and the unique index on (prev_revision, name) are checked where SQLite checks them. A bare column
--     beside MAX comes from the row of the maximum, names are compared byte by byte (the BINARY
--     collation), and a statement that fails has no effect: this is documented behaviour of SQLite.
--     Table/Invariant.antt says what holds of a table between two statements; its siblings prove it.
--   * Ranges of names (`getPrefixRange`): Bytes.antt and Bytes/Ranges.antt. A string is the list of its
--     bytes.
--   * State and failure: Exec.antt. An operation takes the table, the answers that the driver will give
--     instead of running a statement, and the content of the channel `notify`; it returns a value or an
--     error (Results.antt) and the new state. The driver's answers are arbitrary, so that a theorem about
--     all states holds for every sequence of failures. A COMMIT that fails is taken to roll back.
--   * The dialect, `Generic`: Generic.antt, a function per method. What the drivers set (`Retry`,
--     `TranslateErr`, the size query, the durations) is the record `Config`, a parameter.
--   * The log, `SQLLog` (pkg/kine/logstructured/sqllog/sql.go): Events.antt for the events that rows stand
--     for, Sqllog.antt for the methods, Sqllog/Poll.antt for the loop of `poll`, a round at a time, with
--     the clock and what ends the wait as arguments.
--   * The store, `LogStructured` (pkg/kine/logstructured/logstructured.go): Logstructured.antt and
--     Logstructured/Watch.antt; Logstructured/Ttl.antt for the leases.
--   * The server (pkg/kine/server): Server/Requests.antt for the requests, Server/Ranges.antt for `get` and
--     `list`, Server/Txns.antt for the transactions, Server/Bridge.antt for `KVServerBridge`,
--     Server/Watcher.antt for the watches of a stream. It calls the store through the record `Backend` of
--     Server/Backends.antt, which `kine` fills.
--   * The fan-out of events (pkg/kine/broadcaster/broadcaster.go): Broadcaster.antt.
--   * The drivers (pkg/kine/drivers/sqlite, dqlite, and the opening of generic.go): Drivers/Schema.antt for the
--     versions, Drivers/Setup.antt for the setup of the schema in its transaction, Drivers/Options.antt for the
--     connection string, Drivers/Opening.antt for `Open` and `NewVariant`, Drivers/Dqlite.antt for what dqlite
--     adds.
--   * The cache of prepared statements (pkg/kine/prepared): Prepared.antt.
--   * The endpoint (pkg/kine/endpoint): Endpoint.antt.
--   * The process (pkg/server): Process.antt for `New`, over the files of the storage directory,
--     Process/Params.antt for the connection string that it makes, Process/Disk.antt and
--     Process/Lifetime.antt for what runs afterwards.
--   * The client (pkg/kine/client): Client.antt, over the etcd library as the record `Etcd`. Client/Stores.antt
--     says what the API promises of it. Client/Served.antt puts the client in front of the server.
--   * The migrator (pkg/migrator, cmd/migrator.go): Migrator.antt, over a directory whose calls may fail.
--   * Spec.antt is the abstract store that all of this stands for: a revision and a map from keys to
--     entries, with create, update and delete as compare-and-swap. `abstract_store` of
--     Table/Refines.antt is the view of a table as such a store.
-- Tests.antt and its children run the model on concrete tables.
--
-- Bounds and fuel. Revisions, ids, leases and limits are natural numbers, where the source has int64 and
-- the values are not negative; the target of a compaction, which the source may take below 0, is 0 then,
-- and both make no round. The loop of `DoCompact` has its target as fuel (Sqllog/Batches.antt), and
-- `List`, which calls itself, has fuel for two calls (Logstructured/Relists.antt). The loop of a restore has
-- a number of rounds as fuel (Migrator/Files.antt). The retry loops run 500 and 300 times, as in the source.
-- The 16- and 32-bit numbers of a schema version are bit patterns; the size of the disk wraps at 64 bits.
--
-- Not modelled: goroutines, locks and contexts (an operation is one step, or a sequence of statements
-- whose interleavings are the steps of Table/Steps.antt; a loop on a ticker is a function of its ticks), the
-- errors of a query's rows after it was answered (a Scan of `scan`, an end of rows.Next by an error) and of
-- RowsAffected and LastInsertId after a write has had its effect, fills at or below the compact revision in
-- the steps of Table/Steps.antt, the timers of the leases, logging, metrics and tracing, the commands' flags
-- and profiling. Parameters of the model, since their code is not in the repository: the etcd library,
-- database/sql, the dqlite application, YAML, net/url, time, certificates, gRPC and the file system.
pub mod Prelude
pub mod Bytes
pub mod Results
pub mod Table
pub mod Spec
pub mod Exec
pub mod Generic
pub mod Events
pub mod Sqllog
pub mod Logstructured
pub mod Server
pub mod Broadcaster
pub mod Drivers
pub mod Endpoint
pub mod Prepared
pub mod Process
pub mod Client
pub mod Migrator
pub mod Tests
