-- ===== src/Process/Lifetime.antt =====
-- Start and Shutdown of the process (pkg/server/server.go). The dqlite application is a parameter; the loop
-- that watches the disk, which Start begins, is in Process/Disk.antt.
use k8s_dqlite.Prelude.{Bool, true, Option, none, some}
use k8s_dqlite.Results.{Result, ok, err, caused}
use k8s_dqlite.Endpoint.{Config, EtcdConfig, World, listen_and_return_backend}

-- app.App: Ready, Handover and Close.
pub record App (S : Type 0) : Type 0 where
  pub ready : S → Result (Unit {0}) × S
  pub handover : S → Result (Unit {0}) × S
  pub close : S → Result (Unit {0}) × S

-- The fields of Server that change: the backend, and whether mustStopCh is closed.
pub record Server (B : Type 0) : Type 0 where
  pub kine_config : Config
  pub backend : Option B
  pub stopped : Bool

module _ {S B : Type 0} (app : App S) (w : World S B) (wait : B → S → S) where
  abbrev pub started :
      Server B → Result (EtcdConfig × Option B) × S → Result (Unit {0}) × (Server B × S)
  started server (ok (config, backend), s) = (ok tt, (record server { backend = backend }, s))
  started server (err e, s) = (err (caused "failed to start kine" e), (server, s))

  abbrev pub when_ready : Server B → Result (Unit {0}) × S → Result (Unit {0}) × (Server B × S)
  unfolding listen_and_return_backend
  when_ready server (ok u, s) = started server (listen_and_return_backend w server.kine_config s)
  when_ready server (err e, s) = (err (caused "failed to start dqlite app" e), (server, s))

  unfoldable pub start : Server B × S → Result (Unit {0}) × (Server B × S)
  unfolding listen_and_return_backend
  start (server, s) = when_ready server (app.ready s)

  -- `ok none` where there is no backend, and the wait for it panics.
  abbrev pub waited : Option B → Server B × S → Result (Option (Unit {0})) × (Server B × S)
  waited none (server, s) = (ok none, (record server { stopped = true }, s))
  waited (some backend) (server, s) =
      (ok (some tt), (record server { stopped = true }, wait backend s))

  abbrev pub closed : Server B → Result (Unit {0}) × S → Result (Option (Unit {0})) × (Server B × S)
  closed server (ok u, s) = waited server.backend (server, s)
  closed server (err e, s) = (err (caused "failed to close dqlite app" e), (server, s))

  -- The error of the handover is only logged.
  unfoldable pub shutdown : Server B × S → Result (Option (Unit {0})) × (Server B × S)
  shutdown (server, s) = let (r, s') = app.handover s in closed server (app.close s')
