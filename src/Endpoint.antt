-- ===== src/Endpoint.antt =====
-- The endpoint of the storage (pkg/kine/endpoint/endpoint.go, pkg/kine/tls/config.go): which backend it names,
-- and the listening socket. The drivers, the backend and the network are parameters.
use k8s_dqlite.Prelude.{
  ℕ, Bool, true, false, Option, none, some, List, [], ◌∷◌, if◌then◌else◌, ◌==◌,
}
use k8s_dqlite.Bytes.{Bytes, codes, same}
use k8s_dqlite.Results.{Error, Result, ok, err, message, caused}
use k8s_dqlite.Drivers.Options.{split_two}

abbrev pub kine_socket : Bytes
kine_socket = codes "unix://kine.sock"

abbrev pub sqlite_backend : Bytes
sqlite_backend = codes "sqlite"

abbrev pub dqlite_backend : Bytes
dqlite_backend = codes "dqlite"

abbrev pub etcd_backend : Bytes
etcd_backend = codes "etcd3"

pub record TlsConfig : Type 0 where
  pub ca_file : Bytes
  pub cert_file : Bytes
  pub key_file : Bytes

-- The connection pool is handed on to the drivers as it is, and left out.
pub record Config : Type 0 where
  pub listener : Bytes
  pub endpoint : Bytes
  pub tls : TlsConfig

pub record EtcdConfig : Type 0 where
  pub endpoints : List Bytes
  pub tls_config : TlsConfig
  pub leader_elect : Bool

abbrev pub two_parts : Bytes → Option (Bytes × Bytes) → Bytes × Bytes
two_parts str none = ([], str)
two_parts str (some (network, address)) = (network, address)

unfoldable pub network_and_address : Bytes → Bytes × Bytes
unfolding split_two
network_and_address str = two_parts str (split_two (codes "://") str)

unfoldable pub parse_storage_endpoint : Bytes → Bytes × Bytes
unfolding network_and_address same
parse_storage_endpoint storage_endpoint =
    let (network, address) = network_and_address storage_endpoint in
    if same network []
    then (sqlite_backend, [])
    else if same network (codes "http")
    then (etcd_backend, address)
    else if same network (codes "https")
    then (etcd_backend, address)
    else (network, address)

abbrev pub first_part : ℕ → List Bytes → List Bytes
first_part x [] = (x ∷ []) ∷ []
first_part x (part ∷ parts) = (x ∷ part) ∷ parts

-- strings.Split(s, ",")
unfoldable pub split_commas : Bytes → List Bytes
split_commas [] = [] ∷ []
split_commas (x ∷ xs) =
    let rest = split_commas xs in if x == b',' then [] ∷ rest else first_part x rest

-- What the endpoint calls: New of the two drivers, Start of the backend they give, os.Remove, net.Listen and
-- os.Chmod, and Serve of the gRPC server with the backend registered.
pub record World (S B : Type 0) : Type 0 where
  pub sqlite_new : Bytes → S → Result B × S
  pub dqlite_new : Bytes → TlsConfig → S → Result B × S
  pub start : B → S → Result (Unit {0}) × S
  pub remove : Bytes → S → S
  pub listen_on : Bytes → Bytes → S → Result (Unit {0}) × S
  pub chmod : Bytes → S → Result (Unit {0}) × S
  pub serve : B → S → S

module _ {S B : Type 0} (w : World S B) where
  abbrev pub next :
      {A C : Type 0} → Result A → (Error → Error) → (A → S → Result C × S) → S → Result C × S
  next (ok a) why k s = k a s
  next (err e) why k s = (err (why e), s)

  abbrev pub as_it_is : Error → Error
  as_it_is e = e

  -- getKineStorageBackend: whether leaders are elected, and the backend.
  unfoldable pub get_kine_storage_backend : Bytes → Bytes → Config → S → Result (Bool × B) × S
  unfolding same
  get_kine_storage_backend driver dsn cfg s =
      if same driver sqlite_backend
      then (let (r, s') = w.sqlite_new dsn s in next r as_it_is (λ b s. (ok (false, b), s)) s')
      else if same driver dqlite_backend
      then (let (r, s') = w.dqlite_new dsn cfg.tls s in
          next r as_it_is (λ b s. (ok (true, b), s)) s')
      else (err (message "storage backend is not defined"), s)

  -- The deferred Chmod, whose error replaces the one of the listening.
  abbrev pub deferred : Result (Unit {0}) → Result (Unit {0}) → Result (Unit {0})
  deferred listened (ok u) = listened
  deferred listened (err e) = err e

  unfoldable pub create_listener : Bytes → S → Result (Unit {0}) × S
  unfolding network_and_address same
  create_listener listen s =
      let (network, address) = network_and_address listen in
      if same network (codes "unix")
      then (let (r, s1) = w.listen_on network address (w.remove address s) in
          let (x, s2) = w.chmod address s1 in (deferred r x, s2))
      else w.listen_on network address s

  abbrev pub or_socket : Bytes → Bytes
  or_socket [] = kine_socket
  or_socket (x ∷ xs) = x ∷ xs

  abbrev pub no_tls : TlsConfig
  no_tls = record { ca_file = []; cert_file = []; key_file = [] }

  -- ListenAndReturnBackend, and Listen, which drops the backend.
  unfoldable pub listen_and_return_backend : Config → S → Result (EtcdConfig × Option B) × S
  unfolding parse_storage_endpoint same get_kine_storage_backend create_listener split_commas
  listen_and_return_backend config s =
      let (driver, dsn) = parse_storage_endpoint config.endpoint in
      if same driver etcd_backend
      then (
        ok (
          record {
            endpoints = split_commas config.endpoint;
            tls_config = config.tls;
            leader_elect = true;
          },
          none,
        ),
        s,
      )
      else (let (r, s1) = get_kine_storage_backend driver dsn config s in
          next r (caused "building kine")
            (λ (leaderelect, backend) s1.
              let (r, s2) = w.start backend s1 in
              next r (caused "starting kine backend")
                (λ u s2.
                  let listen = or_socket config.listener in
                  let (r, s3) = create_listener listen s2 in
                  next r as_it_is
                    (λ u s3. (
                      ok (
                        record {
                          endpoints = listen ∷ [];
                          tls_config = no_tls;
                          leader_elect = leaderelect;
                        },
                        some backend,
                      ),
                      w.serve backend s3,
                    ))
                    s3)
                s2)
            s1)

  unfoldable pub listen : Config → S → Result EtcdConfig × S
  unfolding listen_and_return_backend
  listen config s =
      let (r, s') = listen_and_return_backend config s in
      next r as_it_is (λ (made, backend) s. (ok made, s)) s'
