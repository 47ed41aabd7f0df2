-- ===== src/Tests/Starts.antt =====
-- Witnesses for the setup of the database, the cache of statements and the start of the process.
use k8s_dqlite.Prelude.{ℕ, ◌≡◌, refl, true, false, none, some, List, [], ◌∷◌, arith}
use k8s_dqlite.Bytes.{Bytes, codes, same}
use k8s_dqlite.Results.{Error, Result, ok, err}
use k8s_dqlite.Drivers.Setup.{Schema, other_columns, setup}
use k8s_dqlite.Drivers.Setup.Outcomes.{Whole, Ends, setup-Ends}
use k8s_dqlite.Drivers.Options.{Texts, parse_opts}
use k8s_dqlite.Endpoint.{parse_storage_endpoint}
use k8s_dqlite.Process.{Outside, Settings, new, expected}
use k8s_dqlite.Process.Params.{params, endpoint_of}
use k8s_dqlite.Process.Opening.{endpoint_parsed}
use k8s_dqlite.Process.Starts.{Refuses, new-Refuses}
use k8s_dqlite.Prepared.{Sql, Db, lookup, prepare}
use k8s_dqlite.Prepared
use k8s_dqlite.Prepared.Again.{prepare_all, prepare_again}

-- A table with a wrong index, as upstream kine makes it.
abbrev upstream : Schema
upstream = record {
  user_version = 0;
  kine_table = true;
  name_index = some (record { unique = false; columns = other_columns });
  revision_index = none;
}

upstream-Whole : Whole upstream
upstream-Whole h = absurd (cc (h))

setup-Ends_example :
    Ends upstream upstream-Whole
      (omega arith)
      (setup (record { schema = upstream; broken = none ∷ none ∷ [] }))
setup-Ends_example =
    setup-Ends (record { schema = upstream; broken = none ∷ none ∷ [] }) upstream-Whole
      (omega arith)

-- A database that counts how often it prepares.
abbrev counting : Sql ℕ ℕ (Unit {0}) (Unit {0}) (Unit {0})
counting = record {
  prepare_context = λ query n. (ok n, ℕ.suc n);
  exec_stmt = λ stmt args n. (ok tt, n);
  query_stmt = λ stmt args n. (ok tt, n);
  close_stmt = λ stmt n. (ok tt, n);
  close_db = λ n. (ok tt, n);
  begin_tx = λ n. (ok tt, n);
  stmt_context = λ tx stmt. stmt;
  commit = λ tx n. (ok tt, n);
  rollback = λ tx n. (ok tt, n);
}

prepare_again_example :
    (let st =
        prepare_all counting
          (codes "b" ∷ codes "a" ∷ [])
          (prepare counting (codes "a") (Prepared.new, 7)).1 in
      prepare counting (codes "a") st ≡ (ok 7, st))
unfolding prepare lookup same
prepare_again_example =
    prepare_again counting (codes "a") 7 Prepared.new 7 refl (codes "b" ∷ codes "a" ∷ [])

abbrev show : ℕ → Bytes
show d = d ∷ []

abbrev read_duration : Bytes → Result ℕ
read_duration [] = ok 0
read_duration (x ∷ xs) = ok x

abbrev driver_name : Bytes
driver_name = codes "dqlite-1"

-- A query that always stands for the same values.
abbrev texts : Texts
unfolding params
texts = record {
  parse_query = λ query. ok (params show driver_name (some 300) none 20);
  encode = λ values. codes "query";
  parse_duration = read_duration;
}

endpoint_parsed_example :
    (let (network, dsn) =
        parse_storage_endpoint (endpoint_of show texts.encode driver_name (some 300) none 20) in
      (network ≡ codes "dqlite")
      × (parse_opts texts dsn
          ≡ ok (record {
            dsn = codes "k8s";
            driver_name = driver_name;
            compact_interval = 300;
            poll_interval = 0;
            watch_query_timeout = 20;
          })))
unfolding texts params
endpoint_parsed_example = endpoint_parsed texts show (λ d. refl) driver_name (some 300) none 20 refl

-- A directory of a node that has run before.
abbrev nothing_else : Error
nothing_else = Error.message "no such file"

abbrev used : Outside (List Bytes)
used = record {
  stat = λ name files. (ok true, files);
  read_dir = λ files. (ok files, files);
  read_file = λ name files. (err nothing_else, files);
  write_file = λ name content files. (ok tt, name ∷ files);
  remove = λ name files. (ok tt, []);
  parse_init = λ b. err nothing_else;
  parse_update = λ b. ok b;
  parse_info = λ b. err nothing_else;
  parse_domain = λ b. ok 1;
  parse_tuning = λ b. err nothing_else;
  write_info = λ info. ok [];
  write_cluster = λ infos. ok [];
  reconfigure_membership = λ infos files. (ok tt, files);
  load_key_pair = λ files. (ok tt, files);
  append_certs = λ pem. true;
  app_new = λ options files. (ok driver_name, files);
  show_duration = show;
  encode = λ values. codes "query";
}

abbrev settings : Settings
settings = record {
  listen = codes "tcp://127.0.0.1:12379";
  enable_tls = true;
  disk_mode = false;
  client_session_cache_size = 0;
  min_tls_version = codes "tls12";
  low_available_storage_action = codes "none";
  watch_query_timeout = 20;
}

new-Refuses_example :
    Refuses used
      (codes "init.yaml" ∷ codes "info.yaml" ∷ [])
      (new used settings (codes "init.yaml" ∷ codes "info.yaml" ∷ []))
unfolding same expected
new-Refuses_example =
    new-Refuses used (codes "init.yaml" ∷ codes "info.yaml" ∷ []) settings
      (codes "init.yaml" ∷ codes "info.yaml" ∷ []) refl refl refl
