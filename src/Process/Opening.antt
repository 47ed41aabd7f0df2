-- ===== src/Process/Opening.antt =====
-- From the connection string of `New` (pkg/server/server.go) through `ParseStorageEndpoint`
-- (pkg/kine/endpoint/endpoint.go) to `parseOpts` (pkg/kine/drivers/sqlite/sqlite.go).
use k8s_dqlite.Prelude.{ℕ, ◌≡◌, refl, ap, ◌∙◌, Option, none, some, [], ◌++◌}
use k8s_dqlite.Bytes.{Bytes, codes, same, has_prefix}
use k8s_dqlite.Results.{ok}
use k8s_dqlite.Drivers.Options.{
  Texts, Values, only_dsn, with_dsn, of_query, parse_parts, split_two, parse_values, parse_opts,
}
use k8s_dqlite.Endpoint.{network_and_address, parse_storage_endpoint}
use k8s_dqlite.Process.Params.{params, endpoint_of}

-- An interval that is not set is 0.
abbrev pub or_zero : Option ℕ → ℕ
or_zero none = 0
or_zero (some d) = d

endpoint_parts :
    (query : Bytes)
    → parse_storage_endpoint (codes "dqlite://k8s?" ++ query)
      ≡ (codes "dqlite", codes "k8s?" ++ query)
unfolding parse_storage_endpoint network_and_address split_two has_prefix same
endpoint_parts query = refl

dsn_parts :
    (query : Bytes) → split_two (codes "?") (codes "k8s?" ++ query) ≡ some (codes "k8s", query)
unfolding split_two has_prefix
dsn_parts query = refl

module _ (t : Texts) (show_duration : ℕ → Bytes)
    (shown : (d : ℕ) → t.parse_duration (show_duration d) ≡ ok d) where
  -- What the loop sets of the parameters, and that it leaves none.
  params_set :
      (driver dsn : Bytes) (compact poll : Option ℕ) (watch : ℕ)
      → parse_values t (params show_duration driver compact poll watch) (only_dsn t dsn)
        ≡ ok (
          record {
            dsn = dsn;
            driver_name = driver;
            compact_interval = or_zero compact;
            poll_interval = or_zero poll;
            watch_query_timeout = watch;
          },
          [],
        )
  unfolding params parse_values same
  params_set driver dsn none none watch = rw (shown watch) refl
  params_set driver dsn (some c) none watch = rw (shown c, shown watch) refl
  params_set driver dsn none (some p) watch = rw (shown p, shown watch) refl
  params_set driver dsn (some c) (some p) watch = rw (shown c, shown p, shown watch) refl

  opts_parsed :
      (values : Values)
      → t.parse_query (t.encode values) ≡ ok values
      → parse_opts t (codes "k8s?" ++ t.encode values)
        ≡ with_dsn t
            (codes "k8s")
            (parse_values t values (only_dsn t (codes "k8s?" ++ t.encode values)))
  unfolding parse_opts
  opts_parsed values queries =
      let dsn = codes "k8s?" ++ t.encode values in
      ap (parse_parts t dsn) (dsn_parts (t.encode values))
      ∙ ap (of_query t dsn (codes "k8s")) queries

  -- Where the standard library reads back the durations that it writes, and the query of these parameters with
  -- its values in the order in which they were written: the endpoint that New makes names the driver dqlite, and its
  -- options are the name of the application's driver and the intervals that were set, with nothing left over.
  pub endpoint_parsed :
      (driver : Bytes) (compact poll : Option ℕ) (watch : ℕ)
      → t.parse_query (t.encode (params show_duration driver compact poll watch))
        ≡ ok (params show_duration driver compact poll watch)
      → (let (network, dsn) =
            parse_storage_endpoint (endpoint_of show_duration t.encode driver compact poll watch) in
          (network ≡ codes "dqlite")
          × (parse_opts t dsn
              ≡ ok (record {
                dsn = codes "k8s";
                driver_name = driver;
                compact_interval = or_zero compact;
                poll_interval = or_zero poll;
                watch_query_timeout = watch;
              })))
  unfolding endpoint_of
  endpoint_parsed driver compact poll watch queries =
      let values = params show_duration driver compact poll watch in
      rw (endpoint_parts (t.encode values)) (
        refl,
        opts_parsed values queries
            ∙ ap (with_dsn t (codes "k8s")) (params_set driver _ compact poll watch),
      )
