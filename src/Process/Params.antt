-- ===== src/Process/Params.antt =====
-- The connection string that the process gives to the endpoint (`New` of pkg/server/server.go).
use k8s_dqlite.Prelude.{ℕ, Option, none, some, List, [], ◌∷◌, ◌++◌}
use k8s_dqlite.Bytes.{Bytes, codes}

module _ (show_duration : ℕ → Bytes) where
  abbrev pub interval : Bytes → Option ℕ → List (Bytes × List Bytes)
  interval key none = []
  interval key (some d) = (key, show_duration d ∷ []) ∷ []

  unfoldable pub params : Bytes → Option ℕ → Option ℕ → ℕ → List (Bytes × List Bytes)
  params driver compact_interval poll_interval watch_query_timeout =
      (codes "driver-name", driver ∷ []) ∷ interval (codes "compact-interval") compact_interval
      ++ interval (codes "poll-interval") poll_interval
      ++ (codes "watch-query-timeout", show_duration watch_query_timeout ∷ []) ∷ []

  -- `dqlite://k8s?` and the parameters, encoded.
  unfoldable pub endpoint_of :
      (List (Bytes × List Bytes) → Bytes) → Bytes → Option ℕ → Option ℕ → ℕ → Bytes
  unfolding params
  endpoint_of encode driver compact_interval poll_interval watch_query_timeout =
      codes "dqlite://k8s?"
      ++ encode (params driver compact_interval poll_interval watch_query_timeout)
