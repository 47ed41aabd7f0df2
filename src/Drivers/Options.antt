-- ===== src/Drivers/Options.antt =====
-- The options in a connection string (`parseOpts` of pkg/kine/drivers/sqlite/sqlite.go). The packages net/url
-- and time are parameters; the values of a query are in the order in which the loop takes them.
use k8s_dqlite.Prelude.{
  ℕ, zero, suc, String, Option, none, some, List, [], ◌∷◌, ◌++◌, if◌then◌else◌, length,
}
use k8s_dqlite.Bytes.{Bytes, codes, same, has_prefix}
use k8s_dqlite.Results.{Result, ok, err, message}

abbrev pub Values : Type 0
Values = List (Bytes × List Bytes)

-- url.ParseQuery, Values.Encode and time.ParseDuration.
pub record Texts : Type 0 where
  pub parse_query : Bytes → Result Values
  pub encode : Values → Bytes
  pub parse_duration : Bytes → Result ℕ

pub record Opts : Type 0 where
  pub dsn : Bytes
  pub driver_name : Bytes
  pub compact_interval : ℕ
  pub poll_interval : ℕ
  pub watch_query_timeout : ℕ

abbrev pub drop : ℕ → Bytes → Bytes
drop zero xs = xs
drop (suc n) [] = []
drop (suc n) (x ∷ xs) = drop n xs

abbrev pub before_more : ℕ → Option (Bytes × Bytes) → Option (Bytes × Bytes)
before_more x none = none
before_more x (some (a, b)) = some (x ∷ a, b)

-- strings.SplitN(s, sep, 2), for a separator that is not empty; `none` where there is one part.
unfoldable pub split_two : Bytes → Bytes → Option (Bytes × Bytes)
unfolding has_prefix
split_two sep [] = none
split_two sep (x ∷ xs) =
    let rest = split_two sep xs in
    if has_prefix (x ∷ xs) sep then some ([], drop (length sep) (x ∷ xs)) else before_more x rest

module _ (t : Texts) where
  -- A duration, or the error that ends the loop.
  abbrev pub timed : Result ℕ → String → (ℕ → Result (Opts × Values)) → Result (Opts × Values)
  timed (ok d) key k = k d
  timed (err e) key k = err (message key)

  abbrev pub keep : Bytes × List Bytes → Result (Opts × Values) → Result (Opts × Values)
  keep entry (ok (opts, kept)) = ok (opts, entry ∷ kept)
  keep entry (err e) = err e

  -- The loop over the values: what it sets, and the values that are left.
  unfoldable pub parse_values : Values → Opts → Result (Opts × Values)
  unfolding same
  parse_values [] opts = ok (opts, [])
  parse_values ((key, []) ∷ values) opts = keep (key, []) (parse_values values opts)
  parse_values ((key, v ∷ vs) ∷ values) opts =
      let set = parse_values values in
      if same key (codes "driver-name")
      then set (record opts { driver_name = v })
      else if same key (codes "compact-interval")
      then timed (t.parse_duration v) "failed to parse compact-interval duration value"
          (λ d. set (record opts { compact_interval = d }))
      else if same key (codes "poll-interval")
      then timed (t.parse_duration v) "failed to parse poll-interval duration value"
          (λ d. set (record opts { poll_interval = d }))
      else if same key (codes "watch-query-timeout")
      then timed (t.parse_duration v) "failed to parse watch-query-timeout duration value"
          (λ d. set (record opts { watch_query_timeout = d }))
      else keep (key, v ∷ vs) (set opts)

  abbrev pub with_dsn : Bytes → Result (Opts × Values) → Result Opts
  with_dsn path (ok (opts, [])) = ok (record opts { dsn = path })
  with_dsn path (ok (opts, entry ∷ kept)) =
      ok (record opts { dsn = path ++ codes "?" ++ t.encode (entry ∷ kept) })
  with_dsn path (err e) = err e

  abbrev pub only_dsn : Bytes → Opts
  only_dsn dsn = record {
    dsn = dsn;
    driver_name = [];
    compact_interval = 0;
    poll_interval = 0;
    watch_query_timeout = 0;
  }

  abbrev pub of_query : Bytes → Bytes → Result Values → Result Opts
  unfolding parse_values
  of_query dsn path (ok values) = with_dsn path (parse_values values (only_dsn dsn))
  of_query dsn path (err e) = err e

  abbrev pub parse_parts : Bytes → Option (Bytes × Bytes) → Result Opts
  unfolding parse_values
  parse_parts dsn none = ok (only_dsn dsn)
  parse_parts dsn (some (path, query)) = of_query dsn path (t.parse_query query)

  unfoldable pub parse_opts : Bytes → Result Opts
  unfolding split_two parse_values
  parse_opts dsn = parse_parts dsn (split_two (codes "?") dsn)
