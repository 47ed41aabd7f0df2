-- ===== src/Server/Ranges.antt =====
-- Range requests: `get` and `list` of `LimitedServer` (pkg/kine/server/get.go, list.go, limited.go).
use k8s_dqlite.Prelude.{
  ℕ, zero, suc, ◌+◌, ◌%◌, Bool, true, false, ◌&&◌, not, Option, none, some, List, [], ◌∷◌, ◌++◌,
  ltb, ◌==◌, if◌then◌else◌, length, take,
}
use k8s_dqlite.Bytes.{Bytes, slash, has_suffix_slash}
use k8s_dqlite.Results.{message}
use k8s_dqlite.Events.{KeyValue}
use k8s_dqlite.Exec.{M, pure, raise, ◌>>=◌}
use k8s_dqlite.Server.Requests.{RangeRequest, RangeResponse}
use k8s_dqlite.Server.Backends.{Backend}

abbrev pub is_empty : Bytes → Bool
is_empty [] = true
is_empty (x ∷ xs) = false

abbrev pub found : Option KeyValue → List KeyValue
found none = []
found (some kv) = kv ∷ []

unfoldable pub get : Backend → RangeRequest → M RangeResponse
get backend r =
    if not (r.limit == 0) && not (is_empty r.range_end)
    then raise (message "invalid combination of rangeEnd and limit")
    else do
      (rev, kv) ← backend.get r.key r.range_end r.limit r.revision
      pure (record { header = rev; kvs = found kv; more = false; count = 0 })

-- The range end with its last byte, of 8 bits, lowered by one.
unfoldable pub lower_last : Bytes → Bytes
lower_last [] = []
lower_last (x ∷ []) = ((x + 255) % 256) ∷ []
lower_last (x ∷ y ∷ ys) = x ∷ lower_last (y ∷ ys)

-- The prefix that a list is over.
unfoldable pub list_prefix : Bytes → Bytes
unfolding lower_last has_suffix_slash
list_prefix range_end =
    let prefix = lower_last range_end in
    if has_suffix_slash prefix then prefix else prefix ++ slash ∷ []

-- bytes.TrimRight(r.Key, "\x00")
unfoldable pub trim_zeros : Bytes → Bytes
trim_zeros [] = []
trim_zeros (x ∷ xs) = let rest = trim_zeros xs in if is_empty rest && x == 0 then [] else x ∷ rest

-- One more than the limit is asked for, to see whether there is more.
abbrev pub probe_limit : ℕ → ℕ
probe_limit zero = 0
probe_limit (suc n) = suc (suc n)

abbrev pub count_revision : ℕ → ℕ → ℕ
count_revision zero rev = rev
count_revision (suc revision) rev = suc revision

-- The page, where there is more than the limit, with the number of all results.
abbrev pub page : Backend → RangeRequest → Bytes → Bytes → ℕ × List KeyValue → M RangeResponse
page backend r prefix start (rev, kvs) =
    if ltb 0 (probe_limit r.limit) && ltb r.limit (length kvs)
    then (do
      (at, total) ← backend.count prefix start (count_revision r.revision rev)
      pure (record { header = at; kvs = take r.limit kvs; more = true; count = total }))
    else pure (record { header = rev; kvs = kvs; more = false; count = length kvs })

unfoldable pub list : Backend → RangeRequest → M RangeResponse
unfolding list_prefix trim_zeros
list backend r =
    if is_empty r.range_end
    then raise (message "invalid range end length of 0")
    else if r.count_only
    then (do
      (rev, total) ← backend.count (list_prefix r.range_end) (trim_zeros r.key) r.revision
      pure (record { header = rev; kvs = []; more = false; count = total }))
    else (do
      answer ←
          backend.list (list_prefix r.range_end) (trim_zeros r.key) (probe_limit r.limit) r.revision
      page backend r (list_prefix r.range_end) (trim_zeros r.key) answer)

-- `LimitedServer.Range`
unfoldable pub range : Backend → RangeRequest → M RangeResponse
unfolding get list
range backend r = if is_empty r.range_end then get backend r else list backend r
