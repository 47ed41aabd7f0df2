-- ===== src/Logstructured.antt =====
-- The store over the log (pkg/kine/logstructured/logstructured.go): each method of `LogStructured`.
pub mod Watch
pub mod Writes
pub mod Reads
pub mod Relists
pub mod Gets
pub mod Listings
pub mod Lists
pub mod Past
pub mod Ttl
use k8s_dqlite.Prelude.{
  ℕ, zero, suc, ◌+◌, ◌-◌, String, Bool, true, false, Option, none, some, List, [], ◌∷◌, ◌++◌, map,
  ltb, leb, ◌==◌, if◌then◌else◌, length,
}
use k8s_dqlite.Bytes.{Bytes, codes}
use k8s_dqlite.Results.{Error, Result, ok, err, compacted}
use k8s_dqlite.Table.{Blob}
use k8s_dqlite.Events.{KeyValue, Event}
use k8s_dqlite.Exec.{Sys, M, pure, raise, ◌>>=◌, ◌>>◌}
use k8s_dqlite.Generic.{Config}
use k8s_dqlite.Sqllog
use k8s_dqlite.Sqllog.{Answer}

abbrev pub first_event : List Event → Option Event
first_event [] = none
first_event (e ∷ es) = some e

-- A requested revision replaces the log's.
abbrev pub requested : ℕ → ℕ → ℕ
requested zero rev = rev
requested (suc revision) rev = suc revision

-- `get`: that the revision is compacted is no error here, and its events are used.
unfoldable pub get_event : Config → Bytes → Bytes → ℕ → ℕ → Bool → M (ℕ × Option Event)
get_event d key range_end limit revision include_deletes = do
  answer ← Sqllog.list d key range_end limit revision include_deletes
  pure (requested revision answer.rev, first_event answer.events)

abbrev pub current_or_zero : Result ℕ × Sys → ℕ × Sys
current_or_zero (ok rev, s) = (rev, s)
current_or_zero (err e, s) = (0, s)

-- adjustRevision: a revision of 0 becomes the current one, if that can be read.
unfoldable pub adjust_revision : Config → ℕ → Sys → ℕ × Sys
adjust_revision d zero s = current_or_zero (Sqllog.current_revision d s)
adjust_revision d (suc rev) s = (suc rev, s)

abbrev pub adjusted : Config → ℕ → Option KeyValue → M (ℕ × Option KeyValue)
adjusted d rev kv s = let (rev', s') = adjust_revision d rev s in (ok (rev', kv), s')

abbrev pub event_kv : Option Event → Option KeyValue
event_kv none = none
event_kv (some e) = some e.kv

abbrev pub answer_get : Config → Result (ℕ × Option Event) → M (ℕ × Option KeyValue)
answer_get d (ok (rev, event)) s = adjusted d rev (event_kv event) s
answer_get d (err e) s = let (rev, s') = adjust_revision d 0 s in (err e, s')

-- `Get`, with the deferred adjustment of the revision, also on an error.
unfoldable pub get : Config → Bytes → Bytes → ℕ → ℕ → M (ℕ × Option KeyValue)
unfolding get_event adjust_revision
get d key range_end limit revision s =
    let (r, s') = get_event d key range_end limit revision false s in answer_get d r s'

unfoldable pub create : Config → Bytes → Blob → ℕ → M (ℕ × Bool)
create d key value lease = Sqllog.create d key value lease

unfoldable pub update : Config → Bytes → Blob → ℕ → ℕ → M (ℕ × Bool)
update d key value revision lease = Sqllog.update d key value revision lease

unfoldable pub delete : Config → Bytes → ℕ → M (ℕ × Bool)
delete d key revision = Sqllog.delete d key revision

-- Why `list` ends without an answer: an error of a layer below, or the fuel ran out.
abbrev pub listed : ℕ → Answer → ℕ × List KeyValue
listed revision answer = (requested revision answer.rev, map (λ (e : Event). e.kv) answer.events)

abbrev pub list_done : ℕ → Answer → M (ℕ × List KeyValue)
list_done revision answer =
    if answer.is_compacted then raise compacted else pure (listed revision answer)

-- The current state is asked for, and there is nothing.
abbrev pub relists : ℕ → Answer → Bool
relists zero answer = if answer.is_compacted then false else (length answer.events == 0)
relists (suc revision) answer = false

-- `List`, which calls itself at the current revision; `none` where the fuel ran out.
unfoldable pub list_within : Config → ℕ → Bytes → Bytes → ℕ → ℕ → M (Option (ℕ × List KeyValue))
list_within d zero prefix start_key limit revision = pure none
list_within d (suc fuel) prefix start_key limit revision = do
  answer ← Sqllog.list d prefix start_key limit revision false
  let again =
      Sqllog.current_revision d >>= λ current. list_within d fuel prefix start_key limit current
  if relists revision answer then again else (list_done revision answer >>= λ r. pure (some r))

abbrev pub out_of_fuel : Option (ℕ × List KeyValue) → M (ℕ × List KeyValue)
out_of_fuel none = pure (0, [])
out_of_fuel (some r) = pure r

-- With fuel for two calls (Logstructured/Relists.antt).
unfoldable pub list : Config → Bytes → Bytes → ℕ → ℕ → M (ℕ × List KeyValue)
unfolding list_within
list d prefix start_key limit revision =
    list_within d 2 prefix start_key limit revision >>= out_of_fuel

abbrev pub recount : Config → Bytes → ℕ × ℕ → M (ℕ × ℕ)
recount d prefix (rev, zero) = do
  current ← Sqllog.current_revision d
  (at, rows) ← list d prefix prefix 1000 current
  pure (at, length rows)
recount d prefix (rev, suc n) = pure (rev, suc n)

unfoldable pub count : Config → Bytes → Bytes → ℕ → M (ℕ × ℕ)
unfolding list
count d prefix start_key revision = Sqllog.count d prefix start_key revision >>= recount d prefix

unfoldable pub do_compact : Config → M (Unit {0})
do_compact d = Sqllog.do_compact d

unfoldable pub db_size : Config → M ℕ
db_size d = Sqllog.db_size d

abbrev pub ignoring : {A : Type 0} → M A → M (Unit {0})
ignoring m s = (ok tt, (m s).1)

-- `Start`, less the goroutines that it starts; the error of the write is dropped.
unfoldable pub start : Config → M (Unit {0})
unfolding create
start d = do
  Sqllog.start_watch d
  ignoring (create d (codes "/registry/health") (some (codes "{\"health\":\"true\"}")) 0)
