-- ===== src/Server/Watcher.antt =====
-- The watches of one client stream (pkg/kine/server/watch.go): the identifiers that `Start` gives and
-- `Cancel` takes back, and the responses of a watch.
use k8s_dqlite.Prelude.{
  ℕ, ◌+◌, Bool, not, Option, none, List, [], ◌∷◌, ◌++◌, map, ◌==◌, if◌then◌else◌, filter, any,
}
use k8s_dqlite.Events.{KeyValue, Event}

-- mvccpb.Event
pub data EventType : Type 0 where
  put delete : EventType

pub record WireEvent : Type 0 where
  pub type : EventType
  pub kv : KeyValue
  pub prev_kv : Option KeyValue

unfoldable pub to_event : Event → WireEvent
to_event e =
    if e.delete
    then record { type = delete; kv = record (e.kv) { value = none }; prev_kv = e.prev_kv }
    else record { type = put; kv = e.kv; prev_kv = e.prev_kv }

-- The messages that a stream sends.
pub data WatchResponse : Type 0 where
  created canceled : ℕ → WatchResponse
  events : ℕ → ℕ → List WireEvent → WatchResponse

abbrev pub last_revision : ℕ → List Event → ℕ
last_revision rev [] = rev
last_revision rev (e ∷ es) = last_revision e.kv.mod_revision es

-- The response to one batch; an empty one is passed over.
abbrev batch_response : ℕ → List Event → List WatchResponse
batch_response id [] = []
batch_response id (e ∷ es) = events id (last_revision 0 (e ∷ es)) (map to_event (e ∷ es)) ∷ []

abbrev batch_responses : ℕ → List (List Event) → List WatchResponse
batch_responses id [] = canceled id ∷ []
batch_responses id (batch ∷ rest) = batch_response id batch ++ batch_responses id rest

-- What the goroutine of a watch sends while every send succeeds.
unfoldable pub responses : ℕ → List (List Event) → List WatchResponse
unfolding to_event
responses id batches = created id ∷ batch_responses id batches

-- `watchID`, the counter of the process, and the watches of the stream.
pub record Watcher : Type 0 where
  pub watch_id : ℕ
  pub watches : List ℕ

unfoldable pub start : Watcher → ℕ × Watcher
start w =
    (w.watch_id + 1, record { watch_id = w.watch_id + 1; watches = (w.watch_id + 1) ∷ w.watches })

-- Whether the context of the watch was cancelled, and the watches left.
unfoldable pub cancel : ℕ → Watcher → Bool × Watcher
cancel id w =
    (any (λ x. x == id) w.watches, record w { watches = filter (λ x. not (x == id)) w.watches })

unfoldable pub close : Watcher → List ℕ
close w = w.watches
