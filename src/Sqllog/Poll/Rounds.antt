-- ===== src/Sqllog/Poll/Rounds.antt =====
-- What a round of the poll loop sends and where it leaves the poller
-- (pkg/kine/logstructured/sqllog/sql.go).
use k8s_dqlite.Prelude.{ℕ, ◌≡◌, ltb, true, List, [], ◌++◌, length}
use k8s_dqlite.Table.{Table}
use k8s_dqlite.Table.Select.{after_sql}
use k8s_dqlite.Events.{Event, rows_to_events}
use k8s_dqlite.Generic
use k8s_dqlite.Sqllog.Poll.{Poller}
use k8s_dqlite.Sqllog.Poll.Order.{Follows, Stops, last_of, shown}

-- `taken` are the events that a round takes of those that it reads, `out` the poller after it and the batch.
pub record Round (now : ℕ) (p : Poller) (t : Table) (out : Poller × List Event) : Type 0 where
  pub taken : List Event
  pub rest : List Event
  pub parts : rows_to_events (after_sql p.last 500 t) ≡ taken ++ rest
  pub follows : Follows now p.skip p.skip_time p.last taken
  pub stops : Stops now p.skip p.skip_time (last_of p.last taken) rest out.0.skip out.0.skip_time
  pub last : out.0.last ≡ last_of p.last taken
  pub sent : out.1 ≡ shown taken
  pub waits : out.0.wait_for_more ≡ ltb (length (rows_to_events (after_sql p.last 500 t))) 100

-- The query failed, and nothing is sent, or the round went through.
pub data Sends (now : ℕ) (p : Poller) (t : Table) (out : Poller × List Event) : Type 0 where
  unread : out ≡ (record p { wait_for_more = true }, []) → Sends now p t out
  went : Round now p t out → Sends now p t out
