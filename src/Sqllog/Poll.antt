-- ===== src/Sqllog/Poll.antt =====
-- The poll loop of `SQLLog` (pkg/kine/logstructured/sqllog/sql.go): rounds of reading new rows and
-- handing them on in the order of their revisions. A time is a number of nanoseconds; `now` is the
-- clock in one round.
pub mod Order
pub mod Rounds
use k8s_dqlite.Prelude.{
  ℕ, zero, suc, ◌+◌, ◌-◌, ◌≡◌, Bool, true, false, ◌&&◌, Option, none, some, List, [], ◌∷◌, ◌++◌,
  ltb, leb, ◌==◌, not, if◌then◌else◌, length,
}
use k8s_dqlite.Results.{Error, Result, ok, err}
use k8s_dqlite.Table.{Row}
use k8s_dqlite.Events.{Event, rows_to_events}
use k8s_dqlite.Exec.{Sys, M, pure, ◌>>=◌, ◌>>◌}
use k8s_dqlite.Generic
use k8s_dqlite.Generic.{Config, second, is_fill}
use k8s_dqlite.Sqllog.Notify.{notify_watcher_poll}

-- The variables of `poll` that live from round to round.
pub record Poller : Type 0 where
  pub last : ℕ
  pub skip : ℕ
  pub skip_time : ℕ
  pub wait_for_more : Bool

-- The variables of the loop over the events of one round.
pub record Scan : Type 0 where
  pub rev : ℕ
  pub skip : ℕ
  pub skip_time : ℕ
  pub sequential : List Event
  pub save_last : Bool

unfoldable pub can_skip_revision : ℕ → ℕ → ℕ → ℕ → Bool
can_skip_revision now rev skip skip_time = rev == skip && ltb second (now - skip_time)

-- An event that is handed on; the rows of FillSQL only move the revision.
unfoldable pub take_event : Scan → Event → Scan
unfolding is_fill
take_event s e = record s {
  rev = e.kv.mod_revision;
  sequential = if is_fill e.kv.key then s.sequential else s.sequential ++ e ∷ [];
  save_last = true;
}

-- What the loop does with an event: hand it on, or stop at a gap that is new, or stop and fill the gap.
pub data Choice : Type 0 where
  deliver wait_once fill_gap : Choice

unfoldable pub choose : ℕ → Scan → Event → Choice
unfolding can_skip_revision
choose now s e =
    let next = s.rev + 1 in
    if e.kv.mod_revision == next
    then deliver
    else if can_skip_revision now next s.skip s.skip_time
    then deliver
    else if s.skip == next
    then fill_gap
    else wait_once

abbrev pub filled : ℕ → Scan → Result (Option ℕ) × Sys → Scan × Sys
filled next s (ok row, sys) = (s, (notify_watcher_poll next sys).1)
filled next s (err e, sys) = (s, sys)

-- Fill, whose error is only logged.
unfoldable pub try_fill : Config → ℕ → Scan → Sys → Scan × Sys
unfolding notify_watcher_poll
try_fill d next s sys = filled next s (Generic.fill d next sys)

-- What the loop does at an event, `go` being the rest of the loop; the other two `break`.
abbrev pub act : Choice → Config → ℕ → Event → (Scan → Sys → Scan × Sys) → Scan → Sys → Scan × Sys
act deliver d now e go s sys = go (take_event s e) sys
act wait_once d now e go s sys =
    (record s { skip = s.rev + 1; skip_time = now }, (notify_watcher_poll (s.rev + 1) sys).1)
act fill_gap d now e go s sys = try_fill d (s.rev + 1) s sys

-- The loop over the events.
unfoldable pub scan_events : Config → ℕ → List Event → Scan → Sys → Scan × Sys
unfolding choose take_event try_fill
scan_events d now [] s sys = (s, sys)
scan_events d now (e ∷ es) s sys =
    act (choose now s e) d now e (λ s' sys'. scan_events d now es s' sys') s sys

abbrev pub start_scan : Poller → Scan
start_scan p = record {
  rev = p.last;
  skip = p.skip;
  skip_time = p.skip_time;
  sequential = [];
  save_last = false;
}

-- What a round leaves, and the batch that it sends: an empty one is not sent.
abbrev pub finish : ℕ → Poller → Scan → Poller × List Event
finish count p s = (
  record {
    last = if s.save_last then s.rev else p.last;
    skip = s.skip;
    skip_time = s.skip_time;
    wait_for_more = ltb count 100;
  },
  if s.save_last then s.sequential else [],
)

abbrev pub round_on : Config → ℕ → Poller → List Event → Sys → (Poller × List Event) × Sys
round_on d now p [] sys = ((record p { wait_for_more = true }, []), sys)
round_on d now p (e ∷ es) sys =
    let (s, sys') = scan_events d now (e ∷ es) (start_scan p) sys in
    (finish (length (e ∷ es)) p s, sys')

abbrev pub round_with : Config → ℕ → Poller → Result (List Row) × Sys → (Poller × List Event) × Sys
round_with d now p (err e, sys) = ((record p { wait_for_more = true }, []), sys)
round_with d now p (ok rows, sys) = round_on d now p (rows_to_events rows) sys

-- One round, from the query on. A query that fails changes nothing.
unfoldable pub round : Config → ℕ → Poller → Sys → (Poller × List Event) × Sys
unfolding scan_events rows_to_events
round d now p sys = round_with d now p (Generic.after d p.last 500 sys)

-- What the wait ends with: the context is done, a revision comes from `notify`, or the ticker fires.
pub data Wake : Type 0 where
  done tick : Wake
  check : ℕ → Wake

-- One pass of the outer loop; `none` where it returns.
unfoldable pub poll_step : Config → ℕ → Wake → Poller → Sys → Option ((Poller × List Event) × Sys)
unfolding round
poll_step d now w p sys =
    let go = some (round d now p sys) in
    if p.wait_for_more
    then elim w [
      | done ↦ none
      | tick ↦ go
      | check revision ↦ if leb revision p.last then some ((p, []), sys) else go
    ]
    else go
