-- ===== src/Logstructured/Watch.antt =====
-- `Watch` of `LogStructured` (pkg/kine/logstructured/logstructured.go): the events after a revision
-- that the log holds already, then the batches of the live watch, less what was sent.
pub mod Delivery
use k8s_dqlite.Prelude.{
  ℕ, zero, suc, ◌+◌, ◌-◌, ◌≤◌, ◌<◌, ◌≡◌, refl, ap, ◌∙◌, sym, ◌⊎◌, inl, inr, Bool, true, false,
  Option, none, some, List, [], ◌∷◌, ◌++◌, map, ltb, leb, leb→le, if◌then◌else◌, arith, In,
  Bool-cases, length,
}
use k8s_dqlite.Bytes.{Bytes}
use k8s_dqlite.Results.{Result, ok, err}
use k8s_dqlite.Events.{Event}
use k8s_dqlite.Exec.{Sys}
use k8s_dqlite.Generic.{Config}
use k8s_dqlite.Sqllog
use k8s_dqlite.Sqllog.{Answer}

-- Drops events from the front while they are not past `rev`.
unfoldable pub filter : List Event → ℕ → List Event
filter [] rev = []
filter (e ∷ es) rev = let rest = filter es rev in if leb e.kv.mod_revision rev then rest else e ∷ es

-- The revision that the log is read from.
abbrev pub watch_from : ℕ → ℕ
watch_from zero = 0
watch_from (suc revision) = revision

-- lastRevision, up to which live events are dropped: where the log held events, the current revision that
-- `After` returned, which may be past the last of them; else the revision that was asked for.
abbrev pub last_revision : ℕ → ℕ → List Event → ℕ
last_revision revision rev [] = revision
last_revision revision rev (e ∷ es) = rev

abbrev first_batch : List Event → List (List Event)
first_batch [] = []
first_batch (e ∷ es) = (e ∷ es) ∷ []

-- What the goroutine sends, given what `After` returned and the batches that come from the live watch.
unfoldable pub relay : ℕ → ℕ → List Event → List (List Event) → List (List Event)
unfolding filter
relay revision rev kvs live =
    first_batch kvs ++ map (λ batch. filter batch (last_revision revision rev kvs)) live

-- `live` is what comes from the live watch. Where `After` fails that watch is cancelled, and `live`
-- ends early; on ErrCompacted the events that came back with it are sent all the same.
abbrev watched : ℕ → Result Answer × Sys → List (List Event) → List (List Event) × Sys
watched revision (ok answer, s) live = (relay revision answer.rev answer.events live, s)
watched revision (err e, s) live = (relay revision 0 [] live, s)

unfoldable pub watch : Config → Bytes → ℕ → List (List Event) → Sys → List (List Event) × Sys
unfolding relay
watch d prefix revision live s =
    watched (watch_from revision) (Sqllog.after d prefix (watch_from revision) 0 s) live
