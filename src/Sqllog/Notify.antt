-- ===== src/Sqllog/Notify.antt =====
-- The channel `notify` of `SQLLog` and the send on it (pkg/kine/logstructured/sqllog/sql.go).
use k8s_dqlite.Prelude.{ℕ, [], ◌∷◌, ◌++◌, ltb, if◌then◌else◌, length}
use k8s_dqlite.Results.{ok}
use k8s_dqlite.Exec.{M}

-- The capacity of the channel `notify`.
abbrev pub notify_capacity : ℕ
notify_capacity = 1024

-- A send that is dropped where the channel is full.
unfoldable pub notify_watcher_poll : ℕ → M (Unit {0})
notify_watcher_poll revision s =
    if ltb (length s.notify) notify_capacity
    then (ok tt, record s { notify = s.notify ++ revision ∷ [] })
    else (ok tt, s)
