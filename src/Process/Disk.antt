-- ===== src/Process/Disk.antt =====
-- The check of the disk (`checkAvailableStorageSize` of pkg/server/util.go, `watchAvailableStorageSize` of
-- pkg/server/server.go), with what Statfs gives at each tick as an argument.
use k8s_dqlite.Prelude.{ℕ, zero, suc, ◌*◌, ◌%◌, ◌^◌, List, [], ◌∷◌, ◌++◌, ltb, if◌then◌else◌}
use k8s_dqlite.Bytes.{Bytes, codes, same}
use k8s_dqlite.Results.{Result, ok, err, message, caused}

-- Bavail times Bsize is a uint64, which wraps around.
unfoldable pub check_available_storage_size : Result (ℕ × ℕ) → ℕ → Result (Unit {0})
check_available_storage_size (err e) minimum_bytes =
    err (caused "failed to check available disk size" e)
check_available_storage_size (ok (bavail, bsize)) minimum_bytes =
    if ltb (bavail * bsize % 2 ^ 64) minimum_bytes
    then err (message "available disk size is below minimum required")
    else ok tt

-- What the loop does: hand the leadership over, or tell the process to stop.
pub data Measure : Type 0 where
  handover stop : Measure

abbrev pub measures : Bytes → Result (Unit {0}) → List Measure
unfolding same
measures action (ok u) = []
measures action (err e) =
    if same action (codes "none")
    then []
    else if same action (codes "handover")
    then handover ∷ []
    else if same action (codes "terminate")
    then stop ∷ []
    else []

abbrev pub watch_ticks : ℕ → Bytes → List (Result (ℕ × ℕ)) → List Measure
unfolding check_available_storage_size
watch_ticks minimum_bytes action [] = []
watch_ticks minimum_bytes action (tick ∷ ticks) =
    measures action (check_available_storage_size tick minimum_bytes)
    ++ watch_ticks minimum_bytes action ticks

-- The ticks are those up to the end of the context; with no interval there is no loop.
unfoldable pub watch_available_storage_size : ℕ → ℕ → Bytes → List (Result (ℕ × ℕ)) → List Measure
unfolding check_available_storage_size
watch_available_storage_size zero minimum_bytes action ticks = []
watch_available_storage_size (suc interval) minimum_bytes action ticks =
    watch_ticks minimum_bytes action ticks
