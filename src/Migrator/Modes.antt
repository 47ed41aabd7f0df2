-- ===== src/Migrator/Modes.antt =====
-- The modes of the command `migrator` (cmd/migrator.go); any other mode does nothing.
use k8s_dqlite.Prelude.{Option, none, some, [], ◌∷◌, any, if◌then◌else◌}
use k8s_dqlite.Bytes.{Bytes, codes, same}

pub data Mode : Type 0 where
  from_etcd to_dqlite from_dqlite to_etcd : Mode

unfoldable pub mode_of : Bytes → Option Mode
unfolding same
mode_of mode =
    if any (same mode) (codes "backup" ∷ codes "backup-etcd" ∷ [])
    then some from_etcd
    else if any (same mode)
        (codes "restore" ∷ codes "restore-to-dqlite" ∷ codes "restore-dqlite" ∷ [])
    then some to_dqlite
    else if same mode (codes "backup-dqlite")
    then some from_dqlite
    else if any (same mode) (codes "restore-to-etcd" ∷ codes "restore-etcd" ∷ [])
    then some to_etcd
    else none
