-- ===== src/Events.antt =====
-- The key-values and events that the layers hand up (pkg/kine/server/types.go), and their making from
-- the rows of a query (`scan` and `RowsToEvents` of pkg/kine/logstructured/sqllog/sql.go).
use k8s_dqlite.Prelude.{ℕ, Bool, Option, none, some, List, map, if◌then◌else◌}
use k8s_dqlite.Bytes.{Bytes}
use k8s_dqlite.Table.{Blob, Row}

pub record KeyValue : Type 0 where
  pub key : Bytes
  pub create_revision : ℕ
  pub mod_revision : ℕ
  pub value : Blob
  pub lease : ℕ

-- `delete` and `create` are the flags of the row; a nil PrevKV is `none`. KV is never nil.
pub record Event : Type 0 where
  pub delete : Bool
  pub create : Bool
  pub kv : KeyValue
  pub prev_kv : Option KeyValue

unfoldable pub scan : Row → Event
scan r =
    if r.created
    then record {
      delete = r.deleted;
      create = r.created;
      kv = record {
        key = r.name;
        create_revision = r.id;
        mod_revision = r.id;
        value = r.value;
        lease = r.lease;
      };
      prev_kv = none;
    }
    else record {
      delete = r.deleted;
      create = r.created;
      kv = record {
        key = r.name;
        create_revision = r.create_revision;
        mod_revision = r.id;
        value = r.value;
        lease = r.lease;
      };
      prev_kv = some (record {
        key = r.name;
        create_revision = r.create_revision;
        mod_revision = r.prev_revision;
        value = r.old_value;
        lease = r.lease;
      });
    }

-- The loop over rows.Next. Its exits by an error, of a row's Scan or in the iteration, are left out: the
-- database hands out every row of a query that it answered.
unfoldable pub rows_to_events : List Row → List Event
rows_to_events = map scan
