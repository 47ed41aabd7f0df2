-- ===== src/Server/Backends.antt =====
-- The interface `Backend` of pkg/kine/server/types.go, and the backend that the program uses.
use k8s_dqlite.Prelude.{ℕ, Bool, Option, List}
use k8s_dqlite.Bytes.{Bytes}
use k8s_dqlite.Table.{Blob}
use k8s_dqlite.Events.{KeyValue}
use k8s_dqlite.Exec.{M}
use k8s_dqlite.Generic.{Config}
use k8s_dqlite.Logstructured

pub record Backend : Type 0 where
  pub get : Bytes → Bytes → ℕ → ℕ → M (ℕ × Option KeyValue)
  pub create : Bytes → Blob → ℕ → M (ℕ × Bool)
  pub delete : Bytes → ℕ → M (ℕ × Bool)
  pub list : Bytes → Bytes → ℕ → ℕ → M (ℕ × List KeyValue)
  pub count : Bytes → Bytes → ℕ → M (ℕ × ℕ)
  pub update : Bytes → Blob → ℕ → ℕ → M (ℕ × Bool)
  pub db_size : M ℕ

-- logstructured.New(sqllog.New(dialect))
abbrev pub kine : Config → Backend
kine d = record {
  get = Logstructured.get d;
  create = Logstructured.create d;
  delete = Logstructured.delete d;
  list = Logstructured.list d;
  count = Logstructured.count d;
  update = Logstructured.update d;
  db_size = Logstructured.db_size d;
}
