-- ===== src/Tests/Stacks.antt =====
-- Witnesses for the transactions, the writes and the reads of the backend.
use k8s_dqlite.Prelude.{◌≢◌, ◌≡◌, true, false, none, some, [], arith}
use k8s_dqlite.Bytes.{codes}
use k8s_dqlite.Results.{ok}
use k8s_dqlite.Spec
use k8s_dqlite.Table.Refines.{abstract_store}
use k8s_dqlite.Server.{RangeRequest, kine}
use k8s_dqlite.Server.Txns.{txn}
use k8s_dqlite.Server.Replies.{Applies}
use k8s_dqlite.Server.Stack.{
  put_at, create_request, update_request, delete_request, txn_create, txn_update, txn_delete,
}
use k8s_dqlite.Server.Dispatch.{Shape, txn-Shape}
use k8s_dqlite.Server.Pages.{Answers, IsPage, list-IsPage}
use k8s_dqlite.Server.Ranges
use k8s_dqlite.Generic.Writes.{Writes}
use k8s_dqlite.Logstructured
use k8s_dqlite.Logstructured.{list_within}
use k8s_dqlite.Logstructured.Writes.{create-refines, update-refines, delete-refines}
use k8s_dqlite.Logstructured.Relists.{list_within_ends}
use k8s_dqlite.Logstructured.Ttl.{WrittenAt, expire, expire_keeps}
use k8s_dqlite.Events.{Event}
use k8s_dqlite.Bytes.{same}
use k8s_dqlite.Table.{create_sql, update_sql, delete_sql, latest, insert, place}
use k8s_dqlite.Tests.{pod, pod_user, t5, t5-IsLog, busy, shaky}

abbrev pods : RangeRequest
pods = record {
  key = codes "/pods/";
  range_end = codes "/pods0";
  limit = 1;
  revision = 0;
  count_only = false;
  keys_only = false;
  serializable = false;
  sort_order = 0;
  sort_target = 0;
  min_mod_revision = 0;
  max_mod_revision = 0;
  min_create_revision = 0;
  max_create_revision = 0;
}

txn_create_example :
    Applies 0 shaky
      (Spec.create pod 0 (some (codes "y")) (abstract_store t5))
      (txn (kine busy) (create_request pod (some (codes "y")) 0) shaky)
txn_create_example = txn_create busy shaky t5-IsLog pod pod_user (some (codes "y")) 0

txn_update_example :
    Applies 0 shaky
      (put_at pod 5 (some (codes "y")) 0 (abstract_store t5))
      (txn (kine busy) (update_request pod 5 (some (codes "y")) 0 pods) shaky)
txn_update_example = txn_update busy shaky t5-IsLog pod pod_user 5 (some (codes "y")) 0 pods

txn_delete_example :
    Applies 0 shaky
      (Spec.delete pod 5 (abstract_store t5))
      (txn (kine busy) (delete_request pod 5 pods) shaky)
txn_delete_example = txn_delete busy shaky t5-IsLog pod pod_user 5 pods

create-refines_example :
    Writes 0 shaky
      (Spec.create pod 7 (some (codes "y")) (abstract_store t5))
      (Logstructured.create busy pod (some (codes "y")) 7 shaky)
create-refines_example = create-refines busy shaky t5-IsLog pod pod_user (some (codes "y")) 7

update-refines_example :
    Writes 0 shaky
      (Spec.update pod 7 (some (codes "y")) 5 (abstract_store t5))
      (Logstructured.update busy pod (some (codes "y")) 5 7 shaky)
update-refines_example = update-refines busy shaky t5-IsLog pod pod_user (some (codes "y")) 5 7

delete-refines_example :
    Writes 0 shaky (Spec.delete pod 5 (abstract_store t5)) (Logstructured.delete busy pod 5 shaky)
delete-refines_example = delete-refines busy shaky t5-IsLog pod pod_user 5

list_within_ends_example : (list_within busy 2 (codes "/none/") [] 0 0 shaky).0 ≢ ok none
list_within_ends_example = list_within_ends busy (codes "/none/") [] 0 0 shaky t5-IsLog

txn-Shape_example : Shape (update_request pod 5 (some (codes "y")) 0 pods)
txn-Shape_example = txn-Shape (update_request pod 5 (some (codes "y")) 0 pods)

list-IsPage_example : Answers (IsPage 1) (Ranges.list (kine busy) pods shaky).0
list-IsPage_example = list-IsPage (kine busy) pods shaky (omega arith)

-- The lease of the pod's first version.
abbrev first_version : Event
first_version = record {
  delete = false;
  create = true;
  kv = record {
    key = pod;
    create_revision = 2;
    mod_revision = 2;
    value = some (codes "v");
    lease = 9;
  };
  prev_kv = none;
}

written_later : WrittenAt 2 ((abstract_store t5).entries pod) → ⊥
unfolding abstract_store create_sql update_sql delete_sql latest insert place same
written_later w = absurd (omega (arith, w))

expire_keeps_example : abstract_store (expire busy first_version shaky).1.table ≡ abstract_store t5
expire_keeps_example = expire_keeps busy first_version shaky t5-IsLog pod_user written_later
