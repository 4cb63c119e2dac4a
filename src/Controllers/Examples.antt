-- ===== src/Controllers/Examples.antt =====
-- The cluster lifecycle controller at a cluster whose agent reported once, at the tenth second.
mod Apps
mod Status
use clusternet.Prelude.{
  ◌*◌, String, true, Option, none, some, [], ◌∷◌, ◌≡◌, ◌⊎◌, refl, Result, ok, arith,
}
use clusternet.Hub.Api.{Failure, Answer, found}
use clusternet.Controllers.ClusterLifecycle.{
  Condition, Cluster, second, with_condition, sync_handler, add_rate_limited, forget, add_after,
  process_next_work_item, get_cluster_monitor_grace_period, probe_timestamp,
  update_cluster_condition, generate_cluster_ready_condition,
}
use clusternet.Prelude.Int.{pos, ◌+ℤ◌, ◌*ℤ◌, int64}
use clusternet.Controllers.ClusterLifecycle.Queue.{
  SaysUnknown, IsUnwell, Records, process_next_work_item-requeues, sync_handler-SaysUnknown,
}

abbrev near : Cluster
near = record {
  namespace = "ns-near";
  name = "near";
  creation_timestamp = 0;
  status = record {
    last_observed_time = some (10 * second);
    heartbeat_frequency_seconds = some (pos 60);
    readyz = true;
    livez = true;
    healthz = true;
    conditions = [];
  };
}

abbrev update_status : Cluster → Cluster → Option Failure × Cluster
update_status c w = (none, c)

abbrev split : String → Result (String × String)
split k = ok ("ns-near", "near")

abbrev get : Cluster → String → String → Answer Cluster
get w ns n = found near

process_next_work_item-requeues_example :
    ((process_next_work_item (sync_handler update_status split get (20 * second)) "near" near).0
      ≡ add_rate_limited "near" ∷ [])
    ⊎ ((process_next_work_item (sync_handler update_status split get (20 * second)) "near" near).0
        ≡ forget "near" ∷ add_after "near" (get_cluster_monitor_grace_period near.status) ∷ [])
unfolding get_cluster_monitor_grace_period int64 ◌*ℤ◌
process_next_work_item-requeues_example =
    process_next_work_item-requeues update_status split get (20 * second) "near" "ns-near" "near"
      near near refl refl refl

sync_handler-SaysUnknown_example :
    (c : Condition) × SaysUnknown (200 * second) c
    × Records update_status split get near c near
        (sync_handler update_status split get (200 * second) "near" near)
unfolding ◌+ℤ◌ ◌*ℤ◌ probe_timestamp sync_handler update_cluster_condition
    generate_cluster_ready_condition get_cluster_monitor_grace_period int64
sync_handler-SaysUnknown_example =
    sync_handler-SaysUnknown update_status split get (20 * second) (200 * second)
      (pos (180 * second)) "near" "ns-near" "near" near near near refl refl refl (ground arith) refl
      (ground arith)
