-- ===== src/Controllers/ClusterLifecycle.antt =====
-- pkg/controllers/clusters/clusterlifecycle: a cluster whose agent stops posting its status becomes
-- Unknown. Times are nanoseconds from some time on; durations are int64, with their wrap-around. The
-- time zero is none. The lister, the client, the clock and the functions on keys are parameters.
pub mod Queue
use clusternet.Prelude.Int.{ℤ, pos, ltb_ℤ, ◌+ℤ◌, ◌*ℤ◌, int64}
use clusternet.Prelude.{
  ℕ, suc, ◌+◌, ◌*◌, ◌<◌, ◌≤◌, String, Bool, true, false, not, ◌&&◌, Option, none, some, List, [],
  ◌∷◌, same_text, ltb, ◌==◌, Result, ok, err, Message, named, about, if◌then◌else◌,
}
use clusternet.Hub.Api.{Failure, not_found, other, Answer, found, failed, failure_message}
use clusternet.Hub.Bases.{message_of}

pub record Condition : Type 0 where
  pub condition_type : String
  pub status : String
  pub last_transition_time : ℕ
  pub reason : String
  pub message : String

pub record ClusterStatus : Type 0 where
  pub last_observed_time : Option ℕ
  pub heartbeat_frequency_seconds : Option ℤ
  pub readyz : Bool
  pub livez : Bool
  pub healthz : Bool
  pub conditions : List Condition

pub record Cluster : Type 0 where
  pub namespace : String
  pub name : String
  pub creation_timestamp : ℕ
  pub status : ClusterStatus

abbrev pub second : ℕ
second = 1000000000

abbrev pub default_cluster_monitor_grace_period : ℤ
default_cluster_monitor_grace_period = pos (540 * second)

abbrev pub cluster_not_ready_threshold : ℕ
cluster_not_ready_threshold = 3

unfoldable pub get_cluster_monitor_grace_period : ClusterStatus → ℤ
get_cluster_monitor_grace_period status = elim status.heartbeat_frequency_seconds [
  | none ↦ default_cluster_monitor_grace_period
  | some n ↦ int64 (int64 (pos second *ℤ n) *ℤ pos cluster_not_ready_threshold)
]

unfoldable pub condition_in : List Condition → String → Option Condition
condition_in [] t = none
condition_in (c ∷ conditions) t =
    let rest = condition_in conditions t in if same_text c.condition_type t then some c else rest

unfoldable pub get_cluster_condition : ClusterStatus → String → Option Condition
get_cluster_condition status t = condition_in status.conditions t

unfoldable pub probe_timestamp : Cluster → ℕ
probe_timestamp cluster = elim cluster.status.last_observed_time [
  | none ↦ cluster.creation_timestamp
  | some t ↦ t
]

-- The condition of a cluster at the time `now`, `none` for nil.
unfoldable pub generate_cluster_ready_condition : ℕ → Cluster → Option Condition
generate_cluster_ready_condition now cluster =
    if ltb_ℤ (pos (probe_timestamp cluster) +ℤ get_cluster_monitor_grace_period cluster.status)
      (pos now)
    then elim cluster.status.last_observed_time [
      | none ↦ some (record {
        condition_type = "Ready";
        status = "Unknown";
        last_transition_time = now;
        reason = "ClusterStatusNeverUpdated";
        message = "Clusternet agent never posted cluster status.";
      })
      | some t ↦ some (record {
        condition_type = "Ready";
        status = "Unknown";
        last_transition_time = now;
        reason = "ClusterStatusUnknown";
        message = "Clusternet agent stopped posting cluster status.";
      })
    ]
    else none

-- DeepEqual on conditions.
abbrev pub same_condition : Option Condition → Condition → Bool
same_condition none d = false
same_condition (some c) d =
    same_text c.condition_type d.condition_type
    && same_text c.status d.status
    && (c.last_transition_time == d.last_transition_time)
    && same_text c.reason d.reason
    && same_text c.message d.message

-- The cluster that updateClusterCondition writes.
unfoldable pub with_condition : Cluster → Condition → Cluster
with_condition cluster c =
    let unknown = same_text c.status "Unknown" in
    record cluster {
      status = record cluster.status {
        readyz = if unknown then false else cluster.status.readyz;
        livez = if unknown then false else cluster.status.livez;
        healthz = if unknown then false else cluster.status.healthz;
        conditions = c ∷ [];
      };
    }

module _ {W : Type 0} (update_status : Cluster → W → Option Failure × W) where
  unfoldable pub update_cluster_condition : ℕ → Cluster → W → Option Message × W
  update_cluster_condition now cluster w = elim (generate_cluster_ready_condition now cluster) [
    | none ↦ (none, w)
    | some c ↦ elim (same_condition (get_cluster_condition cluster.status "Ready") c) [
      | true ↦ (none, w)
      | false ↦
          let (answer, w') = update_status (with_condition cluster c) w in (message_of answer, w')
    ]
  ]

  -- The time after which a key is handled again, 0 for never, or an error.
  unfoldable pub sync_handler :
      (split : String → Result (String × String))
      → (get : W → String → String → Answer Cluster) → (now : ℕ) → String
      → W
      → Result ℤ × W
  sync_handler split get now key w = elim (split key) [
    | err e ↦ (ok (pos 0), w)
    | ok (ns, name) ↦ elim (get w ns name) [
      | failed not_found ↦ (ok (pos 0), w)
      | failed (other m) ↦ (err m, w)
      | found mcls ↦
          let (answer, w') = update_cluster_condition now mcls w in
          elim answer [
            | some e ↦ (err e, w')
            | none ↦ (ok (get_cluster_monitor_grace_period mcls.status), w')
          ]
    ]
  ]

-- What is done to a key that was taken off the work queue.
pub data Queued : Type 0 where
  add_rate_limited : String → Queued
  forget : String → Queued
  add_after : String → ℤ → Queued

module _ {W : Type 0} (handler : String → W → Result ℤ × W) where
  -- The function in processNextWorkItem, for a key that is a text: the calls on the queue, in order.
  unfoldable pub process_next_work_item : String → W → List Queued × W
  process_next_work_item key w =
      let (answer, w') = handler key w in
      elim answer [
        | err e ↦ (add_rate_limited key ∷ [], w')
        | ok requeue_after ↦ elim (ltb_ℤ (pos 0) requeue_after) [
          | true ↦ (forget key ∷ add_after key requeue_after ∷ [], w')
          | false ↦ (forget key ∷ [], w')
        ]
      ]
