-- ===== src/Scheduler/Algorithm.antt =====
-- pkg/scheduler/algorithm/generic.go: choosing the clusters of a subscription.
pub mod Search
pub mod Filters
pub mod Sample
pub mod Feasible
use clusternet.Prelude.{
  ℕ, suc, ◌+◌, ◌%◌, String, Bool, true, false, ◌||◌, Option, none, some, List, [], ◌∷◌, ◌++◌,
  length, get_elem?, contains, if◌then◌else◌, Result, ok, err, ◌>>=◌, Message, text, map, put, ltb,
  same_text, zero,
}
use clusternet.Prelude.Int.{ℤ, pos, pos_part, int32, quot, ◌*ℤ◌, ◌-ℤ◌, ltb_ℤ, leb_ℤ}
use clusternet.Scheduler.Api.{ManagedCluster, Subscription}
use clusternet.Scheduler.Status.{Status, error, same_code, is_success, code_of, failure_of, Code}
use clusternet.Scheduler.Merge.{merge}
use clusternet.Scheduler.Filter.{failing, run_filter_plugins}
use clusternet.Scheduler.FrameworkImpl.{FrameworkImpl, is_empty}

abbrev pub min_feasible_clusters_to_find : ℤ
min_feasible_clusters_to_find = pos 100

abbrev pub min_feasible_clusters_percentage_to_find : ℤ
min_feasible_clusters_percentage_to_find = pos 5

pub record GenericScheduler : Type 0 where
  pub percentage_of_clusters_to_score : ℤ
  pub next_start_cluster_index : ℕ

-- `percentageOfClustersToScore`, or a percentage that falls with the number of clusters.
unfoldable pub adaptive_percentage : ℤ → ℤ → ℤ
adaptive_percentage percentage num_all_clusters =
    if leb_ℤ percentage (pos 0)
    then (let adaptive = int32 (pos 50 -ℤ quot num_all_clusters (pos 125)) in
        if ltb_ℤ adaptive min_feasible_clusters_percentage_to_find
        then min_feasible_clusters_percentage_to_find
        else adaptive)
    else percentage

unfoldable pub num_feasible_clusters_to_find : ℤ → ℤ → String → ℤ
num_feasible_clusters_to_find percentage num_all_clusters scheduling_strategy =
    if ltb_ℤ num_all_clusters min_feasible_clusters_to_find
      || leb_ℤ (pos 100) percentage
      || same_text scheduling_strategy "Replication"
    then num_all_clusters
    else (let n =
          quot (int32 (num_all_clusters *ℤ adaptive_percentage percentage num_all_clusters))
            (pos 100) in
        if ltb_ℤ n min_feasible_clusters_to_find then min_feasible_clusters_to_find else n)

-- normalizedClusters, where `keys` is allKeys.
module _ (key : ManagedCluster → String) where
  unfoldable pub normalized_from : List String → List ManagedCluster → List ManagedCluster
  normalized_from keys [] = []
  normalized_from keys (c ∷ cs) =
      let skipped = normalized_from keys cs in
      let taken = c ∷ normalized_from (key c ∷ keys) cs in
      if contains (key c) keys then skipped else if c.deleting then skipped else taken

  unfoldable pub normalized_clusters : List ManagedCluster → List ManagedCluster
  normalized_clusters cs = normalized_from [] cs

pub record Diagnosis : Type 0 where
  pub cluster_to_status_map : List (String × Status)
  pub unschedulable_plugins : List String

-- What the workers of findClustersThatPassFilters share: the filled slots of feasibleClusters, the
-- error channel of capacity one, whether the context is cancelled, and the diagnosis.
pub record Found : Type 0 where
  pub feasible : List ManagedCluster
  pub failure : Option Message
  pub cancelled : Bool
  pub diagnosis : Diagnosis

-- `clusters[(start + i) % len(clusters)]`; with no cluster at all there is no call.
unfoldable pub cluster_at : List ManagedCluster → ℕ → ℕ → Option ManagedCluster
cluster_at clusters start i = get_elem? clusters ((start + i) % length clusters)

unfoldable pub insert_name : String → List String → List String
insert_name name names = if contains name names then names else name ∷ names

-- SendErrorWithCancel.
unfoldable pub send_error : Message → Found → Found
send_error e st = record st {
  failure = elim st.failure [ none ↦ some e | some old ↦ some old ];
  cancelled = true;
}

-- The merged status of RunFilterPlugins for a cluster.
unfoldable pub filter_status :
    {W S : Type 0} → FrameworkImpl W S → W → Subscription S → ManagedCluster → Option Status
filter_status fwk w sub cluster =
    merge (run_filter_plugins fwk.run_all_filters w sub cluster fwk.filter_plugins)

module _ {W S : Type 0} (key : ManagedCluster → String) (fwk : FrameworkImpl W S) (w : W)
    (sub : Subscription S) where
  -- checkCluster for one cluster; `num` is numClustersToFind. A worker's update of the shared
  -- counter and of its slot count as one step.
  unfoldable pub check_cluster : ℕ → ManagedCluster → Found → Found
  check_cluster num cluster st = elim (failing (filter_status fwk w sub cluster)) [
    | none ↦
        if ltb num (length st.feasible + 1)
        then record st { cancelled = true }
        else record st { feasible = st.feasible ++ cluster ∷ [] }
    | some s ↦ if same_code s.code error then send_error (failure_of s) st else record st {
      diagnosis = record {
        cluster_to_status_map = put (key cluster) s st.diagnosis.cluster_to_status_map;
        unschedulable_plugins = insert_name s.failed_plugin st.diagnosis.unschedulable_plugins;
      };
    }
  ]

  -- Until, for the pieces of work that are done, in the order in which they take effect.
  unfoldable pub check_clusters : ℕ → List ManagedCluster → ℕ → List ℕ → Found → Found
  check_clusters num clusters start [] st = st
  check_clusters num clusters start (i ∷ order) st =
      check_clusters num clusters start order
        (elim (cluster_at clusters start i) [ none ↦ st | some c ↦ check_cluster num c st ])

-- The clusters at `count` places from `start` on, going round.
unfoldable pub window : List ManagedCluster → ℕ → ℕ → List ManagedCluster
window clusters start zero = []
window clusters start (suc n) = elim (cluster_at clusters start 0) [
  | none ↦ []
  | some c ↦ c ∷ window clusters (start + 1) n
]

module _ {W S : Type 0} (key : ManagedCluster → String) (fwk : FrameworkImpl W S)
    (order : ℕ → List ℕ) where
  -- findClustersThatPassFilters. `order` gives, for a number of clusters, the pieces that the workers
  -- do, in order.
  unfoldable pub find_clusters_that_pass_filters :
      GenericScheduler
      → W
      → Subscription S
      → Diagnosis
      → List ManagedCluster
      → GenericScheduler × Diagnosis × Result (List ManagedCluster)
  find_clusters_that_pass_filters g w sub diagnosis clusters =
      let total = length clusters in
      let num = pos_part (
        num_feasible_clusters_to_find g.percentage_of_clusters_to_score (int32 (pos total))
          sub.scheduling_strategy) in
      let start = g.next_start_cluster_index in
      elim (is_empty fwk.filter_plugins) [
        | true ↦ (
          record g { next_start_cluster_index = (start + num) % total },
          diagnosis,
          ok (window clusters start num),
        )
        | false ↦
            let st = check_clusters key fwk w sub num clusters start (order total) (record {
              feasible = [];
              failure = none;
              cancelled = false;
              diagnosis = diagnosis;
            }) in
            let processed = length st.feasible + length st.diagnosis.cluster_to_status_map in
            let g' = record g { next_start_cluster_index = (start + processed) % total } in
            elim st.failure [
              | none ↦ (g', st.diagnosis, ok st.feasible)
              | some e ↦ (g', st.diagnosis, err e)
            ]
      ]
