-- ===== src/Scheduler/Schedule.antt =====
-- pkg/scheduler/algorithm/generic.go: Schedule and the steps that it is made of. The answers of the
-- cache during one call are those of one `lister`.
pub mod Soundness
pub mod Progress
use clusternet.Prelude.{
  ℕ, suc, ◌+◌, String, Bool, true, false, Option, none, some, List, [], ◌∷◌, ◌++◌, length,
  get_elem?, Result, ok, err, ◌>>=◌, Message, text, map, put, ◌==◌, if◌then◌else◌,
}
use clusternet.Prelude.Int.{ℤ, pos, int64, ◌+ℤ◌}
use clusternet.Scheduler.Api.{ManagedCluster, Subscriber, Subscription}
use clusternet.Scheduler.Status.{Status, is_success, is_unschedulable, failure_of}
use clusternet.Scheduler.Filter.{failing}
use clusternet.Scheduler.Plugins.{ClusterScore}
use clusternet.Scheduler.FrameworkImpl.{FrameworkImpl, is_empty}
use clusternet.Scheduler.Framework.{run_pre_filter_plugins, run_pre_score_plugins}
use clusternet.Scheduler.Score.{run_score_plugins}
use clusternet.Scheduler.Cache.{ClusterLister, cache_list, num_clusters}
use clusternet.Scheduler.Algorithm.{
  Diagnosis, GenericScheduler, normalized_clusters, insert_name, find_clusters_that_pass_filters,
}

pub record ScheduleResult : Type 0 where
  pub suggested_clusters : List String
  pub evaluated_clusters : ℕ
  pub feasible_clusters : ℕ

-- The errors of Schedule: ErrNoClustersAvailable, a FitError, and any other.
pub data ScheduleError : Type 0 where
  no_clusters_available : ScheduleError
  fit_error : ℕ → Diagnosis → ScheduleError
  failed : Message → ScheduleError

pub data Outcome : Type 0 where
  scheduled : ScheduleResult → Outcome
  refused : ScheduleError → Outcome

-- The loop over the subscribers.
unfoldable pub list_all :
    {S : Type 0} → ClusterLister S → List (Subscriber S) → Result (List ManagedCluster)
list_all lister [] = ok []
list_all lister (s ∷ ss) = do
  clusters ← cache_list lister s.cluster_affinity
  rest ← list_all lister ss
  ok (clusters ++ rest)

-- Every cluster gets the one status of the "prefilter" plugins.
unfoldable pub same_status :
    (ManagedCluster → String)
    → Status
    → List ManagedCluster
    → List (String × Status)
    → List (String × Status)
same_status key s [] statuses = statuses
same_status key s (c ∷ cs) statuses = same_status key s cs (put (key c) s statuses)

pub record Scheduling (W : Type 0) : Type 0 where
  pub scheduler : GenericScheduler
  pub outcome : Outcome
  pub world : W

-- What findClustersThatFitSubscription leaves and returns.
pub record Fit (W : Type 0) : Type 0 where
  pub scheduler : GenericScheduler
  pub world : W
  pub diagnosis : Diagnosis
  pub clusters : Result (List ManagedCluster)

-- The sum of a cluster's scores in the table of RunScorePlugins. Scores are written in place, so each
-- column has one for every cluster, and the index is in range.
unfoldable pub total_score : ℕ → List (String × List ClusterScore) → ℤ
total_score i [] = pos 0
total_score i ((plugin, scores) ∷ table) =
    int64 (elim (get_elem? scores i) [ none ↦ pos 0 | some c ↦ c.score ] +ℤ total_score i table)

module _ (key : ManagedCluster → String) where
  unfoldable pub summarize :
      List (String × List ClusterScore) → List ManagedCluster → ℕ → List ClusterScore
  summarize table [] i = []
  summarize table (c ∷ cs) i =
      record { namespaced_name = key c; score = total_score i table } ∷ summarize table cs (i + 1)

  unfoldable pub prioritize_clusters :
      {W S : Type 0}
      → FrameworkImpl W S
      → W
      → Subscription S
      → List ManagedCluster
      → Result (List ClusterScore) × W
  prioritize_clusters fwk w sub clusters = elim (is_empty fwk.score_plugins) [
    | true ↦ (
      ok (map (λ (c : ManagedCluster). record { namespaced_name = key c; score = pos 1 }) clusters),
      w,
    )
    | false ↦
        let pre = run_pre_score_plugins sub clusters fwk.pre_score_plugins w in
        elim (failing pre.0) [
          | some s ↦ (err (failure_of s), pre.1)
          | none ↦
              let scores =
                run_score_plugins key fwk.score_plugin_weight pre.1 sub clusters
                  fwk.score_plugins in
              elim (failing scores.1) [
                | some s ↦ (err (failure_of s), pre.1)
                | none ↦ (ok (summarize scores.0 clusters 0), pre.1)
              ]
        ]
  ]

unfoldable pub select_clusters : List ClusterScore → Result (List String)
select_clusters [] = err (text "empty clusterScoreList")
select_clusters (c ∷ cs) = ok (map (λ (d : ClusterScore). d.namespaced_name) (c ∷ cs))

module _ {W S : Type 0} (key : ManagedCluster → String) (lister : ClusterLister S)
    (fwk : FrameworkImpl W S) (order : ℕ → List ℕ) where
  unfoldable pub find_clusters_that_fit_subscription : GenericScheduler → W → Subscription S → Fit W
  find_clusters_that_fit_subscription g w sub =
      let diagnosis : Diagnosis = record {
        cluster_to_status_map = [];
        unschedulable_plugins = [];
      } in
      elim (list_all lister sub.subscribers) [
        | err e ↦ record { scheduler = g; world = w; diagnosis = diagnosis; clusters = err e }
        | ok listed ↦
            let all_clusters = normalized_clusters key listed in
            elim (is_empty all_clusters) [
              | true ↦ record { scheduler = g; world = w; diagnosis = diagnosis; clusters = ok [] }
              | false ↦
                  let pre = run_pre_filter_plugins sub fwk.pre_filter_plugins w in
                  elim (failing pre.0) [
                    | some s ↦
                        if is_unschedulable (some s)
                        then record {
                          scheduler = g;
                          world = pre.1;
                          diagnosis = record {
                            cluster_to_status_map = same_status key s all_clusters [];
                            unschedulable_plugins = insert_name s.failed_plugin [];
                          };
                          clusters = ok [];
                        }
                        else record {
                          scheduler = g;
                          world = pre.1;
                          diagnosis = diagnosis;
                          clusters = err (failure_of s);
                        }
                    | none ↦
                        let found =
                          find_clusters_that_pass_filters key fwk order g pre.1 sub diagnosis
                            all_clusters in
                        record {
                          scheduler = found.0;
                          world = pre.1;
                          diagnosis = found.1;
                          clusters = found.2;
                        }
                  ]
            ]
      ]

  -- The steps after the feasible clusters are found.
  unfoldable pub rank : W → Subscription S → Diagnosis → List ManagedCluster → Outcome × W
  rank w sub diagnosis feasible = elim (is_empty feasible) [
    | true ↦ (refused (fit_error (num_clusters lister) diagnosis), w)
    | false ↦
        let priority_list = prioritize_clusters key fwk w sub feasible in
        elim (priority_list.0 >>= select_clusters) [
          | err e ↦ (refused (failed e), priority_list.1)
          | ok clusters ↦ (
            scheduled (record {
              suggested_clusters = clusters;
              evaluated_clusters = length feasible + length diagnosis.cluster_to_status_map;
              feasible_clusters = length feasible;
            }),
            priority_list.1,
          )
        ]
  ]

  unfoldable pub schedule : GenericScheduler → W → Subscription S → Scheduling W
  schedule g w sub =
      if num_clusters lister == 0
      then record { scheduler = g; outcome = refused no_clusters_available; world = w }
      else (let fit = find_clusters_that_fit_subscription g w sub in
          elim fit.clusters [
            | err e ↦ record {
              scheduler = fit.scheduler;
              outcome = refused (failed e);
              world = fit.world;
            }
            | ok feasible ↦
                let ranked = rank fit.world sub fit.diagnosis feasible in
                record { scheduler = fit.scheduler; outcome = ranked.0; world = ranked.1 }
          ])
