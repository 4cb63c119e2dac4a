-- ===== src/Scheduler/Schedule/Progress.antt =====
-- Schedule of pkg/scheduler/algorithm/generic.go: when it succeeds, and when no cluster fits.
use clusternet.Prelude.{
  ℕ, ◌+◌, ◌≡◌, refl, ap, String, true, false, List, [], ◌∷◌, map, length, ok, ◌==◌,
}
use clusternet.Scheduler.Api.{ManagedCluster, Subscription}
use clusternet.Scheduler.FrameworkImpl.{FrameworkImpl, is_empty}
use clusternet.Scheduler.Cache.{ClusterLister, num_clusters}
use clusternet.Scheduler.Algorithm.{GenericScheduler}
use clusternet.Scheduler.Schedule.Soundness.{names-ones}
use clusternet.Scheduler.Schedule.{
  Outcome, scheduled, refused, fit_error, prioritize_clusters, select_clusters,
  find_clusters_that_fit_subscription, rank, schedule, Fit,
}

module _ {W S : Type 0} (key : ManagedCluster → String) (lister : ClusterLister S)
    (fwk : FrameworkImpl W S) (order : ℕ → List ℕ) (sub : Subscription S) where
  -- What Schedule answers for feasible clusters when there is no score plugin.
  abbrev pub answer_for : Fit W → List ManagedCluster → Outcome
  answer_for fit [] = refused (fit_error (num_clusters lister) fit.diagnosis)
  answer_for fit (c ∷ cs) = scheduled (record {
    suggested_clusters = map key (c ∷ cs);
    evaluated_clusters = length (c ∷ cs) + length fit.diagnosis.cluster_to_status_map;
    feasible_clusters = length (c ∷ cs);
  })

  -- If there are clusters, the search for feasible ones ends without an error and no score plugin is
  -- enabled, then Schedule suggests all feasible clusters in their order, or returns a FitError with
  -- the diagnosis when there are none.
  pub schedule_without_scores :
      (g : GenericScheduler) (w : W) (feasible : List ManagedCluster)
      → num_clusters lister == 0 ≡ false
      → is_empty fwk.score_plugins ≡ true
      → (find_clusters_that_fit_subscription key lister fwk order g w sub).clusters ≡ ok feasible
      → (schedule key lister fwk order g w sub).outcome
        ≡ answer_for (find_clusters_that_fit_subscription key lister fwk order g w sub) feasible
  unfolding schedule rank prioritize_clusters select_clusters
  schedule_without_scores g w [] some_clusters unscored found =
      rw (schedule, some_clusters, found) refl
  schedule_without_scores g w (c ∷ cs) some_clusters unscored found =
      rw (schedule, some_clusters, found, rank, prioritize_clusters, unscored)
        (ap
          (λ (names : List String). scheduled (record {
            suggested_clusters = key c ∷ names;
            evaluated_clusters = length (c ∷ cs) + length fit.diagnosis.cluster_to_status_map;
            feasible_clusters = length (c ∷ cs);
          }))
          (names-ones key _ cs (λ d. refl)))
    where
      fit : Fit W
      fit = find_clusters_that_fit_subscription key lister fwk order g w sub
