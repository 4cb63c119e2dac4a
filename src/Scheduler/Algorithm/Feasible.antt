-- ===== src/Scheduler/Algorithm/Feasible.antt =====
-- findClustersThatPassFilters of pkg/scheduler/algorithm/generic.go as a whole.
use clusternet.Prelude.{
  ℕ, suc, zero, ◌+◌, ◌%◌, ◌≤◌, ◌≡◌, refl, sym, ◌∙◌, String, Bool, true, false, Option, none, some,
  List, [], ◌∷◌, length, Message, All, All-get_elem?, Ensures, arith,
}
use clusternet.Prelude.Int.{pos, pos_part, int32}
use clusternet.Scheduler.Api.{ManagedCluster, Subscription}
use clusternet.Scheduler.Status.{is_success}
use clusternet.Scheduler.Filter.Verdict.{all_pass, is_success-run_filter_plugins}
use clusternet.Scheduler.FrameworkImpl.{FrameworkImpl, is_empty}
use clusternet.Scheduler.Algorithm.{
  Diagnosis, Found, GenericScheduler, cluster_at, filter_status, check_clusters, window,
  find_clusters_that_pass_filters, num_feasible_clusters_to_find,
}
use clusternet.Scheduler.Algorithm.Filters.{IsSound, check_clusters-IsSound}

module _ {W S : Type 0} (key : ManagedCluster → String) (fwk : FrameworkImpl W S) (w : W)
    (sub : Subscription S) where
  -- Every filter plugin of the framework answers Success for the cluster.
  abbrev pub IsPassed : ManagedCluster → Type 0
  IsPassed c = all_pass fwk.run_all_filters w sub c fwk.filter_plugins ≡ true

  IsPassed-All :
      (P : ManagedCluster → Type 0) (cs : List ManagedCluster)
      → All (λ (c : ManagedCluster). P c × (is_success (filter_status fwk w sub c) ≡ true)) cs
      → All (λ (c : ManagedCluster). P c × IsPassed c) cs
  unfolding filter_status
  IsPassed-All P [] h = tt
  IsPassed-All P (c ∷ cs) h = (
    (
      h.0.0,
      sym (is_success-run_filter_plugins fwk.run_all_filters w sub c fwk.filter_plugins) ∙ h.0.1,
    ),
    IsPassed-All P cs h.1,
  )

  window-All :
      (P : ManagedCluster → Type 0) (cs : List ManagedCluster)
      → All P cs
      → is_empty fwk.filter_plugins ≡ true
      → (start n : ℕ)
      → (length (window cs start n) ≤ n)
        × All (λ (c : ManagedCluster). P c × IsPassed c) (window cs start n)
  unfolding window cluster_at
  window-All P cs p e start zero = (ground arith, tt)
  window-All P cs p e start (suc n) =
      go (cluster_at cs start 0) refl (window-All P cs p e (start + 1) n)
    where
      no_filter : (c : ManagedCluster) → IsPassed c
      no_filter c = none_fails fwk.filter_plugins e
        where
          none_fails :
              (pls : List _) → is_empty pls ≡ true → all_pass fwk.run_all_filters w sub c pls ≡ true
          none_fails [] q = refl
          none_fails (pl ∷ pls) q = ground arith

      go :
          (o : Option ManagedCluster)
          → cluster_at cs start 0 ≡ o
          → let rest = window cs (start + 1) n in
            (length rest ≤ n) × All (λ (c : ManagedCluster). P c × IsPassed c) rest
            → let seen : List ManagedCluster = elim o [ none ↦ [] | some c ↦ c ∷ rest ] in
              (length seen ≤ suc n) × All (λ (c : ManagedCluster). P c × IsPassed c) seen
      go none q h = (ground arith, tt)
      go (some c) q h =
          (ground arith, ((All-get_elem? P cs ((start + 0) % length cs) p q, no_filter c), h.1))

  -- Whatever clusters are given and in whatever order the workers do their pieces, the clusters that
  -- findClustersThatPassFilters returns when it returns no error are at most as many as
  -- numFeasibleClustersToFind asks for, are clusters that it was given, and pass every filter plugin.
  pub find_clusters_that_pass_filters-Ensures :
      (order : ℕ → List ℕ) (g : GenericScheduler) (diagnosis : Diagnosis)
      (P : ManagedCluster → Type 0) (clusters : List ManagedCluster)
      → All P clusters
      → Ensures
          (λ (found : List ManagedCluster).
            (length found
              ≤ pos_part (
                  num_feasible_clusters_to_find g.percentage_of_clusters_to_score
                    (int32 (pos (length clusters)))
                    sub.scheduling_strategy))
            × All (λ (c : ManagedCluster). P c × IsPassed c) found)
          (find_clusters_that_pass_filters key fwk order g w sub diagnosis clusters).2
  unfolding find_clusters_that_pass_filters
  find_clusters_that_pass_filters-Ensures order g diagnosis P clusters p =
      by_plugins (is_empty fwk.filter_plugins) refl
    where
      num : ℕ
      num = pos_part (
          num_feasible_clusters_to_find g.percentage_of_clusters_to_score
            (int32 (pos (length clusters))) sub.scheduling_strategy)

      start : ℕ
      start = g.next_start_cluster_index

      st : Found
      st =
          check_clusters key fwk w sub num clusters start (order (length clusters))
            (record { feasible = []; failure = none; cancelled = false; diagnosis = diagnosis })

      Good : List ManagedCluster → Type 0
      Good found = (length found ≤ num) × All (λ (c : ManagedCluster). P c × IsPassed c) found

      sound : IsSound key fwk w sub num P st
      sound =
          check_clusters-IsSound key fwk w sub num P clusters p start (order (length clusters)) _
            (record { bounded = ground arith; passed = tt })

      by_failure :
          (o : Option Message)
          → st.failure ≡ o
          → is_empty fwk.filter_plugins ≡ false
          → Ensures Good
              (find_clusters_that_pass_filters key fwk order g w sub diagnosis clusters).2
      by_failure none q e =
          rw (find_clusters_that_pass_filters, e, q)
            (sound.bounded, IsPassed-All P st.feasible sound.passed)
      by_failure (some m) q e = rw (find_clusters_that_pass_filters, e, q) tt

      by_plugins :
          (b : Bool)
          → is_empty fwk.filter_plugins ≡ b
          → Ensures Good
              (find_clusters_that_pass_filters key fwk order g w sub diagnosis clusters).2
      by_plugins true e =
          rw (find_clusters_that_pass_filters, e) (window-All P clusters p e start num)
      by_plugins false e = by_failure st.failure refl e
