-- ===== src/Scheduler/Schedule/Soundness.antt =====
-- Schedule of pkg/scheduler/algorithm/generic.go: which clusters it suggests.
use mathlib.Core.Path.{subst}
use clusternet.Prelude.{
  ℕ, ◌+◌, ◌<◌, ◌≡◌, refl, ap, String, Bool, true, false, Option, none, some, List, [], ◌∷◌, map,
  length, Result, ok, err, ◌>>=◌, All, Ensures, Ensures-bind, arith, ◌==◌, Ensures-imp,
}
use clusternet.Scheduler.Api.{ManagedCluster, Subscription}
use clusternet.Scheduler.Status.{Status, is_unschedulable}
use clusternet.Scheduler.Filter.{failing}
use clusternet.Scheduler.Plugins.{ClusterScore}
use clusternet.Scheduler.FrameworkImpl.{FrameworkImpl, is_empty}
use clusternet.Scheduler.Framework.{run_pre_filter_plugins, run_pre_score_plugins}
use clusternet.Scheduler.Score.{run_score_plugins}
use clusternet.Scheduler.Cache.{ClusterLister, num_clusters}
use clusternet.Scheduler.Algorithm.{
  GenericScheduler, Diagnosis, normalized_clusters, find_clusters_that_pass_filters,
}
use clusternet.Scheduler.Algorithm.Search.{normalized_clusters_lem}
use clusternet.Scheduler.Algorithm.Feasible.{IsPassed, find_clusters_that_pass_filters-Ensures}
use clusternet.Scheduler.Schedule.{
  ScheduleResult, Outcome, scheduled, refused, list_all, prioritize_clusters, summarize,
  select_clusters, find_clusters_that_fit_subscription, rank, schedule, Fit,
}

abbrev names : List ClusterScore → List String
names l = map (λ (d : ClusterScore). d.namespaced_name) l

names-summarize :
    (key : ManagedCluster → String) (table : List (String × List ClusterScore))
    (cs : List ManagedCluster) (i : ℕ)
    → names (summarize key table cs i) ≡ map key cs
unfolding summarize
names-summarize key table [] i = refl
names-summarize key table (c ∷ cs) i = ap (λ l. key c ∷ l) (names-summarize key table cs (i + 1))

pub names-ones :
    (key : ManagedCluster → String) (score : ManagedCluster → ClusterScore)
    (cs : List ManagedCluster)
    → ((c : ManagedCluster) → (score c).namespaced_name ≡ key c)
    → names (map score cs) ≡ map key cs
names-ones key score [] h = refl
names-ones key score (c ∷ cs) h = rw (h c, names-ones key score cs h) refl

module _ {W S : Type 0} (key : ManagedCluster → String) (fwk : FrameworkImpl W S)
    (sub : Subscription S) where
  -- The priority list has the clusters that are given, in their order.
  prioritize_clusters-names :
      (w : W) (clusters : List ManagedCluster)
      → Ensures
          (λ (l : List ClusterScore). names l ≡ map key clusters)
          (prioritize_clusters key fwk w sub clusters).0
  unfolding prioritize_clusters
  prioritize_clusters-names w clusters = go (is_empty fwk.score_plugins) refl
    where
      pre : Option Status × W
      pre = run_pre_score_plugins sub clusters fwk.pre_score_plugins w

      Named : Type 0
      Named =
          Ensures (λ (l : List ClusterScore). names l ≡ map key clusters)
            (prioritize_clusters key fwk w sub clusters).0

      scored :
          is_empty fwk.score_plugins ≡ false
          → failing pre.0 ≡ none
          → (o : Option Status)
          → failing
              (run_score_plugins key fwk.score_plugin_weight pre.1 sub clusters fwk.score_plugins).1
            ≡ o
          → Named
      scored e f none q = rw (prioritize_clusters, e, f, q) (names-summarize key _ clusters 0)
      scored e f (some s) q = rw (prioritize_clusters, e, f, q) tt

      prescored :
          is_empty fwk.score_plugins ≡ false → (o : Option Status) → failing pre.0 ≡ o → Named
      prescored e none f = scored e f _ refl
      prescored e (some s) f = rw (prioritize_clusters, e, f) tt

      go : (b : Bool) → is_empty fwk.score_plugins ≡ b → Named
      go true e = rw (prioritize_clusters, e) (names-ones key _ clusters (λ c. refl))
      go false e = prescored e _ refl

select_clusters-Ensures :
    (l : List ClusterScore)
    → Ensures (λ (s : List String). (s ≡ names l) × (0 < length s)) (select_clusters l)
unfolding select_clusters
select_clusters-Ensures [] = tt
select_clusters-Ensures (c ∷ cs) = (refl, ground arith)

-- An outcome that is no error satisfies `Q`.
abbrev pub Suggests : (ScheduleResult → Type 0) → Outcome → Type 0
Suggests Q (scheduled r) = Q r
Suggests Q (refused e) = Unit

module _ {W S : Type 0} (key : ManagedCluster → String) (lister : ClusterLister S)
    (fwk : FrameworkImpl W S) (order : ℕ → List ℕ) (sub : Subscription S) where
  -- The suggestion names clusters with `P` that are not being deleted and that pass every filter, at
  -- least one of them.
  abbrev pub Chosen : (ManagedCluster → Type 0) → W → ScheduleResult → Type 0
  Chosen P w r =
      (kept : List ManagedCluster) × (r.suggested_clusters ≡ map key kept)
      × (0 < length r.suggested_clusters)
      × All (λ (c : ManagedCluster). (P c × (c.deleting ≡ false)) × IsPassed key fwk w sub c) kept

  rank-Suggests :
      (w : W) (diagnosis : Diagnosis) (feasible : List ManagedCluster)
      → Suggests
          (λ (r : ScheduleResult).
            (r.suggested_clusters ≡ map key feasible) × (0 < length r.suggested_clusters))
          (rank key lister fwk order w sub diagnosis feasible).0
  unfolding rank
  rank-Suggests w diagnosis [] = tt
  rank-Suggests w diagnosis (c ∷ cs) = go (priority_list.0 >>= select_clusters) refl selected
    where
      priority_list : Result (List ClusterScore) × W
      priority_list = prioritize_clusters key fwk w sub (c ∷ cs)

      Named : List String → Type 0
      Named l = (l ≡ map key (c ∷ cs)) × (0 < length l)

      selected : Ensures Named (priority_list.0 >>= select_clusters)
      selected =
          Ensures-bind (λ (l : List ClusterScore). names l ≡ map key (c ∷ cs)) Named priority_list.0
            select_clusters (prioritize_clusters-names key fwk sub w (c ∷ cs))
            (λ l h.
              subst
                (λ (ks : List String).
                  Ensures (λ (n : List String). (n ≡ ks) × (0 < length n)) (select_clusters l))
                h (select_clusters-Ensures l))

      go :
          (r : Result (List String))
          → (priority_list.0 >>= select_clusters) ≡ r
          → Ensures Named r
          → Suggests
              (λ (r : ScheduleResult). Named r.suggested_clusters)
              (rank key lister fwk order w sub diagnosis (c ∷ cs)).0
      go (ok l) e h = rw (rank, e) h
      go (err m) e h = rw (rank, e) tt

  fit-Ensures :
      (P : ManagedCluster → Type 0) (g : GenericScheduler) (w : W)
      → Ensures (All P) (list_all lister sub.subscribers)
      → let fit = find_clusters_that_fit_subscription key lister fwk order g w sub in
        Ensures
          (All (λ (c : ManagedCluster).
            (P c × (c.deleting ≡ false)) × IsPassed key fwk fit.world sub c))
          fit.clusters
  unfolding find_clusters_that_fit_subscription
  fit-Ensures P g w h = by_list (list_all lister sub.subscribers) refl h
    where
      fit : Fit W
      fit = find_clusters_that_fit_subscription key lister fwk order g w sub

      pre : Option Status × W
      pre = run_pre_filter_plugins sub fwk.pre_filter_plugins w

      Sound : Type 0
      Sound =
          Ensures
            (All (λ (c : ManagedCluster).
              (P c × (c.deleting ≡ false)) × IsPassed key fwk fit.world sub c))
            fit.clusters

      by_list :
          (r : Result (List ManagedCluster))
          → list_all lister sub.subscribers ≡ r
          → Ensures (All P) r
          → Sound
      by_list (err m) e p = rw (find_clusters_that_fit_subscription, e) tt
      by_list (ok listed) e p = by_clusters (is_empty (normalized_clusters key listed)) refl
        where
          by_clusters : (b : Bool) → is_empty (normalized_clusters key listed) ≡ b → Sound
          by_clusters true f = rw (find_clusters_that_fit_subscription, e, f) tt
          by_clusters false f = by_pre (failing pre.0) refl
            where
              by_pre : (o : Option Status) → failing pre.0 ≡ o → Sound
              by_pre none q =
                  rw (find_clusters_that_fit_subscription, e, f, q)
                    (Ensures-imp _ _
                      (find_clusters_that_pass_filters key fwk order g pre.1 sub _
                        (normalized_clusters key listed)).2
                      (λ found t. t.1)
                      (find_clusters_that_pass_filters-Ensures key fwk pre.1 sub order g _
                        (λ (c : ManagedCluster). P c × (c.deleting ≡ false))
                        (normalized_clusters key listed)
                        (normalized_clusters_lem key P listed p).1))
              by_pre (some s) q = by_code (is_unschedulable (some s)) refl
                where
                  by_code : (b : Bool) → is_unschedulable (some s) ≡ b → Sound
                  by_code true u = rw (find_clusters_that_fit_subscription, e, f, q, u) tt
                  by_code false u = rw (find_clusters_that_fit_subscription, e, f, q, u) tt

  -- If what the cache lists for the subscribers of a subscription has `P`, and Schedule succeeds, then
  -- it suggests at least one cluster, and the suggested names are those of clusters that have `P`, are
  -- not being deleted and pass every filter plugin after the prefilter plugins have run.
  pub schedule-Suggests :
      (P : ManagedCluster → Type 0) (g : GenericScheduler) (w : W)
      → Ensures (All P) (list_all lister sub.subscribers)
      → Suggests
          (Chosen P (find_clusters_that_fit_subscription key lister fwk order g w sub).world)
          (schedule key lister fwk order g w sub).outcome
  unfolding schedule
  schedule-Suggests P g w h = by_number (num_clusters lister == 0) refl
    where
      fit : Fit W
      fit = find_clusters_that_fit_subscription key lister fwk order g w sub

      Good : Type 0
      Good = Suggests (Chosen P fit.world) (schedule key lister fwk order g w sub).outcome

      imp :
          (feasible : List ManagedCluster)
          → All
              (λ (c : ManagedCluster).
                (P c × (c.deleting ≡ false)) × IsPassed key fwk fit.world sub c)
              feasible
          → (o : Outcome)
          → Suggests
              (λ (r : ScheduleResult).
                (r.suggested_clusters ≡ map key feasible) × (0 < length r.suggested_clusters))
              o
          → Suggests (Chosen P fit.world) o
      imp feasible a (scheduled r) k = (feasible, k.0, k.1, a)
      imp feasible a (refused e) k = tt

      by_fit :
          num_clusters lister == 0 ≡ false
          → (r : Result (List ManagedCluster)) → fit.clusters ≡ r
          → Ensures
              (All (λ (c : ManagedCluster).
                (P c × (c.deleting ≡ false)) × IsPassed key fwk fit.world sub c))
              r
          → Good
      by_fit e (err m) q a = rw (schedule, e, q) tt
      by_fit e (ok feasible) q a =
          rw (schedule, e, q) (imp feasible a _ (rank-Suggests fit.world fit.diagnosis feasible))

      by_number : (b : Bool) → num_clusters lister == 0 ≡ b → Good
      by_number true e = rw (schedule, e) tt
      by_number false e = by_fit e fit.clusters refl (fit-Ensures P g w h)
