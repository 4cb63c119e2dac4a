-- ===== src/Scheduler/TaintToleration.antt =====
-- pkg/scheduler/framework/plugins/tainttoleration/taint_toleration.go. The helpers of Kubernetes,
-- TolerationsTolerateTaint and FindMatchingUntoleratedTaint, and the lister are parameters.
use clusternet.Prelude.{
  ℕ, ◌+◌, ◌∙◌, ◌≡◌, refl, String, Bool, true, false, not, ◌&&◌, ◌||◌, Option, none, some, List, [],
  ◌∷◌, same_text, if◌then◌else◌, Result, ok, err, about, named, arith, ap, sym, ◌∙◌,
}
use clusternet.Prelude.Int.{ℤ, pos}
use clusternet.Scheduler.Api.{Taint, Toleration, ManagedCluster, Subscription}
use clusternet.Scheduler.Status.{
  Status, unschedulable_and_unresolvable, new_status, as_status, is_success, code_of,
}

-- Only NoSchedule and NoExecute taints count for Filter.
unfoldable pub filter_predicate : Taint → Bool
filter_predicate t = same_text t.effect "NoSchedule" || same_text t.effect "NoExecute"

unfoldable pub taint_filter :
    {S : Type 0}
    → (List Taint → List Toleration → (Taint → Bool) → Option Taint)
    → Subscription S
    → ManagedCluster
    → Option Status
taint_filter find_untolerated sub cluster =
    elim (find_untolerated cluster.taints sub.cluster_tolerations filter_predicate) [
      | none ↦ none
      | some taint ↦ some (
          new_status unschedulable_and_unresolvable (
            about "clusters(s) had taint {%s: %s}, that the subscription didn't tolerate" taint.key
              (named "%s" taint.value)
            ∷ []))
    ]

unfoldable pub get_all_toleration_prefer_no_schedule : List Toleration → List Toleration
get_all_toleration_prefer_no_schedule [] = []
get_all_toleration_prefer_no_schedule (t ∷ ts) =
    let rest = get_all_toleration_prefer_no_schedule ts in
    if same_text t.effect "" || same_text t.effect "PreferNoSchedule" then t ∷ rest else rest

module _ (tolerates : List Toleration → Taint → Bool) where
  unfoldable pub count_intolerable_taints_prefer_no_schedule : List Taint → List Toleration → ℕ
  count_intolerable_taints_prefer_no_schedule [] tolerations = 0
  count_intolerable_taints_prefer_no_schedule (t ∷ ts) tolerations =
      let rest = count_intolerable_taints_prefer_no_schedule ts tolerations in
      if not (same_text t.effect "PreferNoSchedule")
      then rest
      else if not (tolerates tolerations t)
      then rest + 1
      else rest

  -- Score. `get` splits the key and asks the lister; its errors are those of the two.
  unfoldable pub taint_score :
      {S : Type 0} → (String → Result ManagedCluster) → Subscription S → String → ℤ × Option Status
  taint_score get sub namespaced_cluster = elim (get namespaced_cluster) [
    | err e ↦ (pos 0, some (as_status (about "getting cluster %s: %v" namespaced_cluster e)))
    | ok cluster ↦ (
      pos (
          count_intolerable_taints_prefer_no_schedule cluster.taints
            (get_all_toleration_prefer_no_schedule sub.cluster_tolerations)),
      none,
    )
  ]

-- The first element that satisfies a test.
abbrev pub first : {A : Type 0} → (A → Bool) → List A → Option A
first f [] = none
first f (x ∷ xs) = let rest = first f xs in if f x then some x else rest

-- Every taint that Filter looks at is tolerated.
abbrev pub all_tolerated : (List Toleration → Taint → Bool) → List Toleration → List Taint → Bool
all_tolerated tolerates tolerations [] = true
all_tolerated tolerates tolerations (t ∷ ts) =
    (not (filter_predicate t) || tolerates tolerations t) && all_tolerated tolerates tolerations ts

abbrev is_none : Option Taint → Bool
is_none none = true
is_none (some t) = false

first-all_tolerated :
    (tolerates : List Toleration → Taint → Bool) (tolerations : List Toleration) (ts : List Taint)
    → is_none (first (λ (t : Taint). filter_predicate t && not (tolerates tolerations t)) ts)
      ≡ all_tolerated tolerates tolerations ts
first-all_tolerated tolerates tolerations [] = refl
first-all_tolerated tolerates tolerations (t ∷ ts) =
    ground (arith, first-all_tolerated tolerates tolerations ts)

-- If FindMatchingUntoleratedTaint returns the first taint that its filter accepts and that no
-- toleration tolerates, Filter of the plugin answers Success exactly when every NoSchedule and every
-- NoExecute taint of the cluster is tolerated.
pub is_success-taint_filter :
    {S : Type 0} (tolerates : List Toleration → Taint → Bool)
    (find_untolerated : List Taint → List Toleration → (Taint → Bool) → Option Taint)
    → ((ts : List Taint) (tolerations : List Toleration) (accept : Taint → Bool)
        → find_untolerated ts tolerations accept
          ≡ first (λ (t : Taint). accept t && not (tolerates tolerations t)) ts)
    → (sub : Subscription S) (cluster : ManagedCluster)
    → is_success (taint_filter find_untolerated sub cluster)
      ≡ all_tolerated tolerates sub.cluster_tolerations cluster.taints
unfolding taint_filter is_success code_of new_status
is_success-taint_filter tolerates find_untolerated law sub cluster =
    go (find_untolerated cluster.taints sub.cluster_tolerations filter_predicate) refl
  where
    go :
        (o : Option Taint)
        → find_untolerated cluster.taints sub.cluster_tolerations filter_predicate ≡ o
        → is_success (taint_filter find_untolerated sub cluster)
          ≡ all_tolerated tolerates sub.cluster_tolerations cluster.taints
    go none e =
        rw (taint_filter, e)
          (ap is_none (sym e ∙ law cluster.taints sub.cluster_tolerations filter_predicate)
            ∙ first-all_tolerated tolerates sub.cluster_tolerations cluster.taints)
    go (some t) e =
        rw (taint_filter, e)
          (ap is_none (sym e ∙ law cluster.taints sub.cluster_tolerations filter_predicate)
            ∙ first-all_tolerated tolerates sub.cluster_tolerations cluster.taints)
