-- ===== src/Scheduler/Cache.antt =====
-- pkg/scheduler/cache/cache.go. The lister and the parsing of label selectors are not part of the
-- repository's own code, and are parameters.
use clusternet.Prelude.{ℕ, List, length, Result, ok, err, ◌>>=◌, String}
use clusternet.Scheduler.Api.{ManagedCluster}

pub record ClusterLister (S : Type 0) : Type 1 where
  pub Selector : Type 0
  pub label_selector_as_selector : S → Result Selector
  -- `&metav1.LabelSelector{}`.
  pub everything : S
  pub list : Selector → Result (List ManagedCluster)

module _ {S : Type 0} (lister : ClusterLister S) where
  unfoldable pub cache_list : S → Result (List ManagedCluster)
  cache_list label_selector = do
    selector ← lister.label_selector_as_selector label_selector
    lister.list selector

  unfoldable pub num_clusters : ℕ
  unfolding cache_list
  num_clusters = elim (cache_list lister.everything) [ ok clusters ↦ length clusters | err e ↦ 0 ]

-- `split` is SplitMetaNamespaceKey, and `read` the lister's Get of a namespace.
unfoldable pub cache_get :
    (split : String → Result (String × String))
    → (read : String → String → Result ManagedCluster) → String
    → Result ManagedCluster
cache_get split read namespaced_name = do key ← split namespaced_name; read key.0 key.1
