-- ===== src/Scheduler/Filter/Verdict.antt =====
-- What the statuses of RunFilterPlugins say once they are merged, as
-- pkg/scheduler/algorithm/generic.go merges them.
use clusternet.Prelude.{
  String, ◌≡◌, refl, ◌∙◌, Bool, true, false, ◌&&◌, Option, none, some, List, [], ◌∷◌, put, arith,
}
use clusternet.Scheduler.Status.{
  Status, success, same_code, is_success, code_of, with_failed_plugin, as_status, is_unschedulable,
}
use clusternet.Scheduler.Merge.{PluginToStatus, merge, all_success}
use clusternet.Scheduler.Merge.Precedence.{is_success-merge}
use clusternet.Scheduler.Api.{ManagedCluster}
use clusternet.Scheduler.Plugins.{FilterPlugin}
use clusternet.Scheduler.Filter.{failing, Round, next, stop, judge, visit_all, run_filter_plugins}

-- A status that is no success spoils the map, whether its key is new or not.
all_success-put :
    (k : String) (s : Status) (m : PluginToStatus)
    → same_code s.code success ≡ false
    → all_success (put k s m) ≡ false
all_success-put k s [] h = ground arith
all_success-put k s ((j, t) ∷ m) h = ground (arith, all_success-put k s m)

-- A round goes on with the same verdict if the answer is a success, and spoils it otherwise.
abbrev Follows : Round → Bool → Type 0
Follows (next m) b = all_success m ≡ b
Follows (stop m) b = (all_success m ≡ false) × (b ≡ false)

pub failing-success : (o : Option Status) → failing o ≡ none → is_success o ≡ true
unfolding failing is_success code_of
failing-success none h = refl
failing-success (some s) h = ground arith

pub failing-failure : (o : Option Status) (s : Status) → failing o ≡ some s → is_success o ≡ false
unfolding failing is_success code_of
failing-failure none s h = cc
failing-failure (some t) s h = ground arith

judge-Follows :
    (run_all : Bool) (name : String) (status : Option Status) (m : PluginToStatus)
    → Follows (judge run_all name status m) (is_success status && all_success m)
unfolding judge is_success code_of with_failed_plugin as_status is_unschedulable
judge-Follows run_all name none m = refl
judge-Follows run_all name (some s) m =
    ground (arith, all_success-put name (with_failed_plugin name s) m)

module _ {W Sub : Type 0} (run_all : Bool) (w : W) (sub : Sub) (cluster : ManagedCluster) where
  -- Every plugin answers Success.
  abbrev pub all_pass : List (FilterPlugin W Sub) → Bool
  all_pass [] = true
  all_pass (pl ∷ pls) = is_success (pl.filter w sub cluster) && all_pass pls

  visit_all-success :
      (pls : List (FilterPlugin W Sub)) (m : PluginToStatus)
      → all_success (visit_all run_all w sub cluster pls m) ≡ (all_success m && all_pass pls)
  unfolding visit_all
  visit_all-success [] m = ground arith
  visit_all-success (pl ∷ pls) m =
      resume (judge run_all pl.name (pl.filter w sub cluster) m) (judge-Follows run_all pl.name _ m)
        (visit_all-success pls)
    where
      resume :
          (r : Round)
          → Follows r (is_success (pl.filter w sub cluster) && all_success m)
          → ((n : PluginToStatus)
              → all_success (visit_all run_all w sub cluster pls n)
                ≡ (all_success n && all_pass pls))
          → all_success (elim r [ next n ↦ visit_all run_all w sub cluster pls n | stop n ↦ n ])
            ≡ (all_success m && (is_success (pl.filter w sub cluster) && all_pass pls))
      resume (next n) h ih = ground (arith, ih n)
      resume (stop n) h ih = ground arith

  -- The merged status of a cluster is a success exactly when every filter plugin answers Success for
  -- it, whether the first failure ends the loop or not.
  pub is_success-run_filter_plugins :
      (pls : List (FilterPlugin W Sub))
      → is_success (merge (run_filter_plugins run_all w sub cluster pls)) ≡ all_pass pls
  unfolding run_filter_plugins
  is_success-run_filter_plugins pls =
      is_success-merge (visit_all run_all w sub cluster pls []) ∙ visit_all-success pls []
