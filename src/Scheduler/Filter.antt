-- ===== src/Scheduler/Filter.antt =====
-- pkg/scheduler/framework/runtime/framework.go: RunFilterPlugins.
pub mod Verdict
use clusternet.Prelude.{
  String, Bool, Option, none, some, List, [], ◌∷◌, about, if◌then◌else◌, put, not,
}
use clusternet.Scheduler.Status.{
  Status, success, same_code, is_unschedulable, failure_of, as_status, with_failed_plugin,
}
use clusternet.Scheduler.Merge.{PluginToStatus}
use clusternet.Scheduler.Api.{ManagedCluster}
use clusternet.Scheduler.Plugins.{FilterPlugin}

-- `!status.IsSuccess()`, with the status, which then is not nil.
unfoldable pub failing : Option Status → Option Status
failing none = none
failing (some s) = if same_code s.code success then none else some s

-- What one round of the loop leaves: `continue` with the statuses, or `return` them.
pub data Round : Type 0 where
  next stop : PluginToStatus → Round

-- The body of the loop, from the name and the answer of the plugin.
unfoldable pub judge : Bool → String → Option Status → PluginToStatus → Round
unfolding failing
judge run_all_filters name status statuses = elim (failing status) [
  | none ↦ next statuses
  | some s ↦
      let wrapped = about "running %q filter plugin: %w" name (failure_of s) in
      let failed = put name (with_failed_plugin name s) statuses in
      if not (is_unschedulable (some s))
      then stop ((name, with_failed_plugin name (as_status wrapped)) ∷ [])
      else if not run_all_filters
      then stop failed
      else next failed
]

module _ {W Sub : Type 0} (run_all_filters : Bool) (w : W) (sub : Sub)
    (cluster : ManagedCluster) where
  unfoldable pub visit_all : List (FilterPlugin W Sub) → PluginToStatus → PluginToStatus
  visit_all [] statuses = statuses
  visit_all (pl ∷ pls) statuses =
      elim (judge run_all_filters pl.name (pl.filter w sub cluster) statuses) [
        | next statuses' ↦ visit_all pls statuses'
        | stop statuses' ↦ statuses'
      ]

  unfoldable pub run_filter_plugins : List (FilterPlugin W Sub) → PluginToStatus
  run_filter_plugins pls = visit_all pls []
