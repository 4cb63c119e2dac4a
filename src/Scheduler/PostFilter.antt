-- ===== src/Scheduler/PostFilter.antt =====
-- RunPostFilterPlugins of pkg/scheduler/framework/runtime/framework.go, which nothing in the
-- repository calls.
use clusternet.Prelude.{String, true, false, Option, none, some, List, [], ◌∷◌, put}
use clusternet.Scheduler.Status.{Status, is_unschedulable, failure_of, as_status}
use clusternet.Scheduler.Merge.{PluginToStatus, merge}
use clusternet.Scheduler.Filter.{failing}

-- `filtered` is what is known of the clusters that were left out, and `R` the PostFilterResult.
pub record PostFilterPlugin (W Sub Filtered R : Type 0) : Type 0 where
  pub name : String
  pub post_filter : Sub → Filtered → W → (Option R × Option Status) × W

module _ {W Sub Filtered R : Type 0} (sub : Sub) (filtered : Filtered) where
  unfoldable pub post_filter_loop :
      List (PostFilterPlugin W Sub Filtered R) → PluginToStatus → W → (Option R × Option Status) × W
  post_filter_loop [] statuses w = ((none, merge statuses), w)
  post_filter_loop (pl ∷ pls) statuses w =
      let (answer, w') = pl.post_filter sub filtered w in
      elim (failing answer.1) [
        | none ↦ (answer, w')
        | some s ↦ elim (is_unschedulable (some s)) [
          | false ↦ ((none, some (as_status (failure_of s))), w')
          | true ↦ post_filter_loop pls (put pl.name s statuses) w'
        ]
      ]

  unfoldable pub run_post_filter_plugins :
      List (PostFilterPlugin W Sub Filtered R) → W → (Option R × Option Status) × W
  run_post_filter_plugins pls w = post_filter_loop pls [] w
