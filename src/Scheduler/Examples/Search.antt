-- ===== src/Scheduler/Examples/Search.antt =====
-- The search and the cycle of pkg/scheduler at the test data.
use mathlib.Core.List.{Memᴰ}
use clusternet.Prelude.{
  ℕ, ◌≡◌, ◌≤◌, refl, arith, String, true, false, none, List, [], ◌∷◌, All, Ensures, Message, text,
  ltb, map, length, contains, if◌then◌else◌,
}
use clusternet.Prelude.Int.{pos, pos_part, int32, ◌≤ℤ◌}
use clusternet.Scheduler.Api.{ManagedCluster, Subscription}
use clusternet.Scheduler.Status.{new_status, is_unschedulable, with_failed_plugin, append_reason}
use clusternet.Scheduler.Framework.{
  run_reserve_plugins_reserve, run_reserve_plugins_unreserve, run_pre_bind_plugins,
  run_bind_plugins, run_post_bind_plugins,
}
use clusternet.Scheduler.Algorithm.{
  GenericScheduler, Diagnosis, Found, normalized_clusters, num_feasible_clusters_to_find,
  check_clusters, cluster_at, find_clusters_that_pass_filters, check_cluster, filter_status,
}
use clusternet.Scheduler.Algorithm.Search.{Distinct, normalized_clusters_lem}
use clusternet.Scheduler.Algorithm.Sample.{num_feasible_bounds}
use clusternet.Scheduler.Algorithm.Filters.{Listed, check_clusters_complete}
use clusternet.Scheduler.Algorithm.Feasible.{IsPassed, find_clusters_that_pass_filters-Ensures}
use clusternet.Scheduler.Schedule.{
  ScheduleError, Outcome, list_all, schedule, find_clusters_that_fit_subscription,
}
use clusternet.Scheduler.Schedule.Soundness.{Suggests, Chosen, schedule-Suggests}
use clusternet.Scheduler.Cycle.{Framework, schedule_subscription}
use clusternet.Scheduler.Cycle.Protocol.{idle, Settles, schedule_subscription-Settles}
use clusternet.Scheduler.Filter.{failing, run_filter_plugins, visit_all, judge}
use clusternet.Scheduler.Merge.{merge, merge_from, merge_step, append_reasons, precedence}
use clusternet.Scheduler.Cache.{cache_list}
use clusternet.Scheduler.FrameworkImpl.{FrameworkImpl}
use clusternet.Scheduler.Examples.{
  World, web, fleet, near, far, tainted, name_of, small_framework, fleet_lister,
}

abbrev start : GenericScheduler
start = record { percentage_of_clusters_to_score = pos 0; next_start_cluster_index = 1 }

abbrev empty_diagnosis : Diagnosis
empty_diagnosis = record { cluster_to_status_map = []; unschedulable_plugins = [] }

abbrev one_worker : ℕ → List ℕ
one_worker n = 0 ∷ 1 ∷ 2 ∷ []

abbrev InFleet : ManagedCluster → Type 0
InFleet c = c.namespace ≡ "fleet"

normalized_clusters_lem_example :
    let kept = normalized_clusters name_of fleet in
    Distinct name_of [] kept
    × All (λ (c : ManagedCluster). InFleet c × (c.deleting ≡ false)) kept
    × All
        (λ (c : ManagedCluster).
          c.deleting ≡ false → contains (name_of c) (map name_of kept) ≡ true)
        fleet
normalized_clusters_lem_example =
    normalized_clusters_lem name_of InFleet fleet (refl, (refl, (refl, (refl, (refl, tt)))))

num_feasible_bounds_example :
    let r = num_feasible_clusters_to_find (pos 0) (pos 6000) "Dividing" in
    (pos (if◌then◌else◌ (ltb 6000 100) 6000 100) ≤ℤ r) × (r ≤ℤ pos 6000)
num_feasible_bounds_example = num_feasible_bounds (pos 0) 6000 "Dividing" (ground arith)

abbrev nothing_found : Found
nothing_found = record {
  feasible = [];
  failure = none;
  cancelled = false;
  diagnosis = empty_diagnosis;
}

abbrev three : List ManagedCluster
three = near ∷ tainted ∷ far ∷ []

check_clusters_complete_example :
    Listed name_of small_framework [] web 3 tainted
      (check_clusters name_of small_framework [] web 3 three 1 (0 ∷ 1 ∷ 2 ∷ []) nothing_found)
unfolding check_clusters cluster_at check_cluster failing filter_status merge run_filter_plugins
    visit_all judge new_status is_unschedulable merge_from merge_step append_reasons
    with_failed_plugin append_reason precedence
check_clusters_complete_example =
    check_clusters_complete name_of small_framework [] web 3 three 1 (0 ∷ 1 ∷ 2 ∷ []) nothing_found
      refl tainted 0 (Memᴰ.head refl) refl

find_clusters_that_pass_filters-Ensures_example :
    Ensures
      (λ (found : List ManagedCluster).
        (length found
          ≤ pos_part (
              num_feasible_clusters_to_find start.percentage_of_clusters_to_score
                (int32 (pos (length three)))
                web.scheduling_strategy))
        × All (λ (c : ManagedCluster). InFleet c × IsPassed name_of small_framework [] web c) found)
      (find_clusters_that_pass_filters name_of small_framework one_worker start [] web
        empty_diagnosis three).2
find_clusters_that_pass_filters-Ensures_example =
    find_clusters_that_pass_filters-Ensures name_of small_framework [] web one_worker start
      empty_diagnosis InFleet three (refl, (refl, (refl, tt)))

schedule-Suggests_example :
    Suggests
      (Chosen name_of fleet_lister small_framework one_worker web InFleet
        (find_clusters_that_fit_subscription name_of fleet_lister small_framework one_worker start
          [] web).world)
      (schedule name_of fleet_lister small_framework one_worker start [] web).outcome
unfolding list_all cache_list
schedule-Suggests_example =
    schedule-Suggests name_of fleet_lister small_framework one_worker web InFleet start []
      (refl, (refl, (refl, (refl, (refl, tt)))))

-- The framework of the test data, without waiting in the permit phase.
abbrev in_cycle : Framework World String
in_cycle = record {
  run_reserve_plugins_reserve =
      λ sub cs w. run_reserve_plugins_reserve sub cs small_framework.reserve_plugins w;
  run_reserve_plugins_unreserve =
      λ sub cs w. run_reserve_plugins_unreserve sub cs small_framework.reserve_plugins w;
  run_permit_plugins = λ sub cs w. (none, w);
  wait_on_permit = λ sub w. (none, w);
  run_pre_bind_plugins = λ sub cs w. run_pre_bind_plugins sub cs small_framework.pre_bind_plugins w;
  run_bind_plugins = λ sub cs w. run_bind_plugins sub cs small_framework.bind_plugins w;
  run_post_bind_plugins =
      λ sub cs w. run_post_bind_plugins sub cs small_framework.post_bind_plugins w;
}

abbrev algorithm : Subscription String → World → Outcome × World
algorithm sub w =
    let s = schedule name_of fleet_lister small_framework one_worker start w sub in
    (s.outcome, s.world)

abbrev message_of : ScheduleError → Message
message_of e = text "error"

abbrev key_of : Subscription String → String
key_of sub = sub.name

abbrev bytes_of : Message → List ℕ
bytes_of m = []

schedule_subscription-Settles_example :
    let s = schedule_subscription key_of bytes_of in_cycle algorithm message_of web [] in
    Settles key_of bytes_of in_cycle web idle s.actions s.started
schedule_subscription-Settles_example =
    schedule_subscription-Settles key_of bytes_of in_cycle web algorithm message_of []

abbrev greeting : List ℕ
greeting = 104 ∷ 105 ∷ []

abbrev unscored : FrameworkImpl World String
unscored = record small_framework { score_plugins = [] }
