-- ===== src/Scheduler/Framework.antt =====
-- pkg/scheduler/framework/runtime/framework.go: the runs of the other extension points. The state
-- is the world of the plugins with the map of the waiting subscriptions. (Filter is a module of its
-- own, and Score too.)
pub mod Unreserve
pub mod Bind
use clusternet.Prelude.{
  ℕ, String, Bool, true, false, Option, none, some, List, [], ◌∷◌, Message, empty, named, about,
  text, put, if◌then◌else◌, ltb, length, get_elem?, suc, zero, not,
}
use clusternet.Scheduler.Status.{
  Status, Code, success, wait, skip, error, same_code, is_success, is_unschedulable, failure_of,
  as_status, with_failed_plugin, new_status, message,
}
use clusternet.Scheduler.Api.{ManagedCluster, Subscription}
use clusternet.Scheduler.Plugins.{
  PreFilterPlugin, PreScorePlugin, ReservePlugin, PreBindPlugin, BindPlugin, PostBindPlugin,
  PermitPlugin,
}
use clusternet.Scheduler.Filter.{failing}
use clusternet.Scheduler.Chain.{chain}
use clusternet.Scheduler.Waiting.{
  WaitingMap, WaitingSubscription, new_waiting_subscription, add, get, remove_waiting, receive,
  Event, handle_all,
}

-- `status != nil && status.Code() == framework.Skip`.
unfoldable pub is_skip : Option Status → Bool
is_skip none = false
is_skip (some s) = same_code s.code skip

-- What RunBindPlugins returns for the answer of a plugin that does not skip.
unfoldable pub bind_answer : String → Option Status → Option Status
unfolding failing
bind_answer name status = elim (failing status) [
  | none ↦ status
  | some s ↦ some (as_status (about "running Bind plugin %q: %w" name (failure_of s)))
]

module _ {W Sub : Type 0} (sub : Sub) where
  -- RunPreFilterPlugins.
  unfoldable pub pre_filter_report : PreFilterPlugin W Sub → Status → Status
  pre_filter_report pl s =
      if is_unschedulable (some s)
      then with_failed_plugin pl.name s
      else with_failed_plugin pl.name
          (as_status (about "running PreFilter plugin %q: %w" pl.name (failure_of s)))

  unfoldable pub run_pre_filter_plugins : List (PreFilterPlugin W Sub) → W → Option Status × W
  unfolding chain
  run_pre_filter_plugins = chain (λ pl. pl.pre_filter sub) pre_filter_report

  -- RunPreScorePlugins.
  unfoldable pub run_pre_score_plugins :
      List ManagedCluster → List (PreScorePlugin W Sub) → W → Option Status × W
  unfolding chain
  run_pre_score_plugins clusters =
      chain (λ pl. pl.pre_score sub clusters)
        (λ pl s. as_status (about "running PreScore plugin %q: %w" pl.name (failure_of s)))

module _ {W Sub : Type 0} (sub : Sub) (namespaced_clusters : List String) where
  -- RunPreBindPlugins.
  unfoldable pub run_pre_bind_plugins : List (PreBindPlugin W Sub) → W → Option Status × W
  unfolding chain
  run_pre_bind_plugins =
      chain (λ pl. pl.pre_bind sub namespaced_clusters)
        (λ pl s. as_status (about "running PreBind plugin %q: %w" pl.name (failure_of s)))

  -- RunReservePluginsReserve.
  unfoldable pub run_reserve_plugins_reserve : List (ReservePlugin W Sub) → W → Option Status × W
  unfolding chain
  run_reserve_plugins_reserve =
      chain (λ pl. pl.reserve sub namespaced_clusters)
        (λ pl s. as_status (about "running Reserve plugin %q: %w" pl.name (failure_of s)))

  -- RunReservePluginsUnreserve: `for i := len - 1; i >= 0; i--`, where `left` is i + 1.
  unfoldable pub unreserve_down : List (ReservePlugin W Sub) → ℕ → W → W
  unreserve_down pls zero w = w
  unreserve_down pls (suc i) w = elim (get_elem? pls i) [
    | none ↦ w
    | some pl ↦ unreserve_down pls i (pl.unreserve sub namespaced_clusters w)
  ]

  unfoldable pub run_reserve_plugins_unreserve : List (ReservePlugin W Sub) → W → W
  unfolding unreserve_down
  run_reserve_plugins_unreserve pls w = unreserve_down pls (length pls) w

  -- RunBindPlugins: the loop, where `status` is the named result before the round.
  unfoldable pub bind_loop : List (BindPlugin W Sub) → Option Status → W → Option Status × W
  bind_loop [] status w = (status, w)
  bind_loop (bp ∷ bps) status w =
      let (status', w') = bp.bind sub namespaced_clusters w in
      elim (is_skip status') [
        | true ↦ bind_loop bps status' w'
        | false ↦ (bind_answer bp.name status', w')
      ]

  unfoldable pub run_bind_plugins : List (BindPlugin W Sub) → W → Option Status × W
  unfolding bind_loop
  run_bind_plugins [] w = (some (new_status skip (empty ∷ [])), w)
  run_bind_plugins (bp ∷ bps) w = bind_loop (bp ∷ bps) none w

  -- RunPostBindPlugins.
  unfoldable pub run_post_bind_plugins : List (PostBindPlugin W Sub) → W → W
  run_post_bind_plugins [] w = w
  run_post_bind_plugins (pl ∷ pls) w =
      run_post_bind_plugins pls (pl.post_bind sub namespaced_clusters w)
