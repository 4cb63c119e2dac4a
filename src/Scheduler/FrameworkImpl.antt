-- ===== src/Scheduler/FrameworkImpl.antt =====
-- pkg/scheduler/framework/runtime/framework.go: the struct frameworkImpl, as far as it is read here.
use clusternet.Prelude.{String, Bool, true, false, List, [], ◌∷◌}
use clusternet.Prelude.Int.{ℤ}
use clusternet.Scheduler.Api.{Subscription}
use clusternet.Scheduler.Plugins.{
  PreFilterPlugin, FilterPlugin, PreScorePlugin, ScorePlugin, ReservePlugin, PreBindPlugin,
  BindPlugin, PostBindPlugin, PermitPlugin,
}

pub record FrameworkImpl (W S : Type 0) : Type 0 where
  pub score_plugin_weight : List (String × ℤ)
  pub pre_filter_plugins : List (PreFilterPlugin W (Subscription S))
  pub filter_plugins : List (FilterPlugin W (Subscription S))
  pub pre_score_plugins : List (PreScorePlugin W (Subscription S))
  pub score_plugins : List (ScorePlugin W (Subscription S))
  pub reserve_plugins : List (ReservePlugin W (Subscription S))
  pub pre_bind_plugins : List (PreBindPlugin W (Subscription S))
  pub bind_plugins : List (BindPlugin W (Subscription S))
  pub post_bind_plugins : List (PostBindPlugin W (Subscription S))
  pub permit_plugins : List (PermitPlugin W (Subscription S))
  pub run_all_filters : Bool

-- HasFilterPlugins and HasScorePlugins are `!is_empty` of the lists.
abbrev pub is_empty {ℓ} : {A : Type ℓ} → List A → Bool
is_empty [] = true
is_empty (x ∷ xs) = false
