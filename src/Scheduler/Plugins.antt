-- ===== src/Scheduler/Plugins.antt =====
-- pkg/scheduler/framework/interfaces/interface.go: the plugin interfaces. What plugins read and
-- change outside the scheduler is a world `W`. Filter and Score plugins run at the same time for
-- many clusters, so they read the world and do not change it. A subscription is a `Sub`.
use clusternet.Prelude.{String, Option, List}
use clusternet.Prelude.Int.{ℤ}
use clusternet.Scheduler.Status.{Status}
use clusternet.Scheduler.Api.{ManagedCluster}

pub record ClusterScore : Type 0 where
  pub namespaced_name : String
  pub score : ℤ

pub record PreFilterPlugin (W Sub : Type 0) : Type 0 where
  pub name : String
  pub pre_filter : Sub → W → Option Status × W

pub record FilterPlugin (W Sub : Type 0) : Type 0 where
  pub name : String
  pub filter : W → Sub → ManagedCluster → Option Status

pub record PreScorePlugin (W Sub : Type 0) : Type 0 where
  pub name : String
  pub pre_score : Sub → List ManagedCluster → W → Option Status × W

-- `normalize_score` is none where ScoreExtensions() is nil.
pub record ScorePlugin (W Sub : Type 0) : Type 0 where
  pub name : String
  pub score : W → Sub → String → ℤ × Option Status
  pub normalize_score : Option (List ClusterScore → List ClusterScore × Option Status)

pub record ReservePlugin (W Sub : Type 0) : Type 0 where
  pub name : String
  pub reserve : Sub → List String → W → Option Status × W
  pub unreserve : Sub → List String → W → W

pub record PreBindPlugin (W Sub : Type 0) : Type 0 where
  pub name : String
  pub pre_bind : Sub → List String → W → Option Status × W

pub record BindPlugin (W Sub : Type 0) : Type 0 where
  pub name : String
  pub bind : Sub → List String → W → Option Status × W

pub record PostBindPlugin (W Sub : Type 0) : Type 0 where
  pub name : String
  pub post_bind : Sub → List String → W → W

-- The second result is the timeout in nanoseconds.
pub record PermitPlugin (W Sub : Type 0) : Type 0 where
  pub name : String
  pub permit : Sub → List String → W → Option Status × ℤ × W
