-- ===== src/Scheduler/Examples/Parts.antt =====
-- The smaller parts of pkg/scheduler at the test data.
use clusternet.Prelude.{
  ℕ, ◌≤◌, ◌/◌, ◌+◌, ◌&&◌, not, arith, String, Bool, true, false, Option, List, [], ◌∷◌, All,
  same_text,
}
use clusternet.Prelude.Int.{pos}
use clusternet.Scheduler.Api.{ManagedCluster, Subscription, Taint, Toleration}
use clusternet.Scheduler.Plugins.{ClusterScore}
use clusternet.Scheduler.Score.{default_normalize_score}
use clusternet.Scheduler.Score.Normalize.{IsInRange, normalize_bounds}
use clusternet.Scheduler.Handlers.{Watched}
use clusternet.Scheduler.Assembly.{PluginSet}
use clusternet.Scheduler.Parallelize.{chunk_size_for, chunk_size_for_bounds}
use clusternet.Scheduler.TaintToleration.{first}
use clusternet.Scheduler.Examples.{web}

abbrev score_of : String → ℕ → ClusterScore
score_of n s = record { namespaced_name = n; score = pos s }

abbrev counts : List ClusterScore
counts = score_of "near" 1 ∷ score_of "far" 4 ∷ []

normalize_bounds_example : All (IsInRange 100) (default_normalize_score (pos 100) true counts)
normalize_bounds_example =
    normalize_bounds 100 true counts (ground arith)
      ((ground arith, ground arith), ((ground arith, ground arith), tt))

abbrev old_factories : List (String × ℕ)
old_factories = ("TaintToleration", 1) ∷ []

abbrev new_factories : List (String × ℕ)
new_factories = ("DefaultBinder", 2) ∷ []

abbrev key_of : Subscription String → String
key_of sub = sub.name

abbrev same_spec : Subscription String → Subscription String → Bool
same_spec a b = same_text a.scheduling_strategy b.scheduling_strategy

abbrev selector_matches : String → List (String × String) → Bool
selector_matches s labels = same_text s "all"

abbrev never_same : ManagedCluster → ManagedCluster → Bool
never_same a b = false

abbrev watched : Watched String
watched = record { subscribers_map = ("web", web.subscribers) ∷ []; scheduling_queue = [] }

abbrev factories : List (String × ℕ)
factories = ("TaintToleration", 1) ∷ ("DefaultBinder", 2) ∷ []

abbrev filters : PluginSet
filters = record {
  enabled = record { name = "TaintToleration"; weight = pos 3 } ∷ [];
  disabled = [];
}

abbrev is_filter : ℕ → Bool
is_filter n = true

abbrev ten : ℕ → ℕ
ten n = 10

chunk_size_for_bounds_example :
    (1 ≤ chunk_size_for ten 100 16)
    × (chunk_size_for ten 100 16 ≤ 100 / 16 + 1)
    × (chunk_size_for ten 100 16 ≤ 100)
chunk_size_for_bounds_example =
    chunk_size_for_bounds ten 100 16 (ground arith) (ground arith) (ground arith)

abbrev tolerates_none : List Toleration → Taint → Bool
tolerates_none ts t = false

abbrev first_untolerated : List Taint → List Toleration → (Taint → Bool) → Option Taint
first_untolerated ts tolerations accept =
    first (λ (t : Taint). accept t && not (tolerates_none tolerations t)) ts
