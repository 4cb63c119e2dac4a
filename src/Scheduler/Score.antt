-- ===== src/Scheduler/Score.antt =====
-- pkg/scheduler/framework/plugins/helper/normalize_score.go, and RunScorePlugins of
-- pkg/scheduler/framework/runtime/framework.go. A plugin's scores are the list of its cluster
-- scores; the map from plugin names to them is an association list in the plugins' order.
pub mod Normalize
pub mod Weights
use clusternet.Prelude.{
  zero, suc, String, Bool, true, false, Option, none, some, List, [], ◌∷◌, map, Message, about,
  text, if◌then◌else◌, find, put, Result, ok, err, ◌||◌, ◌>>=◌, not, named,
}
use clusternet.Prelude.Int.{ℤ, pos, negsuc, ltb_ℤ, int64, quot, ◌*ℤ◌, ◌-ℤ◌}
use clusternet.Scheduler.Status.{Status, failure_of, as_status}
use clusternet.Scheduler.Api.{ManagedCluster}
use clusternet.Scheduler.Plugins.{ClusterScore, ScorePlugin}
use clusternet.Scheduler.Filter.{failing}

abbrev pub ClusterScoreList : Type 0
ClusterScoreList = List ClusterScore

abbrev pub PluginToClusterScores : Type 0
PluginToClusterScores = List (String × ClusterScoreList)

abbrev pub max_cluster_score : ℤ
max_cluster_score = pos 100

abbrev pub min_cluster_score : ℤ
min_cluster_score = pos 0

-- The loop of DefaultNormalizeScore that finds maxCount.
unfoldable pub max_count : ℤ → ClusterScoreList → ℤ
max_count m [] = m
max_count m (c ∷ cs) = max_count (if ltb_ℤ m c.score then c.score else m) cs

unfoldable pub is_zero : ℤ → Bool
is_zero (pos zero) = true
is_zero (pos (suc n)) = false
is_zero (negsuc n) = false

-- One score where maxCount is not 0, on int64.
unfoldable pub rescale : ℤ → Bool → ℤ → ℤ → ℤ
rescale max_priority reversed count score =
    let scaled = quot (int64 (max_priority *ℤ score)) count in
    if reversed then int64 (max_priority -ℤ scaled) else scaled

-- DefaultNormalizeScore, which always returns nil.
unfoldable pub default_normalize_score : ℤ → Bool → ClusterScoreList → ClusterScoreList
default_normalize_score max_priority reversed scores =
    let count = max_count (pos 0) scores in
    if is_zero count
    then (if reversed
        then map (λ (c : ClusterScore). record c { score = max_priority }) scores
        else scores)
    else map
        (λ (c : ClusterScore). record c { score = rescale max_priority reversed count c.score })
        scores

-- RunScorePlugins. Scores are written to one slot for each plugin and cluster, by workers that run
-- at the same time; the first error that is sent is kept, and then no score is used. Clusters are
-- taken here in their order, which decides only whose error is returned.
module _ {W Sub : Type 0} (key : ManagedCluster → String) (w : W) (sub : Sub) where
  -- The calls of Score for one cluster, up to the first that is no success.
  unfoldable pub score_error_at : List (ScorePlugin W Sub) → ManagedCluster → Option Message
  score_error_at [] cluster = none
  score_error_at (pl ∷ pls) cluster = elim (failing (pl.score w sub (key cluster)).1) [
    | none ↦ score_error_at pls cluster
    | some s ↦ some (about "plugin %q failed with: %w" pl.name (failure_of s))
  ]

  unfoldable pub score_error : List (ScorePlugin W Sub) → List ManagedCluster → Option Message
  score_error pls [] = none
  score_error pls (cluster ∷ clusters) = elim (score_error_at pls cluster) [
    | none ↦ score_error pls clusters
    | some e ↦ some e
  ]

  unfoldable pub score_list : List ManagedCluster → ScorePlugin W Sub → ClusterScoreList
  score_list clusters pl =
      map
        (λ (c : ManagedCluster). record {
          namespaced_name = key c;
          score = (pl.score w sub (key c)).0;
        })
        clusters

module _ {W Sub : Type 0} where
  -- NormalizeScore for one plugin.
  unfoldable pub normalize_one : ScorePlugin W Sub → ClusterScoreList → Result ClusterScoreList
  normalize_one pl scores = elim pl.normalize_score [
    | none ↦ ok scores
    | some normalize ↦ elim (failing (normalize scores).1) [
      | none ↦ ok (normalize scores).0
      | some s ↦ err (about "plugin %q failed with: %w" pl.name (failure_of s))
    ]
  ]

-- The default weight of a name that is no key is 0.
unfoldable pub weight_of : String → List (String × ℤ) → ℤ
weight_of name weights = elim (find name weights) [ none ↦ pos 0 | some weight ↦ weight ]

unfoldable pub is_valid_score : ℤ → Bool
is_valid_score score = not (ltb_ℤ max_cluster_score score || ltb_ℤ score min_cluster_score)

-- The loop that applies the weight of one plugin.
unfoldable pub apply_weight : String → ℤ → ClusterScoreList → Result ClusterScoreList
apply_weight name weight [] = ok []
apply_weight name weight (c ∷ cs) = elim (is_valid_score c.score) [
  | true ↦ do
    rest ← apply_weight name weight cs
    ok (record c { score = int64 (c.score *ℤ weight) } ∷ rest)
  | false ↦ err (named "plugin %q returns an invalid score" name)
]

module _ {W Sub : Type 0} (weights : List (String × ℤ)) where
  -- The loop over the plugins that applies the weights.
  unfoldable pub weigh_all :
      List (ScorePlugin W Sub) → List ClusterScoreList → Result PluginToClusterScores
  weigh_all [] lists = ok []
  weigh_all (pl ∷ pls) [] = ok []
  weigh_all (pl ∷ pls) (scores ∷ lists) = do
    weighted ← apply_weight pl.name (weight_of pl.name weights) scores
    rest ← weigh_all pls lists
    ok ((pl.name, weighted) ∷ rest)

module _ {W Sub : Type 0} (key : ManagedCluster → String) (w : W) (sub : Sub)
    (clusters : List ManagedCluster) where
  -- The loops over the plugins, of which the first error is returned.
  unfoldable pub normalize_all : List (ScorePlugin W Sub) → Result (List ClusterScoreList)
  normalize_all [] = ok []
  normalize_all (pl ∷ pls) = do
    scores ← normalize_one pl (score_list key w sub clusters pl)
    rest ← normalize_all pls
    ok (scores ∷ rest)

module _ {W Sub : Type 0} (key : ManagedCluster → String) (weights : List (String × ℤ)) (w : W)
    (sub : Sub) (clusters : List ManagedCluster) where
  unfoldable pub run_score_plugins :
      List (ScorePlugin W Sub) → PluginToClusterScores × Option Status
  run_score_plugins pls = elim (score_error key w sub pls clusters) [
    | some e ↦ ([], some (as_status (about "running Score plugins: %w" "" e)))
    | none ↦ elim (normalize_all key w sub clusters pls) [
      | err e ↦ ([], some (as_status (about "running Normalize on Score plugins: %w" "" e)))
      | ok lists ↦ elim (weigh_all weights pls lists) [
        | err e ↦
            ([], some (as_status (about "applying score defaultWeights on Score plugins: %w" "" e)))
        | ok table ↦ (table, none)
      ]
    ]
  ]
