-- ===== src/Scheduler/Score/Weights.antt =====
-- What a successful RunScorePlugins (pkg/scheduler/framework/runtime/framework.go) returns.
use mathlib.Core.Path.{subst}
use native.Mathlib.Nat.{mul-le-mul_right}
use clusternet.Prelude.{
  ℕ, ◌*◌, ◌≤◌, ◌<◌, ◌≡◌, refl, ◌∙◌, ap, String, Bool, true, false, Option, none, some, List, [],
  ◌∷◌, map, arith, All, Result, ok, err, ◌>>=◌, Ensures, inl, Ensures-bind, about, inr,
  Option-cases, sym, Message, named,
}
use clusternet.Prelude.Int.{ℤ, pos, pos_part, int64, int64-pos, pos-mul, pos-eq, ◌*ℤ◌, ◌≤ℤ◌}
use clusternet.Scheduler.Api.{ManagedCluster}
use clusternet.Scheduler.Status.{Status, failure_of, as_status}
use clusternet.Scheduler.Plugins.{ClusterScore, ScorePlugin}
use clusternet.Scheduler.Filter.{failing}
use clusternet.Scheduler.Score.{
  ClusterScoreList, PluginToClusterScores, score_list, normalize_one, weight_of, is_valid_score,
  apply_weight, normalize_all, weigh_all, score_error, run_score_plugins,
}

-- Each score lies between 0 and 100 times the weight.
abbrev pub IsWeighted : ℕ → ClusterScore → Type 0
IsWeighted weight c = (pos 0 ≤ℤ c.score) × (c.score ≤ℤ pos (100 * weight))

weigh_one :
    (score : ℤ) (weight : ℕ)
    → is_valid_score score ≡ true
    → weight < 2147483648
    → (pos 0 ≤ℤ int64 (score *ℤ pos weight)) × (int64 (score *ℤ pos weight) ≤ℤ pos (100 * weight))
unfolding is_valid_score
weigh_one score weight v h =
    let s = pos_part score in
    let exact : score ≡ pos s = pos-eq score (ground arith) in
    let small : s * weight ≤ 100 * weight = mul-le-mul_right weight (ground arith) in
    rw (exact, pos-mul s weight, int64-pos (s * weight) (omega arith)) (omega arith, omega arith)

-- What the loop over one plugin's scores returns.
abbrev Weighted : ℕ → ClusterScoreList → ClusterScoreList → Type 0
Weighted weight scores weighted =
    All (IsWeighted weight) weighted
    × (map (λ (c : ClusterScore). c.namespaced_name) weighted
        ≡ map (λ (c : ClusterScore). c.namespaced_name) scores)

apply_weight-Weighted :
    (name : String) (weight : ℕ) (scores : ClusterScoreList)
    → weight < 2147483648
    → Ensures (Weighted weight scores) (apply_weight name (pos weight) scores)
unfolding apply_weight
apply_weight-Weighted name weight [] h = (tt, refl)
apply_weight-Weighted name weight (c ∷ cs) h =
    go (is_valid_score c.score) refl (apply_weight-Weighted name weight cs h)
  where
    go :
        (b : Bool)
        → is_valid_score c.score ≡ b
        → Ensures (Weighted weight cs) (apply_weight name (pos weight) cs)
        → Ensures (Weighted weight (c ∷ cs)) (elim b [
          | true ↦ do
            rest ← apply_weight name (pos weight) cs
            ok (record c { score = int64 (c.score *ℤ pos weight) } ∷ rest)
          | false ↦ err (named "plugin %q returns an invalid score" name)
        ])
    go true v ih =
        Ensures-bind (Weighted weight cs) (Weighted weight (c ∷ cs))
          (apply_weight name (pos weight) cs) _ ih
          (λ rest k. ((weigh_one c.score weight v h, k.0), ap (λ l. c.namespaced_name ∷ l) k.1))
    go false v ih = tt

abbrev names_of : ClusterScoreList → List String
names_of scores = map (λ (c : ClusterScore). c.namespaced_name) scores

-- NormalizeScore changes scores, not the clusters that they are of.
abbrev pub KeepsNames : {W Sub : Type 0} → ScorePlugin W Sub → Type 0
KeepsNames pl =
    (normalize : ClusterScoreList → ClusterScoreList × Option Status)
    → pl.normalize_score ≡ some normalize
    → (scores : ClusterScoreList) → names_of (normalize scores).0 ≡ names_of scores

-- The weight of the plugin is an int32 that is no negative number.
abbrev pub HasWeight : {W Sub : Type 0} → List (String × ℤ) → ScorePlugin W Sub → Type 0
HasWeight weights pl =
    (pos 0 ≤ℤ weight_of pl.name weights) × (pos_part (weight_of pl.name weights) < 2147483648)

normalize_one-names :
    {W Sub : Type 0} (pl : ScorePlugin W Sub) (scores : ClusterScoreList)
    → KeepsNames pl
    → Ensures (λ (l : ClusterScoreList). names_of l ≡ names_of scores) (normalize_one pl scores)
unfolding normalize_one
normalize_one-names pl scores keeps = go pl.normalize_score keeps
  where
    go :
        (n : Option (ClusterScoreList → ClusterScoreList × Option Status))
        → ((normalize : ClusterScoreList → ClusterScoreList × Option Status)
            → n ≡ some normalize
            → (scores : ClusterScoreList) → names_of (normalize scores).0 ≡ names_of scores)
        → Ensures
            (λ (l : ClusterScoreList). names_of l ≡ names_of scores)
            (elim n [
              | none ↦ ok scores
              | some normalize ↦ elim (failing (normalize scores).1) [
                | none ↦ ok (normalize scores).0
                | some s ↦ err (about "plugin %q failed with: %w" pl.name (failure_of s))
              ]
            ])
    go none keeps = refl
    go (some normalize) keeps = elim (Option-cases (failing (normalize scores).1)) [
      | inl e ↦ rw e (keeps normalize refl scores)
      | inr (s, e) ↦ rw e tt
    ]

module _ {W Sub : Type 0} (key : ManagedCluster → String) (weights : List (String × ℤ)) (w : W)
    (sub : Sub) (clusters : List ManagedCluster) where
  names_of-score_list :
      (pl : ScorePlugin W Sub) (cs : List ManagedCluster)
      → names_of (score_list key w sub cs pl) ≡ map key cs
  unfolding score_list
  names_of-score_list pl [] = refl
  names_of-score_list pl (c ∷ cs) = ap (λ l. key c ∷ l) (names_of-score_list pl cs)

  abbrev Named : List (ScorePlugin W Sub) → List ClusterScoreList → Type 0
  Named [] [] = Unit
  Named (pl ∷ pls) (l ∷ ls) = (names_of l ≡ map key clusters) × Named pls ls
  Named _ _ = ⊥

  -- One column for each plugin, in order: its name, the clusters in order, and weighted scores.
  abbrev pub Columns : List (ScorePlugin W Sub) → PluginToClusterScores → Type 0
  Columns [] [] = Unit
  Columns (pl ∷ pls) ((name, scores) ∷ t) =
      (name ≡ pl.name)
      × (names_of scores ≡ map key clusters)
      × All (IsWeighted (pos_part (weight_of pl.name weights))) scores
      × Columns pls t
  Columns _ _ = ⊥

  normalize_all-Named :
      (pls : List (ScorePlugin W Sub))
      → All KeepsNames pls
      → Ensures (Named pls) (normalize_all key w sub clusters pls)
  unfolding normalize_all
  normalize_all-Named [] h = tt
  normalize_all-Named (pl ∷ pls) h =
      Ensures-bind
        (λ (l : ClusterScoreList). names_of l ≡ names_of (score_list key w sub clusters pl))
        (Named (pl ∷ pls)) _ _ (normalize_one-names pl (score_list key w sub clusters pl) h.0)
        (λ scores e.
          Ensures-bind (Named pls) (Named (pl ∷ pls)) _ _ (normalize_all-Named pls h.1)
            (λ rest k. (e ∙ names_of-score_list pl clusters, k)))

  weigh_all-Columns :
      (pls : List (ScorePlugin W Sub)) (lists : List ClusterScoreList)
      → All (HasWeight weights) pls
      → Named pls lists
      → Ensures (Columns pls) (weigh_all weights pls lists)
  unfolding weigh_all
  weigh_all-Columns [] [] h k = tt
  weigh_all-Columns [] (l ∷ ls) h k = elim k [ ]
  weigh_all-Columns (pl ∷ pls) [] h k = elim k [ ]
  weigh_all-Columns (pl ∷ pls) (l ∷ ls) h k =
      let weight = pos_part (weight_of pl.name weights) in
      let weighs =
        subst (λ (z : ℤ). Ensures (Weighted weight l) (apply_weight pl.name z l))
          (sym (pos-eq (weight_of pl.name weights) h.0.0))
          (apply_weight-Weighted pl.name weight l h.0.1) in
      Ensures-bind (Weighted weight l) (Columns (pl ∷ pls)) _ _ weighs (λ weighted q.
        Ensures-bind (Columns pls) (Columns (pl ∷ pls)) _ _ (weigh_all-Columns pls ls h.1 k.1)
          (λ rest r. (refl, q.1 ∙ k.0, q.0, r)))

  abbrev Succeeds : List (ScorePlugin W Sub) → PluginToClusterScores × Option Status → Type 0
  Succeeds pls r = r.1 ≡ none → Columns pls r.0

  weigh_all-Succeeds :
      (pls : List (ScorePlugin W Sub)) (r : Result PluginToClusterScores)
      → Ensures (Columns pls) r
      → Succeeds pls (elim r [
        | err e ↦
            ([], some (as_status (about "applying score defaultWeights on Score plugins: %w" "" e)))
        | ok table ↦ (table, none)
      ])
  weigh_all-Succeeds pls (ok table) h e = h
  weigh_all-Succeeds pls (err m) h e = cc

  normalize_columns-Succeeds :
      (pls : List (ScorePlugin W Sub)) (r : Result (List ClusterScoreList))
      → All (HasWeight weights) pls
      → Ensures (Named pls) r
      → Succeeds pls (elim r [
        | err e ↦ ([], some (as_status (about "running Normalize on Score plugins: %w" "" e)))
        | ok lists ↦ elim (weigh_all weights pls lists) [
          | err e ↦ (
            [],
            some (as_status (about "applying score defaultWeights on Score plugins: %w" "" e)),
          )
          | ok table ↦ (table, none)
        ]
      ])
  normalize_columns-Succeeds pls (ok lists) h k e =
      weigh_all-Succeeds pls (weigh_all weights pls lists) (weigh_all-Columns pls lists h k) e
  normalize_columns-Succeeds pls (err m) h k e = cc

  score_error-Succeeds :
      (pls : List (ScorePlugin W Sub)) (o : Option Message)
      → All KeepsNames pls
      → All (HasWeight weights) pls
      → Succeeds pls (elim o [
        | some e ↦ ([], some (as_status (about "running Score plugins: %w" "" e)))
        | none ↦ elim (normalize_all key w sub clusters pls) [
          | err e ↦ ([], some (as_status (about "running Normalize on Score plugins: %w" "" e)))
          | ok lists ↦ elim (weigh_all weights pls lists) [
            | err e ↦ (
              [],
              some (as_status (about "applying score defaultWeights on Score plugins: %w" "" e)),
            )
            | ok table ↦ (table, none)
          ]
        ]
      ])
  score_error-Succeeds pls (some m) h k e = cc
  score_error-Succeeds pls none h k e =
      normalize_columns-Succeeds pls (normalize_all key w sub clusters pls) k
        (normalize_all-Named pls h) e

  -- If NormalizeScore keeps the clusters, and weights are natural numbers of int32, then a successful
  -- run has one column for each plugin, in order; it lists the clusters in order, and each score lies
  -- between 0 and 100 times the plugin's weight.
  pub run_score_plugins-Columns :
      (pls : List (ScorePlugin W Sub))
      → All KeepsNames pls
      → All (HasWeight weights) pls
      → (run_score_plugins key weights w sub clusters pls).1 ≡ none
      → Columns pls (run_score_plugins key weights w sub clusters pls).0
  unfolding run_score_plugins
  run_score_plugins-Columns pls h k e =
      score_error-Succeeds pls (score_error key w sub pls clusters) h k e
