-- ===== src/Scheduler/Assembly/Weights.antt =====
-- The weights that NewFramework of pkg/scheduler/framework/runtime/framework.go keeps.
use text.Mathlib.TextPositions.{eq_refl}
use clusternet.Prelude.{
  ◌≡◌, refl, String, Bool, true, false, List, [], ◌∷◌, put, find-put, same_text, if◌then◌else◌,
  Result, err, named, Ensures, Ensures-imp, All, arith, if-both,
}
use clusternet.Prelude.Int.{ℤ}
use clusternet.Scheduler.Score.{is_zero, weight_of}
use clusternet.Scheduler.Assembly.{PluginConfig, score_plugin_weights}

-- The map has a weight other than zero for the name.
abbrev pub IsWeighty : List (String × ℤ) → String → Type 0
IsWeighty weights k = is_zero (weight_of k weights) ≡ false

weight_of-put :
    (j k : String) (w : ℤ) (weights : List (String × ℤ))
    → weight_of k (put j w weights) ≡ (if same_text j k then w else weight_of k weights)
unfolding weight_of
weight_of-put j k w weights = ground (arith, find-put j k w weights)

put-IsWeighty :
    (k j : String) (w : ℤ) (weights : List (String × ℤ))
    → is_zero w ≡ false
    → IsWeighty weights k
    → IsWeighty (put j w weights) k
put-IsWeighty k j w weights z h =
    rw (weight_of-put)
      (if-both (λ v. is_zero v ≡ false) (same_text j k) w (weight_of k weights) (λ _. z) (λ _. h))

put_self-IsWeighty :
    (k : String) (w : ℤ) (weights : List (String × ℤ))
    → is_zero w ≡ false
    → IsWeighty (put k w weights) k
put_self-IsWeighty k w weights z = rw (weight_of-put k k w weights, eq_refl k) z

-- Weights that are kept stay, and each plugin gets one.
abbrev Keeps : List PluginConfig → List (String × ℤ) → List (String × ℤ) → Type 0
Keeps ps weights all =
    ((k : String) → IsWeighty weights k → IsWeighty all k)
    × All (λ (p : PluginConfig). IsWeighty all p.name) ps

score_plugin_weights-Keeps :
    (ps : List PluginConfig) (weights : List (String × ℤ))
    → Ensures (Keeps ps weights) (score_plugin_weights ps weights)
unfolding score_plugin_weights
score_plugin_weights-Keeps [] weights = (λ k h. h, tt)
score_plugin_weights-Keeps (p ∷ ps) weights =
    go (is_zero p.weight) refl (score_plugin_weights-Keeps ps (put p.name p.weight weights))
  where
    rest : Result (List (String × ℤ))
    rest = score_plugin_weights ps (put p.name p.weight weights)

    go :
        (b : Bool)
        → is_zero p.weight ≡ b
        → Ensures (Keeps ps (put p.name p.weight weights)) rest
        → Ensures
            (Keeps (p ∷ ps) weights)
            (if b then err (named "score plugin %q is not configured with weight" p.name) else rest)
    go true z h = tt
    go false z h =
        Ensures-imp _ _ rest
          (λ all t. (
            λ k g. t.0 k (put-IsWeighty k p.name p.weight weights z g),
            (t.0 p.name (put_self-IsWeighty p.name p.weight weights z), t.1),
          ))
          h

-- When the loop of NewFramework over the score plugins returns no error, each plugin that is enabled
-- has a weight other than zero.
pub score_plugin_weights-IsWeighty :
    (ps : List PluginConfig)
    → Ensures
        (λ (weights : List (String × ℤ)). All (λ (p : PluginConfig). IsWeighty weights p.name) ps)
        (score_plugin_weights ps [])
score_plugin_weights-IsWeighty ps =
    Ensures-imp _ _ (score_plugin_weights ps []) (λ all t. t.1) (score_plugin_weights-Keeps ps [])
