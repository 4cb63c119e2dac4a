-- ===== src/Scheduler/Assembly.antt =====
-- pkg/scheduler/framework/runtime/framework.go: updatePluginList, and the checks of NewFramework. A
-- plugin is of a type `P`, and `implements` says whether it has the interface of an extension point,
-- whose name is `kind`.
pub mod Weights
use clusternet.Prelude.{
  String, Bool, true, false, Option, none, some, List, [], ◌∷◌, ◌++◌, ◌≡◌, refl, find, put,
  contains, Result, ok, err, ◌>>=◌, named, if◌then◌else◌, Ensures, not, Ensures-bind,
}
use clusternet.Prelude.Int.{ℤ}
use clusternet.Scheduler.Score.{is_zero}

-- Plugin and PluginSet of pkg/scheduler/apis/types.go.
pub record PluginConfig : Type 0 where
  pub name : String
  pub weight : ℤ

pub record PluginSet : Type 0 where
  pub enabled : List PluginConfig
  pub disabled : List PluginConfig

module _ {P : Type 0} (kind : String) (implements : P → Bool) where
  -- The loop, with the names that it has met and the plugins that are found from here on.
  unfoldable pub update_from : List (String × P) → List PluginConfig → List String → Result (List P)
  update_from plugins_map [] seen = ok []
  update_from plugins_map (ep ∷ eps) seen = elim (find ep.name plugins_map) [
    | none ↦ err (named "%s %q does not exist" ep.name)
    | some pg ↦
        if not (implements pg)
        then err (named "plugin %q does not extend %s plugin" ep.name)
        else if contains ep.name seen
        then err (named "plugin %q already registered as %q" ep.name)
        else do rest ← update_from plugins_map eps (ep.name ∷ seen); ok (pg ∷ rest)
  ]

  -- updatePluginList, which appends to the list; where it returns an error, so does NewFramework.
  unfoldable pub update_plugin_list : List P → PluginSet → List (String × P) → Result (List P)
  update_plugin_list plugin_list plugin_set plugins_map = do
    added ← update_from plugins_map plugin_set.enabled []
    ok (plugin_list ++ added)

-- The loop over the score plugins that fills scorePluginWeight.
unfoldable pub score_plugin_weights :
    List PluginConfig → List (String × ℤ) → Result (List (String × ℤ))
score_plugin_weights [] weights = ok weights
score_plugin_weights (p ∷ ps) weights =
    if is_zero p.weight
    then err (named "score plugin %q is not configured with weight" p.name)
    else score_plugin_weights ps (put p.name p.weight weights)

-- The plugin that the map has for a name has the interface, and the names are met once.
module _ {P : Type 0} (kind : String) (implements : P → Bool)
    (plugins_map : List (String × P)) where
  pub data IsBuilt : List String → List PluginConfig → List P → Type 0 where
    done : {seen : List String} → IsBuilt seen [] []
    next :
        {seen : List String} (ep : PluginConfig) (pg : P) (eps : List PluginConfig) (pls : List P)
        → find ep.name plugins_map ≡ some pg
        → implements pg ≡ true
        → contains ep.name seen ≡ false
        → IsBuilt (ep.name ∷ seen) eps pls
        → IsBuilt seen (ep ∷ eps) (pg ∷ pls)

  update_from-IsBuilt :
      (eps : List PluginConfig) (seen : List String)
      → Ensures (IsBuilt seen eps) (update_from kind implements plugins_map eps seen)
  unfolding update_from
  update_from-IsBuilt [] seen = done
  update_from-IsBuilt (ep ∷ eps) seen =
      go (find ep.name plugins_map) refl (update_from-IsBuilt eps (ep.name ∷ seen))
    where
      rest : Result (List P)
      rest = update_from kind implements plugins_map eps (ep.name ∷ seen)

      go :
          (o : Option P)
          → find ep.name plugins_map ≡ o
          → Ensures (IsBuilt (ep.name ∷ seen) eps) rest
          → Ensures
              (IsBuilt seen (ep ∷ eps))
              (update_from kind implements plugins_map (ep ∷ eps) seen)
      go none e h = rw (update_from, e) tt
      go (some pg) e h =
          rw (update_from, e) (tests (implements pg) (contains ep.name seen) refl refl)
        where
          tests :
              (b c : Bool)
              → implements pg ≡ b
              → contains ep.name seen ≡ c
              → Ensures (IsBuilt seen (ep ∷ eps)) (
                  if not b
                  then err (named "plugin %q does not extend %s plugin" ep.name)
                  else if c
                  then err (named "plugin %q already registered as %q" ep.name)
                  else (rest >>= λ pls. ok (pg ∷ pls)))
          tests false c f g = tt
          tests true true f g = tt
          tests true false f g =
              Ensures-bind (IsBuilt (ep.name ∷ seen) eps) (IsBuilt seen (ep ∷ eps)) rest
                (λ pls. ok (pg ∷ pls)) h (λ pls k. next ep pg eps pls e f g k)

  -- When updatePluginList returns no error, it appends, in the configured order, the plugin that the
  -- map has for each enabled name; each implements the interface, and no name is enabled twice.
  pub update_plugin_list-IsBuilt :
      (plugin_list : List P) (plugin_set : PluginSet)
      → Ensures
          (λ (all : List P).
            (pls : List P) × (all ≡ plugin_list ++ pls) × IsBuilt [] plugin_set.enabled pls)
          (update_plugin_list kind implements plugin_list plugin_set plugins_map)
  unfolding update_plugin_list
  update_plugin_list-IsBuilt plugin_list plugin_set =
      Ensures-bind (IsBuilt [] plugin_set.enabled) _ _ (λ added. ok (plugin_list ++ added))
        (update_from-IsBuilt plugin_set.enabled []) (λ pls h. (pls, refl, h))
