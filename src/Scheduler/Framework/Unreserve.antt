-- ===== src/Scheduler/Framework/Unreserve.antt =====
-- The order of RunReservePluginsUnreserve (pkg/scheduler/framework/runtime/framework.go).
use clusternet.Prelude.{
  ℕ, suc, zero, String, ◌≡◌, refl, ◌∙◌, ap, List, [], ◌∷◌, length, get_elem?, take, arith, ◌≤◌, ◌<◌,
  none, some,
}
use clusternet.Scheduler.Plugins.{ReservePlugin}
use clusternet.Scheduler.Framework.{unreserve_down, run_reserve_plugins_unreserve}

get_elem?-some {ℓ} :
    {A : Type ℓ} (xs : List A) (i : ℕ) → i < length xs → (x : A) × (get_elem? xs i ≡ some x)
get_elem?-some [] i h = elim h [ ]
get_elem?-some (x ∷ xs) zero h = (x, refl)
get_elem?-some (x ∷ xs) (suc i) h = get_elem?-some xs i (omega arith)

module _ {W Sub : Type 0} (sub : Sub) (clusters : List String) where
  -- The plugins behind the first one undo their work before it does.
  abbrev pub undo : List (ReservePlugin W Sub) → W → W
  undo [] w = w
  undo (pl ∷ pls) w = pl.unreserve sub clusters (undo pls w)

  -- The world after the plugin at place `i`, if there is one.
  undo_at : List (ReservePlugin W Sub) → ℕ → W → W
  undo_at pls i w = elim (get_elem? pls i) [ none ↦ w | some pl ↦ pl.unreserve sub clusters w ]

  undo-take :
      (pls : List (ReservePlugin W Sub)) (i : ℕ) (w : W)
      → undo (take (suc i) pls) w ≡ undo (take i pls) (undo_at pls i w)
  unfolding undo_at
  undo-take [] zero w = refl
  undo-take [] (suc i) w = refl
  undo-take (pl ∷ pls) zero w = refl
  undo-take (pl ∷ pls) (suc i) w = ap (pl.unreserve sub clusters) (undo-take pls i w)

  unreserve_down-undo :
      (pls : List (ReservePlugin W Sub)) (i : ℕ) (w : W)
      → i ≤ length pls
      → unreserve_down sub clusters pls i w ≡ undo (take i pls) w
  unfolding unreserve_down undo_at
  unreserve_down-undo pls zero w h = refl
  unreserve_down-undo pls (suc i) w h =
      let (pl, found) = get_elem?-some pls i h in
      rw (undo-take pls i w) (
        rw (found, unreserve_down, undo_at)
          (unreserve_down-undo pls i (pl.unreserve sub clusters w) (omega arith)))

  take-length : (pls : List (ReservePlugin W Sub)) → take (length pls) pls ≡ pls
  take-length [] = refl
  take-length (pl ∷ pls) = ap (λ l. pl ∷ l) (take-length pls)

  -- Unreserve is called once for each reserve plugin, the last plugin first.
  pub unreserve_reverse :
      (pls : List (ReservePlugin W Sub)) (w : W)
      → run_reserve_plugins_unreserve sub clusters pls w ≡ undo pls w
  unfolding run_reserve_plugins_unreserve
  unreserve_reverse pls w =
      unreserve_down-undo pls (length pls) w (omega arith) ∙ ap (λ l. undo l w) (take-length pls)
