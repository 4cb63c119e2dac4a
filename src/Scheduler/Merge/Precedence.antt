-- ===== src/Scheduler/Merge/Precedence.antt =====
-- What PluginToStatus.Merge (pkg/scheduler/framework/interfaces/interface.go) keeps of the statuses.
use mathlib.Core.Path.{ap₂, subst}
use mathlib.Core.Option.{some-injective}
use mathlib.Core.List.{Memᴰ, Permᴰ}
use clusternet.Prelude.{
  String, ◌≡◌, refl, sym, ap, ◌∙◌, ◌⊎◌, inl, inr, ◌&&◌, some, List, [], ◌∷◌, Message, arith,
  if◌then◌else◌, All, Bool-cases,
}
use clusternet.Prelude.Int.{ℤ, negsuc, ltb_ℤ, ◌≤ℤ◌}
use clusternet.Scheduler.Status.{
  Code, success, same_code, Status, code_of, is_success, append_reason, new_status,
}
use clusternet.Scheduler.Merge.{
  PluginToStatus, precedence, append_reasons, merge_step, merge_from, merge, all_success,
}

append_reasons-code : (rs : List Message) (s : Status) → (append_reasons rs s).code ≡ s.code
unfolding append_reasons append_reason
append_reasons-code [] s = refl
append_reasons-code (r ∷ rs) s = append_reasons-code rs _

append_reasons-plugin :
    (rs : List Message) (s : Status) → (append_reasons rs s).failed_plugin ≡ s.failed_plugin
unfolding append_reasons append_reason
append_reasons-plugin [] s = refl
append_reasons-plugin (r ∷ rs) s = append_reasons-plugin rs _

higher : ℤ → ℤ → ℤ
higher a b = if ltb_ℤ a b then b else a

-- The highest precedence among the codes.
highest : ℤ → PluginToStatus → ℤ
highest a [] = a
highest a ((name, s) ∷ m) = highest (higher a (precedence s.code)) m

-- The status before the reasons are added.
abbrev ranked : Status → Status → Status
ranked final s =
    if ltb_ℤ (precedence final.code) (precedence s.code)
    then record final { code = s.code; failed_plugin = s.failed_plugin }
    else final

step-code : (final s : Status) → (merge_step final s).code ≡ (ranked final s).code
unfolding merge_step
step-code final s = append_reasons-code s.reasons _ ∙ ground arith

step-plugin :
    (final s : Status) → (merge_step final s).failed_plugin ≡ (ranked final s).failed_plugin
unfolding merge_step
step-plugin final s = append_reasons-plugin s.reasons _ ∙ ground arith

step-precedence :
    (final s : Status)
    → precedence (merge_step final s).code ≡ higher (precedence final.code) (precedence s.code)
unfolding higher
step-precedence final s = rw (step-code final s) (ground arith)

merge_from-precedence :
    (final : Status) (m : PluginToStatus)
    → precedence (merge_from final m).code ≡ highest (precedence final.code) m
unfolding merge_from highest
merge_from-precedence final [] = refl
merge_from-precedence final ((name, s) ∷ m) =
    rw (← step-precedence final s) (merge_from-precedence (merge_step final s) m)

precedence-ge : (c : Code) → negsuc 0 ≤ℤ precedence c
unfolding precedence
precedence-ge c = ground arith

merge-precedence : (m : PluginToStatus) → precedence (code_of (merge m)) ≡ highest (negsuc 0) m
unfolding merge code_of highest new_status precedence
merge-precedence [] = refl
merge-precedence (p ∷ m) = merge_from-precedence (new_status success []) (p ∷ m)

higher_swap : (a b c : ℤ) → higher (higher a b) c ≡ higher (higher a c) b
unfolding higher
higher_swap a b c = ground arith

highest-perm : (a : ℤ) {m n : PluginToStatus} → Permᴰ m n → highest a m ≡ highest a n
unfolding highest
highest-perm a Permᴰ.nil = refl
highest-perm a (Permᴰ.cons {b = q} {l₁ = l} e p) =
    ap (λ (r : String × Status). highest (higher a (precedence r.1.code)) l) e
    ∙ highest-perm (higher a (precedence q.1.code)) p
highest-perm a (Permᴰ.swap {a = x} {b = y} {l = l} e f) =
    ap (λ (z : ℤ). highest z l) (higher_swap a (precedence x.1.code) (precedence y.1.code))
    ∙ ap₂
        (λ (q r : String × Status).
          highest (higher (higher a (precedence q.1.code)) (precedence r.1.code)) l)
        f e
highest-perm a (Permᴰ.trans p q) = highest-perm a p ∙ highest-perm a q

-- The precedence of the merged code does not depend on the order in which the map is visited.
pub merge-perm :
    {m n : PluginToStatus}
    → Permᴰ m n
    → precedence (code_of (merge m)) ≡ precedence (code_of (merge n))
merge-perm {m} {n} p = merge-precedence m ∙ highest-perm (negsuc 0) p ∙ sym (merge-precedence n)

highest-ge : (a : ℤ) (m : PluginToStatus) → a ≤ℤ highest a m
unfolding highest higher
highest-ge a [] = omega arith
highest-ge a ((name, s) ∷ m) = ground (arith, highest-ge (higher a (precedence s.code)) m)

higher-ge : (a b : ℤ) → b ≤ℤ higher a b
unfolding higher
higher-ge a b = ground arith

highest_bounds :
    (a : ℤ) (m : PluginToStatus)
    → All (λ (p : String × Status). precedence p.1.code ≤ℤ highest a m) m
unfolding highest
highest_bounds a [] = tt
highest_bounds a ((name, s) ∷ m) =
    let next = higher a (precedence s.code) in
    (ground (arith, higher-ge a (precedence s.code), highest-ge next m), highest_bounds next m)

-- The merged code has the highest precedence of all: no status of the map has a higher one.
pub merge_highest :
    (m : PluginToStatus)
    → All (λ (p : String × Status). precedence p.1.code ≤ℤ precedence (code_of (merge m))) m
merge_highest m = rw (merge-precedence m) (highest_bounds (negsuc 0) m)

-- The code and the plugin of a merged status, read off the status that a member left.
abbrev Origin : Status → Status → PluginToStatus → Type 0
Origin start final m =
    ((final.code ≡ start.code) × (final.failed_plugin ≡ start.failed_plugin))
    ⊎ ((p : String × Status) × Memᴰ p m
        × (final.code ≡ p.1.code)
        × (final.failed_plugin ≡ p.1.failed_plugin))

ranked-origin :
    (final s : Status)
    → ((merge_step final s).code ≡ final.code)
        × ((merge_step final s).failed_plugin ≡ final.failed_plugin)
      ⊎ ((merge_step final s).code ≡ s.code)
        × ((merge_step final s).failed_plugin ≡ s.failed_plugin)
ranked-origin final s = elim (Bool-cases (ltb_ℤ (precedence final.code) (precedence s.code))) [
  | inl e ↦ inr (step-code final s ∙ rw e, step-plugin final s ∙ rw e)
  | inr e ↦ inl (step-code final s ∙ rw e, step-plugin final s ∙ rw e)
]

merge_from-Origin : (start : Status) (m : PluginToStatus) → Origin start (merge_from start m) m
unfolding merge_from
merge_from-Origin start [] = inl (refl, refl)
merge_from-Origin start ((name, s) ∷ m) = elim (merge_from-Origin (merge_step start s) m) [
  | inr (p, h, c, f) ↦ inr (p, Memᴰ.tail h, c, f)
  | inl (c, f) ↦ elim (ranked-origin start s) [
    | inl (c', f') ↦ inl (c ∙ c', f ∙ f')
    | inr (c', f') ↦ inr ((name, s), Memᴰ.head refl, c ∙ c', f ∙ f')
  ]
]

-- A merged status is Success, or has the code and the failed plugin of one status of the map.
pub merge_origin :
    (m : PluginToStatus) {final : Status}
    → merge m ≡ some final
    → (final.code ≡ success)
      ⊎ ((p : String × Status) × Memᴰ p m
          × (final.code ≡ p.1.code)
          × (final.failed_plugin ≡ p.1.failed_plugin))
unfolding merge new_status
merge_origin [] h = cc
merge_origin (p ∷ m) h =
    elim (subst (λ (f : Status). Origin (new_status success []) f (p ∷ m)) (some-injective _ _ h)
      (merge_from-Origin (new_status success []) (p ∷ m))) [ inl (c, f) ↦ inl c | inr r ↦ inr r ]

success_step :
    (final s : Status)
    → same_code (merge_step final s).code success
      ≡ (same_code final.code success && same_code s.code success)
unfolding precedence
success_step final s = rw (step-code final s) (ground arith)

merge_from-success :
    (final : Status) (m : PluginToStatus)
    → same_code (merge_from final m).code success ≡ (same_code final.code success && all_success m)
unfolding merge_from
merge_from-success final [] = ground arith
merge_from-success final ((name, s) ∷ m) =
    ground (arith, success_step final s, merge_from-success (merge_step final s) m)

-- The merged status is a success exactly when all statuses of the map are.
pub is_success-merge : (m : PluginToStatus) → is_success (merge m) ≡ all_success m
unfolding merge is_success code_of new_status
is_success-merge [] = refl
is_success-merge (p ∷ m) = merge_from-success (new_status success []) (p ∷ m)
