-- ===== src/Scheduler/Chain.antt =====
-- The loop that pkg/scheduler/framework/runtime/framework.go writes for one extension point after
-- another: run the plugins in turn, and return at the first that is no success. `call` runs a
-- plugin, and `report` makes the status to return from the plugin's own.
use clusternet.Prelude.{
  ◌≡◌, refl, ◌⊎◌, inl, inr, Option, none, some, List, [], ◌∷◌, ◌++◌, ap, Option-cases,
}
use clusternet.Scheduler.Status.{Status}
use clusternet.Scheduler.Filter.{failing}

module _ {W P : Type 0} (call : P → W → Option Status × W) where
  unfoldable pub chain : (P → Status → Status) → List P → W → Option Status × W
  chain report [] w = (none, w)
  chain report (p ∷ ps) w = elim (failing (call p w).0) [
    | none ↦ chain report ps (call p w).1
    | some s ↦ (some (report p s), (call p w).1)
  ]

  -- The world after all calls, and that each of them is a success.
  abbrev pub after : List P → W → W
  after [] w = w
  after (p ∷ ps) w = after ps (call p w).1

  abbrev pub Pass : List P → W → Type 0
  Pass [] w = Unit
  Pass (p ∷ ps) w = (failing (call p w).0 ≡ none) × Pass ps (call p w).1

  -- The plugins in front of `failed` pass, `failed` does not, and those behind it are not called.
  pub record Fails (report : P → Status → Status) (ps : List P) (w : W) : Type 0 where
    pub before : List P
    pub failed : P
    pub rest : List P
    pub status : Status
    pub split : ps ≡ before ++ failed ∷ rest
    pub passed : Pass before w
    pub refused : failing (call failed (after before w)).0 ≡ some status
    pub answer : chain report ps w ≡ (some (report failed status), (call failed (after before w)).1)

  Fails-cons :
      (report : P → Status → Status) (p : P) (ps : List P) (w : W)
      → failing (call p w).0 ≡ none
      → Fails report ps (call p w).1
      → Fails report (p ∷ ps) w
  unfolding chain
  Fails-cons report p ps w e f = record {
    before = p ∷ f.before;
    failed = f.failed;
    rest = f.rest;
    status = f.status;
    split = ap (λ (l : List P). p ∷ l) f.split;
    passed = (e, f.passed);
    refused = f.refused;
    answer = rw (e, chain) f.answer;
  }

  -- Every plugin runs and passes, or the loop ends at the first that does not.
  pub chain_cases :
      (report : P → Status → Status) (ps : List P) (w : W)
      → Pass ps w × (chain report ps w ≡ (none, after ps w)) ⊎ Fails report ps w
  unfolding chain
  chain_cases report [] w = inl (tt, refl)
  chain_cases report (p ∷ ps) w = elim (Option-cases (failing (call p w).0)) [
    | inl e ↦ elim (chain_cases report ps (call p w).1) [
      | inl (h, q) ↦ inl ((e, h), rw (e, chain) q)
      | inr f ↦ inr (Fails-cons report p ps w e f)
    ]
    | inr (s, e) ↦ inr (record {
      before = [];
      failed = p;
      rest = ps;
      status = s;
      split = refl;
      passed = tt;
      refused = e;
      answer = rw (e, chain);
    })
  ]
