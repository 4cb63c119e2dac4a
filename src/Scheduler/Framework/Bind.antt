-- ===== src/Scheduler/Framework/Bind.antt =====
-- Which plugin decides RunBindPlugins (pkg/scheduler/framework/runtime/framework.go).
use clusternet.Prelude.{
  String, ◌≡◌, refl, ap, ◌⊎◌, inl, inr, true, false, Option, none, some, List, [], ◌∷◌, ◌++◌,
  Bool-cases, arith,
}
use clusternet.Scheduler.Status.{Status, skip, code_of, new_status}
use clusternet.Scheduler.Plugins.{BindPlugin}
use clusternet.Scheduler.Framework.{is_skip, bind_answer, bind_loop, run_bind_plugins}

skip_code : (status : Option Status) → is_skip status ≡ true → code_of status ≡ skip
unfolding is_skip code_of
skip_code none h = cc
skip_code (some s) h = ground arith

module _ {W Sub : Type 0} (sub : Sub) (clusters : List String) where
  abbrev pub after_binds : List (BindPlugin W Sub) → W → W
  after_binds [] w = w
  after_binds (bp ∷ bps) w = after_binds bps (bp.bind sub clusters w).1

  -- All plugins are called in turn and skip.
  abbrev pub Skip : List (BindPlugin W Sub) → W → Type 0
  Skip [] w = Unit
  Skip (bp ∷ bps) w =
      (is_skip (bp.bind sub clusters w).0 ≡ true) × Skip bps (bp.bind sub clusters w).1

  -- The plugins in front of `binder` skip, `binder` does not, and those behind it are not called.
  pub record Binds (bps : List (BindPlugin W Sub)) (w : W) (result : Option Status × W)
      : Type 0 where
    pub before : List (BindPlugin W Sub)
    pub binder : BindPlugin W Sub
    pub rest : List (BindPlugin W Sub)
    pub split : bps ≡ before ++ binder ∷ rest
    pub skipped : Skip before w
    pub decided : is_skip (binder.bind sub clusters (after_binds before w)).0 ≡ false
    pub answer :
        let (status, w') = binder.bind sub clusters (after_binds before w) in
        result ≡ (bind_answer binder.name status, w')

  Binds-cons :
      (bp : BindPlugin W Sub) (bps : List (BindPlugin W Sub)) (w : W) (result : Option Status × W)
      → is_skip (bp.bind sub clusters w).0 ≡ true
      → Binds bps (bp.bind sub clusters w).1 result
      → Binds (bp ∷ bps) w result
  Binds-cons bp bps w result e b = record {
    before = bp ∷ b.before;
    binder = b.binder;
    rest = b.rest;
    split = ap (λ (l : List (BindPlugin W Sub)). bp ∷ l) b.split;
    skipped = (e, b.skipped);
    decided = b.decided;
    answer = b.answer;
  }

  bind_loop_cases :
      (bps : List (BindPlugin W Sub)) (status : Option Status) (w : W)
      → (bps ≡ [] → code_of status ≡ skip)
      → Skip bps w
          × (code_of (bind_loop sub clusters bps status w).0 ≡ skip)
          × ((bind_loop sub clusters bps status w).1 ≡ after_binds bps w)
        ⊎ Binds bps w (bind_loop sub clusters bps status w)
  unfolding bind_loop
  bind_loop_cases [] status w h = inl (tt, h refl, refl)
  bind_loop_cases (bp ∷ bps) status w h =
      let answer = bp.bind sub clusters w in
      elim (Bool-cases (is_skip answer.0)) [
        | inl e ↦ elim (bind_loop_cases bps answer.0 answer.1 (λ _. skip_code answer.0 e)) [
          | inl (s, c, a) ↦ inl ((e, s), rw (e, bind_loop) c, rw (e, bind_loop) a)
          | inr b ↦ inr (Binds-cons bp bps w _ e (rw (e, bind_loop) b))
        ]
        | inr e ↦ inr (record {
          before = [];
          binder = bp;
          rest = bps;
          split = refl;
          skipped = tt;
          decided = e;
          answer = rw (e, bind_loop);
        })
      ]

  -- Either every bind plugin skips and so does the run, or the first one that does not skip decides,
  -- and no later one is called: its success is returned as it is, anything else as an error.
  pub run_bind_plugins_cases :
      (bps : List (BindPlugin W Sub)) (w : W)
      → Skip bps w
          × (code_of (run_bind_plugins sub clusters bps w).0 ≡ skip)
          × ((run_bind_plugins sub clusters bps w).1 ≡ after_binds bps w)
        ⊎ Binds bps w (run_bind_plugins sub clusters bps w)
  unfolding run_bind_plugins code_of new_status
  run_bind_plugins_cases [] w = inl (tt, refl, refl)
  run_bind_plugins_cases (bp ∷ bps) w = bind_loop_cases (bp ∷ bps) none w (λ e. cc)
