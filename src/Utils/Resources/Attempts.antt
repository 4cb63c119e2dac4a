-- ===== src/Utils/Resources/Attempts.antt =====
-- The wait with backoff that pkg/utils/deployer.go tries its closures with.
use clusternet.Prelude.{ℕ, zero, suc, Bool, true, false, ◌≡◌, refl, sym, ◌∙◌, arith}
use clusternet.Utils.Resources.{Trying, Backoff}

-- Trying a condition again until it holds, `n` times at most.
unfoldable pub attempts :
    {W : Type 0} → ℕ → (Trying W → Bool × Trying W) → Trying W → Bool × Trying W
attempts zero c st = (false, st)
attempts (suc n) c st =
    let rest = attempts n c (c st).1 in elim (c st).0 [ true ↦ (true, (c st).1) | false ↦ rest ]

-- The wait with backoff tries a condition at least once, which it does unless its context is done at
-- the start, and then again after it failed, up to some number of times.
abbrev pub IsTrying : {W : Type 0} → Backoff W → Type 0
IsTrying {W} backoff =
    (c : Trying W → Bool × Trying W) (st : Trying W)
    → (n : ℕ) × (backoff c st ≡ attempts (suc n) c st)

-- What the attempts leave is what the last of them answers.
last_of :
    {W : Type 0} (n : ℕ) (c : Trying W → Bool × Trying W) (st : Trying W) (p : Bool × Trying W)
    → c st ≡ p
    → ((m : ℕ) → n ≡ suc m → (st' : Trying W) × (attempts n c p.1 ≡ c st'))
    → (st' : Trying W) × ((elim p.0 as (λ _. Bool × Trying W) [
      | true ↦ (true, p.1)
      | false ↦ attempts n c p.1
    ])
        ≡ c st')
unfolding attempts
last_of n c st (true, s) e rest = (st, sym e)
last_of zero c st (false, s) e rest = (st, sym e)
last_of (suc n) c st (false, s) e rest = rest n refl

attempts_last :
    {W : Type 0} (n : ℕ) (c : Trying W → Bool × Trying W) (st : Trying W)
    → (st' : Trying W) × (attempts (suc n) c st ≡ c st')
unfolding attempts
attempts_last zero c st = last_of zero c st (c st) refl (λ m e. absurd (ground arith))
attempts_last (suc n) c st =
    let ih = attempts_last n c (c st).1 in last_of (suc n) c st (c st) refl (λ m e. ih)

pub backoff_last :
    {W : Type 0} (backoff : Backoff W)
    → IsTrying backoff
    → (c : Trying W → Bool × Trying W) (st : Trying W) → (st' : Trying W) × (backoff c st ≡ c st')
backoff_last backoff trying c st =
    let tried = trying c st in let last = attempts_last tried.0 c st in (last.0, tried.1 ∙ last.1)
