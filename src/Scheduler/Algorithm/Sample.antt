-- ===== src/Scheduler/Algorithm/Sample.antt =====
-- How many clusters are looked for: numFeasibleClustersToFind of
-- pkg/scheduler/algorithm/generic.go.
use native.Mathlib.Nat.{mul-le-mul_left}
use clusternet.Prelude.{
  ℕ, ◌*◌, ◌/◌, ◌≤◌, ◌<◌, ◌≡◌, inl, inr, refl, String, Bool, true, false, arith, Bool-cases,
  if◌then◌else◌, ltb,
}
use clusternet.Prelude.Int.{
  ℤ, pos, pos_part, int32, int32-pos, quot, ◌*ℤ◌, ◌-ℤ◌, ◌≤ℤ◌, leb_ℤ, pos-mul,
}
use clusternet.Scheduler.Algorithm.{adaptive_percentage, num_feasible_clusters_to_find}

quot_cap : (m : ℕ) → quot (int32 (pos m)) (pos 100) ≤ℤ pos 21474836
unfolding quot int32
quot_cap m = ground arith

quot_exact : (m : ℕ) → m < 2147483648 → quot (int32 (pos m)) (pos 100) ≡ pos (m / 100)
unfolding quot
quot_exact m h = rw (int32-pos m h)

adaptive_bounds :
    (percentage : ℤ) (n : ℕ)
    → n < 2147483648
    → leb_ℤ (pos 100) percentage ≡ false
    → (p : ℕ) × (adaptive_percentage percentage (pos n) ≡ pos p) × (p ≤ 99)
unfolding adaptive_percentage quot ◌-ℤ◌ int32
adaptive_bounds percentage n h k =
    (pos_part (adaptive_percentage percentage (pos n)), ground arith, ground arith)

-- Of the product of `n` and a percentage below 100, as an int32, a hundredth is at most `n`.
share-le : (n p : ℕ) → p ≤ 99 → quot (int32 (pos n *ℤ pos p)) (pos 100) ≤ℤ pos n
share-le n p h = rw (pos-mul n p) (cases (ltb (n * p) 2147483648) refl)
  where
    cases : (b : Bool) → ltb (n * p) 2147483648 ≡ b → quot (int32 (pos (n * p))) (pos 100) ≤ℤ pos n
    cases true e = rw (quot_exact (n * p) (ground arith)) (grind arith)
    cases false e = ground (arith, quot_cap (n * p), mul-le-mul_left n h)

-- For any number n of clusters that int32 holds and any percentage, at least min(100, n) and at most n
-- clusters are looked for, also where the product overflows an int32.
pub num_feasible_bounds :
    (percentage : ℤ) (n : ℕ) (strategy : String)
    → n < 2147483648
    → let r = num_feasible_clusters_to_find percentage (pos n) strategy in
      (pos (if ltb n 100 then n else 100) ≤ℤ r) × (r ≤ℤ pos n)
unfolding num_feasible_clusters_to_find
num_feasible_bounds percentage n strategy h = elim (Bool-cases (leb_ℤ (pos 100) percentage)) [
  | inl e ↦ ground arith
  | inr e ↦
      let (p, exact, small) = adaptive_bounds percentage n h e in
      ground (arith, exact, share-le n p small)
]
