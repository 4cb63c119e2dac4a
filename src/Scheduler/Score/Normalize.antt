-- ===== src/Scheduler/Score/Normalize.antt =====
-- The range and the order of normalised scores
-- (pkg/scheduler/framework/plugins/helper/normalize_score.go).
use clusternet.Prelude.{
  ℕ, zero, suc, ◌*◌, ◌/◌, ◌-◌, ◌≤◌, ◌<◌, ◌≡◌, refl, Bool, true, false, some, [], ◌∷◌, map, arith,
  All, if◌then◌else◌, get_elem?, get_elem?-map, All-get_elem?, ltb,
}
use clusternet.Prelude.Int.{pos, pos_part, int64-pos, pos-mul, pos-sub, pos-eq, quot, ◌≤ℤ◌, ltb_ℤ}
use clusternet.Scheduler.Plugins.{ClusterScore}
use clusternet.Scheduler.Score.{
  ClusterScoreList, max_count, is_zero, rescale, default_normalize_score,
}

scale-le : (p s n : ℕ) → s ≤ n → 0 < n → p * s / n ≤ p
scale-le p s n h k = grind arith

scale_mono : (p s t n : ℕ) → s ≤ t → p * s / n ≤ p * t / n
scale_mono p s t n h = grind arith

-- On natural numbers and without overflow a score is rescaled as written.
rescale-pos :
    (p s n : ℕ) (reversed : Bool)
    → p * s < 9223372036854775808
    → p < 9223372036854775808
    → s ≤ n
    → 0 < n
    → rescale (pos p) reversed (pos n) (pos s) ≡ pos (if reversed then p - p * s / n else p * s / n)
unfolding rescale quot
rescale-pos p s n false h k l m = rw (pos-mul p s, int64-pos (p * s) h)
rescale-pos p s n true h k l m = rw (
  pos-mul p s,
  int64-pos (p * s) h,
  pos-sub p (p * s / n) (scale-le p s n l m),
  int64-pos (p - p * s / n) (omega arith),
)

-- A score that is no negative number and that int64 can multiply by `p`.
abbrev pub IsCount : ℕ → ClusterScore → Type 0
IsCount p c = (pos 0 ≤ℤ c.score) × (p * pos_part c.score < 9223372036854775808)

max_count-pos :
    (p m : ℕ) (scores : ClusterScoreList)
    → All (IsCount p) scores
    → (n : ℕ) × (max_count (pos m) scores ≡ pos n)
      × (m ≤ n)
      × All (λ (c : ClusterScore). c.score ≤ℤ pos n) scores
unfolding max_count
max_count-pos p m [] h = (m, refl, omega arith, tt)
max_count-pos p m (c ∷ cs) h =
    let k : ℕ = if ltb m (pos_part c.score) then pos_part c.score else m in
    let (n, e, below, rest) = max_count-pos p k cs h.1 in
    let grows : (if ltb_ℤ (pos m) c.score then c.score else pos m) ≡ pos k = ground arith in
    (n, rw grows e, ground arith, (ground arith, rest))

abbrev pub IsInRange : ℕ → ClusterScore → Type 0
IsInRange p c = (pos 0 ≤ℤ c.score) × (c.score ≤ℤ pos p)

rescale-IsInRange :
    (p n : ℕ) (reversed : Bool) (c : ClusterScore)
    → p < 9223372036854775808
    → IsCount p c
    → c.score ≤ℤ pos n
    → 0 < n
    → IsInRange p (record c { score = rescale (pos p) reversed (pos n) c.score })
rescale-IsInRange p n reversed c k h l m =
    rw (pos-eq c.score h.0, rescale-pos p (pos_part c.score) n reversed h.1 k (ground arith) m)
      (range reversed)
  where
    s : ℕ
    s = p * pos_part c.score / n

    small : s ≤ p
    small = scale-le p (pos_part c.score) n (ground arith) m

    range :
        (r : Bool)
        → (pos 0 ≤ℤ pos (if r then p - s else s)) × (pos (if r then p - s else s) ≤ℤ pos p)
    range true = omega (arith, small)
    range false = omega (arith, small)

map-IsInRange :
    (p n : ℕ) (reversed : Bool) (scores : ClusterScoreList)
    → p < 9223372036854775808
    → 0 < n
    → All (IsCount p) scores
    → All (λ (c : ClusterScore). c.score ≤ℤ pos n) scores
    → All (IsInRange p) (
        map
          (λ (c : ClusterScore). record c { score = rescale (pos p) reversed (pos n) c.score })
          scores)
map-IsInRange p n reversed [] k m h l = tt
map-IsInRange p n reversed (c ∷ cs) k m h l =
    (rescale-IsInRange p n reversed c k h.0 l.0 m, map-IsInRange p n reversed cs k m h.1 l.1)

constant-IsInRange :
    (p : ℕ) (scores : ClusterScoreList)
    → All (IsInRange p) (map (λ (c : ClusterScore). record c { score = pos p }) scores)
constant-IsInRange p [] = tt
constant-IsInRange p (c ∷ cs) = ((omega arith, omega arith), constant-IsInRange p cs)

zero-IsInRange :
    (p : ℕ) (scores : ClusterScoreList)
    → All (IsCount p) scores
    → All (λ (c : ClusterScore). c.score ≤ℤ pos 0) scores
    → All (IsInRange p) scores
zero-IsInRange p [] h l = tt
zero-IsInRange p (c ∷ cs) h l = ((omega arith, omega arith), zero-IsInRange p cs h.1 l.1)

-- If no score is negative, and int64 holds each score multiplied by `p`, the normalised scores lie
-- between 0 and `p`.
pub normalize_bounds :
    (p : ℕ) (reversed : Bool) (scores : ClusterScoreList)
    → p < 9223372036854775808
    → All (IsCount p) scores
    → All (IsInRange p) (default_normalize_score (pos p) reversed scores)
unfolding default_normalize_score is_zero
normalize_bounds p reversed scores k h =
    let (n, e, _, l) = max_count-pos p 0 scores h in rw e (cases reversed n l)
  where
    cases :
        (r : Bool) (n : ℕ)
        → All (λ (c : ClusterScore). c.score ≤ℤ pos n) scores
        → All (IsInRange p) (
            if is_zero (pos n)
            then (if r
                then map (λ (c : ClusterScore). record c { score = pos p }) scores
                else scores)
            else map
                (λ (c : ClusterScore). record c { score = rescale (pos p) r (pos n) c.score })
                scores)
    cases true zero l = constant-IsInRange p scores
    cases false zero l = zero-IsInRange p scores h l
    cases r (suc n) l = map-IsInRange p (suc n) r scores k (omega arith) h l

rescale_antitone :
    (p n : ℕ) (c d : ClusterScore)
    → p < 9223372036854775808
    → IsCount p c
    → IsCount p d
    → c.score ≤ℤ d.score
    → d.score ≤ℤ pos n
    → 0 < n
    → rescale (pos p) true (pos n) d.score ≤ℤ rescale (pos p) true (pos n) c.score
rescale_antitone p n c d k hc hd l m q =
    rw
      (
        pos-eq c.score hc.0,
        pos-eq d.score hd.0,
        rescale-pos p (pos_part c.score) n true hc.1 k (ground arith) q,
        rescale-pos p (pos_part d.score) n true hd.1 k (ground arith) q,
      )
      (omega (arith, scale_mono p (pos_part c.score) (pos_part d.score) n (ground arith)))

-- A reversed normalisation turns the order of the scores round: of two clusters, the one with the
-- lower score before gets a score at least as high. No score is negative, and int64 holds each
-- score multiplied by `p`.
pub normalize_antitone :
    (p : ℕ) (scores : ClusterScoreList) (i j : ℕ) {c d x y : ClusterScore}
    → p < 9223372036854775808
    → All (IsCount p) scores
    → get_elem? scores i ≡ some c
    → get_elem? scores j ≡ some d
    → c.score ≤ℤ d.score
    → get_elem? (default_normalize_score (pos p) true scores) i ≡ some x
    → get_elem? (default_normalize_score (pos p) true scores) j ≡ some y
    → y.score ≤ℤ x.score
unfolding default_normalize_score is_zero
normalize_antitone p scores i j {c} {d} {x} {y} k h at_i at_j below ex ey =
    let (n, e, _, l) = max_count-pos p 0 scores h in cases n l (rw e at ex) (rw e at ey)
  where
    normal : ℕ → ClusterScoreList
    normal n =
        if is_zero (pos n)
        then map (λ (b : ClusterScore). record b { score = pos p }) scores
        else map (λ (b : ClusterScore). record b { score = rescale (pos p) true (pos n) b.score })
            scores

    cases :
        (n : ℕ)
        → All (λ (b : ClusterScore). b.score ≤ℤ pos n) scores
        → get_elem? (normal n) i ≡ some x
        → get_elem? (normal n) j ≡ some y
        → y.score ≤ℤ x.score
    cases zero l fx fy =
        let f = λ (b : ClusterScore). record b { score = pos p } in
        ground (arith, get_elem?-map f scores i at_i, get_elem?-map f scores j at_j)
    cases (suc n) l fx fy =
        let f =
          λ (b : ClusterScore). record b { score = rescale (pos p) true (pos (suc n)) b.score } in
        let lower =
          rescale_antitone p (suc n) c d k (All-get_elem? (IsCount p) scores i h at_i)
            (All-get_elem? (IsCount p) scores j h at_j) below (All-get_elem? _ scores j l at_j)
            (omega arith) in
        ground (arith, get_elem?-map f scores i at_i, get_elem?-map f scores j at_j, lower)
