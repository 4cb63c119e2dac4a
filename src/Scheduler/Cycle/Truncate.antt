-- ===== src/Scheduler/Cycle/Truncate.antt =====
-- truncateMessage of pkg/scheduler/scheduler.go.
use clusternet.Prelude.{
  ℕ, zero, suc, ◌≤◌, ◌≡◌, refl, leb, leb→le, Bool, true, false, List, [], ◌∷◌, length,
  length-append, take, arith,
}
use clusternet.Scheduler.Cycle.{truncate_message, note_length_limit, suffix}

length-take : {A : Type 0} (n : ℕ) (xs : List A) → length (take n xs) ≤ n
length-take zero xs = ground arith
length-take (suc n) [] = ground arith
length-take (suc n) (x ∷ xs) = ground (arith, length-take n xs)

-- A message is never longer than the limit after it is truncated, and one that is within the limit is
-- kept as it is.
pub truncate_message_lem :
    (message : List ℕ)
    → (length (truncate_message message) ≤ note_length_limit)
      × (length message ≤ note_length_limit → truncate_message message ≡ message)
unfolding truncate_message
truncate_message_lem message = go (leb (length message) note_length_limit) refl
  where
    go :
        (b : Bool)
        → leb (length message) note_length_limit ≡ b
        → (length (truncate_message message) ≤ note_length_limit)
          × (length message ≤ note_length_limit → truncate_message message ≡ message)
    go true e = rw (truncate_message, e) (leb→le _ _ e, λ h. refl)
    go false e =
        rw (truncate_message, e)
          (
            rw (length-append (take 1020 message) suffix)
                (ground (arith, length-take 1020 message)),
            λ h. absurd (ground arith),
          )
