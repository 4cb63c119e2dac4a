-- ===== src/Scheduler/Parallelize.antt =====
-- pkg/scheduler/parallelize: the chunk size of parallel work and the channel for one error. `sqrt` is
-- `int(math.Sqrt(float64(n)))`.
use clusternet.Prelude.{
  zero, ℕ, suc, ◌+◌, ◌*◌, ◌/◌, ◌≤◌, ◌<◌, ltb, if◌then◌else◌, Option, none, some, Message, arith,
}

unfoldable pub chunk_size_for : (ℕ → ℕ) → ℕ → ℕ → ℕ
chunk_size_for sqrt n parallelism =
    let s = sqrt n in let r = n / parallelism + 1 in if ltb r s then r else if ltb s 1 then 1 else s

-- The channel of capacity one, `none` when it is empty.
unfoldable pub send_to : Message → Option Message → Option Message
send_to e none = some e
send_to e (some kept) = some kept

unfoldable pub receive_error : Option Message → Option Message × Option Message
receive_error channel = (channel, none)

le_square : (s : ℕ) → s ≤ s * s
le_square zero = ground arith
le_square (suc s) = ground arith

-- For a parallelism of at least one, and a square root that is rounded down, a chunk is never empty,
-- has at most one piece more than an even share of the work, and has at most all the pieces when there
-- are any.
pub chunk_size_for_bounds :
    (sqrt : ℕ → ℕ) (n parallelism : ℕ)
    → sqrt n * sqrt n ≤ n
    → 0 < parallelism
    → 0 < n
    → (1 ≤ chunk_size_for sqrt n parallelism)
      × (chunk_size_for sqrt n parallelism ≤ n / parallelism + 1)
      × (chunk_size_for sqrt n parallelism ≤ n)
unfolding chunk_size_for
chunk_size_for_bounds sqrt n parallelism h p q =
    (ground arith, ground arith, ground (arith, le_square (sqrt n)))
