-- ===== src/P2p/Pair/Tests.antt =====
-- The order of two candidate pairs on concrete input.
use x.Base.{ℕ, ◌≡◌, refl, arith}
use x.P2p.Pair.{priority, compare_pairs, minus_one, compare_ranks, priority-injective}

compare_ranks_example : compare_pairs (priority 200 100) (priority 100 200) ≡ minus_one
unfolding compare_pairs
compare_ranks_example =
    compare_ranks 200 100 100 200 (omega arith) (omega arith) (omega arith) (omega arith)

abbrev low : ℕ
low = 100

abbrev high : ℕ
high = 200

priority-injective_example : (low ≡ low) × (high ≡ high)
priority-injective_example =
    priority-injective low high low high (omega arith) (omega arith) (omega arith) (omega arith)
      refl
