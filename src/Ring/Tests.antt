-- ===== src/Ring/Tests.antt =====
-- Runs of the ring on concrete input.
use x.Base.{ℕ, ◌+◌, ◌↔◌, ◌^◌, ◌≤◌, ◌≡◌, refl, ◌-◌, List, [], ◌∷◌, some, true, false, min, arith}
use x.Ring.{
  Ring, fresh, next_pow2, create, write, copy_in, read, peek, discard, copy_out, copy_slots, reset,
  len, writable, capacity, is_empty, is_full,
}
use x.Ring.Bounds.{IsValid, contents}
use x.Ring.Fifo.{
  Op, put, get, look, skip, clear, size, room, limit, empty, full, count, data_out, done, flag,
  ring_run, queue_run, run_refines,
}
use x.Ring.Fresh.{create_fresh, queries}
use x.Ring.Capacity.{next_pow2_least}

rounds :
    (next_pow2 1 ≡ 16)
    × (next_pow2 17 ≡ 32)
    × (next_pow2 4096 ≡ 4096)
    × (next_pow2 (2 ^ 64 - 1) ≡ 2 ^ 63)
unfolding next_pow2
rounds = (refl, refl, refl, refl)

-- Both cursors about to wrap at 2^64, with two bytes in slots 14 and 15.
abbrev wrapping : Ring
wrapping = record {
  cap = 16;
  mask = 15;
  head = 0;
  tail = 2 ^ 64 - 2;
  bytes = 0 ∷ 1 ∷ 2 ∷ 3 ∷ 4 ∷ 5 ∷ 6 ∷ 7 ∷ 8 ∷ 9 ∷ 10 ∷ 11 ∷ 12 ∷ 13 ∷ 14 ∷ 15 ∷ [];
}

wrapping-IsValid : IsValid wrapping
wrapping-IsValid = record {
  level = 4;
  word = omega arith;
  power = refl;
  masked = refl;
  room = refl;
  head_word = omega arith;
  tail_word = omega arith;
  bounded = omega arith;
}

abbrev script : List Op
script =
    empty
    ∷ put (7 ∷ 8 ∷ [])
    ∷ size
    ∷ room
    ∷ look 3
    ∷ skip 1
    ∷ get 9
    ∷ get 1
    ∷ clear
    ∷ full
    ∷ limit
    ∷ []

script_replies :
    ring_run (some wrapping) script
    ≡ flag false
      ∷ count 2
      ∷ count 4
      ∷ count 12
      ∷ data_out (14 ∷ 15 ∷ 7 ∷ [])
      ∷ count 1
      ∷ data_out (15 ∷ 7 ∷ 8 ∷ [])
      ∷ data_out []
      ∷ done
      ∷ flag false
      ∷ count 16
      ∷ []
unfolding ring_run write copy_in peek discard read copy_out copy_slots reset len writable capacity
    is_empty is_full
script_replies = refl

run_refines_example : ring_run (some wrapping) script ≡ queue_run 16 (14 ∷ 15 ∷ []) script
run_refines_example = run_refines script wrapping-IsValid

next_pow2_least_example :
    (k : ℕ) × (next_pow2 100 ≡ 2 ^ k)
    × (k ≤ 63)
    × (16 ≤ 2 ^ k)
    × (100 ≤ 2 ^ k)
    × ((j : ℕ) → 16 ≤ 2 ^ j → 100 ≤ 2 ^ j → k ≤ j)
next_pow2_least_example = next_pow2_least 100 (omega arith)

granted : create (λ size. true) 20 ≡ some (fresh 32)
unfolding create next_pow2 fresh
granted = refl

create_fresh_example :
    IsValid (fresh 32) × (contents (fresh 32) ≡ []) × (min 20 (2 ^ 63) ≤ (fresh 32).cap)
create_fresh_example = create_fresh (λ size. true) 20 granted

queries_example :
    (len (some wrapping) ≡ 2)
    × (writable (some wrapping) + 2 ≡ 16)
    × ((is_empty (some wrapping) ≡ true) ↔ (contents wrapping ≡ []))
    × ((is_full (some wrapping) ≡ true) ↔ (2 ≡ wrapping.cap))
unfolding capacity
queries_example = queries wrapping-IsValid
