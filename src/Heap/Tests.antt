-- ===== src/Heap/Tests.antt =====
-- Runs of the heap on concrete input: pointers compared by their last digit.
use Prim.Native.Nat.{Ordering, compare}
use x.Base.{
  ℕ, ◌+◌, ◌%◌, ◌<◌, ◌≡◌, ◌⊎◌, refl, Bool, [], ◌∷◌, some, arith, length, leb, ◌==◌, if◌then◌else◌,
}
use x.Base.Errno.{ok, no_memory}
use x.Heap.{Heap, at, below, push, pop, remove, update, ensure_cap}
use x.Heap.Arrays.{count, hit}
use x.Heap.Order.{IsWeakOrder, Le}
use x.Heap.Queue.{IsValid, IsBounded}
use x.Heap.Queue.Insert.{Refused, push_correct, update_correct}
use x.Heap.Queue.Remove.{pop_correct, remove_correct, Without}

abbrev digit : ℕ → ℕ → Ordering
digit a b = compare (a % 10) (b % 10)

-- The comparison once the key of element 34 has become 0.
abbrev rekeyed : ℕ → ℕ → Ordering
rekeyed a b = compare (if a == 34 then 0 else a % 10) (if b == 34 then 0 else b % 10)

abbrev slot_of : ℕ → ℕ
slot_of p = if p == 11 then 0 else if p == 34 then 1 else if p == 22 then 2 else 3

abbrev four : Heap
four = record { slots = 11 ∷ 34 ∷ 22 ∷ 45 ∷ []; cap = 4; index = slot_of }

abbrev small_blocks : ℕ → Bool
small_blocks n = leb n 4096

digit-IsWeakOrder : IsWeakOrder digit
unfolding below
digit-IsWeakOrder = record { asym = λ a b h. ground arith; trans = λ a b c h k. ground arith }

rekeyed-IsWeakOrder : IsWeakOrder rekeyed
unfolding below
rekeyed-IsWeakOrder = record { asym = λ a b h. ground arith; trans = λ a b c h k. ground arith }

small_blocks-IsBounded : IsBounded small_blocks
small_blocks-IsBounded = record { bound = λ n h. ground arith }

four-IsValid : IsValid digit four
unfolding below
four-IsValid = record {
  heap = λ c p q. ground arith;
  indexed = λ i q. ground arith;
  room = omega arith;
  block = omega arith;
}

push-grows : (push digit small_blocks (some four) 60).0 ≡ ok
unfolding push ensure_cap
push-grows = refl

push_correct_example :
    ((push digit small_blocks (some four) 60 ≡ (no_memory, some four))
      × (length four.slots ≡ 4)
      × Refused small_blocks four)
    ⊎ ((h' : Heap) × (push digit small_blocks (some four) 60 ≡ (ok, some h'))
        × IsValid digit h'
        × ((p : ℕ) → count p h'.slots ≡ hit p 60 + count p four.slots))
push_correct_example =
    push_correct digit small_blocks four 60 digit-IsWeakOrder small_blocks-IsBounded four-IsValid
      (omega arith) refl

pop_correct_example :
    (h' : Heap) × (pop digit (some four) ≡ (11, some h'))
    × Without digit four 0 h'
    × ((i : ℕ) → i < 4 → Le digit 11 (at four.slots i))
pop_correct_example = pop_correct digit four digit-IsWeakOrder four-IsValid (omega arith)

remove_correct_example :
    (h' : Heap) × (remove digit (some four) 1 ≡ (34, some h')) × Without digit four 1 h'
remove_correct_example = remove_correct digit four 1 digit-IsWeakOrder four-IsValid (omega arith)

update_correct_example :
    (h' : Heap) × (update rekeyed (some four) 1 ≡ (ok, some h'))
    × IsValid rekeyed h'
    × ((p : ℕ) → count p h'.slots ≡ count p four.slots)
unfolding below
update_correct_example =
    update_correct digit rekeyed four 1 digit-IsWeakOrder rekeyed-IsWeakOrder four-IsValid
      (omega arith) (λ a b n m. ground arith)
