-- ===== src/Heap/Queue.antt =====
-- The heap as a priority queue: what each function of heap.c returns and leaves.
pub mod Fill
pub mod Insert
pub mod Remove
use Prim.Native.Nat.{Ordering}
use x.Base.{ℕ, ◌+◌, ◌*◌, ◌^◌, ◌≤◌, ◌<◌, ◌≡◌, Bool, true, length}
use x.Heap.{Heap}
use x.Heap.Order.{IsHeap, IsIndexed}

-- The heap order, the index invariant, and room for the entries in a block that `malloc` can grant.
pub record IsValid (cmp : ℕ → ℕ → Ordering) (h : Heap) : Type 0 where
  pub heap : IsHeap cmp h.slots
  pub indexed : IsIndexed h
  pub room : length h.slots ≤ h.cap
  pub block : h.cap * 8 < 2 ^ 63

-- `realloc` grants no block past PTRDIFF_MAX.
pub record IsBounded (realloc : ℕ → Bool) : Type 0 where
  pub bound : (n : ℕ) → realloc n ≡ true → n < 2 ^ 63
