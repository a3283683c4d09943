-- ===== src/Heap.antt =====
-- libx/x/base/heap.c: a binary min-heap of pointers with a comparison and an index callback.
-- A pointer is its address, 0 for NULL. `slots` lists the `size` live entries of `data`. `index`
-- is what the `setidx` calls have stored in the elements.
pub mod Arrays
pub mod Order
mod Kept
mod Up
mod Down
pub mod Queue
mod Tests
use Prim.Native.Nat.{Ordering}
use x.Base.{
  ℕ, zero, suc, ◌+◌, ◌-◌, ◌*◌, ◌/◌, Bool, true, false, ◌&&◌, List, [], ◌∷◌, ◌++◌, Option, none,
  some, ltb, ◌==◌, if◌then◌else◌, length, get_or, set, take, mul_size,
}
use x.Base.Errno.{Errno, ok, invalid_arg, no_memory}

-- struct xHeap_, less the two callbacks
pub record Heap : Type 0 where
  pub slots : List ℕ
  pub cap : ℕ
  pub index : ℕ → ℕ

abbrev default_cap : ℕ
default_cap = 16

-- data[i]
abbrev pub at : List ℕ → ℕ → ℕ
at a i = get_or a i 0

abbrev pub parent : ℕ → ℕ
parent i = (i - 1) / 2

-- setidx(elem, idx)
abbrev pub store : (ℕ → ℕ) → ℕ → ℕ → ℕ → ℕ
store index elem i p = if p == elem then i else index p

pub swap : Heap → ℕ → ℕ → Heap
swap h i j =
    let a = set (set h.slots i (at h.slots j)) j (at h.slots i) in
    record h { slots = a; index = store (store h.index (at a i) i) (at a j) j }

-- ensure_cap; `realloc` tells whether a block of a size is granted, and `none` is a refusal.
pub ensure_cap : (ℕ → Bool) → Heap → Option Heap
ensure_cap realloc h =
    let new_cap = if h.cap == 0 then default_cap else mul_size h.cap 2 in
    if ltb (length h.slots) h.cap
    then some h
    else if realloc (mul_size new_cap 8)
    then some (record h { cap = new_cap })
    else none

-- xHeapCreate, whose callbacks are both given; `calloc` answers for the two blocks in turn.
pub create : Bool → (ℕ → Bool) → ℕ → (ℕ → ℕ) → Option Heap
create has_struct calloc cap index =
    let c = if cap == 0 then default_cap else cap in
    if has_struct && calloc (mul_size c 8)
    then some (record { slots = []; cap = c; index = index })
    else none

-- xHeapPeek
pub peek : Option Heap → ℕ
peek none = 0
peek (some h) = if length h.slots == 0 then 0 else at h.slots 0

-- xHeapSize
pub size : Option Heap → ℕ
size none = 0
size (some h) = length h.slots

-- Of the comparison only the sign of its answer is read: `lt` for a negative one.
module _ (cmp : ℕ → ℕ → Ordering) where
  pub below : ℕ → ℕ → Bool
  below a b = elim (cmp a b) [ Ordering.lt ↦ true | _ ↦ false ]

  -- The loop of sift_up, on fuel.
  pub sift_up_loop : ℕ → Heap → ℕ → Heap
  sift_up_loop zero h i = h
  sift_up_loop (suc fuel) h i =
      let rest = sift_up_loop fuel (swap h i (parent i)) (parent i) in
      if ltb 0 i then (if below (at h.slots i) (at h.slots (parent i)) then rest else h) else h

  pub sift_up : Heap → ℕ → Heap
  sift_up h i = sift_up_loop (i + 1) h i

  -- The child that sift_down moves up, or `i` itself.
  pub smallest : Heap → ℕ → ℕ
  smallest h i =
      let left = 2 * i + 1 in
      let right = 2 * i + 2 in
      let s =
        if ltb left (length h.slots) && below (at h.slots left) (at h.slots i) then left else i in
      if ltb right (length h.slots) && below (at h.slots right) (at h.slots s) then right else s

  -- The loop of sift_down, on fuel.
  pub sift_down_loop : ℕ → Heap → ℕ → Heap
  sift_down_loop zero h i = h
  sift_down_loop (suc fuel) h i =
      let s = smallest h i in
      let rest = sift_down_loop fuel (swap h i s) s in if s == i then h else rest

  pub sift_down : Heap → ℕ → Heap
  sift_down h i = sift_down_loop (length h.slots + 1) h i

  -- xHeapPush
  pub push : (ℕ → Bool) → Option Heap → ℕ → Errno × Option Heap
  push realloc none elem = (invalid_arg, none)
  push realloc (some h) elem =
      if elem == 0 then (invalid_arg, some h) else elim (ensure_cap realloc h) [
        | none ↦ (no_memory, some h)
        | some g ↦
            let i = length g.slots in
            let placed = record g { slots = g.slots ++ elem ∷ []; index = store g.index elem i } in
            (ok, some (sift_up placed i))
      ]

  -- The last entry moved to slot `i`, once the size is one less.
  pub fill : Heap → ℕ → Heap
  fill h i =
      let last = length h.slots - 1 in
      let moved = at h.slots last in
      record h { slots = set (take last h.slots) i moved; index = store h.index moved i }

  -- xHeapPop
  pub pop : Option Heap → ℕ × Option Heap
  pop none = (0, none)
  pop (some h) =
      let last = length h.slots - 1 in
      if length h.slots == 0
      then (0, some h)
      else if ltb 0 last
      then (at h.slots 0, some (sift_down (fill h 0) 0))
      else (at h.slots 0, some (record h { slots = take last h.slots }))

  -- xHeapRemove
  pub remove : Option Heap → ℕ → ℕ × Option Heap
  remove none i = (0, none)
  remove (some h) i =
      let last = length h.slots - 1 in
      if ltb i (length h.slots)
      then (if i == last
          then (at h.slots i, some (record h { slots = take last h.slots }))
          else (at h.slots i, some (sift_down (sift_up (fill h i) i) i)))
      else (0, some h)

  -- xHeapUpdate
  pub update : Option Heap → ℕ → Errno × Option Heap
  update none i = (invalid_arg, none)
  update (some h) i =
      if ltb i (length h.slots)
      then (ok, some (sift_down (sift_up h i) i))
      else (invalid_arg, some h)
