-- ===== src/Heap/Queue/Remove.antt =====
-- xHeapPop and xHeapRemove.
use Prim.Native.Nat.{Ordering}
use x.Base.{
  ℕ, ◌+◌, ◌-◌, ◌<◌, ◌≡◌, refl, inl, inr, true, false, some, arith, ltb, ◌==◌, Bool-cases, length,
  take, length-take,
}
use x.Heap.{Heap, at, parent, fill, sift_up, sift_down, pop, remove}
use x.Heap.Arrays.{count, hit, count-take, entry-take}
use x.Heap.Order.{IsWeakOrder, Le, IsHeap, root_least}
use x.Heap.Kept.{Kept, sift_down-Kept}
use x.Heap.Down.{sift_down-IsHeap}
use x.Heap.Queue.{IsValid}
use x.Heap.Queue.Fill.{length-fill, count-fill, fill-IsIndexed, fill-Loose, Loose-Sinking}
use x.Heap.Queue.Insert.{sifts_mend}

-- The heap without its last entry.
abbrev shorten : Heap → Heap
shorten h = record h { slots = take (length h.slots - 1) h.slots }

module _ (cmp : ℕ → ℕ → Ordering) (h : Heap) (v : IsValid cmp h)
    (some_entry : 0 < length h.slots) where
  length-shorten : length (shorten h).slots ≡ length h.slots - 1
  length-shorten = omega (arith, length-take (length h.slots - 1) h.slots)

  shorten-IsValid : IsValid cmp (shorten h)
  shorten-IsValid = record {
    heap = λ c p q. ground (
      arith,
      length-shorten,
      entry-take (length h.slots - 1) h.slots c,
      entry-take (length h.slots - 1) h.slots (parent c),
      v.heap c,
    );
    indexed = λ c q.
        ground (arith, length-shorten, entry-take (length h.slots - 1) h.slots c, v.indexed c);
    room = omega (arith, length-shorten, v.room);
    block = v.block;
  }

-- What is left after slot `i` is taken out: a valid heap of the other entries.
abbrev pub Without : (ℕ → ℕ → Ordering) → Heap → ℕ → Heap → Type 0
Without cmp h i h' =
    IsValid cmp h' × ((p : ℕ) → hit p (at h.slots i) + count p h'.slots ≡ count p h.slots)

filled-Without :
    (cmp : ℕ → ℕ → Ordering) (h g : Heap) (i : ℕ)
    → IsValid cmp h
    → i < length h.slots - 1
    → IsHeap cmp g.slots
    → Kept (fill cmp h i) g
    → Without cmp h i g
filled-Without cmp h g i v inner heap kept = (
  record {
    heap = heap;
    indexed = kept.indexed (fill-IsIndexed cmp h i inner v.indexed);
    room = omega (arith, kept.size, kept.cap, length-fill cmp h i inner, fill-cap, v.room);
    block = omega (arith, kept.cap, fill-cap, v.block);
  },
  λ p. omega (arith, kept.counts p, count-fill cmp h i inner p),
)
  where
    fill-cap : (fill cmp h i).cap ≡ h.cap
    fill-cap = unfold fill in refl

shorten-Without :
    (cmp : ℕ → ℕ → Ordering) (h : Heap) (i : ℕ)
    → IsValid cmp h
    → i < length h.slots
    → i ≡ length h.slots - 1
    → Without cmp h i (shorten h)
shorten-Without cmp h i v inside e = (
  shorten-IsValid cmp h v (omega arith),
  λ p. ground (arith, e, count-take p (length h.slots - 1) h.slots (omega arith)),
)

-- xHeapRemove at a slot of a valid heap returns the element there and leaves a valid heap of the
-- others.
pub remove_correct :
    (cmp : ℕ → ℕ → Ordering) (h : Heap) (i : ℕ)
    → IsWeakOrder cmp
    → IsValid cmp h
    → i < length h.slots
    → (h' : Heap) × (remove cmp (some h) i ≡ (at h.slots i, some h')) × Without cmp h i h'
unfolding remove
remove_correct cmp h i order v inside =
    let found : ltb i (length h.slots) ≡ true = ground arith in
    rw found (elim (Bool-cases (i == length h.slots - 1)) [
      | inl last ↦ rw last (shorten h, refl, shorten-Without cmp h i v inside (ground arith))
      | inr more ↦
          let inner : i < length h.slots - 1 = ground arith in
          let size = length-fill cmp h i inner in
          let (heap, kept) =
            sifts_mend cmp (fill cmp h i) i order (omega (arith, size))
              (fill-Loose cmp h i inner order v.heap) in
          rw more (
            sift_down cmp (sift_up cmp (fill cmp h i) i) i,
            refl,
            filled-Without cmp h _ i v inner heap kept,
          )
    ])

-- xHeapPop on a valid heap that is not empty returns an element that no other is below, and leaves
-- a valid heap of the others.
pub pop_correct :
    (cmp : ℕ → ℕ → Ordering) (h : Heap)
    → IsWeakOrder cmp
    → IsValid cmp h
    → 0 < length h.slots
    → (h' : Heap) × (pop cmp (some h) ≡ (at h.slots 0, some h'))
      × Without cmp h 0 h'
      × ((i : ℕ) → i < length h.slots → Le cmp (at h.slots 0) (at h.slots i))
unfolding pop
pop_correct cmp h order v pos =
    let some_left : (length h.slots == 0) ≡ false = ground arith in
    let least = λ (i : ℕ) (hi : i < length h.slots). root_least cmp order h.slots i hi v.heap in
    rw some_left (elim (Bool-cases (ltb 0 (length h.slots - 1))) [
      | inl more ↦
          let inner : 0 < length h.slots - 1 = ground arith in
          let within : 0 < length (fill cmp h 0).slots = omega (arith, length-fill cmp h 0 inner) in
          rw more (
            sift_down cmp (fill cmp h 0) 0,
            refl,
            filled-Without cmp h _ 0 v inner
                (sift_down-IsHeap cmp order (fill cmp h 0) 0 within
                  (Loose-Sinking cmp _ (fill-Loose cmp h 0 inner order v.heap)))
                (sift_down-Kept cmp (fill cmp h 0) 0 within),
            least,
          )
      | inr last ↦ rw last (shorten h, refl, shorten-Without cmp h 0 v pos (ground arith), least)
    ])
