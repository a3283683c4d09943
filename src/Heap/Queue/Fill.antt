-- ===== src/Heap/Queue/Fill.antt =====
-- The last entry moved to a slot whose entry is taken away.
use Prim.Native.Nat.{Ordering}
use x.Base.{
  ℕ, ◌+◌, ◌-◌, ◌<◌, ◌≡◌, refl, List, arith, ◌==◌, if◌then◌else◌, length, take, length-set,
  length-take, get_or-set,
}
use x.Heap.{Heap, at, parent, fill}
use x.Heap.Arrays.{count, hit, count-set, count-take, entry-take}
use x.Heap.Order.{IsWeakOrder, IsHeap, IsHeap-IsBridged, IsIndexed, Loose, Sinking}

module _ (cmp : ℕ → ℕ → Ordering) (h : Heap) (i : ℕ) (inner : i < length h.slots - 1) where
  pub length-fill : length (fill cmp h i).slots ≡ length h.slots - 1
  unfolding fill
  length-fill = omega (
    arith,
    length-set (take (length h.slots - 1) h.slots) i (at h.slots (length h.slots - 1)),
    length-take (length h.slots - 1) h.slots,
  )

  pub entry-fill :
      (c : ℕ)
      → c < length h.slots - 1
      → at (fill cmp h i).slots c
        ≡ (if i == c then at h.slots (length h.slots - 1) else at h.slots c)
  unfolding fill
  entry-fill c hc = ground (
    arith,
    get_or-set (take (length h.slots - 1) h.slots) i c (at h.slots (length h.slots - 1)) 0
        (omega (arith, length-take (length h.slots - 1) h.slots)),
    entry-take (length h.slots - 1) h.slots c hc,
  )

  pub count-fill : (p : ℕ) → hit p (at h.slots i) + count p (fill cmp h i).slots ≡ count p h.slots
  unfolding fill
  count-fill p = ground (
    arith,
    count-set p (take (length h.slots - 1) h.slots) i (at h.slots (length h.slots - 1))
        (omega (arith, length-take (length h.slots - 1) h.slots)),
    count-take p (length h.slots - 1) h.slots (omega arith),
    entry-take (length h.slots - 1) h.slots i inner,
  )

  pub fill-IsIndexed : IsIndexed h → IsIndexed (fill cmp h i)
  fill-IsIndexed v c hc = step c (omega (arith, length-fill))
    where
      stored :
          (p : ℕ)
          → (fill cmp h i).index p ≡ (if p == at h.slots (length h.slots - 1) then i else h.index p)
      stored p = unfold fill in refl

      step : (c : ℕ) → c < length h.slots - 1 → (fill cmp h i).index (at (fill cmp h i).slots c) ≡ c
      step c lt = ground (
        arith,
        entry-fill c lt,
        stored (at h.slots c),
        stored (at h.slots (length h.slots - 1)),
        v c (omega arith),
        v (length h.slots - 1) (omega arith),
      )

  pub fill-Loose : IsWeakOrder cmp → IsHeap cmp h.slots → Loose cmp (fill cmp h i).slots i
  fill-Loose order heap = record {
    edges = λ c p q n m. ground (arith, length-fill, entry-fill c, entry-fill (parent c), heap c);
    bridge = λ c p q e t. ground (
      arith,
      length-fill,
      entry-fill c,
      entry-fill (parent i),
      IsHeap-IsBridged cmp order h.slots i heap c,
    );
  }

-- At the root there is no edge above.
pub Loose-Sinking : (cmp : ℕ → ℕ → Ordering) (a : List ℕ) → Loose cmp a 0 → Sinking cmp a 0
Loose-Sinking cmp a v = record {
  edges = λ c p q n. v.edges c p q (omega arith) n;
  bridge = v.bridge;
}
