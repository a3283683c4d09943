-- ===== src/Heap/Order.antt =====
-- What the heap asks of the comparison, the heap order, and the index invariant.
use Prim.Native.Nat.{Ordering}
use x.Base.{ℕ, zero, suc, ◌<◌, ◌≡◌, ◌≢◌, true, false, List, arith, length}
use x.Heap.{Heap, at, parent, below}

-- xHeapCmpFunc: negative if a < b, 0 if equal, positive if a > b, for some order on the elements.
pub record IsWeakOrder (cmp : ℕ → ℕ → Ordering) : Type 0 where
  pub asym : (a b : ℕ) → below cmp a b ≡ true → below cmp b a ≡ false
  pub trans : (a b c : ℕ) → below cmp b a ≡ false → below cmp c b ≡ false → below cmp c a ≡ false

-- The element in each slot knows the slot.
abbrev pub IsIndexed : Heap → Type 0
IsIndexed h = (i : ℕ) → i < length h.slots → h.index (at h.slots i) ≡ i

module _ (cmp : ℕ → ℕ → Ordering) where
  -- `a` may stand above `b`.
  abbrev pub Le : ℕ → ℕ → Type 0
  Le a b = below cmp b a ≡ false

  -- The edge above slot `c` is in order.
  abbrev pub Edge : List ℕ → ℕ → Type 0
  Edge a c = Le (at a (parent c)) (at a c)

  abbrev pub IsHeap : List ℕ → Type 0
  IsHeap a = (c : ℕ) → 0 < c → c < length a → Edge a c

  -- The parent of slot `i` may stand above the children of `i`.
  abbrev pub IsBridged : List ℕ → ℕ → Type 0
  IsBridged a i =
      (c : ℕ) → 0 < c → c < length a → parent c ≡ i → 0 < i → Le (at a (parent i)) (at a c)

  -- All is in order but the edge above `i`, the edges below `i`, or both.
  pub record Rising (a : List ℕ) (i : ℕ) : Type 0 where
    pub edges : (c : ℕ) → 0 < c → c < length a → c ≢ i → Edge a c
    pub bridge : IsBridged a i

  pub record Sinking (a : List ℕ) (i : ℕ) : Type 0 where
    pub edges : (c : ℕ) → 0 < c → c < length a → parent c ≢ i → Edge a c
    pub bridge : IsBridged a i

  pub record Loose (a : List ℕ) (i : ℕ) : Type 0 where
    pub edges : (c : ℕ) → 0 < c → c < length a → c ≢ i → parent c ≢ i → Edge a c
    pub bridge : IsBridged a i

  module _ (order : IsWeakOrder cmp) where
    pub IsHeap-IsBridged : (a : List ℕ) (i : ℕ) → IsHeap a → IsBridged a i
    IsHeap-IsBridged a i h c pos inside e top =
        order.trans (at a (parent i)) (at a i) (at a c) (h i top (omega arith))
          (rw e at (h c pos inside))

    pub IsHeap-Sinking : (a : List ℕ) (i : ℕ) → IsHeap a → Sinking a i
    IsHeap-Sinking a i h = record { edges = λ c p q n. h c p q; bridge = IsHeap-IsBridged a i h }

    root_below :
        (fuel : ℕ) (a : List ℕ) (i : ℕ) → i < fuel → i < length a → IsHeap a → Le (at a 0) (at a i)
    root_below zero a i f inside h = absurd (omega arith)
    root_below (suc fuel) a zero f inside h = ground (arith, order.asym (at a 0) (at a 0))
    root_below (suc fuel) a (suc i) f inside h = ground (
      arith,
      order.trans (at a 0) (at a (parent (suc i))) (at a (suc i)),
      h (suc i),
      root_below fuel a (parent (suc i)) (omega arith) (omega arith) h,
    )

    -- Nothing in a heap is below its root.
    pub root_least : (a : List ℕ) (i : ℕ) → i < length a → IsHeap a → Le (at a 0) (at a i)
    root_least a i = root_below (suc i) a i (omega arith)
