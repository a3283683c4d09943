-- ===== src/Heap/Up.antt =====
-- sift_up mends the edge above a slot.
use Prim.Native.Nat.{Ordering}
use native.Mathlib.Numerals.{add-one}
use x.Base.{ℕ, zero, suc, ◌+◌, ◌<◌, ◌≡◌, inl, inr, true, List, arith, ltb, Bool-cases, length}
use x.Heap.{Heap, at, parent, swap, below, sift_up_loop, sift_up}
use x.Heap.Arrays.{exchange, entry-exchange, length-exchange}
use x.Heap.Order.{IsWeakOrder, IsHeap, IsHeap-Sinking, Rising, Sinking, Loose}

module _ (cmp : ℕ → ℕ → Ordering) (order : IsWeakOrder cmp) where
  -- An entry below its parent goes up, and only the edge above it can be left out of order.
  exchange-Rising :
      (a : List ℕ) (i : ℕ)
      → Loose cmp a i
      → 0 < i
      → i < length a
      → below cmp (at a i) (at a (parent i)) ≡ true
      → Rising cmp (exchange a i (parent i)) (parent i)
  exchange-Rising a i v pos inside less =
      let up = parent i in
      let moved = λ (c : ℕ). entry-exchange a i up c inside (omega arith) in
      let size = length-exchange a i up in
      let above = order.asym (at a i) (at a up) less in
      record {
        edges = λ c p q n. ground (
          arith,
          size,
          above,
          moved c,
          moved (parent c),
          v.edges c,
          v.bridge c,
          order.trans (at a i) (at a up) (at a c),
        );
        bridge = λ c p q e t. ground (
          arith,
          size,
          moved c,
          moved (parent up),
          v.edges c,
          v.edges up,
          order.trans (at a (parent up)) (at a up) (at a c),
        );
      }

  -- From there the loop of sift_up, with fuel above the slot, ends in a heap.
  Rising-up :
      (fuel : ℕ) (h : Heap) (i : ℕ)
      → i < fuel
      → i < length h.slots
      → Rising cmp h.slots i
      → IsHeap cmp (sift_up_loop cmp fuel h i).slots
  unfolding sift_up_loop swap
  Rising-up zero h i f inside v = absurd (omega arith)
  Rising-up (suc fuel) h i f inside v = elim (Bool-cases (ltb 0 i)) [
    | inl inner ↦ rw inner (elim (Bool-cases (below cmp (at h.slots i) (at h.slots (parent i)))) [
      | inl rises ↦ rw rises (
          Rising-up fuel (swap h i (parent i)) (parent i) (ground arith)
            (ground (arith, length-exchange h.slots i (parent i)))
            (exchange-Rising h.slots i
              (record { edges = λ c p q n m. v.edges c p q n; bridge = v.bridge }) (ground arith)
              inside rises))
      | inr stays ↦ rw stays (λ c p q. ground (arith, v.edges c))
    ])
    | inr root ↦ rw root (λ c p q. v.edges c p q (ground arith))
  ]

  pub sift_up-IsHeap :
      (h : Heap) (i : ℕ)
      → i < length h.slots
      → Rising cmp h.slots i
      → IsHeap cmp (sift_up cmp h i).slots
  unfolding sift_up
  sift_up-IsHeap h i inside v = Rising-up (i + 1) h i (omega arith) inside v

  -- Where the edges on both sides of a slot may be out of order, at most those below it are left.
  pub sift_up-Sinking :
      (h : Heap) (i : ℕ)
      → i < length h.slots
      → Loose cmp h.slots i
      → Sinking cmp (sift_up cmp h i).slots i
  unfolding sift_up sift_up_loop swap
  sift_up-Sinking h i inside v = rw add-one (elim (Bool-cases (ltb 0 i)) [
    | inl inner ↦ rw inner (elim (Bool-cases (below cmp (at h.slots i) (at h.slots (parent i)))) [
      | inl rises ↦ rw rises (
          IsHeap-Sinking cmp order _ i (
            Rising-up i (swap h i (parent i)) (parent i) (ground arith)
              (ground (arith, length-exchange h.slots i (parent i)))
              (exchange-Rising h.slots i v (ground arith) inside rises)))
      | inr stays ↦
          rw stays (record { edges = λ c p q m. ground (arith, v.edges c); bridge = v.bridge })
    ])
    | inr root ↦
        rw root (record { edges = λ c p q m. ground (arith, v.edges c); bridge = v.bridge })
  ])
