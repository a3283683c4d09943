-- ===== src/Heap/Down.antt =====
-- sift_down mends the edges below a slot.
use Prim.Native.Nat.{Ordering}
use x.Base.{
  ℕ, zero, suc, ◌+◌, ◌-◌, ◌*◌, ◌<◌, ◌≡◌, ◌≢◌, inl, inr, ◌⊎◌, List, arith, ◌==◌, Bool-cases, length,
}
use x.Heap.{Heap, at, parent, swap, smallest, sift_down_loop, sift_down}
use x.Heap.Arrays.{exchange, entry-exchange, length-exchange}
use x.Heap.Order.{IsWeakOrder, Le, IsHeap, Sinking}
use x.Heap.Kept.{smallest-lt}

module _ (cmp : ℕ → ℕ → Ordering) (order : IsWeakOrder cmp) where
  -- What `smallest` picks: the slot itself, if its entry may stay, or else a child, which may
  -- stand above the slot's entry and above both children.
  record Picked (a : List ℕ) (i s : ℕ) : Type 0 where
    least : (c : ℕ) → 0 < c → c < length a → parent c ≡ i → Le cmp (at a s) (at a c)
    own : Le cmp (at a s) (at a i)
    place : s ≢ i → (parent s ≡ i) × (0 < s)

  smallest-Picked : (h : Heap) (i : ℕ) → Picked h.slots i (smallest cmp h i)
  unfolding smallest
  smallest-Picked h i =
      let x = at h.slots i in
      let l = at h.slots (2 * i + 1) in
      let r = at h.slots (2 * i + 2) in
      record {
        least = λ c p q e.
            let side : (c ≡ 2 * i + 1) ⊎ (c ≡ 2 * i + 2) = omega arith in
            ground (
              arith,
              side,
              order.asym l l,
              order.asym r r,
              order.asym r l,
              order.asym r x,
              order.trans r x l,
            );
        own = ground (
          arith,
          order.asym x x,
          order.asym l x,
          order.asym r x,
          order.asym r l,
          order.trans r l x,
        );
        place = λ n. ground arith;
      }

  exchange-Sinking :
      (a : List ℕ) (i s : ℕ)
      → Sinking cmp a i
      → Picked a i s
      → s ≢ i
      → i < length a
      → s < length a
      → Sinking cmp (exchange a i s) s
  exchange-Sinking a i s v pick ne inside within =
      let moved = λ (c : ℕ). entry-exchange a i s c inside within in
      let size = length-exchange a i s in
      record {
        edges = λ c p q n. ground (
          arith,
          size,
          pick.own,
          pick.place ne,
          pick.least c,
          moved c,
          moved (parent c),
          v.bridge s,
          v.edges c,
        );
        bridge =
            λ c p q e t. ground (arith, size, pick.place ne, moved c, moved (parent s), v.edges c);
      }

  -- The loop of sift_down ends in a heap, with fuel above the number of slots from `i` on.
  Sinking-down :
      (fuel : ℕ) (h : Heap) (i : ℕ)
      → length h.slots - i < fuel
      → i < length h.slots
      → Sinking cmp h.slots i
      → IsHeap cmp (sift_down_loop cmp fuel h i).slots
  unfolding sift_down_loop swap
  Sinking-down zero h i f inside v = absurd (omega arith)
  Sinking-down (suc fuel) h i f inside v =
      let s = smallest cmp h i in
      let pick = smallest-Picked h i in
      let within = smallest-lt cmp h i inside in
      elim (Bool-cases (s == i)) [
        | inl stays ↦
            let here : s ≡ i = ground arith in
            let settled = rw here at pick.least in
            rw stays (λ c p q. ground (arith, v.edges c, settled c))
        | inr sinks ↦
            let ne : s ≢ i = ground arith in
            let size = length-exchange h.slots i s in
            rw sinks (
              Sinking-down fuel (swap h i s) s (omega (arith, size, pick.place ne, within))
                (omega (arith, size, within))
                (exchange-Sinking h.slots i s v pick ne inside within))
      ]

  pub sift_down-IsHeap :
      (h : Heap) (i : ℕ)
      → i < length h.slots
      → Sinking cmp h.slots i
      → IsHeap cmp (sift_down cmp h i).slots
  unfolding sift_down
  sift_down-IsHeap h i inside v = Sinking-down (length h.slots + 1) h i (omega arith) inside v
