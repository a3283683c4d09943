-- ===== src/Heap/Kept.antt =====
-- Sifting exchanges entries and tells the elements where they are: the entries, their number and
-- the index invariant are kept.
use Prim.Native.Nat.{Ordering}
use x.Base.{ℕ, zero, suc, ◌+◌, ◌<◌, ◌≡◌, refl, ◌∙◌, inl, inr, arith, ltb, ◌==◌, Bool-cases, length}
use x.Heap.{
  Heap, at, parent, swap, below, sift_up_loop, sift_up, smallest, sift_down_loop, sift_down,
}
use x.Heap.Arrays.{count, length-exchange, entry-exchange, count-exchange}
use x.Heap.Order.{IsIndexed}

-- `g` holds the entries of `h`, and its elements know their slots if those of `h` did.
pub record Kept (h g : Heap) : Type 0 where
  pub size : length g.slots ≡ length h.slots
  pub cap : g.cap ≡ h.cap
  pub counts : (p : ℕ) → count p g.slots ≡ count p h.slots
  pub indexed : IsIndexed h → IsIndexed g

pub Kept-refl : (h : Heap) → Kept h h
Kept-refl h = record { size = refl; cap = refl; counts = λ p. refl; indexed = λ v. v }

pub Kept-trans : {f g h : Heap} → Kept f g → Kept g h → Kept f h
Kept-trans k l = record {
  size = l.size ∙ k.size;
  cap = l.cap ∙ k.cap;
  counts = λ p. l.counts p ∙ k.counts p;
  indexed = λ v. l.indexed (k.indexed v);
}

pub swap-Kept : (h : Heap) (i j : ℕ) → i < length h.slots → j < length h.slots → Kept h (swap h i j)
unfolding swap
swap-Kept h i j hi hj = record {
  size = length-exchange h.slots i j;
  cap = refl;
  counts = λ p. count-exchange p h.slots i j hi hj;
  indexed = λ v c hc.
      let at' = entry-exchange h.slots i j in
      ground (
        arith,
        at' c hi hj,
        at' i hi hj,
        at' j hi hj,
        v i hi,
        v j hj,
        v c (omega (arith, length-exchange h.slots i j)),
      );
}

module _ (cmp : ℕ → ℕ → Ordering) where
  sift_up_loop-Kept :
      (fuel : ℕ) (h : Heap) (i : ℕ) → i < length h.slots → Kept h (sift_up_loop cmp fuel h i)
  unfolding sift_up_loop
  sift_up_loop-Kept zero h i hi = Kept-refl h
  sift_up_loop-Kept (suc fuel) h i hi =
      let up : parent i < length h.slots = omega arith in
      let swapped = swap-Kept h i (parent i) hi up in
      let rest =
        sift_up_loop-Kept fuel (swap h i (parent i)) (parent i) (omega (arith, swapped.size)) in
      elim (Bool-cases (ltb 0 i)) [
        | inl inner ↦
            rw inner (elim (Bool-cases (below cmp (at h.slots i) (at h.slots (parent i)))) [
              | inl rises ↦ rw rises (Kept-trans swapped rest)
              | inr stays ↦ rw stays (Kept-refl h)
            ])
        | inr root ↦ rw root (Kept-refl h)
      ]

  pub sift_up-Kept : (h : Heap) (i : ℕ) → i < length h.slots → Kept h (sift_up cmp h i)
  unfolding sift_up
  sift_up-Kept h i hi = sift_up_loop-Kept (i + 1) h i hi

  pub smallest-lt : (h : Heap) (i : ℕ) → i < length h.slots → smallest cmp h i < length h.slots
  unfolding smallest
  smallest-lt h i hi = ground arith

  sift_down_loop-Kept :
      (fuel : ℕ) (h : Heap) (i : ℕ) → i < length h.slots → Kept h (sift_down_loop cmp fuel h i)
  unfolding sift_down_loop
  sift_down_loop-Kept zero h i hi = Kept-refl h
  sift_down_loop-Kept (suc fuel) h i hi =
      let s = smallest cmp h i in
      let inside = smallest-lt h i hi in
      let swapped = swap-Kept h i s hi inside in
      let rest = sift_down_loop-Kept fuel (swap h i s) s (omega (arith, inside, swapped.size)) in
      elim (Bool-cases (s == i)) [
        | inl stays ↦ rw stays (Kept-refl h)
        | inr sinks ↦ rw sinks (Kept-trans swapped rest)
      ]

  pub sift_down-Kept : (h : Heap) (i : ℕ) → i < length h.slots → Kept h (sift_down cmp h i)
  unfolding sift_down
  sift_down-Kept h i hi = sift_down_loop-Kept (length h.slots + 1) h i hi
