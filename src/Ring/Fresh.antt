-- ===== src/Ring/Fresh.antt =====
-- A created ring, and the queries.
use x.Base.{
  ℕ, ◌+◌, ◌^◌, ◌≤◌, ◌≡◌, refl, sym, ap, ◌∙◌, ◌↔◌, inl, inr, [], some, Bool, true, min, arith, ltb,
  ◌==◌, ==_iff, length-eq-zero, Bool-cases, length, length-replicate, pow_mono,
}
use x.Ring.{Ring, fresh, create, next_pow2, len, capacity, writable, is_empty, is_full}
use x.Ring.Bounds.{IsValid, used, contents, cap_word}
use x.Ring.Capacity.{next_pow2_least, next_pow2_clamped}
use x.Ring.Cursors.{length-contents}

rounded : (n : ℕ) → (k : ℕ) × (next_pow2 n ≡ 2 ^ k) × (k ≤ 63) × (min n (2 ^ 63) ≤ 2 ^ k)
rounded n = elim (Bool-cases (ltb (2 ^ 63) n)) [
  | inl over ↦ (63, next_pow2_clamped n (ground arith), omega arith, omega arith)
  | inr within ↦
      let (k, value, word, _, enough, _) = next_pow2_least n (ground arith) in
      (k, value, word, omega arith)
]

fresh-IsValid : (n k : ℕ) → next_pow2 n ≡ 2 ^ k → k ≤ 63 → IsValid (fresh (next_pow2 n))
unfolding fresh
fresh-IsValid n k value word = record {
  level = k;
  word = word;
  power = value;
  masked = omega (arith, value, pow_mono k 63 word, pow_mono 0 k (omega arith));
  room = length-replicate (next_pow2 n) 0;
  head_word = omega arith;
  tail_word = omega arith;
  bounded = omega arith;
}

-- A created ring is valid and empty, and holds at least the capacity asked for, up to 2^63.
pub create_fresh :
    (malloc : ℕ → Bool) (n : ℕ) {r : Ring}
    → create malloc n ≡ some r
    → IsValid r × (contents r ≡ []) × (min n (2 ^ 63) ≤ r.cap)
unfolding create
create_fresh malloc n {r} e =
    let made : fresh (next_pow2 n) ≡ r = ground arith in
    let (k, value, word, enough) = rounded n in
    rw made at (
      let start : IsValid (fresh (next_pow2 n))
          × (contents (fresh (next_pow2 n)) ≡ [])
          × (min n (2 ^ 63) ≤ (fresh (next_pow2 n)).cap) =
        (fresh-IsValid n k value word, unfold fresh in refl, unfold fresh in omega arith) in
      start)

-- The queries of ring.c tell the length of the contents, the room, and whether either is nothing.
pub queries :
    {r : Ring}
    → IsValid r
    → (len (some r) ≡ length (contents r))
      × (writable (some r) + length (contents r) ≡ capacity (some r))
      × ((is_empty (some r) ≡ true) ↔ (contents r ≡ []))
      × ((is_full (some r) ≡ true) ↔ (length (contents r) ≡ r.cap))
unfolding len writable capacity is_empty is_full
queries {r} v = (
  sym (length-contents r),
  omega (arith, length-contents r, v.bounded, cap_word v),
  (
    λ e. empty (ground (arith, v.head_word, v.tail_word)),
    λ e. drained (sym (length-contents r) ∙ ap length e),
  ),
  (λ e. length-contents r ∙ ground arith, λ e. full (sym (length-contents r) ∙ e)),
)
  where
    empty : used r ≡ 0 → contents r ≡ []
    empty e = length-eq-zero (contents r) (length-contents r ∙ e)

    drained : used r ≡ 0 → (r.head == r.tail) ≡ true
    drained e = (==_iff r.head r.tail).1 (omega (arith, v.head_word, v.tail_word))

    full : used r ≡ r.cap → (used r == r.cap) ≡ true
    full e = (==_iff (used r) r.cap).1 e
