-- ===== src/Ring/Capacity.antt =====
-- next_pow2 rounds up to a power of two.
use native.Mathlib.Nat.{div-le_self, div-eq_of_lt-le}
use x.Base.{
  ℕ, zero, suc, ◌+◌, ◌-◌, ◌/◌, ◌%◌, ◌^◌, ◌≤◌, ◌<◌, ◌≡◌, sym, false, ap, ◌∙◌, inl, inr, arith,
  bit_or, ltb, Bool-cases, bit, bit-or, bit-shift, bit_or-lt, all_ones, top_bit, pow_mono,
  pow-double, sub_size, add_size,
}
use x.Ring.{smear, next_pow2}

-- Every bit of `v` is copied in `x` to the `s` places from its own downwards.
abbrev Spread : ℕ → ℕ → ℕ → Type 0
Spread s v x = (i k : ℕ) → k < s → bit (i + k) v ≡ 1 → bit i x ≡ 1

Spread-once : (v : ℕ) → Spread 1 v v
Spread-once v i zero h e = ap (λ (t : ℕ). bit t v) (plain i) ∙ e
  where
    plain : (i : ℕ) → i ≡ i + 0
    plain i = omega arith
Spread-once v i (suc k) h e = absurd (omega arith)

-- One line of next_pow2 doubles the reach.
Spread-double : (s v x : ℕ) → Spread s v x → Spread (s + s) v (bit_or x (x / 2 ^ s))
Spread-double s v x h i k less e = elim (Bool-cases (ltb k s)) [
  | inl near ↦ omega (arith, bit-or i x (x / 2 ^ s), h i k (ground arith) e)
  | inr far ↦
      let back : i + k ≡ i + s + (k - s) = ground arith in
      omega (
        arith,
        bit-or i x (x / 2 ^ s),
        bit-shift i s x,
        h (i + s) (k - s) (ground arith) (ap (λ (t : ℕ). bit t v) (sym back) ∙ e),
      )
]

smear-Spread : (v : ℕ) → Spread 64 v (smear v)
unfolding smear
smear-Spread v = Spread-double 32 v _ (
    Spread-double 16 v _ (
      Spread-double 8 v _
        (Spread-double 4 v _ (Spread-double 2 v _ (Spread-double 1 v _ (Spread-once v))))))

or_shift-lt : (n s x : ℕ) → x < 2 ^ n → bit_or x (x / 2 ^ s) < 2 ^ n
or_shift-lt n s x h = bit_or-lt n x (x / 2 ^ s) h (omega (arith, div-le_self x (2 ^ s)))

smear-lt : (n v : ℕ) → v < 2 ^ n → smear v < 2 ^ n
unfolding smear
smear-lt n v h = or_shift-lt n 32 _ (
    or_shift-lt n 16 _
      (or_shift-lt n 8 _ (or_shift-lt n 4 _ (or_shift-lt n 2 _ (or_shift-lt n 1 v h)))))

-- The smeared bits of `v` are all those up to its highest.
smear_ones : (k v : ℕ) → k < 64 → 2 ^ k ≤ v → v < 2 ^ suc k → smear v + 1 ≡ 2 ^ suc k
smear_ones k v word lo hi =
    all_ones (suc k) (smear v) (smear-lt (suc k) v hi) λ i h.
      smear-Spread v i (k - i) (omega arith) (ap (λ (t : ℕ). bit t v) (reach k i h) ∙ highest)
  where
    reach : (k i : ℕ) → i < suc k → i + (k - i) ≡ k
    reach k i h = omega arith

    highest : bit k v ≡ 1
    highest =
        ap (λ (t : ℕ). t % 2)
          (div-eq_of_lt-le {k = 1} (2 ^ k) {m = v} (omega arith) (omega (arith, pow-double k)))

-- Exponents compare as their powers do.
le_of_pow-lt : (k j n : ℕ) → 2 ^ k ≤ n → n < 2 ^ j → suc k ≤ j
le_of_pow-lt k j n lo hi = elim (Bool-cases (ltb k j)) [
  | inl less ↦ ground arith
  | inr more ↦ absurd (omega (arith, pow_mono j k (ground arith)))
]

round_up :
    (w : ℕ)
    → 16 ≤ w
    → w ≤ 2 ^ 63
    → (k : ℕ) × (add_size (smear (sub_size w 1)) 1 ≡ 2 ^ k)
      × (k ≤ 63)
      × (w ≤ 2 ^ k)
      × ((j : ℕ) → w ≤ 2 ^ j → k ≤ j)
round_up w lo hi =
    let (k, below, least, most) = top_bit 63 (w - 1) (omega arith) (omega arith) in
    let less_one : sub_size w 1 ≡ w - 1 = omega arith in
    let ones = smear_ones k (w - 1) (omega arith) least most in
    (
      suc k,
      rw less_one (omega (arith, ones, pow_mono (suc k) 63 below)),
      below,
      omega arith,
      λ j h. le_of_pow-lt k j (w - 1) least (omega arith),
    )

-- next_pow2 returns the least power of two that is at least 16 and at least `v`, for every `v` up
-- to 2^63.
pub next_pow2_least :
    (v : ℕ)
    → v ≤ 2 ^ 63
    → (k : ℕ) × (next_pow2 v ≡ 2 ^ k)
      × (k ≤ 63)
      × (16 ≤ 2 ^ k)
      × (v ≤ 2 ^ k)
      × ((j : ℕ) → 16 ≤ 2 ^ j → v ≤ 2 ^ j → k ≤ j)
unfolding next_pow2
next_pow2_least v h = elim (Bool-cases (ltb v 16)) [
  | inl small ↦
      let (k, value, word, big, least) = round_up 16 (omega arith) (omega arith) in
      rw small (k, value, word, big, ground arith, λ j p q. least j p)
  | inr large ↦
      let (k, value, word, big, least) = round_up v (ground arith) h in
      let fits : ltb (2 ^ 63) v ≡ false = ground arith in
      rw large (rw fits (k, value, word, ground arith, big, λ j p q. least j q))
]

-- Beyond 2^63 next_pow2 stays at 2^63.
pub next_pow2_clamped : (v : ℕ) → 2 ^ 63 < v → next_pow2 v ≡ 2 ^ 63
unfolding next_pow2
next_pow2_clamped v h = ground arith
