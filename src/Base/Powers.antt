-- ===== src/Base/Powers.antt =====
-- Powers of two: divisibility, and numbers read bit by bit.
use Prim.Native.Nat.{ℕ, zero, suc, ◌+◌, ◌-◌, ◌*◌, ◌/◌, ◌%◌, ◌^◌, ◌≤◌, ◌<◌, ◌∣◌, max, bit_or}
use Prim.Native.Nat.add
use mathlib.Core.Path.{◌≡◌, sym, ap, ◌∙◌}
use native.Mathlib.Nat.{mod-mod_of_dvd, div-div-eq-div-mul}
use native.Mathlib.Decide.{dec_lt}
use native.Mathlib.Omega.{arith}
use x.Base.Bits.{pow-double, pow-pos, or_step}

pub pow-add : (k j : ℕ) → 2 ^ (k + j) ≡ 2 ^ k * 2 ^ j
pow-add zero j = rw add.zero (omega arith)
pow-add (suc k) j =
    ap (λ (t : ℕ). 2 ^ t) (add_suc k j)
    ∙ pow-double (k + j)
    ∙ omega (arith, pow-add k j, ap (λ (t : ℕ). t * 2 ^ j) (pow-double k))
  where
    add_suc : (k j : ℕ) → suc k + j ≡ suc (k + j)
    add_suc k j = omega arith

pow-dvd : (k n : ℕ) → k ≤ n → 2 ^ k ∣ 2 ^ n
pow-dvd k n h = ∣ (2 ^ (n - k), ap (λ (t : ℕ). 2 ^ t) (rest n k h) ∙ pow-add k (n - k)) ∣₁
  where
    rest : (n k : ℕ) → k ≤ n → n ≡ k + (n - k)
    rest n k h = omega arith

-- A smaller power of two sees through the remainder by a larger one.
pub mod-mod_pow : (a k n : ℕ) → k ≤ n → a % 2 ^ n % 2 ^ k ≡ a % 2 ^ k
mod-mod_pow a k n h = mod-mod_of_dvd (2 ^ k) a (pow-dvd k n h)

pub pow_mono : (k n : ℕ) → k ≤ n → 2 ^ k ≤ 2 ^ n
pow_mono k n h = omega (arith, pow-add k (n - k), ap (λ (t : ℕ). 2 ^ t) (rest n k h), grows)
  where
    rest : (n k : ℕ) → k ≤ n → n ≡ k + (n - k)
    rest n k h = omega arith

    grows : 2 ^ k ≤ 2 ^ k * 2 ^ (n - k)
    grows = grind (arith, pow-pos (n - k))

-- Bit `i` of `x`.
abbrev pub bit : ℕ → ℕ → ℕ
bit i x = x / 2 ^ i % 2

pub bit-suc : (i x : ℕ) → bit (suc i) x ≡ bit i (x / 2)
bit-suc i x =
    ap (λ (t : ℕ). t % 2)
      (ap (λ (t : ℕ). x / t) (pow-double i ∙ twice (2 ^ i)) ∙ sym (div-div-eq-div-mul x 2 (2 ^ i)))
  where
    twice : (n : ℕ) → n + n ≡ 2 * n
    twice n = omega arith

pub bit-shift : (i k x : ℕ) → bit i (x / 2 ^ k) ≡ bit (i + k) x
bit-shift i k x =
    ap (λ (t : ℕ). t % 2)
      (div-div-eq-div-mul x (2 ^ k) (2 ^ i)
        ∙ ap (λ (t : ℕ). x / t) (sym (pow-add k i) ∙ ap (λ (t : ℕ). 2 ^ t) (comm k i)))
  where
    comm : (k i : ℕ) → k + i ≡ i + k
    comm k i = omega arith

pub bit-or : (i a b : ℕ) → bit i (bit_or a b) ≡ max (bit i a) (bit i b)
bit-or zero a b = omega (arith, or_step a b)
bit-or (suc i) a b = omega (
  arith,
  bit-suc i (bit_or a b),
  bit-suc i a,
  bit-suc i b,
  ap (bit i) high,
  bit-or i (a / 2) (b / 2),
)
  where
    high : bit_or a b / 2 ≡ bit_or (a / 2) (b / 2)
    high = omega (arith, or_step a b)

pub bit_or-lt : (k a b : ℕ) → a < 2 ^ k → b < 2 ^ k → bit_or a b < 2 ^ k
bit_or-lt zero zero zero ha hb = omega arith
bit_or-lt zero zero (suc b) ha hb = absurd (omega arith)
bit_or-lt zero (suc a) b ha hb = absurd (omega arith)
bit_or-lt (suc k) a b ha hb = omega (
  arith,
  pow-double k,
  or_step a b,
  bit_or-lt k (a / 2) (b / 2) (omega (arith, pow-double k)) (omega (arith, pow-double k)),
)

-- A number below 2 ^ n all of whose n bits are set.
pub all_ones : (n x : ℕ) → x < 2 ^ n → ((i : ℕ) → i < n → bit i x ≡ 1) → x + 1 ≡ 2 ^ n
all_ones zero x h ones = omega arith
all_ones (suc n) x h ones = omega (
  arith,
  pow-double n,
  ones 0 (omega arith),
  all_ones n (x / 2) (omega (arith, pow-double n))
      (λ i hi. sym (bit-suc i x) ∙ ones (suc i) (omega arith)),
)

-- The highest bit of a positive number.
pub top_bit : (n x : ℕ) → 0 < x → x < 2 ^ n → (k : ℕ) × (k < n) × (2 ^ k ≤ x) × (x < 2 ^ suc k)
top_bit zero x pos h = absurd (omega arith)
top_bit (suc n) x pos h = elim (dec_lt x (2 ^ n)) [
  | yes less ↦ let (k, below, lo, hi) = top_bit n x pos less in (k, omega arith, lo, hi)
  | no more ↦ (n, omega arith, omega arith, h)
]
