-- ===== src/Base/Bits.antt =====
-- `&`, `|` and `^` as arithmetic. The native operations mean a recursion on binary digits with
-- fuel; one equation for the lowest digit of each drops the fuel, and the laws follow from it.
use Prim.Native.Nat.{
  ℕ, zero, suc, ◌+◌, ◌-◌, ◌*◌, ◌/◌, ◌%◌, ◌^◌, ◌≤◌, ◌<◌, min, max, bit_and, bit_or, bit_xor, digits,
  bitwise, differ, bit_and-bitwise, bit_or-bitwise, bit_xor-bitwise,
}
use mathlib.Core.Path.{◌≡◌, refl, sym, ap, ap₂, ◌∙◌}
use native.Mathlib.Nat.{
  two-pow-succ, one-le-pow, mod-lt, mod-eq_of_lt, div-add-mod', mul-add-mod_self_right,
}
use native.Mathlib.Omega.{arith}

module _ (z : ℕ → ℕ) (f : ℕ → ℕ → ℕ) where
  -- Fuel beyond the first operand changes nothing.
  spare_fuel : (a b n m : ℕ) → a ≤ m → a ≤ n → digits z f m a b ≡ digits z f n a b
  spare_fuel zero b zero zero hm hn = refl
  spare_fuel zero b zero (suc m) hm hn = refl
  spare_fuel zero b (suc n) zero hm hn = refl
  spare_fuel zero b (suc n) (suc m) hm hn = refl
  spare_fuel (suc a) b zero m hm hn = absurd (omega arith)
  spare_fuel (suc a) b (suc n) zero hm hn = absurd (omega arith)
  spare_fuel (suc a) b (suc n) (suc m) hm hn =
      ap (λ (t : ℕ). t * 2 + f (suc a % 2) (b % 2))
        (spare_fuel (suc a / 2) (b / 2) n m (omega arith) (omega arith))

  lowest_digit :
      (a b : ℕ)
      → bitwise z f (suc a) b ≡ bitwise z f (suc a / 2) (b / 2) * 2 + f (suc a % 2) (b % 2)
  lowest_digit a b =
      ap (λ (t : ℕ). t * 2 + f (suc a % 2) (b % 2))
        (spare_fuel (suc a / 2) (b / 2) (suc a / 2) a (omega arith) (omega arith))

pub and_step : (a b : ℕ) → bit_and a b ≡ bit_and (a / 2) (b / 2) * 2 + min (a % 2) (b % 2)
and_step zero b = simp bit_and-bitwise (omega arith)
and_step (suc a) b = simp bit_and-bitwise (lowest_digit (λ _. 0) min a b)

pub or_step : (a b : ℕ) → bit_or a b ≡ bit_or (a / 2) (b / 2) * 2 + max (a % 2) (b % 2)
or_step zero b = simp bit_or-bitwise (omega arith)
or_step (suc a) b = simp bit_or-bitwise (lowest_digit (λ y. y) max a b)

-- `differ` by arithmetic.
differ_parity : (x y : ℕ) → x < 2 → y < 2 → differ x y ≡ (x + y) % 2
differ_parity zero zero hx hy = refl
differ_parity zero (suc zero) hx hy = refl
differ_parity (suc zero) zero hx hy = refl
differ_parity (suc zero) (suc zero) hx hy = refl
differ_parity zero (suc (suc y)) hx hy = absurd (omega arith)
differ_parity (suc zero) (suc (suc y)) hx hy = absurd (omega arith)
differ_parity (suc (suc x)) y hx hy = absurd (omega arith)

xor_step : (a b : ℕ) → bit_xor a b ≡ bit_xor (a / 2) (b / 2) * 2 + (a % 2 + b % 2) % 2
xor_step zero b = simp bit_xor-bitwise (omega arith)
xor_step (suc a) b =
    bit_xor-bitwise (suc a) b
    ∙ lowest_digit (λ y. y) differ a b
    ∙ ap₂ (λ (s t : ℕ). s * 2 + t) (sym (bit_xor-bitwise (suc a / 2) (b / 2)))
        (differ_parity (suc a % 2) (b % 2) (omega arith) (omega arith))

and-zero_below : (n a : ℕ) → a ≤ n → bit_and a 0 ≡ 0
and-zero_below n zero h = refl
and-zero_below zero (suc a) h = absurd (omega arith)
and-zero_below (suc n) (suc a) h =
    omega (arith, and_step (suc a) 0, and-zero_below n (suc a / 2) (omega arith))

or-zero_below : (n a : ℕ) → a ≤ n → bit_or a 0 ≡ a
or-zero_below n zero h = refl
or-zero_below zero (suc a) h = absurd (omega arith)
or-zero_below (suc n) (suc a) h =
    omega (arith, or_step (suc a) 0, or-zero_below n (suc a / 2) (omega arith))

-- The remainder by a doubled modulus: its lowest digit, and the remainder of the rest.
mod-double : (a m : ℕ) → 0 < m → a % (m + m) ≡ a / 2 % m * 2 + a % 2
mod-double a m pos =
    let q = a / 2 / m in
    let r = a / 2 % m in
    let small : r < m = mod-lt (a / 2) pos in
    let split : a ≡ q * (m + m) + (r * 2 + a % 2) =
      omega (arith, ap (λ (t : ℕ). t * 2) (div-add-mod' (a / 2) m)) in
    ap (λ (t : ℕ). t % (m + m)) split ∙ add-mod-comm q (r * 2 + a % 2) ∙ mod-eq_of_lt (omega arith)
  where
    add-mod-comm : (q c : ℕ) → (q * (m + m) + c) % (m + m) ≡ c % (m + m)
    add-mod-comm q c = mul-add-mod_self_right q (m + m) c

pub pow-double : (k : ℕ) → 2 ^ suc k ≡ 2 ^ k + 2 ^ k
pow-double k = two-pow-succ k

pub pow-pos : (k : ℕ) → 0 < 2 ^ k
pow-pos k = one-le-pow k 2 (omega arith)

-- `x & (2^k - 1)` is the remainder by 2^k.
pub bit_and-mask : (k a : ℕ) → bit_and a (2 ^ k - 1) ≡ a % 2 ^ k
bit_and-mask zero a = omega (arith, and-zero_below a a (omega arith))
bit_and-mask (suc k) a = rw pow-double (
    omega (
      arith,
      and_step a (2 ^ k + 2 ^ k - 1),
      rw half_mask at (bit_and-mask k (a / 2)),
      mod-double a (2 ^ k) pos,
      pos,
    ))
  where
    pos : 0 < 2 ^ k
    pos = pow-pos k

    half_mask : 2 ^ k - 1 ≡ (2 ^ k + 2 ^ k - 1) / 2
    half_mask = omega (arith, pos)

-- `(a << k) | b` is a sum where `b` fits in `k` bits.
pub bit_or-disjoint : (k a b : ℕ) → b < 2 ^ k → bit_or (a * 2 ^ k) b ≡ a * 2 ^ k + b
bit_or-disjoint zero a zero h = omega (arith, or-zero_below (a * 1) (a * 1) (omega arith))
bit_or-disjoint zero a (suc b) h = absurd (omega arith)
bit_or-disjoint (suc k) a b h =
    let doubled : a * 2 ^ suc k ≡ a * 2 ^ k * 2 =
      omega (arith, ap (λ (t : ℕ). a * t) (pow-double k)) in
    let low = bit_or-disjoint k a (b / 2) (omega (arith, pow-double k)) in
    rw doubled (
      omega (
        arith,
        or_step (a * 2 ^ k * 2) b,
        ap (λ (t : ℕ). bit_or t (b / 2)) (halve (a * 2 ^ k)),
        low,
      ))
  where
    halve : (n : ℕ) → n * 2 / 2 ≡ n
    halve n = omega arith

bit_xor_twice_below : (n a b : ℕ) → a ≤ n → b ≤ n → bit_xor (bit_xor a b) b ≡ a
bit_xor_twice_below zero zero zero ha hb = refl
bit_xor_twice_below zero zero (suc b) ha hb = absurd (omega arith)
bit_xor_twice_below zero (suc a) b ha hb = absurd (omega arith)
bit_xor_twice_below (suc n) a b ha hb = omega (
  arith,
  xor_step (bit_xor a b) b,
  xor_step a b,
  ap (λ (t : ℕ). bit_xor t (b / 2)) high,
  bit_xor_twice_below n (a / 2) (b / 2) (omega arith) (omega arith),
)
  where
    high : bit_xor a b / 2 ≡ bit_xor (a / 2) (b / 2)
    high = omega (arith, xor_step a b)

-- Masking twice with the same key gives the value back.
pub bit_xor_twice : (a b : ℕ) → bit_xor (bit_xor a b) b ≡ a
bit_xor_twice a b = bit_xor_twice_below (a + b) a b (omega arith) (omega arith)

pub bit_xor-lt : (k a b : ℕ) → a < 2 ^ k → b < 2 ^ k → bit_xor a b < 2 ^ k
bit_xor-lt zero zero zero ha hb = omega arith
bit_xor-lt zero zero (suc b) ha hb = absurd (omega arith)
bit_xor-lt zero (suc a) b ha hb = absurd (omega arith)
bit_xor-lt (suc k) a b ha hb = omega (
  arith,
  pow-double k,
  xor_step a b,
  bit_xor-lt k (a / 2) (b / 2) (omega (arith, pow-double k)) (omega (arith, pow-double k)),
)

bit_and-le_below : (n a b : ℕ) → a ≤ n → bit_and a b ≤ b
bit_and-le_below n zero b h = let e : bit_and 0 b ≡ 0 = bit_and-bitwise 0 b in omega arith
bit_and-le_below zero (suc a) b h = absurd (omega arith)
bit_and-le_below (suc n) (suc a) b h =
    omega (arith, and_step (suc a) b, bit_and-le_below n (suc a / 2) (b / 2) (omega arith))

pub bit_and-le : (a b : ℕ) → bit_and a b ≤ b
bit_and-le a b = bit_and-le_below a a b (omega arith)
