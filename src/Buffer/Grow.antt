-- ===== src/Buffer/Grow.antt =====
-- buf_next_cap ends within its fuel, on the least doubling that is enough.
use x.Base.{
  ℕ, zero, suc, ◌+◌, ◌*◌, ◌/◌, ◌^◌, ◌≤◌, ◌<◌, ◌≡◌, ap, inl, inr, false, arith, ltb, ◌==◌,
  if◌then◌else◌, Bool-cases, mul_size, size_max, pow-double,
}
use x.Buffer.{double_until, buf_next_cap}

scale : (c k : ℕ) → c * 2 ^ suc k ≡ c * 2 * 2 ^ k
scale c k = omega (arith, ap (λ (t : ℕ). c * t) (pow-double k))

least_double :
    (cap needed k : ℕ)
    → cap < needed
    → ((j : ℕ) → needed ≤ cap * 2 * 2 ^ j → k ≤ j)
    → (j : ℕ) → needed ≤ cap * 2 ^ j
    → suc k ≤ j
least_double cap needed k more least zero h = absurd (omega arith)
least_double cap needed k more least (suc j) h = omega (arith, least j (omega (arith, scale cap j)))

-- The loop doubles `cap` as often as it must: the result is the least `cap * 2 ^ k` that is at
-- least `needed`.
pub double_until_lem :
    (fuel cap needed : ℕ)
    → 0 < cap
    → needed < 2 ^ 63
    → needed ≤ cap * 2 ^ fuel
    → (k : ℕ) × (double_until fuel cap needed ≡ cap * 2 ^ k)
      × (needed ≤ cap * 2 ^ k)
      × ((j : ℕ) → needed ≤ cap * 2 ^ j → k ≤ j)
unfolding double_until
double_until_lem zero cap needed pos small enough =
    (0, omega arith, omega arith, λ j h. omega arith)
double_until_lem (suc fuel) cap needed pos small enough = elim (Bool-cases (ltb cap needed)) [
  | inl more ↦
      let word : mul_size cap 2 ≡ cap * 2 = ground arith in
      let (k, value, holds, least) =
        double_until_lem fuel (cap * 2) needed (omega arith) small
          (omega (arith, scale cap fuel)) in
      rw (more, word)
        (
          suc k,
          omega (arith, value, scale cap k),
          omega (arith, holds, scale cap k),
          least_double cap needed k (ground arith) least,
        )
  | inr done ↦ rw done (0, omega arith, ground arith, λ j h. omega arith)
]

-- buf_next_cap returns the current capacity, or 64 if that is 0, doubled as often as it takes to
-- hold `needed` bytes and no more often, for every `needed` up to 2^63.
pub buf_next_cap_least :
    (current needed : ℕ)
    → needed < 2 ^ 63
    → let start = if current == 0 then 64 else current in
      (k : ℕ) × (buf_next_cap current needed ≡ start * 2 ^ k)
      × (needed ≤ start * 2 ^ k)
      × ((j : ℕ) → needed ≤ start * 2 ^ j → k ≤ j)
unfolding buf_next_cap
buf_next_cap_least current needed small =
    let within : ltb (size_max / 2) needed ≡ false = ground arith in
    let start = if current == 0 then 64 else current in
    let pos : 0 < start = ground arith in
    rw within (double_until_lem 64 start needed pos small (omega arith))

-- A capacity that was doubled stays below twice what was needed.
doubled-lt :
    (start needed k : ℕ)
    → start < 2 ^ 63
    → needed ≤ 2 ^ 62
    → ((j : ℕ) → needed ≤ start * 2 ^ j → k ≤ j)
    → start * 2 ^ k < 2 ^ 63
doubled-lt start needed zero small bound least = omega arith
doubled-lt start needed (suc k) small bound least = elim (Bool-cases (ltb (start * 2 ^ k) needed)) [
  | inl below ↦ ground (arith, scale start k, halves k)
  | inr reached ↦ absurd (omega (arith, least k (ground arith)))
]
  where
    halves : (k : ℕ) → start * 2 * 2 ^ k ≡ start * 2 ^ k + start * 2 ^ k
    halves k = omega arith

pub buf_next_cap_bounds :
    (current needed : ℕ)
    → current < 2 ^ 63
    → needed ≤ 2 ^ 62
    → (needed ≤ buf_next_cap current needed) × (buf_next_cap current needed < 2 ^ 63)
buf_next_cap_bounds current needed word small =
    let (k, value, holds, least) = buf_next_cap_least current needed (omega arith) in
    let start = if current == 0 then 64 else current in
    let start_word : start < 2 ^ 63 = ground arith in
    (
      omega (arith, value, holds),
      omega (arith, value, doubled-lt start needed k start_word small least),
    )
