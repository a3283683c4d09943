-- ===== src/P2p/Pair.antt =====
-- libx/x/p2p/ice_pair.c: the priority of a candidate pair, and the order by it.
mod Tests
use x.Base.{
  ℕ, zero, suc, ◌+◌, ◌-◌, ◌*◌, ◌/◌, ◌%◌, ◌^◌, ◌≤◌, ◌<◌, ◌≡◌, refl, sym, ap, ◌∙◌, ◌↔◌, inl, inr, ◌⊎◌,
  Bool, true, false, min, max, arith, ltb, leb, ◌==◌, if◌then◌else◌, Bool-cases, add_size, mul_size,
}

-- xIcePairPriority, in 64-bit arithmetic.
pub priority : ℕ → ℕ → ℕ
priority controlling_prio controlled_prio =
    let g = controlling_prio in
    let d = controlled_prio in
    let min_val = if ltb g d then g else d in
    let max_val = if ltb d g then g else d in
    add_size (add_size (mul_size (2 ^ 32) min_val) (mul_size 2 max_val)) (if ltb d g then 1 else 0)

-- What xIcePairCompare answers: -1, 0 or 1.
pub data Sign : Type 0 where
  minus_one : Sign
  zero_sign : Sign
  plus_one : Sign

-- xIcePairCompare, by the priorities of the two pairs.
pub compare_pairs : ℕ → ℕ → Sign
compare_pairs a b = if ltb b a then minus_one else if ltb a b then plus_one else zero_sign

-- The formula does not wrap for candidate priorities of 31 bits.
priority_exact :
    (g d : ℕ)
    → g < 2 ^ 31
    → d < 2 ^ 31
    → priority g d ≡ 2 ^ 32 * min g d + 2 * max g d + (if ltb d g then 1 else 0)
unfolding priority
priority_exact g d hg hd = ground arith

-- The first answer that is not 0.
abbrev pub then_by : Sign → Sign → Sign
then_by zero_sign next = next
then_by minus_one next = minus_one
then_by plus_one next = plus_one

compare_sums :
    (a b c a' b' c' : ℕ)
    → 2 * b + c < 2 ^ 32
    → 2 * b' + c' < 2 ^ 32
    → c < 2
    → c' < 2
    → compare_pairs (2 ^ 32 * a + 2 * b + c) (2 ^ 32 * a' + 2 * b' + c')
      ≡ then_by (compare_pairs a a') (then_by (compare_pairs b b') (compare_pairs c c'))
unfolding compare_pairs
compare_sums a b c a' b' c' h h' k k' = ground arith

flag-lt : (c : Bool) → (if c then 1 else 0) < 2
flag-lt true = omega arith
flag-lt false = omega arith

-- For candidate priorities of 31 bits xIcePairCompare ranks two pairs by the smaller of a pair's
-- two priorities, then by the larger, then by whether the controlling side has it: in each the
-- higher comes first.
pub compare_ranks :
    (g d g' d' : ℕ)
    → g < 2 ^ 31
    → d < 2 ^ 31
    → g' < 2 ^ 31
    → d' < 2 ^ 31
    → compare_pairs (priority g d) (priority g' d')
      ≡ then_by (compare_pairs (min g d) (min g' d')) (
          then_by
            (compare_pairs (max g d) (max g' d'))
            (compare_pairs (if ltb d g then 1 else 0) (if ltb d' g' then 1 else 0)))
compare_ranks g d g' d' hg hd hg' hd' =
    let c = flag-lt (ltb d g) in
    let c' = flag-lt (ltb d' g') in
    rw (priority_exact g d hg hd, priority_exact g' d' hg' hd')
      (compare_sums (min g d) (max g d) (if ltb d g then 1 else 0) (min g' d') (max g' d')
        (if ltb d' g' then 1 else 0) (omega arith) (omega arith) c c')

-- Two pairs of candidate priorities of 31 bits have the same pair priority only if they are the
-- same.
pub priority-injective :
    (g d g' d' : ℕ)
    → g < 2 ^ 31
    → d < 2 ^ 31
    → g' < 2 ^ 31
    → d' < 2 ^ 31
    → priority g d ≡ priority g' d'
    → (g ≡ g') × (d ≡ d')
priority-injective g d g' d' hg hd hg' hd' e =
    let sums : 2 ^ 32 * min g d + 2 * max g d + (if ltb d g then 1 else 0)
        ≡ 2 ^ 32 * min g' d' + 2 * max g' d' + (if ltb d' g' then 1 else 0) =
      sym (priority_exact g d hg hd) ∙ e ∙ priority_exact g' d' hg' hd' in
    (ground arith, ground arith)
