-- ===== src/Ring/Bounds.antt =====
-- The representation invariant of the ring, and what it makes of the word arithmetic.
use native.Mathlib.Nat.{mod-lt}
use x.Base.{
  ℕ, ◌+◌, ◌-◌, ◌%◌, ◌^◌, ◌≤◌, ◌<◌, ◌≡◌, sym, ap, ◌∙◌, List, arith, bit_and, length, size_mod,
  sub_size, bit_and-mask, pow_mono, pow-pos, mod-mod_pow,
}
use x.Ring.{Ring}
use x.Ring.Cyclic.{gather}

pub record IsValid (r : Ring) : Type 0 where
  pub level : ℕ
  pub word : level ≤ 63
  pub power : r.cap ≡ 2 ^ level
  pub masked : r.mask ≡ r.cap - 1
  pub room : length r.bytes ≡ r.cap
  pub head_word : r.head < size_mod
  pub tail_word : r.tail < size_mod
  pub bounded : sub_size r.head r.tail ≤ r.cap

-- The number of unread bytes.
abbrev pub used : Ring → ℕ
used r = sub_size r.head r.tail

-- The unread bytes, oldest first.
abbrev pub contents : Ring → List ℕ
contents r = gather r.bytes r.cap r.tail (used r)

module _ {r : Ring} (v : IsValid r) where
  pub cap_pos : 0 < r.cap
  cap_pos = omega (arith, v.power, pow-pos v.level)

  pub cap_word : r.cap ≤ 2 ^ 63
  cap_word = omega (arith, v.power, pow_mono v.level 63 v.word)

  -- A masked cursor is a slot.
  pub slot : (x : ℕ) → bit_and x r.mask ≡ x % r.cap
  slot x =
      ap (bit_and x) (v.masked ∙ ap (λ (c : ℕ). c - 1) v.power)
      ∙ bit_and-mask v.level x
      ∙ ap (λ (c : ℕ). x % c) (sym v.power)

  -- A cursor that wraps at 2^64 keeps its slot.
  pub slot_wrap : (x : ℕ) → x % size_mod % r.cap ≡ x % r.cap
  slot_wrap x =
      ap (λ (c : ℕ). x % size_mod % c) v.power
      ∙ mod-mod_pow x v.level 64 (omega (arith, v.word))
      ∙ ap (λ (c : ℕ). x % c) (sym v.power)

  pub slot-lt : (x : ℕ) → x % r.cap < r.cap
  slot-lt x = mod-lt x cap_pos

  -- The write cursor is `used` bytes past the read cursor.
  pub head_slot : r.head % r.cap ≡ (r.tail + used r) % r.cap
  head_slot = ap (λ (t : ℕ). t % r.cap) wrapped ∙ slot_wrap (r.tail + used r)
    where
      wrapped : r.head ≡ (r.tail + used r) % size_mod
      wrapped = omega (arith, v.head_word, v.tail_word)
