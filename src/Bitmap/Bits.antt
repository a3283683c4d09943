-- ===== src/Bitmap/Bits.antt =====
-- What the three assignments do to each bit of a byte: all bytes and bits are tried.
use x.Base.{
  ℕ, ◌<◌, ◌≡◌, refl, sym, Bool, true, false, not, ◌==◌, if◌then◌else◌, all_below, all_below_sound,
}
use x.Bitmap.{with_bit, without_bit, with_bit_toggled, has_bit}

agree : Bool → Bool → Bool
agree true c = c
agree false c = not c

agree_sound : (p q : Bool) → agree p q ≡ true → p ≡ q
unfolding agree
agree_sound true q e = sym e
agree_sound false true e = e
agree_sound false false e = refl

module _ (f : ℕ → ℕ → ℕ) (g : Bool → Bool) where
  -- `f` changes bit `k` by `g` and leaves the others.
  changes : ℕ → ℕ → ℕ → Bool
  changes b k l = agree (has_bit l (f k b)) (if k == l then g (has_bit l b) else has_bit l b)

  everywhere : Bool
  everywhere = all_below 256 (λ b. all_below 8 (λ k. all_below 8 (changes b k)))

  from_table :
      everywhere ≡ true
      → (b k l : ℕ) → b < 256
      → k < 8
      → l < 8
      → has_bit l (f k b) ≡ (if k == l then g (has_bit l b) else has_bit l b)
  unfolding everywhere changes
  from_table e b k l hb hk hl =
      let row = all_below_sound 256 (λ b. all_below 8 (λ k. all_below 8 (changes b k))) e b hb in
      let column = all_below_sound 8 (λ k. all_below 8 (changes b k)) row k hk in
      agree_sound (has_bit l (f k b)) (if k == l then g (has_bit l b) else has_bit l b)
        (all_below_sound 8 (changes b k) column l hl)

set_table : everywhere with_bit (λ _. true) ≡ true
unfolding everywhere changes agree has_bit with_bit
set_table = refl

clear_table : everywhere without_bit (λ _. false) ≡ true
unfolding everywhere changes agree has_bit without_bit
clear_table = refl

toggle_table : everywhere with_bit_toggled not ≡ true
unfolding everywhere changes agree has_bit with_bit_toggled
toggle_table = refl

pub has_bit-with_bit :
    (b k l : ℕ)
    → b < 256
    → k < 8
    → l < 8
    → has_bit l (with_bit k b) ≡ (if k == l then true else has_bit l b)
has_bit-with_bit = from_table with_bit (λ _. true) set_table

pub has_bit-without_bit :
    (b k l : ℕ)
    → b < 256
    → k < 8
    → l < 8
    → has_bit l (without_bit k b) ≡ (if k == l then false else has_bit l b)
has_bit-without_bit = from_table without_bit (λ _. false) clear_table

pub has_bit-with_bit_toggled :
    (b k l : ℕ)
    → b < 256
    → k < 8
    → l < 8
    → has_bit l (with_bit_toggled k b) ≡ (if k == l then not (has_bit l b) else has_bit l b)
has_bit-with_bit_toggled = from_table with_bit_toggled not toggle_table

-- No bit of a zero byte is set.
pub has_bit-zero : (k : ℕ) → k < 8 → has_bit k 0 ≡ false
unfolding has_bit agree
has_bit-zero k h =
    agree_sound (has_bit k 0) false (all_below_sound 8 (λ k. agree (has_bit k 0) false) refl k h)
