-- ===== src/Bitmap/Bulk/Whole.antt =====
-- What xBitmapEmpty and xBitmapFull say of the bits.
use x.Base.{
  ℕ, zero, suc, ◌+◌, ◌-◌, ◌/◌, ◌%◌, ◌≤◌, ◌<◌, ◌≡◌, refl, sym, ap, ◌∙◌, inl, inr, List, Bool, true,
  false, ◌&&◌, ◌||◌, not, some, arith, ltb, leb, ◌==◌, ==_iff, if◌then◌else◌, Bool-cases, get_or,
  bit_and, all_below, all_below_sound,
}
use x.Bitmap.{Bitmap, byte_at, has_bit, test}
use x.Bitmap.Bits.{has_bit-zero}
use x.Bitmap.Bulk.{tail_mask, all_bytes, full, empty}

-- The bitmap's bytes are just as many as its bits need.
pub record IsExact (bm : Bitmap) (bytes : List ℕ) : Type 0 where
  pub given : bm.bytes ≡ some bytes
  pub exact : bm.nbytes ≡ (bm.nbits + 7) / 8
  pub byte : (i : ℕ) → get_or bytes i 0 < 256

all_bytes_sound :
    (v n i : ℕ) (bytes : List ℕ)
    → all_bytes v n i bytes ≡ true
    → (j : ℕ) → i ≤ j
    → j < i + n
    → get_or bytes j 0 ≡ v
unfolding all_bytes
all_bytes_sound v zero i bytes e j low high = absurd (omega arith)
all_bytes_sound v (suc n) i bytes e j low high = elim (Bool-cases (get_or bytes i 0 == v)) [
  | inr other ↦ absurd (ground (arith, e))
  | inl same ↦ elim (Bool-cases (i == j)) [
    | inl here ↦
        ap (λ (k : ℕ). get_or bytes k 0) (sym ((==_iff i j).0 here))
        ∙ (==_iff (get_or bytes i 0) v).0 same
    | inr later ↦
        let rest : all_bytes v n (i + 1) bytes ≡ true = ground arith in
        all_bytes_sound v n (i + 1) bytes rest j (ground arith) (omega arith)
  ]
]

-- Of the bits under the mask, in all bytes: none is set if the byte masks to 0.
implied : Bool → Bool → Bool
implied p q = not p || q

implied_sound : (p q : Bool) → implied p q ≡ true → p ≡ true → q ≡ true
unfolding implied
implied_sound true q e h = e
implied_sound false q e h = absurd (ground arith)

clear_under : ℕ → ℕ → ℕ → Bool
clear_under b t l = implied (ltb l t && bit_and b (tail_mask t) == 0) (not (has_bit l b))

clear_table : all_below 256 (λ b. all_below 8 (λ t. all_below 8 (clear_under b t))) ≡ true
unfolding clear_under implied has_bit tail_mask
clear_table = refl

clear_bits :
    (b t l : ℕ)
    → b < 256
    → t < 8
    → l < t
    → (bit_and b (tail_mask t) == 0) ≡ true
    → has_bit l b ≡ false
unfolding clear_under
clear_bits b t l hb ht hl e =
    let row =
      all_below_sound 256 (λ b. all_below 8 (λ t. all_below 8 (clear_under b t))) clear_table b
        hb in
    let column = all_below_sound 8 (λ t. all_below 8 (clear_under b t)) row t ht in
    let cell = all_below_sound 8 (clear_under b t) column l (omega arith) in
    let below : ltb l t ≡ true = ground arith in
    let answer : not (has_bit l b) ≡ true =
      implied_sound _ (not (has_bit l b)) cell (rw (below, e) refl) in
    flip (has_bit l b) answer
  where
    flip : (c : Bool) → not c ≡ true → c ≡ false
    flip true e = sym e
    flip false e = refl

both : (p q : Bool) → (if p then q else false) ≡ true → (p ≡ true) × (q ≡ true)
both true q e = (refl, e)
both false q e = absurd (ground arith)

second : (p q : Bool) → (p || q) ≡ true → p ≡ false → q ≡ true
second true q e h = absurd (ground arith)
second false q e h = e

-- When xBitmapEmpty answers yes for a bitmap with as many bytes as its bits need, every bit tests
-- as clear.
pub empty_clear :
    {bm : Bitmap} {bytes : List ℕ} (j : ℕ)
    → IsExact bm bytes
    → empty (some bm) ≡ true
    → test (some bm) j ≡ false
unfolding empty test byte_at
empty_clear {bm} {bytes} j v e =
    let tail = bm.nbits % 8 in
    let e1 : (if all_bytes 0 (bm.nbits / 8) 0 bytes
          then tail == 0 || bit_and (get_or bytes (bm.nbytes - 1) 0) (tail_mask tail) == 0
          else false)
        ≡ true =
      rw v.given at e in
    let (whole, last) =
      both (all_bytes 0 (bm.nbits / 8) 0 bytes)
        (tail == 0 || bit_and (get_or bytes (bm.nbytes - 1) 0) (tail_mask tail) == 0) e1 in
    elim (Bool-cases (leb bm.nbits j)) [
      | inl out ↦ rw out refl
      | inr within ↦
          rw (within, v.given)
            (elim (Bool-cases (ltb (j / 8) (bm.nbits / 8))) [
              | inl complete ↦
                  rw
                    (all_bytes_sound 0 (bm.nbits / 8) 0 bytes whole (j / 8) (omega arith)
                      (ground arith))
                    (has_bit-zero (j % 8) (omega arith))
              | inr partial ↦
                  let same : j / 8 ≡ bm.nbits / 8 = ground arith in
                  let position : j % 8 < tail = ground arith in
                  let index : bm.nbytes - 1 ≡ j / 8 = omega (arith, v.exact) in
                  let some_tail : (tail == 0) ≡ false = ground arith in
                  let masked : (bit_and (get_or bytes (j / 8) 0) (tail_mask tail) == 0) ≡ true =
                    ap (λ (k : ℕ). bit_and (get_or bytes k 0) (tail_mask tail) == 0) (sym index)
                    ∙ second (tail == 0)
                        (bit_and (get_or bytes (bm.nbytes - 1) 0) (tail_mask tail) == 0) last
                        some_tail in
                  clear_bits (get_or bytes (j / 8) 0) tail (j % 8) (v.byte (j / 8)) (omega arith)
                    position masked
            ])
    ]

-- A partial last byte of zeros is not full.
zero_masked : (t : ℕ) → t < 8 → (t == 0) ≡ false → (bit_and 0 (tail_mask t) == tail_mask t) ≡ false
unfolding tail_mask implied
zero_masked t h e = flip _ (
    implied_sound (not (t == 0)) (not (bit_and 0 (tail_mask t) == tail_mask t))
      (all_below_sound 8
        (λ t. implied (not (t == 0)) (not (bit_and 0 (tail_mask t) == tail_mask t))) refl t h)
      (rw e refl))
  where
    flip : (c : Bool) → not c ≡ true → c ≡ false
    flip true e = sym e
    flip false e = refl

-- xBitmapFull answers no for a bitmap with a partial last byte whose array ends in a zero byte,
-- whatever its bits are: in an array with spare bytes it looks at the wrong one.
pub full_misses :
    (bm : Bitmap) (bytes : List ℕ)
    → bm.bytes ≡ some bytes
    → (bm.nbits % 8 == 0) ≡ false
    → get_or bytes (bm.nbytes - 1) 0 ≡ 0
    → full (some bm) ≡ false
unfolding full
full_misses bm bytes given partial spare =
    let masked = zero_masked (bm.nbits % 8) (omega arith) partial in
    rw (given, spare, partial, masked) (either_way (all_bytes 255 (bm.nbits / 8) 0 bytes))
  where
    either_way : (c : Bool) → (if c then false else false) ≡ false
    either_way true = refl
    either_way false = refl
