-- ===== src/Bitmap/Ops.antt =====
-- The single-bit operations against the set of bits.
use x.Base.{
  ℕ, zero, suc, ◌+◌, ◌*◌, ◌/◌, ◌%◌, ◌^◌, ◌≤◌, ◌<◌, ◌≡◌, refl, inl, inr, List, Bool, true, false,
  not, some, arith, leb, ◌==◌, ==_iff, if◌then◌else◌, Bool-cases, length, get_or, set, get_or-set,
  replicate, length-replicate, u32,
}
use x.Base.Errno.{ok}
use x.Bitmap.{
  Bitmap, bits_to_bytes, init, on_byte, byte_at, with_bit, without_bit, with_bit_toggled, set_bit,
  clear_bit, toggle_bit, has_bit, test,
}
use x.Bitmap.Bits.{has_bit-zero, has_bit-with_bit, has_bit-without_bit, has_bit-with_bit_toggled}

-- A bitmap with enough bytes for its bits.
pub record IsValid (bm : Bitmap) (bytes : List ℕ) : Type 0 where
  pub given : bm.bytes ≡ some bytes
  pub enough : bm.nbits ≤ 8 * length bytes
  pub byte : (i : ℕ) → get_or bytes i 0 < 256

-- Bit `j` after byte `i / 8` was changed by `f`, which changes bit `i % 8` by `g`.
changed :
    (f : ℕ → ℕ) (g : Bool → Bool) (bytes : List ℕ) (i j : ℕ)
    → ((b l : ℕ)
        → b < 256
        → l < 8
        → has_bit l (f b) ≡ (if i % 8 == l then g (has_bit l b) else has_bit l b))
    → ((i : ℕ) → get_or bytes i 0 < 256)
    → i / 8 < length bytes
    → has_bit (j % 8) (get_or (set bytes (i / 8) (f (get_or bytes (i / 8) 0))) (j / 8) 0) ≡ (
        if i == j
        then g (has_bit (j % 8) (get_or bytes (j / 8) 0))
        else has_bit (j % 8) (get_or bytes (j / 8) 0))
changed f g bytes i j h byte fits =
    rw (get_or-set bytes (i / 8) (j / 8) (f (get_or bytes (i / 8) 0)) 0 fits)
      (elim (Bool-cases (i / 8 == j / 8)) [
        | inl here ↦
            let same : i / 8 ≡ j / 8 = (==_iff (i / 8) (j / 8)).0 here in
            let bit : (i % 8 == j % 8) ≡ (i == j) = ground arith in
            rw (here, same, h (get_or bytes (j / 8) 0) (j % 8) (byte (j / 8)) (omega arith), bit)
              refl
        | inr elsewhere ↦ let other : (i == j) ≡ false = ground arith in rw (elsewhere, other) refl
      ])

-- A test of bit `j` after an operation on bit `i`.
tested :
    {bm : Bitmap} {bytes : List ℕ} (f : ℕ → ℕ) (g : Bool → Bool) (i j : ℕ)
    → IsValid bm bytes
    → ((b l : ℕ)
        → b < 256
        → l < 8
        → has_bit l (f b) ≡ (if i % 8 == l then g (has_bit l b) else has_bit l b))
    → test
        (if leb bm.nbits i
          then some bm
          else some (record bm { bytes = on_byte f bm.bytes (i / 8) }))
        j
      ≡ (if leb bm.nbits j
          then false
          else if i == j
          then g (test (some bm) j)
          else test (some bm) j)
unfolding test on_byte byte_at
tested {bm} {bytes} f g i j v h = elim (Bool-cases (leb bm.nbits j)) [
  | inl out ↦ elim (Bool-cases (leb bm.nbits i)) [
    | inl outside ↦ rw (outside, out) refl
    | inr inside ↦ rw (inside, out) refl
  ]
  | inr within ↦ elim (Bool-cases (leb bm.nbits i)) [
    | inl outside ↦ let other : (i == j) ≡ false = ground arith in rw (outside, within, other) refl
    | inr inside ↦
        let fits : i / 8 < length bytes = ground (arith, v.enough) in
        rw (inside, within, v.given) (changed f g bytes i j h v.byte fits)
  ]
]

-- After a set, clear or toggle of bit `i` of a valid bitmap, bit `j` tests as set, as clear, or as
-- the opposite of before if `j` is `i`, and as before if it is not; a bit out of range tests as
-- clear throughout.
pub ops_correct :
    {bm : Bitmap} {bytes : List ℕ} (i j : ℕ)
    → IsValid bm bytes
    → (test (set_bit (some bm) i) j
        ≡ (if leb bm.nbits j then false else if i == j then true else test (some bm) j))
      × (test (clear_bit (some bm) i) j
          ≡ (if leb bm.nbits j then false else if i == j then false else test (some bm) j))
      × (test (toggle_bit (some bm) i) j ≡ (
          if leb bm.nbits j
          then false
          else if i == j
          then not (test (some bm) j)
          else test (some bm) j))
unfolding set_bit clear_bit toggle_bit
ops_correct i j v = (
  tested (with_bit (i % 8)) (λ _. true) i j v
      (λ b l hb hl. has_bit-with_bit b (i % 8) l hb (omega arith) hl),
  tested (without_bit (i % 8)) (λ _. false) i j v
      (λ b l hb hl. has_bit-without_bit b (i % 8) l hb (omega arith) hl),
  tested (with_bit_toggled (i % 8)) not i j v
      (λ b l hb hl. has_bit-with_bit_toggled b (i % 8) l hb (omega arith) hl),
)

get_or-zeros : (n i : ℕ) → get_or (replicate {A = ℕ} n 0) i 0 ≡ 0
get_or-zeros zero i = refl
get_or-zeros (suc n) zero = refl
get_or-zeros (suc n) (suc i) = get_or-zeros n i

-- xBitmapInit of between 1 and 2^32 - 8 bits, once the allocator grants the bytes, makes a valid
-- bitmap of that many bits, each of which tests as clear.
pub init_clear :
    (calloc : ℕ → Bool) (bm : Bitmap) (nbits j : ℕ)
    → 0 < nbits
    → nbits + 7 < 2 ^ 32
    → calloc ((nbits + 7) / 8) ≡ true
    → (new : Bitmap) × (init calloc (some bm) nbits ≡ (ok, some new))
      × (new.nbits ≡ nbits)
      × IsValid new (replicate ((nbits + 7) / 8) 0)
      × (test (some new) j ≡ false)
unfolding init bits_to_bytes test byte_at
init_clear calloc bm nbits j some_bits word granted =
    let positive : (nbits == 0) ≡ false = ground arith in
    let bytes : u32 (nbits + 7) / 8 ≡ (nbits + 7) / 8 = omega arith in
    let n = (nbits + 7) / 8 in
    rw (positive, bytes, granted)
      (
        _,
        refl,
        refl,
        record {
          given = refl;
          enough = omega (arith, length-replicate {A = ℕ} n 0);
          byte = λ i. omega (arith, get_or-zeros n i);
        },
        elim (Bool-cases (leb nbits j)) [
          | inl out ↦ rw out refl
          | inr within ↦ rw (within, get_or-zeros n (j / 8)) (has_bit-zero (j % 8) (omega arith))
        ],
      )
