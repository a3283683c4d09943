-- ===== src/Bitmap/Bulk.antt =====
-- libx/x/base/bitmap.c: the operations on all bits.
pub mod Whole
use x.Base.{
  ℕ, zero, suc, ◌+◌, ◌-◌, ◌*◌, ◌/◌, ◌%◌, ◌^◌, ◌≤◌, ◌<◌, ◌≡◌, refl, sym, ap, ◌∙◌, inl, inr, List, [],
  ◌∷◌, Bool, true, false, ◌&&◌, ◌||◌, not, Option, some, none, arith, ltb, leb, ◌==◌, ==_iff,
  if◌then◌else◌, Bool-cases, length, get_or, replicate, u8, bit_and, ◌<<◌,
}
use x.Bitmap.{Bitmap, on_byte, byte_at, has_bit, test}
use x.Bitmap.Bits.{has_bit-zero}

-- The mask of the bits in use in the last byte.
unfoldable pub tail_mask : ℕ → ℕ
tail_mask tail = u8 ((1 << tail) - 1)

-- sanitise_tail
pub sanitise_tail : Bitmap → Bitmap
sanitise_tail bm =
    let tail = bm.nbits % 8 in
    if not (tail == 0) && ltb 0 bm.nbytes
    then record bm { bytes = on_byte (λ b. bit_and b (tail_mask tail)) bm.bytes (bm.nbytes - 1) }
    else bm

-- memset(data, v, n), for data of at least `n` bytes
pub fill_bytes : ℕ → ℕ → List ℕ → List ℕ
fill_bytes v zero bytes = bytes
fill_bytes v (suc n) [] = []
fill_bytes v (suc n) (b ∷ bytes) = v ∷ fill_bytes v n bytes

-- xBitmapSetAll
pub set_all : Option Bitmap → Option Bitmap
set_all none = none
set_all (some bm) = elim bm.bytes [
  | none ↦ some bm
  | some bytes ↦ some (sanitise_tail (record bm { bytes = some (fill_bytes 255 bm.nbytes bytes) }))
]

-- xBitmapClearAll
pub clear_all : Option Bitmap → Option Bitmap
clear_all none = none
clear_all (some bm) = elim bm.bytes [
  | none ↦ some bm
  | some bytes ↦ some (record bm { bytes = some (fill_bytes 0 bm.nbytes bytes) })
]

-- The loop of xBitmapFull and xBitmapEmpty over `n` complete bytes from `i` on.
unfoldable pub all_bytes : ℕ → ℕ → ℕ → List ℕ → Bool
all_bytes v zero i bytes = true
all_bytes v (suc n) i bytes =
    let rest = all_bytes v n (i + 1) bytes in if get_or bytes i 0 == v then rest else false

-- xBitmapFull
pub full : Option Bitmap → Bool
full none = false
full (some bm) = elim bm.bytes [
  | none ↦ false
  | some bytes ↦
      let tail = bm.nbits % 8 in
      let mask = tail_mask tail in
      if all_bytes 255 (bm.nbits / 8) 0 bytes
      then tail == 0 || bit_and (get_or bytes (bm.nbytes - 1) 0) mask == mask
      else false
]

-- xBitmapEmpty
unfoldable pub empty : Option Bitmap → Bool
empty none = true
empty (some bm) = elim bm.bytes [
  | none ↦ true
  | some bytes ↦
      let tail = bm.nbits % 8 in
      let mask = tail_mask tail in
      if all_bytes 0 (bm.nbits / 8) 0 bytes
      then tail == 0 || bit_and (get_or bytes (bm.nbytes - 1) 0) mask == 0
      else false
]
