-- ===== src/Bitmap.antt =====
-- libx/x/base/bitmap.c: a bitmap over an array of bytes.
pub mod Bits
pub mod Ops
pub mod Bulk
mod Tests
use x.Base.{
  ℕ, zero, suc, ◌+◌, ◌-◌, ◌*◌, ◌/◌, ◌%◌, ◌^◌, List, [], ◌∷◌, Bool, true, false, ◌||◌, Option, some,
  none, ltb, leb, ◌==◌, not, if◌then◌else◌, length, get_or, set, replicate, u8, u32, bit_and,
  bit_or, bit_xor, ◌<<◌,
}
use x.Base.Errno.{Errno, ok, invalid_arg, no_memory}

-- struct xBitmap; `none` for the data is NULL.
pub record Bitmap : Type 0 where
  pub bytes : Option (List ℕ)
  pub nbits : ℕ
  pub nbytes : ℕ
  pub owned : Bool

pub bits_to_bytes : ℕ → ℕ
bits_to_bytes nbits = u32 (nbits + 7) / 8

-- xBitmapInit; `calloc` tells whether a block of a size is granted.
pub init : (ℕ → Bool) → Option Bitmap → ℕ → Errno × Option Bitmap
init calloc none nbits = (invalid_arg, none)
init calloc (some bm) nbits =
    let nbytes = bits_to_bytes nbits in
    if nbits == 0
    then (invalid_arg, some bm)
    else if calloc nbytes
    then (
      ok,
      some (record {
        bytes = some (replicate nbytes 0);
        nbits = nbits;
        nbytes = nbytes;
        owned = true;
      }),
    )
    else (no_memory, some bm)

-- xBitmapInitStatic
pub init_static : Option Bitmap → Option (List ℕ) → ℕ → ℕ → Errno × Option Bitmap
init_static none bytes nbytes nbits = (invalid_arg, none)
init_static (some bm) none nbytes nbits = (invalid_arg, some bm)
init_static (some bm) (some bytes) nbytes nbits =
    if nbits == 0
    then (invalid_arg, some bm)
    else if ltb nbytes (bits_to_bytes nbits)
    then (invalid_arg, some bm)
    else (ok, some (record { bytes = some bytes; nbits = nbits; nbytes = nbytes; owned = false }))

-- xBitmapFree, less the release of the block
pub free : Option Bitmap → Option Bitmap
free none = none
free (some bm) = some (record { bytes = none; nbits = 0; nbytes = 0; owned = false })

-- The byte at an index, changed.
pub on_byte : (ℕ → ℕ) → Option (List ℕ) → ℕ → Option (List ℕ)
on_byte f none i = none
on_byte f (some bytes) i = some (set bytes i (f (get_or bytes i 0)))

-- What the three assignments store in a byte for bit `k`.
pub with_bit : ℕ → ℕ → ℕ
with_bit k b = u8 (bit_or b (u8 (1 << k)))

pub without_bit : ℕ → ℕ → ℕ
without_bit k b = u8 (bit_and b (u8 (bit_xor (1 << k) (2 ^ 32 - 1))))

pub with_bit_toggled : ℕ → ℕ → ℕ
with_bit_toggled k b = u8 (bit_xor b (u8 (1 << k)))

-- xBitmapSet
pub set_bit : Option Bitmap → ℕ → Option Bitmap
set_bit none i = none
set_bit (some bm) i =
    if leb bm.nbits i
    then some bm
    else some (record bm { bytes = on_byte (with_bit (i % 8)) bm.bytes (i / 8) })

-- xBitmapClear
pub clear_bit : Option Bitmap → ℕ → Option Bitmap
clear_bit none i = none
clear_bit (some bm) i =
    if leb bm.nbits i
    then some bm
    else some (record bm { bytes = on_byte (without_bit (i % 8)) bm.bytes (i / 8) })

-- xBitmapToggle
pub toggle_bit : Option Bitmap → ℕ → Option Bitmap
toggle_bit none i = none
toggle_bit (some bm) i =
    if leb bm.nbits i
    then some bm
    else some (record bm { bytes = on_byte (with_bit_toggled (i % 8)) bm.bytes (i / 8) })

-- Bit `k` of a byte, as xBitmapTest reads it.
pub has_bit : ℕ → ℕ → Bool
has_bit k b = not (bit_and b (1 << k) == 0)

-- data[i], for data that is not NULL
pub byte_at : Option (List ℕ) → ℕ → ℕ
byte_at none i = 0
byte_at (some bytes) i = get_or bytes i 0

-- xBitmapTest
pub test : Option Bitmap → ℕ → Bool
test none i = false
test (some bm) i = if leb bm.nbits i then false else has_bit (i % 8) (byte_at bm.bytes (i / 8))
