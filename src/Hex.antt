-- ===== src/Hex.antt =====
-- libx/x/base/hex.c: bytes as hexadecimal text. A character is its code.
pub mod RoundTrip
mod Tests
use x.Base.{
  ℕ, zero, suc, ◌+◌, ◌-◌, ◌*◌, ◌/◌, ◌%◌, List, [], ◌∷◌, Bool, true, false, ◌&&◌, Option, some, none,
  ltb, leb, ◌==◌, not, if◌then◌else◌, length, get_or, set, u8, mul_size, add_size, bit_and, bit_or,
  ◌<<◌, ◌>>◌,
}

-- hex_val; -1 is `none`.
pub hex_val : ℕ → Option ℕ
hex_val c =
    if leb 48 c && leb c 57
    then some (c - 48)
    else if leb 97 c && leb c 102
    then some (c - 97 + 10)
    else if leb 65 c && leb c 70
    then some (c - 65 + 10)
    else none

-- kHexDigits
pub hex_digits : List ℕ
hex_digits = 48 ∷ 49 ∷ 50 ∷ 51 ∷ 52 ∷ 53 ∷ 54 ∷ 55 ∷ 56 ∷ 57 ∷ 97 ∷ 98 ∷ 99 ∷ 100 ∷ 101 ∷ 102 ∷ []

pub high_digit : ℕ → ℕ
high_digit b = get_or hex_digits (bit_and (b >> 4) 15) 0

pub low_digit : ℕ → ℕ
low_digit b = get_or hex_digits (bit_and b 15) 0

-- The loop of xHexEncode, from `dst[out]` on, with the terminator behind it.
pub encode_loop : List ℕ → List ℕ → ℕ → List ℕ
encode_loop [] dst out = set dst out 0
encode_loop (b ∷ src) dst out =
    encode_loop src (set (set dst out (high_digit b)) (out + 1) (low_digit b)) (out + 2)

-- xHexEncode; `none` for the source is NULL with a length that is not 0, and the answer is `none`
-- for -1, else the text and its length.
pub hex_encode : Option (List ℕ) → Option (List ℕ) → Option ℕ → Option (List ℕ × ℕ)
hex_encode src none dst_len = none
hex_encode src (some dst) none = none
hex_encode none (some dst) (some dst_len) = none
hex_encode (some src) (some dst) (some dst_len) =
    let need = mul_size (length src) 2 in
    if ltb dst_len (add_size need 1) then none else some (encode_loop src dst 0, need)

-- One round of the loop of xHexDecode: the byte of two characters.
pub hex_byte : Option ℕ → Option ℕ → Option ℕ
hex_byte none lo = none
hex_byte (some hi) none = none
hex_byte (some hi) (some lo) = some (u8 (bit_or (hi << 4) lo))

-- The loop of xHexDecode, `n` rounds from `i` on; it leaves what was decoded when it fails.
pub decode_loop : ℕ → ℕ → List ℕ → List ℕ → Bool × List ℕ
decode_loop zero i src dst = (true, dst)
decode_loop (suc n) i src dst =
    elim (hex_byte (hex_val (get_or src (i * 2) 0)) (hex_val (get_or src (i * 2 + 1) 0))) [
      | none ↦ (false, dst)
      | some b ↦ decode_loop n (i + 1) src (set dst i b)
    ]

-- xHexDecode of `src_len` characters; it answers whether it returned 0, the output and its length.
pub hex_decode : Option (List ℕ) → ℕ → Option (List ℕ) → ℕ → Bool × (Option (List ℕ) × ℕ)
hex_decode none src_len dst dst_len = (false, (dst, dst_len))
hex_decode (some src) src_len none dst_len = (false, (none, dst_len))
hex_decode (some src) src_len (some dst) dst_len =
    let need = src_len / 2 in
    let r = decode_loop need 0 src dst in
    if src_len == 0
    then (true, (some dst, 0))
    else if not (bit_and src_len 1 == 0)
    then (false, (some dst, dst_len))
    else if ltb dst_len need
    then (false, (some dst, dst_len))
    else (r.0, (some r.1, if r.0 then need else dst_len))
