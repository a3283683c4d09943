-- ===== src/Hex/Tests.antt =====
-- Runs of the hexadecimal codec on concrete input.
use x.Base.{ℕ, ◌≡◌, refl, List, [], ◌∷◌, true, false, some, arith, slice, replicate}
use x.Hex.{
  hex_encode, hex_decode, hex_digits, hex_val, high_digit, low_digit, encode_loop, decode_loop,
  hex_byte,
}
use x.Hex.RoundTrip.{decode-encode_hex}

-- The text of 0xAF, 0x01, and a text with a letter that is no digit.
encoded_here :
    hex_encode (some (175 ∷ 1 ∷ [])) (some (replicate 6 9)) (some 6)
    ≡ some (97 ∷ 102 ∷ 48 ∷ 49 ∷ 0 ∷ 9 ∷ [], 4)
unfolding hex_encode encode_loop high_digit low_digit hex_digits
encoded_here = refl

refused_here :
    hex_decode (some (65 ∷ 70 ∷ 48 ∷ 71 ∷ [])) 4 (some (8 ∷ 8 ∷ [])) 2
    ≡ (false, (some (175 ∷ 8 ∷ []), 2))
unfolding hex_decode decode_loop hex_val hex_byte
refused_here = refl

decode-encode_hex_example :
    (text : List ℕ) × (o : List ℕ) × (hex_encode
        (some (175 ∷ 1 ∷ []))
        (some (replicate 6 9))
        (some 6)
      ≡ some (text, 4))
    × (hex_decode (some text) 4 (some (replicate 3 9)) 3 ≡ (true, (some o, 2)))
    × (slice o 0 2 ≡ 175 ∷ 1 ∷ [])
decode-encode_hex_example =
    decode-encode_hex (175 ∷ 1 ∷ []) (replicate 6 9) (replicate 3 9) 6 3
      (omega arith, (omega arith, tt)) (omega arith) (omega arith) (omega arith) (omega arith)
      (omega arith)
