-- ===== src/P2p/Address/Tests.antt =====
-- Decoding an address on concrete input.
use x.Base.{ℕ, ◌≡◌, refl, List, [], ◌∷◌, true, some, arith, replicate}
use x.Base.Errno.{ok}
use x.P2p.Wire.{write_u16_be, write_u32_be}
use x.P2p.Attr.{Attribute}
use x.P2p.Address.{inet, unspecified, address_value, decode_address}
use x.P2p.Address.RoundTrip.{decode-encode_address}

-- 192.0.2.1, port 32853, as in RFC 5769.
abbrev masked_bytes : List ℕ
masked_bytes = 0 ∷ 1 ∷ 161 ∷ 71 ∷ 225 ∷ 18 ∷ 166 ∷ 67 ∷ []

abbrev masked : Attribute
masked = record { type = 32; len = 8; value = masked_bytes }

encoded_here :
    address_value (inet 32853 3221225985) true []
    ≡ some (0 ∷ 1 ∷ 161 ∷ 71 ∷ 225 ∷ 18 ∷ 166 ∷ 67 ∷ replicate 12 0, 8)
unfolding address_value write_u16_be write_u32_be
encoded_here = refl

decode-encode_address_example :
    decode_address (some masked) true (some []) unspecified ≡ (ok, inet 32853 3221225985)
decode-encode_address_example =
    decode-encode_address (inet 32853 3221225985) true [] masked unspecified
      (omega arith, omega arith) encoded_here refl refl
