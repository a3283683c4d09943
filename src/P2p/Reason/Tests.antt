-- ===== src/P2p/Reason/Tests.antt =====
-- The error code 401 with a reason.
use x.Base.{◌≡◌, refl, [], ◌∷◌, some, none, arith, replicate}
use x.Base.Errno.{ok}
use x.P2p.Attr.{Writer, Attribute, attr_write_raw}
use x.P2p.Reason.{ErrorCode, error_value, write_error_code, decode_error_code}
use x.P2p.Reason.RoundTrip.{text, decode-encode_error}

abbrev area : Writer
area = record { buf = replicate 16 9; cap = 16; pos = 0 }

abbrev received : Attribute
received = record { type = 9; len = 6; value = 0 ∷ 0 ∷ 4 ∷ 1 ∷ 110 ∷ 111 ∷ [] }

abbrev unset : ErrorCode
unset = record { code = 0; reason = none; reason_len = 0 }

decode-encode_error_example :
    (write_error_code area 401 (some (110 ∷ 111 ∷ []))
      ≡ attr_write_raw area 9 (some (error_value 401 (110 ∷ 111 ∷ []))) 6)
    × (e : ErrorCode) × (decode_error_code (some received) (some unset) ≡ (ok, some e))
    × (e.code ≡ 401)
    × (text e ≡ 110 ∷ 111 ∷ [])
unfolding error_value
decode-encode_error_example =
    decode-encode_error area 401 (110 ∷ 111 ∷ []) received unset (omega arith) (omega arith)
      (omega arith) refl refl
