-- ===== src/P2p/Reason/RoundTrip.antt =====
-- Decoding an error code that was encoded.
use x.Base.{
  ℕ, ◌+◌, ◌-◌, ◌/◌, ◌%◌, ◌≤◌, ◌≡◌, refl, ap, ◌∙◌, List, [], ◌∷◌, true, false, some, none, arith,
  ltb, length, get_or, drop, set, replicate, bit_and, bit_and-mask, get_or-memcpy, slice,
  slice-drop, slice-memcpy, u16,
}
use x.Base.Errno.{ok}
use x.P2p.Attr.{Writer, Attribute, attr_write_raw}
use x.P2p.Address.Values.{agree, slice-Agree}
use x.P2p.Reason.{ErrorCode, error_value, write_error_code, decode_error_code}

-- The text that a reason pointer and its length show.
abbrev pub text : ErrorCode → List ℕ
text e = elim e.reason [ some r ↦ slice r 0 e.reason_len | none ↦ [] ]

error_bytes :
    (code : ℕ) (reason : List ℕ)
    → length reason ≤ 252
    → (get_or (error_value code reason) 2 0 ≡ code / 100)
      × (get_or (error_value code reason) 3 0 ≡ code % 100)
      × (slice (error_value code reason) 4 (length reason) ≡ reason)
unfolding error_value
error_bytes code reason short =
    let start : List ℕ =
      set (set (set (set (replicate 256 0) 0 0) 1 0) 2 (code / 100)) 3 (code % 100) in
    (
      get_or-memcpy start 4 reason 2 (omega arith) (omega arith),
      get_or-memcpy start 4 reason 3 (omega arith) (omega arith),
      slice-memcpy start 4 reason (omega arith),
    )

written :
    (w : Writer) (code : ℕ) (reason : List ℕ)
    → 300 ≤ code
    → code ≤ 699
    → length reason ≤ 252
    → write_error_code w code (some reason)
      ≡ attr_write_raw w 9 (some (error_value code reason)) (4 + length reason)
unfolding write_error_code
written w code reason low high short =
    let size : u16 (4 + length reason) ≡ 4 + length reason = omega arith in
    let above : ltb code 300 ≡ false = ground arith in
    let below : ltb 699 code ≡ false = ground arith in
    let fits : ltb 256 (4 + length reason) ≡ false = ground arith in
    rw (size, above, below, fits) refl

decoded :
    (code : ℕ) (reason : List ℕ) (attr : Attribute) (out : ErrorCode)
    → 300 ≤ code
    → code ≤ 699
    → length reason ≤ 252
    → attr.len ≡ 4 + length reason
    → get_or attr.value 2 0 ≡ code / 100
    → get_or attr.value 3 0 ≡ code % 100
    → slice attr.value 4 (length reason) ≡ reason
    → (e : ErrorCode) × (decode_error_code (some attr) (some out) ≡ (ok, some e))
      × (e.code ≡ code)
      × (text e ≡ reason)
unfolding decode_error_code
decoded code [] attr out low high short len class number rest =
    let small : ltb (attr.len) 4 ≡ false = ground arith in
    let just : ltb 4 attr.len ≡ false = ground arith in
    let value : bit_and (code / 100) 7 ≡ code / 100 % 8 = bit_and-mask 3 (code / 100) in
    rw (small, just) (_, refl, rw (class, number, value) (omega arith), refl)
decoded code (b ∷ reason) attr out low high short len class number rest =
    let small : ltb (attr.len) 4 ≡ false = ground arith in
    let more : ltb 4 attr.len ≡ true = ground arith in
    let value : bit_and (code / 100) 7 ≡ code / 100 % 8 = bit_and-mask 3 (code / 100) in
    let left : attr.len - 4 ≡ length (b ∷ reason) = omega arith in
    rw (small, more)
      (
        _,
        refl,
        rw (class, number, value) (omega arith),
        ap (λ (n : ℕ). slice (drop 4 attr.value) 0 n) left
            ∙ slice-drop attr.value 4 0 (length (b ∷ reason))
            ∙ rest,
      )

-- xStunAttrWriteErrorCode writes an attribute for a code from 300 to 699 with a reason of at most
-- 252 bytes, and decoding an attribute with its length and bytes gets the code and the reason back.
pub decode-encode_error :
    (w : Writer) (code : ℕ) (reason : List ℕ) (attr : Attribute) (out : ErrorCode)
    → 300 ≤ code
    → code ≤ 699
    → length reason ≤ 252
    → attr.len ≡ 4 + length reason
    → slice attr.value 0 (4 + length reason) ≡ slice (error_value code reason) 0 (4 + length reason)
    → (write_error_code w code (some reason)
        ≡ attr_write_raw w 9 (some (error_value code reason)) (4 + length reason))
      × (e : ErrorCode) × (decode_error_code (some attr) (some out) ≡ (ok, some e))
      × (e.code ≡ code)
      × (text e ≡ reason)
decode-encode_error w code reason attr out low high short len bytes =
    let same = agree (4 + length reason) attr.value (error_value code reason) bytes in
    let (class, number, rest) = error_bytes code reason short in
    let (e, done, same_code, same_text) =
      decoded code reason attr out low high short len (same.at 2 (omega arith) ∙ class)
        (same.at 3 (omega arith) ∙ number)
        (slice-Agree 4 (length reason) same (omega arith) ∙ rest) in
    (written w code reason low high short, e, done, same_code, same_text)
