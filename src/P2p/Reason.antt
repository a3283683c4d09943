-- ===== src/P2p/Reason.antt =====
-- libx/x/p2p/stun_attr.c: the attributes that carry text, and error codes. A C string is the list
-- of its characters before the terminator.
pub mod RoundTrip
mod Tests
use x.Base.{
  ℕ, suc, ◌+◌, ◌-◌, ◌*◌, ◌/◌, ◌%◌, List, [], ◌∷◌, Bool, true, false, ◌||◌, Option, some, none, ltb,
  if◌then◌else◌, length, get_or, drop, set, u16, bit_and, memcpy, replicate,
}
use x.Base.Errno.{Errno, ok, invalid_arg, no_memory}
use x.P2p.Attr.{Writer, Attribute, attr_write_raw}

-- The value that xStunAttrWriteUsername builds, `remote:local`, in its array of 256 bytes.
pub username_value : List ℕ → List ℕ → List ℕ
username_value remote local =
    memcpy (set (memcpy (replicate 256 0) 0 remote) (length remote) 58) (length remote + 1) local

-- xStunAttrWriteUsername
pub write_username : Writer → Option (List ℕ) → Option (List ℕ) → Errno × Writer
write_username w none local = (invalid_arg, w)
write_username w (some remote) none = (invalid_arg, w)
write_username w (some remote) (some local) =
    let total = length remote + 1 + length local in
    if ltb 256 total
    then (no_memory, w)
    else attr_write_raw w 6 (some (username_value remote local)) (u16 total)

-- xStunAttrWriteRealm, xStunAttrWriteNonce and xStunAttrWriteSoftware, by the type 0x0014, 0x0015
-- or 0x8022
pub write_text : ℕ → Writer → Option (List ℕ) → Errno × Writer
write_text type w none = (invalid_arg, w)
write_text type w (some text) = attr_write_raw w type (some text) (u16 (length text))

-- The value that xStunAttrWriteErrorCode builds in its array of 256 bytes; what a longer reason
-- would write past the array is not kept.
pub error_value : ℕ → List ℕ → List ℕ
error_value code reason =
    memcpy (set (set (set (set (replicate 256 0) 0 0) 1 0) 2 (code / 100)) 3 (code % 100)) 4 reason

-- xStunAttrWriteErrorCode, for a code that is not negative; a negative one is refused like those
-- below 300. `none` for the reason is NULL.
pub write_error_code : Writer → ℕ → Option (List ℕ) → Errno × Writer
write_error_code w code reason =
    let text = elim reason as (λ _. List ℕ) [ some r ↦ r | none ↦ [] ] in
    let value_len = u16 (4 + length text) in
    if ltb code 300 || ltb 699 code
    then (invalid_arg, w)
    else if ltb 256 value_len
    then (no_memory, w)
    else attr_write_raw w 9 (some (error_value code text)) value_len

-- What xStunAttrDecodeErrorCode fills through its pointers; `none` for the reason is NULL.
pub record ErrorCode : Type 0 where
  pub code : ℕ
  pub reason : Option (List ℕ)
  pub reason_len : ℕ

-- xStunAttrDecodeErrorCode, called with all three pointers, or, where `none` stands for what they
-- point to, with a NULL one for the code.
pub decode_error_code : Option Attribute → Option ErrorCode → Errno × Option ErrorCode
decode_error_code none out = (invalid_arg, out)
decode_error_code (some attr) none = (invalid_arg, none)
decode_error_code (some attr) (some out) =
    let cls = bit_and (get_or attr.value 2 0) 7 in
    let num = get_or attr.value 3 0 in
    if ltb attr.len 4
    then (invalid_arg, some out)
    else if ltb 4 attr.len
    then (
      ok,
      some (record {
        code = cls * 100 + num;
        reason = some (drop 4 attr.value);
        reason_len = attr.len - 4;
      }),
    )
    else (ok, some (record { code = cls * 100 + num; reason = none; reason_len = 0 }))
