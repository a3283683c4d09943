-- ===== src/P2p/Message.antt =====
-- libx/x/p2p/stun_msg.c: STUN messages to and from bytes. A buffer that has to hold `buf_len` bytes
-- is the list of those bytes; a NULL pointer is `none`.
pub mod RoundTrip
mod Tests
use x.Base.{
  ℕ, ◌+◌, ◌-◌, ◌^◌, List, [], ◌∷◌, Bool, true, false, Option, some, none, ltb, ◌==◌, not,
  if◌then◌else◌, length, get_or, drop, u16, bit_and, memcpy, slice, replicate,
}
use x.Base.Errno.{Errno, ok, invalid_arg}
use x.P2p.Wire.{read_u16_be, read_u32_be, write_u16_be, write_u32_be}

abbrev pub header_size : ℕ
header_size = 20

abbrev pub txn_id_size : ℕ
txn_id_size = 12

-- XSTUN_MAGIC_COOKIE, 0x2112A442.
abbrev pub magic_cookie : ℕ
magic_cookie = 554869826

-- struct xStunMsg; `attrs` lists the bytes from where it points on.
pub record Message : Type 0 where
  pub type : ℕ
  pub len : ℕ
  pub txn_id : List ℕ
  pub attrs : Option (List ℕ)
  pub attrs_len : ℕ

-- xStunMsgInit
pub init : ℕ → List ℕ → Message
init type txn_id = record {
  type = type;
  len = 0;
  txn_id = slice txn_id 0 txn_id_size;
  attrs = none;
  attrs_len = 0;
}

-- The last step of xStunMsgEncode: the attributes, where a pointer to them is given.
pub write_attrs : Option (List ℕ) → ℕ → List ℕ → List ℕ
write_attrs none attrs_len buf = buf
write_attrs (some attrs) attrs_len buf =
    if ltb 0 attrs_len then memcpy buf header_size (slice attrs 0 attrs_len) else buf

-- xStunMsgEncode; -1 is `none`, and the result comes with the buffer after the call.
pub encode : Option Message → Option (List ℕ) → Option (ℕ × List ℕ)
encode none buf = none
encode (some msg) none = none
encode (some msg) (some buf) =
    let total = header_size + msg.attrs_len in
    let b1 = write_u16_be buf 0 (u16 msg.type) in
    let b2 = write_u16_be b1 2 msg.attrs_len in
    let b3 = write_u32_be b2 4 magic_cookie in
    let b4 = memcpy b3 8 (slice msg.txn_id 0 txn_id_size) in
    if ltb (length buf) total then none else some (total, write_attrs msg.attrs msg.attrs_len b4)

-- xStunMsgDecode; the message after the call is returned on errors too.
pub decode : Option Message → Option (List ℕ) → Errno × Option Message
decode none buf = (invalid_arg, none)
decode (some msg) none = (invalid_arg, some msg)
decode (some msg) (some buf) =
    let len = read_u16_be buf 2 in
    let start = record msg { type = read_u16_be buf 0; len = len } in
    let done = record start {
      txn_id = slice buf 8 txn_id_size;
      attrs_len = len;
      attrs = if ltb 0 len then some (drop header_size buf) else none;
    } in
    if ltb (length buf) header_size
    then (invalid_arg, some msg)
    else if not (bit_and (get_or buf 0 0) 192 == 0)
    then (invalid_arg, some msg)
    else if not (read_u32_be buf 4 == magic_cookie)
    then (invalid_arg, some msg)
    else if ltb (length buf) (header_size + len)
    then (invalid_arg, some start)
    else (ok, some done)

-- xStunMsgIsStun
pub is_stun : Option (List ℕ) → Bool
is_stun none = false
is_stun (some buf) =
    if ltb (length buf) header_size
    then false
    else if not (bit_and (get_or buf 0 0) 192 == 0)
    then false
    else read_u32_be buf 4 == magic_cookie
