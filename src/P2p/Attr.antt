-- ===== src/P2p/Attr.antt =====
-- libx/x/p2p/stun_attr.c: writing STUN attributes into a message, and iterating over them.
pub mod RoundTrip
mod Tests
pub mod Sequence
use x.Base.{
  ℕ, suc, zero, ◌+◌, ◌-◌, List, [], ◌∷◌, ◌++◌, Bool, true, false, Option, some, none, ltb,
  if◌then◌else◌, length, drop, u8, u16, u32, add_size, ◌>>◌, ◌/◌, ◌%◌, ◌||◌, memcpy, slice,
  replicate,
}
use x.Base.Errno.{Errno, ok, invalid_arg, no_memory}
use x.P2p.Wire.{read_u16_be, write_u16_be, write_u32_be, align4}
use x.P2p.Message.{Message}

abbrev pub attr_header_size : ℕ
attr_header_size = 4

-- struct xStunAttrWriter; `buf` lists the bytes of the attribute area.
pub record Writer : Type 0 where
  pub buf : List ℕ
  pub cap : ℕ
  pub pos : ℕ

-- xStunAttrWriterInit
pub writer_init : List ℕ → ℕ → Writer
writer_init buf cap = record { buf = buf; cap = cap; pos = 0 }

-- The memcpy of attr_write_raw, where a value is given, into the bytes at `p`.
pub copy_value : Option (List ℕ) → ℕ → ℕ → List ℕ → List ℕ
copy_value none value_len p buf = buf
copy_value (some value) value_len p buf =
    if ltb 0 value_len then memcpy buf p (slice value 0 value_len) else buf

-- attr_write_raw
pub attr_write_raw : Writer → ℕ → Option (List ℕ) → ℕ → Errno × Writer
attr_write_raw w type value value_len =
    let padded = align4 value_len in
    let total = attr_header_size + padded in
    let p = w.pos in
    let b2 = write_u16_be (write_u16_be w.buf p type) (p + 2) value_len in
    let b3 = copy_value value value_len (p + attr_header_size) b2 in
    let b4 =
      if ltb value_len padded
      then memcpy b3 (p + attr_header_size + value_len) (replicate (padded - value_len) 0)
      else b3 in
    if ltb w.cap (add_size w.pos total)
    then (no_memory, w)
    else (ok, record w { buf = b4; pos = add_size w.pos total })

-- xStunAttrWritePriority, xStunAttrWriteLifetime and xStunAttrWriteRequestedTransport, by the type
-- 0x0024, 0x000D or 0x0019; the array's first contents are all written over.
pub write_word : ℕ → Writer → ℕ → Errno × Writer
write_word type w v = attr_write_raw w type (some (write_u32_be (replicate 4 0) 0 v)) 4

-- xStunAttrWriteUseCandidate, 0x0025
pub write_use_candidate : Writer → Errno × Writer
write_use_candidate w = attr_write_raw w 37 none 0

-- xStunAttrWriteIceControlling and xStunAttrWriteIceControlled, by the type 0x802A or 0x8029, with
-- xWriteU64BE of ice_private.h.
pub write_tie_breaker : ℕ → Writer → ℕ → Errno × Writer
write_tie_breaker type w tie_breaker =
    let high = write_u32_be (replicate 8 0) 0 (u32 (tie_breaker >> 32)) in
    attr_write_raw w type (some (write_u32_be high 4 (u32 tie_breaker))) 8

-- xStunAttrWriteChannelNumber, 0x000C
pub write_channel_number : Writer → ℕ → Errno × Writer
write_channel_number w channel =
    attr_write_raw w 12 (some (write_u16_be (write_u16_be (replicate 4 0) 0 channel) 2 0)) 4

-- xStunAttrWriteData, 0x0013
pub write_data : Writer → List ℕ → ℕ → Errno × Writer
write_data w bytes len = attr_write_raw w 19 (some bytes) (u16 len)

-- struct xStunAttrIter; `bytes` lists what its data pointer shows.
pub record Iter : Type 0 where
  pub bytes : List ℕ
  pub len : ℕ
  pub pos : ℕ

-- struct xStunAttr; `value` lists the bytes from where it points on.
pub record Attribute : Type 0 where
  pub type : ℕ
  pub len : ℕ
  pub value : List ℕ

-- xStunAttrIterInit; a message without attributes has length 0, and its pointer is not read.
pub iter_init : Message → Iter
iter_init msg = record {
  bytes = elim msg.attrs [ some attrs ↦ attrs | none ↦ [] ];
  len = msg.attrs_len;
  pos = 0;
}

-- xStunAttrIterNext, with the iterator and the attribute after the call.
pub iter_next : Iter → Attribute → Bool × (Iter × Attribute)
iter_next iter attr =
    let type = read_u16_be iter.bytes iter.pos in
    let len = read_u16_be iter.bytes (iter.pos + 2) in
    let start = record attr { type = type; len = len } in
    let next = add_size iter.pos (attr_header_size + align4 len) in
    if ltb iter.len (add_size iter.pos attr_header_size)
    then (false, (iter, attr))
    else if ltb iter.len (add_size (add_size iter.pos attr_header_size) len)
    then (false, (iter, start))
    else (
      true,
      (
        record iter { pos = next },
        record start { value = drop (iter.pos + attr_header_size) iter.bytes },
      ),
    )
