-- ===== src/P2p/Message/RoundTrip.antt =====
-- Decoding what was encoded, and what decoding accepts.
use x.Base.{
  ℕ, zero, suc, ◌+◌, ◌/◌, ◌^◌, ◌≤◌, ◌<◌, ◌≡◌, refl, sym, ap, ◌∙◌, inl, inr, List, [], ◌∷◌, Bool,
  true, false, Option, some, none, arith, ltb, leb, ◌==◌, ==_iff, ◌&&◌, not, if◌then◌else◌,
  Bool-cases, all_below_sound, length, get_or, drop, u8, u16, ◌>>◌, bit_and, memcpy, length-memcpy,
  get_or-memcpy, slice, length-slice, slice-memcpy, slice-memcpy_before, slice-drop, slice-eq-take,
  take-all,
}
use x.Base.Errno.{Errno, ok, invalid_arg}
use x.P2p.Wire.{
  read_u16_be, read_u32_be, write_u16_be, write_u32_be, get_or-memcpy_at, read-write_u16,
  read-write_u32, read_u16-memcpy, read_u32-memcpy,
}
use x.P2p.Message.{
  Message, header_size, txn_id_size, magic_cookie, write_attrs, encode, decode, is_stun,
}

-- The attribute bytes of a message.
abbrev pub bytes_at : Option (List ℕ) → ℕ → List ℕ
bytes_at none n = []
bytes_at (some attrs) n = slice attrs 0 n

abbrev pub payload : Message → List ℕ
payload msg = bytes_at msg.attrs msg.attrs_len

-- A message that can be sent: a type with the two highest bits clear, and attributes where a length
-- is given.
pub record IsValid (msg : Message) : Type 0 where
  pub type_word : msg.type < 2 ^ 14
  pub len_word : msg.attrs_len < 2 ^ 16
  pub id : length msg.txn_id ≡ txn_id_size
  pub given : length (payload msg) ≡ msg.attrs_len

-- The two highest bits of a byte are clear when it is below 64.
high_bits : (b : ℕ) → b < 256 → (bit_and b 192 == 0) ≡ ltb b 64
high_bits b h =
    same (bit_and b 192 == 0) (ltb b 64)
      (all_below_sound 256 (λ b. agree (bit_and b 192 == 0) (ltb b 64)) refl b h)
  where
    agree : Bool → Bool → Bool
    agree true c = c
    agree false c = not c

    same : (p q : Bool) → agree p q ≡ true → p ≡ q
    same true q e = sym e
    same false true e = e
    same false false e = refl

slice_all : (xs : List ℕ) (n : ℕ) → length xs ≡ n → slice xs 0 n ≡ xs
slice_all xs n e = slice-eq-take xs n (omega arith) ∙ take-all n xs (omega arith)

write_attrs_lem :
    (attrs : Option (List ℕ)) (n : ℕ) (buf : List ℕ)
    → write_attrs attrs n buf ≡ memcpy buf header_size (bytes_at attrs n)
unfolding write_attrs
write_attrs_lem none n buf = refl
write_attrs_lem (some attrs) zero buf = refl
write_attrs_lem (some attrs) (suc n) buf =
    let positive : ltb 0 (suc n) ≡ true = ground arith in rw positive refl

-- What a buffer holds once a message is encoded into it.
record Holds (msg : Message) (buf : List ℕ) : Type 0 where
  first : get_or buf 0 0 ≡ msg.type / 2 ^ 8
  type : read_u16_be buf 0 ≡ msg.type
  len : read_u16_be buf 2 ≡ msg.attrs_len
  cookie : read_u32_be buf 4 ≡ magic_cookie
  id : slice buf 8 txn_id_size ≡ msg.txn_id
  attrs : slice buf header_size msg.attrs_len ≡ payload msg

written :
    (msg : Message) (buf : List ℕ)
    → IsValid msg
    → header_size + msg.attrs_len ≤ length buf
    → let b2 = write_u16_be (write_u16_be buf 0 (u16 msg.type)) 2 msg.attrs_len in
      let b3 = write_u32_be b2 4 magic_cookie in
      let b4 = memcpy b3 8 (slice msg.txn_id 0 txn_id_size) in
      let b5 = memcpy b4 header_size (payload msg) in (length b5 ≡ length buf) × Holds msg b5
unfolding write_u16_be write_u32_be
written msg buf v fits =
    let t = u16 msg.type in
    let same_type : t ≡ msg.type = omega (arith, v.type_word) in
    let word1 = u8 (t >> 8) ∷ u8 t ∷ [] in
    let word2 = u8 (msg.attrs_len >> 8) ∷ u8 msg.attrs_len ∷ [] in
    let b1 = memcpy buf 0 word1 in
    let b2 = memcpy b1 2 word2 in
    let word3 =
      u8 (magic_cookie >> 24)
      ∷ u8 (magic_cookie >> 16)
      ∷ u8 (magic_cookie >> 8)
      ∷ u8 magic_cookie
      ∷ [] in
    let b3 = memcpy b2 4 word3 in
    let id = slice msg.txn_id 0 txn_id_size in
    let b4 = memcpy b3 8 id in
    let n1 = length-memcpy buf 0 word1 in
    let n2 = length-memcpy b1 2 word2 in
    let n3 = length-memcpy b2 4 word3 in
    let n4 = length-memcpy b3 8 id in
    let n5 = length-memcpy b4 header_size (payload msg) in
    let ni = length-slice msg.txn_id 0 txn_id_size in
    let f2 : 2 + length word2 ≤ length b1 = omega (arith, n1) in
    let f3 : 4 + length word3 ≤ length b2 = omega (arith, n1, n2) in
    let f4 : 8 + length id ≤ length b3 = omega (arith, n1, n2, n3, ni) in
    let f5 : header_size + length (payload msg) ≤ length b4 =
      omega (arith, n1, n2, n3, n4, v.given) in
    (
      n5 ∙ n4 ∙ n3 ∙ n2 ∙ n1,
      record {
        first =
            get_or-memcpy b4 header_size (payload msg) 0 f5 (omega arith)
            ∙ get_or-memcpy b3 8 id 0 f4 (omega arith)
            ∙ get_or-memcpy b2 4 word3 0 f3 (omega arith)
            ∙ get_or-memcpy b1 2 word2 0 f2 (omega arith)
            ∙ get_or-memcpy_at buf 0 word1 0 (omega arith) (omega arith)
            ∙ omega (arith, v.type_word);
        type =
            read_u16-memcpy b4 header_size (payload msg) 0 f5 (omega arith)
            ∙ read_u16-memcpy b3 8 id 0 f4 (omega arith)
            ∙ read_u16-memcpy b2 4 word3 0 f3 (omega arith)
            ∙ read_u16-memcpy b1 2 word2 0 f2 (omega arith)
            ∙ read-write_u16 buf 0 t (omega arith) (omega arith)
            ∙ same_type;
        len =
            read_u16-memcpy b4 header_size (payload msg) 2 f5 (omega arith)
            ∙ read_u16-memcpy b3 8 id 2 f4 (omega arith)
            ∙ read_u16-memcpy b2 4 word3 2 f3 (omega arith)
            ∙ read-write_u16 b1 2 msg.attrs_len f2 v.len_word;
        cookie =
            read_u32-memcpy b4 header_size (payload msg) 4 f5 (omega arith)
            ∙ read_u32-memcpy b3 8 id 4 f4 (omega arith)
            ∙ read-write_u32 b2 4 magic_cookie f3 (omega arith);
        id =
            slice-memcpy_before b4 header_size (payload msg) 8 txn_id_size f5 (omega arith)
            ∙ ap (slice b4 8) (sym ni)
            ∙ slice-memcpy b3 8 id f4
            ∙ slice_all msg.txn_id txn_id_size v.id;
        attrs =
            ap (slice (memcpy b4 header_size (payload msg)) header_size) (sym v.given)
            ∙ slice-memcpy b4 header_size (payload msg) f5;
      },
    )

-- The pointer that decoding leaves reads the attributes behind the header.
attrs_behind :
    (buf : List ℕ) (n : ℕ)
    → bytes_at (if ltb 0 n then some (drop header_size buf) else none) n ≡ slice buf header_size n
attrs_behind buf zero = refl
attrs_behind buf (suc n) =
    let positive : ltb 0 (suc n) ≡ true = ground arith in
    rw positive (slice-drop buf header_size 0 (suc n))

decode_held :
    (msg m0 : Message) (buf : List ℕ)
    → IsValid msg
    → header_size + msg.attrs_len ≤ length buf
    → Holds msg buf
    → (m : Message) × (decode (some m0) (some buf) ≡ (ok, some m))
      × (m.type ≡ msg.type)
      × (m.txn_id ≡ msg.txn_id)
      × (m.len ≡ msg.attrs_len)
      × (m.attrs_len ≡ msg.attrs_len)
      × (payload m ≡ payload msg)
unfolding decode
decode_held msg m0 buf v fits held =
    let long : ltb (length buf) header_size ≡ false = ground arith in
    let high : (bit_and (get_or buf 0 0) 192 == 0) ≡ true =
      high_bits (get_or buf 0 0) (omega (arith, held.first, v.type_word))
      ∙ ground (arith, held.first, v.type_word) in
    let cookie : (read_u32_be buf 4 == magic_cookie) ≡ true =
      (==_iff (read_u32_be buf 4) magic_cookie).1 held.cookie in
    let room : ltb (length buf) (header_size + read_u16_be buf 2) ≡ false =
      ground (arith, held.len) in
    rw (long, high, cookie, room)
      (
        _,
        refl,
        held.type,
        held.id,
        held.len,
        held.len,
        attrs_behind buf (read_u16_be buf 2) ∙ ap (slice buf header_size) held.len ∙ held.attrs,
      )

-- Decoding what xStunMsgEncode wrote, for a message whose attributes fit the buffer: the encoder
-- writes the header and the attributes and reports their size, and xStunMsgDecode gets back the
-- type, the transaction and the attributes, whatever stood in the message it fills.
pub decode-encode_message :
    (msg m0 : Message) (buf : List ℕ)
    → IsValid msg
    → header_size + msg.attrs_len ≤ length buf
    → (out : List ℕ) × (m : Message) × (encode (some msg) (some buf)
        ≡ some (header_size + msg.attrs_len, out))
      × (length out ≡ length buf)
      × (decode (some m0) (some out) ≡ (ok, some m))
      × (m.type ≡ msg.type)
      × (m.txn_id ≡ msg.txn_id)
      × (m.len ≡ msg.attrs_len)
      × (m.attrs_len ≡ msg.attrs_len)
      × (payload m ≡ payload msg)
unfolding encode
decode-encode_message msg m0 buf v fits =
    let room : ltb (length buf) (header_size + msg.attrs_len) ≡ false = ground arith in
    let (size, held) = written msg buf v fits in
    let (m, e, type, id, len, attrs_len, attrs) =
      decode_held msg m0 _ v (omega (arith, size)) held in
    rw (room, write_attrs_lem) (_, m, refl, size, e, type, id, len, attrs_len, attrs)

-- xStunMsgDecode accepts the packets that xStunMsgIsStun recognises and whose declared length fits
-- them, and refuses all others as an invalid argument.
pub decode_accepts :
    (m : Message) (buf : List ℕ)
    → (decode (some m) (some buf)).0 ≡ (
        if is_stun (some buf) && leb (header_size + read_u16_be buf 2) (length buf)
        then ok
        else invalid_arg)
unfolding decode is_stun
decode_accepts m buf = elim (Bool-cases (ltb (length buf) header_size)) [
  | inl short ↦ rw short refl
  | inr long ↦ elim (Bool-cases (bit_and (get_or buf 0 0) 192 == 0)) [
    | inr set ↦ rw (long, set) refl
    | inl clear ↦ elim (Bool-cases (read_u32_be buf 4 == magic_cookie)) [
      | inr other ↦ rw (long, clear, other) refl
      | inl cookie ↦
          rw (long, clear, cookie) (fits (length buf) (header_size + read_u16_be buf 2) _ _)
    ]
  ]
]
  where
    fits :
        (n k : ℕ) (a b : Option Message)
        → (if◌then◌else◌ {A = Errno × Option Message} (ltb n k) (invalid_arg, a) (ok, b)).0
          ≡ (if leb k n then ok else invalid_arg)
    fits n k a b = ground arith
