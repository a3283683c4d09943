-- ===== src/Ws/Encode.antt =====
-- libx/x/http/ws_frame.c: writing WebSocket frames behind the bytes of an I/O buffer.
use x.Base.{
  ℕ, ◌+◌, List, [], ◌∷◌, ◌++◌, Bool, true, false, not, Option, some, none, ltb, leb, ◌==◌,
  if◌then◌else◌, length, take, replicate, memcpy, slice, u8, bit_and, bit_or, ◌>>◌,
}
use x.Ws.{unmask_payload}

-- The header of a frame that xWsFrameEncodeEx builds, without the key.
unfoldable pub encode_header : Bool → Bool → ℕ → ℕ → Bool → List ℕ
encode_header fin rsv1 opcode n masked =
    let b0 =
      bit_or (bit_or (if fin then 128 else 0) (if rsv1 then 64 else 0)) (bit_and opcode 15) in
    let mask_bit = if masked then 128 else 0 in
    if ltb n 126
    then b0 ∷ bit_or mask_bit (u8 n) ∷ []
    else if leb n 65535
    then b0 ∷ bit_or mask_bit 126 ∷ u8 (n >> 8) ∷ u8 n ∷ []
    else b0
      ∷ bit_or mask_bit 127
      ∷ u8 (n >> 56)
      ∷ u8 (n >> 48)
      ∷ u8 (n >> 40)
      ∷ u8 (n >> 32)
      ∷ u8 (n >> 24)
      ∷ u8 (n >> 16)
      ∷ u8 (n >> 8)
      ∷ u8 n
      ∷ []

-- xIOBufferAppend, where `room` tells how many of the bytes of a request find memory.
unfoldable pub append : (ℕ → ℕ) → List ℕ → List ℕ → Bool × List ℕ
append room io bytes =
    if leb (length bytes) (room (length bytes))
    then (true, io ++ bytes)
    else (false, io ++ take (room (length bytes)) bytes)

-- The payload behind a header that was sent.
unfoldable pub encode_payload :
    (ℕ → ℕ) → (ℕ → Bool) → List ℕ → List ℕ → Option (List ℕ) → ℕ → Bool → Bool × List ℕ
encode_payload room malloc key io none n masked = (true, io)
encode_payload room malloc key io (some bytes) n masked =
    let plain = slice bytes 0 n in
    if n == 0
    then (true, io)
    else if not masked
    then append room io plain
    else if malloc n
    then append room io (unmask_payload plain n key)
    else (false, io)

-- A call whose failure is the caller's.
abbrev pub and_then : Bool × List ℕ → (List ℕ → Bool × List ℕ) → Bool × List ℕ
and_then (true, io) next = next io
and_then (false, io) next = (false, io)

-- xWsFrameEncodeEx; `key` is what ws_random_bytes draws, and the answer tells whether it is 0.
unfoldable pub encode :
    (ℕ → ℕ)
    → (ℕ → Bool)
    → List ℕ
    → List ℕ
    → Bool
    → Bool
    → ℕ
    → Option (List ℕ)
    → ℕ
    → Bool
    → Bool × List ℕ
encode room malloc key io fin rsv1 opcode payload n masked =
    let head = encode_header fin rsv1 opcode n masked in
    and_then (append room io (if masked then head ++ key else head))
      (λ sent. encode_payload room malloc key sent payload n masked)

-- xWsFrameEncodeClose, opcode 8; `malloc` grants the block of the payload first.
pub encode_close :
    (ℕ → ℕ) → (ℕ → Bool) → List ℕ → List ℕ → ℕ → Option (List ℕ) → ℕ → Bool → Bool × List ℕ
encode_close room malloc key io code reason len masked =
    let text = elim reason as (λ _. List ℕ) [ some r ↦ slice r 0 len | none ↦ [] ] in
    let start = u8 (code >> 8) ∷ u8 code ∷ replicate len 0 in
    let payload = memcpy start 2 text in
    if malloc (2 + len)
    then encode room malloc key io true false 8 (some payload) (2 + len) masked
    else (false, io)
