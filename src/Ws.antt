-- ===== src/Ws.antt =====
-- libx/x/http/ws_frame.c: WebSocket frames. An I/O buffer is the list of its unread bytes.
pub mod Mask
pub mod Stable
pub mod Resume
pub mod Encode
pub mod RoundTrip
mod Tests
use x.Base.{
  ℕ, zero, suc, ◌+◌, ◌-◌, ◌*◌, ◌/◌, ◌%◌, ◌^◌, List, [], ◌∷◌, ◌++◌, Bool, true, false, ◌&&◌, ◌||◌,
  not, Option, some, none, ltb, leb, ◌==◌, if◌then◌else◌, length, get_or, set, take, drop,
  replicate, memcpy, slice, min, u8, u16, size_mod, bit_and, bit_or, bit_xor, ◌<<◌, ◌>>◌,
}

-- enum xWsFrameResult
pub data Result : Type 0 where
  complete : Result
  need_more : Result
  failed : Result

-- enum xWsFrameParserPhase
pub data Phase : Type 0 where
  header : Phase
  len16 : Phase
  len64 : Phase
  mask : Phase
  body : Phase

-- struct xWsFrame
pub record Frame : Type 0 where
  pub fin : ℕ
  pub rsv1 : ℕ
  pub opcode : ℕ
  pub masked : ℕ
  pub key : List ℕ
  pub payload_len : ℕ
  pub payload : Option (List ℕ)

-- struct xWsFrameParser
pub record Parser : Type 0 where
  pub phase : Phase
  pub frame : Frame
  pub payload_read : ℕ
  pub expect_masked : ℕ
  pub allow_rsv1 : ℕ

-- The zeroed frame.
abbrev pub no_frame : Frame
no_frame = record {
  fin = 0;
  rsv1 = 0;
  opcode = 0;
  masked = 0;
  key = 0 ∷ 0 ∷ 0 ∷ 0 ∷ [];
  payload_len = 0;
  payload = none;
}

-- xWsFrameParserInit
pub parser_init : ℕ → Parser
parser_init expect_masked = record {
  phase = header;
  frame = no_frame;
  payload_read = 0;
  expect_masked = expect_masked;
  allow_rsv1 = 0;
}

-- xWsFrameParserReset
pub parser_reset : Parser → Parser
parser_reset p = record p { phase = header; payload_read = 0; frame = no_frame }

-- `n` rounds of the loop of unmask_payload over four bytes, from `i` on.
unfoldable pub unmask_words : ℕ → ℕ → List ℕ → List ℕ → List ℕ
unmask_words zero i bytes key = bytes
unmask_words (suc n) i bytes key =
    let b0 = set bytes (i + 0) (bit_xor (get_or bytes (i + 0) 0) (get_or key 0 0)) in
    let b1 = set b0 (i + 1) (bit_xor (get_or b0 (i + 1) 0) (get_or key 1 0)) in
    let b2 = set b1 (i + 2) (bit_xor (get_or b1 (i + 2) 0) (get_or key 2 0)) in
    let b3 = set b2 (i + 3) (bit_xor (get_or b2 (i + 3) 0) (get_or key 3 0)) in
    unmask_words n (i + 4) b3 key

-- `n` rounds of its loop over the bytes that are left.
unfoldable pub unmask_bytes : ℕ → ℕ → List ℕ → List ℕ → List ℕ
unmask_bytes zero i bytes key = bytes
unmask_bytes (suc n) i bytes key =
    unmask_bytes n (i + 1) (set bytes i (bit_xor (get_or bytes i 0) (get_or key (bit_and i 3) 0)))
      key

-- unmask_payload of `len` bytes: the first loop runs while i + 4 <= len.
unfoldable pub unmask_payload : List ℕ → ℕ → List ℕ → List ℕ
unmask_payload bytes len key =
    let words = len / 4 in
    unmask_bytes (len - 4 * words) (4 * words) (unmask_words words 0 bytes key) key

abbrev pub is_control : ℕ → Bool
is_control opcode = leb 8 opcode

-- A part of xWsFrameParse either returns or goes on, with the parser and the buffer.
pub data Flow : Type 0 where
  stop : Result → Parser → List ℕ → Flow
  go : Parser → List ℕ → Flow

infixl 5 ◌>>=◌
abbrev pub ◌>>=◌ : Flow → (Parser → List ℕ → Flow) → Flow
stop r p io >>= k = stop r p io
go p io >>= k = k p io

-- The phase once the length is read.
pub after_len : Frame → Phase
after_len f = if f.masked == 0 then body else mask

-- The length and the phase that the second byte of the header gives.
pub by_len7 : Parser → ℕ → Parser
by_len7 p len7 =
    if ltb len7 126
    then record p { frame = record p.frame { payload_len = len7 }; phase = after_len p.frame }
    else if len7 == 126
    then record p { phase = len16 }
    else record p { phase = len64 }

-- The header phase of xWsFrameParse on the two bytes of the header.
pub on_header : Parser → ℕ → ℕ → List ℕ → Flow
on_header p0 h0 h1 io =
    let f = record p0.frame {
      fin = bit_and (h0 >> 7) 1;
      rsv1 = bit_and (h0 >> 6) 1;
      opcode = bit_and h0 15;
      masked = bit_and (h1 >> 7) 1;
    } in
    let p = record p0 { frame = f } in
    let len7 = bit_and h1 127 in
    let p1 = by_len7 p len7 in
    if not (bit_and h0 48 == 0)
    then stop failed p io
    else if not (f.rsv1 == 0) && (p.allow_rsv1 == 0 || is_control f.opcode)
    then stop failed p io
    else if not (f.masked == p.expect_masked)
    then stop failed p io
    else if is_control f.opcode && (f.fin == 0 || leb 126 len7)
    then stop failed p1 (drop 2 io)
    else go p1 (drop 2 io)

-- The five phases of xWsFrameParse, each for a parser that is in it.
pub read_header : Parser → List ℕ → Flow
read_header p io =
    if ltb (length io) 2
    then stop need_more p io
    else on_header p (get_or io 0 0) (get_or io 1 0) io

pub read_len16 : Parser → List ℕ → Flow
read_len16 p io =
    let f = record p.frame { payload_len = bit_or (get_or io 0 0 << 8) (get_or io 1 0) } in
    if ltb (length io) 2
    then stop need_more p io
    else go (record p { frame = f; phase = after_len f }) (drop 2 io)

-- The loop over the bytes of a 64-bit length.
pub len64_value : List ℕ → ℕ → ℕ
len64_value [] acc = acc
len64_value (b ∷ bytes) acc = len64_value bytes (bit_or ((acc << 8) % size_mod) b)

pub read_len64 : Parser → List ℕ → Flow
read_len64 p io =
    let n = len64_value (take 8 io) 0 in
    let f = record p.frame { payload_len = n } in
    if ltb (length io) 8
    then stop need_more p io
    else if not (n >> 63 == 0)
    then stop failed (record p { frame = f }) io
    else go (record p { frame = f; phase = after_len f }) (drop 8 io)

pub read_mask : Parser → List ℕ → Flow
read_mask p io =
    if ltb (length io) 4
    then stop need_more p io
    else go (record p { frame = record p.frame { key = take 4 io }; phase = body }) (drop 4 io)

-- The check behind the label `done`; a payload that is refused is freed.
pub finish : Parser → List ℕ → Flow
finish p io =
    if is_control p.frame.opcode && ltb 125 p.frame.payload_len
    then stop failed (record p { frame = record p.frame { payload = none } }) io
    else stop complete p io

-- The payload phase, once the payload's block is there.
pub fill : Parser → List ℕ → List ℕ → Flow
fill p bytes io =
    let f = p.frame in
    let n = min (length io) (f.payload_len - p.payload_read) in
    let filled = memcpy bytes p.payload_read (take n io) in
    let read = p.payload_read + n in
    let plain = if f.masked == 0 then filled else unmask_payload filled f.payload_len f.key in
    let waiting = record p { frame = record f { payload = some filled }; payload_read = read } in
    let full = record p { frame = record f { payload = some plain }; payload_read = read } in
    if ltb read f.payload_len then stop need_more waiting (drop n io) else finish full (drop n io)

-- The payload phase of a frame that has one; its block is allocated on first entry, when
-- `malloc` grants that size.
pub allocate : (ℕ → Bool) → Parser → Option (List ℕ) → List ℕ → Flow
allocate malloc p (some bytes) io = fill p bytes io
allocate malloc p none io =
    if ltb 16777216 p.frame.payload_len || not (malloc p.frame.payload_len)
    then stop failed p io
    else fill (record p { payload_read = 0 }) (replicate p.frame.payload_len 0) io

-- The payload phase.
pub read_body : (ℕ → Bool) → Parser → List ℕ → Flow
read_body malloc p io =
    if p.frame.payload_len == 0
    then finish (record p { frame = record p.frame { payload = none } }) io
    else allocate malloc p p.frame.payload io

-- The phases that follow a length, in the order of the code.
pub after_length : (ℕ → Bool) → Phase → Parser → List ℕ → Flow
after_length malloc mask p io = read_mask p io >>= read_body malloc
after_length malloc body p io = read_body malloc p io
after_length malloc other p io = stop need_more p io

-- The phases that follow the header.
pub after_header : (ℕ → Bool) → Phase → Parser → List ℕ → Flow
after_header malloc header p io = stop need_more p io
after_header malloc len16 p io = read_len16 p io >>= λ p io. after_length malloc p.phase p io
after_header malloc len64 p io = read_len64 p io >>= λ p io. after_length malloc p.phase p io
after_header malloc mask p io = after_length malloc mask p io
after_header malloc body p io = after_length malloc body p io

-- The phases from the parser's own on.
pub phases : (ℕ → Bool) → Phase → Parser → List ℕ → Flow
phases malloc header p io = read_header p io >>= λ p io. after_header malloc p.phase p io
phases malloc len16 p io = after_header malloc len16 p io
phases malloc len64 p io = after_header malloc len64 p io
phases malloc mask p io = after_header malloc mask p io
phases malloc body p io = after_header malloc body p io

-- xWsFrameParse
pub parse : (ℕ → Bool) → Parser → List ℕ → Flow
parse malloc p io = phases malloc p.phase p io >>= stop need_more
