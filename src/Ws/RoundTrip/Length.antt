-- ===== src/Ws/RoundTrip/Length.antt =====
-- libx/x/http/ws_frame.c: the parser on the three forms of the length that the encoder writes.
use x.Base.{
  ℕ, ◌+◌, ◌*◌, ◌%◌, ◌≤◌, ◌<◌, ◌≡◌, refl, ap, ◌∙◌, ◌⊎◌, inl, inr, List, [], ◌∷◌, ◌++◌, Bool, true,
  false, arith, ltb, leb, ◌==◌, Bool-cases, length, u8, size_mod, bit_or, ◌<<◌, ◌>>◌,
  bit_or-disjoint, ==_iff,
}
use x.Ws.{
  header, Parser, after_len, by_len7, read_len16, len64_value, read_len64, after_length,
  after_header, phases,
}
use x.Ws.Encode.{encode_header}
use x.Ws.RoundTrip.Header.{flag, byte0, byte1, headed, fresh, read_header-byte}

-- The frames that the protocol admits: an opcode of four bits; a control frame is final, has no
-- RSV1 and at most 125 bytes; RSV1 needs the extension.
abbrev pub Admitted : ℕ → Bool → Bool → ℕ → ℕ → Type 0
Admitted allow_rsv1 fin rsv1 opcode n =
    (opcode < 16)
    × ((rsv1 ≡ false) ⊎ ((1 ≤ allow_rsv1) × (opcode < 8)))
    × ((opcode < 8) ⊎ ((fin ≡ true) × (n ≤ 125)))

-- The parser once the length `n` is read.
abbrev pub measured : ℕ → Bool → Bool → ℕ → Bool → ℕ → Parser
measured allow fin rsv1 op masked n = record (fresh (flag masked) allow) {
  frame = record (headed fin rsv1 op masked) { payload_len = n };
  phase = after_len (headed fin rsv1 op masked);
}

late :
    (malloc : ℕ → Bool) (fin rsv1 masked : Bool) (op : ℕ) (p : Parser) (io : List ℕ)
    → after_header malloc (after_len (headed fin rsv1 op masked)) p io
      ≡ after_length malloc (after_len (headed fin rsv1 op masked)) p io
unfolding after_header after_len
late malloc fin rsv1 true op p io = refl
late malloc fin rsv1 false op p io = refl

len16-value : (n : ℕ) → n < 65536 → bit_or (u8 (n >> 8) << 8) (u8 n) ≡ n
len16-value n h = bit_or-disjoint 8 (u8 (n >> 8)) (u8 n) (omega arith) ∙ omega arith

-- A round of the loop that does not overflow.
len64-step :
    (b : ℕ) (bytes : List ℕ) (acc : ℕ)
    → b < 256
    → acc < 72057594037927936
    → len64_value (b ∷ bytes) acc ≡ len64_value bytes (acc * 256 + b)
unfolding len64_value
len64-step b bytes acc hb ha =
    let e : (acc << 8) % size_mod ≡ acc * 256 = omega arith in
    rw e (ap (len64_value bytes) (bit_or-disjoint 8 acc b hb))

len64-value :
    (n : ℕ)
    → n ≤ 16777216
    → len64_value
        (u8 (n >> 56)
          ∷ u8 (n >> 48)
          ∷ u8 (n >> 40)
          ∷ u8 (n >> 32)
          ∷ u8 (n >> 24)
          ∷ u8 (n >> 16)
          ∷ u8 (n >> 8)
          ∷ u8 n
          ∷ [])
        0
      ≡ n
unfolding len64_value
len64-value n h =
    let e7 : u8 (n >> 56) ≡ 0 = omega arith in
    let e6 : u8 (n >> 48) ≡ 0 = omega arith in
    let e5 : u8 (n >> 40) ≡ 0 = omega arith in
    let e4 : u8 (n >> 32) ≡ 0 = omega arith in
    let b3 = u8 (n >> 24) in
    let b2 = u8 (n >> 16) in
    let b1 = u8 (n >> 8) in
    let b0 = u8 n in
    rw (e7, e6, e5, e4)
      (len64-step b3 (b2 ∷ b1 ∷ b0 ∷ []) 0 (omega arith) (omega arith)
        ∙ len64-step b2 (b1 ∷ b0 ∷ []) (0 * 256 + b3) (omega arith) (omega arith)
        ∙ len64-step b1 (b0 ∷ []) ((0 * 256 + b3) * 256 + b2) (omega arith) (omega arith)
        ∙ len64-step b0 [] (((0 * 256 + b3) * 256 + b2) * 256 + b1) (omega arith) (omega arith)
        ∙ omega arith)

module _ (malloc : ℕ → Bool) (allow : ℕ) (fin rsv1 masked : Bool) (op n : ℕ) (tail : List ℕ)
    (ok : Admitted allow fin rsv1 op n) where
  abbrev start : Parser
  start = fresh (flag masked) allow

  abbrev Understood : List ℕ → Type 0
  Understood head =
      phases malloc header start (head ++ tail)
      ≡ after_length malloc (after_len (headed fin rsv1 op masked))
          (measured allow fin rsv1 op masked n) tail

  len7-Understood : n < 126 → Understood (byte0 fin rsv1 op ∷ byte1 masked n ∷ [])
  unfolding phases by_len7
  len7-Understood h =
      let (small, r, c) = ok in
      let t : ltb n 126 ≡ true = ground arith in
      rw (read_header-byte allow fin rsv1 masked op n tail small (omega arith) r (ground arith), t)
        (late malloc fin rsv1 masked op _ tail)

  len16-Understood :
      126 ≤ n
      → n < 65536
      → Understood (byte0 fin rsv1 op ∷ byte1 masked 126 ∷ u8 (n >> 8) ∷ u8 n ∷ [])
  unfolding phases by_len7 after_header read_len16 after_len
  len16-Understood h h' =
      let (small, r, c) = ok in
      let rest = u8 (n >> 8) ∷ u8 n ∷ tail in
      let t : ltb (length rest) 2 ≡ false = ground arith in
      rw
        (
          read_header-byte allow fin rsv1 masked op 126 rest small (omega arith) r (ground arith),
          t,
          len16-value n h',
        )
        refl

  len64-Understood :
      65536 ≤ n
      → n ≤ 16777216
      → Understood (
          byte0 fin rsv1 op
          ∷ byte1 masked 127
          ∷ u8 (n >> 56)
          ∷ u8 (n >> 48)
          ∷ u8 (n >> 40)
          ∷ u8 (n >> 32)
          ∷ u8 (n >> 24)
          ∷ u8 (n >> 16)
          ∷ u8 (n >> 8)
          ∷ u8 n
          ∷ [])
  unfolding phases by_len7 after_header read_len64 after_len
  len64-Understood h h' =
      let (small, r, c) = ok in
      let rest =
        u8 (n >> 56)
        ∷ u8 (n >> 48)
        ∷ u8 (n >> 40)
        ∷ u8 (n >> 32)
        ∷ u8 (n >> 24)
        ∷ u8 (n >> 16)
        ∷ u8 (n >> 8)
        ∷ u8 n
        ∷ tail in
      let t : ltb (length rest) 8 ≡ false = ground arith in
      let top : (n >> 63 == 0) ≡ true = (==_iff (n >> 63) 0).1 (omega arith) in
      rw
        (
          read_header-byte allow fin rsv1 masked op 127 rest small (omega arith) r (ground arith),
          t,
          len64-value n h',
          top,
        )
        refl

  -- The header of an admitted frame is read for what it says.
  pub encode_header-Understood : n ≤ 16777216 → Understood (encode_header fin rsv1 op n masked)
  unfolding encode_header
  encode_header-Understood h = elim (Bool-cases (ltb n 126)) [
    | inl short ↦ let e : u8 n ≡ n = ground arith in rw (short, e) (len7-Understood (ground arith))
    | inr long ↦ elim (Bool-cases (leb n 65535)) [
      | inl mid ↦ rw (long, mid) (len16-Understood (ground arith) (ground arith))
      | inr big ↦ rw (long, big) (len64-Understood (ground arith) h)
    ]
  ]
