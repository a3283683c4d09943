-- ===== src/P2p/Wire.antt =====
-- libx/x/p2p/ice_private.h: big-endian words in a byte buffer, padding to a multiple of 4, and the
-- first-byte demultiplexer.
use x.Base.{
  ℕ, zero, suc, ◌+◌, ◌-◌, ◌*◌, ◌/◌, ◌%◌, ◌^◌, ◌≤◌, ◌<◌, ◌≡◌, refl, ap, ap₂, ◌∙◌, List, [], ◌∷◌,
  ◌&&◌, arith, leb, length, get_or, u8, u16, u32, ◌<<◌, ◌>>◌, bit_or, bit_and, bit_or-disjoint,
  bit_and-mask, and_step, memcpy, get_or-memcpy, length-memcpy, get_or-set, length-set, set,
  if◌then◌else◌,
}

-- xReadU16BE(p + pos)
unfoldable pub read_u16_be : List ℕ → ℕ → ℕ
read_u16_be p pos = u16 (bit_or (get_or p pos 0 << 8) (get_or p (pos + 1) 0))

-- xReadU32BE(p + pos)
unfoldable pub read_u32_be : List ℕ → ℕ → ℕ
read_u32_be p pos =
    bit_or
      (bit_or (bit_or (u32 (get_or p pos 0 << 24)) (u32 (get_or p (pos + 1) 0 << 16)))
        (u32 (get_or p (pos + 2) 0 << 8)))
      (get_or p (pos + 3) 0)

-- xWriteU16BE(p + pos, v)
unfoldable pub write_u16_be : List ℕ → ℕ → ℕ → List ℕ
write_u16_be p pos v = memcpy p pos (u8 (v >> 8) ∷ u8 v ∷ [])

-- xWriteU32BE(p + pos, v)
unfoldable pub write_u32_be : List ℕ → ℕ → ℕ → List ℕ
write_u32_be p pos v = memcpy p pos (u8 (v >> 24) ∷ u8 (v >> 16) ∷ u8 (v >> 8) ∷ u8 v ∷ [])

-- XSTUN_ALIGN4 of a 16-bit value: `(n + 3) & ~3`, where `~3` is of 32 bits.
unfoldable pub align4 : ℕ → ℕ
align4 n = bit_and (n + 3) (2 ^ 32 - 4)

-- xIceDemuxClassify, with the classes as constructors; -1 is `unknown`.
pub data Demux : Type 0 where
  stun : Demux
  dtls : Demux
  turn_channel : Demux
  rtp : Demux
  unknown : Demux

unfoldable pub classify : ℕ → Demux
classify b =
    if leb b 3
    then stun
    else if leb 20 b && leb b 63
    then dtls
    else if leb 64 b && leb b 79
    then turn_channel
    else if leb 128 b && leb b 191
    then rtp
    else unknown

pub length-write_u16_be : (p : List ℕ) (pos v : ℕ) → length (write_u16_be p pos v) ≡ length p
unfolding write_u16_be
length-write_u16_be p pos v = length-memcpy p pos (u8 (v >> 8) ∷ u8 v ∷ [])

pub length-write_u32_be : (p : List ℕ) (pos v : ℕ) → length (write_u32_be p pos v) ≡ length p
unfolding write_u32_be
length-write_u32_be p pos v =
    length-memcpy p pos (u8 (v >> 24) ∷ u8 (v >> 16) ∷ u8 (v >> 8) ∷ u8 v ∷ [])

-- A byte that memcpy wrote.
pub get_or-memcpy_at :
    (p : List ℕ) (pos : ℕ) (bs : List ℕ) (i : ℕ)
    → pos + length bs ≤ length p
    → i < length bs
    → get_or (memcpy p pos bs) (pos + i) 0 ≡ get_or bs i 0
get_or-memcpy_at p pos [] i fits h = absurd (omega arith)
get_or-memcpy_at p pos (b ∷ bs) zero fits h = ground (
  arith,
  get_or-memcpy (set p pos b) (pos + 1) bs pos (omega (arith, length-set p pos b)) (omega arith),
  get_or-set p pos pos b 0 (omega arith),
)
get_or-memcpy_at p pos (b ∷ bs) (suc i) fits h =
    ap (λ (j : ℕ). get_or (memcpy (set p pos b) (pos + 1) bs) j 0) (omega arith)
    ∙ get_or-memcpy_at (set p pos b) (pos + 1) bs i (omega (arith, length-set p pos b))
        (omega arith)

or_bytes : (a b : ℕ) → a < 2 ^ 8 → b < 2 ^ 8 → u16 (bit_or (a << 8) b) ≡ a * 2 ^ 8 + b
or_bytes a b ha hb = rw (bit_or-disjoint 8 a b hb) (omega arith)

-- A word that was written is read back.
pub read-write_u16 :
    (p : List ℕ) (pos v : ℕ)
    → pos + 2 ≤ length p
    → v < 2 ^ 16
    → read_u16_be (write_u16_be p pos v) pos ≡ v
unfolding read_u16_be write_u16_be
read-write_u16 p pos v fits word =
    let bs = u8 (v >> 8) ∷ u8 v ∷ [] in
    let first : get_or (memcpy p pos bs) pos 0 ≡ u8 (v >> 8) =
      ap (λ (j : ℕ). get_or (memcpy p pos bs) j 0) (omega arith)
      ∙ get_or-memcpy_at p pos bs 0 fits (omega arith) in
    let second : get_or (memcpy p pos bs) (pos + 1) 0 ≡ u8 v =
      get_or-memcpy_at p pos bs 1 fits (omega arith) in
    ap₂ (λ a b. u16 (bit_or (a << 8) b)) first second
    ∙ or_bytes (u8 (v >> 8)) (u8 v) (omega arith) (omega arith)
    ∙ omega arith

or_words :
    (a b c d : ℕ)
    → a < 2 ^ 8
    → b < 2 ^ 8
    → c < 2 ^ 8
    → d < 2 ^ 8
    → bit_or (bit_or (bit_or (u32 (a << 24)) (u32 (b << 16))) (u32 (c << 8))) d
      ≡ a * 2 ^ 24 + b * 2 ^ 16 + c * 2 ^ 8 + d
or_words a b c d ha hb hc hd =
    let wa : u32 (a << 24) ≡ a * 2 ^ 24 = omega arith in
    let wb : u32 (b << 16) ≡ b * 2 ^ 16 = omega arith in
    let wc : u32 (c << 8) ≡ c * 2 ^ 8 = omega arith in
    let two_bytes : a * 2 ^ 24 + b * 2 ^ 16 ≡ (a * 2 ^ 8 + b) * 2 ^ 16 = omega arith in
    let three_bytes : (a * 2 ^ 8 + b) * 2 ^ 16 + c * 2 ^ 8 ≡ ((a * 2 ^ 8 + b) * 2 ^ 8 + c) * 2 ^ 8 =
      omega arith in
    rw
      (
        wa,
        wb,
        wc,
        bit_or-disjoint 24 a (b * 2 ^ 16) (omega arith),
        two_bytes,
        bit_or-disjoint 16 (a * 2 ^ 8 + b) (c * 2 ^ 8) (omega arith),
        three_bytes,
        bit_or-disjoint 8 ((a * 2 ^ 8 + b) * 2 ^ 8 + c) d hd,
      )
      (omega arith)

pub read-write_u32 :
    (p : List ℕ) (pos v : ℕ)
    → pos + 4 ≤ length p
    → v < 2 ^ 32
    → read_u32_be (write_u32_be p pos v) pos ≡ v
unfolding read_u32_be write_u32_be
read-write_u32 p pos v fits word =
    let bs = u8 (v >> 24) ∷ u8 (v >> 16) ∷ u8 (v >> 8) ∷ u8 v ∷ [] in
    let first : get_or (memcpy p pos bs) pos 0 ≡ u8 (v >> 24) =
      ap (λ (j : ℕ). get_or (memcpy p pos bs) j 0) (omega arith)
      ∙ get_or-memcpy_at p pos bs 0 fits (omega arith) in
    rw
      (
        first,
        get_or-memcpy_at p pos bs 1 fits (omega arith),
        get_or-memcpy_at p pos bs 2 fits (omega arith),
        get_or-memcpy_at p pos bs 3 fits (omega arith),
        or_words (u8 (v >> 24)) (u8 (v >> 16)) (u8 (v >> 8)) (u8 v) (omega arith) (omega arith)
            (omega arith) (omega arith),
      )
      (omega arith)

-- What is written behind a word leaves it.
pub read_u16-memcpy :
    (p : List ℕ) (q : ℕ) (bs : List ℕ) (pos : ℕ)
    → q + length bs ≤ length p
    → pos + 2 ≤ q
    → read_u16_be (memcpy p q bs) pos ≡ read_u16_be p pos
unfolding read_u16_be
read_u16-memcpy p q bs pos fits before =
    rw
      (
        get_or-memcpy p q bs pos fits (omega arith),
        get_or-memcpy p q bs (pos + 1) fits (omega arith),
      )
      refl

pub read_u32-memcpy :
    (p : List ℕ) (q : ℕ) (bs : List ℕ) (pos : ℕ)
    → q + length bs ≤ length p
    → pos + 4 ≤ q
    → read_u32_be (memcpy p q bs) pos ≡ read_u32_be p pos
unfolding read_u32_be
read_u32-memcpy p q bs pos fits before =
    rw
      (
        get_or-memcpy p q bs pos fits (omega arith),
        get_or-memcpy p q bs (pos + 1) fits (omega arith),
        get_or-memcpy p q bs (pos + 2) fits (omega arith),
        get_or-memcpy p q bs (pos + 3) fits (omega arith),
      )
      refl

-- XSTUN_ALIGN4 is the least multiple of 4 that is not below its argument.
pub align4_lem : (n : ℕ) → n < 2 ^ 16 → align4 n ≡ (n + 3) / 4 * 4
unfolding align4
align4_lem n small =
    let m = n + 3 in
    let high : bit_and (m / 2 / 2) (2 ^ 30 - 1) ≡ m / 2 / 2 % 2 ^ 30 =
      bit_and-mask 30 (m / 2 / 2) in
    omega (arith, and_step m (2 ^ 32 - 4), and_step (m / 2) (2 ^ 31 - 2), high)
