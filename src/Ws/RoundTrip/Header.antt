-- ===== src/Ws/RoundTrip/Header.antt =====
-- libx/x/http/ws_frame.c: the parser on the header that the encoder writes.
use x.Base.{
  ℕ, ◌≤◌, ◌<◌, ◌≡◌, refl, ◌⊎◌, List, ◌∷◌, Bool, true, false, ◌&&◌, ◌||◌, not, arith, ltb, leb, ◌==◌,
  if◌then◌else◌, length, bit_and, bit_or, ◌>>◌, all_below_sound, ==_iff,
}
use x.Ws.{Frame, Parser, go, no_frame, parser_init, by_len7, on_header, read_header}

abbrev pub flag : Bool → ℕ
flag b = if b then 1 else 0

-- The first byte that xWsFrameEncodeEx writes, and the second, for what it puts beside the mask
-- bit.
abbrev pub byte0 : Bool → Bool → ℕ → ℕ
byte0 fin rsv1 opcode =
    bit_or (bit_or (if fin then 128 else 0) (if rsv1 then 64 else 0)) (bit_and opcode 15)

abbrev pub byte1 : Bool → ℕ → ℕ
byte1 masked l = bit_or (if masked then 128 else 0) l

abbrev byte0_ok : Bool → Bool → ℕ → Bool
byte0_ok fin rsv1 op =
    let h = byte0 fin rsv1 op in
    (bit_and (h >> 7) 1 == flag fin)
    && (bit_and (h >> 6) 1 == flag rsv1)
    && (bit_and h 15 == op)
    && (bit_and h 48 == 0)

abbrev byte1_ok : Bool → ℕ → Bool
byte1_ok masked l =
    (bit_and (byte1 masked l >> 7) 1 == flag masked) && (bit_and (byte1 masked l) 127 == l)

byte0-ok : (fin rsv1 : Bool) (op : ℕ) → op < 16 → byte0_ok fin rsv1 op ≡ true
byte0-ok true true op h = all_below_sound 16 (byte0_ok true true) refl op h
byte0-ok true false op h = all_below_sound 16 (byte0_ok true false) refl op h
byte0-ok false true op h = all_below_sound 16 (byte0_ok false true) refl op h
byte0-ok false false op h = all_below_sound 16 (byte0_ok false false) refl op h

byte1-ok : (masked : Bool) (l : ℕ) → l < 128 → byte1_ok masked l ≡ true
byte1-ok true l h = all_below_sound 128 (byte1_ok true) refl l h
byte1-ok false l h = all_below_sound 128 (byte1_ok false) refl l h

-- The frame whose header was read, before its length.
abbrev pub headed : Bool → Bool → ℕ → Bool → Frame
headed fin rsv1 opcode masked = record no_frame {
  fin = flag fin;
  rsv1 = flag rsv1;
  opcode = opcode;
  masked = flag masked;
}

-- A parser at the start of a frame.
abbrev pub fresh : ℕ → ℕ → Parser
fresh expect_masked allow_rsv1 = record (parser_init expect_masked) { allow_rsv1 = allow_rsv1 }

pub read_header-byte :
    (allow : ℕ) (fin rsv1 masked : Bool) (op l : ℕ) (tail : List ℕ)
    → op < 16
    → l < 128
    → (rsv1 ≡ false) ⊎ ((1 ≤ allow) × (op < 8))
    → (op < 8) ⊎ ((fin ≡ true) × (l ≤ 125))
    → let p = fresh (flag masked) allow in
      read_header p (byte0 fin rsv1 op ∷ byte1 masked l ∷ tail)
      ≡ go (by_len7 (record p { frame = headed fin rsv1 op masked }) l) tail
unfolding read_header on_header parser_init
read_header-byte allow fin rsv1 masked op l tail small short r c =
    let b0 = byte0-ok fin rsv1 op small in
    let b1 = byte1-ok masked l short in
    let h0 = byte0 fin rsv1 op in
    let h1 = byte1 masked l in
    let e7 : bit_and (h0 >> 7) 1 ≡ flag fin = ground arith in
    let e6 : bit_and (h0 >> 6) 1 ≡ flag rsv1 = ground arith in
    let e15 : bit_and h0 15 ≡ op = ground arith in
    let e48 : bit_and h0 48 ≡ 0 = ground arith in
    let m7 : bit_and (h1 >> 7) 1 ≡ flag masked = ground arith in
    let l7 : bit_and h1 127 ≡ l = ground arith in
    let long : ltb (length (h0 ∷ h1 ∷ tail)) 2 ≡ false = ground arith in
    let a1 : (not (flag rsv1 == 0) && (allow == 0 || leb 8 op)) ≡ false = ground arith in
    let a2 : (flag masked == flag masked) ≡ true = (==_iff (flag masked) (flag masked)).1 refl in
    let a3 : (leb 8 op && (flag fin == 0 || leb 126 l)) ≡ false = ground arith in
    rw (long, e7, e6, e15, e48, m7, l7, a1, a2, a3) refl
