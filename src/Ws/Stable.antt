-- ===== src/Ws/Stable.antt =====
-- libx/x/http/ws_frame.c: what the reading phases of the parser do when more bytes follow.
use x.Base.{
  ℕ, ◌≤◌, ◌≡◌, refl, inl, inr, ◌⊎◌, List, ◌++◌, Bool, true, false, arith, ltb, ◌==◌, if◌then◌else◌,
  Bool-cases, length, length-append, get_or, get_or-append, take-append_long, drop-append_long,
}
use x.Ws.{
  complete, need_more, failed, Phase, header, len16, len64, mask, body, Frame, Parser, Flow, stop,
  go, after_len, by_len7, on_header, read_header, read_len16, read_len64, read_mask,
}

-- A flow whose buffer has got more bytes behind it.
abbrev pub grow : List ℕ → Flow → Flow
grow more (stop r p io) = stop r p (io ++ more)
grow more (go p io) = go p (io ++ more)

grow-if :
    (more : List ℕ) (c : Bool) (a b : Flow)
    → grow more (if c then a else b) ≡ (if c then grow more a else grow more b)
grow-if more true a b = refl
grow-if more false a b = refl

on_header-grow :
    (p : Parser) (h0 h1 : ℕ) (io more : List ℕ)
    → 2 ≤ length io
    → on_header p h0 h1 (io ++ more) ≡ grow more (on_header p h0 h1 io)
unfolding on_header
on_header-grow p h0 h1 io more long = simp (grow-if, drop-append_long 2 io more long) refl

-- Does a part of the parser return for good, or go on in a phase that `ok` accepts?
abbrev pub goes : (Phase → Bool) → Flow → Bool
goes ok (stop complete p io) = true
goes ok (stop need_more p io) = false
goes ok (stop failed p io) = true
goes ok (go p io) = ok p.phase

abbrev pub past_header : Phase → Bool
past_header header = false
past_header other = true

abbrev pub past_length : Phase → Bool
past_length mask = true
past_length body = true
past_length other = false

abbrev pub past_body : Phase → Bool
past_body body = true
past_body other = false

goes-if :
    (ok : Phase → Bool) (c : Bool) (a b : Flow)
    → goes ok (if c then a else b) ≡ (if c then goes ok a else goes ok b)
goes-if ok true a b = refl
goes-if ok false a b = refl

pub after_len-past : (f : Frame) → past_length (after_len f) ≡ true
unfolding after_len
after_len-past f = elim (Bool-cases (f.masked == 0)) [ inl h ↦ rw h refl | inr h ↦ rw h refl ]

pub past-past : (ph : Phase) → past_length ph ≡ true → past_header ph ≡ true
past-past header h = h
past-past len16 h = refl
past-past len64 h = refl
past-past mask h = refl
past-past body h = refl

pub by_len7-past : (p : Parser) (n : ℕ) → past_header (by_len7 p n).phase ≡ true
unfolding by_len7
by_len7-past p n = elim (Bool-cases (ltb n 126)) [
  | inl h ↦ rw h (past-past (after_len p.frame) (after_len-past p.frame))
  | inr h ↦ elim (Bool-cases (n == 126)) [ inl e ↦ rw (h, e) refl | inr e ↦ rw (h, e) refl ]
]

if-true : (c : Bool) → (if c then true else true) ≡ true
if-true true = refl
if-true false = refl

on_header-goes :
    (p : Parser) (h0 h1 : ℕ) (io : List ℕ) → goes past_header (on_header p h0 h1 io) ≡ true
unfolding on_header
on_header-goes p h0 h1 io = simp (goes-if, by_len7-past, if-true) refl

-- Each reading phase either waits, and changes nothing, or does with more bytes what it does
-- without them.
abbrev pub Stable : (Phase → Bool) → (Parser → List ℕ → Flow) → Parser → List ℕ → List ℕ → Type 0
Stable ok f p io more =
    (f p io ≡ stop need_more p io)
    ⊎ ((f p (io ++ more) ≡ grow more (f p io)) × (goes ok (f p io) ≡ true))

pub read_header-Stable : (p : Parser) (io more : List ℕ) → Stable past_header read_header p io more
unfolding read_header
read_header-Stable p io more = elim (Bool-cases (ltb (length io) 2)) [
  | inl short ↦ inl (rw short refl)
  | inr long ↦
      let still : ltb (length (io ++ more)) 2 ≡ false = ground (arith, length-append io more) in
      inr (
        rw
            (
              long,
              still,
              get_or-append io more 0 (ground arith),
              get_or-append io more 1 (ground arith),
            )
            (on_header-grow p (get_or io 0 0) (get_or io 1 0) io more (ground arith)),
        rw long (on_header-goes p (get_or io 0 0) (get_or io 1 0) io),
      )
]

pub read_len16-Stable : (p : Parser) (io more : List ℕ) → Stable past_length read_len16 p io more
unfolding read_len16
read_len16-Stable p io more = elim (Bool-cases (ltb (length io) 2)) [
  | inl short ↦ inl (rw short refl)
  | inr long ↦
      let still : ltb (length (io ++ more)) 2 ≡ false = ground (arith, length-append io more) in
      inr (
        rw
            (
              long,
              still,
              get_or-append io more 0 (ground arith),
              get_or-append io more 1 (ground arith),
              drop-append_long 2 io more (ground arith),
            )
            refl,
        rw long (after_len-past _),
      )
]

pub read_len64-Stable : (p : Parser) (io more : List ℕ) → Stable past_length read_len64 p io more
unfolding read_len64
read_len64-Stable p io more = elim (Bool-cases (ltb (length io) 8)) [
  | inl short ↦ inl (rw short refl)
  | inr long ↦
      let still : ltb (length (io ++ more)) 8 ≡ false = ground (arith, length-append io more) in
      inr (
        rw
            (
              long,
              still,
              take-append_long 8 io more (ground arith),
              drop-append_long 8 io more (ground arith),
            )
            (simp (grow-if) refl),
        rw long (simp (goes-if, after_len-past, if-true) refl),
      )
]

pub read_mask-Stable : (p : Parser) (io more : List ℕ) → Stable past_body read_mask p io more
unfolding read_mask
read_mask-Stable p io more = elim (Bool-cases (ltb (length io) 4)) [
  | inl short ↦ inl (rw short refl)
  | inr long ↦
      let still : ltb (length (io ++ more)) 4 ≡ false = ground (arith, length-append io more) in
      inr (
        rw
            (
              long,
              still,
              take-append_long 4 io more (ground arith),
              drop-append_long 4 io more (ground arith),
            )
            refl,
        rw long refl,
      )
]
