-- ===== src/P2p/Frames.antt =====
-- Two 16-bit words, data and padding written one after another at an offset, the shape that STUN
-- attributes and ChannelData frames share.
use x.Base.{
  ℕ, zero, suc, ◌+◌, ◌-◌, ◌/◌, ◌^◌, ◌≤◌, ◌<◌, ◌≡◌, refl, sym, ap, ap₂, ◌∙◌, inl, inr, List, [], ◌∷◌,
  arith, ltb, if◌then◌else◌, Bool-cases, length, get_or, replicate, u8, ◌>>◌, memcpy, length-memcpy,
  get_or-memcpy, slice, slice-memcpy, slice-memcpy_before,
}
use x.P2p.Wire.{
  read_u16_be, write_u16_be, align4, get_or-memcpy_at, read-write_u16, read_u16-memcpy,
}

-- What the bytes at `p` show: the words `t` and `n`, and `n` bytes of data.
pub record Holds (p t n : ℕ) (payload out : List ℕ) : Type 0 where
  pub first : get_or out p 0 ≡ t / 2 ^ 8
  pub word : read_u16_be out p ≡ t
  pub size : read_u16_be out (p + 2) ≡ n
  pub bytes : slice out (p + 4) n ≡ payload

-- The padding is a copy of zeros, of none if there is nothing to pad.
pub padding_lem :
    (out : List ℕ) (p n : ℕ)
    → (if ltb n (align4 n) then memcpy out p (replicate (align4 n - n) 0) else out)
      ≡ memcpy out p (replicate (align4 n - n) 0)
padding_lem out p n = elim (Bool-cases (ltb n (align4 n))) [
  | inl some_left ↦ rw some_left refl
  | inr none_left ↦ let nothing : align4 n - n ≡ 0 = ground arith in rw (none_left, nothing) refl
]

pub written :
    (p t n : ℕ) (payload pad out : List ℕ)
    → length payload ≡ n
    → t < 2 ^ 16
    → n < 2 ^ 16
    → p + 4 + n + length pad ≤ length out
    → let o2 = write_u16_be (write_u16_be out p t) (p + 2) n in
      let o4 = memcpy (memcpy o2 (p + 4) payload) (p + 4 + n) pad in
      (length o4 ≡ length out)
      × Holds p t n payload o4
      × ((j : ℕ) → j < p → get_or o4 j 0 ≡ get_or out j 0)
unfolding write_u16_be
written p t n payload pad out size small short fits =
    let word1 = u8 (t >> 8) ∷ u8 t ∷ [] in
    let word2 = u8 (n >> 8) ∷ u8 n ∷ [] in
    let o1 = memcpy out p word1 in
    let o2 = memcpy o1 (p + 2) word2 in
    let o3 = memcpy o2 (p + 4) payload in
    let n1 = length-memcpy out p word1 in
    let n2 = length-memcpy o1 (p + 2) word2 in
    let n3 = length-memcpy o2 (p + 4) payload in
    let q : ℕ = p + 4 + n in
    let f1 : p + length word1 ≤ length out = omega arith in
    let f2 : p + 2 + length word2 ≤ length o1 = omega (arith, n1) in
    let f3 : p + 4 + length payload ≤ length o2 = omega (arith, n1, n2) in
    let f4 : q + length pad ≤ length o3 = omega (arith, n1, n2, n3) in
    (
      length-memcpy o3 q pad ∙ n3 ∙ n2 ∙ n1,
      record {
        first =
            get_or-memcpy o3 q pad p f4 (omega arith)
            ∙ get_or-memcpy o2 (p + 4) payload p f3 (omega arith)
            ∙ get_or-memcpy o1 (p + 2) word2 p f2 (omega arith)
            ∙ ap (λ (j : ℕ). get_or o1 j 0) (omega arith)
            ∙ get_or-memcpy_at out p word1 0 f1 (omega arith)
            ∙ omega arith;
        word =
            read_u16-memcpy o3 q pad p f4 (omega arith)
            ∙ read_u16-memcpy o2 (p + 4) payload p f3 (omega arith)
            ∙ read_u16-memcpy o1 (p + 2) word2 p f2 (omega arith)
            ∙ read-write_u16 out p t f1 small;
        size =
            read_u16-memcpy o3 q pad (p + 2) f4 (omega arith)
            ∙ read_u16-memcpy o2 (p + 4) payload (p + 2) f3 (omega arith)
            ∙ read-write_u16 o1 (p + 2) n f2 short;
        bytes =
            slice-memcpy_before o3 q pad (p + 4) n f4 (omega arith)
            ∙ ap (slice o3 (p + 4)) (sym size)
            ∙ slice-memcpy o2 (p + 4) payload f3;
      },
      λ j h.
          get_or-memcpy o3 q pad j f4 (omega arith)
          ∙ get_or-memcpy o2 (p + 4) payload j f3 (omega arith)
          ∙ get_or-memcpy o1 (p + 2) word2 j f2 (omega arith)
          ∙ get_or-memcpy out p word1 j f1 h,
    )

slice-agree :
    (f g : List ℕ) (p n : ℕ)
    → ((j : ℕ) → j < p + n → get_or f j 0 ≡ get_or g j 0)
    → slice f p n ≡ slice g p n
slice-agree f g p zero h = refl
slice-agree f g p (suc n) h =
    ap₂ ◌∷◌ (h p (omega arith)) (slice-agree f g (p + 1) n (λ j k. h j (omega arith)))

-- A list that agrees with another up to the end of what that one holds, holds it too.
pub Holds-agree :
    {p t n : ℕ} {payload : List ℕ} (f g : List ℕ)
    → Holds p t n payload g
    → ((j : ℕ) → j < p + 4 + n → get_or f j 0 ≡ get_or g j 0)
    → Holds p t n payload f
unfolding read_u16_be
Holds-agree {p} {t} {n} f g held h = record {
  first = h p (omega arith) ∙ held.first;
  word = rw (h p (omega arith), h (p + 1) (omega arith)) held.word;
  size = rw (h (p + 2) (omega arith), h (p + 2 + 1) (omega arith)) held.size;
  bytes = slice-agree f g (p + 4) n h ∙ held.bytes;
}
