-- ===== src/Buffer/Contents.antt =====
-- The unread bytes of a buffer, and the operations that read, drop and move them.
use x.Base.{
  ℕ, zero, suc, ◌+◌, ◌-◌, ◌^◌, ◌≤◌, ◌<◌, ◌≡◌, refl, sym, ap, ap₂, ◌∙◌, inl, inr, List, [], ◌∷◌,
  none, some, Bool, true, arith, leb, ◌==◌, if◌then◌else◌, Bool-cases, length, drop, sub_size,
  add_size, memcpy, slice, length-slice, length-memcpy, slice-memcpy, add_size, length-replicate,
  length-append, length-take, take, replicate,
}
use x.Buffer.{
  Buffer, slide, data_view, len, writable, capacity, consume, compact, create, header_size, resize,
}

pub record IsValid (b : Buffer) : Type 0 where
  pub unread : b.rpos ≤ b.wpos
  pub written : b.wpos ≤ b.cap
  pub whole : length b.bytes ≡ b.cap
  pub block : b.cap < 2 ^ 63

-- The unread bytes, oldest first.
abbrev pub contents : Buffer → List ℕ
contents b = slice b.bytes b.rpos (b.wpos - b.rpos)

-- The positions do not wrap.
pub unread_size : {b : Buffer} → IsValid b → sub_size b.wpos b.rpos ≡ b.wpos - b.rpos
unread_size v = omega (arith, v.unread, v.written, v.block)

drop-slice : (xs : List ℕ) (p m n : ℕ) → m ≤ n → drop m (slice xs p n) ≡ slice xs (p + m) (n - m)
drop-slice xs p zero n h = ap₂ (slice xs) (omega arith) (omega arith)
drop-slice xs p (suc m) zero h = absurd (omega arith)
drop-slice xs p (suc m) (suc n) h =
    drop-slice xs (p + 1) m n (omega arith) ∙ ap₂ (slice xs) (shift p m) (omega arith)
  where
    shift : (p m : ℕ) → p + 1 + m ≡ p + suc m
    shift p m = omega arith

-- Moving the unread bytes to the front keeps them.
pub slide_lem :
    {b : Buffer}
    → IsValid b
    → IsValid (slide b)
      × (contents (slide b) ≡ contents b)
      × ((slide b).rpos ≡ 0)
      × ((slide b).wpos ≡ b.wpos - b.rpos)
      × ((slide b).cap ≡ b.cap)
unfolding slide
slide_lem {b} v =
    let n = unread_size v in
    let size = length-slice b.bytes b.rpos (sub_size b.wpos b.rpos) in
    let unread = slice b.bytes b.rpos (sub_size b.wpos b.rpos) in
    (
      record {
        unread = omega arith;
        written = omega (arith, n, v.written);
        whole = length-memcpy b.bytes 0 unread ∙ v.whole;
        block = v.block;
      },
      ap (slice (memcpy b.bytes 0 unread) 0) (omega (arith, size))
          ∙ slice-memcpy b.bytes 0 unread (omega (arith, size, n, v.whole, v.written))
          ∙ ap (slice b.bytes b.rpos) n,
      refl,
      n,
      refl,
    )

drop_past : (xs : List ℕ) (n : ℕ) → length xs ≤ n → drop n xs ≡ []
drop_past [] zero h = refl
drop_past [] (suc n) h = refl
drop_past (x ∷ xs) zero h = absurd (omega arith)
drop_past (x ∷ xs) (suc n) h = drop_past xs n (omega arith)

-- xBufferConsume drops that many of the oldest unread bytes, or all of them.
pub consume_correct :
    {b : Buffer} (n : ℕ)
    → IsValid b
    → (b' : Buffer) × (consume (some b) n ≡ some b')
      × IsValid b'
      × (contents b' ≡ drop n (contents b))
unfolding consume
consume_correct {b} n v =
    let count = unread_size v in
    let size = length-slice b.bytes b.rpos (b.wpos - b.rpos) in
    elim (Bool-cases (leb (sub_size b.wpos b.rpos) n)) [
      | inl all ↦ rw all (
        record b { rpos = 0; wpos = 0 },
        refl,
        record { unread = omega arith; written = omega arith; whole = v.whole; block = v.block },
        sym (drop_past (contents b) n (ground (arith, size, count))),
      )
      | inr part ↦
          let less : n < b.wpos - b.rpos = ground (arith, count) in
          let moved : add_size b.rpos n ≡ b.rpos + n = omega (arith, v.written, v.block) in
          rw part (
            record b { rpos = add_size b.rpos n },
            refl,
            record {
              unread = omega (arith, moved);
              written = v.written;
              whole = v.whole;
              block = v.block;
            },
            ap₂ (slice b.bytes) moved (omega (arith, moved))
                ∙ sym (drop-slice b.bytes b.rpos n (b.wpos - b.rpos) (omega arith)),
          )
    ]

-- xBufferCompact moves the unread bytes to the front and keeps them, so that all the room that is
-- not theirs is writable.
pub compact_correct :
    {b : Buffer}
    → IsValid b
    → (b' : Buffer) × (compact (some b) ≡ some b')
      × IsValid b'
      × (contents b' ≡ contents b)
      × (writable (some b') + len (some b) ≡ capacity (some b))
unfolding compact writable len capacity
compact_correct {b} v = elim (Bool-cases (b.rpos == 0)) [
  | inl front ↦
      let start : b.rpos ≡ 0 = ground arith in
      rw front (b, refl, v, refl, omega (arith, start, v.written, v.block))
  | inr behind ↦
      let (valid, same, front, end, cap) = slide_lem v in
      rw behind (slide b, refl, valid, same, omega (arith, end, cap, v.unread, v.written, v.block))
]

-- xBufferData and xBufferLen show the unread bytes, and NULL exactly when there are none.
pub view_correct :
    {b : Buffer}
    → IsValid b
    → (len (some b) ≡ length (contents b))
      × (data_view (some b) ≡ (if length (contents b) == 0 then none else some (contents b)))
unfolding len data_view
view_correct {b} v =
    let count = unread_size v in
    let size = length-slice b.bytes b.rpos (b.wpos - b.rpos) in
    (count ∙ sym size, rw count (ground (arith, size, v.unread)))

pub length-resize : (bytes : List ℕ) (size : ℕ) → length (resize bytes size) ≡ size - header_size
length-resize bytes size = omega (
  arith,
  length-append (take (size - header_size) bytes) (replicate (size - header_size - length bytes) 0),
  length-take (size - header_size) bytes,
  length-replicate (size - header_size - length bytes) (let z : ℕ = 0 in z),
)

-- xBufferCreate, for a capacity below 2^63, makes a valid buffer with nothing to read and just the
-- capacity asked for, 64 if that is 0, once the allocator grants the block.
pub create_empty :
    (malloc : ℕ → Bool) (initial_cap : ℕ)
    → initial_cap < 2 ^ 63
    → malloc (24 + (if initial_cap == 0 then 64 else initial_cap)) ≡ true
    → (b : Buffer) × (create malloc initial_cap ≡ some b)
      × IsValid b
      × (contents b ≡ [])
      × (b.cap ≡ (if initial_cap == 0 then 64 else initial_cap))
unfolding create
create_empty malloc initial_cap small granted =
    let cap = if initial_cap == 0 then 64 else initial_cap in
    let word : cap < 2 ^ 63 = ground arith in
    let size : add_size header_size cap ≡ 24 + cap = omega arith in
    rw (size, granted)
      (
        _,
        refl,
        record {
          unread = omega arith;
          written = omega arith;
          whole = length-resize [] (24 + cap) ∙ omega arith;
          block = word;
        },
        refl,
        refl,
      )
