-- ===== src/Buffer/Reserve.antt =====
-- xBufferReserve, and what it does for a size no block can have.
use x.Base.{
  ℕ, ◌+◌, ◌-◌, ◌/◌, ◌^◌, ◌≤◌, ◌<◌, ◌≡◌, refl, ◌∙◌, inl, inr, ◌⊎◌, some, Bool, true, false, arith,
  ltb, leb, Bool-cases, length, add_size, size_max,
}
use x.Base.Errno.{ok, no_memory}
use x.Buffer.{Buffer, buf_next_cap, resize, pack, buf_grow, reserve}
use x.Buffer.Contents.{IsValid, contents, length-resize, slide_lem}
use x.Buffer.Append.{buf_grow_lem}

pack_lem :
    {b : Buffer}
    → IsValid b
    → IsValid (pack b)
      × (contents (pack b) ≡ contents b)
      × ((pack b).rpos ≡ 0)
      × ((pack b).wpos ≡ b.wpos - b.rpos)
      × ((pack b).cap ≡ b.cap)
unfolding pack
pack_lem {b} v = elim (Bool-cases (ltb 0 b.rpos)) [
  | inl some_read ↦ rw some_read (slide_lem v)
  | inr none_read ↦ rw none_read (v, refl, ground arith, ground arith, refl)
]

-- xBufferReserve on a valid buffer, for sizes up to 2^62: either the allocator refused, the unread
-- bytes and the requested room do not fit the block together, and the unread bytes are the same as
-- before, or they are the same and the room asked for stands behind them, in a valid buffer.
pub reserve_correct :
    (realloc : ℕ → Bool) (b : Buffer) (additional : ℕ)
    → IsValid b
    → b.wpos + additional ≤ 2 ^ 62
    → (g : Buffer) × IsValid g
      × (contents g ≡ contents b)
      × (((reserve realloc (some b) additional ≡ (no_memory, some g))
            × (b.cap < b.wpos - b.rpos + additional))
          ⊎ ((reserve realloc (some b) additional ≡ (ok, some g)) × (g.wpos + additional ≤ g.cap)))
unfolding reserve
reserve_correct realloc b additional v small =
    let (pv, kept, front, back, size) = pack_lem v in
    let word : add_size (pack b).wpos additional ≡ (pack b).wpos + additional =
      omega (arith, back) in
    elim (buf_grow_lem realloc (pack b) ((pack b).wpos + additional) pv (omega (arith, back))) [
      | inl (refused, short, _) ↦
          (pack b, pv, kept, inl (rw (word, refused) refl, omega (arith, back, size, short)))
      | inr (g, grown, same) ↦ (
        g,
        same.valid,
        same.same ∙ kept,
        inr (rw (word, grown) refl, omega (arith, same.wpos, same.room)),
      )
    ]

grow_huge :
    (realloc : ℕ → Bool) (b : Buffer) (needed : ℕ)
    → IsValid b
    → b.rpos ≡ 0
    → realloc 23 ≡ true
    → 2 ^ 63 ≤ needed
    → buf_grow realloc b needed ≡ (ok, record b { cap = size_max; bytes = resize b.bytes 23 })
unfolding buf_grow buf_next_cap
grow_huge realloc b needed v unread granted huge =
    let front : ltb 0 b.rpos ≡ false = ground arith in
    let short : leb needed b.cap ≡ false = ground (arith, v.block) in
    let over : ltb (size_max / 2) needed ≡ true = ground arith in
    rw (short, front, over, granted) refl

packed_already : (b : Buffer) → b.rpos ≡ 0 → pack b ≡ b
unfolding pack
packed_already b e = let front : ltb 0 b.rpos ≡ false = ground arith in rw front refl

-- In a valid buffer whose read position is 0, a request that takes the bytes needed to 2^63 or
-- more, and not to 2^64, makes buf_next_cap answer 2^64 - 1, and the size of the block wraps to 23
-- bytes: when the allocator grants those, xBufferReserve reports success and leaves a capacity of
-- 2^64 - 1 over no data at all.
pub reserve_wraps :
    (realloc : ℕ → Bool) (b : Buffer) (additional : ℕ)
    → IsValid b
    → b.rpos ≡ 0
    → realloc 23 ≡ true
    → 2 ^ 63 ≤ b.wpos + additional
    → b.wpos + additional < 2 ^ 64
    → (g : Buffer) × (reserve realloc (some b) additional ≡ (ok, some g))
      × (g.cap ≡ size_max)
      × (length g.bytes ≡ 0)
unfolding reserve
reserve_wraps realloc b additional v unread granted huge word =
    let sum : add_size b.wpos additional ≡ b.wpos + additional = omega arith in
    rw
      (
        packed_already b unread,
        sum,
        grow_huge realloc b (b.wpos + additional) v unread granted huge,
      )
      (_, refl, refl, length-resize b.bytes 23)
