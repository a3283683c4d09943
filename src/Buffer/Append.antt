-- ===== src/Buffer/Append.antt =====
-- xBufferAppend and xBufferReserve, by what buf_grow does.
use x.Base.{
  ℕ, zero, suc, ◌+◌, ◌-◌, ◌^◌, ◌≤◌, ◌<◌, ◌≡◌, refl, sym, ap, ap₂, ◌∙◌, inl, inr, ◌⊎◌, List, [], ◌∷◌,
  ◌++◌, some, Bool, true, false, arith, ltb, leb, ◌==◌, if◌then◌else◌, Bool-cases, length, take,
  get_or, sub_size, add_size, memcpy, slice, length-memcpy, slice-memcpy, slice-memcpy_before,
  slice-append, length-eq-zero, replicate,
}
use x.Base.Errno.{Errno, ok, no_memory}
use x.Buffer.{Buffer, buf_next_cap, header_size, resize, buf_grow, append, copy_behind}
use x.Buffer.Grow.{buf_next_cap_bounds}
use x.Buffer.Contents.{IsValid, contents, length-resize, unread_size}

-- A range within a list is the range of its prefix, whatever follows.
get_or-resize :
    (xs ys : List ℕ) (n i : ℕ)
    → i < n
    → i < length xs
    → get_or (take n xs ++ ys) i 0 ≡ get_or xs i 0
get_or-resize [] ys n i h k = absurd (omega arith)
get_or-resize (x ∷ xs) ys zero i h k = absurd (omega arith)
get_or-resize (x ∷ xs) ys (suc n) zero h k = refl
get_or-resize (x ∷ xs) ys (suc n) (suc i) h k = get_or-resize xs ys n i (omega arith) (omega arith)

slice-resize :
    (xs ys : List ℕ) (n p m : ℕ)
    → p + m ≤ n
    → p + m ≤ length xs
    → slice (take n xs ++ ys) p m ≡ slice xs p m
slice-resize xs ys n p zero h k = refl
slice-resize xs ys n p (suc m) h k =
    ap₂ ◌∷◌ (get_or-resize xs ys n p (omega arith) (omega arith))
      (slice-resize xs ys n (p + 1) m (omega arith) (omega arith))

-- What buf_grow leaves when it succeeds: the same bytes at the same positions, in a block with the
-- room asked for.
pub record Grown (b : Buffer) (needed : ℕ) (g : Buffer) : Type 0 where
  pub valid : IsValid g
  pub same : contents g ≡ contents b
  pub rpos : g.rpos ≡ b.rpos
  pub wpos : g.wpos ≡ b.wpos
  pub room : needed ≤ g.cap

-- buf_grow on a valid buffer never slides the unread bytes to the front, however many bytes have
-- been read: either the room is there already, or the block is reallocated.
pub buf_grow_reallocates :
    (realloc : ℕ → Bool) (b : Buffer) (needed : ℕ)
    → IsValid b
    → needed < 2 ^ 63
    → buf_grow realloc b needed ≡ (
        if leb needed b.cap
        then (ok, b)
        else if realloc (add_size 24 (buf_next_cap b.cap needed))
        then (
          ok,
          record b {
            cap = buf_next_cap b.cap needed;
            bytes = resize b.bytes (add_size 24 (buf_next_cap b.cap needed));
          },
        )
        else (no_memory, b))
unfolding buf_grow
buf_grow_reallocates realloc b needed v small = elim (Bool-cases (leb needed b.cap)) [
  | inl enough ↦ rw enough
  | inr short ↦
      let over : leb (add_size (sub_size b.wpos b.rpos) needed) b.cap ≡ false =
        ground (arith, unread_size v, v.written, v.block) in
      rw (short, over) (same_either_way (ltb 0 b.rpos) _)
]
  where
    same_either_way : (c : Bool) (r : Errno × Buffer) → (if c then r else r) ≡ r
    same_either_way true r = refl
    same_either_way false r = refl

-- A reallocated block keeps the unread bytes where they are.
reallocated :
    (b : Buffer) (needed c : ℕ)
    → IsValid b
    → b.cap < needed
    → needed ≤ c
    → c < 2 ^ 63
    → Grown b needed (record b { cap = c; bytes = resize b.bytes (add_size header_size c) })
reallocated b needed c v short enough word =
    let size : add_size header_size c ≡ header_size + c = omega arith in
    let part : ℕ = add_size header_size c - header_size in
    record {
      valid = record {
        unread = v.unread;
        written = omega (arith, v.written);
        whole = length-resize b.bytes (add_size header_size c) ∙ omega arith;
        block = word;
      };
      same =
          slice-resize b.bytes (replicate (part - length b.bytes) 0) part b.rpos (b.wpos - b.rpos)
            (omega (arith, v.unread, v.written)) (omega (arith, v.unread, v.written, v.whole));
      rpos = refl;
      wpos = refl;
      room = enough;
    }

-- The allocator refuses a block that has room for `needed` bytes behind the header.
abbrev pub Refused : (ℕ → Bool) → ℕ → Type 0
Refused realloc needed = (n : ℕ) × (needed + 24 ≤ n) × (realloc n ≡ false)

pub buf_grow_lem :
    (realloc : ℕ → Bool) (b : Buffer) (needed : ℕ)
    → IsValid b
    → needed ≤ 2 ^ 62
    → ((buf_grow realloc b needed ≡ (no_memory, b)) × (b.cap < needed) × Refused realloc needed)
      ⊎ ((g : Buffer) × (buf_grow realloc b needed ≡ (ok, g)) × Grown b needed g)
buf_grow_lem realloc b needed v small =
    let c = buf_next_cap b.cap needed in
    let (enough, word) = buf_next_cap_bounds b.cap needed v.block small in
    rw (buf_grow_reallocates realloc b needed v (omega arith))
      (elim (Bool-cases (leb needed b.cap)) [
        | inl fits ↦ rw fits (
            inr (
              b,
              refl,
              record { valid = v; same = refl; rpos = refl; wpos = refl; room = ground arith },
            ))
        | inr short ↦ rw short (elim (Bool-cases (realloc (add_size 24 c))) [
          | inl granted ↦
              rw granted (inr (_, refl, reallocated b needed c v (ground arith) enough word))
          | inr refused ↦
              rw refused (inl (refl, ground arith, (add_size 24 c, omega arith, refused)))
        ])
      ])

-- The unread bytes of a buffer once `src` is copied in behind them.
contents_after :
    {g : Buffer} (src : List ℕ)
    → IsValid g
    → g.wpos + length src ≤ g.cap
    → slice (memcpy g.bytes g.wpos src) g.rpos (g.wpos + length src - g.rpos) ≡ contents g ++ src
contents_after {g} src v room =
    let fits : g.wpos + length src ≤ length g.bytes = omega (arith, v.whole) in
    let split : g.wpos + length src - g.rpos ≡ g.wpos - g.rpos + length src =
      omega (arith, v.unread) in
    let start : g.rpos + (g.wpos - g.rpos) ≡ g.wpos = omega (arith, v.unread) in
    let new = memcpy g.bytes g.wpos src in
    ap (slice new g.rpos) split
    ∙ slice-append new g.rpos (g.wpos - g.rpos) (length src)
    ∙ ap₂ ◌++◌ (slice-memcpy_before g.bytes g.wpos src g.rpos (g.wpos - g.rpos) fits (omega arith))
        (ap (λ (p : ℕ). slice new p (length src)) start ∙ slice-memcpy g.bytes g.wpos src fits)

added_none : (xs : List ℕ) {src : List ℕ} → src ≡ [] → xs ≡ xs ++ src
added_none [] e = sym e
added_none (x ∷ xs) e = ap (λ t. x ∷ t) (added_none xs e)

extended :
    {g : Buffer} (src : List ℕ)
    → IsValid g
    → g.wpos + length src ≤ g.cap
    → IsValid (record g { wpos = g.wpos + length src; bytes = memcpy g.bytes g.wpos src })
extended {g} src v room = record {
  unread = omega (arith, v.unread);
  written = room;
  whole = length-memcpy g.bytes g.wpos src ∙ v.whole;
  block = v.block;
}

-- xBufferAppend on a valid buffer, for sizes up to 2^62: the bytes stand behind the unread ones, in
-- a valid buffer whose read position did not move; or the block has no room for them, the allocator
-- refuses one that has, and the answer is NoMemory and the same buffer.
pub append_correct :
    (realloc : ℕ → Bool) (b : Buffer) (src : List ℕ)
    → IsValid b
    → b.wpos + length src ≤ 2 ^ 62
    → ((append realloc (some b) src ≡ (no_memory, some b))
        × (b.cap < b.wpos + length src)
        × Refused realloc (b.wpos + length src))
      ⊎ ((g : Buffer) × (append realloc (some b) src ≡ (ok, some g))
          × IsValid g
          × (contents g ≡ contents b ++ src)
          × (g.rpos ≡ b.rpos))
unfolding append copy_behind
append_correct realloc b src v small =
    let word : add_size b.wpos (length src) ≡ b.wpos + length src = omega arith in
    elim (Bool-cases (length src == 0)) [
      | inl none_left ↦
          let nothing : src ≡ [] = length-eq-zero src (ground arith) in
          rw none_left (inr (b, refl, v, added_none (contents b) nothing, refl))
      | inr some_left ↦
          rw (some_left, word)
            (elim (buf_grow_lem realloc b (b.wpos + length src) v small) [
              | inl (failed, short, refused) ↦ rw failed (inl (refl, short, refused))
              | inr (g, grown, same) ↦ rw grown (
                  let next : add_size g.wpos (length src) ≡ g.wpos + length src =
                    omega (arith, same.wpos) in
                  let room : g.wpos + length src ≤ g.cap = omega (arith, same.wpos, same.room) in
                  rw next (
                    inr (
                      _,
                      refl,
                      extended src same.valid room,
                      contents_after src same.valid room ∙ ap (λ u. u ++ src) same.same,
                      same.rpos,
                    )))
            ])
    ]
