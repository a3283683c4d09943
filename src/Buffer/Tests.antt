-- ===== src/Buffer/Tests.antt =====
-- Runs of the buffer on concrete input.
use x.Base.{
  ℕ, ◌+◌, ◌^◌, ◌≤◌, ◌<◌, ◌≡◌, refl, [], ◌∷◌, ◌⊎◌, some, Bool, arith, ltb, ◌*◌, length, size_max,
  add_size, ltb,
}
use x.Base.Errno.{ok, no_memory}
use x.Buffer.{
  Buffer, buf_next_cap, resize, double_until, buf_grow, append, copy_behind, reserve, consume,
  compact, data_view, len, slide, writable, capacity, create,
}
use x.Buffer.Grow.{buf_next_cap_least}
use x.Buffer.Contents.{
  IsValid, contents, consume_correct, compact_correct, view_correct, create_empty,
}
use x.Buffer.Append.{Refused, append_correct, buf_grow_reallocates}
use x.Buffer.Reserve.{reserve_correct, reserve_wraps}

abbrev small_blocks : ℕ → Bool
small_blocks size = ltb size (2 ^ 63)

-- Two of four bytes are read.
abbrev half_read : Buffer
half_read = record { rpos = 2; wpos = 4; cap = 4; bytes = 10 ∷ 11 ∷ 12 ∷ 13 ∷ [] }

half_read-IsValid : IsValid half_read
half_read-IsValid = record {
  unread = omega arith;
  written = omega arith;
  whole = refl;
  block = omega arith;
}

-- One more byte makes the block grow, though two bytes at the front are free.
appended : append small_blocks (some half_read) (14 ∷ []) ≡ (
  ok,
  some (record { rpos = 2; wpos = 5; cap = 8; bytes = 10 ∷ 11 ∷ 12 ∷ 13 ∷ 14 ∷ 0 ∷ 0 ∷ 0 ∷ [] }),
)
unfolding append copy_behind buf_grow buf_next_cap double_until slide
appended = refl

append_correct_example :
    ((append small_blocks (some half_read) (14 ∷ []) ≡ (no_memory, some half_read))
      × (4 < 5)
      × Refused small_blocks 5)
    ⊎ ((g : Buffer) × (append small_blocks (some half_read) (14 ∷ []) ≡ (ok, some g))
        × IsValid g
        × (contents g ≡ 12 ∷ 13 ∷ 14 ∷ [])
        × (g.rpos ≡ 2))
append_correct_example =
    append_correct small_blocks half_read (14 ∷ []) half_read-IsValid (omega arith)

buf_grow_reallocates_example : buf_grow small_blocks half_read 5 ≡ (
  ok,
  record {
    rpos = 2;
    wpos = 4;
    cap = buf_next_cap 4 5;
    bytes = resize half_read.bytes (add_size 24 (buf_next_cap 4 5));
  },
)
unfolding buf_next_cap double_until
buf_grow_reallocates_example =
    buf_grow_reallocates small_blocks half_read 5 half_read-IsValid (omega arith)

reserve_correct_example :
    (g : Buffer) × IsValid g
    × (contents g ≡ 12 ∷ 13 ∷ [])
    × (((reserve small_blocks (some half_read) 3 ≡ (no_memory, some g)) × (4 < 5))
        ⊎ ((reserve small_blocks (some half_read) 3 ≡ (ok, some g)) × (g.wpos + 3 ≤ g.cap)))
reserve_correct_example = reserve_correct small_blocks half_read 3 half_read-IsValid (omega arith)

abbrev blank : Buffer
blank = record { rpos = 0; wpos = 0; cap = 2; bytes = 0 ∷ 0 ∷ [] }

reserve_wraps_example :
    (g : Buffer) × (reserve small_blocks (some blank) (2 ^ 63) ≡ (ok, some g))
    × (g.cap ≡ size_max)
    × (length g.bytes ≡ 0)
reserve_wraps_example =
    reserve_wraps small_blocks blank (2 ^ 63)
      (record { unread = omega arith; written = omega arith; whole = refl; block = omega arith })
      refl refl (omega arith) (omega arith)

buf_next_cap_least_example :
    (k : ℕ) × (buf_next_cap 0 100 ≡ 64 * 2 ^ k)
    × (100 ≤ 64 * 2 ^ k)
    × ((j : ℕ) → 100 ≤ 64 * 2 ^ j → k ≤ j)
buf_next_cap_least_example = buf_next_cap_least 0 100 (omega arith)

consume_correct_example :
    (b : Buffer) × (consume (some half_read) 1 ≡ some b) × IsValid b × (contents b ≡ 13 ∷ [])
consume_correct_example = consume_correct 1 half_read-IsValid

compact_correct_example :
    (b : Buffer) × (compact (some half_read) ≡ some b)
    × IsValid b
    × (contents b ≡ 12 ∷ 13 ∷ [])
    × (writable (some b) + len (some half_read) ≡ capacity (some half_read))
compact_correct_example = compact_correct half_read-IsValid

view_correct_example :
    (len (some half_read) ≡ 2) × (data_view (some half_read) ≡ some (12 ∷ 13 ∷ []))
view_correct_example = view_correct half_read-IsValid

create_empty_example :
    (b : Buffer) × (create small_blocks 0 ≡ some b) × IsValid b × (contents b ≡ []) × (b.cap ≡ 64)
create_empty_example = create_empty small_blocks 0 (omega arith) refl
