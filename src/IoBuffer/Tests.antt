-- ===== src/IoBuffer/Tests.antt =====
-- libx/x/buf/io.c: concrete buffers, over blocks of a few bytes where the size does not matter.
use x.Base.{
  ℕ, ◌<◌, zero, suc, ◌≤◌, ◌≡◌, take, refl, [], ◌∷◌, ◌++◌, Bool, true, arith, drop, length,
  replicate, length-replicate,
}
use x.IoBuffer.{block_at, Block, Ref, Buffer, Mem, block_size, init, read, consume, copy_to}
use x.IoBuffer.Append.{append}
use x.IoBuffer.Append.Alias.{of_ref, cut-append_overwrites}
use x.IoBuffer.Append.Counts.{append-counts}
use x.IoBuffer.Append.Own.{Own}
use x.IoBuffer.Append.Holds.{append-Holds}
use x.IoBuffer.Contents.{SameBytes}
use x.IoBuffer.Queue.{Counted, Dequeues, read-Dequeues, consume-Dequeues}
use x.IoBuffer.Cut.{cut}
use x.IoBuffer.Cut.Moves.{cut-Counted}

abbrev grant : ℕ → Bool
grant n = true

-- A block with the bytes 10, 11, 12, 13, and one with the bytes 20, 21.
abbrev two_blocks : Mem
two_blocks = record {
  blocks =
      record { refs = 1; size = 4; bytes = 10 ∷ 11 ∷ 12 ∷ 13 ∷ [] }
      ∷ record { refs = 1; size = 2; bytes = 20 ∷ 21 ∷ [] }
      ∷ [];
  pool = [];
}

-- A buffer that holds 11, 12, 13, 20, 21.
abbrev five : Buffer
five = record {
  refs = record { block = 0; offset = 1; len = 3 } ∷ record { block = 1; offset = 0; len = 2 } ∷ [];
  cap = 8;
  nbytes = 5;
}

five_bytes : copy_to five.refs two_blocks ≡ 11 ∷ 12 ∷ 13 ∷ 20 ∷ 21 ∷ []
unfolding copy_to
five_bytes = refl

five-Counted : Counted five two_blocks
unfolding copy_to
five-Counted = refl

init-Counted : Counted init two_blocks
unfolding copy_to init
init-Counted = refl

read-Dequeues_example :
    let r = read five 4 two_blocks in
    (r.1.out ≡ 11 ∷ 12 ∷ 13 ∷ 20 ∷ []) × Dequeues five 4 two_blocks r
unfolding copy_to
read-Dequeues_example = read-Dequeues five 4 two_blocks five-Counted

consume-Dequeues_example : Dequeues five 2 two_blocks (consume five 2 two_blocks)
consume-Dequeues_example = consume-Dequeues five 2 two_blocks five-Counted

cut-Counted_example :
    let (total, io, dst, m) = cut grant five init 4 two_blocks in
    (total ≤ 4)
    × (copy_to io.refs m ≡ drop total (copy_to five.refs two_blocks))
    × (copy_to dst.refs m
        ≡ copy_to init.refs two_blocks ++ take total (copy_to five.refs two_blocks))
    × Counted io m
    × Counted dst m
    × SameBytes m two_blocks
unfolding copy_to
cut-Counted_example = cut-Counted grant five init 4 two_blocks five-Counted init-Counted

-- A block of full size, of which a buffer holds the bytes from 5 to 14, all 7.
abbrev sevens : Mem
sevens = record {
  blocks = record { refs = 1; size = 15; bytes = replicate block_size 7 } ∷ [];
  pool = [];
}

abbrev ten : Ref
ten = record { block = 0; offset = 5; len = 10 }

append-counts_example : (append grant grant (of_ref ten) (1 ∷ 2 ∷ []) sevens).1.nbytes ≡ 12
unfolding append x.IoBuffer.Append.fill_tail x.IoBuffer.Append.append_blocks
append-counts_example = append-counts grant grant (of_ref ten) (1 ∷ 2 ∷ []) sevens refl

cut-append_overwrites_example :
    let (t, io, dst, m1) = cut grant (of_ref ten) init 4 sevens in
    let (e, dst', m2) = append grant grant dst (99 ∷ []) m1 in
    copy_to io.refs m2 ≡ 99 ∷ drop 5 (copy_to (ten ∷ []) sevens)
cut-append_overwrites_example =
    cut-append_overwrites grant grant sevens ten 4 99 (omega arith) (omega arith) (omega arith)
      (rw (length-replicate {A = ℕ} block_size 7) (omega arith))
      (length-replicate {A = ℕ} block_size 7)

ten-Own : Own (ten ∷ []) sevens
ten-Own = record {
  distinct = (tt, tt);
  known = (omega arith, tt);
  full = one_block;
  fits = (omega arith, tt);
}
  where
    one_block : (b : ℕ) → b < 1 → length (block_at sevens b).bytes ≡ block_size
    one_block zero h = length-replicate {A = ℕ} block_size 7
    one_block (suc b) h = absurd (omega arith)

append-Holds_example :
    let r = append grant grant (of_ref ten) (1 ∷ 2 ∷ []) sevens in
    (copy_to r.1.refs r.2 ≡ copy_to (ten ∷ []) sevens ++ 1 ∷ 2 ∷ []) × Own r.1.refs r.2
unfolding append x.IoBuffer.Append.fill_tail x.IoBuffer.Append.append_blocks
append-Holds_example = append-Holds grant grant (of_ref ten) (1 ∷ 2 ∷ []) sevens ten-Own refl
