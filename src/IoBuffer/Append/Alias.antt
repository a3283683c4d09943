-- ===== src/IoBuffer/Append/Alias.antt =====
-- libx/x/buf/io.c: appending to a buffer whose last block is shared with another buffer.
use x.Base.{
  ℕ, zero, suc, ◌+◌, ◌-◌, ◌≤◌, ◌<◌, ◌≡◌, refl, sym, ap, ap₂, ◌∙◌, List, [], ◌∷◌, ◌++◌, append-nil,
  Bool, true, false, arith, ltb, leb, ◌==◌, ==_iff, length, get_or, get_or-set, set, drop, slice,
  min, drop-exact, length-set, slice-append, length-slice,
}
use x.IoBuffer.{
  block_size, Block, Ref, Buffer, Mem, no_block, block_at, retain, push_ref, grow_refs, init,
  advance, copy_to,
}
use x.IoBuffer.Append.{fill_tail, copy_into, append_blocks, append}
use x.IoBuffer.Contents.{retain-SameBytes}
use x.IoBuffer.Cut.{cut_loop, cut}

slice-set_past : (xs : List ℕ) (p v q n : ℕ) → p < q → slice (set xs p v) q n ≡ slice xs q n
slice-set_past xs p v q zero h = refl
slice-set_past xs p v q (suc n) h =
    ap₂ ◌∷◌ (unseen xs p v q h) (slice-set_past xs p v (q + 1) n (omega arith))
  where
    unseen : (xs : List ℕ) (p v q : ℕ) → p < q → get_or (set xs p v) q 0 ≡ get_or xs q 0
    unseen [] p v q h = refl
    unseen (x ∷ xs) zero v zero h = absurd (omega arith)
    unseen (x ∷ xs) zero v (suc q) h = refl
    unseen (x ∷ xs) (suc p) v zero h = refl
    unseen (x ∷ xs) (suc p) v (suc q) h = unseen xs p v q (omega arith)

-- A byte written at the start of a range.
slice-set :
    (xs : List ℕ) (p v n : ℕ)
    → p < length xs
    → slice (set xs p v) p (suc n) ≡ v ∷ slice xs (p + 1) n
slice-set xs p v n h =
    ap₂ ◌∷◌ (get_or-set xs p p v 0 h ∙ rw ((==_iff p p).1 refl) refl)
      (slice-set_past xs p v (p + 1) n (omega arith))

-- The buffer that one reference makes.
abbrev pub of_ref : Ref → Buffer
of_ref r = record { refs = r ∷ []; cap = 8; nbytes = r.len }

module _ (alloc malloc : ℕ → Bool) (m : Mem) (r : Ref) (n x : ℕ) (some_taken : 0 < n)
    (some_left : n < r.len) (there : r.block < length m.blocks)
    (fits : r.offset + r.len ≤ length (block_at m r.block).bytes)
    (size : length (block_at m r.block).bytes ≡ block_size) where
  abbrev front : Ref
  front = record r { len = n }

  cut-front : cut alloc (of_ref r) init n m ≡ (
    n,
    record { refs = advance r n ∷ []; cap = 8; nbytes = r.len - n },
    record { refs = front ∷ []; cap = 8; nbytes = 0 + n },
    retain r.block m,
  )
  unfolding cut cut_loop push_ref grow_refs init
  cut-front =
      let e : min n r.len ≡ n = omega arith in
      let z : (n == 0) ≡ false = ground arith in
      let w : leb r.len n ≡ false = ground arith in rw (e, z, w) refl

  append-front :
      (m : Mem)
      → (append alloc malloc (record { refs = front ∷ []; cap = 8; nbytes = 0 + n }) (x ∷ []) m).2
        ≡ copy_into r.block (r.offset + n) (x ∷ []) m
  unfolding append fill_tail append_blocks
  append-front m =
      let avail = block_size - (r.offset + n) in
      let a : ltb 0 avail ≡ true = ground arith in
      let c : min 1 avail ≡ 1 = ground arith in rw (a, c) refl

  abbrev bytes : List ℕ
  bytes = (block_at m r.block).bytes

  written :
      (block_at (copy_into r.block (r.offset + n) (x ∷ []) (retain r.block m)) r.block).bytes
      ≡ set bytes (r.offset + n) x
  unfolding copy_into retain
  written =
      let m1 = retain r.block m in
      let inside : r.block < length m1.blocks = omega (
        arith,
        length-set m.blocks r.block
            (record (block_at m r.block) { refs = (block_at m r.block).refs + 1 }),
      ) in
      let filled : Block = record (block_at m1 r.block) {
        bytes = set (block_at m1 r.block).bytes (r.offset + n) x;
      } in
      let got : get_or (set m1.blocks r.block filled) r.block no_block ≡ filled =
        get_or-set m1.blocks r.block r.block filled no_block inside
        ∙ rw ((==_iff r.block r.block).1 refl) refl in
      ap (λ (b : Block). b.bytes) got
      ∙ ap (λ (bs : List ℕ). set bs (r.offset + n) x) (retain-SameBytes r.block m r.block)

  -- After a cut inside the one block of a buffer, of full size, into an empty buffer, both refer to
  -- the block, and xIOBufferAppend fills the space behind the destination's part, which is what the
  -- source still holds: a byte appended to the destination replaces the first byte left in the
  -- source.
  pub cut-append_overwrites :
      let (t, io, dst, m1) = cut alloc (of_ref r) init n m in
      let (e, dst', m2) = append alloc malloc dst (x ∷ []) m1 in
      copy_to io.refs m2 ≡ x ∷ drop (n + 1) (copy_to (r ∷ []) m)
  unfolding copy_to
  cut-append_overwrites =
      let at = r.offset + n in
      let k = r.len - n - 1 in
      let one : r.len - n ≡ suc k = omega arith in
      let all : r.len ≡ (n + 1) + k = omega arith in
      let place : r.offset + (n + 1) ≡ at + 1 = omega arith in
      let held : drop (n + 1) (slice bytes r.offset r.len ++ []) ≡ slice bytes (at + 1) k =
        ap (drop (n + 1)) (
          append-nil (slice bytes r.offset r.len)
          ∙ ap (slice bytes r.offset) all
          ∙ slice-append bytes r.offset (n + 1) k)
        ∙ drop-exact (n + 1) (slice bytes r.offset (n + 1)) _ (length-slice bytes r.offset (n + 1))
        ∙ ap (λ (p : ℕ). slice bytes p k) place in
      let after = copy_into r.block at (x ∷ []) (retain r.block m) in
      rw (cut-front, append-front (retain r.block m))
        (append-nil (slice (block_at after r.block).bytes at (r.len - n))
          ∙ ap₂ (λ (bs : List ℕ) (l : ℕ). slice bs at l) written one
          ∙ slice-set bytes at x k (omega arith)
          ∙ ap (λ (t : List ℕ). x ∷ t) (sym held))
