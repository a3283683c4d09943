-- ===== src/IoBuffer/Append/Stored.antt =====
-- libx/x/buf/io.c, xIOBufferAppend: a new block with the next bytes behind a buffer.
use x.Base.{
  ℕ, ◌+◌, ◌≤◌, ◌<◌, ◌≡◌, ◌≢◌, sym, subst, ap, ap₂, ◌∙◌, List, [], ◌∷◌, ◌++◌, append_assoc,
  append-nil, arith, length, length-set, slice, slice-memcpy, memcpy, length-memcpy, All,
}
use x.IoBuffer.{block_size, Block, Ref, Mem, block_at, put_block, ref_bytes, copy_to}
use x.IoBuffer.Append.{copy_into}
use x.IoBuffer.Append.Own.{
  blocks_of, blocks_of-append, Distinct, Own, All-snoc, All-suffix, All-less, Distinct-snoc,
  copy_to_kept, put_block-kept, put_block-same, put_block-full,
}
use x.IoBuffer.Append.New.{Ready}
use x.IoBuffer.Cut.Moves.{copy_to-append}

-- The memory with `bs` in the new block `b`.
module _ (b : ℕ) (bs : List ℕ) (n : ℕ) (m1 : Mem) where
  abbrev copied : Mem
  copied = copy_into b 0 bs m1

  abbrev pub stored : Mem
  stored = put_block copied b (record (block_at copied b) { size = n })

module _ (b : ℕ) (bs : List ℕ) (n : ℕ) (rs : List Ref) (m1 m : Mem) (ready : Ready b rs m1 m)
    (long : length bs ≡ n) (short : n ≤ block_size) where
  abbrev pub new_ref : Ref
  new_ref = record { block = b; offset = 0; len = n }

  abbrev new_bytes : List ℕ
  new_bytes = memcpy (block_at m1 b).bytes 0 bs

  long-copied : length (copied b bs n m1).blocks ≡ length m1.blocks
  unfolding copy_into
  long-copied = length-set m1.blocks b (record (block_at m1 b) { bytes = new_bytes })

  long-stored : length (stored b bs n m1).blocks ≡ length m1.blocks
  long-stored =
      length-set (copied b bs n m1).blocks b (record (block_at (copied b bs n m1) b) { size = n })
      ∙ long-copied

  copied-bytes : (block_at (copied b bs n m1) b).bytes ≡ new_bytes
  unfolding copy_into
  copied-bytes =
      ap (λ (t : Block). t.bytes)
        (put_block-same m1 b (record (block_at m1 b) { bytes = new_bytes }) ready.inside)

  stored-bytes : (block_at (stored b bs n m1) b).bytes ≡ new_bytes
  stored-bytes =
      ap (λ (t : Block). t.bytes)
        (put_block-same (copied b bs n m1) b (record (block_at (copied b bs n m1) b) { size = n })
          (omega (arith, long-copied, ready.inside)))
      ∙ copied-bytes

  stored-kept : copy_to rs (stored b bs n m1) ≡ copy_to rs m
  unfolding copy_into
  stored-kept =
      let apart = All-suffix (λ y. b ≢ y) m1.pool (blocks_of rs) ready.apart in
      copy_to_kept rs (copied b bs n m1) (stored b bs n m1)
        (put_block-kept (copied b bs n m1) b _ (blocks_of rs) apart)
      ∙ copy_to_kept rs m1 (copied b bs n m1) (put_block-kept m1 b _ (blocks_of rs) apart)
      ∙ ready.kept

  pub stored-holds : copy_to (rs ++ new_ref ∷ []) (stored b bs n m1) ≡ copy_to rs m ++ bs
  unfolding copy_to
  stored-holds =
      let room = ready.full b ready.inside in
      copy_to-append rs (new_ref ∷ []) (stored b bs n m1)
      ∙ ap₂ (λ (x : List ℕ) (y : List ℕ). x ++ y) stored-kept
          (append-nil (ref_bytes (stored b bs n m1) new_ref n)
            ∙ ap (λ (x : List ℕ). slice x 0 n) stored-bytes
            ∙ ap (slice new_bytes 0) (sym long)
            ∙ slice-memcpy (block_at m1 b).bytes 0 bs (omega arith))

  pub stored-Own :
      All (λ (r : Ref). r.offset + r.len ≤ block_size) rs
      → Own (rs ++ new_ref ∷ []) (stored b bs n m1)
  unfolding copy_into
  stored-Own fits =
      let path = sym (
        ap (λ (t : List ℕ). m1.pool ++ t) (blocks_of-append rs (new_ref ∷ []))
        ∙ sym (append_assoc m1.pool (blocks_of rs) (b ∷ []))) in
      let room = ready.full b ready.inside in
      record {
        distinct =
            subst Distinct path
              (Distinct-snoc (m1.pool ++ blocks_of rs) b ready.distinct ready.apart);
        known =
            All-less (length m1.blocks) (length (stored b bs n m1).blocks) _
              (omega (arith, long-stored))
              (subst (All (λ j. j < length m1.blocks)) path (
                All-snoc (λ j. j < length m1.blocks) (m1.pool ++ blocks_of rs) b ready.known
                  ready.inside));
        full =
            put_block-full (copied b bs n m1) b _
              (ap (λ (t : List ℕ). length t) copied-bytes
                ∙ length-memcpy (block_at m1 b).bytes 0 bs
                ∙ room)
              (put_block-full m1 b _ (length-memcpy (block_at m1 b).bytes 0 bs ∙ room) ready.full);
        fits = All-snoc (λ (r : Ref). r.offset + r.len ≤ block_size) rs new_ref fits (omega arith);
      }
