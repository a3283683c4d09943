-- ===== src/IoBuffer/Append/Tail.antt =====
-- libx/x/buf/io.c, xIOBufferAppend: filling the last block of a buffer that owns it.
use x.Base.{
  ℕ, ◌+◌, ◌-◌, ◌≤◌, ◌<◌, ◌≡◌, ◌≢◌, refl, sym, subst, ap, ap₂, ◌∙◌, inl, inr, List, [], ◌∷◌, ◌++◌,
  append_assoc, append-nil, some, none, arith, ltb, Bool-cases, length, length-take, length-set,
  take, drop, take-append-drop, slice, slice-append, slice-memcpy, slice-memcpy_before, memcpy,
  length-memcpy, min, All,
}
use x.IoBuffer.{block_size, Block, Ref, Buffer, Mem, block_at, ref_bytes, copy_to}
use x.IoBuffer.Append.{last_ref, on_last, copy_into, Progress, fill_tail}
use x.IoBuffer.Append.Own.{
  blocks_of, Distinct, Own, All-suffix, All-less, Distinct-suffix, put_block-kept, put_block-same,
  put_block-full,
}

abbrev last1 : Ref → List Ref → Ref
last1 r [] = r
last1 r (s ∷ rs) = last1 s rs

last_ref-last1 : (r : Ref) (rs : List Ref) → last_ref (r ∷ rs) ≡ some (last1 r rs)
last_ref-last1 r [] = refl
last_ref-last1 r (s ∷ rs) = last_ref-last1 s rs

-- What holds of all holds of the last.
All-last {κ} : (P : Ref → Type κ) (r : Ref) (rs : List Ref) → All P (r ∷ rs) → P (last1 r rs)
All-last P r [] (h, hs) = h
All-last P r (s ∷ rs) (h, hs) = All-last P s rs hs

All-last_block {κ} :
    (P : ℕ → Type κ) (r : Ref) (rs : List Ref) → All P (blocks_of (r ∷ rs)) → P (last1 r rs).block
All-last_block P r [] (h, hs) = h
All-last_block P r (s ∷ rs) (h, hs) = All-last_block P s rs hs

abbrev longer : ℕ → Ref → Ref
longer n r = record r { len = r.len + n }

blocks_of-on_last : (n : ℕ) (rs : List Ref) → blocks_of (on_last (longer n) rs) ≡ blocks_of rs
blocks_of-on_last n [] = refl
blocks_of-on_last n (r ∷ []) = refl
blocks_of-on_last n (r ∷ s ∷ rs) = ap (λ t. r.block ∷ t) (blocks_of-on_last n (s ∷ rs))

abbrev Fits : Ref → Type 0
Fits r = r.offset + r.len ≤ block_size

on_last-Fits :
    (n : ℕ) (r : Ref) (rs : List Ref)
    → All Fits (r ∷ rs)
    → (last1 r rs).offset + (last1 r rs).len + n ≤ block_size
    → All Fits (on_last (longer n) (r ∷ rs))
on_last-Fits n r [] h room = (omega arith, tt)
on_last-Fits n r (s ∷ rs) (h, hs) room = (h, on_last-Fits n s rs hs room)

copy_to-on_last :
    (n : ℕ) (bs : List ℕ) (m : Mem) (r : Ref) (rs : List Ref)
    → let t = last1 r rs in
      length bs ≡ n
      → Distinct (blocks_of (r ∷ rs))
      → t.block < length m.blocks
      → t.offset + t.len + n ≤ length (block_at m t.block).bytes
      → copy_to (on_last (longer n) (r ∷ rs)) (copy_into t.block (t.offset + t.len) bs m)
        ≡ copy_to (r ∷ rs) m ++ bs
unfolding copy_to copy_into
copy_to-on_last n bs m r [] long d inside room =
    let old = (block_at m r.block).bytes in
    let at = r.offset + r.len in
    let new = memcpy old at bs in
    let got =
      ap (λ (b : Block). slice b.bytes r.offset (r.len + n) ++ [])
        (put_block-same m r.block (record (block_at m r.block) { bytes = new }) inside) in
    let front = slice-memcpy_before old at bs r.offset r.len (omega arith) (omega arith) in
    let back : slice new at n ≡ bs =
      ap (slice new at) (sym long) ∙ slice-memcpy old at bs (omega arith) in
    got
    ∙ append-nil (slice new r.offset (r.len + n))
    ∙ slice-append new r.offset r.len n
    ∙ ap₂ (λ (x : List ℕ) (y : List ℕ). x ++ y) (front ∙ sym (append-nil _)) back
copy_to-on_last n bs m r (s ∷ rs) long (apart, d) inside room =
    let t = last1 s rs in
    let other =
      put_block-kept m t.block _ (r.block ∷ [])
        ((λ e. All-last_block (λ y. r.block ≢ y) s rs apart (sym e)), tt) in
    ap₂ (λ (x : List ℕ) (y : List ℕ). slice x r.offset r.len ++ y) other.0
      (copy_to-on_last n bs m s rs long d inside room)
    ∙ sym (append_assoc (ref_bytes m r r.len) (copy_to (s ∷ rs) m) bs)

-- Filling the last block moves bytes from what is left to append to the end of the buffer.
pub record Filled (io : Buffer) (src : List ℕ) (m : Mem) (p : Progress) : Type 0 where
  pub moved : copy_to p.io.refs p.mem ++ p.left ≡ copy_to io.refs m ++ src
  pub own : Own p.io.refs p.mem

module _ (r : Ref) (rs : List Ref) (cap nbytes : ℕ) (src : List ℕ) (m : Mem)
    (own : Own (r ∷ rs) m) where
  abbrev whole : Buffer
  whole = record { refs = r ∷ rs; cap = cap; nbytes = nbytes }

  abbrev tail : Ref
  tail = last1 r rs

  abbrev chunk : ℕ
  chunk = min (length src) (block_size - (tail.offset + tail.len))

  inside : tail.block < length m.blocks
  inside =
      All-last_block (λ b. b < length m.blocks) r rs
        (All-suffix (λ b. b < length m.blocks) m.pool (blocks_of (r ∷ rs)) own.known)

  fits : tail.offset + tail.len ≤ block_size
  fits = All-last Fits r rs own.fits

  long : length (take chunk src) ≡ chunk
  long = omega (arith, length-take chunk src)

  full : length (block_at m tail.block).bytes ≡ block_size
  full = own.full tail.block inside

  abbrev mem : Mem
  mem = copy_into tail.block (tail.offset + tail.len) (take chunk src) m

  filled-moved :
      copy_to (on_last (longer chunk) (r ∷ rs)) mem ++ drop chunk src ≡ copy_to (r ∷ rs) m ++ src
  filled-moved =
      let room : tail.offset + tail.len + chunk ≤ length (block_at m tail.block).bytes =
        omega (arith, fits, full) in
      ap (λ (x : List ℕ). x ++ drop chunk src)
        (copy_to-on_last chunk (take chunk src) m r rs long
          (Distinct-suffix m.pool (blocks_of (r ∷ rs)) own.distinct) inside room)
      ∙ append_assoc (copy_to (r ∷ rs) m) (take chunk src) (drop chunk src)
      ∙ ap (λ (x : List ℕ). copy_to (r ∷ rs) m ++ x) (take-append-drop chunk src)

  filled-Own : Own (on_last (longer chunk) (r ∷ rs)) mem
  unfolding copy_into
  filled-Own =
      let bytes = memcpy (block_at m tail.block).bytes (tail.offset + tail.len) (take chunk src) in
      let block : Block = record (block_at m tail.block) { bytes = bytes } in
      let same = sym (blocks_of-on_last chunk (r ∷ rs)) in
      record {
        distinct = subst (λ (bs : List ℕ). Distinct (m.pool ++ bs)) same own.distinct;
        known =
            All-less (length m.blocks) (length mem.blocks) _
              (omega (arith, length-set m.blocks tail.block block))
              (subst (λ (bs : List ℕ). All (λ b. b < length m.blocks) (m.pool ++ bs)) same
                own.known);
        full =
            put_block-full m tail.block block
              (length-memcpy (block_at m tail.block).bytes (tail.offset + tail.len) (take chunk src)
                ∙ full)
              own.full;
        fits = on_last-Fits chunk r rs own.fits (omega (arith, fits));
      }

  filled-Filled : Filled whole src m (fill_tail (last_ref (r ∷ rs)) whole src m)
  unfolding fill_tail
  filled-Filled =
      rw (last_ref-last1 r rs) (elim (Bool-cases (ltb 0 (block_size - (tail.offset + tail.len)))) [
        | inl room ↦ rw room (record { moved = filled-moved; own = filled-Own })
        | inr none_left ↦ rw none_left (record { moved = refl; own = own })
      ])

nothing :
    (io : Buffer) (src : List ℕ) (m : Mem)
    → Own io.refs m
    → Filled io src m (fill_tail none io src m)
unfolding fill_tail
nothing io src m own = record { moved = refl; own = own }

pub fill_tail-Filled :
    (io : Buffer) (src : List ℕ) (m : Mem)
    → Own io.refs m
    → Filled io src m (fill_tail (last_ref io.refs) io src m)
fill_tail-Filled io src m own = go io.refs io.cap io.nbytes own
  where
    go :
        (rs : List Ref) (cap nbytes : ℕ)
        → Own rs m
        → let io : Buffer = record { refs = rs; cap = cap; nbytes = nbytes } in
          Filled io src m (fill_tail (last_ref rs) io src m)
    go [] cap nbytes own = nothing (record { refs = []; cap = cap; nbytes = nbytes }) src m own
    go (r ∷ rs) cap nbytes own = filled-Filled r rs cap nbytes src m own
