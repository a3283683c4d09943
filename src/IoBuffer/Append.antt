-- ===== src/IoBuffer/Append.antt =====
-- libx/x/buf/io.c, xIOBufferAppend: filling the last block, then new ones.
pub mod Alias
pub mod Counts
pub mod Own
pub mod New
pub mod Tail
pub mod Stored
pub mod Holds
use x.Base.{
  ℕ, zero, suc, ◌+◌, ◌-◌, List, [], ◌∷◌, Bool, true, false, Option, some, none, ltb, ◌==◌,
  if◌then◌else◌, length, take, drop, memcpy, min,
}
use x.Base.Errno.{Errno, ok, no_memory}
use x.IoBuffer.{
  block_size, Block, Ref, Buffer, Mem, block_at, put_block, acquire, release, push_ref,
}

-- The last reference, and the references with the last one changed.
abbrev pub last_ref : List Ref → Option Ref
last_ref [] = none
last_ref (r ∷ []) = some r
last_ref (r ∷ s ∷ rs) = last_ref (s ∷ rs)

abbrev pub on_last : (Ref → Ref) → List Ref → List Ref
on_last f [] = []
on_last f (r ∷ []) = f r ∷ []
on_last f (r ∷ s ∷ rs) = r ∷ on_last f (s ∷ rs)

-- The copy of `bytes` into a block at `at`.
unfoldable pub copy_into : ℕ → ℕ → List ℕ → Mem → Mem
copy_into b at bytes m =
    put_block m b (record (block_at m b) { bytes = memcpy (block_at m b).bytes at bytes })

-- A buffer, the bytes that are left to append, and the memory.
pub record Progress : Type 0 where
  pub io : Buffer
  pub left : List ℕ
  pub mem : Mem

-- The first part of xIOBufferAppend, on the last reference.
unfoldable pub fill_tail : Option Ref → Buffer → List ℕ → Mem → Progress
fill_tail none io src m = record { io = io; left = src; mem = m }
fill_tail (some tail) io src m =
    let avail = block_size - (tail.offset + tail.len) in
    let chunk = min (length src) avail in
    if ltb 0 avail
    then record {
      io = record io {
        refs = on_last (λ r. record r { len = r.len + chunk }) io.refs;
        nbytes = io.nbytes + chunk;
      };
      left = drop chunk src;
      mem = copy_into tail.block (tail.offset + tail.len) (take chunk src) m;
    }
    else record { io = io; left = src; mem = m }

-- What follows in a round of the loop when the block is there, and when its reference is pushed.
abbrev pub after_push :
    ℕ → Mem → (Buffer → Errno × Buffer × Mem) → Errno × Buffer → Errno × Buffer × Mem
after_push b m next (ok, io) = next io
after_push b m next (e, io) = (e, io, release b m)

abbrev pub after_acquire :
    Buffer → (ℕ → Mem → Errno × Buffer × Mem) → Option ℕ × Mem → Errno × Buffer × Mem
after_acquire io next (none, m) = (no_memory, io, m)
after_acquire io next (some b, m) = next b m

-- The loop over new blocks, for at most `n` rounds; each takes at least a byte.
unfoldable pub append_blocks :
    (ℕ → Bool) → (ℕ → Bool) → ℕ → Buffer → List ℕ → Mem → Errno × Buffer × Mem
append_blocks alloc malloc zero io src m = (ok, io, m)
append_blocks alloc malloc (suc n) io src m =
    let chunk = min (length src) block_size in
    let filled = λ (b : ℕ) (m1 : Mem).
      let m2 = copy_into b 0 (take chunk src) m1 in
      put_block m2 b (record (block_at m2 b) { size = chunk }) in
    if length src == 0
    then (ok, io, m)
    else after_acquire io
        (λ b m1.
          after_push b (filled b m1)
            (λ io. append_blocks alloc malloc n io (drop chunk src) (filled b m1))
            (push_ref alloc io (record { block = b; offset = 0; len = chunk }) true))
        (acquire malloc m)

-- xIOBufferAppend
unfoldable pub append : (ℕ → Bool) → (ℕ → Bool) → Buffer → List ℕ → Mem → Errno × Buffer × Mem
append alloc malloc io src m =
    let p = fill_tail (last_ref io.refs) io src m in
    if length src == 0
    then (ok, io, m)
    else append_blocks alloc malloc (length p.left) p.io p.left p.mem
