-- ===== src/IoBuffer/Cut.antt =====
-- libx/x/buf/io.c, xIOBufferCut: moving the front of a buffer behind another, without a copy.
pub mod Moves
use x.Base.{
  ℕ, zero, suc, ◌+◌, ◌-◌, ◌≤◌, ◌≡◌, refl, sym, ap, ap₂, ◌∙◌, inl, inr, ◌⊎◌, List, [], ◌∷◌, ◌++◌,
  append_assoc, append-nil, Bool, true, false, arith, leb, ◌==◌, if◌then◌else◌, Bool-cases, length,
  take, drop, min,
}
use x.Base.Errno.{Errno, ok, no_memory}
use x.IoBuffer.{
  Block, Ref, Buffer, Mem, Taken, retain, release, ref_bytes, advance, grow_refs, on_ok, push_ref,
  copy_to,
}
use x.IoBuffer.Contents.{SameBytes, release-SameBytes, retain-SameBytes, copy_to_same}
use x.IoBuffer.Queue.{Counted}

abbrev pub stays : List Ref → Mem → Buffer → Taken × Buffer
stays rs m dst = (record { total = 0; rest = rs; out = []; mem = m }, dst)

-- The loop behind a whole reference that was pushed, or was not.
abbrev pub after_whole :
    Ref → List Ref → Mem → (Buffer → Taken × Buffer) → Errno × Buffer → Taken × Buffer
after_whole r rs m next (ok, d) = let n = next d in (record n.0 { total = r.len + n.0.total }, n.1)
after_whole r rs m next (e, d) = stays (r ∷ rs) m d

-- The same behind the first `left` bytes of a reference.
abbrev pub after_part : ℕ → Ref → List Ref → Mem → Errno × Buffer → Taken × Buffer
after_part left r rs m (ok, d) =
    (record { total = left; rest = advance r left ∷ rs; out = []; mem = m }, d)
after_part left r rs m (e, d) = stays (r ∷ rs) (release r.block m) d

-- The loop of xIOBufferCut: what it took from the source, and the destination.
unfoldable pub cut_loop : (ℕ → Bool) → ℕ → List Ref → Buffer → Mem → Taken × Buffer
cut_loop alloc left [] dst m = stays [] m dst
cut_loop alloc left (r ∷ rs) dst m =
    if left == 0
    then stays (r ∷ rs) m dst
    else if leb r.len left
    then after_whole r rs m (λ d. cut_loop alloc (left - r.len) rs d m) (push_ref alloc dst r false)
    else after_part left r rs (retain r.block m)
        (push_ref alloc dst (record r { len = left }) false)

-- xIOBufferCut: the number of bytes moved, the two buffers and the memory.
unfoldable pub cut : (ℕ → Bool) → Buffer → Buffer → ℕ → Mem → ℕ × Buffer × Buffer × Mem
cut alloc io dst n m =
    let r = cut_loop alloc (min n io.nbytes) io.refs dst m in
    let total = r.0.total in
    (
      total,
      record io { refs = r.0.rest; nbytes = io.nbytes - total },
      record r.1 { nbytes = r.1.nbytes + total },
      r.0.mem,
    )
