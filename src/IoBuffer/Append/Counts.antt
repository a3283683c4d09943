-- ===== src/IoBuffer/Append/Counts.antt =====
-- libx/x/buf/io.c, xIOBufferAppend: all the bytes are taken.
use x.Base.{
  ℕ, zero, suc, ◌+◌, ◌-◌, ◌≤◌, ◌≡◌, refl, ◌∙◌, inl, inr, ◌⊎◌, List, [], ◌∷◌, ◌++◌, Bool, true,
  Option, some, none, arith, ltb, ◌==◌, Bool-cases, length, length-drop, drop, min,
}
use x.Base.Errno.{Errno, ok, no_memory}
use x.IoBuffer.{block_size, Ref, Buffer, Mem, acquire, push_ref}
use x.IoBuffer.Append.{last_ref, fill_tail, after_push, after_acquire, append_blocks, append}
use x.IoBuffer.Cut.Moves.{grow_refs-cases}

push_ref-counts :
    (alloc : ℕ → Bool) (io : Buffer) (r : Ref)
    → ((d : Buffer) × (push_ref alloc io r true ≡ (ok, d)) × (d.nbytes ≡ io.nbytes + r.len))
      ⊎ (push_ref alloc io r true ≡ (no_memory, io))
unfolding push_ref
push_ref-counts alloc io r = elim (Bool-cases (r.len == 0)) [
  | inl z ↦ inl (io, rw z refl, ground arith)
  | inr z ↦ elim (grow_refs-cases alloc io (length io.refs + 1)) [
    | inl (c, e) ↦ inl (
      record io { refs = io.refs ++ r ∷ []; cap = c; nbytes = io.nbytes + r.len },
      rw (z, e) refl,
      refl,
    )
    | inr e ↦ inr (rw (z, e) refl)
  ]
]

-- A success of the loop has brought the byte count to `k`.
abbrev Reaches : ℕ → Errno × Buffer × Mem → Type 0
Reaches k r = r.0 ≡ ok → r.1.nbytes ≡ k

after_acquire-Reaches :
    (k : ℕ) (io : Buffer) (next : ℕ → Mem → Errno × Buffer × Mem) (r : Option ℕ × Mem)
    → ((b : ℕ) (m : Mem) → Reaches k (next b m))
    → Reaches k (after_acquire io next r)
after_acquire-Reaches k io next (none, m) h = λ good. absurd (ground arith)
after_acquire-Reaches k io next (some b, m) h = h b m

after_push-Reaches :
    (k : ℕ) (alloc : ℕ → Bool) (io : Buffer) (r : Ref) (m : Mem)
    (next : Buffer → Errno × Buffer × Mem)
    → ((d : Buffer) → d.nbytes ≡ io.nbytes + r.len → Reaches k (next d))
    → Reaches k (after_push r.block m next (push_ref alloc io r true))
after_push-Reaches k alloc io r m next h = elim (push_ref-counts alloc io r) [
  | inl (d, e, count) ↦ rw e (h d count)
  | inr e ↦ rw e (λ good. absurd (ground arith))
]

-- The rounds of the loop suffice: a success has appended every byte.
append_blocks-Reaches :
    (alloc malloc : ℕ → Bool) (n : ℕ) (io : Buffer) (src : List ℕ) (m : Mem)
    → length src ≤ n
    → Reaches (io.nbytes + length src) (append_blocks alloc malloc n io src m)
unfolding append_blocks
append_blocks-Reaches alloc malloc zero io src m fuel = λ good. omega arith
append_blocks-Reaches alloc malloc (suc n) io src m fuel = elim (Bool-cases (length src == 0)) [
  | inl z ↦ rw z (λ good. ground arith)
  | inr z ↦ rw z (
      after_acquire-Reaches (io.nbytes + length src) io _ (acquire malloc m) (λ b m1.
        let chunk = min (length src) block_size in
        after_push-Reaches (io.nbytes + length src) alloc io
          (record { block = b; offset = 0; len = chunk }) _ _
          (λ d count good.
            let less = length-drop chunk src in
            let some_bytes : 1 ≤ chunk = ground arith in
            let ih = append_blocks-Reaches alloc malloc n d (drop chunk src) _ (omega arith) good in
            omega arith)))
]

fill_tail-counts :
    (t : Option Ref) (io : Buffer) (src : List ℕ) (m : Mem)
    → let p = fill_tail t io src m in p.io.nbytes + length p.left ≡ io.nbytes + length src
unfolding fill_tail
fill_tail-counts none io src m = refl
fill_tail-counts (some tail) io src m =
    let avail = block_size - (tail.offset + tail.len) in
    elim (Bool-cases (ltb 0 avail)) [
      | inl room ↦ let less = length-drop (min (length src) avail) src in rw room (omega arith)
      | inr full ↦ rw full refl
    ]

-- When xIOBufferAppend answers Ok, the byte count has grown by the bytes given: the loop over new
-- blocks has taken all that did not fit behind the last reference.
pub append-counts :
    (alloc malloc : ℕ → Bool) (io : Buffer) (src : List ℕ) (m : Mem)
    → let r = append alloc malloc io src m in r.0 ≡ ok → r.1.nbytes ≡ io.nbytes + length src
unfolding append
append-counts alloc malloc io src m = elim (Bool-cases (length src == 0)) [
  | inl z ↦ rw z (λ good. ground arith)
  | inr z ↦
      let p = fill_tail (last_ref io.refs) io src m in
      rw z (λ good.
        append_blocks-Reaches alloc malloc (length p.left) p.io p.left p.mem (omega arith) good
        ∙ fill_tail-counts (last_ref io.refs) io src m)
]
