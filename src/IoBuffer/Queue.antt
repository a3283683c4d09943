-- ===== src/IoBuffer/Queue.antt =====
-- libx/x/buf/io.c: a buffer behaves as a queue of bytes.
use x.Base.{
  ℕ, zero, suc, ◌-◌, ◌≤◌, ◌≡◌, refl, sym, ap, ◌∙◌, inl, inr, List, [], ◌∷◌, arith, leb, Bool-cases,
  length, length-drop, take, take-all, drop, min,
}
use x.IoBuffer.{Buffer, Mem, Taken, read, consume, copy_to}
use x.IoBuffer.Contents.{SameBytes, Splits, consume_loop-Splits, read_loop-Splits, read_loop-out}

-- The cached byte count of a buffer is the length of what it holds.
abbrev pub Counted : Buffer → Mem → Type 0
Counted io m = io.nbytes ≡ length (copy_to io.refs m)

drop-all : (n : ℕ) (xs : List ℕ) → length xs ≤ n → drop n xs ≡ []
drop-all zero [] h = refl
drop-all zero (x ∷ xs) h = absurd (omega arith)
drop-all (suc n) [] h = refl
drop-all (suc n) (x ∷ xs) h = drop-all n xs (omega arith)

take-min : (n : ℕ) (xs : List ℕ) → take (min n (length xs)) xs ≡ take n xs
take-min n xs = elim (Bool-cases (leb n (length xs))) [
  | inl h ↦ let e : min n (length xs) ≡ n = ground arith in rw e refl
  | inr h ↦
      let e : min n (length xs) ≡ length xs = ground arith in
      rw e (take-all (length xs) xs (omega arith) ∙ sym (take-all n xs (ground arith)))
]

drop-min : (n : ℕ) (xs : List ℕ) → drop (min n (length xs)) xs ≡ drop n xs
drop-min n xs = elim (Bool-cases (leb n (length xs))) [
  | inl h ↦ let e : min n (length xs) ≡ n = ground arith in rw e refl
  | inr h ↦
      let e : min n (length xs) ≡ length xs = ground arith in
      rw e (drop-all (length xs) xs (omega arith) ∙ sym (drop-all n xs (ground arith)))
]

-- Taking at most `n` bytes from the front of a buffer.
abbrev pub Dequeues : Buffer → ℕ → Mem → Buffer × Taken → Type 0
Dequeues io n m (io', t) =
    (t.total ≡ min n (length (copy_to io.refs m)))
    × (copy_to io'.refs t.mem ≡ drop n (copy_to io.refs m))
    × Counted io' t.mem
    × SameBytes t.mem m

front-Dequeues :
    (io : Buffer) (n : ℕ) (m : Mem) (t : Taken)
    → Counted io m
    → Splits (min n io.nbytes) io.refs m t
    → Dequeues io n m (record io { refs = t.rest; nbytes = io.nbytes - t.total }, t)
front-Dequeues io n m t c s =
    let held = copy_to io.refs m in
    let kept = s.kept ∙ ap (λ (k : ℕ). drop (min n k) held) c ∙ drop-min n held in
    (
      omega (arith, s.counted, c),
      kept,
      omega (arith, s.counted, c, ap (λ (xs : List ℕ). length xs) kept, length-drop n held),
      s.same,
    )

-- xIOBufferRead of a buffer whose byte count is right copies out its first `n` bytes, or all it
-- has, and leaves the others, with the byte count right and no block's bytes changed.
pub read-Dequeues :
    (io : Buffer) (n : ℕ) (m : Mem)
    → Counted io m
    → let r = read io n m in (r.1.out ≡ take n (copy_to io.refs m)) × Dequeues io n m r
unfolding read
read-Dequeues io n m c =
    let held = copy_to io.refs m in
    (
      read_loop-out (min n io.nbytes) io.refs m
          ∙ ap (λ (k : ℕ). take (min n k) held) c
          ∙ take-min n held,
      front-Dequeues io n m _ c (read_loop-Splits (min n io.nbytes) io.refs m),
    )

-- xIOBufferConsume of a buffer whose byte count is right drops its first `n` bytes, or all it has,
-- with the byte count right and no block's bytes changed.
pub consume-Dequeues :
    (io : Buffer) (n : ℕ) (m : Mem) → Counted io m → Dequeues io n m (consume io n m)
unfolding consume
consume-Dequeues io n m c =
    front-Dequeues io n m _ c (consume_loop-Splits (min n io.nbytes) io.refs m)
