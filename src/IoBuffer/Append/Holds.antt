-- ===== src/IoBuffer/Append/Holds.antt =====
-- libx/x/buf/io.c, xIOBufferAppend: a buffer that owns its blocks holds what was appended.
use x.Base.{
  ℕ, zero, suc, ◌+◌, ◌≤◌, ◌≡◌, refl, sym, subst, ap, ◌∙◌, inl, inr, ◌⊎◌, List, [], ◌∷◌, ◌++◌,
  append_assoc, append-nil, Bool, true, false, arith, ◌==◌, Bool-cases, length, length-take,
  length-drop, take, drop, take-append-drop, min, length-eq-zero,
}
use x.Base.Errno.{Errno, ok, no_memory}
use x.IoBuffer.{block_size, Ref, Buffer, Mem, push_ref, copy_to}
use x.IoBuffer.Append.{last_ref, fill_tail, append_blocks, append}
use x.IoBuffer.Append.Own.{Own}
use x.IoBuffer.Append.New.{acquire-Ready}
use x.IoBuffer.Append.Tail.{fill_tail-Filled}
use x.IoBuffer.Cut.Moves.{grow_refs-cases}
use x.IoBuffer.Append.Stored.{stored, stored-holds, stored-Own}

nothing_left : (src xs : List ℕ) → length src ≡ 0 → xs ≡ xs ++ src
nothing_left src xs e = sym (ap (λ (t : List ℕ). xs ++ t) (length-eq-zero src e) ∙ append-nil xs)

push_ref-placed :
    (alloc : ℕ → Bool) (io : Buffer) (r : Ref)
    → (r.len == 0) ≡ false
    → ((d : Buffer) × (push_ref alloc io r true ≡ (ok, d)) × (d.refs ≡ io.refs ++ r ∷ []))
      ⊎ (push_ref alloc io r true ≡ (no_memory, io))
unfolding push_ref
push_ref-placed alloc io r z = elim (grow_refs-cases alloc io (length io.refs + 1)) [
  | inl (c, e) ↦ inl (
    record io { refs = io.refs ++ r ∷ []; cap = c; nbytes = io.nbytes + r.len },
    rw (z, e) refl,
    refl,
  )
  | inr e ↦ inr (rw (z, e) refl)
]

-- A success leaves a buffer that owns its blocks and reads as `bytes`.
abbrev pub Holds : List ℕ → Errno × Buffer × Mem → Type 0
Holds bytes r = r.0 ≡ ok → (copy_to r.1.refs r.2 ≡ bytes) × Own r.1.refs r.2

append_blocks-Holds :
    (alloc malloc : ℕ → Bool) (n : ℕ) (io : Buffer) (src : List ℕ) (m : Mem)
    → Own io.refs m
    → length src ≤ n
    → Holds (copy_to io.refs m ++ src) (append_blocks alloc malloc n io src m)
unfolding append_blocks
append_blocks-Holds alloc malloc zero io src m own fuel =
    λ good. (nothing_left src (copy_to io.refs m) (omega arith), own)
append_blocks-Holds alloc malloc (suc n) io src m own fuel = elim (Bool-cases (length src == 0)) [
  | inl z ↦ rw z (λ good. (nothing_left src (copy_to io.refs m) (ground arith), own))
  | inr z ↦ elim (acquire-Ready malloc io.refs m.blocks m.pool own) [
    | inl (m1, e) ↦ rw (z, e) (λ good. absurd (ground arith))
    | inr (b, m1, e, ready) ↦
        let chunk = min (length src) block_size in
        let bs = take chunk src in
        let long : length bs ≡ chunk = omega (arith, length-take chunk src) in
        let small : chunk ≤ block_size = omega arith in
        let r : Ref = record { block = b; offset = 0; len = chunk } in
        let some_bytes : (chunk == 0) ≡ false = ground arith in
        elim (push_ref-placed alloc io r some_bytes) [
          | inr refused ↦ rw (z, e, refused) (λ good. absurd (ground arith))
          | inl (d, e', placed) ↦
              rw (z, e, e')
                (λ good.
                  let m2 = stored b bs chunk m1 in
                  let own2 : Own d.refs m2 =
                    subst (λ rs. Own rs m2) (sym placed)
                      (stored-Own b bs chunk io.refs m1 m ready long small own.fits) in
                  let (reads, own') =
                    append_blocks-Holds alloc malloc n d (drop chunk src) m2 own2
                      (omega (arith, length-drop chunk src)) good in
                  (
                    reads
                        ∙ ap (λ rs. copy_to rs m2 ++ drop chunk src) placed
                        ∙ ap (λ (x : List ℕ). x ++ drop chunk src)
                            (stored-holds b bs chunk io.refs m1 m ready long small)
                        ∙ append_assoc (copy_to io.refs m) bs (drop chunk src)
                        ∙ ap (λ (x : List ℕ). copy_to io.refs m ++ x) (take-append-drop chunk src),
                    own',
                  ))
        ]
  ]
]

-- When xIOBufferAppend answers Ok for a buffer whose references go to blocks of their own, none of
-- them in the pool, the buffer holds what it held followed by the bytes given, and its blocks are
-- its own again.
pub append-Holds :
    (alloc malloc : ℕ → Bool) (io : Buffer) (src : List ℕ) (m : Mem)
    → Own io.refs m
    → let r = append alloc malloc io src m in
      r.0 ≡ ok → (copy_to r.1.refs r.2 ≡ copy_to io.refs m ++ src) × Own r.1.refs r.2
unfolding append
append-Holds alloc malloc io src m own = elim (Bool-cases (length src == 0)) [
  | inl z ↦ rw z (λ good. (nothing_left src (copy_to io.refs m) (ground arith), own))
  | inr z ↦
      let p = fill_tail (last_ref io.refs) io src m in
      let filled = fill_tail-Filled io src m own in
      rw z (λ good.
        let (reads, own') =
          append_blocks-Holds alloc malloc (length p.left) p.io p.left p.mem filled.own
            (omega arith) good in
        (reads ∙ filled.moved, own'))
]
