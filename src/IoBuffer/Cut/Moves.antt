-- ===== src/IoBuffer/Cut/Moves.antt =====
-- libx/x/buf/io.c, xIOBufferCut: what a cut has moved.
use x.Base.{
  ℕ, ◌+◌, ◌-◌, ◌*◌, ◌≤◌, ◌≡◌, refl, sym, ap, ◌∙◌, inl, inr, ◌⊎◌, List, [], ◌∷◌, ◌++◌, append_assoc,
  append-nil, Bool, false, arith, leb, ◌==◌, if◌then◌else◌, Bool-cases, length, length-take,
  length-drop, length-append, take, drop, min,
}
use x.Base.Errno.{ok, no_memory}
use x.IoBuffer.{
  inline_refs, double_to, Ref, Buffer, Mem, Taken, retain, ref_bytes, advance, grow_refs, push_ref,
  copy_to,
}
use x.IoBuffer.Contents.{
  drop-past, take-past, drop-within, take-within, long-all, SameBytes, release-SameBytes,
  retain-SameBytes, copy_to_same,
}
use x.IoBuffer.Queue.{Counted}
use x.IoBuffer.Cut.{stays, cut_loop, cut}

pub copy_to-append :
    (xs ys : List Ref) (m : Mem) → copy_to (xs ++ ys) m ≡ copy_to xs m ++ copy_to ys m
unfolding copy_to
copy_to-append [] ys m = refl
copy_to-append (r ∷ xs) ys m =
    ap (λ (t : List ℕ). ref_bytes m r r.len ++ t) (copy_to-append xs ys m)
    ∙ sym (append_assoc (ref_bytes m r r.len) (copy_to xs m) (copy_to ys m))

pub grow_refs-cases :
    (alloc : ℕ → Bool) (io : Buffer) (needed : ℕ)
    → ((c : ℕ) × (grow_refs alloc io needed ≡ (ok, record io { cap = c })))
      ⊎ (grow_refs alloc io needed ≡ (no_memory, io))
unfolding grow_refs
grow_refs-cases alloc io needed =
    let newcap = double_to 64 (if io.cap == 0 then inline_refs else io.cap * 2) needed in
    elim (Bool-cases (leb needed io.cap)) [
      | inl fits ↦ inl (io.cap, rw fits refl)
      | inr tight ↦ elim (Bool-cases (alloc newcap)) [
        | inl granted ↦ inl (newcap, rw (tight, granted) refl)
        | inr refused ↦ inr (rw (tight, refused) refl)
      ]
    ]

-- What a push of a reference does: it is put behind the others, or nothing happens.
abbrev Pushed : (ℕ → Bool) → Buffer → Ref → Mem → Type 0
Pushed alloc io r m =
    ((d : Buffer) × (push_ref alloc io r false ≡ (ok, d))
      × (copy_to d.refs m ≡ copy_to io.refs m ++ ref_bytes m r r.len)
      × (d.nbytes ≡ io.nbytes))
    ⊎ (push_ref alloc io r false ≡ (no_memory, io))

push_ref-Pushed : (alloc : ℕ → Bool) (io : Buffer) (r : Ref) (m : Mem) → Pushed alloc io r m
unfolding push_ref copy_to
push_ref-Pushed alloc io r m = elim (Bool-cases (r.len == 0)) [
  | inl z ↦ inl (io, rw z refl, nothing r.len (ground arith), refl)
  | inr z ↦ elim (grow_refs-cases alloc io (length io.refs + 1)) [
    | inl (c, e) ↦ inl (
      record io { refs = io.refs ++ r ∷ []; cap = c },
      rw (z, e) refl,
      copy_to-append io.refs (r ∷ []) m
          ∙ ap (λ (t : List ℕ). copy_to io.refs m ++ t) (append-nil (ref_bytes m r r.len)),
      refl,
    )
    | inr e ↦ inr (rw (z, e) refl)
  ]
]
  where
    nothing : (n : ℕ) → n ≡ 0 → copy_to io.refs m ≡ copy_to io.refs m ++ ref_bytes m r n
    nothing n e = sym (append-nil _) ∙ ap (λ (k : ℕ). copy_to io.refs m ++ ref_bytes m r k) (sym e)

-- What the loop has moved, whether or not it ran out of memory on the way.
abbrev Moves : ℕ → List Ref → Buffer → Mem → Taken × Buffer → Type 0
Moves left rs dst m (t, d) =
    (t.total ≤ left)
    × (t.total ≤ length (copy_to rs m))
    × (copy_to t.rest t.mem ≡ drop t.total (copy_to rs m))
    × (copy_to d.refs t.mem ≡ copy_to dst.refs m ++ take t.total (copy_to rs m))
    × (d.nbytes ≡ dst.nbytes)
    × SameBytes t.mem m

stays-Moves :
    (left : ℕ) (rs : List Ref) (dst : Buffer) (m m1 : Mem)
    → SameBytes m1 m
    → Moves left rs dst m (stays rs m1 dst)
stays-Moves left rs dst m m1 same = (
  omega arith,
  omega arith,
  copy_to_same rs m1 m same,
  copy_to_same dst.refs m1 m same ∙ sym (append-nil (copy_to dst.refs m)),
  refl,
  same,
)

whole-Moves :
    (left : ℕ) (r : Ref) (rs : List Ref) (dst d : Buffer) (m : Mem) (n : Taken × Buffer)
    → r.len ≤ left
    → copy_to d.refs m ≡ copy_to dst.refs m ++ ref_bytes m r r.len
    → d.nbytes ≡ dst.nbytes
    → Moves (left - r.len) rs d m n
    → Moves left (r ∷ rs) dst m (record n.0 { total = r.len + n.0.total }, n.1)
whole-Moves left r rs dst d m (t, d') h pushed count (small, inside, kept, moved, count', same) =
    let total = r.len + t.total in
    let here : r.len ≤ total = omega arith in
    let less : total - r.len ≡ t.total = omega arith in
    (
      omega arith,
      omega (arith, long-all total r rs m),
      kept ∙ sym (drop-past total r rs m here ∙ ap (λ (k : ℕ). drop k (copy_to rs m)) less),
      moved
          ∙ ap (λ (x : List ℕ). x ++ take t.total (copy_to rs m)) pushed
          ∙ append_assoc (copy_to dst.refs m) (ref_bytes m r r.len) _
          ∙ ap (λ (x : List ℕ). copy_to dst.refs m ++ x)
              (sym (
                take-past total r rs m here
                ∙ ap (λ (k : ℕ). ref_bytes m r r.len ++ take k (copy_to rs m)) less)),
      count' ∙ count,
      same,
    )

part-Moves :
    (left : ℕ) (r : Ref) (rs : List Ref) (dst d : Buffer) (m m1 : Mem)
    → left ≤ r.len
    → copy_to d.refs m ≡ copy_to dst.refs m ++ ref_bytes m r left
    → d.nbytes ≡ dst.nbytes
    → SameBytes m1 m
    → Moves left
        (r ∷ rs)
        dst
        m
        (record { total = left; rest = advance r left ∷ rs; out = []; mem = m1 }, d)
part-Moves left r rs dst d m m1 h pushed count same = (
  omega arith,
  omega (arith, long-all left r rs m),
  copy_to_same (advance r left ∷ rs) m1 m same ∙ sym (drop-within left r rs m h),
  copy_to_same d.refs m1 m same
      ∙ pushed
      ∙ ap (λ (x : List ℕ). copy_to dst.refs m ++ x) (sym (take-within left r rs m h)),
  count,
  same,
)

cut_loop-Moves :
    (alloc : ℕ → Bool) (left : ℕ) (rs : List Ref) (dst : Buffer) (m : Mem)
    → Moves left rs dst m (cut_loop alloc left rs dst m)
unfolding cut_loop
cut_loop-Moves alloc left [] dst m = stays-Moves left [] dst m m (λ b. refl)
cut_loop-Moves alloc left (r ∷ rs) dst m = elim (Bool-cases (left == 0)) [
  | inl z ↦ rw z (stays-Moves left (r ∷ rs) dst m m (λ b. refl))
  | inr z ↦ elim (Bool-cases (leb r.len left)) [
    | inl past ↦ elim (push_ref-Pushed alloc dst r m) [
      | inl (d, e, pushed, count) ↦
          rw (z, past, e)
            (whole-Moves left r rs dst d m (cut_loop alloc (left - r.len) rs d m) (ground arith)
              pushed count (cut_loop-Moves alloc (left - r.len) rs d m))
      | inr e ↦ rw (z, past, e) (stays-Moves left (r ∷ rs) dst m m (λ b. refl))
    ]
    | inr within ↦
        let same = retain-SameBytes r.block m in
        elim (push_ref-Pushed alloc dst (record r { len = left }) m) [
          | inl (d, e, pushed, count) ↦
              rw (z, within, e)
                (part-Moves left r rs dst d m (retain r.block m) (ground arith) pushed count same)
          | inr e ↦
              rw (z, within, e)
                (stays-Moves left (r ∷ rs) dst m _
                  (λ b. release-SameBytes r.block (retain r.block m) b ∙ same b))
        ]
  ]
]

-- Where both byte counts are right, xIOBufferCut moves a front of the source of the length it
-- answers, at most `n` bytes, behind what the destination held: the source keeps the others, both
-- byte counts are right, and no block's bytes are changed, also where it stops early as no memory
-- for a reference is granted.
pub cut-Counted :
    (alloc : ℕ → Bool) (io dst : Buffer) (n : ℕ) (m : Mem)
    → Counted io m
    → Counted dst m
    → let (total, io', dst', m') = cut alloc io dst n m in
      (total ≤ min n (length (copy_to io.refs m)))
      × (copy_to io'.refs m' ≡ drop total (copy_to io.refs m))
      × (copy_to dst'.refs m' ≡ copy_to dst.refs m ++ take total (copy_to io.refs m))
      × Counted io' m'
      × Counted dst' m'
      × SameBytes m' m
unfolding cut
cut-Counted alloc io dst n m ci cd =
    let held = copy_to io.refs m in
    let (small, inside, kept, moved, count, same) =
      cut_loop-Moves alloc (min n io.nbytes) io.refs dst m in
    let total = (cut_loop alloc (min n io.nbytes) io.refs dst m).0.total in
    (
      omega arith,
      kept,
      moved,
      omega (arith, ap (λ (xs : List ℕ). length xs) kept, length-drop total held),
      omega (
        arith,
        ap (λ (xs : List ℕ). length xs) moved,
        length-append (copy_to dst.refs m) (take total held),
        length-take total held,
      ),
      same,
    )
