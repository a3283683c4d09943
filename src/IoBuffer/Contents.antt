-- ===== src/IoBuffer/Contents.antt =====
-- libx/x/buf/io.c: what a chain of references reads as, across reads and consumption.
use x.Base.{
  ℕ, zero, suc, ◌+◌, ◌-◌, ◌≤◌, ◌≡◌, refl, sym, ap, ap₂, ◌∙◌, inl, inr, List, [], ◌∷◌, ◌++◌, true,
  false, arith, leb, ◌==◌, Bool-cases, length, length-append, get_or, set, take, drop, slice,
  length-slice, slice-append, take-append_over, drop-append_over, take-exact, drop-exact, take-nil,
  drop-nil, min, append_assoc,
}
use x.IoBuffer.{
  Block, Ref, Mem, no_block, block_at, retain, release, Taken, ref_bytes, advance, read_loop,
  consume_loop, copy_to,
}

-- Two memories whose blocks hold the same bytes.
abbrev pub SameBytes : Mem → Mem → Type 0
SameBytes m m' = (b : ℕ) → (block_at m b).bytes ≡ (block_at m' b).bytes

pub bytes-set :
    (blocks : List Block) (b j : ℕ) (v : Block)
    → v.bytes ≡ (get_or blocks b no_block).bytes
    → (get_or (set blocks b v) j no_block).bytes ≡ (get_or blocks j no_block).bytes
bytes-set [] b j v e = refl
bytes-set (x ∷ blocks) zero zero v e = e
bytes-set (x ∷ blocks) zero (suc j) v e = refl
bytes-set (x ∷ blocks) (suc b) zero v e = refl
bytes-set (x ∷ blocks) (suc b) (suc j) v e = bytes-set blocks b j v e

-- Counting references leaves the bytes alone.
pub release-SameBytes : (b : ℕ) (m : Mem) → SameBytes (release b m) m
unfolding release
release-SameBytes b m j = elim (Bool-cases ((block_at m b).refs - 1 == 0)) [
  | inl h ↦ rw h (bytes-set m.blocks b j _ refl)
  | inr h ↦ rw h (bytes-set m.blocks b j _ refl)
]

pub retain-SameBytes : (b : ℕ) (m : Mem) → SameBytes (retain b m) m
unfolding retain
retain-SameBytes b m j = bytes-set m.blocks b j _ refl

pub copy_to_same : (rs : List Ref) (m m' : Mem) → SameBytes m m' → copy_to rs m ≡ copy_to rs m'
unfolding copy_to
copy_to_same [] m m' h = refl
copy_to_same (r ∷ rs) m m' h =
    ap₂ (λ (x : List ℕ) (y : List ℕ). slice x r.offset r.len ++ y) (h r.block)
      (copy_to_same rs m m' h)

-- A reference cut in two.
pub cut_ref :
    (m : Mem) (r : Ref) (n : ℕ)
    → n ≤ r.len
    → ref_bytes m r r.len ≡ ref_bytes m r n ++ ref_bytes m (advance r n) (r.len - n)
cut_ref m r n h =
    let bytes = (block_at m r.block).bytes in
    ap (slice bytes r.offset) (whole r.len n h) ∙ slice-append bytes r.offset n (r.len - n)
  where
    whole : (l n : ℕ) → n ≤ l → l ≡ n + (l - n)
    whole l n h = omega arith

length-ref_bytes : (m : Mem) (r : Ref) (n : ℕ) → length (ref_bytes m r n) ≡ n
length-ref_bytes m r n = length-slice (block_at m r.block).bytes r.offset n

-- What a loop that is asked for `left` bytes of a chain does.
pub record Splits (left : ℕ) (rs : List Ref) (m : Mem) (t : Taken) : Type 0 where
  pub counted : t.total ≡ min left (length (copy_to rs m))
  pub kept : copy_to t.rest t.mem ≡ drop left (copy_to rs m)
  pub same : SameBytes t.mem m

module _ (left : ℕ) (r : Ref) (rs : List Ref) (m : Mem) where
  abbrev all : List ℕ
  all = copy_to (r ∷ rs) m

  pub long-all : length all ≡ r.len + length (copy_to rs m)
  unfolding copy_to
  long-all =
      length-append (ref_bytes m r r.len) (copy_to rs m)
      ∙ ap (λ (n : ℕ). n + length (copy_to rs m)) (length-ref_bytes m r r.len)

  pub take-past :
      r.len ≤ left → take left all ≡ ref_bytes m r r.len ++ take (left - r.len) (copy_to rs m)
  unfolding copy_to
  take-past h =
      take-append_over left (left - r.len) (ref_bytes m r r.len) (copy_to rs m)
        (omega (arith, length-ref_bytes m r r.len))

  pub drop-past : r.len ≤ left → drop left all ≡ drop (left - r.len) (copy_to rs m)
  unfolding copy_to
  drop-past h =
      drop-append_over left (left - r.len) (ref_bytes m r r.len) (copy_to rs m)
        (omega (arith, length-ref_bytes m r r.len))

  parts : left ≤ r.len → all ≡ ref_bytes m r left ++ copy_to (advance r left ∷ rs) m
  unfolding copy_to
  parts h =
      ap (λ (t : List ℕ). t ++ copy_to rs m) (cut_ref m r left h)
      ∙ append_assoc (ref_bytes m r left) (ref_bytes m (advance r left) (r.len - left))
          (copy_to rs m)

  pub take-within : left ≤ r.len → take left all ≡ ref_bytes m r left
  take-within h =
      ap (take left) (parts h) ∙ take-exact left (ref_bytes m r left) _ (length-ref_bytes m r left)

  pub drop-within : left ≤ r.len → drop left all ≡ copy_to (advance r left ∷ rs) m
  drop-within h =
      ap (drop left) (parts h) ∙ drop-exact left (ref_bytes m r left) _ (length-ref_bytes m r left)

pub zero-Splits :
    (left : ℕ) (rs : List Ref) (m : Mem) (o : List ℕ)
    → left ≡ 0
    → Splits left rs m (record { total = 0; rest = rs; out = o; mem = m })
zero-Splits left rs m o e = record {
  counted = omega arith;
  kept = ap (λ (n : ℕ). drop n (copy_to rs m)) (sym e);
  same = λ b. refl;
}

pub end-Splits :
    (left : ℕ) (m : Mem) (o : List ℕ)
    → Splits left [] m (record { total = 0; rest = []; out = o; mem = m })
unfolding copy_to
end-Splits left m o = record { counted = omega arith; kept = sym (drop-nil left); same = λ b. refl }

-- The loop goes past a whole reference.
pub past-Splits :
    (left : ℕ) (r : Ref) (rs : List Ref) (m m1 : Mem) (t : Taken) (o : List ℕ)
    → r.len ≤ left
    → SameBytes m1 m
    → Splits (left - r.len) rs m1 t
    → Splits left (r ∷ rs) m (record t { total = r.len + t.total; out = o })
past-Splits left r rs m m1 t o h same1 s =
    let rest = copy_to_same rs m1 m same1 in
    record {
      counted =
          omega (arith, s.counted, long-all left r rs m, ap (λ (xs : List ℕ). length xs) rest);
      kept = s.kept ∙ ap (drop (left - r.len)) rest ∙ sym (drop-past left r rs m h);
      same = λ b. s.same b ∙ same1 b;
    }

-- The loop ends inside a reference.
pub within-Splits :
    (left : ℕ) (r : Ref) (rs : List Ref) (m m1 : Mem) (o : List ℕ)
    → left ≤ r.len
    → SameBytes m1 m
    → Splits left
        (r ∷ rs)
        m
        (record { total = left; rest = advance r left ∷ rs; out = o; mem = m1 })
within-Splits left r rs m m1 o h same1 = record {
  counted = omega (arith, long-all left r rs m);
  kept = copy_to_same (advance r left ∷ rs) m1 m same1 ∙ sym (drop-within left r rs m h);
  same = same1;
}

pub consume_loop-Splits :
    (left : ℕ) (rs : List Ref) (m : Mem) → Splits left rs m (consume_loop left rs m)
unfolding consume_loop
consume_loop-Splits left [] m = end-Splits left m []
consume_loop-Splits left (r ∷ rs) m = elim (Bool-cases (left == 0)) [
  | inl z ↦ rw z (zero-Splits left (r ∷ rs) m [] (ground arith))
  | inr z ↦ elim (Bool-cases (leb r.len left)) [
    | inl past ↦
        let m1 = release r.block m in
        let next = consume_loop (left - r.len) rs m1 in
        rw (z, past)
          (past-Splits left r rs m m1 next next.out (ground arith) (release-SameBytes r.block m)
            (consume_loop-Splits (left - r.len) rs m1))
    | inr within ↦ rw (z, within) (within-Splits left r rs m m [] (ground arith) (λ b. refl))
  ]
]

pub read_loop-Splits : (left : ℕ) (rs : List Ref) (m : Mem) → Splits left rs m (read_loop left rs m)
unfolding read_loop
read_loop-Splits left [] m = end-Splits left m []
read_loop-Splits left (r ∷ rs) m = elim (Bool-cases (left == 0)) [
  | inl z ↦ rw z (zero-Splits left (r ∷ rs) m [] (ground arith))
  | inr z ↦ elim (Bool-cases (leb r.len left)) [
    | inl past ↦
        let m1 = release r.block m in
        let next = read_loop (left - r.len) rs m1 in
        let c : min r.len left ≡ r.len = ground arith in
        let e : (r.len == r.len) ≡ true = ground arith in
        rw (z, c, e)
          (past-Splits left r rs m m1 next _ (ground arith) (release-SameBytes r.block m)
            (read_loop-Splits (left - r.len) rs m1))
    | inr within ↦
        let c : min r.len left ≡ left = ground arith in
        let e : (left == r.len) ≡ false = ground arith in
        rw (z, c, e) (within-Splits left r rs m m _ (ground arith) (λ b. refl))
  ]
]

pub read_loop-out :
    (left : ℕ) (rs : List Ref) (m : Mem) → (read_loop left rs m).out ≡ take left (copy_to rs m)
unfolding read_loop copy_to
read_loop-out left [] m = sym (take-nil left)
read_loop-out left (r ∷ rs) m = elim (Bool-cases (left == 0)) [
  | inl z ↦ rw z (ap (λ (n : ℕ). take n (copy_to (r ∷ rs) m)) (zero_is left z))
  | inr z ↦ elim (Bool-cases (leb r.len left)) [
    | inl past ↦
        let m1 = release r.block m in
        let c : min r.len left ≡ r.len = ground arith in
        let e : (r.len == r.len) ≡ true = ground arith in
        let h : r.len ≤ left = ground arith in
        rw (z, c, e)
          (ap (λ (t : List ℕ). ref_bytes m r r.len ++ t)
              (read_loop-out (left - r.len) rs m1
                ∙ ap (take (left - r.len)) (copy_to_same rs m1 m (release-SameBytes r.block m)))
            ∙ sym (take-past left r rs m h))
    | inr within ↦
        let c : min r.len left ≡ left = ground arith in
        let e : (left == r.len) ≡ false = ground arith in
        let h : left ≤ r.len = ground arith in rw (z, c, e) (sym (take-within left r rs m h))
  ]
]
  where
    zero_is : (n : ℕ) → (n == 0) ≡ true → 0 ≡ n
    zero_is n z = ground arith
