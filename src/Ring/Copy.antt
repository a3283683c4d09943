-- ===== src/Ring/Copy.antt =====
-- The two-part copies of ring.c move a run of slots that may pass the end of the array.
use x.Base.{
  ℕ, zero, suc, ◌+◌, ◌-◌, ◌%◌, ◌≤◌, ◌≡◌, refl, sym, ap, ap₂, ◌∙◌, inl, inr, List, [], ◌++◌, min,
  arith, bit_and, ltb, leb, ◌==◌, if◌then◌else◌, Bool-cases, length, sub_size, memcpy, slice,
  length-slice, slice-append, slice-eq-take, take-all,
}
use x.Ring.{Ring, copy_in, copy_slots, copy_out}
use x.Ring.Cyclic.{
  scatter, gather, mod_wrap, memcpy-eq-scatter, slice-eq-gather, scatter-append, gather-append,
}
use x.Ring.Bounds.{IsValid, used, cap_word, slot, slot-lt}

-- A source split where the array ends.
slice_split :
    (src : List ℕ) (m : ℕ) → m ≤ length src → slice src 0 m ++ slice src m (length src - m) ≡ src
slice_split src m h =
    ap (λ (p : ℕ). slice src 0 m ++ slice src p (length src - m)) (start m)
    ∙ sym (slice-append src 0 m (length src - m))
    ∙ slice-eq-take src (m + (length src - m)) (omega arith)
    ∙ take-all (m + (length src - m)) src (omega arith)
  where
    start : (m : ℕ) → m ≡ 0 + m
    start m = omega arith

module _ {r : Ring} (v : IsValid r) where
  -- The room before the end of the array, from slot `p % cap`.
  first_part : (p : ℕ) → sub_size r.cap (bit_and p r.mask) ≡ r.cap - p % r.cap
  first_part p = ap (sub_size r.cap) (slot v p) ∙ omega (arith, slot-lt v p, cap_word v)

  pub copy_in-eq-scatter :
      (src : List ℕ) → length src ≤ r.cap → copy_in r src ≡ scatter r.bytes r.cap r.head src
  unfolding copy_in
  copy_in-eq-scatter src fits =
      let first = r.cap - r.head % r.cap in
      let inside = slot-lt v r.head in
      rw (first_part r.head, slot v r.head)
        (elim (Bool-cases (leb (length src) first)) [
          | inl whole ↦ rw whole (memcpy-eq-scatter r.bytes r.cap r.head src (ground arith))
          | inr wraps ↦
              let near = slice src 0 first in
              let far = slice src first (length src - first) in
              let left : sub_size (length src) first ≡ length src - first =
                ground (arith, cap_word v) in
              let turn : (r.head + first) % r.cap ≡ 0 = mod_wrap r.cap r.head first (omega arith) in
              rw (wraps, left)
                (ap (λ (d : List ℕ). memcpy d 0 far)
                    (memcpy-eq-scatter r.bytes r.cap r.head near
                      (omega (arith, length-slice src 0 first)))
                  ∙ ap (λ (p : ℕ). memcpy (scatter r.bytes r.cap r.head near) p far) (sym turn)
                  ∙ memcpy-eq-scatter (scatter r.bytes r.cap r.head near) r.cap (r.head + first) far
                      (omega (arith, turn, length-slice src first (length src - first)))
                  ∙ ap
                      (λ (n : ℕ).
                        scatter (scatter r.bytes r.cap r.head near) r.cap (r.head + n) far)
                      (sym (length-slice src 0 first))
                  ∙ sym (scatter-append r.bytes r.cap r.head near far)
                  ∙ ap (scatter r.bytes r.cap r.head) (slice_split src first (ground arith)))
        ])

  copy_slots-eq-gather : (n : ℕ) → n ≤ r.cap → copy_slots r n ≡ gather r.bytes r.cap r.tail n
  unfolding copy_slots
  copy_slots-eq-gather n h =
      let first = r.cap - r.tail % r.cap in
      let inside = slot-lt v r.tail in
      rw (first_part r.tail, slot v r.tail)
        (elim (Bool-cases (leb n first)) [
          | inl whole ↦ rw whole (slice-eq-gather r.bytes r.cap r.tail n (ground arith))
          | inr wraps ↦
              let left : sub_size n first ≡ n - first = ground (arith, cap_word v) in
              let turn : (r.tail + first) % r.cap ≡ 0 = mod_wrap r.cap r.tail first (omega arith) in
              let sum : first + (n - first) ≡ n = ground arith in
              rw (wraps, left)
                (ap₂ ◌++◌ (slice-eq-gather r.bytes r.cap r.tail first (omega arith)) (
                    ap (λ (p : ℕ). slice r.bytes p (n - first)) (sym turn)
                    ∙ slice-eq-gather r.bytes r.cap (r.tail + first) (n - first)
                        (omega (arith, turn)))
                  ∙ sym (gather-append r.bytes r.cap r.tail first (n - first))
                  ∙ ap (gather r.bytes r.cap r.tail) sum)
        ])

  pub copy_out-eq-gather :
      (want : ℕ) → copy_out r want ≡ gather r.bytes r.cap r.tail (min (used r) want)
  unfolding copy_out
  copy_out-eq-gather want =
      ap (λ (n : ℕ). if n == 0 then [] else copy_slots r n) (clamp want)
      ∙ run (min (used r) want) (omega (arith, v.bounded))
    where
      clamp : (want : ℕ) → (if ltb (used r) want then used r else want) ≡ min (used r) want
      clamp want = ground arith

      run :
          (n : ℕ)
          → n ≤ r.cap
          → (if n == 0 then [] else copy_slots r n) ≡ gather r.bytes r.cap r.tail n
      run zero h = refl
      run (suc n) h = ground (arith, copy_slots-eq-gather (suc n) h)
