-- ===== src/Ring/Cursors.antt =====
-- What moving a cursor of a valid ring does to its contents.
use x.Base.{
  ℕ, zero, suc, ◌+◌, ◌-◌, ◌%◌, ◌≤◌, ◌≡◌, sym, ap, ap₂, ◌∙◌, List, ◌∷◌, ◌++◌, min, arith, length,
  get_or, take, drop, sub_size, add_size,
}
use x.Ring.{Ring, copy_in}
use x.Ring.Cyclic.{
  scatter, gather, length-gather, length-scatter, gather-scatter, gather-mod, scatter-mod,
}
use x.Ring.Bounds.{IsValid, used, contents, cap_word, slot_wrap, head_slot}
use x.Ring.Copy.{copy_in-eq-scatter}

-- Prefixes and suffixes of a run of slots.
pub take-gather : (d : List ℕ) (c p m n : ℕ) → take m (gather d c p n) ≡ gather d c p (min n m)
take-gather d c p zero n = let e : 0 ≡ min n 0 = omega arith in ap (gather d c p) e
take-gather d c p (suc m) zero = let e : 0 ≡ min 0 (suc m) = omega arith in ap (gather d c p) e
take-gather d c p (suc m) (suc n) =
    ap (◌∷◌ (get_or d (p % c) 0)) (take-gather d c (p + 1) m n) ∙ ap (gather d c p) (min_suc n m)
  where
    min_suc : (n m : ℕ) → suc (min n m) ≡ min (suc n) (suc m)
    min_suc n m = omega arith

drop-gather :
    (d : List ℕ) (c p m n : ℕ) → m ≤ n → drop m (gather d c p n) ≡ gather d c (p + m) (n - m)
drop-gather d c p zero n h = ap₂ (gather d c) (omega arith) (omega arith)
drop-gather d c p (suc m) zero h = absurd (omega arith)
drop-gather d c p (suc m) (suc n) h =
    drop-gather d c (p + 1) m n (omega arith) ∙ ap₂ (gather d c) (shift p m) (omega arith)
  where
    shift : (p m : ℕ) → p + 1 + m ≡ p + suc m
    shift p m = omega arith

pub length-contents : (r : Ring) → length (contents r) ≡ used r
length-contents r = length-gather r.bytes r.cap r.tail (used r)

module _ {r : Ring} (v : IsValid r) where
  -- Moving the read cursor over `m` unread bytes drops them.
  pub read_past :
      (m : ℕ)
      → m ≤ used r
      → let r' = record r { tail = add_size r.tail m } in
        IsValid r' × (contents r' ≡ drop m (contents r))
  read_past m h =
      let left : sub_size r.head (add_size r.tail m) ≡ used r - m =
        omega (arith, v.head_word, v.tail_word) in
      (
        record {
          level = v.level;
          word = v.word;
          power = v.power;
          masked = v.masked;
          room = v.room;
          head_word = v.head_word;
          tail_word = omega arith;
          bounded = omega (arith, left, v.bounded);
        },
        ap (gather r.bytes r.cap (add_size r.tail m)) left
            ∙ gather-mod r.bytes r.cap (add_size r.tail m) (r.tail + m) (used r - m)
                (slot_wrap v (r.tail + m))
            ∙ sym (drop-gather r.bytes r.cap r.tail m (used r) h),
      )

  -- Copying `src` in behind the unread bytes, and moving the write cursor past it, appends it.
  pub written :
      (src : List ℕ)
      → used r + length src ≤ r.cap
      → let r' = record r { head = add_size r.head (length src); bytes = copy_in r src } in
        IsValid r' × (contents r' ≡ contents r ++ src)
  written src fits =
      let more : sub_size (add_size r.head (length src)) r.tail ≡ used r + length src =
        omega (arith, v.head_word, v.tail_word, cap_word v) in
      let copied : copy_in r src ≡ scatter r.bytes r.cap (r.tail + used r) src =
        copy_in-eq-scatter v src (omega arith)
        ∙ scatter-mod r.bytes r.cap r.head (r.tail + used r) src (head_slot v) in
      (
        record {
          level = v.level;
          word = v.word;
          power = v.power;
          masked = v.masked;
          room = ap length copied ∙ length-scatter r.bytes r.cap (r.tail + used r) src ∙ v.room;
          head_word = omega arith;
          tail_word = v.tail_word;
          bounded = omega (arith, more);
        },
        ap₂ (λ (d : List ℕ) (n : ℕ). gather d r.cap r.tail n) copied more
            ∙ gather-scatter src r.bytes r.cap r.tail (used r) (omega (arith, v.room)) fits,
      )
