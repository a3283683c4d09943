-- ===== src/Base/Memory.antt =====
-- Flat memory: `memcpy` into an array, and reading a range of it.
use Prim.Native.Nat.{ℕ, zero, suc, ◌+◌, ◌≤◌, ◌<◌}
use mathlib.Core.Path.{◌≡◌, refl, ap, ap₂, ◌∙◌}
use mathlib.Core.List.{List, [], ◌∷◌, ◌++◌}
use Prim.Native.Nat.add
use native.Mathlib.Nat.{add-zero, add_assoc}
use native.Mathlib.Omega.{arith}
use x.Base.Lists.{length, get_or, set, take, drop, length-set, get_or-set}

-- `memcpy(dst + pos, src, len)`, where `src` lists the `len` bytes.
abbrev pub memcpy : List ℕ → ℕ → List ℕ → List ℕ
memcpy dst pos [] = dst
memcpy dst pos (b ∷ bs) = memcpy (set dst pos b) (pos + 1) bs

-- The `len` bytes at `src + pos`.
abbrev pub slice : List ℕ → ℕ → ℕ → List ℕ
slice src pos zero = []
slice src pos (suc n) = get_or src pos 0 ∷ slice src (pos + 1) n

pub length-memcpy : (dst : List ℕ) (pos : ℕ) (bs : List ℕ) → length (memcpy dst pos bs) ≡ length dst
length-memcpy dst pos [] = refl
length-memcpy dst pos (b ∷ bs) = length-memcpy (set dst pos b) (pos + 1) bs ∙ length-set dst pos b

pub length-slice : (src : List ℕ) (pos n : ℕ) → length (slice src pos n) ≡ n
length-slice src pos zero = refl
length-slice src pos (suc n) = ap suc (length-slice src (pos + 1) n)

pub get_or-memcpy :
    (dst : List ℕ) (pos : ℕ) (bs : List ℕ) (j : ℕ)
    → pos + length bs ≤ length dst
    → j < pos
    → get_or (memcpy dst pos bs) j 0 ≡ get_or dst j 0
get_or-memcpy dst pos [] j fits below = refl
get_or-memcpy dst pos (b ∷ bs) j fits below = ground (
  arith,
  get_or-memcpy (set dst pos b) (pos + 1) bs j (omega (arith, length-set dst pos b)) (omega arith),
  get_or-set dst pos j b 0 (omega arith),
)

-- What was copied in is read back.
pub slice-memcpy :
    (dst : List ℕ) (pos : ℕ) (bs : List ℕ)
    → pos + length bs ≤ length dst
    → slice (memcpy dst pos bs) pos (length bs) ≡ bs
slice-memcpy dst pos [] fits = refl
slice-memcpy dst pos (b ∷ bs) fits = ground (
  arith,
  get_or-memcpy (set dst pos b) (pos + 1) bs pos (omega (arith, length-set dst pos b))
      (omega arith),
  get_or-set dst pos pos b 0 (omega arith),
  slice-memcpy (set dst pos b) (pos + 1) bs (omega (arith, length-set dst pos b)),
)

-- A copy leaves what lies outside its range.
pub slice-memcpy_before :
    (dst : List ℕ) (pos : ℕ) (bs : List ℕ) (i n : ℕ)
    → pos + length bs ≤ length dst
    → i + n ≤ pos
    → slice (memcpy dst pos bs) i n ≡ slice dst i n
slice-memcpy_before dst pos bs i zero fits below = refl
slice-memcpy_before dst pos bs i (suc n) fits below = ground (
  arith,
  get_or-memcpy dst pos bs i fits (omega arith),
  slice-memcpy_before dst pos bs (i + 1) n fits (omega arith),
)

pub slice-append :
    (src : List ℕ) (pos m n : ℕ) → slice src pos (m + n) ≡ slice src pos m ++ slice src (pos + m) n
slice-append src pos zero n = rw (add.zero, add-zero)
slice-append src pos (suc m) n =
    rw (add.suc, slice-append src (pos + 1) m n, add_assoc pos 1 m, add-suc_one m)
  where
    add-suc_one : (m : ℕ) → 1 + m ≡ suc m
    add-suc_one m = omega arith

slice-cons : (x : ℕ) (xs : List ℕ) (pos n : ℕ) → slice (x ∷ xs) (suc pos) n ≡ slice xs pos n
slice-cons x xs pos zero = refl
slice-cons x xs pos (suc n) =
    ap (◌∷◌ (get_or xs pos 0))
      (ap (λ (p : ℕ). slice (x ∷ xs) p n) (omega arith) ∙ slice-cons x xs (pos + 1) n)

-- A range at the start of a list is a prefix.
pub slice-eq-take : (xs : List ℕ) (n : ℕ) → n ≤ length xs → slice xs 0 n ≡ take n xs
slice-eq-take xs zero h = refl
slice-eq-take [] (suc n) h = absurd (omega arith)
slice-eq-take (x ∷ xs) (suc n) h = ap (◌∷◌ x) (
    ap (λ (p : ℕ). slice (x ∷ xs) p n) (omega arith)
    ∙ slice-cons x xs 0 n
    ∙ slice-eq-take xs n (omega arith))

-- What lies past a prefix is at positions shifted by it.
get_or-drop : (xs : List ℕ) (k i : ℕ) → get_or (drop k xs) i 0 ≡ get_or xs (k + i) 0
get_or-drop xs zero i = ap (λ (j : ℕ). get_or xs j 0) (omega arith)
get_or-drop [] (suc k) i = refl
get_or-drop (x ∷ xs) (suc k) i = get_or-drop xs k i ∙ ap (λ (j : ℕ). get_or (x ∷ xs) j 0) (next k i)
  where
    next : (k i : ℕ) → suc (k + i) ≡ suc k + i
    next k i = omega arith

pub slice-drop : (xs : List ℕ) (k p n : ℕ) → slice (drop k xs) p n ≡ slice xs (k + p) n
slice-drop xs k p zero = refl
slice-drop xs k p (suc n) =
    ap₂ ◌∷◌ (get_or-drop xs k p)
      (slice-drop xs k (p + 1) n ∙ ap (λ (j : ℕ). slice xs j n) (omega arith))
