-- ===== src/P2p/Address/Xor.antt =====
-- XORing a range of bytes with a key, byte by byte.
use x.Base.{
  ℕ, zero, suc, ◌+◌, ◌≤◌, ◌<◌, ◌≡◌, refl, sym, ap, ap₂, ◌∙◌, List, [], ◌∷◌, arith, length, get_or,
  set, length-set, get_or-set, bit_xor, bit_xor_twice, slice, slice-eq-take, take-all,
}
use x.P2p.Address.{xor_into}

-- Each byte XORed with the key's at its index, from `i` on.
pub xors : List ℕ → List ℕ → ℕ → List ℕ
xors [] key i = []
xors (b ∷ bs) key i = bit_xor b (get_or key i 0) ∷ xors bs key (i + 1)

pub xors_twice : (bs key : List ℕ) (i : ℕ) → xors (xors bs key i) key i ≡ bs
unfolding xors
xors_twice [] key i = refl
xors_twice (b ∷ bs) key i = ap₂ ◌∷◌ (bit_xor_twice b (get_or key i 0)) (xors_twice bs key (i + 1))

pub length-xor_into :
    (n i : ℕ) (value key : List ℕ) (off : ℕ) → length (xor_into n i value key off) ≡ length value
unfolding xor_into
length-xor_into zero i value key off = refl
length-xor_into (suc n) i value key off =
    let b = bit_xor (get_or value (off + i) 0) (get_or key i 0) in
    length-xor_into n (i + 1) (set value (off + i) b) key off ∙ length-set value (off + i) b

pub get_or-xor_into :
    (n i : ℕ) (value key : List ℕ) (off j : ℕ)
    → off + i + n ≤ length value
    → j < off + i
    → get_or (xor_into n i value key off) j 0 ≡ get_or value j 0
unfolding xor_into
get_or-xor_into zero i value key off j fits below = refl
get_or-xor_into (suc n) i value key off j fits below =
    let b = bit_xor (get_or value (off + i) 0) (get_or key i 0) in
    ground (
      arith,
      get_or-xor_into n (i + 1) (set value (off + i) b) key off j
          (omega (arith, length-set value (off + i) b)) (omega arith),
      get_or-set value (off + i) j b 0 (omega arith),
    )

slice-set_before :
    (xs : List ℕ) (q b p n : ℕ) → q < p → q < length xs → slice (set xs q b) p n ≡ slice xs p n
slice-set_before xs q b p zero h k = refl
slice-set_before xs q b p (suc n) h k =
    ap₂ ◌∷◌ (ground (arith, get_or-set xs q p b 0 k))
      (slice-set_before xs q b (p + 1) n (omega arith) k)

pub slice-xor_into :
    (n i : ℕ) (value key : List ℕ) (off : ℕ)
    → off + i + n ≤ length value
    → slice (xor_into n i value key off) (off + i) n ≡ xors (slice value (off + i) n) key i
unfolding xor_into xors
slice-xor_into zero i value key off fits = refl
slice-xor_into (suc n) i value key off fits =
    let b = bit_xor (get_or value (off + i) 0) (get_or key i 0) in
    let next = set value (off + i) b in
    let size = length-set value (off + i) b in
    let index : off + (i + 1) ≡ off + i + 1 = omega arith in
    ap₂ ◌∷◌
      (get_or-xor_into n (i + 1) next key off (off + i) (omega (arith, size)) (omega arith)
        ∙ ground (arith, get_or-set value (off + i) (off + i) b 0 (omega arith)))
      (ap (λ (p : ℕ). slice (xor_into n (i + 1) next key off) p n) (sym index)
        ∙ slice-xor_into n (i + 1) next key off (omega (arith, size))
        ∙ ap (λ (p : ℕ). xors (slice next p n) key (i + 1)) index
        ∙ ap (λ (t : List ℕ). xors t key (i + 1))
            (slice-set_before value (off + i) b (off + i + 1) n (omega arith) (omega arith)))

-- XORing a whole list.
pub xor_into_all :
    (n : ℕ) (value key : List ℕ) → length value ≡ n → xor_into n 0 value key 0 ≡ xors value key 0
xor_into_all n value key e =
    sym (whole (xor_into n 0 value key 0) (length-xor_into n 0 value key 0 ∙ e))
    ∙ slice-xor_into n 0 value key 0 (omega arith)
    ∙ ap (λ (t : List ℕ). xors t key 0) (whole value e)
  where
    whole : (xs : List ℕ) → length xs ≡ n → slice xs 0 n ≡ xs
    whole xs h = slice-eq-take xs n (omega arith) ∙ take-all n xs (omega arith)
