-- ===== src/Ring/Cyclic.antt =====
-- The bytes of an array of `c` slots seen round and round: position `p` is slot `p % c`.
use native.Mathlib.Nat.{
  mod-add-mod, mod-eq_of_lt, mod-eq-sub-mod, mod-lt, mod_self, add-zero, add_assoc,
}
use x.Base.{
  ℕ, zero, suc, ◌+◌, ◌-◌, ◌%◌, ◌≤◌, ◌<◌, ◌≡◌, refl, sym, ap, ap₂, ◌∙◌, ◌≢◌, inl, inr, List, [], ◌∷◌,
  ◌++◌, arith, ltb, Bool-cases, length, get_or, set, length-set, get_or-set, memcpy, slice,
  append-nil, append_assoc,
}

-- Slot by slot writing and reading, from position `p` on.
abbrev pub scatter : List ℕ → ℕ → ℕ → List ℕ → List ℕ
scatter d c p [] = d
scatter d c p (b ∷ bs) = scatter (set d (p % c) b) c (p + 1) bs

abbrev pub gather : List ℕ → ℕ → ℕ → ℕ → List ℕ
gather d c p zero = []
gather d c p (suc n) = get_or d (p % c) 0 ∷ gather d c (p + 1) n

mod_next : (c p : ℕ) → p % c + 1 < c → (p + 1) % c ≡ p % c + 1
mod_next c p h = sym (mod-add-mod p c 1) ∙ mod-eq_of_lt h

-- Where the end of the array is reached, the next slot is the first.
pub mod_wrap : (c p k : ℕ) → p % c + k ≡ c → (p + k) % c ≡ 0
mod_wrap c p k h = sym (mod-add-mod p c k) ∙ ap (λ (t : ℕ). t % c) h ∙ mod_self c

-- Positions less than a round apart are different slots.
mod_apart : (c p k : ℕ) → 0 < k → k < c → (p + k) % c ≢ p % c
mod_apart c p k pos less = elim (Bool-cases (ltb (p % c + k) c)) [
  | inl inside ↦
      ground (arith, mod-add-mod p c k, mod-eq_of_lt {n = p % c + k} {m = c} (ground arith))
  | inr past ↦
      let small : p % c < c = mod-lt p (omega arith) in
      ground (
        arith,
        mod-add-mod p c k,
        mod-eq-sub-mod {n = p % c + k} {m = c} (ground arith),
        mod-eq_of_lt {n = p % c + k - c} {m = c} (ground arith),
      )
]

pub length-gather : (d : List ℕ) (c p n : ℕ) → length (gather d c p n) ≡ n
length-gather d c p zero = refl
length-gather d c p (suc n) = ap suc (length-gather d c (p + 1) n)

pub length-scatter : (d : List ℕ) (c p : ℕ) (bs : List ℕ) → length (scatter d c p bs) ≡ length d
length-scatter d c p [] = refl
length-scatter d c p (b ∷ bs) =
    length-scatter (set d (p % c) b) c (p + 1) bs ∙ length-set d (p % c) b

-- A run that does not reach the end of the array is a flat copy.
pub memcpy-eq-scatter :
    (d : List ℕ) (c p : ℕ) (bs : List ℕ)
    → p % c + length bs ≤ c
    → memcpy d (p % c) bs ≡ scatter d c p bs
memcpy-eq-scatter d c p [] h = refl
memcpy-eq-scatter d c p (b ∷ []) h = refl
memcpy-eq-scatter d c p (b ∷ b' ∷ bs) h =
    let next = mod_next c p (omega arith) in
    rw (← next) (memcpy-eq-scatter (set d (p % c) b) c (p + 1) (b' ∷ bs) (omega (arith, next)))

pub slice-eq-gather : (d : List ℕ) (c p n : ℕ) → p % c + n ≤ c → slice d (p % c) n ≡ gather d c p n
slice-eq-gather d c p zero h = refl
slice-eq-gather d c p (suc zero) h = refl
slice-eq-gather d c p (suc (suc n)) h =
    let next = mod_next c p (omega arith) in
    ap (◌∷◌ (get_or d (p % c) 0))
      (rw (← next) (slice-eq-gather d c (p + 1) (suc n) (omega (arith, next))))

pub scatter-append :
    (d : List ℕ) (c p : ℕ) (xs ys : List ℕ)
    → scatter d c p (xs ++ ys) ≡ scatter (scatter d c p xs) c (p + length xs) ys
scatter-append d c p [] ys = rw add-zero
scatter-append d c p (x ∷ xs) ys =
    scatter-append (set d (p % c) x) c (p + 1) xs ys
    ∙ ap (λ (q : ℕ). scatter (scatter d c p (x ∷ xs)) c q ys) (omega arith)

pub gather-append :
    (d : List ℕ) (c p m n : ℕ) → gather d c p (m + n) ≡ gather d c p m ++ gather d c (p + m) n
gather-append d c p zero n = rw (add-zero, zero_add n)
  where
    zero_add : (n : ℕ) → 0 + n ≡ n
    zero_add n = omega arith
gather-append d c p (suc m) n = rw (suc_add m n) (
    ap (◌∷◌ (get_or d (p % c) 0)) (
      gather-append d c (p + 1) m n
      ∙ ap (λ (q : ℕ). gather d c (p + 1) m ++ gather d c q n) (omega arith)))
  where
    suc_add : (m n : ℕ) → suc m + n ≡ suc (m + n)
    suc_add m n = omega arith

-- Only the position within a round matters.
pub gather-mod : (d : List ℕ) (c p q n : ℕ) → p % c ≡ q % c → gather d c p n ≡ gather d c q n
gather-mod d c p q zero e = refl
gather-mod d c p q (suc n) e =
    ap₂ (λ (i : ℕ) (r : List ℕ). get_or d i 0 ∷ r) e
      (gather-mod d c (p + 1) (q + 1) n
        (sym (mod-add-mod p c 1) ∙ ap (λ (t : ℕ). (t + 1) % c) e ∙ mod-add-mod q c 1))

pub scatter-mod :
    (d : List ℕ) (c p q : ℕ) (bs : List ℕ) → p % c ≡ q % c → scatter d c p bs ≡ scatter d c q bs
scatter-mod d c p q [] e = refl
scatter-mod d c p q (b ∷ bs) e =
    ap (λ (i : ℕ). scatter (set d i b) c (p + 1) bs) e
    ∙ scatter-mod (set d (q % c) b) c (p + 1) (q + 1) bs
        (sym (mod-add-mod p c 1) ∙ ap (λ (t : ℕ). (t + 1) % c) e ∙ mod-add-mod q c 1)

-- A write up to a round ahead is not seen by what lies between.
gather-set_ahead :
    (d : List ℕ) (c p n k v : ℕ)
    → c ≤ length d
    → n ≤ k
    → k < c
    → gather (set d ((p + k) % c) v) c p n ≡ gather d c p n
gather-set_ahead d c p zero k v size below less = refl
gather-set_ahead d c p (suc n) zero v size below less = absurd (omega arith)
gather-set_ahead d c p (suc n) (suc k) v size below less =
    ap₂ ◌∷◌
      (ground (
        arith,
        get_or-set d ((p + suc k) % c) (p % c) v 0
            (omega (arith, mod-lt (p + suc k) {m = c} (omega arith))),
        mod_apart c p (suc k) (omega arith) less,
      ))
      (ap (λ (q : ℕ). gather (set d (q % c) v) c (p + 1) n) (shift p k)
        ∙ gather-set_ahead d c (p + 1) n k v size (omega arith) (omega arith))
  where
    shift : (p k : ℕ) → p + suc k ≡ p + 1 + k
    shift p k = omega arith

-- Writing just past a run of `n` bytes extends the run.
pub gather-scatter :
    (bs : List ℕ) (d : List ℕ) (c p n : ℕ)
    → c ≤ length d
    → n + length bs ≤ c
    → gather (scatter d c (p + n) bs) c p (n + length bs) ≡ gather d c p n ++ bs
gather-scatter [] d c p n size fits = simp (add-zero, append-nil)
gather-scatter (b ∷ bs) d c p n size fits =
    let d' = set d ((p + n) % c) b in
    let size' : c ≤ length d' = omega (arith, length-set d ((p + n) % c) b) in
    let last : gather d' c p (n + 1) ≡ gather d c p n ++ (b ∷ []) =
      gather-append d' c p n 1
      ∙ ap₂ ◌++◌ (gather-set_ahead d c p n n b size (omega arith) (omega arith)) (
          ap (λ (v : ℕ). v ∷ [])
            (ground (
              arith,
              get_or-set d ((p + n) % c) ((p + n) % c) b 0
                  (omega (arith, mod-lt (p + n) {m = c} (omega arith))),
            ))) in
    rw (add_assoc p n 1, regroup n (length bs))
      (gather-scatter bs d' c p (n + 1) size' (omega arith)
        ∙ ap (λ (r : List ℕ). r ++ bs) last
        ∙ append_assoc (gather d c p n) (b ∷ []) bs)
  where
    regroup : (n k : ℕ) → n + suc k ≡ n + 1 + k
    regroup n k = omega arith
