-- ===== src/MapHash/Resize.antt =====
-- libx/x/base/map_hash.c, hash_resize: the new array holds the entries of the old one.
use x.Base.{
  ℕ, zero, suc, ◌+◌, ◌≡◌, ◌≢◌, ◌≤◌, ◌<◌, refl, ap, ◌∙◌, List, [], ◌∷◌, Bool, true, false, length,
  length-set, length-replicate, replicate, arith,
}
use x.MapHash.{Entry, chain_at, bucket_idx, link, move_chain, move_all}
use x.MapHash.Chains.{Keys, with_hit, hits}
use x.MapHash.Buckets.{
  of_key, total, total-set, Placed, Placed-set, of_key-link, hits-elsewhere, bucket_idx-lt,
}

-- The entries of `xs` one by one onto `ys`.
abbrev onto : List Entry → List Entry → List Entry
onto [] ys = ys
onto (x ∷ xs) ys = onto xs (x ∷ ys)

abbrev gather : (ℕ → ℕ → Bool) → ℕ → List (List Entry) → List Entry → List Entry
gather eq k [] acc = acc
gather eq k (chain ∷ old) acc = gather eq k old (onto (hits eq k chain) acc)

onto-hit :
    (b : Bool) (e : Entry) (xs ys : List Entry)
    → onto xs (with_hit b e ys) ≡ onto (with_hit b e xs) ys
onto-hit true e xs ys = refl
onto-hit false e xs ys = refl

onto-short : (xs : List Entry) → length xs ≤ 1 → onto xs [] ≡ xs
onto-short [] h = refl
onto-short (x ∷ []) h = refl
onto-short (x ∷ y ∷ xs) h = absurd (omega arith)

-- The chains of `old` from `i` on hold nothing for `k`, but for that at place `j`.
gather-none :
    (eq : ℕ → ℕ → Bool) (k : ℕ) (old : List (List Entry)) (acc : List Entry)
    → ((i : ℕ) → hits eq k (chain_at old i) ≡ [])
    → gather eq k old acc ≡ acc
gather-none eq k [] acc h = refl
gather-none eq k (chain ∷ old) acc h =
    ap (λ (xs : List Entry). gather eq k old (onto xs acc)) (h 0)
    ∙ gather-none eq k old acc (λ i. h (suc i))

gather-only :
    (eq : ℕ → ℕ → Bool) (k j : ℕ) (old : List (List Entry)) (acc : List Entry)
    → ((i : ℕ) → i ≢ j → hits eq k (chain_at old i) ≡ [])
    → gather eq k old acc ≡ onto (hits eq k (chain_at old j)) acc
unfolding hits
gather-only eq k j [] acc h = refl
gather-only eq k zero (chain ∷ old) acc h =
    gather-none eq k old (onto (hits eq k chain) acc) (λ i. h (suc i) (λ e. cc))
gather-only eq k (suc j) (chain ∷ old) acc h =
    ap (λ (xs : List Entry). gather eq k old (onto xs acc)) (h 0 (λ e. cc))
    ∙ gather-only eq k j old acc (λ i ne. h (suc i) (λ e. ne (omega arith)))

module _ {hash : ℕ → ℕ} {eq : ℕ → ℕ → Bool} (keys : Keys hash eq) (cap : ℕ) (pos : 0 < cap) where
  pub length-link :
      (e : Entry) (buckets : List (List Entry)) → length (link hash cap e buckets) ≡ length buckets
  unfolding link
  length-link e buckets = length-set buckets _ _

  length-move_chain :
      (chain : List Entry) (buckets : List (List Entry))
      → length (move_chain hash cap chain buckets) ≡ length buckets
  unfolding move_chain
  length-move_chain [] buckets = refl
  length-move_chain (e ∷ chain) buckets =
      length-move_chain chain (link hash cap e buckets) ∙ length-link e buckets

  pub length-move_all :
      (old buckets : List (List Entry)) → length (move_all hash cap old buckets) ≡ length buckets
  unfolding move_all
  length-move_all [] buckets = refl
  length-move_all (chain ∷ old) buckets =
      length-move_all old (move_chain hash cap chain buckets) ∙ length-move_chain chain buckets

  idx-lt :
      (e : Entry) (buckets : List (List Entry))
      → length buckets ≡ cap
      → bucket_idx hash cap e.key < length buckets
  idx-lt e buckets len = let lt = bucket_idx-lt hash cap e.key pos in omega arith

  of_key-move_chain :
      (chain : List Entry) (buckets : List (List Entry)) (k : ℕ)
      → length buckets ≡ cap
      → of_key hash eq cap (move_chain hash cap chain buckets) k
        ≡ onto (hits eq k chain) (of_key hash eq cap buckets k)
  unfolding move_chain hits
  of_key-move_chain [] buckets k len = refl
  of_key-move_chain (e ∷ chain) buckets k len =
      of_key-move_chain chain (link hash cap e buckets) k (length-link e buckets ∙ len)
      ∙ ap (onto (hits eq k chain)) (of_key-link keys cap e buckets k (idx-lt e buckets len))
      ∙ onto-hit (eq e.key k) e (hits eq k chain) _

  of_key-move_all :
      (old buckets : List (List Entry)) (k : ℕ)
      → length buckets ≡ cap
      → of_key hash eq cap (move_all hash cap old buckets) k
        ≡ gather eq k old (of_key hash eq cap buckets k)
  unfolding move_all
  of_key-move_all [] buckets k len = refl
  of_key-move_all (chain ∷ old) buckets k len =
      of_key-move_all old (move_chain hash cap chain buckets) k
        (length-move_chain chain buckets ∙ len)
      ∙ ap (gather eq k old) (of_key-move_chain chain buckets k len)

  pub total-link :
      (e : Entry) (buckets : List (List Entry))
      → length buckets ≡ cap
      → total (link hash cap e buckets) ≡ total buckets + 1
  unfolding link
  total-link e buckets len =
      let idx = bucket_idx hash cap e.key in
      omega (arith, total-set buckets idx (e ∷ chain_at buckets idx) (idx-lt e buckets len))

  total-move_chain :
      (chain : List Entry) (buckets : List (List Entry))
      → length buckets ≡ cap
      → total (move_chain hash cap chain buckets) ≡ length chain + total buckets
  unfolding move_chain
  total-move_chain [] buckets len = omega arith
  total-move_chain (e ∷ chain) buckets len = omega (
    arith,
    total-link e buckets len,
    total-move_chain chain (link hash cap e buckets) (length-link e buckets ∙ len),
  )

  pub total-move_all :
      (old buckets : List (List Entry))
      → length buckets ≡ cap
      → total (move_all hash cap old buckets) ≡ total old + total buckets
  unfolding move_all
  total-move_all [] buckets len = omega arith
  total-move_all (chain ∷ old) buckets len = omega (
    arith,
    total-move_chain chain buckets len,
    total-move_all old (move_chain hash cap chain buckets) (length-move_chain chain buckets ∙ len),
  )

  pub Placed-link :
      (e : Entry) (buckets : List (List Entry))
      → length buckets ≡ cap
      → Placed hash cap buckets
      → Placed hash cap (link hash cap e buckets)
  unfolding link
  Placed-link e buckets len placed =
      let idx = bucket_idx hash cap e.key in
      Placed-set hash cap idx buckets (e ∷ chain_at buckets idx) (idx-lt e buckets len)
        (refl, placed idx) placed

  Placed-move_chain :
      (chain : List Entry) (buckets : List (List Entry))
      → length buckets ≡ cap
      → Placed hash cap buckets
      → Placed hash cap (move_chain hash cap chain buckets)
  unfolding move_chain
  Placed-move_chain [] buckets len placed = placed
  Placed-move_chain (e ∷ chain) buckets len placed =
      Placed-move_chain chain (link hash cap e buckets) (length-link e buckets ∙ len)
        (Placed-link e buckets len placed)

  pub Placed-move_all :
      (old buckets : List (List Entry))
      → length buckets ≡ cap
      → Placed hash cap buckets
      → Placed hash cap (move_all hash cap old buckets)
  unfolding move_all
  Placed-move_all [] buckets len placed = placed
  Placed-move_all (chain ∷ old) buckets len placed =
      Placed-move_all old (move_chain hash cap chain buckets)
        (length-move_chain chain buckets ∙ len) (Placed-move_chain chain buckets len placed)

pub chain_at-empty : (n i : ℕ) → chain_at (replicate n []) i ≡ []
chain_at-empty zero i = refl
chain_at-empty (suc n) zero = refl
chain_at-empty (suc n) (suc i) = chain_at-empty n i

pub total-empty : (n : ℕ) → total (replicate n []) ≡ 0
total-empty zero = refl
total-empty (suc n) = omega (arith, total-empty n)

pub Placed-empty : (hash : ℕ → ℕ) (cap n : ℕ) → Placed hash cap (replicate n [])
Placed-empty hash cap n i = rw (chain_at-empty n i) tt

-- A key keeps its entry when the array grows.
pub of_key-grown :
    {hash : ℕ → ℕ} {eq : ℕ → ℕ → Bool} (keys : Keys hash eq) (cap new_cap : ℕ)
    (old : List (List Entry)) (k : ℕ)
    → 0 < new_cap
    → Placed hash cap old
    → length (of_key hash eq cap old k) ≤ 1
    → of_key hash eq new_cap (move_all hash new_cap old (replicate new_cap [])) k
      ≡ of_key hash eq cap old k
unfolding hits
of_key-grown {hash} {eq} keys cap new_cap old k pos placed one =
    of_key-move_all keys new_cap pos old (replicate new_cap []) k
      (length-replicate {A = List Entry} new_cap [])
    ∙ gather-only eq k (bucket_idx hash cap k) old _
        (λ i ne. hits-elsewhere keys cap k i (chain_at old i) ne (placed i))
    ∙ ap (λ (c : List Entry). onto (of_key hash eq cap old k) (hits eq k c))
        (chain_at-empty new_cap (bucket_idx hash new_cap k))
    ∙ onto-short (of_key hash eq cap old k) one
