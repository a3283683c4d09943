-- ===== src/MapHash/Buckets.antt =====
-- libx/x/base/map_hash.c: the array of chains, seen from one key.
use x.Base.{
  ℕ, zero, suc, ◌+◌, ◌-◌, ◌≡◌, ◌≢◌, ◌<◌, refl, sym, ap, subst, ◌∙◌, inl, inr, List, [], ◌∷◌, Bool,
  true, false, ◌==◌, ==_iff, if◌then◌else◌, Bool-cases, length, set, get_or-set, bit_and,
  bit_and-le, arith,
}
use x.MapHash.{Entry, chain_at, bucket_idx, link}
use x.MapHash.Chains.{Keys, with_hit, hits}
use x.MapHash.Changes.{Keyed}

-- The entries that the map holds for the key `k`.
abbrev pub of_key : (ℕ → ℕ) → (ℕ → ℕ → Bool) → ℕ → List (List Entry) → ℕ → List Entry
of_key hash eq cap buckets k = hits eq k (chain_at buckets (bucket_idx hash cap k))

-- The number of entries.
abbrev pub total : List (List Entry) → ℕ
total [] = 0
total (chain ∷ buckets) = length chain + total buckets

pub total-set :
    (buckets : List (List Entry)) (i : ℕ) (chain : List Entry)
    → i < length buckets
    → total (set buckets i chain) + length (chain_at buckets i) ≡ total buckets + length chain
total-set [] i chain lt = absurd (omega arith)
total-set (c ∷ buckets) zero chain lt = omega arith
total-set (c ∷ buckets) (suc i) chain lt = omega (arith, total-set buckets i chain (omega arith))

-- Every entry stands in the chain of its hash.
abbrev pub Placed : (ℕ → ℕ) → ℕ → List (List Entry) → Type 0
Placed hash cap buckets = (i : ℕ) → Keyed (λ k. bucket_idx hash cap k ≡ i) (chain_at buckets i)

pub Placed-set :
    (hash : ℕ → ℕ) (cap i : ℕ) (buckets : List (List Entry)) (chain : List Entry)
    → i < length buckets
    → Keyed (λ k. bucket_idx hash cap k ≡ i) chain
    → Placed hash cap buckets
    → Placed hash cap (set buckets i chain)
Placed-set hash cap i buckets chain lt keyed placed j = elim (Bool-cases (i == j)) [
  | inl e ↦
      let same : i ≡ j = (==_iff i j).0 e in
      rw (get_or-set buckets i j chain [] lt, e)
        (subst (λ p. Keyed (λ k. bucket_idx hash cap k ≡ p) chain) same keyed)
  | inr e ↦ rw (get_or-set buckets i j chain [] lt, e) (placed j)
]

pub idx-same :
    {hash : ℕ → ℕ} {eq : ℕ → ℕ → Bool} (cap : ℕ) (keys : Keys hash eq) (a b : ℕ)
    → eq a b ≡ true
    → bucket_idx hash cap a ≡ bucket_idx hash cap b
unfolding bucket_idx
idx-same cap keys a b e = ap (λ (h : ℕ). bit_and h (cap - 1)) (keys.same_hash a b e)

pub if-both :
    {A : Type 0} {x z y : A} (b : Bool)
    → (b ≡ true → x ≡ y)
    → (b ≡ false → z ≡ y)
    → (if b then x else z) ≡ y
if-both true f g = f refl
if-both false f g = g refl

module _ {hash : ℕ → ℕ} {eq : ℕ → ℕ → Bool} (keys : Keys hash eq) (cap : ℕ) where
  -- The chains of other hashes hold nothing for `k`.
  pub hits-elsewhere :
      (k i : ℕ) (chain : List Entry)
      → i ≢ bucket_idx hash cap k
      → Keyed (λ a. bucket_idx hash cap a ≡ i) chain
      → hits eq k chain ≡ []
  unfolding hits
  hits-elsewhere k i [] ne keyed = refl
  hits-elsewhere k i (x ∷ chain) ne (at, keyed) = elim (Bool-cases (eq x.key k)) [
    | inl e ↦ absurd (ne (sym at ∙ idx-same cap keys x.key k e))
    | inr e ↦ rw e (hits-elsewhere k i chain ne keyed)
  ]

  -- A chain is replaced.
  pub of_key-set :
      (buckets : List (List Entry)) (i : ℕ) (chain : List Entry) (k : ℕ)
      → i < length buckets
      → of_key hash eq cap (set buckets i chain) k
        ≡ (if i == bucket_idx hash cap k then hits eq k chain else of_key hash eq cap buckets k)
  of_key-set buckets i chain k lt = elim (Bool-cases (i == bucket_idx hash cap k)) [
    | inl e ↦ rw (get_or-set buckets i (bucket_idx hash cap k) chain [] lt, e) refl
    | inr e ↦ rw (get_or-set buckets i (bucket_idx hash cap k) chain [] lt, e) refl
  ]

  -- What holds of the entries of `k` after a chain is replaced.
  pub of_key-replaced :
      (P : List Entry → Type 0) (buckets : List (List Entry)) (i : ℕ) (chain : List Entry) (k : ℕ)
      → i < length buckets
      → (i ≡ bucket_idx hash cap k → P (hits eq k chain))
      → (i ≢ bucket_idx hash cap k → P (of_key hash eq cap buckets k))
      → P (of_key hash eq cap (set buckets i chain) k)
  of_key-replaced P buckets i chain k lt here there =
      subst P (sym (of_key-set buckets i chain k lt))
        (elim (Bool-cases (i == bucket_idx hash cap k))
          as (λ _. P (
            if i == bucket_idx hash cap k then hits eq k chain else of_key hash eq cap buckets k)) [
              | inl e ↦ rw e (here ((==_iff i (bucket_idx hash cap k)).0 e))
              | inr e ↦ rw e (there (λ same. ground arith))
            ])

  pub of_key-link :
      (e : Entry) (buckets : List (List Entry)) (k : ℕ)
      → bucket_idx hash cap e.key < length buckets
      → of_key hash eq cap (link hash cap e buckets) k
        ≡ with_hit (eq e.key k) e (of_key hash eq cap buckets k)
  unfolding link hits
  of_key-link e buckets k lt =
      let idx = bucket_idx hash cap e.key in
      of_key-set buckets idx (e ∷ chain_at buckets idx) k lt
      ∙ if-both (idx == bucket_idx hash cap k)
          (λ same.
            ap (λ (i : ℕ). with_hit (eq e.key k) e (hits eq k (chain_at buckets i)))
              ((==_iff idx (bucket_idx hash cap k)).0 same))
          (λ other. elsewhere (λ h. let q = idx-same cap keys e.key k h in ground arith))
    where
      elsewhere :
          {rest : List Entry} → (eq e.key k ≡ true → ⊥) → rest ≡ with_hit (eq e.key k) e rest
      elsewhere {rest} ne = elim (Bool-cases (eq e.key k)) [
        | inl h ↦ absurd (ne h)
        | inr h ↦ rw h refl
      ]

pub bucket_idx-lt : (hash : ℕ → ℕ) (cap key : ℕ) → 0 < cap → bucket_idx hash cap key < cap
unfolding bucket_idx
bucket_idx-lt hash cap key pos = omega (arith, bit_and-le (hash key) (cap - 1))
