-- ===== src/IoBuffer/Append/Own.antt =====
-- libx/x/buf/io.c: buffers whose blocks are their own, and what finding a new block leaves alone.
use x.Base.{
  ℕ, zero, suc, ◌+◌, ◌≤◌, ◌<◌, ◌≡◌, ◌≢◌, refl, sym, ap, ap₂, ◌∙◌, inl, inr, List, [], ◌∷◌, ◌++◌,
  arith, ◌==◌, ==_iff, Bool-cases, length, length-set, get_or, set, slice, All,
}
use x.IoBuffer.{block_size, Block, Ref, Mem, no_block, block_at, put_block, copy_to}

abbrev pub blocks_of : List Ref → List ℕ
blocks_of [] = []
blocks_of (r ∷ rs) = r.block ∷ blocks_of rs

abbrev pub Apart : ℕ → List ℕ → Type 0
Apart b xs = All (λ y. b ≢ y) xs

abbrev pub Distinct : List ℕ → Type 0
Distinct [] = Unit
Distinct (x ∷ xs) = Apart x xs × Distinct xs

-- The references of a buffer go to blocks of their own, none of which is free.
pub record Own (rs : List Ref) (m : Mem) : Type 0 where
  pub distinct : Distinct (m.pool ++ blocks_of rs)
  pub known : All (λ b. b < length m.blocks) (m.pool ++ blocks_of rs)
  pub full : (b : ℕ) → b < length m.blocks → length (block_at m b).bytes ≡ block_size
  pub fits : All (λ r. r.offset + r.len ≤ block_size) rs

pub All-snoc {ℓ κ} :
    {A : Type ℓ} (P : A → Type κ) (xs : List A) (b : A) → All P xs → P b → All P (xs ++ b ∷ [])
All-snoc P [] b h p = (p, tt)
All-snoc P (x ∷ xs) b (h, hs) p = (h, All-snoc P xs b hs p)

pub All-suffix {κ} : (P : ℕ → Type κ) (xs ys : List ℕ) → All P (xs ++ ys) → All P ys
All-suffix P [] ys h = h
All-suffix P (x ∷ xs) ys (h, hs) = All-suffix P xs ys hs

pub Distinct-suffix : (xs ys : List ℕ) → Distinct (xs ++ ys) → Distinct ys
Distinct-suffix [] ys d = d
Distinct-suffix (x ∷ xs) ys (h, d) = Distinct-suffix xs ys d

pub Distinct-snoc : (xs : List ℕ) (b : ℕ) → Distinct xs → Apart b xs → Distinct (xs ++ b ∷ [])
Distinct-snoc [] b d a = (tt, tt)
Distinct-snoc (x ∷ xs) b (h, d) (a, as1) =
    (All-snoc (λ y. x ≢ y) xs b h (λ e. a (sym e)), Distinct-snoc xs b d as1)

pub Apart-new : (n : ℕ) (xs : List ℕ) → All (λ b. b < n) xs → Apart n xs
Apart-new n [] h = tt
Apart-new n (x ∷ xs) (h, hs) = ((λ e. absurd (omega arith)), Apart-new n xs hs)

pub All-less : (n k : ℕ) (xs : List ℕ) → n ≤ k → All (λ b. b < n) xs → All (λ b. b < k) xs
All-less n k [] h a = tt
All-less n k (x ∷ xs) h (a, as1) = (omega arith, All-less n k xs h as1)

pub blocks_of-append : (xs ys : List Ref) → blocks_of (xs ++ ys) ≡ blocks_of xs ++ blocks_of ys
blocks_of-append [] ys = refl
blocks_of-append (x ∷ xs) ys = ap (λ t. x.block ∷ t) (blocks_of-append xs ys)

-- A chain reads the same where its blocks hold the same bytes.
pub copy_to_kept :
    (rs : List Ref) (m m' : Mem)
    → All (λ b. (block_at m' b).bytes ≡ (block_at m b).bytes) (blocks_of rs)
    → copy_to rs m' ≡ copy_to rs m
unfolding copy_to
copy_to_kept [] m m' h = refl
copy_to_kept (r ∷ rs) m m' (e, es) =
    ap₂ (λ (x : List ℕ) (y : List ℕ). slice x r.offset r.len ++ y) e (copy_to_kept rs m m' es)

get_or-set_else :
    (blocks : List Block) (b j : ℕ) (v : Block)
    → b ≢ j
    → get_or (set blocks b v) j no_block ≡ get_or blocks j no_block
get_or-set_else [] b j v ne = refl
get_or-set_else (x ∷ blocks) zero zero v ne = absurd (ne refl)
get_or-set_else (x ∷ blocks) zero (suc j) v ne = refl
get_or-set_else (x ∷ blocks) (suc b) zero v ne = refl
get_or-set_else (x ∷ blocks) (suc b) (suc j) v ne =
    get_or-set_else blocks b j v (λ e. ne (ap suc e))

-- A write to another block.
pub put_block-kept :
    (m : Mem) (b : ℕ) (v : Block) (xs : List ℕ)
    → Apart b xs
    → All (λ j. (block_at (put_block m b v) j).bytes ≡ (block_at m j).bytes) xs
put_block-kept m b v [] a = tt
put_block-kept m b v (x ∷ xs) (a, as1) =
    (ap (λ (t : Block). t.bytes) (get_or-set_else m.blocks b x v a), put_block-kept m b v xs as1)

pub put_block-same :
    (m : Mem) (b : ℕ) (v : Block) → b < length m.blocks → block_at (put_block m b v) b ≡ v
put_block-same m b v h = go m.blocks b h
  where
    go : (blocks : List Block) (b : ℕ) → b < length blocks → get_or (set blocks b v) b no_block ≡ v
    go [] b h = absurd (omega arith)
    go (x ∷ blocks) zero h = refl
    go (x ∷ blocks) (suc b) h = go blocks b (omega arith)

-- Writing a block of full size keeps all blocks full.
pub put_block-full :
    (m : Mem) (b : ℕ) (v : Block)
    → length v.bytes ≡ block_size
    → ((j : ℕ) → j < length m.blocks → length (block_at m j).bytes ≡ block_size)
    → (j : ℕ) → j < length (put_block m b v).blocks
    → length (block_at (put_block m b v) j).bytes ≡ block_size
put_block-full m b v e full j h = elim (Bool-cases (b == j)) [
  | inl here ↦
      let i : b ≡ j = (==_iff b j).0 here in
      let inside : b < length m.blocks = omega (arith, length-set m.blocks b v) in
      ap (λ (k : ℕ). length (block_at (put_block m b v) k).bytes) (sym i)
      ∙ ap (λ (t : Block). length t.bytes) (put_block-same m b v inside)
      ∙ e
  | inr there ↦
      ap (λ (t : Block). length t.bytes)
        (get_or-set_else m.blocks b j v (λ i. absurd (ground (arith, (==_iff b j).1 i))))
      ∙ full j (omega (arith, length-set m.blocks b v))
]
