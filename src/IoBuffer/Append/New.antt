-- ===== src/IoBuffer/Append/New.antt =====
-- libx/x/buf/io.c, xIOBlockAcquire: the block that a buffer gets is no one's.
use x.Base.{
  ℕ, zero, suc, ◌<◌, ◌≡◌, refl, ap, ◌∙◌, inl, inr, ◌⊎◌, List, [], ◌∷◌, ◌++◌, Bool, some, none,
  arith, ltb, Bool-cases, length, length-append, length-set, length-replicate, get_or, set, All,
  replicate,
}
use x.IoBuffer.{block_size, Block, Ref, Mem, no_block, block_at, acquire, copy_to}
use x.IoBuffer.Contents.{copy_to_same, bytes-set}
use x.IoBuffer.Append.Own.{blocks_of, Apart, Distinct, Own, Apart-new, All-less, copy_to_kept}

-- A memory in which the block `b` was just acquired for a buffer with the references `rs`.
pub record Ready (b : ℕ) (rs : List Ref) (m1 m : Mem) : Type 0 where
  pub distinct : Distinct (m1.pool ++ blocks_of rs)
  pub known : All (λ j. j < length m1.blocks) (m1.pool ++ blocks_of rs)
  pub apart : Apart b (m1.pool ++ blocks_of rs)
  pub inside : b < length m1.blocks
  pub full : (j : ℕ) → j < length m1.blocks → length (block_at m1 j).bytes ≡ block_size
  pub kept : copy_to rs m1 ≡ copy_to rs m

get_or-snoc :
    (xs : List Block) (v : Block) (j : ℕ)
    → j < length xs
    → get_or (xs ++ v ∷ []) j no_block ≡ get_or xs j no_block
get_or-snoc [] v j h = absurd (omega arith)
get_or-snoc (x ∷ xs) v zero h = refl
get_or-snoc (x ∷ xs) v (suc j) h = get_or-snoc xs v j (omega arith)

get_or-end :
    (xs : List Block) (v : Block) (j : ℕ) → j ≡ length xs → get_or (xs ++ v ∷ []) j no_block ≡ v
get_or-end [] v zero h = refl
get_or-end [] v (suc j) h = absurd (omega arith)
get_or-end (x ∷ xs) v zero h = absurd (omega arith)
get_or-end (x ∷ xs) v (suc j) h = get_or-end xs v j (omega arith)

snoc-kept :
    (blocks : List Block) (v : Block) (xs : List ℕ)
    → All (λ j. j < length blocks) xs
    → All (λ j. (get_or (blocks ++ v ∷ []) j no_block).bytes ≡ (get_or blocks j no_block).bytes) xs
snoc-kept blocks v [] h = tt
snoc-kept blocks v (x ∷ xs) (h, hs) =
    (ap (λ (t : Block). t.bytes) (get_or-snoc blocks v x h), snoc-kept blocks v xs hs)

abbrev fresh : Block
fresh = record { refs = 1; size = 0; bytes = replicate block_size 0 }

fresh-Ready :
    (blocks : List Block) (rs : List Ref)
    → Own rs (record { blocks = blocks; pool = [] })
    → Ready
        (length blocks)
        rs
        (record { blocks = blocks ++ fresh ∷ []; pool = [] })
        (record { blocks = blocks; pool = [] })
fresh-Ready blocks rs own =
    let n = length blocks in
    let longer = length-append blocks (let t : List Block = fresh ∷ [] in t) in
    record {
      distinct = own.distinct;
      known = All-less n (length (blocks ++ fresh ∷ [])) (blocks_of rs) (omega arith) own.known;
      apart = Apart-new n (blocks_of rs) own.known;
      inside = omega arith;
      full = λ j h. elim (Bool-cases (ltb j n)) [
        | inl old ↦
            ap (λ (t : Block). length t.bytes) (get_or-snoc blocks fresh j (ground arith))
            ∙ own.full j (ground arith)
        | inr new ↦
            let last : j ≡ n = ground arith in
            ap (λ (t : Block). length t.bytes) (get_or-end blocks fresh j last)
            ∙ length-replicate {A = ℕ} block_size 0
      ];
      kept = copy_to_kept rs _ _ (snoc-kept blocks fresh (blocks_of rs) own.known);
    }

pooled-Ready :
    (blocks : List Block) (b : ℕ) (pool : List ℕ) (rs : List Ref) (v : Block)
    → v.bytes ≡ (get_or blocks b no_block).bytes
    → Own rs (record { blocks = blocks; pool = b ∷ pool })
    → Ready b rs
        (record { blocks = set blocks b v; pool = pool })
        (record { blocks = blocks; pool = b ∷ pool })
pooled-Ready blocks b pool rs v e own =
    let (apart, distinct) = own.distinct in
    let (inside, known) = own.known in
    let same = λ (j : ℕ). bytes-set blocks b j v e in
    let long = length-set blocks b v in
    record {
      distinct = distinct;
      known =
          All-less (length blocks) (length (set blocks b v)) (pool ++ blocks_of rs) (omega arith)
            known;
      apart = apart;
      inside = omega arith;
      full = λ j h. ap (λ (t : List ℕ). length t) (same j) ∙ own.full j (omega arith);
      kept = copy_to_same rs _ _ same;
    }

-- An acquired block is in the memory, is none of the buffer's and is not in the pool any more.
pub acquire-Ready :
    (malloc : ℕ → Bool) (rs : List Ref) (blocks : List Block) (pool : List ℕ)
    → let m : Mem = record { blocks = blocks; pool = pool } in
      Own rs m
      → ((m1 : Mem) × (acquire malloc m ≡ (none, m1)))
        ⊎ ((b : ℕ) × (m1 : Mem) × (acquire malloc m ≡ (some b, m1)) × Ready b rs m1 m)
unfolding acquire
acquire-Ready malloc rs blocks [] own = elim (Bool-cases (malloc (length blocks))) [
  | inl granted ↦ inr (
    length blocks,
    record { blocks = blocks ++ fresh ∷ []; pool = [] },
    rw granted refl,
    fresh-Ready blocks rs own,
  )
  | inr refused ↦ inl (record { blocks = blocks; pool = [] }, rw refused refl)
]
acquire-Ready malloc rs blocks (b ∷ pool) own =
    inr (b, _, refl, pooled-Ready blocks b pool rs _ refl own)
