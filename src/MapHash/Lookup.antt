-- ===== src/MapHash/Lookup.antt =====
-- libx/x/base/map_hash.c: the map as its callers see it.
use x.Base.{
  ℕ, ◌*◌, ◌≡◌, ◌<◌, refl, sym, ap, subst, ◌∙◌, inl, inr, ◌⊎◌, List, [], Bool, true, some,
  Bool-cases, if◌then◌else◌, length, length-replicate, replicate, arith,
}
use x.Base.Errno.{ok, no_memory}
use x.MapHash.{Entry, Table, create, hash_set, hash_get, hash_del, bucket_idx}
use x.MapHash.Chains.{Keys, hits, val_of}
use x.MapHash.Buckets.{of_key}
use x.MapHash.Resize.{total-empty, Placed-empty, chain_at-empty}
use x.MapHash.Valid.{Valid, hash_get-val}
use x.MapHash.Set.{hash_set-Outcome, granted}
use x.MapHash.Del.{hash_del-Outcome}

abbrev empty : ℕ → Table
empty cap = record { buckets = replicate cap []; size = 0; cap = cap }

create-same :
    (calloc : ℕ → Bool) (slab_create : Bool) (cap : ℕ) (t : Table)
    → create calloc slab_create cap ≡ some t
    → empty cap ≡ t
unfolding create
create-same calloc slab_create cap t e = elim (Bool-cases (calloc cap)) [
  | inr h ↦ absurd (let q = rw h at e in cc)
  | inl h ↦ elim (Bool-cases slab_create) [
    | inr g ↦ absurd (let q = rw (h, g) at e in cc)
    | inl g ↦ (let q = rw (h, g) at e in cc)
  ]
]

empty-key :
    (hash : ℕ → ℕ) (eq : ℕ → ℕ → Bool) (cap k : ℕ) → of_key hash eq cap (empty cap).buckets k ≡ []
unfolding hits
empty-key hash eq cap k = rw (chain_at-empty cap (bucket_idx hash cap k)) refl

empty-Valid : (hash : ℕ → ℕ) (eq : ℕ → ℕ → Bool) (cap : ℕ) → 0 < cap → Valid hash eq (empty cap)
empty-Valid hash eq cap pos = record {
  len = length-replicate {A = List Entry} cap [];
  pos = pos;
  placed = Placed-empty hash cap cap;
  unique = λ k. let n = ap (λ (l : List Entry). length l) (empty-key hash eq cap k) in omega arith;
  count = sym (total-empty cap);
}

empty-get : (hash : ℕ → ℕ) (eq : ℕ → ℕ → Bool) (cap k : ℕ) → hash_get hash eq k (empty cap) ≡ 0
unfolding val_of
empty-get hash eq cap k = hash_get-val hash eq k (empty cap) ∙ ap val_of (empty-key hash eq cap k)

-- A map that is created with a capacity above 0 is well-formed, and holds nothing.
pub create-empty :
    (hash : ℕ → ℕ) (eq : ℕ → ℕ → Bool) (calloc : ℕ → Bool) (slab_create : Bool) (cap : ℕ)
    (t : Table)
    → 0 < cap
    → create calloc slab_create cap ≡ some t
    → Valid hash eq t × ((k : ℕ) → hash_get hash eq k t ≡ 0)
create-empty hash eq calloc slab_create cap t pos e =
    let same : empty cap ≡ t = create-same calloc slab_create cap t e in
    (
      subst (Valid hash eq) same (empty-Valid hash eq cap pos),
      λ k. subst (λ (t : Table). hash_get hash eq k t ≡ 0) same (empty-get hash eq cap k),
    )

-- hash_set and hash_del keep a map well-formed: every entry in the chain of its hash, at most one
-- entry for a key, and a size that counts the entries. So does a hash_set that runs out of memory.
pub set_del-Valid :
    {hash : ℕ → ℕ} {eq : ℕ → ℕ → Bool} (keys : Keys hash eq) (calloc : ℕ → Bool) (slab_alloc : Bool)
    (key val : ℕ) (t : Table)
    → Valid hash eq t
    → Valid hash eq (hash_set hash eq calloc slab_alloc key val t).1
      × Valid hash eq (hash_del hash eq key t).1
set_del-Valid keys calloc slab_alloc key val t v =
    ((hash_set-Outcome keys key val calloc slab_alloc t v).0, (hash_del-Outcome keys key t v).0)

-- After a hash_set of a well-formed map that reports success, whether it overwrote a value,
-- inserted an entry or grew the array, hash_get yields the new value for the keys equal to the
-- one set, and what it yielded before for the others.
pub set_then_get :
    {hash : ℕ → ℕ} {eq : ℕ → ℕ → Bool} (keys : Keys hash eq) (calloc : ℕ → Bool) (slab_alloc : Bool)
    (key val k : ℕ) (t : Table)
    → Valid hash eq t
    → (hash_set hash eq calloc slab_alloc key val t).0 ≡ ok
    → hash_get hash eq k (hash_set hash eq calloc slab_alloc key val t).1
      ≡ (if eq key k then val else hash_get hash eq k t)
set_then_get keys calloc slab_alloc key val k t v e =
    elim (hash_set-Outcome keys key val calloc slab_alloc t v).1 [
      | inl (f, stored) ↦ stored k
      | inr (f, same) ↦ absurd (let q = e in cc)
    ]

-- A hash_set of a well-formed map either reports success or reports no memory and leaves what
-- hash_get yields for every key; with memory granted it reports success.
pub set_result :
    {hash : ℕ → ℕ} {eq : ℕ → ℕ → Bool} (keys : Keys hash eq) (calloc : ℕ → Bool) (slab_alloc : Bool)
    (key val : ℕ) (t : Table)
    → Valid hash eq t
    → let r = hash_set hash eq calloc slab_alloc key val t in
      ((r.0 ≡ ok) ⊎ ((r.0 ≡ no_memory) × ((k : ℕ) → hash_get hash eq k r.1 ≡ hash_get hash eq k t)))
      × (calloc (t.cap * 2) ≡ true → slab_alloc ≡ true → r.0 ≡ ok)
set_result keys calloc slab_alloc key val t v = (
  elim (hash_set-Outcome keys key val calloc slab_alloc t v).1 [
    | inl (f, stored) ↦ inl f
    | inr (f, same) ↦ inr (f, same)
  ],
  granted keys key val calloc slab_alloc t,
)

-- A hash_del of a well-formed map yields what hash_get does for the key, and hash_get then yields
-- NULL for the keys equal to it, and what it yielded before for the others.
pub del_then_get :
    {hash : ℕ → ℕ} {eq : ℕ → ℕ → Bool} (keys : Keys hash eq) (key k : ℕ) (t : Table)
    → Valid hash eq t
    → let r = hash_del hash eq key t in
      (r.0 ≡ hash_get hash eq key t)
      × (hash_get hash eq k r.1 ≡ (if eq key k then 0 else hash_get hash eq k t))
del_then_get keys key k t v = let (w, same, gone) = hash_del-Outcome keys key t v in (same, gone k)
