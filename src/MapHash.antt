-- ===== src/MapHash.antt =====
-- libx/x/base/map_hash.c: the hash table with chains. Keys and values are pointers, here numbers,
-- and 0 is NULL; the hash and the equality of the keys and the two allocators are parameters.
pub mod Chains
pub mod Changes
pub mod Buckets
pub mod Resize
pub mod Valid
pub mod Set
pub mod Del
pub mod Lookup
pub mod Visits
mod Tests
use x.Base.{
  ℕ, ◌+◌, ◌-◌, ◌*◌, ◌/◌, List, [], ◌∷◌, Bool, true, false, Option, some, none, ltb, if◌then◌else◌,
  get_or, set, replicate, bit_and,
}
use x.Base.Errno.{Errno, ok, no_memory}

-- struct xMapHashEntry, without its link
pub record Entry : Type 0 where
  pub key : ℕ
  pub val : ℕ

-- struct xMapHash: a chain is the list of its entries.
pub record Table : Type 0 where
  pub buckets : List (List Entry)
  pub size : ℕ
  pub cap : ℕ

-- xMapHashCreate; `calloc` and `slab_create` tell whether the memory is granted.
pub create : (ℕ → Bool) → Bool → ℕ → Option Table
create calloc slab_create cap =
    if calloc cap
    then (if slab_create
        then some (record { buckets = replicate cap []; size = 0; cap = cap })
        else none)
    else none

-- bucket_idx
pub bucket_idx : (ℕ → ℕ) → ℕ → ℕ → ℕ
bucket_idx hash cap key = bit_and (hash key) (cap - 1)

abbrev pub chain_at : List (List Entry) → ℕ → List Entry
chain_at buckets i = get_or buckets i []

-- An entry at the head of its chain.
pub link : (ℕ → ℕ) → ℕ → Entry → List (List Entry) → List (List Entry)
link hash cap e buckets =
    let idx = bucket_idx hash cap e.key in set buckets idx (e ∷ chain_at buckets idx)

-- The inner loop of hash_resize.
pub move_chain : (ℕ → ℕ) → ℕ → List Entry → List (List Entry) → List (List Entry)
move_chain hash cap [] buckets = buckets
move_chain hash cap (e ∷ chain) buckets = move_chain hash cap chain (link hash cap e buckets)

-- The outer loop.
pub move_all : (ℕ → ℕ) → ℕ → List (List Entry) → List (List Entry) → List (List Entry)
move_all hash cap [] buckets = buckets
move_all hash cap (chain ∷ old) buckets = move_all hash cap old (move_chain hash cap chain buckets)

-- hash_resize
pub resize : (ℕ → ℕ) → (ℕ → Bool) → Table → Option Table
resize hash calloc t =
    let new_cap = t.cap * 2 in
    if calloc new_cap
    then some (record t {
      buckets = move_all hash new_cap t.buckets (replicate new_cap []);
      cap = new_cap;
    })
    else none

abbrev pub behind : Entry → Option (List Entry) → Option (List Entry)
behind e none = none
behind e (some chain) = some (e ∷ chain)

-- The loop of hash_set: the chain with the new value, if the key is there.
pub set_loop : (ℕ → ℕ → Bool) → ℕ → ℕ → List Entry → Option (List Entry)
set_loop eq key val [] = none
set_loop eq key val (e ∷ chain) = elim (eq e.key key) [
  | true ↦ some (record e { val = val } ∷ chain)
  | false ↦ behind e (set_loop eq key val chain)
]

-- The insertion of hash_set; `slab_alloc` tells whether the entry is granted.
pub insert : (ℕ → ℕ) → Bool → ℕ → ℕ → Table → Errno × Table
insert hash slab_alloc key val t =
    if slab_alloc
    then (
      ok,
      record t {
        buckets = link hash t.cap (record { key = key; val = val }) t.buckets;
        size = t.size + 1;
      },
    )
    else (no_memory, t)

-- The part of hash_set behind its loop.
pub set_absent : (ℕ → ℕ) → (ℕ → Bool) → Bool → ℕ → ℕ → Table → Errno × Table
set_absent hash calloc slab_alloc key val t =
    if ltb (t.cap * 3 / 4) (t.size + 1)
    then elim (resize hash calloc t) [
      | none ↦ (no_memory, t)
      | some grown ↦ insert hash slab_alloc key val grown
    ]
    else insert hash slab_alloc key val t

-- hash_set
pub hash_set : (ℕ → ℕ) → (ℕ → ℕ → Bool) → (ℕ → Bool) → Bool → ℕ → ℕ → Table → Errno × Table
hash_set hash eq calloc slab_alloc key val t =
    let idx = bucket_idx hash t.cap key in
    elim (set_loop eq key val (chain_at t.buckets idx)) [
      | some chain ↦ (ok, record t { buckets = set t.buckets idx chain })
      | none ↦ set_absent hash calloc slab_alloc key val t
    ]

-- The loop of hash_get.
pub get_loop : (ℕ → ℕ → Bool) → ℕ → List Entry → ℕ
get_loop eq key [] = 0
get_loop eq key (e ∷ chain) = elim (eq e.key key) [ true ↦ e.val | false ↦ get_loop eq key chain ]

-- hash_get
pub hash_get : (ℕ → ℕ) → (ℕ → ℕ → Bool) → ℕ → Table → ℕ
hash_get hash eq key t = get_loop eq key (chain_at t.buckets (bucket_idx hash t.cap key))

abbrev pub past : Entry → Option (ℕ × List Entry) → Option (ℕ × List Entry)
past e none = none
past e (some (val, chain)) = some (val, e ∷ chain)

-- The loop of hash_del: the value and the chain without its entry, if the key is there.
pub del_loop : (ℕ → ℕ → Bool) → ℕ → List Entry → Option (ℕ × List Entry)
del_loop eq key [] = none
del_loop eq key (e ∷ chain) = elim (eq e.key key) [
  | true ↦ some (e.val, chain)
  | false ↦ past e (del_loop eq key chain)
]

-- hash_del
pub hash_del : (ℕ → ℕ) → (ℕ → ℕ → Bool) → ℕ → Table → ℕ × Table
hash_del hash eq key t =
    let idx = bucket_idx hash t.cap key in
    elim (del_loop eq key (chain_at t.buckets idx)) [
      | some (val, chain) ↦ (val, record t { buckets = set t.buckets idx chain; size = t.size - 1 })
      | none ↦ (0, t)
    ]

-- hash_len
pub hash_len : Table → ℕ
hash_len t = t.size

abbrev pub continue {ℓ} : {A : Type ℓ} → (A → Bool × A) → Bool × A → Bool × A
continue k (true, arg) = k arg
continue k (false, arg) = (false, arg)

-- The inner loop of hash_iterate: the callback threads a state of its own and tells whether to go
-- on.
pub iterate_chain {ℓ} : {A : Type ℓ} → (ℕ → ℕ → A → Bool × A) → List Entry → A → Bool × A
iterate_chain fn [] arg = (true, arg)
iterate_chain fn (e ∷ chain) arg = continue (iterate_chain fn chain) (fn e.key e.val arg)

-- The outer loop.
pub iterate {ℓ} : {A : Type ℓ} → (ℕ → ℕ → A → Bool × A) → List (List Entry) → A → Bool × A
iterate fn [] arg = (true, arg)
iterate fn (chain ∷ buckets) arg = continue (iterate fn buckets) (iterate_chain fn chain arg)

-- hash_iterate
pub hash_iterate {ℓ} : {A : Type ℓ} → (ℕ → ℕ → A → Bool × A) → Table → A → A
hash_iterate fn t arg = (iterate fn t.buckets arg).1
