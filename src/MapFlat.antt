-- ===== src/MapFlat.antt =====
-- libx/x/base/map_flat.c: the hash table with open addressing. Keys and values are pointers, here
-- numbers, and 0 is NULL; the hash and the equality of the keys are parameters.
pub mod Probe
pub mod Steps
pub mod Lookup
pub mod Rehash
pub mod Resize
pub mod NoRoom
pub mod Changes
pub mod Others
mod Tests
use x.Base.{
  ℕ, zero, suc, ◌+◌, ◌-◌, ◌*◌, List, [], ◌∷◌, Bool, true, false, Option, some, none, ltb, ◌==◌,
  if◌then◌else◌, get_or, set, replicate, bit_and,
}
use x.Base.Errno.{Errno, ok, no_memory}

-- SLOT_EMPTY, SLOT_OCCUPIED and SLOT_TOMBSTONE
pub data State : Type 0 where
  empty : State
  occupied : State
  tombstone : State

-- struct xMapFlatSlot
pub record Slot : Type 0 where
  pub key : ℕ
  pub val : ℕ
  pub state : State

-- struct xMapFlat
pub record Table : Type 0 where
  pub slots : List Slot
  pub size : ℕ
  pub cap : ℕ

-- A slot of calloc.
abbrev pub zero_slot : Slot
zero_slot = record { key = 0; val = 0; state = empty }

abbrev pub slot_at : List Slot → ℕ → Slot
slot_at slots i = get_or slots i zero_slot

-- xMapFlatCreate; `calloc` tells whether the slots are granted.
pub create : (ℕ → Bool) → ℕ → Option Table
create calloc cap =
    if calloc cap
    then some (record { slots = replicate cap zero_slot; size = 0; cap = cap })
    else none

-- slot_idx
pub slot_idx : (ℕ → ℕ) → ℕ → ℕ → ℕ
slot_idx hash cap key = bit_and (hash key) (cap - 1)

-- The slot that a probe looks at in its round `i`.
pub probe : ℕ → ℕ → ℕ → ℕ
probe cap idx i = bit_and (idx + i) (cap - 1)

abbrev pub is_occupied : Slot → Bool
is_occupied s = elim s.state [ occupied ↦ true | empty ↦ false | tombstone ↦ false ]

-- The inner loop of flat_resize, for at most as many rounds as there are slots.
pub find_free : ℕ → List Slot → ℕ → ℕ → ℕ
find_free zero slots cap idx = idx
find_free (suc n) slots cap idx = elim (is_occupied (slot_at slots idx)) [
  | true ↦ find_free n slots cap (bit_and (idx + 1) (cap - 1))
  | false ↦ idx
]

-- A round of the outer loop.
pub rehash_slot : (ℕ → ℕ) → ℕ → Slot → List Slot → List Slot
rehash_slot hash cap s slots =
    let idx = find_free cap slots cap (slot_idx hash cap s.key) in
    if is_occupied s then set slots idx (record s { state = occupied }) else slots

pub rehash : (ℕ → ℕ) → ℕ → List Slot → List Slot → List Slot
rehash hash cap [] slots = slots
rehash hash cap (s ∷ old) slots = rehash hash cap old (rehash_slot hash cap s slots)

-- flat_resize
pub resize : (ℕ → ℕ) → (ℕ → Bool) → Table → Option Table
resize hash calloc t =
    let new_cap = t.cap * 2 in
    if calloc new_cap
    then some (record t {
      slots = rehash hash new_cap t.slots (replicate new_cap zero_slot);
      cap = new_cap;
    })
    else none

-- The insertion of flat_set, at the tombstone if the probe saw one.
pub insert : Option ℕ → ℕ → ℕ → ℕ → Table → Table
insert seen cur key val t =
    let ins = elim seen as (λ _. ℕ) [ some i ↦ i | none ↦ cur ] in
    record t {
      slots = set t.slots ins (record { key = key; val = val; state = occupied });
      size = t.size + 1;
    }

-- The new value of a key that is there.
pub overwrite : ℕ → ℕ → Table → Table
overwrite cur val t = record t {
  slots = set t.slots cur (record (slot_at t.slots cur) { val = val });
}

abbrev pub first_seen : Option ℕ → ℕ → Option ℕ
first_seen none cur = some cur
first_seen (some i) cur = some i

-- The loop of flat_set, for `n` rounds from round `i`.
pub set_loop : (ℕ → ℕ → Bool) → ℕ → ℕ → ℕ → Option ℕ → ℕ → ℕ → Table → Errno × Table
set_loop eq zero i idx seen key val t = (no_memory, t)
set_loop eq (suc n) i idx seen key val t =
    let cur = probe t.cap idx i in
    let s = slot_at t.slots cur in
    elim s.state [
      | empty ↦ (ok, insert seen cur key val t)
      | tombstone ↦ set_loop eq n (i + 1) idx (first_seen seen cur) key val t
      | occupied ↦ elim (eq s.key key) [
        | true ↦ (ok, overwrite cur val t)
        | false ↦ set_loop eq n (i + 1) idx seen key val t
      ]
    ]

-- The part of flat_set behind the check of the load.
pub set_probed : (ℕ → ℕ) → (ℕ → ℕ → Bool) → ℕ → ℕ → Table → Errno × Table
set_probed hash eq key val t = set_loop eq t.cap 0 (slot_idx hash t.cap key) none key val t

-- flat_set
pub flat_set : (ℕ → ℕ) → (ℕ → ℕ → Bool) → (ℕ → Bool) → ℕ → ℕ → Table → Errno × Table
flat_set hash eq calloc key val t =
    if ltb (t.cap * 7) ((t.size + 1) * 10)
    then elim (resize hash calloc t) [
      | none ↦ (no_memory, t)
      | some grown ↦ set_probed hash eq key val grown
    ]
    else set_probed hash eq key val t

-- The loop of flat_get.
pub get_loop : (ℕ → ℕ → Bool) → ℕ → ℕ → ℕ → ℕ → Table → ℕ
get_loop eq zero i idx key t = 0
get_loop eq (suc n) i idx key t =
    let s = slot_at t.slots (probe t.cap idx i) in
    elim s.state [
      | empty ↦ 0
      | tombstone ↦ get_loop eq n (i + 1) idx key t
      | occupied ↦ elim (eq s.key key) [ true ↦ s.val | false ↦ get_loop eq n (i + 1) idx key t ]
    ]

-- flat_get
pub flat_get : (ℕ → ℕ) → (ℕ → ℕ → Bool) → ℕ → Table → ℕ
flat_get hash eq key t = get_loop eq t.cap 0 (slot_idx hash t.cap key) key t

-- The loop of flat_del.
pub del_loop : (ℕ → ℕ → Bool) → ℕ → ℕ → ℕ → ℕ → Table → ℕ × Table
del_loop eq zero i idx key t = (0, t)
del_loop eq (suc n) i idx key t =
    let cur = probe t.cap idx i in
    let s = slot_at t.slots cur in
    elim s.state [
      | empty ↦ (0, t)
      | tombstone ↦ del_loop eq n (i + 1) idx key t
      | occupied ↦ elim (eq s.key key) [
        | true ↦ (
          s.val,
          record t {
            slots = set t.slots cur (record { key = 0; val = 0; state = tombstone });
            size = t.size - 1;
          },
        )
        | false ↦ del_loop eq n (i + 1) idx key t
      ]
    ]

-- flat_del
pub flat_del : (ℕ → ℕ) → (ℕ → ℕ → Bool) → ℕ → Table → ℕ × Table
flat_del hash eq key t = del_loop eq t.cap 0 (slot_idx hash t.cap key) key t

-- flat_len
pub flat_len : Table → ℕ
flat_len t = t.size

abbrev pub visit {ℓ} : {A : Type ℓ} → (A → A) → Bool × A → A
visit k (true, arg) = k arg
visit k (false, arg) = arg

-- flat_iterate: the callback threads a state of its own and tells whether to go on.
pub iterate {ℓ} : {A : Type ℓ} → (ℕ → ℕ → A → Bool × A) → List Slot → A → A
iterate fn [] arg = arg
iterate fn (s ∷ slots) arg = elim s.state [
  | occupied ↦ visit (iterate fn slots) (fn s.key s.val arg)
  | empty ↦ iterate fn slots arg
  | tombstone ↦ iterate fn slots arg
]

pub flat_iterate {ℓ} : {A : Type ℓ} → (ℕ → ℕ → A → Bool × A) → Table → A → A
flat_iterate fn t arg = iterate fn t.slots arg
