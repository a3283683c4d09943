-- ===== src/MapFlat/Probe.antt =====
-- libx/x/base/map_flat.c: which slots a probe looks at, and what the loop of flat_set leaves alone.
use x.Base.{
  ℕ, ◌+◌, ◌-◌, ◌%◌, ◌^◌, ◌<◌, ◌≡◌, ◌≢◌, refl, ap, ◌∙◌, inl, inr, ◌⊎◌, List, Bool, true, false,
  Option, some, none, arith, ◌==◌, if◌then◌else◌, Bool-cases, ==_iff, length, get_or-set, set,
  bit_and, bit_and-mask, pow-pos,
}
use x.MapFlat.{
  State, empty, occupied, tombstone, Slot, Table, slot_at, zero_slot, probe, first_seen,
}

-- A table as xMapFlatCreate makes it for a capacity that is a power of two.
pub record Valid (t : Table) : Type 0 where
  pub bits : ℕ
  pub power : t.cap ≡ 2 ^ bits
  pub full_length : length t.slots ≡ t.cap

pub probe-lt : (t : Table) (idx i : ℕ) → Valid t → probe t.cap idx i < length t.slots
unfolding probe
probe-lt t idx i v =
    let e : bit_and (idx + i) (t.cap - 1) ≡ (idx + i) % 2 ^ v.bits =
      ap (λ (c : ℕ). bit_and (idx + i) (c - 1)) v.power ∙ bit_and-mask v.bits (idx + i) in
    omega (arith, e, v.power, v.full_length, pow-pos v.bits)

-- How a slot answers a probe for a key.
pub data Answer (eq : ℕ → ℕ → Bool) (key : ℕ) (s : Slot) : Type 0 where
  free : s.state ≡ empty → Answer eq key s
  deleted : s.state ≡ tombstone → Answer eq key s
  other : s.state ≡ occupied → eq s.key key ≡ false → Answer eq key s
  found : s.state ≡ occupied → eq s.key key ≡ true → Answer eq key s

State-cases : (s : State) → (s ≡ empty) ⊎ ((s ≡ occupied) ⊎ (s ≡ tombstone))
State-cases empty = inl refl
State-cases occupied = inr (inl refl)
State-cases tombstone = inr (inr refl)

pub answer : (eq : ℕ → ℕ → Bool) (key : ℕ) (s : Slot) → Answer eq key s
answer eq key s = elim (State-cases s.state) [
  | inl e ↦ Answer.free e
  | inr h ↦ elim h [
    | inl o ↦ elim (Bool-cases (eq s.key key)) [
      | inl y ↦ Answer.found o y
      | inr n ↦ Answer.other o n
    ]
    | inr d ↦ Answer.deleted d
  ]
]

-- The tombstone that a loop of flat_set has seen.
abbrev pub Seen : Table → Option ℕ → Type 0
Seen t none = Unit
Seen t (some x) = (x < length t.slots) × ((slot_at t.slots x).state ≡ tombstone)

pub Seen-first :
    (t : Table) (seen : Option ℕ) (cur : ℕ)
    → Seen t seen
    → cur < length t.slots
    → (slot_at t.slots cur).state ≡ tombstone
    → Seen t (first_seen seen cur)
Seen-first t none cur h lt e = (lt, e)
Seen-first t (some x) cur h lt e = h

pub slot_at-set :
    (slots : List Slot) (i j : ℕ) (s : Slot)
    → i < length slots
    → slot_at (set slots i s) j ≡ (if i == j then s else slot_at slots j)
slot_at-set slots i j s h = get_or-set slots i j s zero_slot h

pub slot_at-same :
    (slots : List Slot) (i : ℕ) (s : Slot) → i < length slots → slot_at (set slots i s) i ≡ s
slot_at-same slots i s h = slot_at-set slots i i s h ∙ rw ((==_iff i i).1 refl) refl

-- Different slots stand at different places.
pub slot_at-else :
    (slots : List Slot) (i j : ℕ) (s : Slot)
    → i < length slots
    → slot_at slots i ≢ slot_at slots j
    → slot_at (set slots i s) j ≡ slot_at slots j
slot_at-else slots i j s h ne = elim (Bool-cases (i == j)) [
  | inl e ↦ absurd (ne (ap (slot_at slots) ((==_iff i j).0 e)))
  | inr e ↦ slot_at-set slots i j s h ∙ rw e refl
]
