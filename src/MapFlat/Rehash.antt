-- ===== src/MapFlat/Rehash.antt =====
-- libx/x/base/map_flat.c, flat_resize: the new array holds the entries of the old one.
use native.Mathlib.Nat.{mod-eq_of_lt, mod_self}
use mathlib.Core.List.{Permᴰ}
use mathlib.Core.List.Permᴰ
use x.Base.{
  ℕ, zero, suc, ◌+◌, ◌-◌, ◌%◌, ◌^◌, ◌<◌, ◌≡◌, refl, sym, ap, ◌∙◌, inl, inr, ◌⊎◌, List, [], ◌∷◌,
  Bool, true, false, arith, ltb, Bool-cases, length, set, length-set, bit_and, bit_and-mask,
  pow-pos,
}
use x.MapFlat.{occupied, Slot, slot_at, slot_idx, is_occupied, find_free, rehash_slot, rehash}

-- The entries of an array of slots: what flat_iterate visits.
abbrev pub with_entry : Bool → Slot → List (ℕ × ℕ) → List (ℕ × ℕ)
with_entry true s rest = (s.key, s.val) ∷ rest
with_entry false s rest = rest

abbrev pub entries : List Slot → List (ℕ × ℕ)
entries [] = []
entries (s ∷ slots) = with_entry (is_occupied s) s (entries slots)

module _ (k cap : ℕ) (power : cap ≡ 2 ^ k) where
  masked : (x : ℕ) → bit_and x (cap - 1) ≡ x % cap
  masked x =
      ap (λ (c : ℕ). bit_and x (c - 1)) power ∙ bit_and-mask k x ∙ ap (λ (c : ℕ). x % c) (sym power)

  slot_idx-lt : (hash : ℕ → ℕ) (key : ℕ) → slot_idx hash cap key < cap
  unfolding slot_idx
  slot_idx-lt hash key = omega (
    arith,
    bit_and-mask k (hash key),
    power,
    pow-pos k,
    ap (λ (c : ℕ). bit_and (hash key) (c - 1)) power,
  )

  -- Place `j` is `d` rounds ahead of place `i`.
  abbrev Ahead : ℕ → ℕ → ℕ → Type 0
  Ahead j d i = (i + d ≡ j) ⊎ (i + d ≡ j + cap)

  Ahead-next :
      (j d i : ℕ)
      → j < cap
      → i < cap
      → Ahead j (suc d) i
      → let i' = bit_and (i + 1) (cap - 1) in (i' < cap) × Ahead j d i'
  Ahead-next j d i hj hi a = elim (Bool-cases (ltb (i + 1) cap)) [
    | inl inside ↦
        let e : bit_and (i + 1) (cap - 1) ≡ i + 1 = masked (i + 1) ∙ mod-eq_of_lt (ground arith) in
        rw e (ground arith, ground arith)
    | inr around ↦
        let full : i + 1 ≡ cap = ground arith in
        let e : bit_and (i + 1) (cap - 1) ≡ 0 =
          masked (i + 1) ∙ ap (λ (x : ℕ). x % cap) full ∙ mod_self cap in
        rw e (omega arith, inl (ground arith))
  ]

  -- The inner loop ends at a free slot as soon as one lies within its rounds.
  find_free-free :
      (slots : List Slot) (j n d i : ℕ)
      → j < cap
      → is_occupied (slot_at slots j) ≡ false
      → i < cap
      → d < n
      → Ahead j d i
      → let r = find_free n slots cap i in (r < cap) × (is_occupied (slot_at slots r) ≡ false)
  unfolding find_free
  find_free-free slots j zero d i hj free hi hd a = absurd (omega arith)
  find_free-free slots j (suc n) zero i hj free hi hd a =
      let here : j ≡ i = omega arith in
      let idle : is_occupied (slot_at slots i) ≡ false =
        sym (ap (λ (p : ℕ). is_occupied (slot_at slots p)) here) ∙ free in
      rw (idle, find_free) (hi, idle)
  find_free-free slots j (suc n) (suc d) i hj free hi hd a =
      elim (Bool-cases (is_occupied (slot_at slots i))) [
        | inl busy ↦
            let (hi', a') = Ahead-next j d i hj hi a in
            rw (busy, find_free)
              (find_free-free slots j n d (bit_and (i + 1) (cap - 1)) hj free hi' (omega arith) a')
        | inr idle ↦ rw (idle, find_free) (hi, idle)
      ]

  -- From any place on, the slot `j` lies within a round of the array.
  within : (j i : ℕ) → j < cap → i < cap → (d : ℕ) × (d < cap) × Ahead j d i
  within j i hj hi = elim (Bool-cases (ltb j i)) [
    | inl behind ↦ (j + cap - i, ground arith, inr (ground arith))
    | inr ahead ↦ (j - i, ground arith, inl (ground arith))
  ]

  pub find_free-finds :
      (slots : List Slot) (j i : ℕ)
      → j < cap
      → is_occupied (slot_at slots j) ≡ false
      → i < cap
      → let r = find_free cap slots cap i in (r < cap) × (is_occupied (slot_at slots r) ≡ false)
  find_free-finds slots j i hj free hi =
      let (d, hd, a) = within j i hj hi in find_free-free slots j cap d i hj free hi hd a

-- An array with fewer entries than slots has a free slot.
free_slot :
    (slots : List Slot)
    → length (entries slots) < length slots
    → (j : ℕ) × (j < length slots) × (is_occupied (slot_at slots j) ≡ false)
free_slot [] h = absurd (omega arith)
free_slot (s ∷ slots) h = elim (Bool-cases (is_occupied s)) [
  | inl busy ↦
      let shorter : length (entries slots) < length slots = ground (arith, rw busy at h) in
      let (j, hj, free) = free_slot slots shorter in (suc j, omega arith, free)
  | inr idle ↦ (0, omega arith, idle)
]

-- Filling a free slot adds one entry.
entries-set :
    (slots : List Slot) (i : ℕ) (s : Slot)
    → i < length slots
    → is_occupied (slot_at slots i) ≡ false
    → is_occupied s ≡ true
    → Permᴰ (entries (set slots i s)) ((s.key, s.val) ∷ entries slots)
entries-set [] i s h idle busy = absurd (omega arith)
entries-set (x ∷ slots) zero s h idle busy = rw (busy, idle) (Permᴰ.refl _)
entries-set (x ∷ slots) (suc i) s h idle busy =
    let rest = entries-set slots i s (omega arith) idle busy in
    elim (Bool-cases (is_occupied x)) [
      | inl b ↦ rw b (Permᴰ.trans (Permᴰ.cons refl rest) (Permᴰ.swap refl refl))
      | inr b ↦ rw b rest
    ]

module _ (hash : ℕ → ℕ) (k cap : ℕ) (power : cap ≡ 2 ^ k) where
  pub length-rehash_slot :
      (s : Slot) (slots : List Slot) → length (rehash_slot hash cap s slots) ≡ length slots
  unfolding rehash_slot
  length-rehash_slot s slots = elim (Bool-cases (is_occupied s)) [
    | inl b ↦ rw b (length-set slots _ _)
    | inr b ↦ rw b refl
  ]

  pub length-rehash : (old slots : List Slot) → length (rehash hash cap old slots) ≡ length slots
  unfolding rehash
  length-rehash [] slots = refl
  length-rehash (s ∷ old) slots = length-rehash old _ ∙ length-rehash_slot s slots

  pub rehash_slot-entries :
      (s : Slot) (slots : List Slot)
      → length slots ≡ cap
      → length (entries slots) < cap
      → Permᴰ
          (entries (rehash_slot hash cap s slots))
          (with_entry (is_occupied s) s (entries slots))
  unfolding rehash_slot
  rehash_slot-entries s slots full room = elim (Bool-cases (is_occupied s)) [
    | inl b ↦
        let (j, hj, free) = free_slot slots (omega arith) in
        let i = slot_idx hash cap s.key in
        let (hr, idle) =
          find_free-finds k cap power slots j i (omega arith) free
            (slot_idx-lt k cap power hash s.key) in
        rw b (
          entries-set slots (find_free cap slots cap i) (record s { state = occupied })
            (omega arith) idle refl)
    | inr b ↦ rw b (Permᴰ.refl _)
  ]
