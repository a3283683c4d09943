-- ===== src/MapFlat/Others.antt =====
-- libx/x/base/map_flat.c: the other keys across a set and a delete.
use x.Base.{
  ℕ, zero, suc, ◌+◌, ◌*◌, ◌≤◌, ◌<◌, ◌≡◌, ◌≢◌, refl, sym, subst, ap, ◌∙◌, inl, inr, ◌⊎◌, Bool, true,
  false, none, arith, ltb, ◌==◌, ==_iff, Bool-cases, length, set,
}
use x.MapFlat.{
  occupied, tombstone, Slot, Table, slot_at, slot_idx, probe, set_probed, flat_set, get_loop,
  flat_get, flat_del,
}
use x.MapFlat.Probe.{Valid, Answer, answer, slot_at-set}
use x.MapFlat.Steps.{get_loop-free, get_loop-deleted, get_loop-next, get_loop-found}
use x.MapFlat.Changes.{Swap, Step, set_loop-Step, del_loop-Step}

-- How the probe for `k` sees a slot, and what became of it.
module _ (eq : ℕ → ℕ → Bool) (key k : ℕ)
    (alike : (a : ℕ) → eq a key ≡ true → eq a k ≡ true → eq key k ≡ true)
    (differ : eq key k ≡ false) where
  abbrev Same : Slot → Slot → Type 0
  Same old new = (old ≡ new) ⊎ Swap eq key old new

  -- A slot that is passed is still passed.
  abbrev Passes : Slot → Type 0
  Passes s = (s.state ≡ tombstone) ⊎ ((s.state ≡ occupied) × (eq s.key k ≡ false))

  swap-Passes : (old new : Slot) → Passes old → Swap eq key old new → Passes new
  swap-Passes old new p (Swap.filled f o e) = inr (o, ap (λ (x : ℕ). eq x k) e ∙ differ)
  swap-Passes old new p (Swap.erased w same d) = inl d
  swap-Passes old new (inl d) (Swap.kept w same o e) = absurd (let q = sym d ∙ w in cc)
  swap-Passes old new (inr (w', ne)) (Swap.kept w same o e) = inr (o, ap (λ (x : ℕ). eq x k) e ∙ ne)

  -- The entry of `k` is left alone.
  swap_found :
      (old new : Slot)
      → old.state ≡ occupied
      → eq old.key k ≡ true
      → Swap eq key old new
      → old ≡ new
  swap_found old new w yes1 (Swap.filled f o e) = absurd (f w)
  swap_found old new w yes1 (Swap.kept w' same o e) =
      absurd (let q = sym (alike old.key same yes1) ∙ differ in cc)
  swap_found old new w yes1 (Swap.erased w' same d) =
      absurd (let q = sym (alike old.key same yes1) ∙ differ in cc)

  slot-Same :
      (t : Table) (ins p : ℕ) (new : Slot)
      → ins < length t.slots
      → Swap eq key (slot_at t.slots ins) new
      → Same (slot_at t.slots p) (slot_at (set t.slots ins new) p)
  slot-Same t ins p new lt sw = elim (Bool-cases (ins == p)) [
    | inr ne ↦ inl (sym (slot_at-set t.slots ins p new lt ∙ rw ne refl))
    | inl e ↦
        let at : slot_at (set t.slots ins new) p ≡ new =
          slot_at-set t.slots ins p new lt ∙ rw e refl in
        let here : ins ≡ p = (==_iff ins p).0 e in
        inr (
          subst (λ (s : Slot). Swap eq key (slot_at t.slots p) s) (sym at)
            (subst (λ (q : ℕ). Swap eq key (slot_at t.slots q) new) here sw))
  ]

  still-Passes : (old new : Slot) → Passes old → Same old new → Passes new
  still-Passes old new p (inl e) = subst Passes e p
  still-Passes old new p (inr sw) = swap-Passes old new p sw

  found_kept :
      (old new : Slot) → old.state ≡ occupied → eq old.key k ≡ true → Same old new → old ≡ new
  found_kept old new w yes1 (inl e) = e
  found_kept old new w yes1 (inr sw) = swap_found old new w yes1 sw

  get_loop-Passes :
      (n i idx : ℕ) (t : Table)
      → Passes (slot_at t.slots (probe t.cap idx i))
      → get_loop eq (suc n) i idx k t ≡ get_loop eq n (i + 1) idx k t
  get_loop-Passes n i idx t (inl d) = get_loop-deleted eq k idx n i t d
  get_loop-Passes n i idx t (inr (o, ne)) = get_loop-next eq k idx n i t o ne

  module _ (t : Table) (ins size : ℕ) (new : Slot) (lt : ins < length t.slots)
      (sw : Swap eq key (slot_at t.slots ins) new) where
    abbrev after : Table
    after = record t { slots = set t.slots ins new; size = size }

    goes_on :
        (n i idx : ℕ)
        → get_loop eq (suc n) i idx k t ≢ 0
        → Passes (slot_at t.slots (probe t.cap idx i))
        → Passes (slot_at (set t.slots ins new) (probe t.cap idx i))
        → (get_loop eq n (i + 1) idx k t ≢ 0
            → get_loop eq n (i + 1) idx k after ≡ get_loop eq n (i + 1) idx k t)
        → get_loop eq (suc n) i idx k after ≡ get_loop eq (suc n) i idx k t
    goes_on n i idx h was now ih =
        let before = get_loop-Passes n i idx t was in
        get_loop-Passes n i idx after now ∙ ih (λ z. h (before ∙ z)) ∙ sym before

    get_loop-put :
        (n i idx : ℕ)
        → get_loop eq n i idx k t ≢ 0
        → get_loop eq n i idx k after ≡ get_loop eq n i idx k t
    unfolding get_loop
    get_loop-put zero i idx h = absurd (h refl)
    get_loop-put (suc n) i idx h =
        let p = probe t.cap idx i in
        let old = slot_at t.slots p in
        let now = slot_at (set t.slots ins new) p in
        let became = slot-Same t ins p new lt sw in
        elim (answer eq k old) [
          | Answer.free e ↦ absurd (h (get_loop-free eq k idx n i t e))
          | Answer.deleted e ↦
              goes_on n i idx h (inl e) (still-Passes old now (inl e) became)
                (get_loop-put n (i + 1) idx)
          | Answer.other e ne ↦
              goes_on n i idx h (inr (e, ne)) (still-Passes old now (inr (e, ne)) became)
                (get_loop-put n (i + 1) idx)
          | Answer.found e yes1 ↦
              let kept = found_kept old now e yes1 became in
              get_loop-found eq k idx n i after (sym (ap (λ (s : Slot). s.state) kept) ∙ e)
                (sym (ap (λ (s : Slot). eq s.key k) kept) ∙ yes1)
              ∙ sym (ap (λ (s : Slot). s.val) kept)
              ∙ sym (get_loop-found eq k idx n i t e yes1)
        ]

  pub get-Step :
      (hash : ℕ → ℕ) (t t' : Table)
      → Step eq key t t'
      → flat_get hash eq k t ≢ 0
      → flat_get hash eq k t' ≡ flat_get hash eq k t
  unfolding flat_get
  get-Step hash t t' Step.idle h = refl
  get-Step hash t t' (Step.put ins n new lt sw) h =
      get_loop-put t ins n new lt sw t.cap 0 (slot_idx hash t.cap k) h

-- A call that changes a table, with the table it leaves.
pub data Change : Type 0 where
  sets : (key : ℕ) → (val : ℕ) → Change
  deletes : (key : ℕ) → Change

unfoldable pub key_of : Change → ℕ
key_of (sets key val) = key
key_of (deletes key) = key

unfoldable pub changed : (ℕ → ℕ) → (ℕ → ℕ → Bool) → (ℕ → Bool) → Change → Table → Table
changed hash eq calloc (sets key val) t = (flat_set hash eq calloc key val t).1
changed hash eq calloc (deletes key) t = (flat_del hash eq key t).1

-- A set that does not make the table grow, or a delete.
unfoldable pub Light : Change → Table → Type 0
Light (sets key val) t = (t.size + 1) * 10 ≤ t.cap * 7
Light (deletes key) t = Unit

-- In a table whose capacity is a power of two, for an equality under which two keys that equal a
-- third equal each other, a key that xMapGet answers a value for keeps that value when another key
-- is set without the table growing, and when another key is deleted.
pub other_keys-stay :
    (hash : ℕ → ℕ) (eq : ℕ → ℕ → Bool) (calloc : ℕ → Bool) (c : Change) (k : ℕ) (t : Table)
    → Valid t
    → ((a : ℕ) → eq a (key_of c) ≡ true → eq a k ≡ true → eq (key_of c) k ≡ true)
    → eq (key_of c) k ≡ false
    → Light c t
    → flat_get hash eq k t ≢ 0
    → flat_get hash eq k (changed hash eq calloc c t) ≡ flat_get hash eq k t
unfolding flat_set set_probed flat_del key_of changed Light
other_keys-stay hash eq calloc (sets key val) k t v alike differ light here =
    let e : ltb (t.cap * 7) ((t.size + 1) * 10) ≡ false = ground arith in
    let idx = slot_idx hash t.cap key in
    rw (e, changed)
      (get-Step eq key k alike differ hash t _ (set_loop-Step eq key idx t v t.cap 0 none val tt)
        here)
other_keys-stay hash eq calloc (deletes key) k t v alike differ light here =
    let idx = slot_idx hash t.cap key in
    get-Step eq key k alike differ hash t _ (del_loop-Step eq key idx t v t.cap 0) here
