-- ===== src/MapFlat/NoRoom.antt =====
-- libx/x/base/map_flat.c: when flat_set finds room for a new key.
use x.Base.{
  ℕ, zero, suc, ◌+◌, ◌*◌, ◌≤◌, ◌<◌, ◌≡◌, ◌≢◌, refl, Bool, false, Option, none, arith, ltb, length,
}
use x.Base.Errno.{no_memory}
use x.MapFlat.{empty, occupied, Table, slot_at, slot_idx, probe, set_loop, set_probed, flat_set}
use x.MapFlat.Probe.{Valid, probe-lt, Answer, answer}
use x.MapFlat.Steps.{set_loop-deleted, set_loop-next}

module _ (hash : ℕ → ℕ) (eq : ℕ → ℕ → Bool) (key val : ℕ) (t : Table) (v : Valid t)
    (absent : (j : ℕ)
      → j < length t.slots
      → (slot_at t.slots j).state ≡ occupied
      → eq (slot_at t.slots j).key key ≡ false)
    (no_empty : (j : ℕ) → j < length t.slots → (slot_at t.slots j).state ≢ empty) where
  set_loop-full :
      (n i idx : ℕ) (seen : Option ℕ) → set_loop eq n i idx seen key val t ≡ (no_memory, t)
  unfolding set_loop
  set_loop-full zero i idx seen = refl
  set_loop-full (suc n) i idx seen =
      let cur = probe t.cap idx i in
      let lt = probe-lt t idx i v in
      elim (answer eq key (slot_at t.slots cur)) [
        | Answer.free e ↦ absurd (no_empty cur lt e)
        | Answer.deleted e ↦
            rw (set_loop-deleted eq key idx n i t val seen e) (set_loop-full n (i + 1) idx _)
        | Answer.other e ne ↦
            rw (set_loop-next eq key idx n i t val seen e ne) (set_loop-full n (i + 1) idx seen)
        | Answer.found e same ↦ absurd (ground (arith, same, absent cur lt e))
      ]

  -- A table in which no slot is EMPTY any more refuses a new key with NoMemory, as long as the
  -- load is too low for a resize: tombstones are not counted, and are not reused either, though
  -- each of them is a free slot.
  pub flat_set-no_memory :
      (calloc : ℕ → Bool)
      → (t.size + 1) * 10 ≤ t.cap * 7
      → flat_set hash eq calloc key val t ≡ (no_memory, t)
  unfolding flat_set set_probed
  flat_set-no_memory calloc light =
      let e : ltb (t.cap * 7) ((t.size + 1) * 10) ≡ false = ground arith in
      rw e (set_loop-full t.cap 0 (slot_idx hash t.cap key) none)
