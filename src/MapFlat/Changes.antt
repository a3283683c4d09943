-- ===== src/MapFlat/Changes.antt =====
-- libx/x/base/map_flat.c: what a set and a delete change.
use x.Base.{
  ℕ, zero, suc, ◌+◌, ◌-◌, ◌<◌, ◌≡◌, ◌≢◌, refl, Bool, true, Option, some, none, length, set,
}
use x.MapFlat.{
  empty, occupied, tombstone, Slot, Table, slot_at, probe, insert, overwrite, first_seen, set_loop,
  del_loop,
}
use x.MapFlat.Probe.{Valid, probe-lt, Answer, answer, Seen, Seen-first}
use x.MapFlat.Steps.{set_loop-free, set_loop-deleted, set_loop-next, set_loop-found}

-- What a set or a delete of `key` makes of a slot.
pub data Swap (eq : ℕ → ℕ → Bool) (key : ℕ) (old new : Slot) : Type 0 where
  filled : old.state ≢ occupied → new.state ≡ occupied → new.key ≡ key → Swap eq key old new
  kept :
      old.state ≡ occupied
      → eq old.key key ≡ true
      → new.state ≡ occupied
      → new.key ≡ old.key
      → Swap eq key old new
  erased :
      old.state ≡ occupied → eq old.key key ≡ true → new.state ≡ tombstone → Swap eq key old new

-- What a set or a delete of `key` makes of a table.
pub data Step (eq : ℕ → ℕ → Bool) (key : ℕ) (t : Table) : Table → Type 0 where
  idle : Step eq key t t
  put :
      (ins n : ℕ) (new : Slot)
      → ins < length t.slots
      → Swap eq key (slot_at t.slots ins) new
      → Step eq key t (record t { slots = set t.slots ins new; size = n })

module _ (eq : ℕ → ℕ → Bool) (key idx : ℕ) (t : Table) (v : Valid t) where
  insert-Step :
      (seen : Option ℕ) (cur val : ℕ)
      → Seen t seen
      → cur < length t.slots
      → (slot_at t.slots cur).state ≡ empty
      → Step eq key t (insert seen cur key val t)
  unfolding insert
  insert-Step none cur val s lt e = Step.put cur (t.size + 1) _ lt (Swap.filled (λ o. cc) refl refl)
  insert-Step (some x) cur val (lt, d) lt' e =
      Step.put x (t.size + 1) _ lt (Swap.filled (λ o. cc) refl refl)

  pub set_loop-Step :
      (n i : ℕ) (seen : Option ℕ) (val : ℕ)
      → Seen t seen
      → Step eq key t (set_loop eq n i idx seen key val t).1
  unfolding set_loop overwrite
  set_loop-Step zero i seen val s = Step.idle
  set_loop-Step (suc n) i seen val s =
      let cur = probe t.cap idx i in
      let lt = probe-lt t idx i v in
      elim (answer eq key (slot_at t.slots cur)) [
        | Answer.free e ↦
            rw (set_loop-free eq key idx n i t val seen e) (insert-Step seen cur val s lt e)
        | Answer.deleted e ↦
            rw (set_loop-deleted eq key idx n i t val seen e)
              (set_loop-Step n (i + 1) (first_seen seen cur) val (Seen-first t seen cur s lt e))
        | Answer.other e ne ↦
            rw (set_loop-next eq key idx n i t val seen e ne) (set_loop-Step n (i + 1) seen val s)
        | Answer.found e same ↦
            rw (set_loop-found eq key idx n i t val seen e same)
              (Step.put cur t.size _ lt (Swap.kept e same e refl))
      ]

  pub del_loop-Step : (n i : ℕ) → Step eq key t (del_loop eq n i idx key t).1
  unfolding del_loop
  del_loop-Step zero i = Step.idle
  del_loop-Step (suc n) i =
      let cur = probe t.cap idx i in
      let lt = probe-lt t idx i v in
      elim (answer eq key (slot_at t.slots cur)) [
        | Answer.free e ↦ rw (e, del_loop) Step.idle
        | Answer.deleted e ↦ rw (e, del_loop) (del_loop-Step n (i + 1))
        | Answer.other e ne ↦ rw (e, ne, del_loop) (del_loop-Step n (i + 1))
        | Answer.found e same ↦
            rw (e, same, del_loop) (Step.put cur (t.size - 1) _ lt (Swap.erased e same refl))
      ]
