-- ===== src/MapFlat/Tests.antt =====
-- libx/x/base/map_flat.c: concrete tables of four slots, with the identity for the hash.
use mathlib.Core.List.{Permᴰ}
use x.Base.{ℕ, zero, suc, ◌<◌, ◌≡◌, refl, [], ◌∷◌, Bool, true, some, arith, ◌==◌, replicate}
use x.Base.Errno.{no_memory}
use x.MapFlat.{
  State, empty, occupied, tombstone, Slot, Table, zero_slot, slot_at, flat_set, flat_get, flat_del,
  resize,
}
use x.MapFlat.Probe.{Valid}
use x.MapFlat.Rehash.{entries}
use x.MapFlat.Resize.{resize-entries, flat_set-get}
use x.MapFlat.Others.{sets, key_of, changed, Light, other_keys-stay}
use x.MapFlat.NoRoom.{flat_set-no_memory}

abbrev self : ℕ → ℕ
self n = n

abbrev same : ℕ → ℕ → Bool
same a b = a == b

abbrev always : ℕ → Bool
always n = true

abbrev tomb : Slot
tomb = record { key = 0; val = 0; state = tombstone }

-- Four keys were set and deleted, one after the other.
abbrev worn : Table
worn = record { slots = replicate 4 tomb; size = 0; cap = 4 }

abbrev fresh_table : Table
fresh_table = record { slots = replicate 4 zero_slot; size = 0; cap = 4 }

abbrev set_del : ℕ → Table → Table
set_del key t = (flat_del self same key (flat_set self same always key 7 t).1).1

worn_reached : set_del 3 (set_del 2 (set_del 1 (set_del 0 fresh_table))) ≡ worn
unfolding flat_set flat_del x.MapFlat.set_probed x.MapFlat.set_loop x.MapFlat.del_loop
    x.MapFlat.insert x.MapFlat.probe x.MapFlat.slot_idx
worn_reached = refl

worn-at : (j : ℕ) → j < 4 → (slot_at worn.slots j).state ≡ tombstone
worn-at zero h = refl
worn-at (suc zero) h = refl
worn-at (suc (suc zero)) h = refl
worn-at (suc (suc (suc zero))) h = refl
worn-at (suc (suc (suc (suc j)))) h = absurd (omega arith)

worn-Valid : Valid worn
worn-Valid = record { bits = 2; power = refl; full_length = refl }

flat_set-no_memory_example : flat_set self same always 5 9 worn ≡ (no_memory, worn)
flat_set-no_memory_example =
    flat_set-no_memory self same 5 9 worn worn-Valid
      (λ j h o. let d = worn-at j h in absurd (ground arith))
      (λ j h e. let d = worn-at j h in ground arith) always (omega arith)

-- Keys 2 and 6 meet in slot 2; the table holds 2, 6 and the tombstone of 3.
abbrev two_keys : Table
two_keys = record {
  slots = zero_slot ∷ zero_slot ∷ record { key = 2; val = 20; state = occupied } ∷ tomb ∷ [];
  size = 1;
  cap = 4;
}

two_keys-Valid : Valid two_keys
two_keys-Valid = record { bits = 2; power = refl; full_length = refl }

flat_set-get_example : flat_get self same 6 (flat_set self same always 6 60 two_keys).1 ≡ 60
unfolding flat_set x.MapFlat.set_probed x.MapFlat.set_loop x.MapFlat.insert x.MapFlat.probe
    x.MapFlat.slot_idx
flat_set-get_example = flat_set-get self same always 6 60 two_keys two_keys-Valid refl refl

resize-entries_example :
    (t' : Table) × (resize self always two_keys ≡ some t')
    × Valid t'
    × (t'.cap ≡ 8)
    × (t'.size ≡ 1)
    × Permᴰ (entries t'.slots) ((2, 20) ∷ [])
resize-entries_example = resize-entries self always two_keys two_keys-Valid refl

same_alike : (a : ℕ) → same a 6 ≡ true → same a 2 ≡ true → same 6 2 ≡ true
same_alike a h i = ground arith

-- Key 6 takes the tombstone behind key 2, which stays.
other_keys-stay_example :
    flat_get self same 2 (changed self same always (sets 6 60) two_keys)
    ≡ flat_get self same 2 two_keys
unfolding flat_get x.MapFlat.get_loop x.MapFlat.probe x.MapFlat.slot_idx key_of Light
other_keys-stay_example =
    other_keys-stay self same always (sets 6 60) 2 two_keys two_keys-Valid same_alike refl
      (omega arith) (λ z. absurd (omega (arith, z)))
