-- ===== src/MapFlat/Steps.antt =====
-- libx/x/base/map_flat.c: one round of the loops of flat_set and flat_get, by what the slot holds.
use x.Base.{ℕ, suc, ◌+◌, ◌≡◌, refl, Bool, true, false, Option}
use x.Base.Errno.{ok}
use x.MapFlat.{
  empty, occupied, tombstone, Slot, Table, slot_at, probe, insert, overwrite, first_seen, set_loop,
  get_loop,
}

module _ (eq : ℕ → ℕ → Bool) (key idx n i : ℕ) (t : Table) where
  abbrev pub cur : ℕ
  cur = probe t.cap idx i

  abbrev pub at : Slot
  at = slot_at t.slots cur

  module _ (val : ℕ) (seen : Option ℕ) where
    pub set_loop-free :
        at.state ≡ empty
        → set_loop eq (suc n) i idx seen key val t ≡ (ok, insert seen cur key val t)
    unfolding set_loop
    set_loop-free e = rw (e, set_loop) refl

    pub set_loop-deleted :
        at.state ≡ tombstone
        → set_loop eq (suc n) i idx seen key val t
          ≡ set_loop eq n (i + 1) idx (first_seen seen cur) key val t
    unfolding set_loop
    set_loop-deleted e = rw (e, set_loop) refl

    pub set_loop-next :
        at.state ≡ occupied
        → eq at.key key ≡ false
        → set_loop eq (suc n) i idx seen key val t ≡ set_loop eq n (i + 1) idx seen key val t
    unfolding set_loop
    set_loop-next e ne = rw (e, ne, set_loop) refl

    pub set_loop-found :
        at.state ≡ occupied
        → eq at.key key ≡ true
        → set_loop eq (suc n) i idx seen key val t ≡ (ok, overwrite cur val t)
    unfolding set_loop
    set_loop-found e same = rw (e, same, set_loop) refl

  pub get_loop-free : at.state ≡ empty → get_loop eq (suc n) i idx key t ≡ 0
  unfolding get_loop
  get_loop-free e = rw (e, get_loop) refl

  pub get_loop-deleted :
      at.state ≡ tombstone → get_loop eq (suc n) i idx key t ≡ get_loop eq n (i + 1) idx key t
  unfolding get_loop
  get_loop-deleted e = rw (e, get_loop) refl

  pub get_loop-next :
      at.state ≡ occupied
      → eq at.key key ≡ false
      → get_loop eq (suc n) i idx key t ≡ get_loop eq n (i + 1) idx key t
  unfolding get_loop
  get_loop-next e ne = rw (e, ne, get_loop) refl

  pub get_loop-found :
      at.state ≡ occupied → eq at.key key ≡ true → get_loop eq (suc n) i idx key t ≡ at.val
  unfolding get_loop
  get_loop-found e same = rw (e, same, get_loop) refl
