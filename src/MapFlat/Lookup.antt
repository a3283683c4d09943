-- ===== src/MapFlat/Lookup.antt =====
-- libx/x/base/map_flat.c: looking up what was stored.
use x.Base.{
  ℕ, zero, suc, ◌+◌, ◌<◌, ◌≡◌, refl, ap, ◌∙◌, inl, inr, ◌⊎◌, Bool, true, false, Option, some, none,
  arith, length,
}
use x.Base.Errno.{ok}
use x.MapFlat.{
  empty, occupied, tombstone, Slot, Table, slot_at, slot_idx, probe, insert, overwrite, first_seen,
  set_loop, set_probed, get_loop, flat_get,
}
use x.MapFlat.Steps.{
  set_loop-free, set_loop-deleted, set_loop-next, set_loop-found, get_loop-deleted, get_loop-next,
  get_loop-found,
}
use x.MapFlat.Probe.{Valid, probe-lt, Answer, answer, Seen, Seen-first, slot_at-same, slot_at-else}

module _ (eq : ℕ → ℕ → Bool) (key val idx : ℕ) (t : Table) (v : Valid t)
    (self : eq key key ≡ true) where
  abbrev at : ℕ → Slot
  at i = slot_at t.slots (probe t.cap idx i)

  -- The entries of other keys stay as they are.
  insert-other :
      (seen : Option ℕ) (cur p : ℕ)
      → Seen t seen
      → cur < length t.slots
      → (slot_at t.slots cur).state ≡ empty
      → (slot_at t.slots p).state ≡ occupied
      → slot_at (insert seen cur key val t).slots p ≡ slot_at t.slots p
  unfolding insert
  insert-other none cur p h lt e o =
      slot_at-else t.slots cur p _ lt (λ same. let q = ap (λ (s : Slot). s.state) same in cc)
  insert-other (some x) cur p (lt, d) lt' e o =
      slot_at-else t.slots x p _ lt (λ same. let q = ap (λ (s : Slot). s.state) same in cc)

  set_loop-other :
      (n i : ℕ) (seen : Option ℕ) (p : ℕ)
      → Seen t seen
      → (slot_at t.slots p).state ≡ occupied
      → eq (slot_at t.slots p).key key ≡ false
      → slot_at (set_loop eq n i idx seen key val t).1.slots p ≡ slot_at t.slots p
  unfolding set_loop overwrite
  set_loop-other zero i seen p h o d = refl
  set_loop-other (suc n) i seen p h o d =
      let cur = probe t.cap idx i in
      let lt = probe-lt t idx i v in
      elim (answer eq key (at i)) [
        | Answer.free e ↦
            rw (set_loop-free eq key idx n i t val seen e) (insert-other seen cur p h lt e o)
        | Answer.deleted e ↦
            rw (set_loop-deleted eq key idx n i t val seen e)
              (set_loop-other n (i + 1) (first_seen seen cur) p (Seen-first t seen cur h lt e) o d)
        | Answer.other e ne ↦
            rw (set_loop-next eq key idx n i t val seen e ne)
              (set_loop-other n (i + 1) seen p h o d)
        | Answer.found e same ↦
            rw (set_loop-found eq key idx n i t val seen e same) (
              slot_at-else t.slots cur p _ lt
                (λ s. let q = ap (λ (s : Slot). eq s.key key) s in cc))
      ]

  -- The loop keeps the capacity.
  set_loop-cap : (n i : ℕ) (seen : Option ℕ) → (set_loop eq n i idx seen key val t).1.cap ≡ t.cap
  unfolding set_loop insert overwrite
  set_loop-cap zero i seen = refl
  set_loop-cap (suc n) i seen = elim (answer eq key (at i)) [
    | Answer.free e ↦ rw (set_loop-free eq key idx n i t val seen e) refl
    | Answer.deleted e ↦
        rw (set_loop-deleted eq key idx n i t val seen e) (set_loop-cap n (i + 1) _)
    | Answer.other e ne ↦
        rw (set_loop-next eq key idx n i t val seen e ne) (set_loop-cap n (i + 1) seen)
    | Answer.found e same ↦ rw (set_loop-found eq key idx n i t val seen e same) refl
  ]

  -- A probe of a table of the same capacity that finds the slot `s` at round `i`.
  module _ (T : Table) (cap : T.cap ≡ t.cap) (n i : ℕ) (s : Slot)
      (there : slot_at T.slots (probe t.cap idx i) ≡ s) where
    there' : slot_at T.slots (probe T.cap idx i) ≡ s
    there' = ap (λ (c : ℕ). slot_at T.slots (probe c idx i)) cap ∙ there

    get-stops : s.state ≡ occupied → eq s.key key ≡ true → get_loop eq (suc n) i idx key T ≡ s.val
    get-stops e same =
        get_loop-found eq key idx n i T (ap (λ (s : Slot). s.state) there' ∙ e)
          (ap (λ (s : Slot). eq s.key key) there' ∙ same)
        ∙ ap (λ (s : Slot). s.val) there'

    get-goes_on :
        (s.state ≡ tombstone) ⊎ ((s.state ≡ occupied) × (eq s.key key ≡ false))
        → get_loop eq (suc n) i idx key T ≡ get_loop eq n (i + 1) idx key T
    get-goes_on (inl e) = get_loop-deleted eq key idx n i T (ap (λ (s : Slot). s.state) there' ∙ e)
    get-goes_on (inr (e, ne)) =
        get_loop-next eq key idx n i T (ap (λ (s : Slot). s.state) there' ∙ e)
          (ap (λ (s : Slot). eq s.key key) there' ∙ ne)

  entry : Slot
  entry = record { key = key; val = val; state = occupied }

  overwrite-get :
      (n i : ℕ)
      → (at i).state ≡ occupied
      → eq (at i).key key ≡ true
      → get_loop eq (suc n) i idx key (overwrite (probe t.cap idx i) val t) ≡ val
  unfolding overwrite
  overwrite-get n i e same =
      get-stops _ refl n i (record (at i) { val = val })
        (slot_at-same t.slots (probe t.cap idx i) _ (probe-lt t idx i v)) e same

  untouched :
      (i : ℕ)
      → (at i).state ≡ occupied
      → (p : ℕ) → (slot_at t.slots p).state ≡ tombstone
      → slot_at (overwrite (probe t.cap idx i) val t).slots p ≡ slot_at t.slots p
  unfolding overwrite
  untouched i e p d =
      slot_at-else t.slots (probe t.cap idx i) p _ (probe-lt t idx i v)
        (λ s. let q = ap (λ (s : Slot). s.state) s in cc)

  inserted :
      (x cur : ℕ) → x < length t.slots → slot_at (insert (some x) cur key val t).slots x ≡ entry
  unfolding insert entry
  inserted x cur lt = slot_at-same t.slots x _ lt

  -- A loop that remembers the tombstone `x` writes there, or leaves it and finds the key later.
  set_loop-get_seen :
      (n i x : ℕ)
      → x < length t.slots
      → (slot_at t.slots x).state ≡ tombstone
      → let r = set_loop eq n i idx (some x) key val t in
        r.0 ≡ ok
        → (slot_at r.1.slots x ≡ entry)
          ⊎ (((p : ℕ)
                → (slot_at t.slots p).state ≡ tombstone
                → slot_at r.1.slots p ≡ slot_at t.slots p)
              × (get_loop eq n i idx key r.1 ≡ val))
  unfolding entry set_loop
  set_loop-get_seen zero i x lt d = λ r. absurd (ground arith)
  set_loop-get_seen (suc n) i x lt d = elim (answer eq key (at i)) [
    | Answer.free e ↦
        rw (set_loop-free eq key idx n i t val (some x) e)
          (λ r. inl (inserted x (probe t.cap idx i) lt))
    | Answer.deleted e ↦ rw (set_loop-deleted eq key idx n i t val (some x) e) (λ r.
        elim (set_loop-get_seen n (i + 1) x lt d r) [
          | inl w ↦ inl w
          | inr (kept, g) ↦ inr (
            kept,
            get-goes_on _ (set_loop-cap n (i + 1) (some x)) n i (at i) (kept (probe t.cap idx i) e)
                  (inl e)
                ∙ g,
          )
        ])
    | Answer.other e ne ↦ rw (set_loop-next eq key idx n i t val (some x) e ne) (λ r.
        elim (set_loop-get_seen n (i + 1) x lt d r) [
          | inl w ↦ inl w
          | inr (kept, g) ↦ inr (
            kept,
            get-goes_on _ (set_loop-cap n (i + 1) (some x)) n i (at i)
                  (set_loop-other n (i + 1) (some x) (probe t.cap idx i) (lt, d) e ne) (inr (e, ne))
                ∙ g,
          )
        ])
    | Answer.found e same ↦
        rw (set_loop-found eq key idx n i t val (some x) e same)
          (λ r. inr (untouched i e, overwrite-get n i e same))
  ]

  pub set_loop-get :
      (n i : ℕ)
      → let r = set_loop eq n i idx none key val t in r.0 ≡ ok → get_loop eq n i idx key r.1 ≡ val
  unfolding entry insert set_loop
  set_loop-get zero i = λ r. absurd (ground arith)
  set_loop-get (suc n) i =
      let cur = probe t.cap idx i in
      let lt = probe-lt t idx i v in
      elim (answer eq key (at i)) [
        | Answer.free e ↦
            rw (set_loop-free eq key idx n i t val none e)
              (λ r. get-stops _ refl n i entry (slot_at-same t.slots cur _ lt) refl self)
        | Answer.deleted e ↦ rw (set_loop-deleted eq key idx n i t val none e) (λ r.
            elim (set_loop-get_seen n (i + 1) cur lt e r) [
              | inl w ↦ get-stops _ (set_loop-cap n (i + 1) (some cur)) n i entry w refl self
              | inr (kept, g) ↦
                  get-goes_on _ (set_loop-cap n (i + 1) (some cur)) n i (at i) (kept cur e) (inl e)
                  ∙ g
            ])
        | Answer.other e ne ↦ rw (set_loop-next eq key idx n i t val none e ne) (λ r.
            get-goes_on _ (set_loop-cap n (i + 1) none) n i (at i)
              (set_loop-other n (i + 1) none cur tt e ne) (inr (e, ne))
            ∙ set_loop-get n (i + 1) r)
        | Answer.found e same ↦
            rw (set_loop-found eq key idx n i t val none e same) (λ r. overwrite-get n i e same)
      ]

pub set_probed-get :
    (hash : ℕ → ℕ) (eq : ℕ → ℕ → Bool) (key val : ℕ) (t : Table)
    → Valid t
    → eq key key ≡ true
    → let r = set_probed hash eq key val t in r.0 ≡ ok → flat_get hash eq key r.1 ≡ val
unfolding set_probed flat_get
set_probed-get hash eq key val t v self r =
    let idx = slot_idx hash t.cap key in
    ap
      (λ (c : ℕ).
        get_loop eq c 0 (slot_idx hash c key) key (set_loop eq t.cap 0 idx none key val t).1)
      (set_loop-cap eq key val idx t v self t.cap 0 none)
    ∙ set_loop-get eq key val idx t v self t.cap 0 r
