-- ===== src/MapFlat/Resize.antt =====
-- libx/x/base/map_flat.c: the entries across a whole flat_resize, and what follows for flat_set.
use mathlib.Core.List.{Permᴰ}
use mathlib.Core.List.Permᴰ
use x.Base.{
  ℕ, zero, suc, ◌+◌, ◌*◌, ◌^◌, ◌≤◌, ◌<◌, ◌≡◌, refl, ap, ◌∙◌, inl, inr, List, [], ◌∷◌, ◌++◌, Bool,
  true, false, some, none, arith, ltb, Bool-cases, length, replicate, length-replicate, pow-double,
  pow-pos, append-nil,
}
use x.Base.Errno.{ok}
use x.MapFlat.{Slot, Table, zero_slot, is_occupied, rehash_slot, rehash, resize, flat_set, flat_get}
use x.MapFlat.Probe.{Valid}
use x.MapFlat.Lookup.{set_probed-get}
use x.MapFlat.Rehash.{with_entry, entries, length-rehash_slot, length-rehash, rehash_slot-entries}

length-Perm {ℓ} : {A : Type ℓ} {xs ys : List A} → Permᴰ xs ys → length xs ≡ length ys
length-Perm Permᴰ.nil = refl
length-Perm (Permᴰ.cons e p) = ap suc (length-Perm p)
length-Perm (Permᴰ.swap e f) = refl
length-Perm (Permᴰ.trans p q) = length-Perm p ∙ length-Perm q

length-entries : (slots : List Slot) → length (entries slots) ≤ length slots
length-entries [] = omega arith
length-entries (s ∷ slots) = elim (Bool-cases (is_occupied s)) [
  | inl b ↦ rw b (omega (arith, length-entries slots))
  | inr b ↦ rw b (omega (arith, length-entries slots))
]

entries-zero : (n : ℕ) → entries (replicate n zero_slot) ≡ []
entries-zero zero = refl
entries-zero (suc n) = entries-zero n

with_entry-append :
    (b : Bool) (s : Slot) (xs ys : List (ℕ × ℕ))
    → Permᴰ (xs ++ with_entry b s ys) (with_entry b s xs ++ ys)
with_entry-append true s xs ys = Permᴰ.middle (s.key, s.val) xs ys
with_entry-append false s xs ys = Permᴰ.refl (xs ++ ys)

length-with_entry :
    (b : Bool) (s : Slot) (xs : List (ℕ × ℕ)) → length (with_entry b s xs) ≤ length xs + 1
length-with_entry true s xs = omega arith
length-with_entry false s xs = omega arith

module _ (hash : ℕ → ℕ) (k cap : ℕ) (power : cap ≡ 2 ^ k) where
  rehash-entries :
      (old slots : List Slot)
      → length slots ≡ cap
      → length (entries slots) + length old < cap
      → Permᴰ (entries (rehash hash cap old slots)) (entries old ++ entries slots)
  unfolding rehash
  rehash-entries [] slots full room = Permᴰ.refl _
  rehash-entries (s ∷ old) slots full room =
      let next = rehash_slot hash cap s slots in
      let one = rehash_slot-entries hash k cap power s slots full (omega arith) in
      let more : length (entries next) + length old < cap =
        omega (arith, length-Perm one, length-with_entry (is_occupied s) s (entries slots)) in
      Permᴰ.trans
        (rehash-entries old next (length-rehash_slot hash k cap power s slots ∙ full) more)
        (Permᴰ.trans (Permᴰ.append_left (entries old) one)
          (with_entry-append (is_occupied s) s (entries old) (entries slots)))

-- A table with a power of two for its capacity whose resize is granted keeps its entries, in some
-- order, in an array of twice the capacity, so the loop that seeks a free slot for each has always
-- found one.
pub resize-entries :
    (hash : ℕ → ℕ) (calloc : ℕ → Bool) (t : Table)
    → Valid t
    → calloc (t.cap * 2) ≡ true
    → (t' : Table) × (resize hash calloc t ≡ some t')
      × Valid t'
      × (t'.cap ≡ t.cap * 2)
      × (t'.size ≡ t.size)
      × Permᴰ (entries t'.slots) (entries t.slots)
unfolding resize
resize-entries hash calloc t v granted =
    let cap = t.cap * 2 in
    let zeros = replicate cap zero_slot in
    let slots = rehash hash cap t.slots zeros in
    let power : cap ≡ 2 ^ suc v.bits = omega (arith, v.power, pow-double v.bits) in
    let none_yet : length (entries zeros) ≡ 0 =
      ap (λ (xs : List (ℕ × ℕ)). length xs) (entries-zero cap) in
    let room : length (entries zeros) + length t.slots < cap =
      omega (arith, none_yet, v.full_length, v.power, pow-pos v.bits) in
    let full : length slots ≡ cap =
      length-rehash hash (suc v.bits) cap power t.slots zeros ∙ length-replicate cap zero_slot in
    let kept =
      rehash-entries hash (suc v.bits) cap power t.slots zeros (length-replicate cap zero_slot)
        room in
    (
      record t { slots = slots; cap = cap },
      rw granted refl,
      record { bits = suc v.bits; power = power; full_length = full },
      refl,
      refl,
      rw (entries-zero cap, append-nil (entries t.slots)) at kept,
    )

resize-refused :
    (hash : ℕ → ℕ) (calloc : ℕ → Bool) (t : Table)
    → calloc (t.cap * 2) ≡ false
    → resize hash calloc t ≡ none
unfolding resize
resize-refused hash calloc t refused = rw refused refl

-- Whenever xMapSet answers Ok, growing the table first or not, on a table whose capacity is a
-- power of two, for a key that equals itself, xMapGet of that key answers the value.
pub flat_set-get :
    (hash : ℕ → ℕ) (eq : ℕ → ℕ → Bool) (calloc : ℕ → Bool) (key val : ℕ) (t : Table)
    → Valid t
    → eq key key ≡ true
    → let r = flat_set hash eq calloc key val t in r.0 ≡ ok → flat_get hash eq key r.1 ≡ val
unfolding flat_set
flat_set-get hash eq calloc key val t v self =
    elim (Bool-cases (ltb (t.cap * 7) ((t.size + 1) * 10))) [
      | inr light ↦ rw light (set_probed-get hash eq key val t v self)
      | inl heavy ↦ elim (Bool-cases (calloc (t.cap * 2))) [
        | inl granted ↦
            let (grown, e, v', c, n, p) = resize-entries hash calloc t v granted in
            rw (heavy, e) (set_probed-get hash eq key val grown v' self)
        | inr refused ↦
            rw (heavy, resize-refused hash calloc t refused) (λ r. absurd (ground arith))
      ]
    ]
