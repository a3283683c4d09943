-- ===== src/Heap/Queue/Insert.antt =====
-- xHeapPush and xHeapUpdate.
use Prim.Native.Nat.{Ordering}
use x.Base.{
  ℕ, ◌+◌, ◌*◌, ◌^◌, ◌<◌, ◌≡◌, ◌≢◌, refl, sym, subst, ap, ap₂, ◌∙◌, inl, inr, ◌⊎◌, Bool, true, false,
  List, [], ◌∷◌, ◌++◌, none, some, arith, ltb, ◌==◌, if◌then◌else◌, Bool-cases, length,
  length-append, mul_size,
}
use x.Base.Errno.{ok, no_memory}
use x.Heap.{Heap, at, parent, store, below, ensure_cap, sift_up, sift_down, push, update}
use x.Heap.Arrays.{count, hit, count-append, entry-append, entry-append_last, entry-ne}
use x.Heap.Order.{IsWeakOrder, IsHeap, IsHeap-IsBridged, IsIndexed, Rising, Loose}
use x.Heap.Kept.{Kept, Kept-trans, sift_up-Kept, sift_down-Kept}
use x.Heap.Up.{sift_up-IsHeap, sift_up-Sinking}
use x.Heap.Down.{sift_down-IsHeap}
use x.Heap.Queue.{IsValid, IsBounded}

-- What ensure_cap leaves: the same entries, and room for one more.
record Grown (h g : Heap) : Type 0 where
  slots : g.slots ≡ h.slots
  index : g.index ≡ h.index
  room : length h.slots < g.cap
  block : g.cap * 8 < 2 ^ 63

-- The allocator refuses the larger array that ensure_cap asks for: 16 slots, or twice as many.
abbrev pub Refused : (ℕ → Bool) → Heap → Type 0
Refused realloc h = realloc (mul_size (if h.cap == 0 then 16 else mul_size h.cap 2) 8) ≡ false

ensure_cap_lem :
    (cmp : ℕ → ℕ → Ordering) (realloc : ℕ → Bool) (h : Heap)
    → IsBounded realloc
    → IsValid cmp h
    → ((ensure_cap realloc h ≡ none) × (length h.slots ≡ h.cap) × Refused realloc h)
      ⊎ ((g : Heap) × (ensure_cap realloc h ≡ some g) × Grown h g)
unfolding ensure_cap
ensure_cap_lem cmp realloc h bounded v = elim (Bool-cases (ltb (length h.slots) h.cap)) [
  | inl spare ↦
      rw spare
        (inr (h, refl, record { slots = refl; index = refl; room = ground arith; block = v.block }))
  | inr full ↦
      let c = if h.cap == 0 then 16 else mul_size h.cap 2 in
      let doubled : (h.cap < c) × (c < 2 ^ 61) = ground (arith, v.block) in
      rw full (elim (Bool-cases (realloc (mul_size c 8))) [
        | inl granted ↦ rw granted (
            inr (
              record h { cap = c },
              refl,
              record {
                slots = refl;
                index = refl;
                room = omega (arith, doubled, v.room);
                block = omega (arith, doubled, bounded.bound (mul_size c 8) granted);
              },
            ))
        | inr refused ↦ rw refused (inl (refl, ground (arith, v.room), refl))
      ])
]

-- The new entry behind the others, before it is sifted up.
abbrev place : Heap → ℕ → Heap
place g elem = record g {
  slots = g.slots ++ elem ∷ [];
  index = store g.index elem (length g.slots);
}

module _ (cmp : ℕ → ℕ → Ordering) (g : Heap) (elem : ℕ) where
  length-place : length (place g elem).slots ≡ length g.slots + 1
  length-place = length-append g.slots (elem ∷ [])

  place-Rising : IsHeap cmp g.slots → Rising cmp (place g elem).slots (length g.slots)
  place-Rising heap = record {
    edges = λ c p q n. ground (
      arith,
      length-place,
      entry-append g.slots elem c,
      entry-append g.slots elem (parent c),
      heap c,
    );
    bridge = λ c p q e t. absurd (omega (arith, length-place));
  }

  place-IsIndexed : count elem g.slots ≡ 0 → IsIndexed g → IsIndexed (place g elem)
  place-IsIndexed absent v c hc = ground (
    arith,
    length-place,
    entry-append g.slots elem c,
    entry-append_last g.slots elem,
    entry-ne elem g.slots c absent,
    v c,
  )

module _ (cmp : ℕ → ℕ → Ordering) {h g : Heap} (v : IsValid cmp h) (grown : Grown h g) where
  Grown-IsIndexed : IsIndexed g
  Grown-IsIndexed i hi =
      ap₂ (λ (f : ℕ → ℕ) (a : List ℕ). f (at a i)) grown.index grown.slots
      ∙ v.indexed i (rw grown.slots at hi)

  module _ (order : IsWeakOrder cmp) (elem : ℕ) (absent : count elem h.slots ≡ 0) where
    sifted-Kept : Kept (place g elem) (sift_up cmp (place g elem) (length g.slots))
    sifted-Kept =
        sift_up-Kept cmp (place g elem) (length g.slots) (omega (arith, length-place cmp g elem))

    sifted-IsValid : IsValid cmp (sift_up cmp (place g elem) (length g.slots))
    sifted-IsValid = record {
      heap =
          sift_up-IsHeap cmp order (place g elem) (length g.slots)
            (omega (arith, length-place cmp g elem))
            (place-Rising cmp g elem (subst (IsHeap cmp) (sym grown.slots) v.heap));
      indexed =
          sifted-Kept.indexed
            (place-IsIndexed cmp g elem (ap (count elem) grown.slots ∙ absent) Grown-IsIndexed);
      room = omega (
        arith,
        sifted-Kept.size,
        sifted-Kept.cap,
        length-place cmp g elem,
        grown.room,
        ap length grown.slots,
      );
      block = omega (arith, sifted-Kept.cap, grown.block);
    }

    count-sifted :
        (p : ℕ)
        → count p (sift_up cmp (place g elem) (length g.slots)).slots ≡ hit p elem + count p h.slots
    count-sifted p =
        omega (
          arith,
          sifted-Kept.counts p,
          count-append p g.slots (elem ∷ []),
          ap (count p) grown.slots,
        )

-- xHeapPush on a heap that is valid for a weak order, given a pointer that is not NULL and not yet
-- in it, leaves a valid heap of the old entries and the new one; or the array is full, the
-- allocator refuses the larger one, and the answer is NoMemory and the same heap. The allocator
-- grants no block of 2^63 bytes or more.
pub push_correct :
    (cmp : ℕ → ℕ → Ordering) (realloc : ℕ → Bool) (h : Heap) (elem : ℕ)
    → IsWeakOrder cmp
    → IsBounded realloc
    → IsValid cmp h
    → elem ≢ 0
    → count elem h.slots ≡ 0
    → ((push cmp realloc (some h) elem ≡ (no_memory, some h))
        × (length h.slots ≡ h.cap)
        × Refused realloc h)
      ⊎ ((h' : Heap) × (push cmp realloc (some h) elem ≡ (ok, some h'))
          × IsValid cmp h'
          × ((p : ℕ) → count p h'.slots ≡ hit p elem + count p h.slots))
unfolding push
push_correct cmp realloc h elem order bounded v given absent =
    let null : (elem == 0) ≡ false = ground arith in
    rw null (elim (ensure_cap_lem cmp realloc h bounded v) [
      | inl (failed, full, refused) ↦ inl (rw (failed, push), full, refused)
      | inr (g, granted, grown) ↦ inr (
        sift_up cmp (place g elem) (length g.slots),
        rw (granted, push),
        sifted-IsValid cmp v grown order elem absent,
        count-sifted cmp v grown order elem absent,
      )
    ])

-- An element whose key has changed: the comparison is as before between all other pointers.
abbrev pub AgreesOff : ℕ → (ℕ → ℕ → Ordering) → (ℕ → ℕ → Ordering) → Type 0
AgreesOff e before after = (a b : ℕ) → a ≢ e → b ≢ e → below after a b ≡ below before a b

-- Different slots hold different elements.
slots_apart :
    (h : Heap) (i c : ℕ)
    → IsIndexed h
    → i < length h.slots
    → c < length h.slots
    → c ≢ i
    → at h.slots c ≢ at h.slots i
slots_apart h i c v hi hc n e = n (sym (v c hc) ∙ ap h.index e ∙ v i hi)

module _ (before after : ℕ → ℕ → Ordering) (h : Heap) (i : ℕ) (inside : i < length h.slots) where
  rekeyed-Loose :
      IsWeakOrder before
      → IsHeap before h.slots
      → IsIndexed h
      → AgreesOff (at h.slots i) before after
      → Loose after h.slots i
  rekeyed-Loose order heap indexed same = record {
    edges = λ c p q n m. ground (
      arith,
      same (at h.slots c) (at h.slots (parent c)) (slots_apart h i c indexed inside q n)
          (slots_apart h i (parent c) indexed inside (omega arith) m),
      heap c,
    );
    bridge = λ c p q e t. ground (
      arith,
      same (at h.slots c) (at h.slots (parent i)) (slots_apart h i c indexed inside q (omega arith))
          (slots_apart h i (parent i) indexed inside (omega arith) (omega arith)),
      IsHeap-IsBridged before order h.slots i heap c p q e t,
    );
  }

-- Both sifts at a slot whose edges may be out of order leave a valid heap of the same entries.
pub sifts_mend :
    (cmp : ℕ → ℕ → Ordering) (h : Heap) (i : ℕ)
    → IsWeakOrder cmp
    → i < length h.slots
    → Loose cmp h.slots i
    → IsHeap cmp (sift_down cmp (sift_up cmp h i) i).slots
      × Kept h (sift_down cmp (sift_up cmp h i) i)
sifts_mend cmp h i order inside v =
    let up = sift_up-Kept cmp h i inside in
    let within : i < length (sift_up cmp h i).slots = omega (arith, up.size) in
    (
      sift_down-IsHeap cmp order (sift_up cmp h i) i within
          (sift_up-Sinking cmp order h i inside v),
      Kept-trans up (sift_down-Kept cmp (sift_up cmp h i) i within),
    )

-- xHeapUpdate on a slot of a heap that was valid, for a weak order, before the key of the element
-- there changed, in any way, leaves a heap of the same entries that is valid for the comparison as
-- it is now, a weak order too.
pub update_correct :
    (before after : ℕ → ℕ → Ordering) (h : Heap) (i : ℕ)
    → IsWeakOrder before
    → IsWeakOrder after
    → IsValid before h
    → i < length h.slots
    → AgreesOff (at h.slots i) before after
    → (h' : Heap) × (update after (some h) i ≡ (ok, some h'))
      × IsValid after h'
      × ((p : ℕ) → count p h'.slots ≡ count p h.slots)
unfolding update
update_correct before after h i old new v inside same =
    let found : ltb i (length h.slots) ≡ true = ground arith in
    let (heap, kept) =
      sifts_mend after h i new inside
        (rekeyed-Loose before after h i inside old v.heap v.indexed same) in
    rw found (
      sift_down after (sift_up after h i) i,
      refl,
      record {
        heap = heap;
        indexed = kept.indexed v.indexed;
        room = omega (arith, kept.size, kept.cap, v.room);
        block = omega (arith, kept.cap, v.block);
      },
      kept.counts,
    )
