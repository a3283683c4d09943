-- ===== src/Dns/Copies.antt =====
-- libx/x/dns/dns_packet.c: copies of record lists keep their blocks in balance.
use x.Base.{
  ℕ, suc, ◌+◌, ◌-◌, ◌≡◌, refl, sym, ap, ap₂, ◌∙◌, inl, inr, ◌⊎◌, List, [], ◌∷◌, ◌++◌, map,
  append_assoc, append-nil, Bool, true, false, Option, some, none, ◌==◌, ==_iff, if◌then◌else◌,
  Bool-cases, arith,
}
use mathlib.Core.List.{map-append}
use x.Dns.Response.{Given}
use x.Dns.Clone.{
  Heap, alloc, erase, free, Held, free_held, Copy, records_free, duplicated, duplicate, data_of,
  with_body, with_name, with_block, clone_one, link, clone_loop, records_clone,
}

abbrev pub bytes_of : Held → Option (List ℕ)
bytes_of none = none
bytes_of (some p) = some p.1

-- A copy's values, and those that a record's copy has.
abbrev pub value_of : Copy → Given
value_of c = record {
  qtype = c.qtype;
  ttl = c.ttl;
  name = bytes_of c.name;
  rdata = bytes_of c.rdata;
  rdlength = c.rdlength;
}

abbrev pub copied : Given → Given
copied r = record r { rdata = data_of r }

abbrev pub held : Held → List ℕ
held none = []
held (some p) = p.0 ∷ []

-- The blocks of a copy, the last one first.
abbrev pub blocks_of : Copy → List ℕ
blocks_of c = held c.rdata ++ (held c.name ++ c.block ∷ [])

abbrev pub blocks : List Copy → List ℕ
blocks [] = []
blocks (c ∷ cs) = blocks_of c ++ blocks cs

abbrev pub count : ℕ → List ℕ → ℕ
count i [] = 0
count i (x ∷ xs) = (if x == i then 1 else 0) + count i xs

abbrev pub Refused : (ℕ → Bool) → Type 0
Refused grant = (n : ℕ) × (grant n ≡ false)

count-append : (i : ℕ) (xs ys : List ℕ) → count i (xs ++ ys) ≡ count i xs + count i ys
count-append i [] ys = omega arith
count-append i (x ∷ xs) ys = let ih = count-append i xs ys in omega arith

erase-head : (b : ℕ) (xs : List ℕ) → erase b (b ∷ xs) ≡ xs
unfolding erase
erase-head b xs = let e : (b == b) ≡ true = (==_iff b b).1 refl in rw e refl

count-erase : (i b : ℕ) (xs : List ℕ) → count i (erase b xs) ≡ count i xs - count i (b ∷ [])
unfolding erase
count-erase i b [] = omega arith
count-erase i b (x ∷ xs) =
    let ih = count-erase i b xs in
    elim (Bool-cases (x == b)) [ inl e ↦ rw e (ground arith) | inr e ↦ rw e (ground arith) ]

alloc-cases :
    (grant : ℕ → Bool) (h : Heap)
    → ((b : ℕ) × (h' : Heap) × (alloc grant h ≡ (some b, h')) × (h'.live ≡ b ∷ h.live))
      ⊎ ((h' : Heap) × (alloc grant h ≡ (none, h')) × (h'.live ≡ h.live) × Refused grant)
unfolding alloc
alloc-cases grant h = elim (Bool-cases (grant h.requests)) [
  | inl e ↦ inl (
    h.requests,
    record { requests = suc h.requests; live = h.requests ∷ h.live },
    rw e refl,
    refl,
  )
  | inr e ↦ inr (record h { requests = suc h.requests }, rw e refl, refl, (h.requests, e))
]

-- What a request for a copy of bytes yields.
abbrev Duplicated : (ℕ → Bool) → Heap → Option (List ℕ) → Type 0
Duplicated grant h bytes =
    ((c : Held) × (h' : Heap) × (duplicate grant h bytes ≡ (some c, h'))
      × (bytes_of c ≡ bytes)
      × (h'.live ≡ held c ++ h.live))
    ⊎ ((h' : Heap) × (duplicate grant h bytes ≡ (none, h')) × (h'.live ≡ h.live) × Refused grant)

duplicate-Duplicated :
    (grant : ℕ → Bool) (h : Heap) (bytes : Option (List ℕ)) → Duplicated grant h bytes
unfolding duplicate duplicated
duplicate-Duplicated grant h none = inl (none, h, refl, refl, refl)
duplicate-Duplicated grant h (some bytes) = elim (alloc-cases grant h) [
  | inl (b, h', e, l) ↦ inl (some (b, bytes), h', ap (duplicated bytes) e, refl, l)
  | inr (h', e, l, no_room) ↦ inr (h', ap (duplicated bytes) e, l, no_room)
]

free_held-live :
    (c : Held) (h : Heap) (xs : List ℕ) → h.live ≡ held c ++ xs → (free_held c h).live ≡ xs
unfolding free_held free
free_held-live none h xs e = e
free_held-live (some p) h xs e = ap (erase p.0) e ∙ erase-head p.0 xs

free-live : (b : ℕ) (h : Heap) (xs : List ℕ) → h.live ≡ b ∷ xs → (free b h).live ≡ xs
unfolding free
free-live b h xs e = ap (erase b) e ∙ erase-head b xs

abbrev One : (ℕ → Bool) → Given → List ℕ → Option Copy × Heap → Type 0
One grant r live0 out =
    ((c : Copy) × (h' : Heap) × (out ≡ (some c, h'))
      × (value_of c ≡ copied r)
      × (h'.live ≡ blocks_of c ++ live0))
    ⊎ ((h' : Heap) × (out ≡ (none, h')) × (h'.live ≡ live0) × Refused grant)

module _ (grant : ℕ → Bool) (r : Given) (live0 : List ℕ) where
  body-One :
      (b : ℕ) (name : Held) (h : Heap)
      → bytes_of name ≡ r.name
      → h.live ≡ held name ++ (b ∷ live0)
      → One grant r live0 (with_body r b name (duplicate grant h (data_of r)))
  unfolding with_body
  body-One b name h n l = elim (duplicate-Duplicated grant h (data_of r)) [
    | inl (c, h', e, d, l') ↦ inl (
      record {
        block = b;
        qtype = r.qtype;
        ttl = r.ttl;
        name = name;
        rdata = c;
        rdlength = r.rdlength;
      },
      h',
      ap (with_body r b name) e,
      ap₂ (λ (x y : Option (List ℕ)). record r { name = x; rdata = y }) n d,
      l'
          ∙ ap (λ xs. held c ++ xs) l
          ∙ ap (λ xs. held c ++ xs) (sym (append_assoc (held name) (b ∷ []) live0))
          ∙ sym (append_assoc (held c) (held name ++ b ∷ []) live0),
    )
    | inr (h', e, l', no_room) ↦ inr (
      free b (free_held name h'),
      ap (with_body r b name) e,
      free-live b (free_held name h') live0 (free_held-live name h' (b ∷ live0) (l' ∙ l)),
      no_room,
    )
  ]

  name-One :
      (b : ℕ) (h : Heap)
      → h.live ≡ b ∷ live0
      → One grant r live0 (with_name grant r b (duplicate grant h r.name))
  unfolding with_name
  name-One b h l = elim (duplicate-Duplicated grant h r.name) [
    | inl (c, h', e, n, l') ↦ rw e (body-One b c h' n (l' ∙ ap (λ xs. held c ++ xs) l))
    | inr (h', e, l', no_room) ↦
        inr (free b h', ap (with_name grant r b) e, free-live b h' live0 (l' ∙ l), no_room)
  ]

clone_one-One : (grant : ℕ → Bool) (r : Given) (h : Heap) → One grant r h.live (clone_one grant r h)
unfolding clone_one with_block
clone_one-One grant r h = elim (alloc-cases grant h) [
  | inl (b, h', e, l) ↦ rw e (name-One grant r h.live b h' l)
  | inr (h', e, l, no_room) ↦ inr (h', ap (with_block grant r) e, l, no_room)
]

-- Freeing takes the blocks of the copies away.
count-free_held :
    (i : ℕ) (c : Held) (h : Heap) → count i (free_held c h).live ≡ count i h.live - count i (held c)
unfolding free_held free
count-free_held i none h = omega arith
count-free_held i (some p) h = count-erase i p.0 h.live

count-free : (i b : ℕ) (h : Heap) → count i (free b h).live ≡ count i h.live - count i (b ∷ [])
unfolding free
count-free i b h = count-erase i b h.live

count-blocks_of :
    (i : ℕ) (c : Copy)
    → count i (blocks_of c)
      ≡ count i (held c.rdata) + (count i (held c.name) + count i (c.block ∷ []))
count-blocks_of i c =
    count-append i (held c.rdata) (held c.name ++ c.block ∷ [])
    ∙ ap (λ (n : ℕ). count i (held c.rdata) + n) (count-append i (held c.name) (c.block ∷ []))

pub count-records_free :
    (i : ℕ) (cs : List Copy) (h : Heap)
    → count i (records_free cs h).live ≡ count i h.live - count i (blocks cs)
unfolding records_free
count-records_free i [] h = omega arith
count-records_free i (c ∷ cs) h =
    let a = count-free_held i c.name h in
    let b = count-free_held i c.rdata (free_held c.name h) in
    let d = count-free i c.block (free_held c.rdata (free_held c.name h)) in
    let ih = count-records_free i cs (free c.block (free_held c.rdata (free_held c.name h))) in
    let e = count-blocks_of i c in let f = count-append i (blocks_of c) (blocks cs) in omega arith

-- The blocks in use are those of the copies and the ones before.
abbrev Balanced : List Copy → Heap → Heap → Type 0
Balanced cs h h0 = (i : ℕ) → count i h.live ≡ count i (blocks cs) + count i h0.live

Balanced-snoc :
    (done : List Copy) (c : Copy) (h h' h0 : Heap)
    → Balanced done h h0
    → h'.live ≡ blocks_of c ++ h.live
    → Balanced (done ++ c ∷ []) h' h0
Balanced-snoc done c h h' h0 bal l i =
    let a = ap (count i) l ∙ count-append i (blocks_of c) h.live in
    let b = bal i in
    let d = count-blocks-append i done (c ∷ []) in
    let e = ap (count i) (append-nil (blocks_of c)) in omega arith
  where
    count-blocks-append :
        (i : ℕ) (xs ys : List Copy)
        → count i (blocks (xs ++ ys)) ≡ count i (blocks xs) + count i (blocks ys)
    count-blocks-append i [] ys = omega arith
    count-blocks-append i (x ∷ xs) ys =
        let ih = count-blocks-append i xs ys in
        let a = count-append i (blocks_of x) (blocks (xs ++ ys)) in
        let b = count-append i (blocks_of x) (blocks xs) in omega arith

-- How a clone ends: with all copies, or with NULL after a refusal.
abbrev Cloned : (ℕ → Bool) → List Given → List Given → Heap → List Copy × Heap → Type 0
Cloned grant before rs h0 out =
    ((map value_of out.0 ≡ before ++ map copied rs) ⊎ ((out.0 ≡ []) × Refused grant))
    × Balanced out.0 out.1 h0

clone_loop-Cloned :
    (grant : ℕ → Bool) (rs : List Given) (done : List Copy) (h h0 : Heap)
    → Balanced done h h0
    → Cloned grant (map value_of done) rs h0 (clone_loop grant rs done h)
unfolding clone_loop link
clone_loop-Cloned grant [] done h h0 bal = (inl (sym (append-nil (map value_of done))), bal)
clone_loop-Cloned grant (r ∷ rs) done h h0 bal = elim (clone_one-One grant r h) [
  | inl (c, h', e, v, l) ↦
      let ih =
        clone_loop-Cloned grant rs (done ++ c ∷ []) h' h0 (Balanced-snoc done c h h' h0 bal l) in
      let m : map value_of (done ++ c ∷ []) ≡ map value_of done ++ copied r ∷ [] =
        map-append value_of done (c ∷ []) ∙ ap (λ x. map value_of done ++ x ∷ []) v in
      rw e (rw (m, append_assoc (map value_of done) (copied r ∷ []) (map copied rs)) at ih)
  | inr (h', e, l, no_room) ↦ rw e (
    inr (refl, no_room),
    λ i.
        let a = count-records_free i done h' in
        let b = bal i in let d = ap (count i) l in omega arith,
  )
]

-- dns_records_clone either yields copies of all records with their values, their data cut to the
-- length they tell and none for a length of 0, or yields NULL, and then some request was refused.
-- In both cases the blocks in use are those of the copies and the ones from before, each as often,
-- and dns_records_free of the copies leaves the ones from before: no block leaks.
pub records_clone-copies :
    (grant : ℕ → Bool) (rs : List Given) (h : Heap)
    → ((map value_of (records_clone grant rs h).0 ≡ map copied rs)
        ⊎ (((records_clone grant rs h).0 ≡ []) × Refused grant))
      × ((i : ℕ)
          → (count i (records_clone grant rs h).1.live
              ≡ count i (blocks (records_clone grant rs h).0) + count i h.live)
            × (count i (records_free (records_clone grant rs h).0 (records_clone grant rs h).1).live
                ≡ count i h.live))
unfolding records_clone
records_clone-copies grant rs h =
    let (out, bal) = clone_loop-Cloned grant rs [] h h (λ i. omega arith) in
    (
      out,
      λ i.
          let b = bal i in
          let f = count-records_free i (clone_loop grant rs [] h).0 (clone_loop grant rs [] h).1 in
          (b, omega arith),
    )
