-- ===== src/MapHash/Set.antt =====
-- libx/x/base/map_hash.c, hash_set: what it stores, and what it leaves.
use x.Base.{
  ℕ, ◌+◌, ◌*◌, ◌/◌, ◌≡◌, ◌≤◌, ◌<◌, refl, sym, ap, subst, ◌∙◌, inl, inr, ◌⊎◌, List, [], Bool, true,
  false, Bool-cases, if◌then◌else◌, ltb, length, set, length-set, arith,
}
use x.Base.Errno.{Errno, ok, no_memory}
use x.MapHash.{Entry, Table, chain_at, bucket_idx, resize, insert, set_absent, hash_set, hash_get}
use x.MapHash.Chains.{Keys, hits, val_of, has, assign, set_loop-assign}
use x.MapHash.Changes.{Keyed-assign, length-assign, hits-assign, hits-absent}
use x.MapHash.Buckets.{
  of_key, of_key-replaced, if-both, idx-same, total-set, Placed-set, bucket_idx-lt,
}
use x.MapHash.Valid.{
  Valid, hash_get-val, grown, grown-same, grown-Valid, linked, linked-same, linked-Valid,
}

-- The new map holds `val` for the keys equal to `key`, and what it held for the others.
abbrev Stored : (ℕ → ℕ) → (ℕ → ℕ → Bool) → ℕ → ℕ → Table → Table → Type 0
Stored hash eq key val t t' =
    (k : ℕ) → hash_get hash eq k t' ≡ (if eq key k then val else hash_get hash eq k t)

abbrev Unchanged : (ℕ → ℕ) → (ℕ → ℕ → Bool) → Table → Table → Type 0
Unchanged hash eq t t' = (k : ℕ) → hash_get hash eq k t' ≡ hash_get hash eq k t

-- How hash_set ends.
abbrev Outcome : (ℕ → ℕ) → (ℕ → ℕ → Bool) → ℕ → ℕ → Table → Errno × Table → Type 0
Outcome hash eq key val t r =
    Valid hash eq r.1
    × (((r.0 ≡ ok) × Stored hash eq key val t r.1) ⊎ ((r.0 ≡ no_memory) × Unchanged hash eq t r.1))

module _ {hash : ℕ → ℕ} {eq : ℕ → ℕ → Bool} (keys : Keys hash eq) (key val : ℕ) where
  linked-get : (t : Table) (v : Valid hash eq t) → Stored hash eq key val t (linked keys key val t)
  unfolding val_of
  linked-get t v k =
      hash_get-val hash eq k (linked keys key val t)
      ∙ ap val_of (linked-same keys key val t v k)
      ∙ sym (if-both (eq key k) (λ e. rw e refl) (λ e. hash_get-val hash eq k t ∙ rw e refl))

  abbrev Absent : Table → Type 0
  Absent t = (k : ℕ) → eq key k ≡ true → of_key hash eq t.cap t.buckets k ≡ []

  insert-Outcome :
      (slab_alloc : Bool) (t : Table) (v : Valid hash eq t)
      → Absent t
      → Outcome hash eq key val t (insert hash slab_alloc key val t)
  unfolding insert
  insert-Outcome true t v absent =
      (linked-Valid keys key val t v absent, inl (refl, linked-get t v))
  insert-Outcome false t v absent = (v, inr (refl, λ k. refl))

  grown-get : (t : Table) → Valid hash eq t → Unchanged hash eq t (grown keys t)
  grown-get t v k =
      hash_get-val hash eq k (grown keys t)
      ∙ ap val_of (grown-same keys t v k)
      ∙ sym (hash_get-val hash eq k t)

  -- An outcome for the grown table is one for the table.
  Outcome-grown :
      (t : Table) (r : Errno × Table) (v : Valid hash eq t)
      → Outcome hash eq key val (grown keys t) r
      → Outcome hash eq key val t r
  Outcome-grown t r v (w, inl (e, stored)) =
      (w, inl (e, λ k. stored k ∙ ap (λ (x : ℕ). if eq key k then val else x) (grown-get t v k)))
  Outcome-grown t r v (w, inr (e, same)) = (w, inr (e, λ k. same k ∙ grown-get t v k))

  set_absent-Outcome :
      (calloc : ℕ → Bool) (slab_alloc : Bool) (t : Table) (v : Valid hash eq t)
      → Absent t
      → Outcome hash eq key val t (set_absent hash calloc slab_alloc key val t)
  unfolding set_absent resize
  set_absent-Outcome calloc slab_alloc t v absent =
      elim (Bool-cases (ltb (t.cap * 3 / 4) (t.size + 1))) [
        | inr e ↦ rw e (insert-Outcome slab_alloc t v absent)
        | inl e ↦ elim (Bool-cases (calloc (t.cap * 2))) [
          | inr f ↦ rw (e, f) (v, inr (refl, λ k. refl))
          | inl f ↦
              rw (e, f)
                (Outcome-grown t (insert hash slab_alloc key val (grown keys t)) v (
                  insert-Outcome slab_alloc (grown keys t) (grown-Valid keys t v)
                    (λ k h. grown-same keys t v k ∙ absent k h)))
        ]
      ]

  abbrev assigned : Table → Table
  assigned t =
      let idx = bucket_idx hash t.cap key in
      record t { buckets = set t.buckets idx (assign eq key val (chain_at t.buckets idx)) }

  module _ (t : Table) (v : Valid hash eq t)
      (there : has eq key (chain_at t.buckets (bucket_idx hash t.cap key)) ≡ true) where
    idx : ℕ
    idx = bucket_idx hash t.cap key

    chain : List Entry
    unfolding idx
    chain = chain_at t.buckets idx

    idx-lt : idx < length t.buckets
    unfolding idx
    idx-lt = let lt = bucket_idx-lt hash t.cap key v.pos in let l = v.len in omega arith

    at_key :
        (k : ℕ) → idx ≡ bucket_idx hash t.cap k → hits eq k chain ≡ of_key hash eq t.cap t.buckets k
    unfolding idx chain
    at_key k e = ap (λ (i : ℕ). hits eq k (chain_at t.buckets i)) e

    assigned-Valid : Valid hash eq (assigned t)
    unfolding idx chain
    assigned-Valid =
        let new = assign eq key val chain in
        record {
          len = length-set t.buckets idx new ∙ v.len;
          pos = v.pos;
          placed =
              Placed-set hash t.cap idx t.buckets new idx-lt
                (Keyed-assign eq key (λ k. bucket_idx hash t.cap k ≡ idx) val chain (v.placed idx))
                v.placed;
          unique = λ k.
              of_key-replaced keys t.cap (λ l. length l ≤ 1) t.buckets idx new k idx-lt
                (λ e.
                  let n = (hits-assign keys key val k chain there).1 in
                  let same = ap (λ (l : List Entry). length l) (at_key k e) in
                  let one = v.unique k in omega arith)
                (λ ne. v.unique k);
          count =
              let n = total-set t.buckets idx new idx-lt in
              let l = length-assign eq key val chain in let c = v.count in omega arith;
        }

    assigned-get : Stored hash eq key val t (assigned t)
    unfolding idx chain
    assigned-get k =
        let old = hash_get-val hash eq k t in
        hash_get-val hash eq k (assigned t)
        ∙ of_key-replaced keys t.cap
            (λ l. val_of l ≡ (if eq key k then val else hash_get hash eq k t)) t.buckets idx
            (assign eq key val chain) k idx-lt
            (λ e.
              (hits-assign keys key val k chain there).0
              ∙ ap (λ (x : ℕ). if eq key k then val else x) (ap val_of (at_key k e) ∙ sym old))
            (λ ne.
              sym old
              ∙ sym
                  (if-both (eq key k) (λ h. absurd (ne (idx-same t.cap keys key k h))) (λ h. refl)))

  set_found :
      (calloc : ℕ → Bool) (slab_alloc : Bool) (t : Table)
      → has eq key (chain_at t.buckets (bucket_idx hash t.cap key)) ≡ true
      → hash_set hash eq calloc slab_alloc key val t ≡ (ok, assigned t)
  unfolding hash_set
  set_found calloc slab_alloc t e =
      rw (set_loop-assign eq key val (chain_at t.buckets (bucket_idx hash t.cap key)), e, hash_set)
        refl

  set_missing :
      (calloc : ℕ → Bool) (slab_alloc : Bool) (t : Table)
      → has eq key (chain_at t.buckets (bucket_idx hash t.cap key)) ≡ false
      → hash_set hash eq calloc slab_alloc key val t ≡ set_absent hash calloc slab_alloc key val t
  unfolding hash_set
  set_missing calloc slab_alloc t e =
      rw (set_loop-assign eq key val (chain_at t.buckets (bucket_idx hash t.cap key)), e, hash_set)
        refl

  missing-Absent :
      (t : Table) → has eq key (chain_at t.buckets (bucket_idx hash t.cap key)) ≡ false → Absent t
  missing-Absent t e k h =
      ap (λ (i : ℕ). hits eq k (chain_at t.buckets i)) (sym (idx-same t.cap keys key k h))
      ∙ hits-absent keys key k (chain_at t.buckets (bucket_idx hash t.cap key)) e h

  pub hash_set-Outcome :
      (calloc : ℕ → Bool) (slab_alloc : Bool) (t : Table) (v : Valid hash eq t)
      → Outcome hash eq key val t (hash_set hash eq calloc slab_alloc key val t)
  hash_set-Outcome calloc slab_alloc t v =
      elim (Bool-cases (has eq key (chain_at t.buckets (bucket_idx hash t.cap key)))) [
        | inl e ↦
            subst (Outcome hash eq key val t) (sym (set_found calloc slab_alloc t e))
              (assigned-Valid t v e, inl (refl, assigned-get t v e))
        | inr e ↦
            subst (Outcome hash eq key val t) (sym (set_missing calloc slab_alloc t e))
              (set_absent-Outcome calloc slab_alloc t v (missing-Absent t e))
      ]

  set_absent-granted :
      (calloc : ℕ → Bool) (slab_alloc : Bool) (t : Table)
      → calloc (t.cap * 2) ≡ true
      → slab_alloc ≡ true
      → (set_absent hash calloc slab_alloc key val t).0 ≡ ok
  unfolding set_absent resize insert
  set_absent-granted calloc slab_alloc t c s =
      elim (Bool-cases (ltb (t.cap * 3 / 4) (t.size + 1))) [
        | inr e ↦ rw (e, s) refl
        | inl e ↦ rw (e, c, s) refl
      ]

  -- hash_set succeeds when the allocators grant what it asks for.
  pub granted :
      (calloc : ℕ → Bool) (slab_alloc : Bool) (t : Table)
      → calloc (t.cap * 2) ≡ true
      → slab_alloc ≡ true
      → (hash_set hash eq calloc slab_alloc key val t).0 ≡ ok
  granted calloc slab_alloc t c s =
      elim (Bool-cases (has eq key (chain_at t.buckets (bucket_idx hash t.cap key)))) [
        | inl e ↦ ap (λ (r : Errno × Table). r.0) (set_found calloc slab_alloc t e)
        | inr e ↦
            ap (λ (r : Errno × Table). r.0) (set_missing calloc slab_alloc t e)
            ∙ set_absent-granted calloc slab_alloc t c s
      ]
