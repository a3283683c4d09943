-- ===== src/MapHash/Valid.antt =====
-- libx/x/base/map_hash.c: the invariant of the table, and what an insertion and a growth do to it.
use x.Base.{
  ℕ, ◌+◌, ◌*◌, ◌≡◌, ◌≤◌, ◌<◌, sym, subst, ◌∙◌, inl, inr, List, [], Bool, true, Bool-cases, length,
  length-replicate, replicate, arith,
}
use x.MapHash.{Entry, Table, chain_at, bucket_idx, link, move_all, hash_get}
use x.MapHash.Chains.{Keys, with_hit, val_of, get_loop-hits}
use x.MapHash.Buckets.{of_key, total, Placed, of_key-link, bucket_idx-lt}
use x.MapHash.Resize.{
  length-move_all, total-move_all, Placed-move_all, Placed-link, total-empty, Placed-empty,
  of_key-grown, length-link, total-link,
}

pub record Valid (hash : ℕ → ℕ) (eq : ℕ → ℕ → Bool) (t : Table) : Type 0 where
  pub len : length t.buckets ≡ t.cap
  pub pos : 0 < t.cap
  pub placed : Placed hash t.cap t.buckets
  pub unique : (k : ℕ) → length (of_key hash eq t.cap t.buckets k) ≤ 1
  pub count : t.size ≡ total t.buckets

pub hash_get-val :
    (hash : ℕ → ℕ) (eq : ℕ → ℕ → Bool) (k : ℕ) (t : Table)
    → hash_get hash eq k t ≡ val_of (of_key hash eq t.cap t.buckets k)
unfolding hash_get
hash_get-val hash eq k t = get_loop-hits eq k (chain_at t.buckets (bucket_idx hash t.cap k))

module _ {hash : ℕ → ℕ} {eq : ℕ → ℕ → Bool} (keys : Keys hash eq) where
  -- The table after a growth.
  abbrev pub grown : Table → Table
  grown t = record t {
    buckets = move_all hash (t.cap * 2) t.buckets (replicate (t.cap * 2) []);
    cap = t.cap * 2;
  }

  pub grown-same :
      (t : Table) (v : Valid hash eq t) (k : ℕ)
      → of_key hash eq (t.cap * 2) (grown t).buckets k ≡ of_key hash eq t.cap t.buckets k
  grown-same t v k =
      of_key-grown keys t.cap (t.cap * 2) t.buckets k (let p = v.pos in omega arith) v.placed
        (v.unique k)

  pub grown-Valid : (t : Table) → Valid hash eq t → Valid hash eq (grown t)
  grown-Valid t v =
      let new_cap : ℕ = t.cap * 2 in
      let pos : 0 < new_cap = (let p = v.pos in omega arith) in
      let fresh : length (replicate {A = List Entry} new_cap []) ≡ new_cap =
        length-replicate {A = List Entry} new_cap [] in
      record {
        len = length-move_all keys new_cap pos t.buckets _ ∙ fresh;
        pos = pos;
        placed =
            Placed-move_all keys new_cap pos t.buckets _ fresh (Placed-empty hash new_cap new_cap);
        unique =
            λ k. subst (λ (l : List Entry). length l ≤ 1) (sym (grown-same t v k)) (v.unique k);
        count =
            let n = total-move_all keys new_cap pos t.buckets (replicate new_cap []) fresh in
            let z = total-empty new_cap in let c = v.count in omega arith;
      }

  abbrev pub linked : ℕ → ℕ → Table → Table
  linked key val t = record t {
    buckets = link hash t.cap (record { key = key; val = val }) t.buckets;
    size = t.size + 1;
  }

  pub linked-same :
      (key val : ℕ) (t : Table) (v : Valid hash eq t) (k : ℕ)
      → of_key hash eq t.cap (linked key val t).buckets k
        ≡ with_hit (eq key k) (record { key = key; val = val }) (of_key hash eq t.cap t.buckets k)
  linked-same key val t v k =
      of_key-link keys t.cap (record { key = key; val = val }) t.buckets k
        (let lt = bucket_idx-lt hash t.cap key v.pos in let l = v.len in omega arith)

  pub linked-Valid :
      (key val : ℕ) (t : Table)
      → Valid hash eq t
      → ((k : ℕ) → eq key k ≡ true → of_key hash eq t.cap t.buckets k ≡ [])
      → Valid hash eq (linked key val t)
  linked-Valid key val t v absent =
      let e : Entry = record { key = key; val = val } in
      record {
        len = length-link keys t.cap v.pos e t.buckets ∙ v.len;
        pos = v.pos;
        placed = Placed-link keys t.cap v.pos e t.buckets v.len v.placed;
        unique =
            λ k. subst (λ (l : List Entry). length l ≤ 1) (sym (linked-same key val t v k)) (one k);
        count =
            let n = total-link keys t.cap v.pos e t.buckets v.len in let c = v.count in omega arith;
      }
    where
      one :
          (k : ℕ)
          → length (
              with_hit
                (eq key k)
                (record { key = key; val = val })
                (of_key hash eq t.cap t.buckets k))
            ≤ 1
      one k = elim (Bool-cases (eq key k)) [
        | inl h ↦ rw (h, absent k h) (omega arith)
        | inr h ↦ rw h (v.unique k)
      ]
