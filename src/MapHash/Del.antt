-- ===== src/MapHash/Del.antt =====
-- libx/x/base/map_hash.c, hash_del: the entry that goes, and the ones that stay.
use x.Base.{
  ℕ, ◌-◌, ◌≡◌, ◌≤◌, ◌<◌, refl, sym, ap, subst, ◌∙◌, inl, inr, List, [], ◌∷◌, Bool, true, false,
  Bool-cases, if◌then◌else◌, length, set, length-set, drop, arith,
}
use x.MapHash.{Entry, Table, chain_at, bucket_idx, hash_del, hash_get}
use x.MapHash.Chains.{Keys, hits, val_of, has, erase, del_loop-erase}
use x.MapHash.Changes.{Keyed-erase, length-erase, hits-erase, hits-absent, has-here, has-next}
use x.MapHash.Buckets.{
  of_key, of_key-replaced, if-both, idx-same, total-set, Placed-set, bucket_idx-lt,
}
use x.MapHash.Valid.{Valid, hash_get-val}

hits-none :
    (eq : ℕ → ℕ → Bool) (key : ℕ) (chain : List Entry)
    → has eq key chain ≡ false
    → hits eq key chain ≡ []
unfolding has hits
hits-none eq key [] h = refl
hits-none eq key (x ∷ chain) h = elim (Bool-cases (eq x.key key)) [
  | inl e ↦ absurd (let q = has-here eq key x chain e in cc)
  | inr e ↦ rw e (hits-none eq key chain (sym (has-next eq key x chain e) ∙ h))
]

val-drop_one : (l : List Entry) → length l ≤ 1 → val_of (drop 1 l) ≡ 0
unfolding val_of
val-drop_one [] h = refl
val-drop_one (x ∷ []) h = refl
val-drop_one (x ∷ y ∷ l) h = absurd (omega arith)

length-drop_one :
    (b : Bool) (l : List Entry) → length l ≤ 1 → length (if b then drop 1 l else l) ≤ 1
length-drop_one false l h = h
length-drop_one true [] h = h
length-drop_one true (x ∷ l) h = omega arith

module _ {hash : ℕ → ℕ} {eq : ℕ → ℕ → Bool} (keys : Keys hash eq) (key : ℕ) (t : Table)
    (v : Valid hash eq t) where
  idx : ℕ
  idx = bucket_idx hash t.cap key

  chain : List Entry
  unfolding idx
  chain = chain_at t.buckets idx

  abbrev erased : Table
  erased =
      let idx = bucket_idx hash t.cap key in
      record t {
        buckets = set t.buckets idx (erase eq key (chain_at t.buckets idx));
        size = t.size - 1;
      }

  idx-lt : idx < length t.buckets
  unfolding idx
  idx-lt = let lt = bucket_idx-lt hash t.cap key v.pos in let l = v.len in omega arith

  at_key :
      (k : ℕ) → idx ≡ bucket_idx hash t.cap k → hits eq k chain ≡ of_key hash eq t.cap t.buckets k
  unfolding idx chain
  at_key k e = ap (λ (i : ℕ). hits eq k (chain_at t.buckets i)) e

  erased-Valid : has eq key chain ≡ true → Valid hash eq erased
  unfolding idx chain
  erased-Valid there =
      let new = erase eq key chain in
      record {
        len = length-set t.buckets idx new ∙ v.len;
        pos = v.pos;
        placed =
            Placed-set hash t.cap idx t.buckets new idx-lt
              (Keyed-erase eq key (λ k. bucket_idx hash t.cap k ≡ idx) chain (v.placed idx))
              v.placed;
        unique = λ k.
            of_key-replaced keys t.cap (λ l. length l ≤ 1) t.buckets idx new k idx-lt
              (λ e.
                subst (λ (l : List Entry). length l ≤ 1) (sym (hits-erase keys key k chain))
                  (length-drop_one (eq key k) (hits eq k chain)
                    (subst (λ (l : List Entry). length l ≤ 1) (sym (at_key k e)) (v.unique k))))
              (λ ne. v.unique k);
        count =
            let n = total-set t.buckets idx new idx-lt in
            let l = length-erase eq key chain there in let c = v.count in omega arith;
      }

  abbrev Gone : Table → Type 0
  Gone t' = (k : ℕ) → hash_get hash eq k t' ≡ (if eq key k then 0 else hash_get hash eq k t)

  erased-get : Gone erased
  unfolding idx chain
  erased-get k =
      let old = hash_get-val hash eq k t in
      hash_get-val hash eq k erased
      ∙ of_key-replaced keys t.cap (λ l. val_of l ≡ (if eq key k then 0 else hash_get hash eq k t))
          t.buckets idx (erase eq key chain) k idx-lt
          (λ e. ap val_of (hits-erase keys key k chain) ∙ elim (Bool-cases (eq key k)) [
            | inl h ↦ rw h (
                val-drop_one (hits eq k chain)
                  (subst (λ (l : List Entry). length l ≤ 1) (sym (at_key k e)) (v.unique k)))
            | inr h ↦ rw h (ap val_of (at_key k e) ∙ sym old)
          ])
          (λ ne.
            sym old
            ∙ sym (if-both (eq key k) (λ h. absurd (ne (idx-same t.cap keys key k h))) (λ h. refl)))

  missing-get : has eq key chain ≡ false → Gone t
  unfolding idx chain val_of
  missing-get e k = sym (
      if-both (eq key k)
        (λ h. sym (
          hash_get-val hash eq k t
          ∙ ap val_of (
              ap (λ (i : ℕ). hits eq k (chain_at t.buckets i)) (sym (idx-same t.cap keys key k h))
              ∙ hits-absent keys key k chain e h)))
        (λ h. refl))

  del_found : has eq key chain ≡ true → hash_del hash eq key t ≡ (hash_get hash eq key t, erased)
  unfolding idx chain hash_del
  del_found e = rw (hash_get-val hash eq key t, del_loop-erase eq key chain, e, hash_del) refl

  del_missing : has eq key chain ≡ false → hash_del hash eq key t ≡ (hash_get hash eq key t, t)
  unfolding idx chain hash_del val_of
  del_missing e =
      let none_there : hash_get hash eq key t ≡ 0 =
        hash_get-val hash eq key t ∙ ap val_of (hits-none eq key chain e) in
      rw (none_there, del_loop-erase eq key chain, e, hash_del) refl

  pub hash_del-Outcome :
      let r = hash_del hash eq key t in
      Valid hash eq r.1 × (r.0 ≡ hash_get hash eq key t) × Gone r.1
  hash_del-Outcome = elim (Bool-cases (has eq key chain)) [
    | inl e ↦ subst Removed (sym (del_found e)) (erased-Valid e, refl, erased-get)
    | inr e ↦ subst Removed (sym (del_missing e)) (v, refl, missing-get e)
  ]
    where
      Removed : ℕ × Table → Type 0
      Removed r = Valid hash eq r.1 × (r.0 ≡ hash_get hash eq key t) × Gone r.1
