-- ===== src/MapHash/Changes.antt =====
-- libx/x/base/map_hash.c: replacing and removing the entry of a key in its chain.
use x.Base.{
  ℕ, suc, ◌≡◌, refl, sym, ap, ◌∙◌, inl, inr, List, [], ◌∷◌, Bool, true, false, if◌then◌else◌,
  Bool-cases, length, drop, All,
}
use x.MapHash.{Entry}
use x.MapHash.Chains.{Keys, eq-cong, with_hit, hits, val_of, has, assign, erase}

pub has-here :
    (eq : ℕ → ℕ → Bool) (key : ℕ) (x : Entry) (chain : List Entry)
    → eq x.key key ≡ true
    → has eq key (x ∷ chain) ≡ true
unfolding has
has-here eq key x chain g = rw (g, has) refl

has-first :
    (eq : ℕ → ℕ → Bool) (key : ℕ) (x : Entry) (chain : List Entry)
    → eq x.key key ≡ true
    → has eq key (x ∷ chain) ≡ false
    → ⊥
has-first eq key x chain g h = let q = has-here eq key x chain g in cc

pub has-next :
    (eq : ℕ → ℕ → Bool) (key : ℕ) (x : Entry) (chain : List Entry)
    → eq x.key key ≡ false
    → has eq key (x ∷ chain) ≡ has eq key chain
unfolding has
has-next eq key x chain g = rw (g, has) refl

module _ {hash : ℕ → ℕ} {eq : ℕ → ℕ → Bool} (keys : Keys hash eq) (key : ℕ) where
  eq-apart : (a k : ℕ) → eq a key ≡ false → eq key k ≡ true → eq a k ≡ false
  eq-apart a k h e = elim (Bool-cases (eq a k)) [
    | inl g ↦ absurd (let q = keys.trans a k key g (keys.symm key k e) in cc)
    | inr g ↦ g
  ]

  pub hits-absent :
      (k : ℕ) (chain : List Entry)
      → has eq key chain ≡ false
      → eq key k ≡ true
      → hits eq k chain ≡ []
  unfolding has hits
  hits-absent k [] h e = refl
  hits-absent k (x ∷ chain) h e = elim (Bool-cases (eq x.key key)) [
    | inl g ↦ absurd (has-first eq key x chain g h)
    | inr g ↦
        rw (eq-apart x.key k g e) (hits-absent k chain (sym (has-next eq key x chain g) ∙ h) e)
  ]

  -- The other keys' entries stay, and so does the number of entries of every key.
  pub hits-assign :
      (val k : ℕ) (chain : List Entry)
      → has eq key chain ≡ true
      → (val_of (hits eq k (assign eq key val chain))
          ≡ (if eq key k then val else val_of (hits eq k chain)))
        × (length (hits eq k (assign eq key val chain)) ≡ length (hits eq k chain))
  unfolding has hits assign val_of
  hits-assign val k [] h = absurd (let q = h in cc)
  hits-assign val k (x ∷ chain) h = elim (Bool-cases (eq x.key key)) [
    | inl g ↦
        rw (g, assign, eq-cong keys x.key key k g)
          (elim (Bool-cases (eq key k)) [ inl e ↦ rw e (refl, refl) | inr e ↦ rw e (refl, refl) ])
    | inr g ↦
        let (v, n) = hits-assign val k chain (sym (has-next eq key x chain g) ∙ h) in
        rw (g, assign)
          (elim (Bool-cases (eq key k)) [
            | inl e ↦ rw (eq-apart x.key k g e) (v, n)
            | inr e ↦ elim (Bool-cases (eq x.key k)) [
              | inl f ↦ rw (f, e) (refl, ap suc n)
              | inr f ↦ rw f (v, n)
            ]
          ])
  ]

  pub hits-erase :
      (k : ℕ) (chain : List Entry)
      → hits eq k (erase eq key chain)
        ≡ (if eq key k then drop 1 (hits eq k chain) else hits eq k chain)
  unfolding hits erase
  hits-erase k [] = elim (Bool-cases (eq key k)) [ inl e ↦ rw e refl | inr e ↦ rw e refl ]
  hits-erase k (x ∷ chain) = elim (Bool-cases (eq x.key key)) [
    | inl g ↦
        rw (g, erase, eq-cong keys x.key key k g)
          (elim (Bool-cases (eq key k)) [ inl e ↦ rw e refl | inr e ↦ rw e refl ])
    | inr g ↦
        rw (g, erase)
          (elim (Bool-cases (eq key k)) [
            | inl e ↦ rw (eq-apart x.key k g e, e) (hits-erase k chain ∙ (rw e refl))
            | inr e ↦ rw e (
                ap (λ (l : List Entry). with_hit (eq x.key k) x l) (hits-erase k chain ∙ rw e refl))
          ])
  ]

-- A property of the keys of a chain.
abbrev pub Keyed {ℓ} : (ℕ → Type ℓ) → List Entry → Type ℓ
Keyed P = All (λ (e : Entry). P e.key)

module _ (eq : ℕ → ℕ → Bool) (key : ℕ) where
  pub length-assign :
      (val : ℕ) (chain : List Entry) → length (assign eq key val chain) ≡ length chain
  unfolding assign
  length-assign val [] = refl
  length-assign val (x ∷ chain) = elim (Bool-cases (eq x.key key)) [
    | inl g ↦ rw (g, assign) refl
    | inr g ↦ rw (g, assign) (ap suc (length-assign val chain))
  ]

  pub length-erase :
      (chain : List Entry)
      → has eq key chain ≡ true
      → suc (length (erase eq key chain)) ≡ length chain
  unfolding has erase
  length-erase [] h = absurd (let q = h in cc)
  length-erase (x ∷ chain) h = elim (Bool-cases (eq x.key key)) [
    | inl g ↦ rw (g, erase) refl
    | inr g ↦ rw (g, erase) (ap suc (length-erase chain (sym (has-next eq key x chain g) ∙ h)))
  ]

  pub Keyed-assign :
      (P : ℕ → Type 0) (val : ℕ) (chain : List Entry)
      → Keyed P chain
      → Keyed P (assign eq key val chain)
  unfolding assign
  Keyed-assign P val [] a = tt
  Keyed-assign P val (x ∷ chain) (p, a) = elim (Bool-cases (eq x.key key)) [
    | inl g ↦ rw (g, assign) (p, a)
    | inr g ↦ rw (g, assign) (p, Keyed-assign P val chain a)
  ]

  pub Keyed-erase :
      (P : ℕ → Type 0) (chain : List Entry) → Keyed P chain → Keyed P (erase eq key chain)
  unfolding erase
  Keyed-erase P [] a = tt
  Keyed-erase P (x ∷ chain) (p, a) = elim (Bool-cases (eq x.key key)) [
    | inl g ↦ rw (g, erase) a
    | inr g ↦ rw (g, erase) (p, Keyed-erase P chain a)
  ]
