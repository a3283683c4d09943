-- ===== src/MapHash/Chains.antt =====
-- libx/x/base/map_hash.c: what the loops over one chain do to the entries of a key.
use x.Base.{
  ℕ, ◌≡◌, refl, sym, ap, ◌∙◌, inl, inr, List, [], ◌∷◌, Bool, true, false, some, none, if◌then◌else◌,
  Bool-cases,
}
use x.MapHash.{Entry, behind, set_loop, get_loop, past, del_loop}

-- What the map relies on: the equality is one, and equal keys have equal hashes.
pub record Keys (hash : ℕ → ℕ) (eq : ℕ → ℕ → Bool) : Type 0 where
  pub symm : (a b : ℕ) → eq a b ≡ true → eq b a ≡ true
  pub trans : (a b c : ℕ) → eq a b ≡ true → eq b c ≡ true → eq a c ≡ true
  pub same_hash : (a b : ℕ) → eq a b ≡ true → hash a ≡ hash b

-- Equal keys compare alike with any other.
pub eq-cong :
    {hash : ℕ → ℕ} {eq : ℕ → ℕ → Bool}
    → Keys hash eq
    → (a b k : ℕ) → eq a b ≡ true
    → eq a k ≡ eq b k
eq-cong {eq} keys a b k e = elim (Bool-cases (eq a k)) as (λ _. eq a k ≡ eq b k) [
  | inl h ↦ h ∙ sym (keys.trans b a k (keys.symm a b e) h)
  | inr h ↦ elim (Bool-cases (eq b k)) as (λ _. eq a k ≡ eq b k) [
    | inl g ↦ (let q = keys.trans a b k e g in cc)
    | inr g ↦ h ∙ sym g
  ]
]

abbrev pub with_hit : Bool → Entry → List Entry → List Entry
with_hit true e rest = e ∷ rest
with_hit false e rest = rest

-- The entries of a chain whose key equals `k`.
unfoldable pub hits : (ℕ → ℕ → Bool) → ℕ → List Entry → List Entry
hits eq k [] = []
hits eq k (e ∷ chain) = with_hit (eq e.key k) e (hits eq k chain)

unfoldable pub val_of : List Entry → ℕ
val_of [] = 0
val_of (e ∷ rest) = e.val

pub get_loop-hits :
    (eq : ℕ → ℕ → Bool) (k : ℕ) (chain : List Entry)
    → get_loop eq k chain ≡ val_of (hits eq k chain)
unfolding get_loop hits val_of
get_loop-hits eq k [] = refl
get_loop-hits eq k (e ∷ chain) = elim (Bool-cases (eq e.key k)) [
  | inl h ↦ rw (h, get_loop) refl
  | inr h ↦ rw (h, get_loop) (get_loop-hits eq k chain)
]

unfoldable pub has : (ℕ → ℕ → Bool) → ℕ → List Entry → Bool
has eq key [] = false
has eq key (e ∷ chain) = elim (eq e.key key) [ true ↦ true | false ↦ has eq key chain ]

-- The chain with the value of the first entry of the key replaced.
unfoldable pub assign : (ℕ → ℕ → Bool) → ℕ → ℕ → List Entry → List Entry
assign eq key val [] = []
assign eq key val (e ∷ chain) = elim (eq e.key key) [
  | true ↦ record e { val = val } ∷ chain
  | false ↦ e ∷ assign eq key val chain
]

-- The chain without the first entry of the key.
unfoldable pub erase : (ℕ → ℕ → Bool) → ℕ → List Entry → List Entry
erase eq key [] = []
erase eq key (e ∷ chain) = elim (eq e.key key) [ true ↦ chain | false ↦ e ∷ erase eq key chain ]

behind-if :
    (e : Entry) (b : Bool) (chain : List Entry)
    → behind e (if b then some chain else none) ≡ (if b then some (e ∷ chain) else none)
behind-if e true chain = refl
behind-if e false chain = refl

past-if :
    (e : Entry) (b : Bool) (val : ℕ) (chain : List Entry)
    → past e (if b then some (val, chain) else none) ≡ (if b then some (val, e ∷ chain) else none)
past-if e true val chain = refl
past-if e false val chain = refl

pub set_loop-assign :
    (eq : ℕ → ℕ → Bool) (key val : ℕ) (chain : List Entry)
    → set_loop eq key val chain
      ≡ (if has eq key chain then some (assign eq key val chain) else none)
unfolding set_loop has assign
set_loop-assign eq key val [] = refl
set_loop-assign eq key val (e ∷ chain) = elim (Bool-cases (eq e.key key)) [
  | inl h ↦ rw (h, set_loop, has, assign) refl
  | inr h ↦
      rw (h, set_loop, has, assign)
        (ap (behind e) (set_loop-assign eq key val chain) ∙ behind-if e (has eq key chain) _)
]

pub del_loop-erase :
    (eq : ℕ → ℕ → Bool) (key : ℕ) (chain : List Entry)
    → del_loop eq key chain
      ≡ (if has eq key chain then some (val_of (hits eq key chain), erase eq key chain) else none)
unfolding del_loop has erase hits val_of
del_loop-erase eq key [] = refl
del_loop-erase eq key (e ∷ chain) = elim (Bool-cases (eq e.key key)) [
  | inl h ↦ rw (h, del_loop, has, erase) refl
  | inr h ↦
      rw (h, del_loop, has, erase)
        (ap (past e) (del_loop-erase eq key chain) ∙ past-if e (has eq key chain) _ _)
]
