-- ===== src/MapHash/Visits.antt =====
-- libx/x/base/map_hash.c, hash_iterate: the entries that it visits.
use x.Base.{
  ℕ, ◌≡◌, refl, sym, ap, ◌∙◌, List, [], ◌∷◌, ◌++◌, Bool, true, false, length, length-append, arith,
}
use x.MapHash.{Entry, Table, continue, iterate_chain, iterate, hash_iterate, hash_len}
use x.MapHash.Buckets.{total}
use x.MapHash.Valid.{Valid}

-- The entries of the map, chain by chain.
abbrev pub entries : List (List Entry) → List Entry
entries [] = []
entries (chain ∷ buckets) = chain ++ entries buckets

-- The callback on one entry after the other, up to the first one that it stops at.
abbrev pub visits {ℓ} : {A : Type ℓ} → (ℕ → ℕ → A → Bool × A) → List Entry → A → Bool × A
visits fn [] arg = (true, arg)
visits fn (e ∷ rest) arg = continue (visits fn rest) (fn e.key e.val arg)

module _ {ℓ} {A : Type ℓ} (fn : ℕ → ℕ → A → Bool × A) where
  continue_assoc :
      (f g h : A → Bool × A) (r : Bool × A)
      → ((a : A) → h a ≡ continue g (f a))
      → continue h r ≡ continue g (continue f r)
  continue_assoc f g h (true, a) e = e a
  continue_assoc f g h (false, a) e = refl

  visits-append :
      (xs ys : List Entry) (arg : A)
      → visits fn (xs ++ ys) arg ≡ continue (visits fn ys) (visits fn xs arg)
  visits-append [] ys arg = refl
  visits-append (e ∷ xs) ys arg =
      continue_assoc (visits fn xs) (visits fn ys) (visits fn (xs ++ ys)) (fn e.key e.val arg)
        (visits-append xs ys)

  continue-same :
      (g h : A → Bool × A) (r : Bool × A) → ((a : A) → g a ≡ h a) → continue g r ≡ continue h r
  continue-same g h (true, a) e = e a
  continue-same g h (false, a) e = refl

  chain-visits : (chain : List Entry) (arg : A) → iterate_chain fn chain arg ≡ visits fn chain arg
  unfolding iterate_chain
  chain-visits [] arg = refl
  chain-visits (e ∷ chain) arg = continue-same _ _ (fn e.key e.val arg) (chain-visits chain)

  iterate-visits :
      (buckets : List (List Entry)) (arg : A)
      → iterate fn buckets arg ≡ visits fn (entries buckets) arg
  unfolding iterate
  iterate-visits [] arg = refl
  iterate-visits (chain ∷ buckets) arg =
      ap (continue (iterate fn buckets)) (chain-visits chain arg)
      ∙ continue-same _ _ (visits fn chain arg) (iterate-visits buckets)
      ∙ sym (visits-append chain (entries buckets) arg)

length-entries : (buckets : List (List Entry)) → length (entries buckets) ≡ total buckets
length-entries [] = refl
length-entries (chain ∷ buckets) =
    omega (arith, length-append chain (entries buckets), length-entries buckets)

-- hash_iterate of a well-formed map calls the callback on a list of as many entries as hash_len
-- tells, one after the other up to the first one that it stops at.
pub iterate_entries {ℓ} :
    {A : Type ℓ} (hash : ℕ → ℕ) (eq : ℕ → ℕ → Bool) (fn : ℕ → ℕ → A → Bool × A) (t : Table)
    (arg : A)
    → Valid hash eq t
    → (hash_iterate fn t arg ≡ (visits fn (entries t.buckets) arg).1)
      × (length (entries t.buckets) ≡ hash_len t)
unfolding hash_iterate hash_len
iterate_entries {A} hash eq fn t arg v = (
  ap (λ (r : Bool × A). r.1) (iterate-visits fn t.buckets arg),
  length-entries t.buckets ∙ sym v.count,
)
