-- ===== src/Heap/Arrays.antt =====
-- The slots of the heap as an array: exchanges, prefixes, and how often a pointer stands in them.
use x.Base.{
  ℕ, zero, suc, ◌+◌, ◌<◌, ◌≡◌, ◌≢◌, refl, ◌∙◌, List, [], ◌∷◌, ◌++◌, arith, ◌==◌, if◌then◌else◌,
  length, get_or, set, take, length-set, get_or-set,
}

abbrev pub entry : List ℕ → ℕ → ℕ
entry a i = get_or a i 0

abbrev pub exchange : List ℕ → ℕ → ℕ → List ℕ
exchange a i j = set (set a i (entry a j)) j (entry a i)

abbrev pub hit : ℕ → ℕ → ℕ
hit p v = if p == v then 1 else 0

-- How often `p` stands in a list.
abbrev pub count : ℕ → List ℕ → ℕ
count p [] = 0
count p (v ∷ a) = hit p v + count p a

pub length-exchange : (a : List ℕ) (i j : ℕ) → length (exchange a i j) ≡ length a
length-exchange a i j = length-set (set a i (entry a j)) j (entry a i) ∙ length-set a i (entry a j)

pub entry-exchange :
    (a : List ℕ) (i j c : ℕ)
    → i < length a
    → j < length a
    → entry (exchange a i j) c
      ≡ (if j == c then entry a i else if i == c then entry a j else entry a c)
entry-exchange a i j c hi hj = ground (
  arith,
  get_or-set (set a i (entry a j)) j c (entry a i) 0 (omega (arith, length-set a i (entry a j))),
  get_or-set a i c (entry a j) 0 hi,
)

pub count-set :
    (p : ℕ) (a : List ℕ) (i v : ℕ)
    → i < length a
    → count p (set a i v) + hit p (entry a i) ≡ count p a + hit p v
count-set p [] i v h = absurd (omega arith)
count-set p (x ∷ a) zero v h = omega arith
count-set p (x ∷ a) (suc i) v h = omega (arith, count-set p a i v (omega arith))

-- An exchange keeps every count.
pub count-exchange :
    (p : ℕ) (a : List ℕ) (i j : ℕ)
    → i < length a
    → j < length a
    → count p (exchange a i j) ≡ count p a
count-exchange p a i j hi hj = ground (
  arith,
  count-set p (set a i (entry a j)) j (entry a i) (omega (arith, length-set a i (entry a j))),
  count-set p a i (entry a j) hi,
  get_or-set a i j (entry a j) 0 hi,
)

pub count-append : (p : ℕ) (a b : List ℕ) → count p (a ++ b) ≡ count p a + count p b
count-append p [] b = omega arith
count-append p (x ∷ a) b = omega (arith, count-append p a b)

pub entry-append : (a : List ℕ) (v c : ℕ) → c < length a → entry (a ++ v ∷ []) c ≡ entry a c
entry-append [] v c h = absurd (omega arith)
entry-append (x ∷ a) v zero h = refl
entry-append (x ∷ a) v (suc c) h = entry-append a v c (omega arith)

pub entry-append_last : (a : List ℕ) (v : ℕ) → entry (a ++ v ∷ []) (length a) ≡ v
entry-append_last [] v = refl
entry-append_last (x ∷ a) v = entry-append_last a v

pub entry-take : (n : ℕ) (a : List ℕ) (c : ℕ) → c < n → entry (take n a) c ≡ entry a c
entry-take zero a c h = absurd (omega arith)
entry-take (suc n) [] c h = refl
entry-take (suc n) (x ∷ a) zero h = refl
entry-take (suc n) (x ∷ a) (suc c) h = entry-take n a c (omega arith)

-- Dropping the last entry.
pub count-take :
    (p n : ℕ) (a : List ℕ) → length a ≡ suc n → count p (take n a) + hit p (entry a n) ≡ count p a
count-take p zero [] e = absurd (omega arith)
count-take p zero (x ∷ []) e = omega arith
count-take p zero (x ∷ y ∷ a) e = absurd (omega arith)
count-take p (suc n) [] e = absurd (omega arith)
count-take p (suc n) (x ∷ a) e = omega (arith, count-take p n a (omega arith))

-- A pointer that is counted nowhere stands nowhere.
pub entry-ne : (p : ℕ) (a : List ℕ) (i : ℕ) → count p a ≡ 0 → i < length a → entry a i ≢ p
entry-ne p [] i e h = absurd (omega arith)
entry-ne p (x ∷ a) zero e h = ground arith
entry-ne p (x ∷ a) (suc i) e h = entry-ne p a i (omega arith) (omega arith)
