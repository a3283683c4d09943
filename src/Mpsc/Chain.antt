-- ===== src/Mpsc/Chain.antt =====
-- libx/x/base/mpsc.c: the queue as a chain of links, some of which a producer still owes.
use x.Base.{ℕ, ◌≢◌, ◌≡◌, refl, sym, subst, ap, ◌∙◌, inl, inr, ◌⊎◌, List, [], ◌∷◌, ◌++◌, All}
use x.Mpsc.{Producer, linking, Absent}

unfoldable pub Nodup : List ℕ → Type 0
Nodup [] = Unit
Nodup (x ∷ xs) = Absent x xs × Nodup xs

-- `b` stands right behind `a`.
unfoldable pub Adjacent : ℕ → ℕ → List ℕ → Type 0
Adjacent a b [] = ⊥
Adjacent a b (x ∷ []) = ⊥
Adjacent a b (x ∷ y ∷ xs) = ((a ≡ x) × (b ≡ y)) ⊎ Adjacent a b (y ∷ xs)

-- Some producer is about to link `b` behind `a`.
abbrev pub Owed : (ℕ → Producer) → ℕ → ℕ → Type 0
Owed pc b a = (i : ℕ) × (pc i ≡ linking b a)

unfoldable pub Link : (ℕ → ℕ) → (ℕ → Producer) → ℕ → ℕ → Type 0
Link cell pc a b = (cell a ≡ b) ⊎ ((cell a ≡ 0) × Owed pc b a)

-- The nodes `q` follow `a`, by links that are there or owed, up to the node `last`.
unfoldable pub Chain : (ℕ → ℕ) → (ℕ → Producer) → ℕ → ℕ → List ℕ → Type 0
Chain cell pc last a [] = (cell a ≡ 0) × (last ≡ a)
Chain cell pc last a (b ∷ q) = Link cell pc a b × Chain cell pc last b q

abbrev pub Same : (ℕ → ℕ) → (ℕ → ℕ) → List ℕ → Type 0
Same cell cell' = All (λ x. cell' x ≡ cell x)

-- Links by other nodes than `p` that were owed are owed.
abbrev pub OwedBut : ℕ → (ℕ → Producer) → (ℕ → Producer) → Type 0
OwedBut p pc pc' = (b a : ℕ) → a ≢ p → Owed pc b a → Owed pc' b a

abbrev pub OwedAll : (ℕ → Producer) → (ℕ → Producer) → Type 0
OwedAll pc pc' = (b a : ℕ) → Owed pc b a → Owed pc' b a

pub Adjacent-Absent : (p b a : ℕ) (xs : List ℕ) → Adjacent p b xs → Absent a xs → a ≢ p
unfolding Adjacent
Adjacent-Absent p b a [] h k = absurd h
Adjacent-Absent p b a (x ∷ []) h k = absurd h
Adjacent-Absent p b a (x ∷ y ∷ xs) (inl (e, f)) (ne, _) = λ h. ne (h ∙ e)
Adjacent-Absent p b a (x ∷ y ∷ xs) (inr adj) (ne, absent) =
    Adjacent-Absent p b a (y ∷ xs) adj absent

-- Nobody stands before the first.
pub Adjacent-second : (p b a : ℕ) (xs : List ℕ) → Adjacent p b (a ∷ xs) → Absent b xs → ⊥
unfolding Adjacent
Adjacent-second p b a [] h k = h
Adjacent-second p b a (y ∷ xs) (inl (e, f)) (ne, _) = ne f
Adjacent-second p b a (y ∷ xs) (inr adj) (ne, absent) = Adjacent-second p b y xs adj absent

pub Adjacent-append : (p b : ℕ) (xs ys : List ℕ) → Adjacent p b xs → Adjacent p b (xs ++ ys)
unfolding Adjacent
Adjacent-append p b [] ys h = absurd h
Adjacent-append p b (x ∷ []) ys h = absurd h
Adjacent-append p b (x ∷ y ∷ xs) ys (inl e) = inl e
Adjacent-append p b (x ∷ y ∷ xs) ys (inr adj) = inr (Adjacent-append p b (y ∷ xs) ys adj)

pub Absent-append : (n : ℕ) (xs ys : List ℕ) → Absent n xs → Absent n ys → Absent n (xs ++ ys)
Absent-append n [] ys h k = k
Absent-append n (x ∷ xs) ys (ne, h) k = (ne, Absent-append n xs ys h k)

pub Absent-tail : (n : ℕ) (xs ys : List ℕ) → Absent n (xs ++ ys) → Absent n ys
Absent-tail n [] ys k = k
Absent-tail n (x ∷ xs) ys (ne, h) = Absent-tail n xs ys h

pub Nodup-snoc : (n : ℕ) (xs : List ℕ) → Nodup xs → Absent n xs → Nodup (xs ++ n ∷ [])
unfolding Nodup
Nodup-snoc n [] nd h = (tt, tt)
Nodup-snoc n (x ∷ xs) (a, nd) (ne, h) =
    (Absent-append x xs (n ∷ []) a ((λ e. ne (sym e)), tt), Nodup-snoc n xs nd h)

module _ (cell cell' : ℕ → ℕ) (pc pc' : ℕ → Producer) where
  Link-same :
      (a b : ℕ)
      → cell' a ≡ cell a
      → (Owed pc b a → Owed pc' b a)
      → Link cell pc a b
      → Link cell' pc' a b
  unfolding Link
  Link-same a b same owed (inl e) = inl (same ∙ e)
  Link-same a b same owed (inr (e, o)) = inr (same ∙ e, owed o)

  pub Chain-same :
      (last a : ℕ) (q : List ℕ)
      → Same cell cell' (a ∷ q)
      → OwedAll pc pc'
      → Chain cell pc last a q
      → Chain cell' pc' last a q
  unfolding Chain
  Chain-same last a [] (same, _) owed (e, l) = (same ∙ e, l)
  Chain-same last a (b ∷ q) (same, sames) owed (l, ls) =
      (Link-same a b same (owed b a) l, Chain-same last b q sames owed ls)

  -- The exchange of *tail by the producer of `n`.
  pub Chain-swap :
      (last a n : ℕ) (q : List ℕ)
      → Same cell cell' (a ∷ q)
      → OwedAll pc pc'
      → cell' n ≡ 0
      → Owed pc' n last
      → Chain cell pc last a q
      → Chain cell' pc' n a (q ++ n ∷ [])
  unfolding Chain Link
  Chain-swap last a n [] (same, _) owed zero_n o (e, l) =
      (inr (same ∙ e, subst (λ x. Owed pc' n x) l o), (zero_n, refl))
  Chain-swap last a n (b ∷ q) (same, sames) owed zero_n o (l, ls) =
      (Link-same a b same (owed b a) l, Chain-swap last b n q sames owed zero_n o ls)

  module _ (last p : ℕ) (else_ : (x : ℕ) → x ≢ p → cell' x ≡ cell x) (owed : OwedBut p pc pc') where
    -- Behind the node that is written, nothing changes.
    Chain-else :
        (a : ℕ) (q : List ℕ) → Absent p (a ∷ q) → Chain cell pc last a q → Chain cell' pc' last a q
    unfolding Chain
    Chain-else a [] (ne, _) (e, l) = (else_ a (λ h. ne (sym h)) ∙ e, l)
    Chain-else a (b ∷ q) (ne, absent) (l, ls) = (
      Link-same a b (else_ a (λ h. ne (sym h))) (owed b a (λ h. ne (sym h))) l,
      Chain-else b q absent ls,
    )

    -- The store of a link that was owed.
    pub Chain-link :
        (b a : ℕ) (q : List ℕ)
        → Adjacent p b (a ∷ q)
        → Nodup (a ∷ q)
        → cell' p ≡ b
        → Chain cell pc last a q
        → Chain cell' pc' last a q
    unfolding Chain Link Adjacent Nodup
    Chain-link b a [] h nd at l = absurd h
    Chain-link b a (y ∷ q) (inl (e, f)) (absent, nd) at (l, ls) = (
      inl (ap cell' (sym e) ∙ at ∙ f),
      Chain-else y q (subst (λ x. Absent x (y ∷ q)) (sym e) absent) ls,
    )
    Chain-link b a (y ∷ q) (inr adj) (absent, nd) at (l, ls) =
        let ne : a ≢ p = Adjacent-Absent p b a (y ∷ q) adj absent in
        (Link-same a y (else_ a ne) (owed y a ne) l, Chain-link b y q adj nd at ls)

-- The node that *tail holds is the last.
pub Chain-last :
    (cell : ℕ → ℕ) (pc : ℕ → Producer) (last a : ℕ) (q : List ℕ)
    → Chain cell pc last a q
    → Absent last (a ∷ q)
    → ⊥
unfolding Chain
Chain-last cell pc last a [] (e, l) (ne, _) = ne l
Chain-last cell pc last a (b ∷ q) (l, ls) (ne, absent) = Chain-last cell pc last b q ls absent

pub Chain-Adjacent :
    (cell : ℕ → ℕ) (pc : ℕ → Producer) (last a n : ℕ) (q : List ℕ)
    → Chain cell pc last a q
    → Adjacent last n (a ∷ (q ++ n ∷ []))
unfolding Chain Adjacent
Chain-Adjacent cell pc last a n [] (e, l) = inl (l, refl)
Chain-Adjacent cell pc last a n (b ∷ q) (l, ls) = inr (Chain-Adjacent cell pc last b n q ls)

pub Chain-cell :
    (cell : ℕ → ℕ) (pc : ℕ → Producer) (last a : ℕ) (q : List ℕ)
    → Chain cell pc last a q
    → cell last ≡ 0
unfolding Chain
Chain-cell cell pc last a [] (e, l) = ap cell l ∙ e
Chain-cell cell pc last a (b ∷ q) (l, ls) = Chain-cell cell pc last b q ls

pub Same-Absent :
    (f g : ℕ → ℕ) (p : ℕ) (xs : List ℕ) → ((x : ℕ) → x ≢ p → g x ≡ f x) → Absent p xs → Same f g xs
Same-Absent f g p [] h a = tt
Same-Absent f g p (x ∷ xs) h (ne, a) = (h x (λ e. ne (sym e)), Same-Absent f g p xs h a)
