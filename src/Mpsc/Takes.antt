-- ===== src/Mpsc/Takes.antt =====
-- libx/x/base/mpsc.c: what a producer knows stays true while the consumer takes a node off.
use x.Base.{ℕ, ◌≢◌, ◌≡◌, sym, subst, ap, ◌∙◌, inl, inr, List, [], ◌∷◌, ◌++◌}
use x.Mpsc.{Producer, idle, entered, cleared, linking, Absent}
use x.Mpsc.Chain.{Adjacent, Absent-tail, Adjacent-Absent}
use x.Mpsc.Invariant.{Ready}

-- The compare-exchange of *tail leaves no producer that links.
pub Ready-take :
    (links links' : ℕ → ℕ) (h : ℕ) (queue : List ℕ)
    → queue ≡ h ∷ []
    → links 0 ≢ 0
    → ((x : ℕ) → links x ≡ 0 → links' x ≡ 0)
    → (p : Producer) → Ready links [] queue p
    → Ready links' (h ∷ []) [] p
unfolding Ready Adjacent
Ready-take links links' h queue only ne zeros idle r = tt
Ready-take links links' h queue only ne zeros (entered n) r =
    subst (λ (q : List ℕ). Absent n (0 ∷ q)) only r
Ready-take links links' h queue only ne zeros (cleared n) (a, e) =
    (subst (λ (q : List ℕ). Absent n (0 ∷ q)) only a, zeros n e)
Ready-take links links' h queue only ne zeros (linking n prev) (adj, e) =
    elim (subst (λ (q : List ℕ). Adjacent prev n (0 ∷ q)) only adj) [
      | inl (first, _) ↦ absurd (ne (ap links (sym first) ∙ e))
      | inr none ↦ absurd none
    ]

-- The store of *head takes the first node off.
pub Ready-advance :
    (links links' : ℕ → ℕ) (x y : ℕ) (queue out : List ℕ)
    → x ∷ [] ≡ out
    → links 0 ≢ 0
    → links x ≢ 0
    → Absent 0 (y ∷ queue)
    → ((a : ℕ) → a ≢ 0 → links' a ≡ links a)
    → (p : Producer) → Ready links [] (x ∷ y ∷ queue) p
    → Ready links' out (y ∷ queue) p
unfolding Ready Adjacent
Ready-advance links links' x y queue out o ne ne' nz same idle r = tt
Ready-advance links links' x y queue out o ne ne' nz same (entered n) r =
    subst (λ (l : List ℕ). Absent n (0 ∷ (l ++ y ∷ queue))) o r
Ready-advance links links' x y queue out o ne ne' nz same (cleared n) ((nz_n, a), e) =
    (subst (λ (l : List ℕ). Absent n (0 ∷ (l ++ y ∷ queue))) o (nz_n, a), same n nz_n ∙ e)
Ready-advance links links' x y queue out o ne ne' nz same (linking n prev) (inl (first, _), e) =
    absurd (ne (ap links (sym first) ∙ e))
Ready-advance links links' x y queue out o ne ne' nz same (linking n prev)
      (inr (inl (at_x, _)), e) =
    absurd (ne' (ap links (sym at_x) ∙ e))
Ready-advance links links' x y queue out o ne ne' nz same (linking n prev) (inr (inr adj), e) =
    (inr adj, same prev (λ z. Adjacent-Absent prev n 0 (y ∷ queue) adj nz (sym z)) ∙ e)

-- The return of xMpscPop.
pub Ready-returned :
    (links links' : ℕ → ℕ) (out queue : List ℕ) (p : Producer)
    → ((x : ℕ) → links' x ≡ links x)
    → Ready links out queue p
    → Ready links' [] queue p
unfolding Ready
Ready-returned links links' out queue idle same r = tt
Ready-returned links links' out queue (entered n) same (nz, a) = (nz, Absent-tail n out queue a)
Ready-returned links links' out queue (cleared n) same ((nz, a), e) =
    ((nz, Absent-tail n out queue a), same n ∙ e)
Ready-returned links links' out queue (linking n prev) same (adj, e) = (adj, same prev ∙ e)
