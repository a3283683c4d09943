-- ===== src/Mpsc/Others.antt =====
-- libx/x/base/mpsc.c: what a producer knows stays true while another one writes.
use x.Base.{
  ℕ, ◌≢◌, ◌≡◌, sym, subst, ap, ◌∙◌, inl, inr, List, [], ◌∷◌, ◌++◌, append_assoc, ◌==◌, ==_iff,
  Bool-cases, arith,
}
use x.Mpsc.{Producer, idle, entered, cleared, linking, Absent, node_of}
use x.Mpsc.Chain.{Nodup, Adjacent, Adjacent-Absent, Adjacent-append, Absent-append, Absent-tail}
use x.Mpsc.Invariant.{Ready, Nodup-queue}

pub zeros_of :
    (links links' : ℕ → ℕ) (n : ℕ)
    → links' n ≡ 0
    → ((x : ℕ) → x ≢ n → links' x ≡ links x)
    → (x : ℕ) → links x ≡ 0
    → links' x ≡ 0
zeros_of links links' n at else_ x e = elim (Bool-cases (x == n)) [
  | inl h ↦ ap links' ((==_iff x n).0 h) ∙ at
  | inr h ↦ else_ x (λ q. ground arith) ∙ e
]

-- A node joins the queue.
pub Ready-grow :
    (links links' : ℕ → ℕ) (out queue : List ℕ) (n : ℕ) (p : Producer)
    → ((x : ℕ) → links' x ≡ links x)
    → n ≢ node_of p
    → Ready links out queue p
    → Ready links' out (queue ++ n ∷ []) p
unfolding Ready
Ready-grow links links' out queue n idle same ne r = tt
Ready-grow links links' out queue n (entered x) same ne (nz, a) = (
  nz,
  subst (Absent x) (append_assoc out queue (n ∷ []))
      (Absent-append x (out ++ queue) (n ∷ []) a (λ e. ne (sym e), tt)),
)
Ready-grow links links' out queue n (cleared x) same ne ((nz, a), e) = (
  (
    nz,
    subst (Absent x) (append_assoc out queue (n ∷ []))
        (Absent-append x (out ++ queue) (n ∷ []) a (λ e. ne (sym e), tt)),
  ),
  same x ∙ e,
)
Ready-grow links links' out queue n (linking x prev) same ne (adj, e) =
    (Adjacent-append prev x (0 ∷ queue) (n ∷ []) adj, same prev ∙ e)

Adjacent-unique :
    (p b b' : ℕ) (xs : List ℕ) → Nodup xs → Adjacent p b xs → Adjacent p b' xs → b ≡ b'
unfolding Nodup Adjacent
Adjacent-unique p b b' [] nd h k = absurd h
Adjacent-unique p b b' (x ∷ []) nd h k = absurd h
Adjacent-unique p b b' (x ∷ y ∷ xs) nd (inl (_, e)) (inl (_, f)) = e ∙ sym f
Adjacent-unique p b b' (x ∷ y ∷ xs) (a, nd) (inl (e, _)) (inr k) =
    absurd (Adjacent-Absent p b' x (y ∷ xs) k a (sym e))
Adjacent-unique p b b' (x ∷ y ∷ xs) (a, nd) (inr h) (inl (e, _)) =
    absurd (Adjacent-Absent p b x (y ∷ xs) h a (sym e))
Adjacent-unique p b b' (x ∷ y ∷ xs) (a, nd) (inr h) (inr k) = Adjacent-unique p b b' (y ∷ xs) nd h k

Adjacent-first : (p b n : ℕ) (xs : List ℕ) → Adjacent p b xs → Absent n xs → p ≢ n
Adjacent-first p b n xs adj a = λ e. Adjacent-Absent p b n xs adj a (sym e)

-- The link behind `prev` is written by the producer that owes it.
pub Ready-linked :
    (links links' : ℕ → ℕ) (out queue : List ℕ) (n prev : ℕ) (p : Producer)
    → Nodup (0 ∷ (out ++ queue))
    → Adjacent prev n (0 ∷ queue)
    → ((x : ℕ) → x ≢ prev → links' x ≡ links x)
    → n ≢ node_of p
    → Ready links out queue p
    → Ready links' out queue p
unfolding Ready
Ready-linked links links' out queue n prev idle nd adj else_ ne r = tt
Ready-linked links links' out queue n prev (entered x) nd adj else_ ne r = r
Ready-linked links links' out queue n prev (cleared x) nd adj else_ ne ((nz, a), e) = (
  (nz, a),
  else_ x
        (λ same. Adjacent-first prev n x (0 ∷ queue) adj (nz, Absent-tail x out queue a) (sym same))
      ∙ e,
)
Ready-linked links links' out queue n prev (linking x prev') nd adj else_ ne (adj', e) = (
  adj',
  else_ prev' (λ same. ne (
        Adjacent-unique prev n x (0 ∷ queue) (Nodup-queue out queue nd) adj
          (subst (λ p. Adjacent p x (0 ∷ queue)) same adj')))
      ∙ e,
)
