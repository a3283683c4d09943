-- ===== src/Mpsc/Firsts.antt =====
-- libx/x/base/mpsc.c: the first nodes of the chain, as xMpscPop reads them.
use x.Base.{ℕ, ◌≢◌, ◌≡◌, refl, sym, subst, ap, ◌∙◌, inl, inr, List, [], ◌∷◌}
use x.Mpsc.{Producer, Absent}
use x.Mpsc.Chain.{Nodup, Link, Chain, Chain-last}
use x.Mpsc.Invariant.{Starts, Leads, Second}

-- The first two nodes of the chain.
module _ (links : ℕ → ℕ) (pc : ℕ → Producer) (last : ℕ) where
  pub Leads-head :
      (queue : List ℕ) → Chain links pc last 0 queue → links 0 ≢ 0 → Leads links queue (links 0)
  unfolding Chain Link Starts
  Leads-head [] (e, _) ne = absurd (ne e)
  Leads-head (b ∷ queue) (inl e, _) ne = (sym e, refl)
  Leads-head (b ∷ queue) (inr (e, _), _) ne = absurd (ne e)

  pub Second-next :
      (h : ℕ) (queue : List ℕ)
      → Chain links pc last 0 queue
      → Leads links queue h
      → links h ≢ 0
      → Second queue (links h)
  unfolding Chain Link Starts Second
  Second-next h [] c (l, _) ne = absurd l
  Second-next h (x ∷ []) (_, (e, _)) (same, _) ne = absurd (ne (ap links (sym same) ∙ e))
  Second-next h (x ∷ y ∷ queue) (_, (inl e, _)) (same, _) ne = sym e ∙ ap links same
  Second-next h (x ∷ y ∷ queue) (_, (inr (e, _), _)) (same, _) ne =
      absurd (ne (ap links (sym same) ∙ e))

  pub more_of :
      (h : ℕ) (queue : List ℕ)
      → Chain links pc last 0 queue
      → Leads links queue h
      → last ≢ h
      → (b : ℕ) × Second queue b
  unfolding Chain Link Starts Second
  more_of h [] c (l, _) ne = absurd l
  more_of h (x ∷ []) (_, (_, e)) (same, _) ne = absurd (ne (e ∙ same))
  more_of h (x ∷ y ∷ queue) c l ne = (y, refl)

  pub only_of :
      (h : ℕ) (queue : List ℕ)
      → Chain links pc last 0 queue
      → Leads links queue h
      → last ≡ h
      → Nodup queue
      → queue ≡ h ∷ []
  unfolding Chain Starts Nodup
  only_of h [] c (l, _) e nd = absurd l
  only_of h (x ∷ []) c (same, _) e nd = ap (λ (n : ℕ). n ∷ []) same
  only_of h (x ∷ y ∷ queue) (_, (_, c)) (same, _) e (absent, nd) =
      absurd (
        Chain-last links pc last y queue c
          (subst (λ n. Absent n (y ∷ queue)) (same ∙ sym e) absent))

pub node_of_lead :
    (links : ℕ → ℕ) (h : ℕ) (queue : List ℕ) → Leads links queue h → Absent 0 queue → h ≢ 0
unfolding Starts
node_of_lead links h [] (l, _) a = absurd l
node_of_lead links h (x ∷ queue) (same, _) (ne, _) = λ e. ne (sym e ∙ sym same)
