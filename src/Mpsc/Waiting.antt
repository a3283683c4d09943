-- ===== src/Mpsc/Waiting.antt =====
-- libx/x/base/mpsc.c: what the consumer has read stays true while producers write.
use x.Base.{ℕ, ◌≢◌, ◌≡◌, sym, ap, ◌∙◌, List, [], ◌∷◌, ◌++◌, All}
use x.Mpsc.{Consumer, resting, called, loaded, alone, spinning, advancing, resetting, done, Absent}
use x.Mpsc.Chain.{Same}
use x.Mpsc.Invariant.{Starts, Leads, Second, Local}

-- A step that writes no link that a waiting consumer has seen.
module _ (links links' : ℕ → ℕ) where
  abbrev Kept : List ℕ → Type 0
  Kept = All (λ x. links x ≢ 0 → links' x ≡ links x)

  Leads-Kept :
      (queue : List ℕ) (h : ℕ)
      → Absent 0 queue
      → Kept (0 ∷ queue)
      → Leads links queue h
      → Leads links' queue h
  unfolding Starts
  Leads-Kept [] h nz kept (l, _) = absurd l
  Leads-Kept (x ∷ queue) h (nz, _) (kept, _) (l, e) = (l, kept (λ z. nz (sym z ∙ e ∙ sym l)) ∙ e)

  pub Local-Kept :
      (queue : List ℕ) (c : Consumer)
      → Absent 0 queue
      → Kept (0 ∷ queue)
      → Local links queue c
      → Local links' queue c
  unfolding Local Starts Second
  Local-Kept queue resting nz kept l = tt
  Local-Kept queue called nz kept l = tt
  Local-Kept queue (loaded h) nz kept l = Leads-Kept queue h nz kept l
  Local-Kept queue (alone h) nz kept l = Leads-Kept queue h nz kept l
  Local-Kept queue (spinning h) nz kept (l, more) = (Leads-Kept queue h nz kept l, more)
  Local-Kept [] (advancing h succ) nz kept (l, none, _) = absurd none
  Local-Kept (x ∷ []) (advancing h succ) nz kept (l, none, _) = absurd none
  Local-Kept (x ∷ y ∷ queue) (advancing h succ) nz kept ((same, at), same', e) =
      let to_y : links x ≡ y = ap links same ∙ e ∙ sym same' in
      (
        Leads-Kept (x ∷ y ∷ queue) h nz kept (same, at),
        same',
        ap links' (sym same) ∙ kept.1.0 (λ z. nz.1.0 (sym z ∙ to_y)) ∙ ap links same ∙ e,
      )
  Local-Kept queue (resetting h) nz kept l = tt
  Local-Kept queue (done r) nz kept l = tt

Starts-append : (queue : List ℕ) (n h : ℕ) → Starts queue h → Starts (queue ++ n ∷ []) h
unfolding Starts
Starts-append [] n h l = absurd l
Starts-append (x ∷ queue) n h l = l

Second-append : (queue : List ℕ) (n b : ℕ) → Second queue b → Second (queue ++ n ∷ []) b
unfolding Second
Second-append [] n b l = absurd l
Second-append (x ∷ []) n b l = absurd l
Second-append (x ∷ y ∷ queue) n b l = l

pub Local-append :
    (links : ℕ → ℕ) (queue : List ℕ) (n : ℕ) (c : Consumer)
    → Local links queue c
    → Local links (queue ++ n ∷ []) c
unfolding Local
Local-append links queue n resting l = tt
Local-append links queue n called l = tt
Local-append links queue n (loaded h) (l, e) = (Starts-append queue n h l, e)
Local-append links queue n (alone h) (l, e) = (Starts-append queue n h l, e)
Local-append links queue n (spinning h) ((l, e), (b, more)) =
    ((Starts-append queue n h l, e), (b, Second-append queue n b more))
Local-append links queue n (advancing h succ) ((l, e), more, f) =
    ((Starts-append queue n h l, e), Second-append queue n succ more, f)
Local-append links queue n (resetting h) l = tt
Local-append links queue n (done r) l = tt

pub Kept-Same :
    (links links' : ℕ → ℕ) (xs : List ℕ)
    → Same links links' xs
    → All (λ x. links x ≢ 0 → links' x ≡ links x) xs
Kept-Same links links' [] s = tt
Kept-Same links links' (x ∷ xs) (e, s) = (λ _. e, Kept-Same links links' xs s)
