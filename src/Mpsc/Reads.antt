-- ===== src/Mpsc/Reads.antt =====
-- libx/x/base/mpsc.c: the loads of xMpscPop keep the invariant.
use x.Base.{
  ℕ, zero, suc, ◌≢◌, ◌≡◌, refl, sym, subst, ◌∙◌, inl, inr, List, ◌==◌, Bool-cases, if◌then◌else◌,
  arith,
}
use x.Mpsc.{Words, Producer, Consumer, called, loaded, alone, spinning, advancing, done}
use x.Mpsc.Chain.{Nodup}
use x.Mpsc.Invariant.{front, cell, gone, Leads, Second, Local, Inv, Inv-view, Nodup-queue}
use x.Mpsc.Firsts.{Leads-head, Second-next, node_of_lead}

pub cell-front :
    (m : Words) (c c' : Consumer)
    → front c' m.head ≡ front c m.head
    → (x : ℕ) → cell m c' x ≡ cell m c x
unfolding cell
cell-front m c c' e zero = e
cell-front m c c' e (suc x) = refl

pub cell-node : (m : Words) (c : Consumer) (h : ℕ) → h ≢ 0 → cell m c h ≡ m.next h
unfolding cell
cell-node m c zero ne = absurd (ne refl)
cell-node m c (suc h) ne = refl

module _ (m : Words) (pc : ℕ → Producer) (pushed popped : List ℕ) where
  abbrev View : Consumer → Type 0
  View c = Inv m pc c pushed popped

  -- A step that only reads.
  pub look :
      (c c' : Consumer)
      → gone c ≡ gone c'
      → front c' m.head ≡ front c m.head
      → (inv : View c) → Local (cell m c') inv.queue c'
      → View c'
  look c c' out e inv l = Inv-view m m pc c c' pushed popped refl (cell-front m c c' e) out inv l

  pub Inv-called : View called → View (if m.head == 0 then done 0 else loaded m.head)
  unfolding gone front cell Local
  Inv-called inv = elim (Bool-cases (m.head == 0)) [
    | inl h ↦ rw h (look called (done 0) refl refl inv tt)
    | inr h ↦ rw h (
        look called (loaded m.head) refl refl inv
          (Leads-head (cell m called) pc m.tail inv.queue inv.chain (λ e. ground arith)))
  ]

  module _ (h : ℕ) (c : Consumer) (inv : View c) (l : Leads (cell m c) inv.queue h) where
    pub lead : h ≢ 0
    unfolding Nodup
    lead = node_of_lead (cell m c) h inv.queue l (Nodup-queue (gone c) inv.queue inv.distinct).0

    next_of : cell m c h ≡ m.next h
    next_of = cell-node m c h lead

    succ_of : m.next h ≢ 0 → Second inv.queue (m.next h)
    succ_of ne =
        subst (Second inv.queue) next_of
          (Second-next (cell m c) pc m.tail h inv.queue inv.chain l (λ e. ne (sym next_of ∙ e)))

  pub Inv-loaded :
      (h : ℕ) → View (loaded h) → View (if m.next h == 0 then alone h else advancing h (m.next h))
  unfolding gone front cell Local
  Inv-loaded h inv = elim (Bool-cases (m.next h == 0)) [
    | inl e ↦ rw e (look (loaded h) (alone h) refl refl inv inv.local)
    | inr e ↦ rw e (
        look (loaded h) (advancing h (m.next h)) refl refl inv (
          inv.local,
          succ_of h (loaded h) inv inv.local (λ z. ground arith),
          next_of h (loaded h) inv inv.local,
        ))
  ]

  pub Inv-spinning :
      (h : ℕ)
      → View (spinning h)
      → View (if m.next h == 0 then spinning h else advancing h (m.next h))
  unfolding gone front cell Local
  Inv-spinning h inv = elim (Bool-cases (m.next h == 0)) [
    | inl e ↦ rw e inv
    | inr e ↦
        let l : Leads (cell m (spinning h)) inv.queue h = inv.local.0 in
        rw e (
          look (spinning h) (advancing h (m.next h)) refl refl inv
            (l, succ_of h (spinning h) inv l (λ z. ground arith), next_of h (spinning h) inv l))
  ]
