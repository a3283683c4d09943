-- ===== src/Mpsc/Answers.antt =====
-- libx/x/base/mpsc.c: what xMpscPop answers.
use x.Base.{
  ℕ, zero, suc, ◌≢◌, ◌≡◌, refl, sym, ap, ◌∙◌, inl, inr, ◌⊎◌, List, [], ◌∷◌, ◌++◌, ◌==◌, Bool-cases,
  true, false, arith,
}
use x.Mpsc.{
  Words, Producer, idle, linking, Consumer, resting, called, loaded, alone, spinning, advancing,
  resetting, done, pop_step,
}
use x.Mpsc.Chain.{Nodup, Link, Chain}
use x.Mpsc.Invariant.{front, cell, gone, Local, Starts}
use x.Mpsc.Reads.{cell-node}
use x.Mpsc.Owing.{owed_first}

-- The consumer's operations with nothing in between.
pub pop_alone : ℕ → Words → Consumer → Words × Consumer
pop_alone zero m c = (m, c)
pop_alone (suc n) m c = let out = pop_step m c in pop_alone n out.0 out.1

-- The first node, or NULL.
unfoldable pub first : List ℕ → ℕ
first [] = 0
first (x ∷ xs) = x

-- The consumer is not about to answer NULL, or is past that, or nothing is in the queue, or some
-- producer is about to store *head.
abbrev pub NoFalseNull : Words → (ℕ → Producer) → Consumer → List ℕ → Type 0
NoFalseNull m pc c queue =
    ((pop_step m c).1 ≢ done 0)
    ⊎ ((c ≡ done 0) ⊎ ((queue ≡ []) ⊎ ((i : ℕ) × (n : ℕ) × (n ≢ 0) × (pc i ≡ linking n 0))))

Starts-nonzero : (h : ℕ) (queue : List ℕ) → Starts queue h → Nodup (0 ∷ queue) → h ≢ 0
unfolding Starts Nodup
Starts-nonzero h [] s nd = absurd s
Starts-nonzero h (x ∷ queue) s ((ne, _), _) = λ e. ne (sym e ∙ sym s)

pub answer-NoFalseNull :
    (m : Words) (pc : ℕ → Producer) (c : Consumer) (queue : List ℕ)
    → Local (cell m c) queue c
    → Chain (cell m c) pc m.tail 0 queue
    → Nodup (0 ∷ (gone c ++ queue))
    → NoFalseNull m pc c queue
unfolding pop_step Local gone front Nodup
answer-NoFalseNull m pc resting queue l chain nd = inl (λ e. cc)
answer-NoFalseNull m pc called queue l chain nd = elim (Bool-cases (m.head == 0)) [
  | inl e ↦ inr (inr (owed_first m called pc m.tail queue chain nd refl (ground arith)))
  | inr e ↦ rw e (inl (λ z. cc))
]
answer-NoFalseNull m pc (loaded h) queue l chain nd = elim (Bool-cases (m.next h == 0)) [
  | inl e ↦ rw e (inl (λ z. cc))
  | inr e ↦ rw e (inl (λ z. cc))
]
answer-NoFalseNull m pc (alone h) queue l chain nd = elim (Bool-cases (m.tail == h)) [
  | inl e ↦ rw e (inl (λ z. cc))
  | inr e ↦ rw e (inl (λ z. cc))
]
answer-NoFalseNull m pc (spinning h) queue l chain nd = elim (Bool-cases (m.next h == 0)) [
  | inl e ↦ rw e (inl (λ z. cc))
  | inr e ↦ rw e (inl (λ z. cc))
]
answer-NoFalseNull m pc (advancing h succ) queue ((starts, _), _, _) chain nd =
    let ne = Starts-nonzero h queue starts nd in inl (λ e. ne (let q = e in cc))
answer-NoFalseNull m pc (resetting h) queue l chain ((ne, _), _) =
    inl (λ e. ne (sym (let q = e in cc)))
answer-NoFalseNull m pc (done zero) queue l chain nd = inr (inl refl)
answer-NoFalseNull m pc (done (suc r)) queue l chain nd = inl (λ e. cc)

-- Where no producer is at work, xMpscPop answers the first node in four operations.
pub pop_alone-first :
    (m : Words) (pc : ℕ → Producer) (queue : List ℕ)
    → Chain (cell m resting) pc m.tail 0 queue
    → ((i : ℕ) → pc i ≡ idle)
    → Nodup (0 ∷ queue)
    → (pop_alone 4 m called).1 ≡ done (first queue)
unfolding pop_alone pop_step first Chain Link Nodup cell front
pop_alone-first m pc [] (e, _) quiet nd = let h : (m.head == 0) ≡ true = ground arith in rw h refl
pop_alone-first m pc (x ∷ queue) (inr (_, (i, o)), _) quiet nd = absurd (let q = quiet i in cc)
pop_alone-first m pc (x ∷ []) (inl e, (z, last)) quiet ((ne, _), _) =
    let node : m.next m.head ≡ 0 =
      ap m.next e ∙ sym (cell-node m resting x (λ z. ne (sym z))) ∙ z in
    let h : (m.head == 0) ≡ false = ground arith in
    let n : (m.next m.head == 0) ≡ true = ground arith in
    let t : (m.tail == m.head) ≡ true = ground arith in rw (h, n, t) (ap done e)
pop_alone-first m pc (x ∷ y ∷ queue) (inl e, (inr (_, (i, o)), _)) quiet nd =
    absurd (let q = quiet i in cc)
pop_alone-first m pc (x ∷ y ∷ queue) (inl e, (inl f, _)) quiet ((ne, (ny, _)), _) =
    let node : m.next m.head ≡ y =
      ap m.next e ∙ sym (cell-node m resting x (λ z. ne (sym z))) ∙ f in
    let h : (m.head == 0) ≡ false = ground arith in
    let n : (m.next m.head == 0) ≡ false = ground arith in rw (h, n) (ap done e)
