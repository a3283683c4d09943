-- ===== src/Mpsc/Owing.antt =====
-- libx/x/base/mpsc.c: what a chain whose links may be owed says of the memory.
use x.Base.{
  ℕ, zero, suc, ◌≢◌, ◌≡◌, ◌≤◌, refl, sym, ap, ◌∙◌, inl, inr, ◌⊎◌, List, [], ◌∷◌, ◌++◌, ◌==◌,
  Bool-cases, false, if◌then◌else◌, arith, length,
}
use x.Mpsc.{
  Words, System, pending, push_step, Producer, idle, entered, cleared, linking, Consumer, Absent,
  node_of,
}
use x.Mpsc.Chain.{Nodup, Link, Chain, Adjacent-Absent}
use x.Mpsc.Invariant.{front, cell, gone, Ready, Starts, Leads, Second}
use x.Mpsc.Reads.{cell-node}
use x.Mpsc.Reached.{Holds, pending-queue}

-- The nodes that a thread sees from `a` on, at most `n` of them.
pub walk : ℕ → (ℕ → ℕ) → ℕ → List ℕ
walk zero next a = []
walk (suc n) next a = let rest = walk n next (next a) in if a == 0 then [] else a ∷ rest

walk-node : (n : ℕ) (next : ℕ → ℕ) (a : ℕ) → a ≢ 0 → walk (suc n) next a ≡ a ∷ walk n next (next a)
unfolding walk
walk-node n next a ne = let e : (a == 0) ≡ false = ground arith in rw e refl

walk-nil : (n : ℕ) (next : ℕ → ℕ) → walk n next 0 ≡ []
unfolding walk
walk-nil zero next = refl
walk-nil (suc n) next = refl

Chain-walk :
    (n : ℕ) (links next : ℕ → ℕ) (pc : ℕ → Producer) (last a : ℕ) (queue : List ℕ)
    → ((b : ℕ) → b ≢ 0 → links b ≡ next b)
    → ((i : ℕ) → pc i ≡ idle)
    → Absent 0 queue
    → length queue ≤ n
    → Chain links pc last a queue
    → walk n next (links a) ≡ queue
unfolding Chain Link
Chain-walk n links next pc last a [] nodes quiet nz le (e, l) = ap (walk n next) e ∙ walk-nil n next
Chain-walk zero links next pc last a (b ∷ queue) nodes quiet nz le (l, c) = absurd (omega arith)
Chain-walk (suc n) links next pc last a (b ∷ queue) nodes quiet (nb, nz) le (inl e, c) =
    let ne : b ≢ 0 = λ z. nb (sym z) in
    ap (walk (suc n) next) e
    ∙ walk-node n next b ne
    ∙ ap (λ (x : ℕ). b ∷ walk n next x) (sym (nodes b ne))
    ∙ ap (◌∷◌ b) (Chain-walk n links next pc last b queue nodes quiet nz (omega arith) c)
Chain-walk (suc n) links next pc last a (b ∷ queue) nodes quiet nz le (inr (_, (i, e)), c) =
    absurd (let q = quiet i in cc)

pub linked :
    (m : Words) (pc : ℕ → Producer) (c : Consumer) (queue : List ℕ) (n : ℕ)
    → Chain (cell m c) pc m.tail 0 queue
    → front c m.head ≡ m.head
    → ((i : ℕ) → pc i ≡ idle)
    → Nodup (0 ∷ queue)
    → length queue ≤ n
    → walk n m.next m.head ≡ queue
unfolding Nodup cell
linked m pc c queue n chain same quiet nd le =
    ap (walk n m.next) (sym same)
    ∙ Chain-walk n (cell m c) m.next pc m.tail 0 queue (cell-node m c) quiet nd.0 le chain

pub pending-nothing : (s : System) (inv : Holds s) → gone s.consumer ≡ [] → pending s ≡ inv.queue
pending-nothing s inv e = pending-queue s inv ∙ ap (λ (l : List ℕ). l ++ inv.queue) e

-- The next atomic operation of a producer that links.
pub push_step-next :
    (m : Words) (p : Producer) (n prev : ℕ)
    → p ≡ linking n prev
    → prev ≢ 0
    → (push_step m p).0.next prev ≡ n
unfolding push_step
push_step-next m p n prev e ne =
    let k : (prev == 0) ≡ false = ground arith in
    ap (λ (q : Producer). (push_step m q).0.next prev) e ∙ rw k (ground arith)

pub Second-Owed :
    (m : Words) (c : Consumer) (pc : ℕ → Producer) (last h b : ℕ) (queue : List ℕ)
    → Chain (cell m c) pc last 0 queue
    → Nodup (0 ∷ queue)
    → Leads (cell m c) queue h
    → Second queue b
    → m.next h ≡ 0
    → (i : ℕ) × (n : ℕ) × (n ≢ 0) × (h ≢ 0) × (pc i ≡ linking n h)
unfolding Chain Link Nodup Starts Second
Second-Owed m c pc last h b [] chain nd (l, _) more e = absurd l
Second-Owed m c pc last h b (x ∷ []) chain nd l more e = absurd more
Second-Owed m c pc last h b (x ∷ y ∷ queue) (_, (inl f, _)) ((nx, (ny, _)), _) (same, _) more e =
    absurd (
      ny
        (sym e ∙ sym (cell-node m c h (λ z. nx (sym z ∙ sym same))) ∙ ap (cell m c) (sym same) ∙ f))
Second-Owed m c pc last h b (x ∷ y ∷ queue) (_, (inr (_, (i, o)), _)) ((nx, (ny, _)), _) (same, _)
      more e =
    (i, y, λ z. ny (sym z), λ z. nx (sym z ∙ sym same), o ∙ ap (linking y) same)

pub owed_first :
    (m : Words) (c : Consumer) (pc : ℕ → Producer) (last : ℕ) (queue : List ℕ)
    → Chain (cell m c) pc last 0 queue
    → Nodup (0 ∷ queue)
    → front c m.head ≡ m.head
    → m.head ≡ 0
    → (queue ≡ []) ⊎ ((i : ℕ) × (n : ℕ) × (n ≢ 0) × (pc i ≡ linking n 0))
unfolding Chain Link Nodup cell
owed_first m c pc last [] chain nd same e = inl refl
owed_first m c pc last (b ∷ queue) (inl f, _) ((nb, _), _) same e =
    absurd (nb (sym e ∙ sym same ∙ f))
owed_first m c pc last (b ∷ queue) (inr (_, (i, o)), _) ((nb, _), _) same e =
    inr (i, b, λ z. nb (sym z), o)

pub push_step-else :
    (m : Words) (p : Producer) (x : ℕ) (links : ℕ → ℕ) (out queue : List ℕ)
    → Ready links out queue p
    → x ≢ 0
    → Absent x queue
    → x ≢ node_of p
    → (push_step m p).0.next x ≡ m.next x
unfolding Ready push_step
push_step-else m idle x links out queue r nz a ne = refl
push_step-else m (entered n) x links out queue r nz a ne = ground arith
push_step-else m (cleared n) x links out queue r nz a ne = refl
push_step-else m (linking n prev) x links out queue (adj, _) nz a ne =
    let k : x ≢ prev = Adjacent-Absent prev n x (0 ∷ queue) adj (nz, a) in
    elim (Bool-cases (prev == 0)) [ inl e ↦ rw e refl | inr e ↦ rw e (ground arith) ]
