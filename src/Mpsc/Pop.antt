-- ===== src/Mpsc/Pop.antt =====
-- libx/x/base/mpsc.c: an atomic operation of xMpscPop keeps the invariant.
use x.Base.{
  ℕ, zero, suc, ◌≢◌, ◌≡◌, refl, sym, subst, ap, ◌∙◌, inl, inr, List, [], ◌∷◌, ◌++◌, append_assoc,
  ◌==◌, ==_iff, Bool-cases, false, if◌then◌else◌, arith,
}
use x.Mpsc.{
  Words, Producer, Consumer, resting, called, loaded, alone, spinning, advancing, resetting, done,
  node_of, as_node, pop_step,
}
use x.Mpsc.Chain.{Nodup, Link, Chain, Chain-same, Same-Absent}
use x.Mpsc.Invariant.{
  front, cell, gone, Ready, Starts, Second, Local, Inv, Inv-view, Same-all, Nodup-queue,
}
use x.Mpsc.Firsts.{more_of, only_of}
use x.Mpsc.Takes.{Ready-take, Ready-advance, Ready-returned}
use x.Mpsc.Reads.{cell-front, look, lead, Inv-called, Inv-loaded, Inv-spinning}

as_node-nonzero : (h : ℕ) → h ≢ 0 → h ∷ [] ≡ as_node h
as_node-nonzero zero ne = absurd (ne refl)
as_node-nonzero (suc h) ne = refl

cell-taken :
    (m : Words) (h : ℕ)
    → (if m.head == h then 0 else m.head) ≡ 0
    → (x : ℕ) → cell m (alone h) x ≡ 0
    → cell (record m { tail = 0 }) (resetting h) x ≡ 0
unfolding cell front
cell-taken m h e zero z = e
cell-taken m h e (suc x) z = z

cell-advanced :
    (m : Words) (h succ x : ℕ)
    → x ≢ 0
    → cell (record m { head = succ }) (done h) x ≡ cell m (advancing h succ) x
unfolding cell
cell-advanced m h succ zero ne = absurd (ne refl)
cell-advanced m h succ (suc x) ne = refl

cell-reset :
    (m : Words) (h : ℕ) (x : ℕ)
    → cell (record m { head = if m.head == h then 0 else m.head }) (done h) x
      ≡ cell m (resetting h) x
unfolding cell front
cell-reset m h zero = refl
cell-reset m h (suc x) = refl

module _ (m : Words) (pc : ℕ → Producer) (pushed popped : List ℕ) where
  Inv-missed :
      (h : ℕ)
      → (m.tail == h) ≡ false
      → Inv m pc (alone h) pushed popped
      → Inv m pc (spinning h) pushed popped
  unfolding gone front cell Local
  Inv-missed h ne inv = look m pc pushed popped (alone h) (spinning h) refl refl inv (
    inv.local,
    more_of (cell m (alone h)) pc m.tail h inv.queue inv.chain inv.local (λ e. ground arith),
  )

  Inv-taken :
      (h : ℕ)
      → m.tail ≡ h
      → Inv m pc (alone h) pushed popped
      → Inv (record m { tail = 0 }) pc (resetting h) pushed popped
  unfolding gone front cell Local Chain Nodup
  Inv-taken h at inv =
      let links : ℕ → ℕ = cell m (alone h) in
      let only : inv.queue ≡ h ∷ [] =
        only_of links pc m.tail h inv.queue inv.chain inv.local at inv.distinct.1 in
      let front_zero : (if m.head == h then 0 else m.head) ≡ 0 =
        (let e = inv.local.1 in ground arith) in
      let nz : h ≢ 0 = lead m pc pushed popped h (alone h) inv inv.local in
      record {
        queue = [];
        order = inv.order ∙ ap (λ (q : List ℕ). popped ++ q) only;
        chain = (front_zero, refl);
        distinct = subst (λ (q : List ℕ). Nodup (0 ∷ q)) only inv.distinct;
        ready = λ i.
            Ready-take links (cell (record m { tail = 0 }) (resetting h)) h inv.queue only
              (λ e. nz (sym inv.local.1 ∙ e)) (cell-taken m h front_zero) (pc i) (inv.ready i);
        own = inv.own;
        local = tt;
      }

  -- The store of *head.
  module _ (h succ : ℕ) where
    Inv-advanced_of :
        (queue : List ℕ)
        → pushed ≡ popped ++ queue
        → Chain (cell m (advancing h succ)) pc m.tail 0 queue
        → Nodup (0 ∷ queue)
        → ((i : ℕ) → Ready (cell m (advancing h succ)) [] queue (pc i))
        → ((i j : ℕ) → node_of (pc i) ≢ 0 → node_of (pc i) ≡ node_of (pc j) → i ≡ j)
        → Local (cell m (advancing h succ)) queue (advancing h succ)
        → Inv (record m { head = succ }) pc (done h) pushed popped
    unfolding gone front cell Local Chain Link Nodup Starts Second
    Inv-advanced_of [] order chain nd ready own ((l, _), _, _) = absurd l
    Inv-advanced_of (x ∷ []) order chain nd ready own (_, l, _) = absurd l
    Inv-advanced_of (x ∷ y ∷ queue) order (_, (_, chain)) ((nx, (ny, nz)), nd) ready own
          ((same, at), same', e) =
        let links : ℕ → ℕ = cell m (advancing h succ) in
        let links' : ℕ → ℕ = cell (record m { head = succ }) (done h) in
        let nh : h ≢ 0 = λ z. nx (sym z ∙ sym same) in
        let out : x ∷ [] ≡ as_node h = ap (λ (a : ℕ). a ∷ []) same ∙ as_node-nonzero h nh in
        let keep : (a : ℕ) → a ≢ 0 → links' a ≡ links a = cell-advanced m h succ in
        record {
          queue = y ∷ queue;
          order = order ∙ ap (λ (o : List ℕ). popped ++ (o ++ y ∷ queue)) out;
          chain = (
            inl (sym same'),
            Chain-same links links' pc pc m.tail y queue
                (Same-Absent links links' 0 (y ∷ queue) keep (ny, nz)) (λ b a o. o) chain,
          );
          distinct = subst (λ (o : List ℕ). Nodup (0 ∷ (o ++ y ∷ queue))) out ((nx, (ny, nz)), nd);
          ready = λ i.
              Ready-advance links links' x y queue (as_node h) out (λ z. nh (sym at ∙ z))
                (λ z. ny (sym z ∙ ap links same ∙ e ∙ sym same')) (ny, nz) keep (pc i) (ready i);
          own = own;
          local = tt;
        }

  Inv-resetting :
      (h : ℕ)
      → Inv m pc (resetting h) pushed popped
      → Inv (record m { head = if m.head == h then 0 else m.head }) pc (done h) pushed popped
  unfolding gone Local Nodup
  Inv-resetting h inv =
      let nz : h ≢ 0 = λ z. inv.distinct.0.0 (sym z) in
      Inv-view m (record m { head = if m.head == h then 0 else m.head }) pc (resetting h) (done h)
        pushed popped refl (cell-reset m h) (as_node-nonzero h nz) inv tt

-- An atomic operation of the consumer keeps the invariant.
pub Pop-Inv :
    (m : Words) (pc : ℕ → Producer) (c : Consumer) (pushed popped : List ℕ)
    → Inv m pc c pushed popped
    → Inv (pop_step m c).0 pc (pop_step m c).1 pushed popped
unfolding pop_step gone
Pop-Inv m pc resting pushed popped inv = inv
Pop-Inv m pc called pushed popped inv = Inv-called m pc pushed popped inv
Pop-Inv m pc (loaded h) pushed popped inv = Inv-loaded m pc pushed popped h inv
Pop-Inv m pc (alone h) pushed popped inv = elim (Bool-cases (m.tail == h)) [
  | inl e ↦ rw e (Inv-taken m pc pushed popped h ((==_iff m.tail h).0 e) inv)
  | inr e ↦ rw e (Inv-missed m pc pushed popped h e inv)
]
Pop-Inv m pc (spinning h) pushed popped inv = Inv-spinning m pc pushed popped h inv
Pop-Inv m pc (advancing h succ) pushed popped inv =
    Inv-advanced_of m pc pushed popped h succ inv.queue inv.order inv.chain inv.distinct inv.ready
      inv.own inv.local
Pop-Inv m pc (resetting h) pushed popped inv = Inv-resetting m pc pushed popped h inv
Pop-Inv m pc (done r) pushed popped inv = inv

cell-returned : (m : Words) (r x : ℕ) → cell m resting x ≡ cell m (done r) x
unfolding front
cell-returned m r = cell-front m (done r) resting refl

-- The return of xMpscPop.
pub Inv-returned :
    (m : Words) (pc : ℕ → Producer) (pushed popped : List ℕ) (r : ℕ)
    → Inv m pc (done r) pushed popped
    → Inv m pc resting pushed (popped ++ as_node r)
unfolding gone Local
Inv-returned m pc pushed popped r inv =
    let links : ℕ → ℕ = cell m (done r) in
    let links' : ℕ → ℕ = cell m resting in
    let same : (x : ℕ) → links' x ≡ links x = cell-returned m r in
    record {
      queue = inv.queue;
      order = inv.order ∙ sym (append_assoc popped (as_node r) inv.queue);
      chain =
          Chain-same links links' pc pc m.tail 0 inv.queue
            (Same-all links links' same (0 ∷ inv.queue)) (λ b a o. o) inv.chain;
      distinct = Nodup-queue (as_node r) inv.queue inv.distinct;
      ready = λ i. Ready-returned links links' (as_node r) inv.queue (pc i) same (inv.ready i);
      own = inv.own;
      local = tt;
    }
