-- ===== src/Mpsc/Push.antt =====
-- libx/x/base/mpsc.c: an atomic operation of xMpscPush keeps the invariant.
use x.Base.{
  ℕ, ◌≢◌, ◌≡◌, refl, sym, subst, ap, ◌∙◌, inl, inr, List, [], ◌∷◌, ◌++◌, append_assoc, append-nil,
}
use mathlib.Core.Path.{fun_ext}
use x.Mpsc.{
  Words, Producer, idle, entered, cleared, linking, Consumer, Absent, update, node_of, swaps, link,
  push_step,
}
use x.Mpsc.Chain.{
  Nodup, Adjacent, Chain, Chain-same, Chain-swap, Chain-link, Chain-Adjacent, Chain-cell, Same,
  Nodup-snoc, Adjacent-second, Same-Absent, Absent-tail,
}
use x.Mpsc.Threads.{update-at, update-cases, Owed-update, each, own-keep, own-drop}
use x.Mpsc.Others.{zeros_of, Ready-grow, Ready-linked}
use x.Mpsc.Waiting.{Local-Kept, Local-append, Kept-Same}
use x.Mpsc.Invariant.{
  cell, gone, Ready, Inv, Nodup-queue, Ready-links, Same-all, cell-at, cell-else, cell-tail,
}
use x.Mpsc.Links.{front_of, link-at, link-else, link-tail, kept_of}

module _ (m : Words) (pc : ℕ → Producer) (c : Consumer) (pushed popped : List ℕ) (i : ℕ) where
  own_at :
      (inv : Inv m pc c pushed popped) (n : ℕ) (p : Producer)
      → pc i ≡ p
      → node_of p ≡ n
      → n ≢ 0
      → (j : ℕ) → n ≡ node_of (pc j)
      → i ≡ j
  own_at inv n p at e nz j f =
      let same : node_of (pc i) ≡ n = ap node_of at ∙ e in
      inv.own i j (λ z. nz (sym same ∙ z)) (same ∙ f)

  -- `node->next = NULL`.
  Inv-clear :
      (n : ℕ)
      → pc i ≡ entered n
      → Inv m pc c pushed popped
      → Inv (record m { next = update m.next n 0 }) (update pc i (cleared n)) c pushed popped
  unfolding Ready Nodup
  Inv-clear n at inv =
      let links : ℕ → ℕ = cell m c in
      let links' : ℕ → ℕ = cell (record m { next = update m.next n 0 }) c in
      let absent : Absent n (0 ∷ (gone c ++ inv.queue)) =
        subst (Ready links (gone c) inv.queue) at (inv.ready i) in
      let at_n : links' n ≡ 0 = cell-at m c n 0 absent.0 in
      let else_ : (x : ℕ) → x ≢ n → links' x ≡ links x = cell-else m c n 0 in
      let same : Same links links' (0 ∷ inv.queue) =
        Same-Absent links links' n (0 ∷ inv.queue) else_
          (absent.0, Absent-tail n (gone c) inv.queue absent.1) in
      record {
        queue = inv.queue;
        order = inv.order;
        chain =
            Chain-same links links' pc (update pc i (cleared n)) m.tail 0 inv.queue same
              (λ b a. Owed-update pc i (cleared n) b a (λ e. let q = at in cc)) inv.chain;
        distinct = inv.distinct;
        ready =
            each (Ready links' (gone c) inv.queue) pc i (cleared n) (absent, at_n)
              (λ j ne.
                Ready-links links links' (gone c) inv.queue (pc j)
                  (zeros_of links links' n at_n else_) (inv.ready j));
        own = own-keep pc i (cleared n) (entered n) at refl inv.own;
        local =
            Local-Kept links links' inv.queue c (Nodup-queue (gone c) inv.queue inv.distinct).0
              (Kept-Same links links' (0 ∷ inv.queue) same) inv.local;
      }

  -- The exchange of *tail.
  Inv-swap :
      (n : ℕ)
      → pc i ≡ cleared n
      → Inv m pc c pushed popped
      → Inv (record m { tail = n }) (update pc i (linking n m.tail)) c (pushed ++ n ∷ []) popped
  unfolding Ready Nodup
  Inv-swap n at inv =
      let out : List ℕ = gone c in
      let q : List ℕ = inv.queue in
      let links : ℕ → ℕ = cell m c in
      let links' : ℕ → ℕ = cell (record m { tail = n }) c in
      let pc' : ℕ → Producer = update pc i (linking n m.tail) in
      let r : Absent n (0 ∷ (out ++ q)) × (links n ≡ 0) =
        subst (Ready links out q) at (inv.ready i) in
      let assoc : out ++ q ++ n ∷ [] ≡ out ++ (q ++ n ∷ []) = append_assoc out q (n ∷ []) in
      let same : Same links links' (0 ∷ q) = Same-all links links' (cell-tail m c n) (0 ∷ q) in
      record {
        queue = q ++ n ∷ [];
        order =
            ap (λ (l : List ℕ). l ++ n ∷ []) inv.order
            ∙ append_assoc popped (out ++ q) (n ∷ [])
            ∙ ap (λ (l : List ℕ). popped ++ l) assoc;
        chain =
            Chain-swap links links' pc pc' m.tail 0 n q same
              (λ b a. Owed-update pc i (linking n m.tail) b a (λ e. let k = at in cc))
              (cell-tail m c n n ∙ r.1) (i, update-at pc i (linking n m.tail)) inv.chain;
        distinct =
            subst (λ (l : List ℕ). Nodup (0 ∷ l)) assoc
              (Nodup-snoc n (0 ∷ (out ++ q)) inv.distinct r.0);
        ready =
            each (Ready links' out (q ++ n ∷ [])) pc i (linking n m.tail)
              (
                Chain-Adjacent links pc m.tail 0 n q inv.chain,
                cell-tail m c n m.tail ∙ Chain-cell links pc m.tail 0 q inv.chain,
              )
              (λ j ne.
                Ready-grow links links' out q n (pc j) (cell-tail m c n)
                  (λ e. ne (own_at inv n (cleared n) at refl r.0.0 j e)) (inv.ready j));
        own = own-keep pc i (linking n m.tail) (cleared n) at refl inv.own;
        local = Local-append links' q n c (
            Local-Kept links links' q c (Nodup-queue out q inv.distinct).0
              (Kept-Same links links' (0 ∷ q) same) inv.local);
      }

  -- The store of the link that the exchange owes.
  Inv-link :
      (n prev : ℕ)
      → pc i ≡ linking n prev
      → Inv m pc c pushed popped
      → Inv (link m n prev) (update pc i idle) c pushed popped
  unfolding Ready Nodup
  Inv-link n prev at inv =
      let out : List ℕ = gone c in
      let q : List ℕ = inv.queue in
      let links : ℕ → ℕ = cell m c in
      let links' : ℕ → ℕ = cell (link m n prev) c in
      let nd : Nodup (0 ∷ q) = Nodup-queue out q inv.distinct in
      let r : Adjacent prev n (0 ∷ q) × (links prev ≡ 0) =
        subst (Ready links out q) at (inv.ready i) in
      let at_prev : links' prev ≡ n = link-at m c n prev (front_of c q n prev inv.distinct r.0) in
      let else_ : (x : ℕ) → x ≢ prev → links' x ≡ links x = link-else m c n prev in
      let nz : n ≢ 0 = λ z. Adjacent-second prev n 0 q r.0 (subst (λ x. Absent x q) (sym z) nd.0) in
      record {
        queue = q;
        order = inv.order;
        chain =
            subst (λ last. Chain links' (update pc i idle) last 0 q) (sym (link-tail m n prev))
              (Chain-link links links' pc (update pc i idle) m.tail prev else_
                (λ b a ne. Owed-update pc i idle b a (λ e. ne (let k = at in cc))) n 0 q r.0 nd
                at_prev inv.chain);
        distinct = inv.distinct;
        ready = each (Ready links' out q) pc i idle tt (λ j ne.
            Ready-linked links links' out q n prev (pc j) inv.distinct r.0 else_
              (λ e. ne (own_at inv n (linking n prev) at refl nz j e)) (inv.ready j));
        own = own-drop pc i inv.own;
        local =
            Local-Kept links links' q c nd.0
              (kept_of links links' (0 ∷ q) (λ x ne. else_ x (λ same. ne (ap links same ∙ r.1))))
              inv.local;
      }

update-same : (pc : ℕ → Producer) (i : ℕ) (p : Producer) → pc i ≡ p → pc ≡ update pc i p
update-same pc i p at = fun_ext (λ j.
    elim (update-cases pc i j p) as (λ _. pc j ≡ update pc i p j) [
      | inl (ij, e) ↦ ap pc (sym ij) ∙ at ∙ sym e
      | inr (ij, e) ↦ sym e
    ])

Inv-nil :
    (m : Words) (pc : ℕ → Producer) (c : Consumer) (pushed popped : List ℕ)
    → Inv m pc c pushed popped
    → Inv m pc c (pushed ++ []) popped
Inv-nil m pc c pushed popped inv =
    subst (λ (l : List ℕ). Inv m pc c l popped) (sym (append-nil pushed)) inv

-- An atomic operation of a producer keeps the invariant.
pub Push-Inv :
    (m : Words) (pc : ℕ → Producer) (c : Consumer) (pushed popped : List ℕ) (i : ℕ) (p : Producer)
    → pc i ≡ p
    → Inv m pc c pushed popped
    → Inv (push_step m p).0 (update pc i (push_step m p).1) c (pushed ++ swaps p) popped
unfolding push_step
Push-Inv m pc c pushed popped i idle at inv =
    Inv-nil m (update pc i idle) c pushed popped
      (subst (λ p. Inv m p c pushed popped) (update-same pc i idle at) inv)
Push-Inv m pc c pushed popped i (entered n) at inv =
    Inv-nil _ _ c pushed popped (Inv-clear m pc c pushed popped i n at inv)
Push-Inv m pc c pushed popped i (cleared n) at inv = Inv-swap m pc c pushed popped i n at inv
Push-Inv m pc c pushed popped i (linking n prev) at inv =
    Inv-nil _ _ c pushed popped (Inv-link m pc c pushed popped i n prev at inv)
