-- ===== src/Mpsc/Reached.antt =====
-- libx/x/base/mpsc.c: every reachable state satisfies the invariant.
use x.Base.{ℕ, ◌≢◌, ◌≡◌, refl, subst, ap, ◌∙◌, List, [], ◌∷◌, ◌++◌, length, drop, drop-append}
use x.Mpsc.{
  System, Step, call_push, push, call_pop, pop, return, Reach, start, later, pending, init, idle,
  entered, resting, called, Absent, update, node_of,
}
use x.Mpsc.Chain.{Nodup, Chain, Chain-same}
use x.Mpsc.Threads.{Owed-update, each, own-update}
use x.Mpsc.Invariant.{front, cell, gone, Ready, Local, Inv, Same-all}
use x.Mpsc.Push.{Push-Inv}
use x.Mpsc.Pop.{Pop-Inv, Inv-returned}
use x.Mpsc.Reads.{look}

abbrev pub Holds : System → Type 0
Holds s = Inv s.words s.producers s.consumer s.pushed s.popped

pub pending-queue : (s : System) (inv : Holds s) → pending s ≡ gone s.consumer ++ inv.queue
pending-queue s inv =
    ap (λ (l : List ℕ). drop (length s.popped) l) inv.order
    ∙ drop-append s.popped (gone s.consumer ++ inv.queue)

Inv-called_push :
    (s : System) (i n : ℕ)
    → s.producers i ≡ idle
    → n ≢ 0
    → Absent n (pending s)
    → ((j : ℕ) → n ≢ node_of (s.producers j))
    → Holds s
    → Inv s.words (update s.producers i (entered n)) s.consumer s.pushed s.popped
unfolding Ready
Inv-called_push s i n at nz absent free inv =
    let links : ℕ → ℕ = cell s.words s.consumer in
    record {
      queue = inv.queue;
      order = inv.order;
      chain =
          Chain-same links links s.producers (update s.producers i (entered n)) s.words.tail 0
            inv.queue (Same-all links links (λ x. refl) (0 ∷ inv.queue))
            (λ b a. Owed-update s.producers i (entered n) b a (λ e. let q = at in cc)) inv.chain;
      distinct = inv.distinct;
      ready =
          each (Ready links (gone s.consumer) inv.queue) s.producers i (entered n)
            (nz, subst (Absent n) (pending-queue s inv) absent) (λ j ne. inv.ready j);
      own = own-update s.producers i (entered n) inv.own (λ ne j ij. free j);
      local = inv.local;
    }

start-Inv : (next : ℕ → ℕ) → Holds (init next)
unfolding gone Chain Nodup Ready Local cell front
start-Inv next = record {
  queue = [];
  order = refl;
  chain = (refl, refl);
  distinct = (tt, tt);
  ready = λ i. tt;
  own = λ i j ne e. absurd (ne refl);
  local = tt;
}

Step-Inv : (s t : System) → Step s t → Holds s → Holds t
unfolding gone front Local
Step-Inv s _ (call_push i n at nz absent free) inv = Inv-called_push s i n at nz absent free inv
Step-Inv s _ (push i) inv =
    Push-Inv s.words s.producers s.consumer s.pushed s.popped i (s.producers i) refl inv
Step-Inv s _ (call_pop at) inv =
    look s.words s.producers s.pushed s.popped resting called refl refl
      (subst (λ c. Inv s.words s.producers c s.pushed s.popped) at inv) tt
Step-Inv s _ pop inv = Pop-Inv s.words s.producers s.consumer s.pushed s.popped inv
Step-Inv s _ (return r at) inv =
    Inv-returned s.words s.producers s.pushed s.popped r
      (subst (λ c. Inv s.words s.producers c s.pushed s.popped) at inv)

pub Reach-Inv : {s : System} → Reach s → Holds s
Reach-Inv (start next) = start-Inv next
Reach-Inv (later r st) = Step-Inv _ _ st (Reach-Inv r)
