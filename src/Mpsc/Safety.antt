-- ===== src/Mpsc/Safety.antt =====
-- libx/x/base/mpsc.c: what holds however the threads are interleaved.
use x.Base.{ℕ, ◌≢◌, ◌≡◌, ◌≤◌, refl, sym, subst, ap, ◌∙◌, List, ◌∷◌, ◌++◌, arith, length}
use x.Mpsc.{
  System, Reach, pending, push_next, idle, resting, called, spinning, done, Absent, node_of,
}
use x.Mpsc.Chain.{Nodup, Chain, Absent-tail}
use x.Mpsc.Answers.{pop_alone, first, NoFalseNull, answer-NoFalseNull, pop_alone-first}
use x.Mpsc.Invariant.{front, cell, gone, Local, Nodup-queue}
use x.Mpsc.Reached.{pending-queue, Reach-Inv}
use x.Mpsc.Owing.{walk, linked, pending-nothing, push_step-next, Second-Owed, push_step-else}

-- In every interleaving, the pushed nodes, in the order of their exchanges of *tail, are those that
-- xMpscPop has returned, the one it has taken and is about to return, if any, and a queue, so that
-- the pending nodes are the last two. The queue has no NULL and no node twice, and follows *head up
-- to *tail by links that are stored or that a producer's next operation stores; where the consumer
-- is about to reset *head, *head counts as NULL if it still holds the node taken. The consumer is
-- not about to answer NULL, or is past that, unless the queue is empty or a producer's next
-- operation stores *head.
pub fifo :
    {s : System}
    → Reach s
    → (queue : List ℕ) × (s.pushed ≡ s.popped ++ (gone s.consumer ++ queue))
      × (pending s ≡ gone s.consumer ++ queue)
      × Nodup (0 ∷ (gone s.consumer ++ queue))
      × Chain (cell s.words s.consumer) s.producers s.words.tail 0 queue
      × NoFalseNull s.words s.producers s.consumer queue
fifo {s} r =
    let inv = Reach-Inv r in
    (
      inv.queue,
      inv.order,
      pending-queue s inv,
      inv.distinct,
      inv.chain,
      answer-NoFalseNull s.words s.producers s.consumer inv.queue inv.local inv.chain inv.distinct,
    )

-- When no producer is inside xMpscPush and the consumer is outside xMpscPop, the list that starts
-- at *head is that of the pending nodes, in their order, whatever bound above their number the
-- walk is given, and an xMpscPop with nothing in between answers the first of them, or NULL where
-- there is none, within four operations.
pub linked_at_rest :
    {s : System} (n : ℕ)
    → Reach s
    → ((i : ℕ) → s.producers i ≡ idle)
    → s.consumer ≡ resting
    → length (pending s) ≤ n
    → (walk n s.words.next s.words.head ≡ pending s)
      × ((pop_alone 4 s.words called).1 ≡ done (first (pending s)))
unfolding gone front
linked_at_rest {s} n r quiet rest le =
    let inv = Reach-Inv r in
    let all : pending s ≡ inv.queue = pending-nothing s inv (ap gone rest) in
    let chain =
      subst (λ c. Chain (cell s.words c) s.producers s.words.tail 0 inv.queue) rest inv.chain in
    let distinct = Nodup-queue (gone s.consumer) inv.queue inv.distinct in
    (
      linked s.words s.producers resting inv.queue n chain refl quiet distinct
            (let e = ap (λ (l : List ℕ). length l) all in omega arith)
          ∙ sym all,
      pop_alone-first s.words s.producers inv.queue chain quiet distinct
          ∙ ap (λ (l : List ℕ). done (first l)) (sym all),
    )

-- While the consumer spins behind a node whose link is NULL, some producer's next atomic operation
-- stores that link.
pub spin_ends :
    {s : System} (h : ℕ)
    → Reach s
    → s.consumer ≡ spinning h
    → s.words.next h ≡ 0
    → (i : ℕ) × ((push_next s i).words.next h ≢ 0)
unfolding Local
spin_ends {s} h r at e =
    let inv = Reach-Inv r in
    let (l, (b, more)) = subst (λ c. Local (cell s.words c) inv.queue c) at inv.local in
    let (i, n, nz, nh, o) =
      Second-Owed s.words (spinning h) s.producers s.words.tail h b inv.queue
        (subst (λ c. Chain (cell s.words c) s.producers s.words.tail 0 inv.queue) at inv.chain)
        (Nodup-queue (gone s.consumer) inv.queue inv.distinct) l more e in
    (i, λ z. nz (sym (push_step-next s.words (s.producers i) n h o nh) ∙ z))

-- The links of a node that is neither pending nor in the hands of the producer are not written by
-- the producer's next atomic operation.
pub released :
    {s : System} (i x : ℕ)
    → Reach s
    → x ≢ 0
    → Absent x (pending s)
    → x ≢ node_of (s.producers i)
    → (push_next s i).words.next x ≡ s.words.next x
released {s} i x r nz absent free =
    let inv = Reach-Inv r in
    push_step-else s.words (s.producers i) x (cell s.words s.consumer) (gone s.consumer) inv.queue
      (inv.ready i) nz
      (Absent-tail x (gone s.consumer) inv.queue (subst (Absent x) (pending-queue s inv) absent))
      free
