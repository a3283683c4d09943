-- ===== src/Mpsc/Tests.antt =====
-- libx/x/base/mpsc.c: runs of two producers and the consumer, and the theorems at their states.
use x.Base.{
  ℕ, zero, suc, ◌≡◌, ◌≢◌, refl, inl, inr, List, [], ◌∷◌, ◌++◌, arith, ◌==◌, Bool-cases, false,
}
use x.Mpsc.{
  System, call_push, push, call_pop, pop, return, Reach, start, later, pending, push_next,
  push_step, pop_step, node_of, resting, called, done,
}
use x.Mpsc.Chain.{Nodup, Chain}
use x.Mpsc.Invariant.{cell, gone}
use x.Mpsc.Answers.{pop_alone, first, NoFalseNull}
use x.Mpsc.Owing.{walk}
use x.Mpsc.Safety.{fifo, linked_at_rest, spin_ends, released}

-- Thread 0 pushes node 1 up to the exchange, and thread 1 pushes node 2 up to the exchange.
record Run : Type 0 where
  last : System
  reach : Reach last

pushes : ℕ → Run → Run
pushes i r = record { last = _; reach = later r.reach (push i) }

pops : Run → Run
pops r = record { last = _; reach = later r.reach pop }

one-zero : ◌≢◌ {A = ℕ} 1 0
one-zero e = cc

one-two : ◌≢◌ {A = ℕ} 1 2
one-two e = cc

two-zero : ◌≢◌ {A = ℕ} 2 0
two-zero e = cc

two-one : ◌≢◌ {A = ℕ} 2 1
two-one e = cc

begun : Run
begun = record {
  last = _;
  reach = later (start (λ _. 9)) (call_push 0 1 refl one-zero tt (λ j. one-zero));
}

-- Node 1 has its exchange behind it, and *head is still NULL.
swapped : Run
unfolding begun push_step pop_step pushes pops
swapped = pushes 0 (pushes 0 begun)

calling : Run
unfolding begun swapped push_step pop_step pushes pops
calling = record { last = _; reach = later swapped.reach (call_pop refl) }

two_free : (j : ℕ) → 2 ≢ node_of (swapped.last.producers j)
unfolding begun swapped push_step pushes
two_free zero = two-one
two_free (suc j) = let e : (0 == suc j) ≡ false = ground arith in rw e two-zero

-- Thread 1 pushes node 2 up to its exchange, and thread 0 stores *head.
both : Run
unfolding begun swapped calling push_step pop_step pushes pops
both = pushes 0 (
    pushes 1 (
      pushes 1 (record {
        last = _;
        reach = later swapped.reach (call_push 1 2 refl two-zero (two-one, tt) two_free);
      })))

-- The consumer waits for the link of node 1.
waiting : Run
unfolding begun swapped calling both push_step pop_step pushes pops
waiting = pops (pops (pops (record { last = _; reach = later both.reach (call_pop refl) })))

-- Thread 1 stores it, and node 1 is returned.
returned : Run
unfolding begun swapped calling both waiting push_step pop_step pushes pops
returned =
    let r = pops (pops (pushes 1 waiting)) in
    record { last = _; reach = later r.reach (return 1 refl) }

-- Node 1 is returned, and node 2 is in the queue.
fifo_example :
    (queue : List ℕ) × (returned.last.pushed ≡ (1 ∷ []) ++ queue)
    × (pending returned.last ≡ queue)
    × Nodup (0 ∷ queue)
    × Chain
        (cell returned.last.words resting)
        returned.last.producers
        returned.last.words.tail
        0
        queue
    × NoFalseNull returned.last.words returned.last.producers resting queue
unfolding push_step pop_step pushes pops begun swapped calling both waiting returned gone
fifo_example = fifo returned.reach

linked_at_rest_example :
    (walk 5 returned.last.words.next returned.last.words.head ≡ 2 ∷ [])
    × ((pop_alone 4 returned.last.words called).1 ≡ done 2)
unfolding push_step pop_step pushes pops begun swapped calling both waiting returned first
linked_at_rest_example =
    linked_at_rest 5 returned.reach
      (λ i. elim (Bool-cases (0 == i)) [ inl h ↦ ground arith | inr h ↦ ground arith ]) refl
      (omega arith)

spin_ends_example : (i : ℕ) × ((push_next waiting.last i).words.next 1 ≢ 0)
unfolding push_step pop_step pushes pops begun swapped calling both waiting returned
spin_ends_example = spin_ends 1 waiting.reach refl refl

released_example : (push_next returned.last 0).words.next 1 ≡ returned.last.words.next 1
unfolding push_step pop_step pushes pops begun swapped calling both waiting returned
released_example = released 0 1 returned.reach one-zero (one-two, tt) one-zero
