-- ===== src/Mpsc.antt =====
-- libx/x/base/mpsc.c: the queue of many producers and one consumer, an atomic operation at a time.
-- A node is its address, and 0 is NULL. The operations take effect in one order, as they do under
-- acquire and release on the words that they share.
pub mod Chain
pub mod Invariant
pub mod Threads
pub mod Waiting
pub mod Others
pub mod Links
pub mod Push
pub mod Firsts
pub mod Takes
pub mod Reads
pub mod Pop
pub mod Reached
pub mod Owing
pub mod Answers
pub mod Safety
mod Tests
use x.Base.{
  ℕ, zero, suc, ◌≢◌, ◌≡◌, List, [], ◌∷◌, ◌++◌, Bool, ◌==◌, if◌then◌else◌, All, length, drop,
}

-- The words that the threads share: *head, *tail, and the next of every node.
pub record Words : Type 0 where
  pub head : ℕ
  pub tail : ℕ
  pub next : ℕ → ℕ

abbrev pub update {ℓ} : {A : Type ℓ} → (ℕ → A) → ℕ → A → ℕ → A
update f i a j = if i == j then a else f j

-- Where a producer stands in xMpscPush, with the node it pushes.
pub data Producer : Type 0 where
  idle : Producer
  entered : (node : ℕ) → Producer  -- before `node->next = NULL`
  cleared : (node : ℕ) → Producer  -- before the exchange of *tail
  linking : (node : ℕ) → (prev : ℕ) → Producer  -- before the store of `_tail->next` or *head

-- The next atomic operation of a producer.
abbrev pub link : Words → ℕ → ℕ → Words
link m node prev =
    if prev == 0 then record m { head = node } else record m { next = update m.next prev node }

pub push_step : Words → Producer → Words × Producer
push_step m idle = (m, idle)
push_step m (entered node) = (record m { next = update m.next node 0 }, cleared node)
push_step m (cleared node) = (record m { tail = node }, linking node m.tail)
push_step m (linking node prev) = (link m node prev, idle)

-- Where the consumer stands in xMpscPop.
pub data Consumer : Type 0 where
  resting : Consumer
  called : Consumer  -- before the load of *head
  loaded : (node : ℕ) → Consumer  -- before the first load of `_head->next`
  alone : (node : ℕ) → Consumer  -- before the compare-exchange of *tail
  spinning : (node : ℕ) → Consumer  -- before a load of `_head->next` in the loop
  advancing : (node : ℕ) → (succ : ℕ) → Consumer  -- before the store of *head
  resetting : (node : ℕ) → Consumer  -- before the compare-exchange of *head
  done : (result : ℕ) → Consumer  -- before the return

-- The next atomic operation of the consumer.
pub pop_step : Words → Consumer → Words × Consumer
pop_step m resting = (m, resting)
pop_step m called = (m, if m.head == 0 then done 0 else loaded m.head)
pop_step m (loaded h) = (m, if m.next h == 0 then alone h else advancing h (m.next h))
pop_step m (alone h) = if m.tail == h then (record m { tail = 0 }, resetting h) else (m, spinning h)
pop_step m (spinning h) = (m, if m.next h == 0 then spinning h else advancing h (m.next h))
pop_step m (advancing h succ) = (record m { head = succ }, done h)
pop_step m (resetting h) = (record m { head = if m.head == h then 0 else m.head }, done h)
pop_step m (done r) = (m, done r)

-- xMpscEmpty
pub mpsc_empty : Words → Bool
mpsc_empty m = m.head == 0

-- The threads over the words, with the nodes in the order of their exchanges of *tail, and the
-- nodes that xMpscPop has returned.
pub record System : Type 0 where
  pub words : Words
  pub producers : ℕ → Producer
  pub consumer : Consumer
  pub pushed : List ℕ
  pub popped : List ℕ

abbrev pub swaps : Producer → List ℕ
swaps idle = []
swaps (entered node) = []
swaps (cleared node) = node ∷ []
swaps (linking node prev) = []

abbrev pub as_node : ℕ → List ℕ
as_node zero = []
as_node (suc r) = suc r ∷ []

-- The node a producer works on, or 0.
abbrev pub node_of : Producer → ℕ
node_of idle = 0
node_of (entered node) = node
node_of (cleared node) = node
node_of (linking node prev) = node

abbrev pub Absent : ℕ → List ℕ → Type 0
Absent n = All (λ x. n ≢ x)

-- The nodes pushed and not returned yet.
abbrev pub pending : System → List ℕ
pending s = drop (length s.popped) s.pushed

abbrev pub push_next : System → ℕ → System
push_next s i =
    let out = push_step s.words (s.producers i) in
    record s {
      words = out.0;
      producers = update s.producers i out.1;
      pushed = s.pushed ++ swaps (s.producers i);
    }

abbrev pub pop_next : System → System
pop_next s = let out = pop_step s.words s.consumer in record s { words = out.0; consumer = out.1 }

-- A step of one thread. A node that is pushed is in no other producer's hands and not in the queue.
pub data Step (s : System) : System → Type 0 where
  call_push :
      (i node : ℕ)
      → s.producers i ≡ idle
      → node ≢ 0
      → Absent node (pending s)
      → ((j : ℕ) → node ≢ node_of (s.producers j))
      → Step s (record s { producers = update s.producers i (entered node) })
  push : (i : ℕ) → Step s (push_next s i)
  call_pop : s.consumer ≡ resting → Step s (record s { consumer = called })
  pop : Step s (pop_next s)
  return :
      (r : ℕ)
      → s.consumer ≡ done r
      → Step s (record s { consumer = resting; popped = s.popped ++ as_node r })

-- *head and *tail are NULL at first; the nodes hold anything.
abbrev pub init : (ℕ → ℕ) → System
init next = record {
  words = record { head = 0; tail = 0; next = next };
  producers = λ _. idle;
  consumer = resting;
  pushed = [];
  popped = [];
}

pub data Reach : System → Type 0 where
  start : (next : ℕ → ℕ) → Reach (init next)
  later : {s t : System} → Reach s → Step s t → Reach t
