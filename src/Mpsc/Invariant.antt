-- ===== src/Mpsc/Invariant.antt =====
-- libx/x/base/mpsc.c: what holds between any two atomic operations.
use x.Base.{
  ℕ, zero, suc, ◌≢◌, ◌≡◌, refl, sym, subst, ap, ◌∙◌, List, [], ◌∷◌, ◌++◌, ◌==◌, if◌then◌else◌,
  arith,
}
use x.Mpsc.{
  Words, Producer, idle, entered, cleared, linking, Consumer, resting, called, loaded, alone,
  spinning, advancing, resetting, done, Absent, update, node_of, as_node,
}
use x.Mpsc.Chain.{Nodup, Adjacent, Chain, Chain-same, Same}

-- *head, or NULL when the consumer is about to reset it.
unfoldable pub front : Consumer → ℕ → ℕ
front (resetting h) head = if head == h then 0 else head
front resting head = head
front called head = head
front (loaded h) head = head
front (alone h) head = head
front (spinning h) head = head
front (advancing h succ) head = head
front (done r) head = head

-- The links: *head is that of NULL.
unfoldable pub cell : Words → Consumer → ℕ → ℕ
cell m c zero = front c m.head
cell m c (suc a) = m.next (suc a)

-- The node that has left the queue and is not returned yet.
unfoldable pub gone : Consumer → List ℕ
gone (resetting h) = h ∷ []
gone (done r) = as_node r
gone resting = []
gone called = []
gone (loaded h) = []
gone (alone h) = []
gone (spinning h) = []
gone (advancing h succ) = []

unfoldable pub Ready : (ℕ → ℕ) → List ℕ → List ℕ → Producer → Type 0
Ready links out queue idle = Unit
Ready links out queue (entered n) = Absent n (0 ∷ (out ++ queue))
Ready links out queue (cleared n) = Absent n (0 ∷ (out ++ queue)) × (links n ≡ 0)
Ready links out queue (linking n prev) = Adjacent prev n (0 ∷ queue) × (links prev ≡ 0)

-- The queue starts with the node `h`, and *head holds it.
unfoldable pub Starts : List ℕ → ℕ → Type 0
Starts [] h = ⊥
Starts (x ∷ queue) h = x ≡ h

abbrev pub Leads : (ℕ → ℕ) → List ℕ → ℕ → Type 0
Leads links queue h = Starts queue h × (links 0 ≡ h)

unfoldable pub Second : List ℕ → ℕ → Type 0
Second [] b = ⊥
Second (x ∷ []) b = ⊥
Second (x ∷ y ∷ queue) b = y ≡ b

unfoldable pub Local : (ℕ → ℕ) → List ℕ → Consumer → Type 0
Local links queue resting = Unit
Local links queue called = Unit
Local links queue (loaded h) = Leads links queue h
Local links queue (alone h) = Leads links queue h
Local links queue (spinning h) = Leads links queue h × ((b : ℕ) × Second queue b)
Local links queue (advancing h succ) = Leads links queue h × Second queue succ × (links h ≡ succ)
Local links queue (resetting h) = Unit
Local links queue (done r) = Unit

pub record Inv (m : Words) (pc : ℕ → Producer) (c : Consumer) (pushed popped : List ℕ)
    : Type 0 where
  pub queue : List ℕ
  pub order : pushed ≡ popped ++ (gone c ++ queue)
  pub chain : Chain (cell m c) pc m.tail 0 queue
  pub distinct : Nodup (0 ∷ (gone c ++ queue))
  pub ready : (i : ℕ) → Ready (cell m c) (gone c) queue (pc i)
  pub own : (i j : ℕ) → node_of (pc i) ≢ 0 → node_of (pc i) ≡ node_of (pc j) → i ≡ j
  pub local : Local (cell m c) queue c

pub Absent-Nodup : (n : ℕ) (out queue : List ℕ) → Nodup (n ∷ (out ++ queue)) → Absent n queue
unfolding Nodup
Absent-Nodup n [] queue (a, nd) = a
Absent-Nodup n (x ∷ out) queue ((ne, a), (b, nd)) = Absent-Nodup n out queue (a, nd)

pub Nodup-tail : (out queue : List ℕ) → Nodup (out ++ queue) → Nodup queue
unfolding Nodup
Nodup-tail [] queue nd = nd
Nodup-tail (x ∷ out) queue (a, nd) = Nodup-tail out queue nd

-- The queue with NULL before it holds no node twice.
pub Nodup-queue : (out queue : List ℕ) → Nodup (0 ∷ (out ++ queue)) → Nodup (0 ∷ queue)
unfolding Nodup
Nodup-queue out queue nd = (Absent-Nodup 0 out queue nd, Nodup-tail out queue nd.1)

pub Same-all : (f g : ℕ → ℕ) → ((x : ℕ) → g x ≡ f x) → (xs : List ℕ) → Same f g xs
Same-all f g h [] = tt
Same-all f g h (x ∷ xs) = (h x, Same-all f g h xs)

-- Links that are NULL stay NULL.
pub Ready-links :
    (links links' : ℕ → ℕ) (out queue : List ℕ) (p : Producer)
    → ((x : ℕ) → links x ≡ 0 → links' x ≡ 0)
    → Ready links out queue p
    → Ready links' out queue p
unfolding Ready
Ready-links links links' out queue idle zeros r = tt
Ready-links links links' out queue (entered n) zeros r = r
Ready-links links links' out queue (cleared n) zeros (a, e) = (a, zeros n e)
Ready-links links links' out queue (linking n prev) zeros (a, e) = (a, zeros prev e)

-- A step that leaves the links, the tail and the queue as they are.
pub Inv-view :
    (m m' : Words) (pc : ℕ → Producer) (c c' : Consumer) (pushed popped : List ℕ)
    → m'.tail ≡ m.tail
    → ((x : ℕ) → cell m' c' x ≡ cell m c x)
    → gone c ≡ gone c'
    → (inv : Inv m pc c pushed popped) → Local (cell m' c') inv.queue c'
    → Inv m' pc c' pushed popped
Inv-view m m' pc c c' pushed popped tail same out inv l = record {
  queue = inv.queue;
  order = inv.order ∙ ap (λ (o : List ℕ). popped ++ (o ++ inv.queue)) out;
  chain =
      subst (λ last. Chain (cell m' c') pc last 0 inv.queue) (sym tail)
        (Chain-same (cell m c) (cell m' c') pc pc m.tail 0 inv.queue
          (Same-all _ _ same (0 ∷ inv.queue)) (λ b a o. o) inv.chain);
  distinct = subst (λ (o : List ℕ). Nodup (0 ∷ (o ++ inv.queue))) out inv.distinct;
  ready = λ i.
      Ready-links (cell m c) (cell m' c') (gone c') inv.queue (pc i) (λ x e. same x ∙ e)
        (subst (λ (o : List ℕ). Ready (cell m c) o inv.queue (pc i)) out (inv.ready i));
  own = inv.own;
  local = l;
}

-- The write of the link of a node.
pub cell-at :
    (m : Words) (c : Consumer) (n v : ℕ)
    → n ≢ 0
    → cell (record m { next = update m.next n v }) c n ≡ v
unfolding cell
cell-at m c zero v ne = absurd (ne refl)
cell-at m c (suc n) v ne = ground arith

pub cell-else :
    (m : Words) (c : Consumer) (n v x : ℕ)
    → x ≢ n
    → cell (record m { next = update m.next n v }) c x ≡ cell m c x
unfolding cell
cell-else m c n v zero ne = refl
cell-else m c n v (suc x) ne = ground arith

-- The write of *head.
pub cell-head :
    (m : Words) (c : Consumer) (v x : ℕ) → x ≢ 0 → cell (record m { head = v }) c x ≡ cell m c x
unfolding cell
cell-head m c v zero ne = absurd (ne refl)
cell-head m c v (suc x) ne = refl

pub cell-tail : (m : Words) (c : Consumer) (v x : ℕ) → cell (record m { tail = v }) c x ≡ cell m c x
unfolding cell
cell-tail m c v zero = refl
cell-tail m c v (suc x) = refl
