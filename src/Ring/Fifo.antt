-- ===== src/Ring/Fifo.antt =====
-- A valid ring is a first-in first-out queue of at most `cap` bytes: each function of ring.c does
-- to the contents what the queue's operation does, and so does every sequence of calls.
use x.Base.{
  ℕ, ◌-◌, ◌≡◌, refl, sym, ap, ap₂, ◌∙◌, inl, inr, List, [], ◌∷◌, ◌++◌, Bool, Option, some, min,
  arith, ltb, ◌==◌, if◌then◌else◌, Bool-cases, length, take, drop, sub_size, add_size, slice,
  length-slice, length-take, slice-eq-take, take-min, drop-min, append-nil,
}
use x.Ring.{
  Ring, len, capacity, writable, is_empty, is_full, reset, write, read, peek, discard, copy_in,
  copy_out,
}
use x.Ring.Bounds.{IsValid, used, contents, cap_word}
use x.Ring.Copy.{copy_out-eq-gather}
use x.Ring.Cursors.{take-gather, length-contents, read_past, written}

-- The calls a client makes, and what each returns.
pub data Op : Type 0 where
  put : List ℕ → Op
  get : ℕ → Op
  look : ℕ → Op
  skip : ℕ → Op
  clear : Op
  size : Op
  room : Op
  limit : Op
  empty : Op
  full : Op

pub data Reply : Type 0 where
  count : ℕ → Reply
  data_out : List ℕ → Reply
  done : Reply
  flag : Bool → Reply

-- A queue of at most `cap` bytes.
queue_step : ℕ → List ℕ → Op → Reply × List ℕ
queue_step cap q (put src) =
    (count (min (length src) (cap - length q)), q ++ take (cap - length q) src)
queue_step cap q (get n) = (data_out (take n q), drop n q)
queue_step cap q (look n) = (data_out (take n q), q)
queue_step cap q (skip n) = (count (min n (length q)), drop n q)
queue_step cap q clear = (done, [])
queue_step cap q size = (count (length q), q)
queue_step cap q room = (count (cap - length q), q)
queue_step cap q limit = (count cap, q)
queue_step cap q empty = (flag (length q == 0), q)
queue_step cap q full = (flag (length q == cap), q)

unfoldable pub queue_run : ℕ → List ℕ → List Op → List Reply
unfolding queue_step
queue_run cap q [] = []
queue_run cap q (op ∷ ops) = let (reply, q') = queue_step cap q op in reply ∷ queue_run cap q' ops

-- The same calls of ring.c.
ring_step : Option Ring → Op → Reply × Option Ring
ring_step r (put src) = let (n, r') = write r src in (count n, r')
ring_step r (get n) = let (out, r') = read r n in (data_out out, r')
ring_step r (look n) = (data_out (peek r n), r)
ring_step r (skip n) = let (m, r') = discard r n in (count m, r')
ring_step r clear = (done, reset r)
ring_step r size = (count (len r), r)
ring_step r room = (count (writable r), r)
ring_step r limit = (count (capacity r), r)
ring_step r empty = (flag (is_empty r), r)
ring_step r full = (flag (is_full r), r)

unfoldable pub ring_run : Option Ring → List Op → List Reply
unfolding ring_step
ring_run r [] = []
ring_run r (op ∷ ops) = let (reply, r') = ring_step r op in reply ∷ ring_run r' ops

module _ {r : Ring} (v : IsValid r) where
  -- The result of a call: a valid ring of the same capacity that holds `q`.
  abbrev Holds : List ℕ → Ring → Type 0
  Holds q r' = IsValid r' × (r'.cap ≡ r.cap) × (contents r' ≡ q)

  -- The value that both clamps of ring.c compute.
  clamp : (a b : ℕ) → (if ltb a b then a else b) ≡ min b a
  clamp a b = ground arith

  write_nothing :
      (src : List ℕ)
      → min (length src) (r.cap - used r) ≡ 0
      → contents r ≡ contents r ++ take (r.cap - used r) src
  write_nothing src e =
      sym (append-nil (contents r))
      ∙ ap (λ (n : ℕ). contents r ++ take n src) (sym e)
      ∙ ap (λ (bs : List ℕ). contents r ++ bs) (take-min src (r.cap - used r))

  -- xRingBufferWrite appends what fits, in order, and returns its length.
  pub write_refines :
      (src : List ℕ)
      → (r' : Ring) × (write (some r) src ≡ (min (length src) (r.cap - used r), some r'))
        × Holds (contents r ++ take (r.cap - used r) src) r'
  unfolding write
  write_refines src =
      let n = min (length src) (r.cap - used r) in
      let free : sub_size r.cap (used r) ≡ r.cap - used r = omega (arith, v.bounded, cap_word v) in
      let clamped : (if ltb (sub_size r.cap (used r)) (length src)
            then sub_size r.cap (used r)
            else length src)
          ≡ n =
        clamp (sub_size r.cap (used r)) (length src) ∙ ap (min (length src)) free in
      let copied = length-slice src 0 n in
      let (valid, held) = written v (slice src 0 n) (omega (arith, copied, v.bounded)) in
      rw clamped (elim (Bool-cases (length src == 0)) [
        | inl nothing ↦
            let e : n ≡ 0 = ground arith in
            rw nothing (r, ap (λ (m : ℕ). (m, some r)) (sym e), (v, refl, write_nothing src e))
        | inr some_bytes ↦ rw some_bytes (elim (Bool-cases (n == 0)) [
          | inl no_room ↦
              let e : n ≡ 0 = ground arith in
              rw no_room (r, ap (λ (m : ℕ). (m, some r)) (sym e), (v, refl, write_nothing src e))
          | inr fits ↦ rw fits (
            record r { head = add_size r.head n; bytes = copy_in r (slice src 0 n) },
            refl,
            (
              rw copied at valid,
              refl,
              (rw copied at held)
                  ∙ ap (λ (bs : List ℕ). contents r ++ bs)
                      (slice-eq-take src n (omega arith) ∙ take-min src (r.cap - used r)),
            ),
          )
        ])
      ])

  pub out_prefix : (want : ℕ) → copy_out r want ≡ take want (contents r)
  out_prefix want = copy_out-eq-gather v want ∙ sym (take-gather r.bytes r.cap r.tail want (used r))

  drop-used : (want : ℕ) → drop (min (used r) want) (contents r) ≡ drop want (contents r)
  drop-used want =
      ap (λ (n : ℕ). drop (min n want) (contents r)) (sym (length-contents r))
      ∙ drop-min (contents r) want

  -- xRingBufferRead returns the oldest bytes and removes them.
  pub read_refines :
      (want : ℕ)
      → (r' : Ring) × (read (some r) want ≡ (take want (contents r), some r'))
        × Holds (drop want (contents r)) r'
  unfolding read
  read_refines want =
      let len_out : length (copy_out r want) ≡ min (used r) want =
        ap length (out_prefix want)
        ∙ length-take want (contents r)
        ∙ omega (arith, length-contents r) in
      let (valid, held) = read_past v (min (used r) want) (omega arith) in
      (
        record r { tail = add_size r.tail (min (used r) want) },
        ap₂ (λ (out : List ℕ) (n : ℕ). (out, some (record r { tail = add_size r.tail n })))
            (out_prefix want) len_out,
        (valid, refl, held ∙ drop-used want),
      )

  -- xRingBufferDiscard removes the oldest bytes and returns their number.
  pub discard_refines :
      (n : ℕ)
      → (r' : Ring) × (discard (some r) n ≡ (min n (used r), some r'))
        × Holds (drop n (contents r)) r'
  unfolding discard
  discard_refines n =
      let clamped = clamp (used r) n in
      let (valid, held) = read_past v (min n (used r)) (omega arith) in
      let order : min n (used r) ≡ min (used r) n = omega arith in
      rw clamped (
        record r { tail = add_size r.tail (min n (used r)) },
        refl,
        (valid, refl, held ∙ ap (λ (m : ℕ). drop m (contents r)) order ∙ drop-used n),
      )

  -- The queries tell of the contents, and change nothing.
  queried :
      {a b : Reply}
      → a ≡ b
      → (r' : Ring) × (◌≡◌ {A = Reply × Option Ring} (a, some r) (b, some r'))
        × Holds (contents r) r'
  queried e = (r, ap (λ x. (x, some r)) e, (v, refl, refl))

  writable_room : sub_size r.cap (used r) ≡ r.cap - length (contents r)
  writable_room = omega (arith, length-contents r, v.bounded, cap_word v)

  no_bytes : (r.head == r.tail) ≡ (length (contents r) == 0)
  no_bytes = let l = length-contents r in let h = v.head_word in let t = v.tail_word in ground arith

-- A step of a valid ring is the step of the queue that it holds.
step_refines :
    {r : Ring} (v : IsValid r) (op : Op)
    → let (reply, q) = queue_step r.cap (contents r) op in
      (r' : Ring) × (ring_step (some r) op ≡ (reply, some r')) × Holds v q r'
unfolding queue_step ring_step peek reset len capacity writable is_empty is_full
step_refines {r} v (put src) =
    let (r', e, held) = write_refines v src in
    rw (length-contents r) (r', ap (λ (x : ℕ × Option Ring). (count x.0, x.1)) e, held)
step_refines {r} v (get n) =
    let (r', e, held) = read_refines v n in
    (r', ap (λ (x : List ℕ × Option Ring). (data_out x.0, x.1)) e, held)
step_refines {r} v (look n) =
    (r, ap (λ (out : List ℕ). (data_out out, some r)) (out_prefix v n), (v, refl, refl))
step_refines {r} v (skip n) =
    let (r', e, held) = discard_refines v n in
    rw (length-contents r) (r', ap (λ (x : ℕ × Option Ring). (count x.0, x.1)) e, held)
step_refines {r} v size = queried v (ap count (sym (length-contents r)))
step_refines {r} v room = queried v (ap count (writable_room v))
step_refines {r} v limit = queried v refl
step_refines {r} v empty = queried v (ap flag (no_bytes v))
step_refines {r} v full = queried v (ap (λ (n : ℕ). flag (n == r.cap)) (sym (length-contents r)))
step_refines {r} v clear = (record r { head = 0; tail = 0 }, refl, (cleared, refl, refl))
  where
    cleared : IsValid (record r { head = 0; tail = 0 })
    cleared = record {
      level = v.level;
      word = v.word;
      power = v.power;
      masked = v.masked;
      room = v.room;
      head_word = omega arith;
      tail_word = omega arith;
      bounded = omega arith;
    }

-- No sequence of writes, reads, peeks, discards, resets and queries tells a valid ring from the
-- bounded queue of its contents.
pub run_refines :
    (ops : List Op) {r : Ring}
    → IsValid r
    → ring_run (some r) ops ≡ queue_run r.cap (contents r) ops
unfolding ring_run queue_run
run_refines [] v = refl
run_refines (op ∷ ops) {r} v =
    let (r', e, (valid, cap, held)) = step_refines v op in
    rw e (
      ap (◌∷◌ (queue_step r.cap (contents r) op).0)
        (run_refines ops valid ∙ ap₂ (λ (c : ℕ) (q : List ℕ). queue_run c q ops) cap held))
