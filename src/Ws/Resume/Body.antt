-- ===== src/Ws/Resume/Body.antt =====
-- libx/x/http/ws_frame.c: the payload phase when more bytes follow.
use x.Base.{
  ℕ, ◌+◌, ◌-◌, ◌≤◌, ◌<◌, ◌≡◌, refl, sym, ap, ◌∙◌, inl, inr, List, [], ◌∷◌, ◌++◌, Bool, true, false,
  ◌&&◌, ◌||◌, not, Option, some, none, arith, ltb, ◌==◌, Bool-cases, length, length-append, take,
  drop, replicate, memcpy, min, take-all, length-eq-zero, length-drop, take-append_long,
  drop-append_long, take-append_over, drop-append_over,
}
use x.Ws.{
  complete, need_more, failed, Phase, header, len16, len64, mask, body, Parser, Flow, stop, go,
  ◌>>=◌, finish, fill, read_body, allocate, after_length, after_header, phases, is_control,
}
use x.Ws.Stable.{grow, goes, past_body, Stable}

-- A flow taken up when more bytes have come: the code calls the parser again if it was waiting.
abbrev pub resume : (ℕ → Bool) → List ℕ → Flow → Flow
resume malloc more (stop complete p io) = stop complete p (io ++ more)
resume malloc more (stop failed p io) = stop failed p (io ++ more)
resume malloc more (stop need_more p io) = phases malloc p.phase p (io ++ more)
resume malloc more (go p io) = go p (io ++ more)

settled :
    (malloc : ℕ → Bool) (more : List ℕ) (ok : Phase → Bool) (k : Parser → List ℕ → Flow) (m : Flow)
    → goes ok m ≡ true
    → ((p : Parser) (io : List ℕ)
        → ok p.phase ≡ true
        → k p (io ++ more) ≡ resume malloc more (k p io))
    → (grow more m >>= k) ≡ resume malloc more (m >>= k)
settled malloc more ok k (stop complete p io) o h = refl
settled malloc more ok k (stop need_more p io) o h = absurd (ground arith)
settled malloc more ok k (stop failed p io) o h = refl
settled malloc more ok k (go p io) o h = h p io o

pub bind-resume :
    (malloc : ℕ → Bool) (ok : Phase → Bool) (f k : Parser → List ℕ → Flow) (p : Parser)
    (io more : List ℕ)
    → Stable ok f p io more
    → phases malloc p.phase p (io ++ more) ≡ (f p (io ++ more) >>= k)
    → ((p : Parser) (io : List ℕ)
        → ok p.phase ≡ true
        → k p (io ++ more) ≡ resume malloc more (k p io))
    → (f p (io ++ more) >>= k) ≡ resume malloc more (f p io >>= k)
bind-resume malloc ok f k p io more (inl waits) entry h = rw waits (sym entry)
bind-resume malloc ok f k p io more (inr (same, o)) entry h =
    rw same (settled malloc more ok k (f p io) o h)

pub only_body : (ph : Phase) → past_body ph ≡ true → ph ≡ body
only_body header h = absurd (ground arith)
only_body len16 h = absurd (ground arith)
only_body len64 h = absurd (ground arith)
only_body mask h = absurd (ground arith)
only_body body h = refl

memcpy-append :
    (d : List ℕ) (pos : ℕ) (xs ys : List ℕ)
    → memcpy d pos (xs ++ ys) ≡ memcpy (memcpy d pos xs) (pos + length xs) ys
memcpy-append d pos [] ys = ap (λ (t : ℕ). memcpy d t ys) (omega arith)
memcpy-append d pos (x ∷ xs) ys =
    memcpy-append _ (pos + 1) xs ys
    ∙ ap (λ (t : ℕ). memcpy (memcpy d pos (x ∷ xs)) t ys) (omega arith)

finish-resume :
    (malloc : ℕ → Bool) (p : Parser) (io more : List ℕ)
    → finish p (io ++ more) ≡ resume malloc more (finish p io)
unfolding finish
finish-resume malloc p io more =
    elim (Bool-cases (is_control p.frame.opcode && ltb 125 p.frame.payload_len)) [
      | inl h ↦ rw h refl
      | inr h ↦ rw h refl
    ]

-- The payload phase that took all it had goes on where it stopped.
fill-more :
    (p : Parser) (bytes io more : List ℕ)
    → p.payload_read + length io < p.frame.payload_len
    → fill p bytes (io ++ more)
      ≡ fill
          (record p {
            frame = record p.frame { payload = some (memcpy bytes p.payload_read io) };
            payload_read = p.payload_read + length io;
          })
          (memcpy bytes p.payload_read io)
          more
unfolding fill
fill-more p bytes io more short =
    let len = p.frame.payload_len in
    let r = p.payload_read in
    let n = min (length more) (len - (r + length io)) in
    let m = min (length (io ++ more)) (len - r) in
    let e : m ≡ length io + n = omega (arith, length-append io more) in
    let er : r + m ≡ (r + length io) + n = omega arith in
    rw
      (
        er,
        take-append_over m n io more e,
        drop-append_over m n io more e,
        memcpy-append bytes r io (take n more),
      )
      refl

fill-short :
    (p : Parser) (bytes io : List ℕ)
    → p.payload_read + length io < p.frame.payload_len
    → fill p bytes io
      ≡ stop need_more
          (record p {
            frame = record p.frame { payload = some (memcpy bytes p.payload_read io) };
            payload_read = p.payload_read + length io;
          })
          []
unfolding fill
fill-short p bytes io short =
    let e : min (length io) (p.frame.payload_len - p.payload_read) ≡ length io = omega arith in
    let t : ltb (p.payload_read + length io) p.frame.payload_len ≡ true = ground arith in
    rw
      (
        e,
        t,
        take-all (length io) io (omega arith),
        length-eq-zero (drop (length io) io) (omega (arith, length-drop (length io) io)),
      )
      refl

fill-full :
    (malloc : ℕ → Bool) (p : Parser) (bytes io more : List ℕ)
    → p.frame.payload_len ≤ p.payload_read + length io
    → fill p bytes (io ++ more) ≡ resume malloc more (fill p bytes io)
unfolding fill
fill-full malloc p bytes io more full =
    let left = p.frame.payload_len - p.payload_read in
    let e : min (length io) left ≡ left = omega arith in
    let e' : min (length (io ++ more)) left ≡ left = omega (arith, length-append io more) in
    let t : ltb (p.payload_read + left) p.frame.payload_len ≡ false = ground arith in
    rw
      (
        e,
        e',
        t,
        take-append_long left io more (omega arith),
        drop-append_long left io more (omega arith),
      )
      (finish-resume malloc _ (drop left io) more)

fill-resume :
    (malloc : ℕ → Bool) (p : Parser) (bytes io more : List ℕ)
    → p.phase ≡ body
    → (p.frame.payload_len == 0) ≡ false
    → fill p bytes (io ++ more) ≡ resume malloc more (fill p bytes io)
unfolding phases after_header after_length read_body allocate
fill-resume malloc p bytes io more b pos =
    elim (Bool-cases (ltb (p.payload_read + length io) p.frame.payload_len)) [
      | inl short ↦
          let kept = memcpy bytes p.payload_read io in
          let waiting = record p {
            frame = record p.frame { payload = some kept };
            payload_read = p.payload_read + length io;
          } in
          let at_body : read_body malloc waiting more ≡ fill waiting kept more = rw pos refl in
          rw (fill-short p bytes io (ground arith)) (
            fill-more p bytes io more (ground arith)
            ∙ sym at_body
            ∙ ap (λ ph. phases malloc ph waiting more) (sym b))
      | inr full ↦ fill-full malloc p bytes io more (ground arith)
    ]

allocate-resume :
    (malloc : ℕ → Bool) (p : Parser) (block : Option (List ℕ)) (io more : List ℕ)
    → p.phase ≡ body
    → (p.frame.payload_len == 0) ≡ false
    → allocate malloc p block (io ++ more) ≡ resume malloc more (allocate malloc p block io)
unfolding allocate
allocate-resume malloc p (some bytes) io more b pos = fill-resume malloc p bytes io more b pos
allocate-resume malloc p none io more b pos =
    elim (Bool-cases (ltb 16777216 p.frame.payload_len || not (malloc p.frame.payload_len))) [
      | inl refused ↦ rw refused refl
      | inr granted ↦
          rw granted (fill-resume malloc _ (replicate p.frame.payload_len 0) io more b pos)
    ]

pub read_body-resume :
    (malloc : ℕ → Bool) (p : Parser) (io more : List ℕ)
    → p.phase ≡ body
    → read_body malloc p (io ++ more) ≡ resume malloc more (read_body malloc p io)
unfolding read_body
read_body-resume malloc p io more b = elim (Bool-cases (p.frame.payload_len == 0)) [
  | inl zero_len ↦ rw zero_len (finish-resume malloc _ io more)
  | inr some_len ↦ rw some_len (allocate-resume malloc p p.frame.payload io more b some_len)
]
