-- ===== src/Ws/Resume.antt =====
-- libx/x/http/ws_frame.c: a frame that arrives piece by piece.
mod Body
use x.Base.{
  ℕ, zero, suc, ◌+◌, ◌-◌, ◌≤◌, ◌<◌, ◌≡◌, refl, sym, ap, ap₂, ◌∙◌, inl, inr, ◌⊎◌, List, [], ◌∷◌,
  ◌++◌, append-nil, append_assoc, Bool, true, false, ◌&&◌, ◌||◌, not, Option, some, none, arith,
  ltb, leb, ◌==◌, if◌then◌else◌, Bool-cases, length, length-append, get_or, take, drop, drop-append,
  replicate, memcpy, min, take-all, length-eq-zero, length-drop,
}
use x.Ws.{
  Result, complete, need_more, failed, Phase, header, len16, len64, mask, body, Frame, Parser, Flow,
  stop, go, ◌>>=◌, read_header, read_len16, read_len64, read_mask, finish, fill, read_body,
  allocate, after_length, after_header, phases, parse, is_control, unmask_payload,
}
use x.Ws.Stable.{
  grow, goes, past_header, past_length, past_body, past-past, Stable, read_header-Stable,
  read_len16-Stable, read_len64-Stable, read_mask-Stable,
}
use x.Ws.Resume.Body.{resume, bind-resume, only_body, read_body-resume}

after_length-resume :
    (malloc : ℕ → Bool) (ph : Phase) (p : Parser) (io more : List ℕ)
    → p.phase ≡ ph
    → past_length ph ≡ true
    → after_length malloc ph p (io ++ more) ≡ resume malloc more (after_length malloc ph p io)
unfolding after_length phases after_header
after_length-resume malloc mask p io more e past =
    bind-resume malloc past_body read_mask (read_body malloc) p io more (read_mask-Stable p io more)
      (ap (λ ph. phases malloc ph p (io ++ more)) e)
      (λ p io o. read_body-resume malloc p io more (only_body p.phase o))
after_length-resume malloc body p io more e past = read_body-resume malloc p io more e
after_length-resume malloc header p io more e past = absurd (ground arith)
after_length-resume malloc len16 p io more e past = absurd (ground arith)
after_length-resume malloc len64 p io more e past = absurd (ground arith)

after_header-resume :
    (malloc : ℕ → Bool) (ph : Phase) (p : Parser) (io more : List ℕ)
    → p.phase ≡ ph
    → past_header ph ≡ true
    → after_header malloc ph p (io ++ more) ≡ resume malloc more (after_header malloc ph p io)
unfolding after_header phases
after_header-resume malloc header p io more e past = absurd (ground arith)
after_header-resume malloc len16 p io more e past =
    bind-resume malloc past_length read_len16 _ p io more (read_len16-Stable p io more)
      (ap (λ ph. phases malloc ph p (io ++ more)) e)
      (λ p io o. after_length-resume malloc p.phase p io more refl o)
after_header-resume malloc len64 p io more e past =
    bind-resume malloc past_length read_len64 _ p io more (read_len64-Stable p io more)
      (ap (λ ph. phases malloc ph p (io ++ more)) e)
      (λ p io o. after_length-resume malloc p.phase p io more refl o)
after_header-resume malloc mask p io more e past = after_length-resume malloc mask p io more e refl
after_header-resume malloc body p io more e past = after_length-resume malloc body p io more e refl

phases-resume :
    (malloc : ℕ → Bool) (ph : Phase) (p : Parser) (io more : List ℕ)
    → p.phase ≡ ph
    → phases malloc ph p (io ++ more) ≡ resume malloc more (phases malloc ph p io)
unfolding phases
phases-resume malloc header p io more e =
    bind-resume malloc past_header read_header _ p io more (read_header-Stable p io more)
      (ap (λ ph. phases malloc ph p (io ++ more)) e)
      (λ p io o. after_header-resume malloc p.phase p io more refl o)
phases-resume malloc len16 p io more e = after_header-resume malloc len16 p io more e refl
phases-resume malloc len64 p io more e = after_header-resume malloc len64 p io more e refl
phases-resume malloc mask p io more e = after_header-resume malloc mask p io more e refl
phases-resume malloc body p io more e = after_header-resume malloc body p io more e refl

-- No phase is left for the fall through of xWsFrameParse.
abbrev ends : Flow → Bool
ends (stop r p io) = true
ends (go p io) = false

bind-ends :
    (m : Flow) (k : Parser → List ℕ → Flow)
    → ((p : Parser) (io : List ℕ) → ends (k p io) ≡ true)
    → ends (m >>= k) ≡ true
bind-ends (stop r p io) k h = refl
bind-ends (go p io) k h = h p io

if-ends : (c : Bool) (a b : Flow) → ends a ≡ true → ends b ≡ true → ends (if c then a else b) ≡ true
if-ends true a b ha hb = ha
if-ends false a b ha hb = hb

finish-ends : (p : Parser) (io : List ℕ) → ends (finish p io) ≡ true
unfolding finish
finish-ends p io = if-ends (is_control p.frame.opcode && ltb 125 p.frame.payload_len) _ _ refl refl

fill-ends : (p : Parser) (bytes io : List ℕ) → ends (fill p bytes io) ≡ true
unfolding fill
fill-ends p bytes io =
    if-ends
      (ltb (p.payload_read + min (length io) (p.frame.payload_len - p.payload_read))
        p.frame.payload_len)
      _ _ refl (finish-ends _ _)

allocate-ends :
    (malloc : ℕ → Bool) (p : Parser) (block : Option (List ℕ)) (io : List ℕ)
    → ends (allocate malloc p block io) ≡ true
unfolding allocate
allocate-ends malloc p (some bytes) io = fill-ends p bytes io
allocate-ends malloc p none io =
    if-ends (ltb 16777216 p.frame.payload_len || not (malloc p.frame.payload_len)) _ _ refl
      (fill-ends _ _ _)

read_body-ends :
    (malloc : ℕ → Bool) (p : Parser) (io : List ℕ) → ends (read_body malloc p io) ≡ true
unfolding read_body
read_body-ends malloc p io =
    if-ends (p.frame.payload_len == 0) _ _ (finish-ends _ _) (allocate-ends _ _ _ _)

after_length-ends :
    (malloc : ℕ → Bool) (ph : Phase) (p : Parser) (io : List ℕ)
    → ends (after_length malloc ph p io) ≡ true
unfolding after_length
after_length-ends malloc mask p io = bind-ends (read_mask p io) _ (read_body-ends malloc)
after_length-ends malloc body p io = read_body-ends malloc p io
after_length-ends malloc header p io = refl
after_length-ends malloc len16 p io = refl
after_length-ends malloc len64 p io = refl

after_header-ends :
    (malloc : ℕ → Bool) (ph : Phase) (p : Parser) (io : List ℕ)
    → ends (after_header malloc ph p io) ≡ true
unfolding after_header
after_header-ends malloc header p io = refl
after_header-ends malloc len16 p io =
    bind-ends (read_len16 p io) _ (λ p io. after_length-ends malloc p.phase p io)
after_header-ends malloc len64 p io =
    bind-ends (read_len64 p io) _ (λ p io. after_length-ends malloc p.phase p io)
after_header-ends malloc mask p io = after_length-ends malloc mask p io
after_header-ends malloc body p io = after_length-ends malloc body p io

phases-ends :
    (malloc : ℕ → Bool) (ph : Phase) (p : Parser) (io : List ℕ)
    → ends (phases malloc ph p io) ≡ true
unfolding phases
phases-ends malloc header p io =
    bind-ends (read_header p io) _ (λ p io. after_header-ends malloc p.phase p io)
phases-ends malloc len16 p io = after_header-ends malloc len16 p io
phases-ends malloc len64 p io = after_header-ends malloc len64 p io
phases-ends malloc mask p io = after_header-ends malloc mask p io
phases-ends malloc body p io = after_header-ends malloc body p io

-- The caller of the parser, when the bytes `more` are appended to the buffer: a parser that
-- waits is called again, and one that is done leaves them unread.
abbrev pub receive : (ℕ → Bool) → List ℕ → Flow → Flow
receive malloc more (stop complete p io) = stop complete p (io ++ more)
receive malloc more (stop failed p io) = stop failed p (io ++ more)
receive malloc more (stop need_more p io) = parse malloc p (io ++ more)
receive malloc more (go p io) = go p (io ++ more)

-- The pieces of a stream, received one after the other.
abbrev pub receive_all : (ℕ → Bool) → List (List ℕ) → Flow → Flow
receive_all malloc [] flow = flow
receive_all malloc (c ∷ cs) flow = receive_all malloc cs (receive malloc c flow)

abbrev pub joined : List (List ℕ) → List ℕ
joined [] = []
joined (c ∷ cs) = c ++ joined cs

receive-resume :
    (malloc : ℕ → Bool) (more : List ℕ) (flow : Flow)
    → ends flow ≡ true
    → (resume malloc more flow >>= stop need_more) ≡ receive malloc more (flow >>= stop need_more)
unfolding parse
receive-resume malloc more (stop complete p io) e = refl
receive-resume malloc more (stop failed p io) e = refl
receive-resume malloc more (stop need_more p io) e = refl
receive-resume malloc more (go p io) e = absurd (ground arith)

parse-receive :
    (malloc : ℕ → Bool) (p : Parser) (io more : List ℕ)
    → parse malloc p (io ++ more) ≡ receive malloc more (parse malloc p io)
unfolding parse
parse-receive malloc p io more =
    rw (phases-resume malloc p.phase p io more refl)
      (receive-resume malloc more (phases malloc p.phase p io) (phases-ends malloc p.phase p io))

-- Whatever the pieces in which bytes reach the buffer, and wherever the cuts fall, calling
-- xWsFrameParse again after each piece while it answers NeedMore ends with the result, the
-- parser and the unread bytes of one call on all the bytes.
pub parse-receive_all :
    (malloc : ℕ → Bool) (p : Parser) (io : List ℕ) (cs : List (List ℕ))
    → receive_all malloc cs (parse malloc p io) ≡ parse malloc p (io ++ joined cs)
parse-receive_all malloc p io [] = rw (append-nil io) refl
parse-receive_all malloc p io (c ∷ cs) =
    rw⁻¹ (parse-receive malloc p io c) (
      parse-receive_all malloc p (io ++ c) cs ∙ ap (parse malloc p) (append_assoc io c (joined cs)))
