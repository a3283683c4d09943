-- ===== src/Ws/RoundTrip/Payload.antt =====
-- libx/x/http/ws_frame.c: the payload phase on a whole payload, and what the encoder appends.
use x.Base.{
  ℕ, ◌+◌, ◌-◌, ◌≤◌, ◌≡◌, refl, sym, ap, ◌∙◌, inl, inr, List, [], ◌∷◌, ◌++◌, append-nil, Bool, true,
  false, ◌&&◌, ◌||◌, not, some, none, arith, ltb, leb, ◌==◌, if◌then◌else◌, Bool-cases, length,
  length-append, drop, take, take-all, take-append, drop-append, length-eq-zero, replicate,
  length-replicate, memcpy, slice, length-memcpy, slice-memcpy, slice-eq-take, min,
}
use x.Ws.{
  complete, Frame, Parser, stop, finish, fill, allocate, read_body, is_control, unmask_payload,
}
use x.Ws.Encode.{encode_header, append, and_then, encode_payload, encode}
use x.Ws.Mask.{unmask_payload-xor_key}

-- A parser that has read what stands before a payload of `n` bytes, and the parser it becomes
-- when the payload is there, in the clear.
abbrev pub before : Parser → Frame → ℕ → Parser
before p f n = record p { frame = record f { payload_len = n; payload = none }; payload_read = 0 }

abbrev pub filled : Parser → Frame → ℕ → List ℕ → Parser
filled p f n wire =
    let plain = if f.masked == 0 then wire else unmask_payload wire n f.key in
    record p {
      frame = record f { payload_len = n; payload = if n == 0 then none else some plain };
      payload_read = n;
    }

memcpy-all : (d xs : List ℕ) → length d ≡ length xs → memcpy d 0 xs ≡ xs
memcpy-all d xs e =
    let m = memcpy d 0 xs in
    sym (take-all (length xs) m (omega (arith, length-memcpy d 0 xs)))
    ∙ sym (slice-eq-take m (length xs) (omega (arith, length-memcpy d 0 xs)))
    ∙ slice-memcpy d 0 xs (omega arith)

finish-accepts :
    (p : Parser) (io : List ℕ)
    → (is_control p.frame.opcode && ltb 125 p.frame.payload_len) ≡ false
    → finish p io ≡ stop complete p io
unfolding finish
finish-accepts p io ok = rw ok refl

module _ (malloc : ℕ → Bool) (p : Parser) (f : Frame) (n : ℕ) (wire rest : List ℕ)
    (long : length wire ≡ n) (control : (is_control f.opcode && ltb 125 n) ≡ false) where
  fill-all :
      let plain = if f.masked == 0 then wire else unmask_payload wire n f.key in
      let full = record p {
        frame = record f { payload_len = n; payload = some plain };
        payload_read = n;
      } in
      fill (before p f n) (replicate n 0) (wire ++ rest) ≡ stop complete full rest
  unfolding fill
  fill-all =
      let e : min (length (wire ++ rest)) (n - 0) ≡ n = omega (arith, length-append wire rest) in
      let et : take n (wire ++ rest) ≡ wire = rw (sym long) (take-append wire rest) in
      let ed : drop n (wire ++ rest) ≡ rest = rw (sym long) (drop-append wire rest) in
      let em : memcpy (replicate n 0) 0 wire ≡ wire =
        memcpy-all (replicate n 0) wire (length-replicate n 0 ∙ sym long) in
      let er : 0 + n ≡ n = omega arith in
      let t : ltb n n ≡ false = ground arith in
      rw (e, et, ed, em, er, t) (finish-accepts _ rest control)

  pub read_body-all :
      n ≤ 16777216
      → malloc n ≡ true
      → read_body malloc (before p f n) (wire ++ rest) ≡ stop complete (filled p f n wire) rest
  unfolding read_body allocate
  read_body-all small granted = elim (Bool-cases (n == 0)) [
    | inl empty ↦
        let nothing : wire ≡ [] = length-eq-zero wire (ground arith) in
        let z : 0 ≡ n = ground arith in
        rw (empty, nothing, sym z) (finish-accepts _ rest (ground arith))
    | inr full ↦
        let ok : (ltb 16777216 n || not (malloc n)) ≡ false = ground arith in rw (full, ok) fill-all
  ]

append-all :
    (room : ℕ → ℕ) (io bytes : List ℕ)
    → (append room io bytes).0 ≡ true
    → append room io bytes ≡ (true, io ++ bytes)
unfolding append
append-all room io bytes h = elim (Bool-cases (leb (length bytes) (room (length bytes)))) [
  | inl t ↦ rw t refl
  | inr t ↦ absurd (ground (arith, rw t at h))
]

and_then-true :
    (r : Bool × List ℕ) (k : List ℕ → Bool × List ℕ)
    → (and_then r k).0 ≡ true
    → (r.0 ≡ true) × (and_then r k ≡ k r.1)
and_then-true (true, io) k h = (refl, refl)
and_then-true (false, io) k h = absurd (ground arith)

-- What xWsFrameEncodeEx puts behind the header.
abbrev pub on_wire : Bool → List ℕ → List ℕ → List ℕ
on_wire masked key payload = if masked then unmask_payload payload (length payload) key else payload

abbrev pub sent_header : Bool → Bool → ℕ → ℕ → Bool → List ℕ → List ℕ
sent_header fin rsv1 opcode n masked key =
    let head = encode_header fin rsv1 opcode n masked in if masked then head ++ key else head

module _ (room : ℕ → ℕ) (malloc : ℕ → Bool) (key : List ℕ) where
  Grown : Bool → List ℕ → List ℕ → Type 0
  Grown masked io payload =
      let r = encode_payload room malloc key io (some payload) (length payload) masked in
      r.0 ≡ true → r ≡ (true, io ++ on_wire masked key payload)

  nothing-Grown : (masked : Bool) (io : List ℕ) → Grown masked io []
  unfolding Grown encode_payload
  nothing-Grown true io ok = rw (unmask_payload-xor_key [] key, append-nil io) refl
  nothing-Grown false io ok = rw (append-nil io) refl

  some-Grown :
      (masked : Bool) (io payload : List ℕ)
      → (length payload == 0) ≡ false
      → Grown masked io payload
  unfolding Grown encode_payload
  some-Grown false io payload z ok =
      let whole : slice payload 0 (length payload) ≡ payload =
        slice-eq-take payload (length payload) (omega arith)
        ∙ take-all (length payload) payload (omega arith) in
      rw (z, whole) (append-all room io payload (rw (z, whole) at ok))
  some-Grown true io payload z ok =
      let whole : slice payload 0 (length payload) ≡ payload =
        slice-eq-take payload (length payload) (omega arith)
        ∙ take-all (length payload) payload (omega arith) in
      let wire = unmask_payload payload (length payload) key in
      elim (Bool-cases (malloc (length payload))) [
        | inl granted ↦
            rw (z, granted, whole) (append-all room io wire (rw (z, granted, whole) at ok))
        | inr refused ↦ absurd (ground (arith, rw (z, refused) at ok))
      ]

  payload-Grown : (masked : Bool) (io payload : List ℕ) → Grown masked io payload
  payload-Grown masked io [] = nothing-Grown masked io
  payload-Grown masked io (x ∷ xs) = some-Grown masked io (x ∷ xs) (ground arith)

  -- An encoder that succeeds has appended the header, the key and the payload.
  pub encode-appends :
      (io : List ℕ) (fin rsv1 masked : Bool) (opcode : ℕ) (payload : List ℕ)
      → let n = length payload in
        let r = encode room malloc key io fin rsv1 opcode (some payload) n masked in
        r.0 ≡ true
        → r.1 ≡ (io ++ sent_header fin rsv1 opcode n masked key) ++ on_wire masked key payload
  unfolding encode Grown
  encode-appends io fin rsv1 masked opcode payload ok =
      let n = length payload in
      let head = sent_header fin rsv1 opcode n masked key in
      let rest = λ (sent : List ℕ). encode_payload room malloc key sent (some payload) n masked in
      let (ok1, next) = and_then-true (append room io head) rest ok in
      let sent = append-all room io head ok1 in
      let e : encode room malloc key io fin rsv1 opcode (some payload) n masked
          ≡ rest (io ++ head) =
        next ∙ ap (λ (s : Bool × List ℕ). rest s.1) sent in
      let ok2 : (rest (io ++ head)).0 ≡ true = sym (ap (λ (s : Bool × List ℕ). s.0) e) ∙ ok in
      ap (λ (s : Bool × List ℕ). s.1) (e ∙ payload-Grown masked (io ++ head) payload ok2)
