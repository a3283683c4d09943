-- ===== src/Ws/RoundTrip.antt =====
-- libx/x/http/ws_frame.c: what the encoder writes is parsed back.
mod Header
mod Length
mod Payload
use x.Base.{
  ℕ, ◌+◌, ◌≤◌, ◌<◌, ◌≡◌, refl, sym, ap, ◌∙◌, List, [], ◌∷◌, ◌++◌, append_assoc, Bool, true, false,
  ◌&&◌, not, Option, some, none, arith, ltb, leb, ◌==◌, if◌then◌else◌, length, take, take-append,
}
use x.Ws.{
  complete, need_more, Phase, header, mask, body, Frame, Parser, stop, go, ◌>>=◌, parser_init,
  no_frame, after_len, read_mask, read_body, after_length, phases, parse, is_control,
  unmask_payload,
}
use x.Ws.Encode.{encode_header, encode}
use x.Ws.Mask.{xor_key, length-xor_key, unmask_payload-xor_key, unmask_payload_twice}
use x.Ws.Resume.{receive_all, joined, parse-receive_all}
pub use x.Ws.RoundTrip.Header.{flag, headed, fresh}
pub use x.Ws.RoundTrip.Length.{Admitted, measured, encode_header-Understood}
use x.Ws.RoundTrip.Payload.{on_wire, sent_header, before, filled, read_body-all, encode-appends}

-- The parser that has read a frame.
abbrev pub decoded : ℕ → Bool → Bool → ℕ → Bool → List ℕ → List ℕ → Parser
decoded allow fin rsv1 op masked key payload = record (fresh (flag masked) allow) {
  phase = body;
  frame = record (headed fin rsv1 op masked) {
    key = if masked then key else no_frame.key;
    payload_len = length payload;
    payload = if length payload == 0 then none else some payload;
  };
  payload_read = length payload;
}

length-unmask_payload :
    (bytes key : List ℕ) → length (unmask_payload bytes (length bytes) key) ≡ length bytes
length-unmask_payload bytes key =
    ap (λ (t : List ℕ). length t) (unmask_payload-xor_key bytes key) ∙ length-xor_key 0 key bytes

regroup :
    (masked : Bool) (head key wire rest : List ℕ)
    → ((if masked then head ++ key else head) ++ wire) ++ rest
      ≡ head ++ ((if masked then key else []) ++ (wire ++ rest))
regroup true head key wire rest =
    append_assoc (head ++ key) wire rest ∙ append_assoc head key (wire ++ rest)
regroup false head key wire rest = append_assoc head wire rest

module _ (malloc : ℕ → Bool) (allow : ℕ) (fin rsv1 : Bool) (op k0 k1 k2 k3 : ℕ)
    (payload rest : List ℕ) (ok : Admitted allow fin rsv1 op (length payload))
    (small : length payload ≤ 16777216) (granted : malloc (length payload) ≡ true) where
  abbrev key : List ℕ
  key = k0 ∷ k1 ∷ k2 ∷ k3 ∷ []

  control : (is_control op && ltb 125 (length payload)) ≡ false
  control = let (small_op, r, c) = ok in ground arith

  after_length-sent :
      (masked : Bool)
      → let n = length payload in
        after_length malloc
          (after_len (headed fin rsv1 op masked))
          (measured allow fin rsv1 op masked n)
          ((if masked then key else []) ++ (on_wire masked key payload ++ rest))
        ≡ stop complete (decoded allow fin rsv1 op masked key payload) rest
  unfolding after_length after_len read_mask parser_init
  after_length-sent true =
      let n = length payload in
      let wire = unmask_payload payload n key in
      let t : ltb (length (key ++ (wire ++ rest))) 4 ≡ false = ground arith in
      let plain : unmask_payload wire n key ≡ payload = unmask_payload_twice payload key in
      let p = record (fresh 1 allow) { phase = body } in
      let f = record (headed fin rsv1 op true) { key = key } in
      rw t (
        read_body-all malloc p f n wire rest (length-unmask_payload payload key) control small
          granted
        ∙ ap
            (λ (b : List ℕ).
              stop complete
                (record p {
                  frame = record f { payload_len = n; payload = if n == 0 then none else some b };
                  payload_read = n;
                })
                rest)
            plain)
  after_length-sent false =
      read_body-all malloc (record (fresh 0 allow) { phase = body }) (headed fin rsv1 op false)
        (length payload) payload rest refl control small granted

  -- A frame that the protocol admits, of at most 16 MiB, whose encoding succeeded, is parsed back
  -- from the bytes the encoder wrote, by a parser that expects the encoder's choice of masking:
  -- the header's bits, the length, the key and the payload are those encoded, and the bytes that
  -- follow the frame stay unread. The parser's block for the payload is granted.
  pub parse-encode :
      (masked : Bool) (room : ℕ → ℕ) (malloc' : ℕ → Bool)
      → let r = encode room malloc' key [] fin rsv1 op (some payload) (length payload) masked in
        r.0 ≡ true
        → parse malloc (fresh (flag masked) allow) (r.1 ++ rest)
          ≡ stop complete (decoded allow fin rsv1 op masked key payload) rest
  unfolding parse parser_init
  parse-encode masked room malloc' sent =
      let n = length payload in
      let head = encode_header fin rsv1 op n masked in
      let tail = (if masked then key else []) ++ (on_wire masked key payload ++ rest) in
      let bytes =
        ap (λ (t : List ℕ). t ++ rest)
          (encode-appends room malloc' key [] fin rsv1 masked op payload sent)
        ∙ regroup masked head key (on_wire masked key payload) rest in
      let read = encode_header-Understood malloc allow fin rsv1 masked op n tail ok small in
      let parsed : parse malloc (fresh (flag masked) allow) (head ++ tail)
          ≡ stop complete (decoded allow fin rsv1 op masked key payload) rest =
        ap (λ m. m >>= stop need_more) (read ∙ after_length-sent masked) in
      ap (parse malloc (fresh (flag masked) allow)) bytes ∙ parsed

  -- The same however the bytes of the frame are cut into pieces on their way: the parser is called
  -- after each piece and completes the frame.
  pub parse-encode_pieces :
      (masked : Bool) (room : ℕ → ℕ) (malloc' : ℕ → Bool) (pieces : List (List ℕ))
      → let r = encode room malloc' key [] fin rsv1 op (some payload) (length payload) masked in
        r.0 ≡ true
        → joined pieces ≡ r.1 ++ rest
        → receive_all malloc pieces (parse malloc (fresh (flag masked) allow) [])
          ≡ stop complete (decoded allow fin rsv1 op masked key payload) rest
  parse-encode_pieces masked room malloc' pieces sent cut =
      parse-receive_all malloc (fresh (flag masked) allow) [] pieces
      ∙ ap (parse malloc (fresh (flag masked) allow)) cut
      ∙ parse-encode masked room malloc' sent
