-- ===== src/Dns/Served.antt =====
-- libx/x/dns/dns_packet.c: a response, and what the parser makes of it.
use x.Base.{
  ℕ, ◌+◌, ◌-◌, ◌*◌, ◌/◌, ◌%◌, ◌^◌, ◌≡◌, ◌≤◌, ◌<◌, refl, sym, subst, ap, ap₂, ◌∙◌, inl, inr, List,
  [], ◌++◌, map, append_assoc, append-nil, true, false, some, ltb, length, length-append,
  Bool-cases, All, arith,
}
use native.Mathlib.Nat.{mod-eq_of_lt}
use x.Dns.{written, encode_name}
use x.Dns.Wire.{written-some, and_then-some}
use x.Dns.Question.{length-pkt, question_back, length-put_u16}
use x.Dns.Packet.{
  put_u16, get_u16, Header, Question, Answer, packet, read_header, parse_question, parse_answers,
  with_answers, after_question, parse_packet,
}
use x.Dns.Response.{Given, need, response_flags, response_header, build_records, build_response}
use x.Dns.Records.{granted}
use x.Dns.Echo.{Sound, answer_of, records_back}

abbrev pub response : ℕ → ℕ → ℕ → Header
response id rcode count = record {
  id = id;
  flags = response_flags rcode;
  qdcount = 1;
  ancount = count;
  nscount = 0;
  arcount = 0;
}

flags-lt : (rcode : ℕ) → response_flags rcode < 65536
unfolding response_flags
flags-lt rcode = omega arith

length-response_header : (id flags count : ℕ) → length (response_header id flags count) ≡ 12
unfolding response_header put_u16
length-response_header id flags count = refl

header_back :
    (id rcode count : ℕ) (rest : List ℕ)
    → id < 65536
    → count < 65536
    → read_header (response_header id (response_flags rcode) count ++ rest)
      ≡ response id rcode count
unfolding read_header response_header put_u16 get_u16
header_back id rcode count rest a b =
    let f : ℕ = response_flags rcode in
    let small : f < 65536 = flags-lt rcode in
    let e1 : id / 256 % 256 * 256 + id % 256 ≡ id = omega arith in
    let e2 : f / 256 % 256 * 256 + f % 256 ≡ f = omega arith in
    let e3 : count / 256 % 256 * 256 + count % 256 ≡ count = omega arith in
    ap₂
      (λ (i g : ℕ). record {
        id = i;
        flags = g;
        qdcount = 1;
        ancount = count / 256 % 256 * 256 + count % 256;
        nscount = 0;
        arcount = 0;
      })
      e1 e2
    ∙ ap (λ (c : ℕ). response id rcode c) e3

build_response-some :
    (buflen id rcode : ℕ) (qname : List ℕ) (qtype : ℕ) (answers : List Given) (pkt : List ℕ)
    → length answers < 65536
    → build_response buflen id rcode qname qtype answers ≡ some pkt
    → (coded : List ℕ) × (encode_name (buflen - 12) qname ≡ some coded)
      × (build_records buflen qname answers (
            response_header id (response_flags rcode) (length answers)
            ++ (coded ++ (put_u16 qtype ++ put_u16 1)))
          ≡ some pkt)
unfolding build_response
build_response-some buflen id rcode qname qtype answers pkt few e =
    elim (Bool-cases (ltb buflen (need qname answers))) [
      | inl h ↦ absurd (let q = rw h at e in cc)
      | inr h ↦
          let (coded, c, p) = and_then-some (encode_name (buflen - 12) qname) _ pkt (rw h at e) in
          let (out, d, w) = and_then-some (build_records buflen qname answers _) written pkt p in
          (coded, c, rw (mod-eq_of_lt few) at d ∙ ap some (written-some out pkt w))
    ]

-- A response is read back from its parts.
module _ (id rcode qtype outcap : ℕ) (qname coded added : List ℕ) (answers : List Answer)
    (count : ℕ) (id_small : id < 65536) (type_small : qtype < 65536) (short : length qname ≤ 254)
    (few : count < 65536) (c : encode_name outcap qname ≡ some coded) where
  abbrev head : List ℕ
  head = response_header id (response_flags rcode) count

  abbrev buf : List ℕ
  buf = head ++ (coded ++ (put_u16 qtype ++ (put_u16 1 ++ added)))

  twelve : length head ≡ 12
  twelve = length-response_header id (response_flags rcode) count

  response_back :
      parse_answers true granted buf count (12 + length coded + 4) ≡ some answers
      → parse_packet true granted buf
        ≡ packet
            (response id rcode count)
            (record { name = qname; qtype = qtype; qclass = 1; wire_off = 12 + length coded + 4 })
            answers
  unfolding parse_packet after_question
  response_back back =
      let size = length-pkt head twelve qtype coded added in
      let long : ltb (length buf) 12 ≡ false = ground arith in
      let q : Question = record {
        name = qname;
        qtype = qtype;
        qclass = 1;
        wire_off = 12 + length coded + 4;
      } in
      rw long (
        ap (λ (h : Header). after_question true granted buf h (parse_question buf h.qdcount))
          (header_back id rcode count (coded ++ (put_u16 qtype ++ (put_u16 1 ++ added))) id_small
            few))
      ∙ ap (after_question true granted buf (response id rcode count))
          (question_back head twelve qtype coded added outcap qname type_small short c)
      ∙ ap (with_answers (response id rcode count) q) back

-- When dns_build_response builds a response of less than 2^31 bytes, for a question and at most
-- 65,535 answers whose names have at most 254 bytes, whose data has the length they tell or is such
-- a name for a CNAME, and none of which is an OPT record, dns_parse, with memory granted, reads it
-- back: the header, the question, and every answer in order with its type, lifetime, owner and
-- data.
pub parse-build_response :
    (buflen id rcode : ℕ) (qname : List ℕ) (qtype : ℕ) (answers : List Given) (pkt : List ℕ)
    → id < 65536
    → qtype < 65536
    → length qname ≤ 254
    → length answers < 65536
    → All (Sound qname) answers
    → length pkt < 2 ^ 31
    → build_response buflen id rcode qname qtype answers ≡ some pkt
    → (off : ℕ) × (parse_packet true granted pkt
        ≡ packet
            (response id rcode (length answers))
            (record { name = qname; qtype = qtype; qclass = 1; wire_off = off })
            (map (answer_of qname) answers))
parse-build_response buflen id rcode qname qtype answers pkt id_small type_small short few sound
      near e =
    let (coded, c, b) = build_response-some buflen id rcode qname qtype answers pkt few e in
    let head : List ℕ = response_header id (response_flags rcode) (length answers) in
    let words : List ℕ = put_u16 qtype ++ put_u16 1 in
    let pre : List ℕ = head ++ (coded ++ words) in
    let (added, p, back) = records_back buflen qname answers pre pkt sound b in
    let shape : pre ++ added ≡ head ++ (coded ++ (put_u16 qtype ++ (put_u16 1 ++ added))) =
      append_assoc head (coded ++ words) added
      ∙ ap (λ (x : List ℕ). head ++ x)
          (append_assoc coded words added
            ∙ ap (λ (x : List ℕ). coded ++ x) (append_assoc (put_u16 qtype) (put_u16 1) added)) in
    let size : length pre ≡ 12 + length coded + 4 = omega (
      arith,
      length-append head (coded ++ words),
      length-append coded words,
      length-append (put_u16 qtype) (put_u16 1),
      length-put_u16 qtype,
      length-put_u16 1,
      length-response_header id (response_flags rcode) (length answers),
    ) in
    (
      12 + length coded + 4,
      ap (parse_packet true granted) (p ∙ shape)
          ∙ response_back id rcode qtype (buflen - 12) qname coded added
              (map (answer_of qname) answers) (length answers) id_small type_small short few c
              (ap₂ (λ (x : List ℕ) (n : ℕ). parse_answers true granted x (length answers) n)
                  (sym shape ∙ ap (λ (x : List ℕ). pre ++ x) (sym (append-nil added))) (sym size)
                ∙ back [] (
                    subst (λ (x : List ℕ). length x < 2 ^ 31)
                      (p ∙ ap (λ (x : List ℕ). pre ++ x) (sym (append-nil added))) near)),
    )
