-- ===== src/Dns/Query.antt =====
-- libx/x/dns/dns_packet.c: the packet of a query, and what the parser makes of it.
use x.Base.{
  ℕ, ◌+◌, ◌-◌, ◌*◌, ◌/◌, ◌%◌, ◌≡◌, ◌≤◌, ◌<◌, refl, sym, ap, ◌∙◌, inl, inr, List, [], ◌++◌, Bool,
  false, some, ltb, length, Bool-cases, arith,
}
use x.Dns.{encode_name}
use x.Dns.Wire.{written-some, and_then-some}
use x.Dns.RoundTrip.{length-encode_name}
use x.Dns.Question.{length-pkt, question_back}
use x.Dns.Packet.{
  put_u16, get_u16, query_header, opt_record, build_query, Header, packet, read_header,
  parse_question, parse_answers, after_question, parse_packet,
}

build_query-some :
    (buflen id : ℕ) (name : List ℕ) (qtype : ℕ) (pkt : List ℕ)
    → build_query buflen id name qtype ≡ some pkt
    → (coded : List ℕ) × (encode_name (buflen - 12) name ≡ some coded)
      × (query_header id ++ (coded ++ (put_u16 qtype ++ (put_u16 1 ++ opt_record))) ≡ pkt)
      × (283 ≤ buflen)
unfolding build_query
build_query-some buflen id name qtype pkt e = elim (Bool-cases (ltb buflen (12 + 256 + 4 + 11))) [
  | inl h ↦ absurd (let q = rw h at e in cc)
  | inr h ↦
      let (coded, c, p) = and_then-some (encode_name (buflen - 12) name) _ pkt (rw h at e) in
      (coded, c, written-some _ pkt p, ground arith)
]

length-query_header : (id : ℕ) → length (query_header id) ≡ 12
unfolding query_header put_u16
length-query_header id = refl

length-opt_record : length opt_record ≡ 11
unfolding put_u16 opt_record
length-opt_record = refl

abbrev pub query : ℕ → Header
query id = record { id = id; flags = 0x100; qdcount = 1; ancount = 0; nscount = 0; arcount = 1 }

header_of_query :
    (id : ℕ) (rest : List ℕ) → id < 65536 → read_header (query_header id ++ rest) ≡ query id
unfolding read_header query_header put_u16 get_u16
header_of_query id rest small =
    let e : id / 256 % 256 * 256 + id % 256 ≡ id = omega arith in ap (λ (x : ℕ). query x) e

parsed_back :
    (calloc : Bool) (malloc : ℕ → Bool) (buflen id : ℕ) (name : List ℕ) (qtype : ℕ)
    (pkt coded : List ℕ)
    → id < 65536
    → qtype < 65536
    → length name ≤ 254
    → encode_name (buflen - 12) name ≡ some coded
    → query_header id ++ (coded ++ (put_u16 qtype ++ (put_u16 1 ++ opt_record))) ≡ pkt
    → parse_packet calloc malloc pkt
      ≡ packet
          (query id)
          (record { name = name; qtype = qtype; qclass = 1; wire_off = 12 + length coded + 4 })
          []
unfolding parse_packet after_question parse_answers
parsed_back calloc malloc buflen id name qtype pkt coded id_small type_small short c p =
    let buf : List ℕ = query_header id ++ (coded ++ (put_u16 qtype ++ (put_u16 1 ++ opt_record))) in
    let hdr : read_header buf ≡ query id =
      header_of_query id (coded ++ (put_u16 qtype ++ (put_u16 1 ++ opt_record))) id_small in
    let long : ltb (length buf) 12 ≡ false =
      (let o = length-opt_record in
        let l = length-pkt (query_header id) (length-query_header id) qtype coded opt_record in
        ground arith) in
    ap (parse_packet calloc malloc) (sym p)
    ∙ rw long
        (ap (λ (h : Header). after_question calloc malloc buf h (parse_question buf h.qdcount)) hdr)
    ∙ ap (after_question calloc malloc buf (query id)) (
        question_back (query_header id) (length-query_header id) qtype coded opt_record
          (buflen - 12) name type_small short c)

build_query-fits :
    (buflen id : ℕ) (name : List ℕ) (qtype : ℕ) (pkt : List ℕ)
    → length name ≤ 254
    → build_query buflen id name qtype ≡ some pkt
    → length pkt ≤ buflen
build_query-fits buflen id name qtype pkt short e =
    let (coded, c, p, big) = build_query-some buflen id name qtype pkt e in
    let o = length-opt_record in
    let l = length-pkt (query_header id) (length-query_header id) qtype coded opt_record in
    let same = ap (λ (x : List ℕ). length x) p in
    omega (arith, length-encode_name (buflen - 12) name coded c)

-- For a name of at most 254 bytes, a query that dns_build_query builds lies within the buffer, and
-- dns_parse reads it back: the header of a query with its id, its name and type, class IN, a
-- question that ends in front of the 11 bytes of the OPT record, and no answers.
pub parse-build_query :
    (calloc : Bool) (malloc : ℕ → Bool) (buflen id : ℕ) (name : List ℕ) (qtype : ℕ) (pkt : List ℕ)
    → id < 65536
    → qtype < 65536
    → length name ≤ 254
    → build_query buflen id name qtype ≡ some pkt
    → (length pkt ≤ buflen)
      × (parse_packet calloc malloc pkt
          ≡ packet
              (query id)
              (record { name = name; qtype = qtype; qclass = 1; wire_off = length pkt - 11 })
              [])
parse-build_query calloc malloc buflen id name qtype pkt id_small type_small short e =
    let (coded, c, p, big) = build_query-some buflen id name qtype pkt e in
    let o = length-opt_record in
    let l = length-pkt (query_header id) (length-query_header id) qtype coded opt_record in
    let same = ap (λ (x : List ℕ). length x) p in
    let off : 12 + length coded + 4 ≡ length pkt - 11 = omega arith in
    (
      build_query-fits buflen id name qtype pkt short e,
      parsed_back calloc malloc buflen id name qtype pkt coded id_small type_small short c p
          ∙ ap
              (λ (o : ℕ).
                packet (query id) (record { name = name; qtype = qtype; qclass = 1; wire_off = o })
                  [])
              off,
    )
