-- ===== src/Dns/Packet.antt =====
-- libx/x/dns/dns_packet.c: the query builder, which appends to what it has written, and the parser
-- of packets. Whether memory is granted is a parameter: `calloc` for a record, `malloc` by size.
use x.Base.{
  ℕ, zero, suc, ◌+◌, ◌-◌, ◌*◌, ◌/◌, ◌%◌, List, [], ◌∷◌, ◌++◌, Bool, Option, some, none, ltb, ◌==◌,
  ◌&&◌, if◌then◌else◌, get_or, length, take, drop,
}
use x.Dns.{Name, out_of_fuel, failed, parsed, written, encode_name, parse_name, and_then}

unfoldable pub put_u16 : ℕ → List ℕ
put_u16 v = v / 256 % 256 ∷ v % 256 ∷ []

unfoldable pub get_u16 : List ℕ → ℕ → ℕ
get_u16 buf p = get_or buf p 0 * 256 + get_or buf (p + 1) 0

unfoldable pub get_u32 : List ℕ → ℕ → ℕ
get_u32 buf p = get_u16 buf p * 65536 + get_u16 buf (p + 2)

abbrev pub qtype_opt : ℕ
qtype_opt = 41

abbrev pub qtype_cname : ℕ
qtype_cname = 5

-- The header of a query: RD, one question, one additional record.
unfoldable pub query_header : ℕ → List ℕ
query_header id =
    put_u16 id ++ (put_u16 0x100 ++ (put_u16 1 ++ (put_u16 0 ++ (put_u16 0 ++ put_u16 1))))

-- The OPT record.
unfoldable pub opt_record : List ℕ
opt_record = 0 ∷ (put_u16 qtype_opt ++ (put_u16 4096 ++ (put_u16 0 ++ (put_u16 0 ++ put_u16 0))))

-- dns_build_query: the bytes written, or none for a negative result.
unfoldable pub build_query : ℕ → ℕ → List ℕ → ℕ → Option (List ℕ)
build_query buflen id name qtype =
    if ltb buflen (12 + 256 + 4 + 11)
    then none
    else and_then (encode_name (buflen - 12) name) (λ coded.
      written (query_header id ++ (coded ++ (put_u16 qtype ++ (put_u16 1 ++ opt_record)))))

-- dns_header_t
pub record Header : Type 0 where
  pub id : ℕ
  pub flags : ℕ
  pub qdcount : ℕ
  pub ancount : ℕ
  pub nscount : ℕ
  pub arcount : ℕ

-- dns_question_t
pub record Question : Type 0 where
  pub name : List ℕ
  pub qtype : ℕ
  pub qclass : ℕ
  pub wire_off : ℕ

-- xDnsRecord; the list of them is a list.
pub record Answer : Type 0 where
  pub qtype : ℕ
  pub ttl : ℕ
  pub name : List ℕ
  pub rdata : List ℕ

unfoldable pub read_header : List ℕ → Header
read_header buf = record {
  id = get_u16 buf 0;
  flags = get_u16 buf 2;
  qdcount = get_u16 buf 4;
  ancount = get_u16 buf 6;
  nscount = get_u16 buf 8;
  arcount = get_u16 buf 10;
}

-- The question behind its name.
unfoldable pub after_qname : List ℕ → Name → Option Question
after_qname buf out_of_fuel = none
after_qname buf failed = none
after_qname buf (parsed off name) =
    if ltb (length buf) (off + 4)
    then none
    else some (record {
      name = name;
      qtype = get_u16 buf off;
      qclass = get_u16 buf (off + 2);
      wire_off = off + 4;
    })

unfoldable pub parse_question : List ℕ → ℕ → Option Question
parse_question buf qdcount =
    if qdcount == 0
    then some (record { name = []; qtype = 0; qclass = 0; wire_off = 12 })
    else after_qname buf (parse_name buf 12 256)

-- The part of a name in front of its first NUL: what strlen and a copy see of it.
unfoldable pub c_string : List ℕ → List ℕ
c_string [] = []
c_string (c ∷ name) = let rest = c_string name in if c == 0 then [] else c ∷ rest

-- A canonical name, as a C string with its terminator.
unfoldable pub cname_data : (ℕ → Bool) → Name → Option (List ℕ)
cname_data malloc out_of_fuel = none
cname_data malloc failed = none
cname_data malloc (parsed end name) =
    if malloc (length (c_string name) + 1) then some (c_string name ++ 0 ∷ []) else none

-- The data of a record that starts at `off`.
unfoldable pub record_data : (ℕ → Bool) → List ℕ → ℕ → ℕ → ℕ → Option (List ℕ)
record_data malloc buf rtype off rdlen =
    if rtype == qtype_cname
    then cname_data malloc (parse_name buf off 256)
    else if rdlen == 0
    then some []
    else if malloc rdlen
    then some (take rdlen (drop off buf))
    else none

abbrev pub with_data : ℕ → ℕ → List ℕ → Option (List ℕ) → Option (List Answer)
with_data rtype ttl owner none = none
with_data rtype ttl owner (some copy) =
    some (record { qtype = rtype; ttl = ttl; name = c_string owner; rdata = copy } ∷ [])

-- The record behind its owner's name, as a list of at most one, and where it ends.
unfoldable pub after_owner : Bool → (ℕ → Bool) → List ℕ → Name → Option (List Answer × ℕ)
after_owner calloc malloc buf out_of_fuel = none
after_owner calloc malloc buf failed = none
after_owner calloc malloc buf (parsed off owner) =
    let rtype = get_u16 buf off in
    let rdlen = get_u16 buf (off + 8) in
    if ltb (length buf) (off + 10)
    then none
    else if ltb (length buf) (off + 10 + rdlen)
    then none
    else if rtype == qtype_opt
    then some ([], off + 10 + rdlen)
    else if calloc && malloc (length (c_string owner) + 1)
    then and_then
        (with_data rtype (get_u32 buf (off + 4)) owner
          (record_data malloc buf rtype (off + 10) rdlen))
        (λ rec. some (rec, off + 10 + rdlen))
    else none

-- The loop over the answers; a failure frees the records before it.
unfoldable pub parse_answers : Bool → (ℕ → Bool) → List ℕ → ℕ → ℕ → Option (List Answer)
parse_answers calloc malloc buf zero off = some []
parse_answers calloc malloc buf (suc count) off =
    and_then (after_owner calloc malloc buf (parse_name buf off 256))
      (λ one. and_then (parse_answers calloc malloc buf count one.1) (λ rest. some (one.0 ++ rest)))

-- What dns_parse returns: its outputs count only with xErrno_Ok.
pub data Parsed : Type 0 where
  bad_arg : Parsed
  bad_packet : Parsed
  packet : Header → Question → List Answer → Parsed

abbrev pub with_answers : Header → Question → Option (List Answer) → Parsed
with_answers hdr q none = bad_packet
with_answers hdr q (some answers) = packet hdr q answers

unfoldable pub after_question : Bool → (ℕ → Bool) → List ℕ → Header → Option Question → Parsed
after_question calloc malloc buf hdr none = bad_packet
after_question calloc malloc buf hdr (some q) =
    with_answers hdr q (parse_answers calloc malloc buf hdr.ancount q.wire_off)

-- dns_parse: xErrno_InvalidArg, xErrno_DnsError, or xErrno_Ok with the packet.
unfoldable pub parse_packet : Bool → (ℕ → Bool) → List ℕ → Parsed
parse_packet calloc malloc buf =
    let hdr = read_header buf in
    if ltb (length buf) 12
    then bad_arg
    else after_question calloc malloc buf hdr (parse_question buf hdr.qdcount)
