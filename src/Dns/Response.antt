-- ===== src/Dns/Response.antt =====
-- libx/x/dns/dns_packet.c: the builder of responses, which appends to what it has written.
use x.Base.{
  ℕ, ◌+◌, ◌^◌, ◌-◌, ◌/◌, ◌%◌, List, [], ◌∷◌, ◌++◌, Option, some, none, ltb, ◌==◌, if◌then◌else◌,
  length, take, bit_and, bit_or, sub_size,
}
use x.Dns.{written, encode_name, and_then}
use x.Dns.Packet.{put_u16, qtype_cname}

-- xDnsRecord as the builder takes it: a name and data that may be NULL.
pub record Given : Type 0 where
  pub qtype : ℕ
  pub ttl : ℕ
  pub name : Option (List ℕ)
  pub rdata : Option (List ℕ)
  pub rdlength : ℕ

abbrev pub or_else : Option (List ℕ) → List ℕ → List ℕ
or_else none other = other
or_else (some name) other = name

-- The room behind `off`, as a size_t.
abbrev pub room : ℕ → ℕ → ℕ
room buflen off = sub_size buflen off

-- What the answers add to it.
unfoldable pub needed : List Given → ℕ
needed [] = 0
needed (r ∷ rs) = length (or_else r.name []) + 2 + 10 + r.rdlength + needed rs

-- The size that the buffer is checked against, as a size_t.
unfoldable pub need : List ℕ → List Given → ℕ
need qname answers = (12 + (length qname + 2) + 4 + needed answers) % 2 ^ 64

-- The flags: QR, RA and the code.
unfoldable pub response_flags : ℕ → ℕ
response_flags rcode = bit_or (bit_or 0x8000 0x80) (bit_and rcode 0xF) % 65536

unfoldable pub response_header : ℕ → ℕ → ℕ → List ℕ
response_header id flags ancount =
    put_u16 id ++ (put_u16 flags ++ (put_u16 1 ++ (put_u16 ancount ++ (put_u16 0 ++ put_u16 0))))

-- Type, class, lifetime and length of a record.
unfoldable pub record_fields : ℕ → ℕ → ℕ → List ℕ
record_fields qtype ttl rdlen =
    put_u16 qtype
    ++ (put_u16 1 ++ (put_u16 (ttl / 65536) ++ (put_u16 (ttl % 65536) ++ put_u16 rdlen)))

-- The data of a record at `off`, its length in front.
unfoldable pub raw_data : ℕ → ℕ → Option (List ℕ) → ℕ → Option (ℕ × List ℕ)
raw_data buflen off none rdlength = some (rdlength, [])
raw_data buflen off (some bytes) rdlength =
    if rdlength == 0
    then some (rdlength, [])
    else if ltb buflen (off + rdlength)
    then none
    else some (rdlength, take rdlength bytes)

unfoldable pub given_data : ℕ → ℕ → Given → Option (ℕ × List ℕ)
given_data buflen off r =
    if r.qtype == qtype_cname
    then and_then (encode_name (room buflen off) (or_else r.rdata []))
        (λ coded. some (length coded, coded))
    else raw_data buflen off r.rdata r.rdlength

-- One round of the loop over the answers: the record behind `off` bytes.
unfoldable pub build_record : ℕ → List ℕ → ℕ → Given → Option (List ℕ)
build_record buflen qname off r =
    and_then (encode_name (room buflen off) (or_else r.name qname)) (λ coded.
      and_then (given_data buflen (off + length coded + 10) r)
        (λ body. some (coded ++ (record_fields r.qtype r.ttl body.0 ++ body.1))))

unfoldable pub build_records : ℕ → List ℕ → List Given → List ℕ → Option (List ℕ)
build_records buflen qname [] out = some out
build_records buflen qname (r ∷ rs) out =
    and_then (build_record buflen qname (length out) r)
      (λ one. build_records buflen qname rs (out ++ one))

-- dns_build_response: the bytes written, or none for a negative result.
unfoldable pub build_response : ℕ → ℕ → ℕ → List ℕ → ℕ → List Given → Option (List ℕ)
build_response buflen id rcode qname qtype answers =
    if ltb buflen (need qname answers)
    then none
    else and_then (encode_name (buflen - 12) qname) (λ coded.
      and_then
        (build_records buflen qname answers (
          response_header id (response_flags rcode) (length answers % 65536)
          ++ (coded ++ (put_u16 qtype ++ put_u16 1))))
        written)
