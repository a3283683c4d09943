-- ===== src/Dns/Echo.antt =====
-- libx/x/dns/dns_packet.c: the parser reads back the answers of a response.
use x.Base.{
  ℕ, suc, ◌+◌, ◌*◌, ◌/◌, ◌%◌, ◌^◌, ◌≡◌, ◌≢◌, ◌<◌, refl, sym, subst, ap, ap₂, ◌∙◌, List, [], ◌∷◌,
  ◌++◌, map, append_assoc, append-nil, true, Option, some, All, length, length-append, arith,
}
use x.Dns.{parsed, encode_name, parse_name, and_then}
use x.Dns.Wire.{and_then-some}
use x.Dns.RoundTrip.{parse-encode_name}
use x.Dns.Packet.{get_u16, get_u32, Answer, after_owner, parse_answers, record_data, with_data}
use x.Dns.Response.{Given, or_else, room, record_fields, given_data, build_record, build_records}
use x.Dns.Records.{
  get_u16-behind, field_type, field_high, field_low, field_length, length-record_fields, granted,
  placed, after_owner-fields, Clean, c_string-Clean, Carried, data_of, Read, given_data-Read,
}

-- A record that the builder can carry, for the owner that it names or the name of the question.
pub record Sound (qname : List ℕ) (r : Given) : Type 0 where
  pub small : r.qtype < 65536
  pub not_opt : r.qtype ≢ 41
  pub long : r.ttl < 2 ^ 32
  pub owner : Clean (or_else r.name qname)
  pub body : Carried r

-- What the parser makes of it.
abbrev pub answer_of : List ℕ → Given → Answer
answer_of qname r = record {
  qtype = r.qtype;
  ttl = r.ttl;
  name = or_else r.name qname;
  rdata = data_of r;
}

-- The layout of a record in a packet.
module _ (pre coded fields body post : List ℕ) where
  abbrev bytes : List ℕ
  bytes = coded ++ (fields ++ body)

  at_name : pre ++ (bytes ++ post) ≡ pre ++ (coded ++ ((fields ++ body) ++ post))
  at_name = ap (λ (x : List ℕ). pre ++ x) (append_assoc coded (fields ++ body) post)

  at_fields : pre ++ (bytes ++ post) ≡ (pre ++ coded) ++ (fields ++ (body ++ post))
  at_fields =
      at_name
      ∙ ap (λ (x : List ℕ). pre ++ (coded ++ x)) (append_assoc fields body post)
      ∙ sym (append_assoc pre coded (fields ++ (body ++ post)))

  at_body : pre ++ (bytes ++ post) ≡ ((pre ++ coded) ++ fields) ++ (body ++ post)
  at_body = at_fields ∙ sym (append_assoc (pre ++ coded) fields (body ++ post))

  length-bytes : length bytes ≡ length coded + length fields + length body
  length-bytes = omega (arith, length-append coded (fields ++ body), length-append fields body)

-- The fields of a record behind `pre`.
module _ (pre : List ℕ) (r : Given) (l : ℕ) (rest : List ℕ) (small : r.qtype < 65536)
    (long : r.ttl < 2 ^ 32) (short : l < 65536) where
  abbrev buf : List ℕ
  buf = pre ++ (record_fields r.qtype r.ttl l ++ rest)

  at_field :
      (k v : ℕ)
      → get_u16 (record_fields r.qtype r.ttl l ++ rest) k ≡ v
      → get_u16 buf (length pre + k) ≡ v
  at_field k v e = get_u16-behind pre (record_fields r.qtype r.ttl l ++ rest) k ∙ e

  type_at : get_u16 buf (length pre) ≡ r.qtype
  type_at =
      let e : length pre ≡ length pre + 0 = omega arith in
      ap (get_u16 buf) e ∙ at_field 0 r.qtype (field_type r.qtype r.ttl l rest small long short)

  length_at : get_u16 buf (length pre + 8) ≡ l
  length_at = at_field 8 l (field_length r.qtype r.ttl l rest small long short)

  ttl_at : get_u32 buf (length pre + 4) ≡ r.ttl
  unfolding get_u32
  ttl_at =
      let e : length pre + 4 + 2 ≡ length pre + 6 = omega arith in
      let high = at_field 4 (r.ttl / 65536) (field_high r.qtype r.ttl l rest small long short) in
      let low = at_field 6 (r.ttl % 65536) (field_low r.qtype r.ttl l rest small long short) in
      let join : r.ttl / 65536 * 65536 + r.ttl % 65536 ≡ r.ttl = omega arith in
      ap₂ (λ (a b : ℕ). a * 65536 + b) high (ap (get_u16 buf) e ∙ low) ∙ join

-- A record is read back from where it stands.
module _ (outcap : ℕ) (qname : List ℕ) (r : Given) (coded : List ℕ) (l : ℕ) (body pre post : List ℕ)
    (sound : Sound qname r) (c : encode_name outcap (or_else r.name qname) ≡ some coded)
    (read : Read r l body)
    (near : length (pre ++ ((coded ++ (record_fields r.qtype r.ttl l ++ body)) ++ post))
      < 2 ^ 31) where
  abbrev fields : List ℕ
  fields = record_fields r.qtype r.ttl l

  abbrev pkt : List ℕ
  pkt = pre ++ ((coded ++ (fields ++ body)) ++ post)

  abbrev off : ℕ
  off = length (pre ++ coded)

  length-pkt : length pkt ≡ off + 10 + length body + length post
  length-pkt =
      let e = ap (λ (x : List ℕ). length x) (at_body pre coded fields body post) in
      omega (
        arith,
        length-append ((pre ++ coded) ++ fields) (body ++ post),
        length-append body post,
        length-append (pre ++ coded) fields,
        length-record_fields r.qtype r.ttl l,
      )

  owner_back : parse_name pkt (length pre) 256 ≡ parsed off (or_else r.name qname)
  owner_back =
      let fits = sound.owner.1 in
      ap (λ (x : List ℕ). parse_name x (length pre) 256) (at_name pre coded fields body post)
      ∙ parse-encode_name outcap 256 (or_else r.name qname) coded pre ((fields ++ body) ++ post) c
          (omega arith) (omega (arith, length-pkt, length-append pre coded))
      ∙ ap (λ (n : ℕ). parsed n (or_else r.name qname)) (sym (length-append pre coded))

  data_back : record_data granted pkt r.qtype (off + 10) l ≡ some (data_of r)
  unfolding Read
  data_back =
      let behind : length ((pre ++ coded) ++ fields) ≡ off + 10 =
        omega (arith, length-append (pre ++ coded) fields, length-record_fields r.qtype r.ttl l) in
      ap₂ (λ (x : List ℕ) (n : ℕ). record_data granted x r.qtype n l)
        (at_body pre coded fields body post) (sym behind)
      ∙ read.2 ((pre ++ coded) ++ fields) post (omega (arith, behind, length-pkt))

  record_known :
      after_owner true granted pkt (parse_name pkt (length pre) 256)
      ≡ some (answer_of qname r ∷ [], off + 10 + l)
  unfolding Read
  record_known =
      let to_fields = at_fields pre coded fields body post in
      let short : l < 65536 = read.1 in
      let rest : List ℕ = body ++ post in
      let size = length-pkt in
      let len = read.0 in
      ap (after_owner true granted pkt) owner_back
      ∙ after_owner-fields pkt (or_else r.name qname) off r.qtype r.ttl l
          (ap (λ (x : List ℕ). get_u16 x off) to_fields
            ∙ type_at (pre ++ coded) r l rest sound.small sound.long short)
          (ap (λ (x : List ℕ). get_u16 x (off + 8)) to_fields
            ∙ length_at (pre ++ coded) r l rest sound.small sound.long short)
          (ap (λ (x : List ℕ). get_u32 x (off + 4)) to_fields
            ∙ ttl_at (pre ++ coded) r l rest sound.small sound.long short)
          (omega arith) sound.not_opt
      ∙ ap
          (λ (o : Option (List ℕ)).
            placed (off + 10 + l) (with_data r.qtype r.ttl (or_else r.name qname) o))
          data_back
      ∙ ap
          (λ (n : List ℕ). some (
            record { qtype = r.qtype; ttl = r.ttl; name = n; rdata = data_of r } ∷ [],
            off + 10 + l,
          ))
          (c_string-Clean (or_else r.name qname) sound.owner.0)

  record_end : off + 10 + l ≡ length pre + length (coded ++ (fields ++ body))
  unfolding Read
  record_end =
      let len = read.0 in
      omega (
        arith,
        length-append pre coded,
        length-bytes pre coded fields body post,
        length-record_fields r.qtype r.ttl l,
      )

record_back :
    (buflen from : ℕ) (qname : List ℕ) (r : Given) (one pre post : List ℕ)
    → Sound qname r
    → build_record buflen qname from r ≡ some one
    → length (pre ++ (one ++ post)) < 2 ^ 31
    → after_owner true granted
        (pre ++ (one ++ post))
        (parse_name (pre ++ (one ++ post)) (length pre) 256)
      ≡ some (answer_of qname r ∷ [], length pre + length one)
unfolding build_record
record_back buflen from qname r one pre post sound e near =
    let (coded, c, e1) =
      and_then-some (encode_name (room buflen from) (or_else r.name qname)) _ one e in
    let (b, d, e2) = and_then-some (given_data buflen (from + length coded + 10) r) _ one e1 in
    let read : Read r b.0 b.1 =
      given_data-Read buflen (from + length coded + 10) r b sound.body d in
    let whole : coded ++ (record_fields r.qtype r.ttl b.0 ++ b.1) ≡ one = let q = e2 in cc in
    let near' = subst (λ (one : List ℕ). length (pre ++ (one ++ post)) < 2 ^ 31) (sym whole) near in
    subst
      (λ (one : List ℕ).
        after_owner true granted (pre ++ (one ++ post))
          (parse_name (pre ++ (one ++ post)) (length pre) 256)
        ≡ some (answer_of qname r ∷ [], length pre + length one))
      whole
      (record_known (room buflen from) qname r coded b.0 b.1 pre post sound c read near'
        ∙ ap (λ (n : ℕ). some (answer_of qname r ∷ [], n))
            (record_end (room buflen from) qname r coded b.0 b.1 pre post sound c read near'))

parse-next :
    (buf : List ℕ) (count from : ℕ) (one : List Answer) (end : ℕ) (rest : List Answer)
    → after_owner true granted buf (parse_name buf from 256) ≡ some (one, end)
    → parse_answers true granted buf count end ≡ some rest
    → parse_answers true granted buf (suc count) from ≡ some (one ++ rest)
unfolding parse_answers
parse-next buf count from one end rest e f =
    ap
      (λ (o : Option (List Answer × ℕ)). and_then o (λ one.
        and_then (parse_answers true granted buf count one.1) (λ rest. some (one.0 ++ rest))))
      e
    ∙ ap (λ (o : Option (List Answer)). and_then o (λ rest. some (one ++ rest))) f

-- The answers that `build_records` writes behind `pre` are read back.
pub records_back :
    (buflen : ℕ) (qname : List ℕ) (rs : List Given) (pre pkt : List ℕ)
    → All (Sound qname) rs
    → build_records buflen qname rs pre ≡ some pkt
    → (added : List ℕ) × (pkt ≡ pre ++ added)
      × ((post : List ℕ)
          → length (pre ++ (added ++ post)) < 2 ^ 31
          → parse_answers true granted (pre ++ (added ++ post)) (length rs) (length pre)
            ≡ some (map (answer_of qname) rs))
unfolding build_records parse_answers
records_back buflen qname [] pre pkt sound e =
    ([], (let q = e in cc) ∙ sym (append-nil pre), λ post near. refl)
records_back buflen qname (r ∷ rs) pre pkt (sound, sounds) e =
    let (one, b, e1) = and_then-some (build_record buflen qname (length pre) r) _ pkt e in
    let (added, p, back) = records_back buflen qname rs (pre ++ one) pkt sounds e1 in
    (
      one ++ added,
      p ∙ append_assoc pre one added,
      λ post near.
          let same : pre ++ ((one ++ added) ++ post) ≡ pre ++ (one ++ (added ++ post)) =
            ap (λ (x : List ℕ). pre ++ x) (append_assoc one added post) in
          ap (λ (x : List ℕ). parse_answers true granted x (length (r ∷ rs)) (length pre)) same
          ∙ parse-next (pre ++ (one ++ (added ++ post))) (length rs) (length pre)
              (answer_of qname r ∷ []) (length pre + length one) (map (answer_of qname) rs)
              (record_back buflen (length pre) qname r one pre (added ++ post) sound b
                (subst (λ (x : List ℕ). length x < 2 ^ 31) same near))
              (ap₂ (λ (x : List ℕ) (n : ℕ). parse_answers true granted x (length rs) n)
                  (sym (append_assoc pre one (added ++ post))) (sym (length-append pre one))
                ∙ back post (
                    subst (λ (x : List ℕ). length x < 2 ^ 31)
                      (same ∙ sym (append_assoc pre one (added ++ post))) near)),
    )
