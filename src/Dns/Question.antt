-- ===== src/Dns/Question.antt =====
-- libx/x/dns/dns_packet.c: a question, behind a header of 12 bytes.
use x.Base.{
  ℕ, suc, ◌+◌, ◌*◌, ◌/◌, ◌%◌, ◌≡◌, ◌≤◌, ◌<◌, refl, sym, ap, ap₂, ◌∙◌, List, [], ◌∷◌, ◌++◌,
  append_assoc, false, some, ltb, get_or, length, length-append, arith,
}
use x.Dns.{parsed, encode_name, parse_name}
use x.Dns.RoundTrip.{parse-encode_name, length-encode_name}
use x.Dns.Packet.{put_u16, get_u16, after_qname, parse_question}

pub get_u16-put :
    (pre : List ℕ) (v : ℕ) (post : List ℕ)
    → v < 65536
    → get_u16 (pre ++ (put_u16 v ++ post)) (length pre) ≡ v
unfolding get_u16 put_u16
get_u16-put pre v post small = two pre
  where
    two :
        (pre : List ℕ)
        → get_or (pre ++ (v / 256 % 256 ∷ (v % 256 ∷ post))) (length pre) 0 * 256
            + get_or (pre ++ (v / 256 % 256 ∷ (v % 256 ∷ post))) (length pre + 1) 0
          ≡ v
    two [] = omega arith
    two (x ∷ pre) =
        let e : suc (length pre) + 1 ≡ suc (length pre + 1) = omega arith in rw e (two pre)

pub length-put_u16 : (v : ℕ) → length (put_u16 v) ≡ 2
unfolding put_u16
length-put_u16 v = refl

module _ (head : List ℕ) (twelve : length head ≡ 12) (qtype : ℕ) (coded rest : List ℕ) where
  abbrev tail_of : List ℕ
  tail_of = put_u16 qtype ++ (put_u16 1 ++ rest)

  abbrev pkt_of : List ℕ
  pkt_of = head ++ (coded ++ tail_of)

  abbrev named : List ℕ
  named = head ++ coded

  length-named : length named ≡ 12 + length coded
  length-named = omega (arith, length-append head coded, twelve)

  pub length-pkt : length pkt_of ≡ 12 + length coded + 4 + length rest
  length-pkt = omega (
    arith,
    length-append head (coded ++ tail_of),
    length-append coded tail_of,
    length-append (put_u16 qtype) (put_u16 1 ++ rest),
    length-append (put_u16 1) rest,
    length-put_u16 qtype,
    length-put_u16 1,
    twelve,
  )

  type_word : qtype < 65536 → get_u16 pkt_of (12 + length coded) ≡ qtype
  type_word small =
      ap (λ (b : List ℕ). get_u16 b (12 + length coded)) (sym (append_assoc head coded tail_of))
      ∙ ap (get_u16 (named ++ tail_of)) (sym length-named)
      ∙ get_u16-put named qtype (put_u16 1 ++ rest) small

  class_word : get_u16 pkt_of (12 + length coded + 2) ≡ 1
  class_word =
      let two : length (put_u16 qtype) ≡ 2 = length-put_u16 qtype in
      let behind : length (named ++ put_u16 qtype) ≡ 12 + length coded + 2 =
        omega (arith, length-append named (put_u16 qtype), length-named) in
      ap (λ (b : List ℕ). get_u16 b (12 + length coded + 2))
        (sym (append_assoc head coded tail_of)
          ∙ sym (append_assoc named (put_u16 qtype) (put_u16 1 ++ rest)))
      ∙ ap (get_u16 ((named ++ put_u16 qtype) ++ (put_u16 1 ++ rest))) (sym behind)
      ∙ get_u16-put (named ++ put_u16 qtype) 1 rest (omega arith)

  -- The question is read back.
  pub question_back :
      (outcap : ℕ) (name : List ℕ)
      → qtype < 65536
      → length name ≤ 254
      → encode_name outcap name ≡ some coded
      → parse_question pkt_of 1
        ≡ some (record { name = name; qtype = qtype; qclass = 1; wire_off = 12 + length coded + 4 })
  unfolding parse_question after_qname
  question_back outcap name small short c =
      let inside : ltb (length pkt_of) (12 + length coded + 4) ≡ false =
        (let l = length-pkt in ground arith) in
      let p : parse_name pkt_of 12 256 ≡ parsed (12 + length coded) name =
        ap (λ (n : ℕ). parse_name pkt_of n 256) (sym twelve)
        ∙ parse-encode_name outcap 256 name coded head tail_of c (omega arith)
            (omega (arith, twelve, length-encode_name outcap name coded c))
        ∙ ap (λ (n : ℕ). parsed (n + length coded) name) twelve in
      ap (after_qname pkt_of) p
      ∙ rw inside (
          ap₂
            (λ (t c : ℕ).
              some
                (record { name = name; qtype = t; qclass = c; wire_off = 12 + length coded + 4 }))
            (type_word small) class_word)
