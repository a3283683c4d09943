-- ===== src/Dns/Records.antt =====
-- libx/x/dns/dns_packet.c: one record, as the builder writes it and the parser reads it.
use x.Base.{
  ℕ, suc, ◌+◌, ◌*◌, ◌/◌, ◌%◌, ◌^◌, ◌≡◌, ◌≢◌, ◌≤◌, ◌<◌, refl, sym, subst, ap, ap₂, ◌∙◌, inl, inr,
  ◌⊎◌, List, [], ◌∷◌, ◌++◌, Bool, true, false, Option, some, none, ltb, ◌==◌, All, if◌then◌else◌,
  get_or, length, take, drop, take-exact, drop-exact, take-all, length-eq-zero, Bool-cases, arith,
}
use x.Dns.{parsed, encode_name, and_then}
use x.Dns.Wire.{and_then-some}
use x.Dns.RoundTrip.{parse-encode_name, length-encode_name}
use x.Dns.Packet.{
  put_u16, get_u16, get_u32, Answer, after_owner, record_data, cname_data, c_string, with_data,
}
use x.Dns.Response.{Given, or_else, room, record_fields, raw_data, given_data}

get_or-behind : (pre xs : List ℕ) (k : ℕ) → get_or (pre ++ xs) (length pre + k) 0 ≡ get_or xs k 0
get_or-behind [] xs k = let e : 0 + k ≡ k = omega arith in rw e refl
get_or-behind (p ∷ pre) xs k =
    let e : suc (length pre) + k ≡ suc (length pre + k) = omega arith in
    rw e (get_or-behind pre xs k)

pub get_u16-behind : (pre xs : List ℕ) (k : ℕ) → get_u16 (pre ++ xs) (length pre + k) ≡ get_u16 xs k
unfolding get_u16
get_u16-behind pre xs k =
    let e : length pre + k + 1 ≡ length pre + (k + 1) = omega arith in
    ap₂ (λ (a b : ℕ). a * 256 + b) (get_or-behind pre xs k)
      (ap (λ (i : ℕ). get_or (pre ++ xs) i 0) e ∙ get_or-behind pre xs (k + 1))

-- The fields of a record, read back.
module _ (qtype ttl rdlen : ℕ) (rest : List ℕ) (small : qtype < 65536) (long : ttl < 2 ^ 32)
    (short : rdlen < 65536) where
  abbrev fields : List ℕ
  fields = record_fields qtype ttl rdlen ++ rest

  pub field_type : get_u16 fields 0 ≡ qtype
  unfolding get_u16 record_fields put_u16
  field_type = omega arith

  pub field_high : get_u16 fields 4 ≡ ttl / 65536
  unfolding get_u16 record_fields put_u16
  field_high = omega arith

  pub field_low : get_u16 fields 6 ≡ ttl % 65536
  unfolding get_u16 record_fields put_u16
  field_low = omega arith

  pub field_length : get_u16 fields 8 ≡ rdlen
  unfolding get_u16 record_fields put_u16
  field_length = omega arith

pub length-record_fields : (qtype ttl rdlen : ℕ) → length (record_fields qtype ttl rdlen) ≡ 10
unfolding record_fields put_u16
length-record_fields qtype ttl rdlen = refl

abbrev pub granted : ℕ → Bool
granted n = true

abbrev pub placed : ℕ → Option (List Answer) → Option (List Answer × ℕ)
placed end o = and_then o (λ rec. some (rec, end))

-- The parser behind the name of an owner.
pub after_owner-fields :
    (buf owner : List ℕ) (off qtype ttl rdlen : ℕ)
    → get_u16 buf off ≡ qtype
    → get_u16 buf (off + 8) ≡ rdlen
    → get_u32 buf (off + 4) ≡ ttl
    → off + 10 + rdlen ≤ length buf
    → qtype ≢ 41
    → after_owner true granted buf (parsed off owner)
      ≡ placed
          (off + 10 + rdlen)
          (with_data qtype ttl owner (record_data granted buf qtype (off + 10) rdlen))
unfolding after_owner
after_owner-fields buf owner off qtype ttl rdlen e1 e2 e3 fits other =
    let b1 : ltb (length buf) (off + 10) ≡ false = ground arith in
    let b2 : ltb (length buf) (off + 10 + rdlen) ≡ false = ground arith in
    let b3 : (qtype == 41) ≡ false = ground arith in rw (e1, e2, e3, b1, b2, b3) refl

abbrev pub Clean : List ℕ → Type 0
Clean name = All (λ (c : ℕ). c ≢ 0) name × (length name ≤ 254)

pub c_string-Clean : (name : List ℕ) → All (λ (c : ℕ). c ≢ 0) name → c_string name ≡ name
unfolding c_string
c_string-Clean [] h = refl
c_string-Clean (c ∷ name) (ne, h) =
    let e : (c == 0) ≡ false = ground arith in rw e (ap (◌∷◌ c) (c_string-Clean name h))

-- Data that the builder can carry: a name for a CNAME, or as many bytes as the record tells.
abbrev pub Carried : Given → Type 0
Carried r =
    ((r.qtype ≡ 5) × Clean (or_else r.rdata []))
    ⊎ ((r.qtype ≢ 5) × (length (or_else r.rdata []) ≡ r.rdlength) × (r.rdlength < 65536))

-- What the parser makes of the data: a CNAME gets the terminator of a C string.
abbrev pub data_of : Given → List ℕ
data_of r = if r.qtype == 5 then or_else r.rdata [] ++ 0 ∷ [] else or_else r.rdata []

unfoldable pub Read : Given → ℕ → List ℕ → Type 0
Read r l body =
    (length body ≡ l)
    × (l < 65536)
    × ((pre post : List ℕ)
        → length pre + length body < 2 ^ 31
        → record_data granted (pre ++ (body ++ post)) r.qtype (length pre) l ≡ some (data_of r))

cname-Read :
    (outcap : ℕ) (r : Given) (coded : List ℕ)
    → r.qtype ≡ 5
    → Clean (or_else r.rdata [])
    → encode_name outcap (or_else r.rdata []) ≡ some coded
    → Read r (length coded) coded
unfolding Read record_data cname_data
cname-Read outcap r coded five (clean, short) e =
    let is : (r.qtype == 5) ≡ true = ground arith in
    (
      refl,
      omega (arith, length-encode_name outcap (or_else r.rdata []) coded e),
      λ pre post near.
          rw
            (
              is,
              parse-encode_name outcap 256 (or_else r.rdata []) coded pre post e (omega arith) near,
              c_string-Clean (or_else r.rdata []) clean,
            )
            refl,
    )

raw_copy :
    (l : ℕ) (bytes pre post : List ℕ)
    → length bytes ≡ l
    → (if l == 0 then some [] else some (take l (drop (length pre) (pre ++ (bytes ++ post)))))
      ≡ some bytes
raw_copy l bytes pre post len = elim (Bool-cases (l == 0)) [
  | inl e ↦ rw e (ap some (sym (length-eq-zero bytes (ground arith))))
  | inr e ↦ rw e (
      ap some (
        ap (take l) (drop-exact (length pre) pre (bytes ++ post) refl)
        ∙ take-exact l bytes post len))
]

raw_data-some :
    (buflen off : ℕ) (rdata : Option (List ℕ)) (l : ℕ) (b : ℕ × List ℕ)
    → length (or_else rdata []) ≡ l
    → raw_data buflen off rdata l ≡ some b
    → (l, or_else rdata []) ≡ b
unfolding raw_data
raw_data-some buflen off none l b len e = (let q = e in cc)
raw_data-some buflen off (some bytes) l b len e = elim (Bool-cases (l == 0)) [
  | inl h ↦
      let nil = length-eq-zero bytes (ground arith) in
      let q = rw h at e in ap (λ (x : List ℕ). (l, x)) nil ∙ (let q' = q in cc)
  | inr h ↦ elim (Bool-cases (ltb buflen (off + l))) [
    | inl g ↦ absurd (let q = rw (h, g) at e in cc)
    | inr g ↦
        let q = rw (h, g) at e in
        ap (λ (x : List ℕ). (l, x)) (sym (take-all l bytes (omega arith))) ∙ (let q' = q in cc)
  ]
]

raw-Read :
    (r : Given)
    → r.qtype ≢ 5
    → length (or_else r.rdata []) ≡ r.rdlength
    → r.rdlength < 65536
    → Read r r.rdlength (or_else r.rdata [])
unfolding Read record_data
raw-Read r other len small =
    let is : (r.qtype == 5) ≡ false = ground arith in
    (len, small, λ pre post near. rw is (raw_copy r.rdlength (or_else r.rdata []) pre post len))

pub given_data-Read :
    (buflen off : ℕ) (r : Given) (b : ℕ × List ℕ)
    → Carried r
    → given_data buflen off r ≡ some b
    → Read r b.0 b.1
unfolding given_data
given_data-Read buflen off r b (inl (five, clean)) e =
    let is : (r.qtype == 5) ≡ true = ground arith in
    let (coded, c, same) =
      and_then-some (encode_name (room buflen off) (or_else r.rdata [])) _ b (rw is at e) in
    subst (λ (b : ℕ × List ℕ). Read r b.0 b.1) (let q = same in cc)
      (cname-Read (room buflen off) r coded five clean c)
given_data-Read buflen off r b (inr (other, len, small)) e =
    let is : (r.qtype == 5) ≡ false = ground arith in
    subst (λ (b : ℕ × List ℕ). Read r b.0 b.1)
      (raw_data-some buflen off r.rdata r.rdlength b len (rw is at e)) (raw-Read r other len small)
