-- ===== src/Dns/Wire.antt =====
-- libx/x/dns/dns_packet.c: what encode_name writes, parse_name reads back.
use x.Base.{
  ℕ, ◌+◌, ◌%◌, ◌^◌, ◌≡◌, ◌<◌, refl, sym, subst, ap, ◌∙◌, inl, inr, List, [], ◌∷◌, ◌++◌,
  append_assoc, append-nil, Bool, true, false, Option, some, none, ltb, ◌==◌, ==_iff, All, length,
  Bool-cases, arith,
}
use x.Dns.{written, encode_label, encode_root, encode_loop, and_then}

-- Labels on the wire.
abbrev pub wire : List (List ℕ) → List ℕ
wire [] = 0 ∷ []
wire (l ∷ ls) = (length l ∷ l) ++ wire ls

-- Labels in text, each with a dot behind it.
abbrev pub dots : List (List ℕ) → List ℕ
dots [] = []
dots (l ∷ ls) = (l ++ 46 ∷ []) ++ dots ls

abbrev pub Sized : List (List ℕ) → Type 0
Sized = All (λ (l : List ℕ). (0 < length l) × (length l < 64))

abbrev pub Encoded : List ℕ → List ℕ → List ℕ → Type 0
Encoded bytes out text =
    (ls : List (List ℕ)) × (bytes ≡ out ++ wire ls) × Sized ls × (dots ls ≡ text)

encode_label-some :
    (outcap : ℕ) (label out next : List ℕ)
    → encode_label outcap label out ≡ some next
    → (next ≡ out ++ (length label ∷ label)) × (0 < length label) × (length label < 64)
unfolding encode_label
encode_label-some outcap label out next e = elim (Bool-cases (length label == 0)) [
  | inl a ↦ absurd (let q = rw a at e in cc)
  | inr a ↦ elim (Bool-cases (ltb 63 (length label))) [
    | inl b ↦ absurd (let q = rw (a, b) at e in cc)
    | inr b ↦ elim (Bool-cases (ltb outcap (length out + 1 + length label))) [
      | inl c ↦ absurd (let q = rw (a, b, c) at e in cc)
      | inr c ↦ (let q = rw (a, b, c) at e in cc, ground arith, ground arith)
    ]
  ]
]

pub written-some : (out bytes : List ℕ) → written out ≡ some bytes → out ≡ bytes
unfolding written
written-some out bytes e = elim (Bool-cases (ltb (length out % 2 ^ 32) (2 ^ 31))) [
  | inl a ↦ let q = rw a at e in cc
  | inr a ↦ absurd (let q = rw a at e in cc)
]

encode_root-some :
    (outcap : ℕ) (o : Option (List ℕ)) (bytes : List ℕ)
    → encode_root outcap o ≡ some bytes
    → (out : List ℕ) × (o ≡ some out) × (bytes ≡ out ++ 0 ∷ [])
unfolding encode_root
encode_root-some outcap none bytes e = absurd (let q = e in cc)
encode_root-some outcap (some out) bytes e = elim (Bool-cases (ltb outcap (length out + 1))) [
  | inl a ↦ absurd (let q = rw a at e in cc)
  | inr a ↦ (out, refl, sym (written-some (out ++ 0 ∷ []) bytes (rw a at e)))
]

pub and_then-some :
    {A B : Type 0} (o : Option A) (k : A → Option B) (b : B)
    → and_then o k ≡ some b
    → (a : A) × (o ≡ some a) × (k a ≡ some b)
and_then-some none k b e = absurd (let q = e in cc)
and_then-some (some a) k b e = (a, refl, e)

-- The text that encode_loop still has to write.
abbrev pub text_of : Bool → List ℕ → List ℕ → List ℕ
text_of true [] label = []
text_of false [] label = label ++ 46 ∷ []
text_of whole (c ∷ name) label = label ++ (c ∷ (name ++ 46 ∷ []))

text-cons :
    (whole : Bool) (c : ℕ) (name label : List ℕ)
    → text_of whole (c ∷ name) label ≡ label ++ (c ∷ (name ++ 46 ∷ []))
text-cons true c name label = refl
text-cons false c name label = refl

text-char :
    (name : List ℕ) (c : ℕ) (label : List ℕ)
    → text_of false name (label ++ c ∷ []) ≡ label ++ (c ∷ (name ++ 46 ∷ []))
text-char [] c label = append_assoc label (c ∷ []) (46 ∷ [])
text-char (d ∷ name) c label = append_assoc label (c ∷ []) (d ∷ (name ++ 46 ∷ []))

text-start : (name : List ℕ) → text_of false name [] ≡ name ++ 46 ∷ []
text-start [] = refl
text-start (d ∷ name) = refl

loop-char :
    (outcap c : ℕ) (name : List ℕ) (whole : Bool) (label out : List ℕ)
    → (c == 46) ≡ false
    → encode_loop outcap (c ∷ name) whole label out
      ≡ encode_loop outcap name false (label ++ c ∷ []) out
unfolding encode_loop
loop-char outcap c name whole label out h = rw (h, encode_loop) refl

loop-dot :
    (outcap c : ℕ) (name : List ℕ) (whole : Bool) (label out : List ℕ)
    → (c == 46) ≡ true
    → encode_loop outcap (c ∷ name) whole label out
      ≡ and_then (encode_label outcap label out) (λ next. encode_loop outcap name false [] next)
unfolding encode_loop
loop-dot outcap c name whole label out h = rw (h, encode_loop) refl

-- A dot ends a label.
dot-Encoded :
    (c : ℕ) (name label out next bytes : List ℕ)
    → c ≡ 46
    → (next ≡ out ++ (length label ∷ label)) × (0 < length label) × (length label < 64)
    → Encoded bytes next (text_of false name [])
    → Encoded bytes out (label ++ (c ∷ (name ++ 46 ∷ [])))
dot-Encoded c name label out next bytes dot (n, pos, small) (ls, b, sized, t) = (
  label ∷ ls,
  b ∙ ap (λ (x : List ℕ). x ++ wire ls) n ∙ append_assoc out (length label ∷ label) (wire ls),
  ((pos, small), sized),
  append_assoc label (46 ∷ []) (dots ls)
      ∙ ap (λ (x : List ℕ). label ++ (46 ∷ x)) (t ∙ text-start name)
      ∙ ap (λ (x : ℕ). label ++ (x ∷ (name ++ 46 ∷ []))) (sym dot),
)

pub encode_loop-Encoded :
    (outcap : ℕ) (name : List ℕ) (whole : Bool) (label out bytes : List ℕ)
    → encode_loop outcap name whole label out ≡ some bytes
    → Encoded bytes out (text_of whole name label)
unfolding encode_loop
encode_loop-Encoded outcap [] true label out bytes e =
    let (o, same, q) = encode_root-some outcap (some out) bytes e in
    ([], q ∙ ap (λ (x : List ℕ). x ++ 0 ∷ []) (let r = same in cc), tt, refl)
encode_loop-Encoded outcap [] false label out bytes e =
    let (o, same, q) = encode_root-some outcap (encode_label outcap label out) bytes e in
    let (n, pos, small) = encode_label-some outcap label out o same in
    (
      label ∷ [],
      q ∙ ap (λ (x : List ℕ). x ++ 0 ∷ []) n ∙ append_assoc out (length label ∷ label) (0 ∷ []),
      ((pos, small), tt),
      append-nil (label ++ 46 ∷ []),
    )
encode_loop-Encoded outcap (c ∷ name) whole label out bytes e =
    elim (Bool-cases (c == 46)) as (λ _. Encoded bytes out (text_of whole (c ∷ name) label)) [
      | inl h ↦ subst (Encoded bytes out) (sym (text-cons whole c name label)) (
          let (next, o, rest) =
            and_then-some (encode_label outcap label out) _ bytes
              (sym (loop-dot outcap c name whole label out h) ∙ e) in
          dot-Encoded c name label out next bytes ((==_iff c 46).0 h)
            (encode_label-some outcap label out next o)
            (encode_loop-Encoded outcap name false [] next bytes rest))
      | inr h ↦
          let (ls, b, sized, t) =
            encode_loop-Encoded outcap name false (label ++ c ∷ []) out bytes
              (sym (loop-char outcap c name whole label out h) ∙ e) in
          (ls, b, sized, t ∙ text-char name c label ∙ sym (text-cons whole c name label))
    ]
