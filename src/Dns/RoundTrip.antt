-- ===== src/Dns/RoundTrip.antt =====
-- libx/x/dns/dns_packet.c: parse_name reads back what encode_name has written.
use x.Base.{
  ℕ, zero, suc, ◌+◌, ◌*◌, ◌%◌, ◌^◌, ◌≡◌, ◌≤◌, ◌<◌, refl, sym, ap, ap₂, ◌∙◌, inl, inr, List, [], ◌∷◌,
  ◌++◌, append_assoc, append-nil, true, false, some, none, ltb, leb, ◌==◌, ==_iff, get_or, length,
  length-append, take, drop, take-exact, drop-exact, Bool-cases, all_below_sound, bit_and, arith,
}
use x.Dns.{
  parsed, plain, root, kind_of, strip_dot, returned, at_root, parse_loop, parse_fuel, parse_name,
  encode_name,
}
use x.Dns.Total.{parse-root, parse-label}
use x.Dns.Wire.{wire, dots, Sized, encode_loop-Encoded, text_of}

get_or-at : (pre : List ℕ) (x : ℕ) (xs : List ℕ) → get_or (pre ++ (x ∷ xs)) (length pre) 0 ≡ x
get_or-at [] x xs = refl
get_or-at (p ∷ pre) x xs = get_or-at pre x xs

kind_of-plain : (c : ℕ) → 0 < c → c < 64 → kind_of c ≡ plain
unfolding kind_of
kind_of-plain c pos small =
    let e : bit_and c 0xC0 ≡ 0 =
      (==_iff (bit_and c 0xC0) 0).0 (all_below_sound 64 (λ c. bit_and c 0xC0 == 0) refl c small) in
    let z : (c == 0) ≡ false = ground arith in rw (e, z) refl

strip_dot-snoc : (xs : List ℕ) → strip_dot (xs ++ 46 ∷ []) ≡ xs
unfolding strip_dot
strip_dot-snoc [] = refl
strip_dot-snoc (x ∷ []) = refl
strip_dot-snoc (x ∷ y ∷ xs) = ap (◌∷◌ x) (strip_dot-snoc (y ∷ xs))

length-strip_dot : (xs : List ℕ) → length (strip_dot xs) ≤ length xs
unfolding strip_dot
length-strip_dot [] = omega arith
length-strip_dot (x ∷ []) = elim (Bool-cases (x == 46)) [
  | inl e ↦ rw e (omega arith)
  | inr e ↦ rw e (omega arith)
]
length-strip_dot (x ∷ y ∷ xs) = omega (arith, length-strip_dot (y ∷ xs))

length-wire : (ls : List (List ℕ)) → length ls < length (wire ls)
length-wire [] = omega arith
length-wire (l ∷ ls) = omega (arith, length-wire ls, length-append l (wire ls))

pub length-dots : (ls : List (List ℕ)) → length (dots ls) + 1 ≡ length (wire ls)
length-dots [] = refl
length-dots (l ∷ ls) = omega (
  arith,
  length-dots ls,
  length-append l (wire ls),
  length-append (l ++ 46 ∷ []) (dots ls),
  length-append l (46 ∷ []),
)

root_zero : kind_of 0 ≡ root
unfolding kind_of
root_zero = refl

-- One label of the buffer.
module _ (l rest pre : List ℕ) where
  abbrev bytes : List ℕ
  bytes = pre ++ (length l ∷ (l ++ rest))

  label-taken : take (length l) (drop (length pre + 1) bytes) ≡ l
  label-taken =
      ap (λ (b : List ℕ). take (length l) (drop (length pre + 1) b))
        (sym (append_assoc pre (length l ∷ []) (l ++ rest)))
      ∙ ap (take (length l)) (
          drop-exact (length pre + 1) (pre ++ length l ∷ []) (l ++ rest)
            (length-append pre (length l ∷ [])))
      ∙ take-exact (length l) l rest refl

  label-passed : bytes ≡ (pre ++ (length l ∷ l)) ++ rest
  label-passed = sym (append_assoc pre (length l ∷ l) rest)

  length-passed : length pre + 1 + length l ≡ length (pre ++ (length l ∷ l))
  length-passed = omega (arith, length-append pre (length l ∷ l))

  length-bytes : length bytes ≡ length pre + 1 + length l + length rest
  length-bytes = omega (arith, length-append pre (length l ∷ (l ++ rest)), length-append l rest)

-- A round of the loop at a label.
parse_loop-label :
    (out_cap n : ℕ) (l rest pre out seen : List ℕ)
    → 0 < length l
    → length l < 64
    → length out + length l + 1 < out_cap
    → parse_loop (suc n) (bytes l rest pre) out_cap (length pre) out none seen
      ≡ parse_loop n
          ((pre ++ (length l ∷ l)) ++ rest)
          out_cap
          (length (pre ++ (length l ∷ l)))
          (out ++ (l ++ 46 ∷ []))
          none
          seen
parse_loop-label out_cap n l rest pre out seen pos small room =
    let buf : List ℕ = bytes l rest pre in
    let cur : ℕ = length pre in
    let at : get_or buf cur 0 ≡ length l = get_or-at pre (length l) (l ++ rest) in
    let len : length buf ≡ length pre + 1 + length l + length rest = length-bytes l rest pre in
    parse-label buf out_cap n cur out none seen (ground arith)
      (ap kind_of at ∙ kind_of-plain (length l) pos small) (ground arith)
    ∙ ap
        (λ (c : ℕ).
          parse_loop n buf out_cap (cur + 1 + c) (out ++ (take c (drop (cur + 1) buf) ++ 46 ∷ []))
            none seen)
        at
    ∙ ap
        (λ (t : List ℕ).
          parse_loop n buf out_cap (cur + 1 + length l) (out ++ (t ++ 46 ∷ [])) none seen)
        (label-taken l rest pre)
    ∙ ap (λ (p : ℕ). parse_loop n buf out_cap p (out ++ (l ++ 46 ∷ [])) none seen)
        (length-passed l rest pre)
    ∙ ap
        (λ (b : List ℕ).
          parse_loop n b out_cap (length (pre ++ (length l ∷ l))) (out ++ (l ++ 46 ∷ [])) none seen)
        (label-passed l rest pre)

returned-small : (end : ℕ) (name : List ℕ) → end < 2 ^ 31 → returned end name ≡ parsed end name
unfolding returned
returned-small end name small =
    let word : end % 2 ^ 32 ≡ end = omega arith in
    let positive : ltb end (2 ^ 31) ≡ true = ground arith in rw (word, positive) refl

-- parse_loop at the labels `ls`, which stand behind `pre` in the buffer.
parse_loop-wire :
    (out_cap : ℕ) (ls : List (List ℕ)) (n : ℕ) (pre post out seen : List ℕ)
    → Sized ls
    → length ls < n
    → length out + length (dots ls) < out_cap
    → length pre + length (wire ls) < 2 ^ 31
    → parse_loop n (pre ++ (wire ls ++ post)) out_cap (length pre) out none seen
      ≡ parsed (length pre + length (wire ls)) (strip_dot (out ++ dots ls))
unfolding at_root
parse_loop-wire out_cap ls zero pre post out seen sized fuel room near = absurd (omega arith)
parse_loop-wire out_cap [] (suc n) pre post out seen sized fuel room near =
    let buf : List ℕ = pre ++ (0 ∷ post) in
    let len = length-append pre (0 ∷ post) in
    let inside : leb (length buf) (length pre) ≡ false = ground arith in
    let short : leb out_cap (length (strip_dot out)) ≡ false =
      (let s = length-strip_dot out in ground arith) in
    parse-root buf out_cap n (length pre) out none seen inside
      (ap kind_of (get_or-at pre 0 post) ∙ root_zero)
    ∙ (rw (short, append-nil out) (returned-small (length pre + 1) (strip_dot out) near))
parse_loop-wire out_cap (l ∷ ls) (suc n) pre post out seen ((pos, small), sized) fuel room near =
    let pre' : List ℕ = pre ++ (length l ∷ l) in
    let out' : List ℕ = out ++ (l ++ 46 ∷ []) in
    let len1 = length-append (l ++ 46 ∷ []) (dots ls) in
    let len2 = length-append l (46 ∷ []) in
    let len3 = length-append out (l ++ 46 ∷ []) in
    let ends : length pre' + length (wire ls) ≡ length pre + length (wire (l ∷ ls)) =
      omega (arith, length-append pre (length l ∷ l), length-append l (wire ls)) in
    ap
      (λ (b : List ℕ).
        parse_loop (suc n) (pre ++ (length l ∷ b)) out_cap (length pre) out none seen)
      (append_assoc l (wire ls) post)
    ∙ parse_loop-label out_cap n l (wire ls ++ post) pre out seen pos small (omega arith)
    ∙ parse_loop-wire out_cap ls n pre' post out' seen sized (omega arith) (omega arith)
        (omega arith)
    ∙ ap₂ parsed ends (ap strip_dot (append_assoc out (l ++ 46 ∷ []) (dots ls)))

text-strip : (name : List ℕ) → strip_dot (text_of true name []) ≡ name
unfolding strip_dot
text-strip [] = refl
text-strip (c ∷ name) = strip_dot-snoc (c ∷ name)

pub length-text : (name : List ℕ) → length (text_of true name []) ≤ length name + 1
length-text [] = omega arith
length-text (c ∷ name) = omega (arith, length-append name (46 ∷ []))

-- The encoding has at most two bytes more than the name.
pub length-encode_name :
    (outcap : ℕ) (name coded : List ℕ)
    → encode_name outcap name ≡ some coded
    → length coded ≤ length name + 2
unfolding encode_name
length-encode_name outcap name coded e =
    let (ls, b, sized, t) = encode_loop-Encoded outcap name true [] [] coded e in
    let lb = ap (λ (x : List ℕ). length x) b in
    let text = ap (λ (x : List ℕ). length x) t in omega (arith, length-text name, length-dots ls)

-- Wherever the bytes that encode_name writes for a name stand in a buffer, parse_name with two
-- bytes of room more than the name has bytes reads the name back, and ends behind them, as long as
-- they end in front of the offset 2^31.
pub parse-encode_name :
    (outcap out_cap : ℕ) (name coded pre post : List ℕ)
    → encode_name outcap name ≡ some coded
    → length name + 2 ≤ out_cap
    → length pre + length coded < 2 ^ 31
    → parse_name (pre ++ (coded ++ post)) (length pre) out_cap
      ≡ parsed (length pre + length coded) name
unfolding encode_name parse_name parse_fuel
parse-encode_name outcap out_cap name coded pre post e room near =
    let (ls, b, sized, t) = encode_loop-Encoded outcap name true [] [] coded e in
    let len = length-text name in
    let text = ap (λ (x : List ℕ). length x) t in
    let enough : length ls < 65 * (length (pre ++ (wire ls ++ post)) + 1) =
      omega (
        arith,
        length-wire ls,
        length-append pre (wire ls ++ post),
        length-append (wire ls) post,
      ) in
    ap
      (λ (x : List ℕ).
        parse_loop (65 * (length (pre ++ (x ++ post)) + 1)) (pre ++ (x ++ post)) out_cap
          (length pre) [] none [])
      b
    ∙ parse_loop-wire out_cap ls (65 * (length (pre ++ (wire ls ++ post)) + 1)) pre post [] [] sized
        enough (omega arith) (rw (ap (λ (x : List ℕ). length x) b) at near)
    ∙ ap₂ parsed (ap (λ (x : List ℕ). length pre + length x) (sym b))
        (ap strip_dot t ∙ text-strip name)
