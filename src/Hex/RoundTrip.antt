-- ===== src/Hex/RoundTrip.antt =====
-- Decoding the text that encoding wrote.
use x.Base.{
  ℕ, zero, suc, ◌+◌, ◌*◌, ◌/◌, ◌^◌, ◌≤◌, ◌<◌, ◌≡◌, refl, sym, ap, ap₂, ◌∙◌, List, [], ◌∷◌, ◌++◌,
  Bool, true, false, Option, some, none, arith, ltb, ◌==◌, ==_iff, all_below_sound, All, length,
  get_or, set, add_size, mul_size, bit_and, bit_and-mask, drop, memcpy, slice, slice-memcpy,
  length-append,
}
use x.Hex.{
  hex_val, hex_byte, high_digit, low_digit, encode_loop, hex_encode, decode_loop, hex_decode,
}

-- The text of some bytes.
pub digits : List ℕ → List ℕ
digits [] = []
digits (b ∷ bs) = high_digit b ∷ low_digit b ∷ digits bs

length-digits : (bs : List ℕ) → length (digits bs) ≡ length bs * 2
unfolding digits
length-digits [] = refl
length-digits (b ∷ bs) = omega (arith, length-digits bs)

is_byte : Option ℕ → ℕ → Bool
is_byte none b = false
is_byte (some c) b = c == b

is_byte_sound : (c : Option ℕ) (b : ℕ) → is_byte c b ≡ true → c ≡ some b
unfolding is_byte
is_byte_sound none b e = ground arith
is_byte_sound (some c) b e = ap some ((==_iff c b).0 e)

-- The two digits of a byte give it back: all 256 are tried.
hex_byte-digits :
    (b : ℕ) → b < 256 → hex_byte (hex_val (high_digit b)) (hex_val (low_digit b)) ≡ some b
unfolding hex_byte hex_val high_digit low_digit is_byte x.Hex.hex_digits
hex_byte-digits b h = is_byte_sound (hex_byte (hex_val (high_digit b)) (hex_val (low_digit b))) b (
    all_below_sound 256 (λ b. is_byte (hex_byte (hex_val (high_digit b)) (hex_val (low_digit b))) b)
      refl b h)

encode_loop_lem :
    (bs dst : List ℕ) (out : ℕ) → encode_loop bs dst out ≡ memcpy dst out (digits bs ++ 0 ∷ [])
unfolding encode_loop digits
encode_loop_lem [] dst out = refl
encode_loop_lem (b ∷ bs) dst out =
    let next = set (set dst out (high_digit b)) (out + 1) (low_digit b) in
    encode_loop_lem bs next (out + 2)
    ∙ ap (λ (p : ℕ). memcpy next p (digits bs ++ 0 ∷ [])) (omega arith)

cons-injective : {a b : ℕ} {as1 bs1 : List ℕ} → a ∷ as1 ≡ b ∷ bs1 → (a ≡ b) × (as1 ≡ bs1)
cons-injective e = (ap (λ t. get_or t 0 0) e, ap (λ t. drop 1 t) e)

-- A round of the loop on two digits.
decode_step :
    (n i : ℕ) (text dst : List ℕ) (b : ℕ)
    → hex_byte (hex_val (get_or text (i * 2) 0)) (hex_val (get_or text (i * 2 + 1) 0)) ≡ some b
    → decode_loop (suc n) i text dst ≡ decode_loop n (i + 1) text (set dst i b)
unfolding decode_loop
decode_step n i text dst b e = rw (e, decode_loop) refl

-- The decoding loop writes the bytes whose digits the text has.
decode_loop_lem :
    (bs text dst : List ℕ) (i : ℕ)
    → All (λ b. b < 256) bs
    → slice text (i * 2) (length bs * 2) ≡ digits bs
    → decode_loop (length bs) i text dst ≡ (true, memcpy dst i bs)
unfolding decode_loop digits
decode_loop_lem [] text dst i words e = refl
decode_loop_lem (b ∷ bs) text dst i (word, words) e =
    let size : suc (length bs) * 2 ≡ suc (suc (length bs * 2)) = omega arith in
    let e1 : slice text (i * 2) (suc (suc (length bs * 2))) ≡ digits (b ∷ bs) =
      ap (slice text (i * 2)) (sym size) ∙ e in
    let (high, e2) = cons-injective e1 in
    let (low, rest) = cons-injective e2 in
    let next : i * 2 + 1 + 1 ≡ (i + 1) * 2 = omega arith in
    decode_step (length bs) i text dst b
      (ap₂ (λ h l. hex_byte (hex_val h) (hex_val l)) high low ∙ hex_byte-digits b word)
    ∙ decode_loop_lem bs text (set dst i b) (i + 1) words
        (ap (λ (p : ℕ). slice text p (length bs * 2)) (sym next) ∙ rest)

text_start :
    (bs dst : List ℕ)
    → length bs * 2 + 1 ≤ length dst
    → slice (encode_loop bs dst 0) 0 (length bs * 2) ≡ digits bs
text_start bs dst fits =
    let n = length-digits bs in
    let whole = digits bs ++ 0 ∷ [] in
    let size : length whole ≡ length bs * 2 + 1 =
      omega (arith, length-append (digits bs) (let t : List ℕ = 0 ∷ [] in t)) in
    let all = slice-memcpy dst 0 whole (omega (arith, size)) in
    ap (λ t. slice t 0 (length bs * 2)) (encode_loop_lem bs dst 0)
    ∙ prefix (memcpy dst 0 whole) (digits bs) (0 ∷ []) 0 (length bs * 2) n (
        ap (slice (memcpy dst 0 whole) 0)
          (sym (length-append (digits bs) (let t : List ℕ = 0 ∷ [] in t)))
        ∙ all)
  where
    prefix :
        (m xs ys : List ℕ) (p n : ℕ)
        → length xs ≡ n
        → slice m p (length xs + length ys) ≡ xs ++ ys
        → slice m p n ≡ xs
    prefix m [] ys p zero h e = refl
    prefix m [] ys p (suc n) h e = absurd (omega arith)
    prefix m (x ∷ xs) ys p zero h e = absurd (omega arith)
    prefix m (x ∷ xs) ys p (suc n) h e =
        let size : length (x ∷ xs) + length ys ≡ suc (length xs + length ys) = omega arith in
        let (a, b) = cons-injective (ap (slice m p) (sym size) ∙ e) in
        ap₂ ◌∷◌ a (prefix m xs ys (p + 1) n (omega arith) b)

encoded :
    (src dst : List ℕ) (dst_len : ℕ)
    → length src < 2 ^ 62
    → length src * 2 + 1 ≤ dst_len
    → hex_encode (some src) (some dst) (some dst_len) ≡ some (encode_loop src dst 0, length src * 2)
unfolding hex_encode
encoded src dst dst_len small fits =
    let word : mul_size (length src) 2 ≡ length src * 2 = omega arith in
    let enough : ltb dst_len (add_size (length src * 2) 1) ≡ false = ground arith in
    rw (word, enough) refl

decoded_all :
    (src text out : List ℕ) (out_len : ℕ)
    → length src ≤ out_len
    → decode_loop (length src) 0 text out ≡ (true, memcpy out 0 src)
    → hex_decode (some text) (length src * 2) (some out) out_len
      ≡ (true, (some (memcpy out 0 src), length src))
unfolding hex_decode
decoded_all [] text out out_len fits e = refl
decoded_all (b ∷ src) text out out_len fits e =
    let n = length (b ∷ src) in
    let half : n * 2 / 2 ≡ n = omega arith in
    let some_left : (n * 2 == 0) ≡ false = ground arith in
    let even : (bit_and (n * 2) 1 == 0) ≡ true =
      (==_iff (bit_and (n * 2) 1) 0).1 (bit_and-mask 1 (n * 2) ∙ omega arith) in
    let enough : ltb out_len n ≡ false = ground arith in rw (some_left, even, half, enough, e) refl

-- Decoding the text that xHexEncode wrote, with enough room in both outputs: encoding gives twice
-- as many characters as there are bytes, and xHexDecode gets the bytes back.
pub decode-encode_hex :
    (src dst out : List ℕ) (dst_len out_len : ℕ)
    → All (λ b. b < 256) src
    → length src < 2 ^ 62
    → length src * 2 + 1 ≤ dst_len
    → dst_len ≤ length dst
    → length src ≤ out_len
    → out_len ≤ length out
    → (text : List ℕ) × (o : List ℕ) × (hex_encode (some src) (some dst) (some dst_len)
        ≡ some (text, length src * 2))
      × (hex_decode (some text) (length src * 2) (some out) out_len ≡ (true, (some o, length src)))
      × (slice o 0 (length src) ≡ src)
decode-encode_hex src dst out dst_len out_len words small fits room fits1 room1 =
    let text = encode_loop src dst 0 in
    let decoded = decode_loop_lem src text out 0 words (text_start src dst (omega arith)) in
    (
      text,
      memcpy out 0 src,
      encoded src dst dst_len small fits,
      decoded_all src text out out_len fits1 decoded,
      slice-memcpy out 0 src (omega arith),
    )
