-- ===== src/Ws/Mask.antt =====
-- libx/x/http/ws_frame.c, unmask_payload: the loop over four bytes at a time against one byte at
-- a time.
use x.Base.{
  ℕ, zero, suc, ◌+◌, ◌-◌, ◌*◌, ◌/◌, ◌%◌, ◌≡◌, refl, sym, ap, ◌∙◌, List, [], ◌∷◌, ◌++◌, append_assoc,
  arith, length, length-append, get_or, set, bit_xor, bit_xor_twice, bit_and-mask,
}
use x.Ws.{unmask_words, unmask_bytes, unmask_payload}

-- The bytes from place `i` of a payload on, each with its byte of the key: the reference, RFC 6455
-- section 5.3.
abbrev pub xor_key : ℕ → List ℕ → List ℕ → List ℕ
xor_key i key [] = []
xor_key i key (b ∷ bytes) = bit_xor b (get_or key (i % 4) 0) ∷ xor_key (i + 1) key bytes

pub length-xor_key : (i : ℕ) (key bytes : List ℕ) → length (xor_key i key bytes) ≡ length bytes
length-xor_key i key [] = refl
length-xor_key i key (b ∷ bytes) = ap suc (length-xor_key (i + 1) key bytes)

pub xor_key-xor_key : (i : ℕ) (key bytes : List ℕ) → xor_key i key (xor_key i key bytes) ≡ bytes
xor_key-xor_key i key [] = refl
xor_key-xor_key i key (b ∷ bytes) =
    rw (bit_xor_twice b (get_or key (i % 4) 0), xor_key-xor_key (i + 1) key bytes) refl

get_or-at :
    (pre ys : List ℕ) (i k : ℕ) → i ≡ length pre + k → get_or (pre ++ ys) i 0 ≡ get_or ys k 0
get_or-at [] ys i k e = ap (λ (j : ℕ). get_or ys j 0) (omega arith)
get_or-at (x ∷ pre) ys zero k e = absurd (omega arith)
get_or-at (x ∷ pre) ys (suc i) k e = get_or-at pre ys i k (omega arith)

set-at :
    (pre ys : List ℕ) (i k v : ℕ) → i ≡ length pre + k → set (pre ++ ys) i v ≡ pre ++ set ys k v
set-at [] ys i k v e = ap (λ (j : ℕ). set ys j v) (omega arith)
set-at (x ∷ pre) ys zero k v e = absurd (omega arith)
set-at (x ∷ pre) ys (suc i) k v e = ap (λ t. x ∷ t) (set-at pre ys i k v (omega arith))

-- One write of either loop, `k` places behind a part that is done.
xor-at :
    (pre ys : List ℕ) (i j k m : ℕ)
    → i ≡ length pre
    → j ≡ i + k
    → set (pre ++ ys) j (bit_xor (get_or (pre ++ ys) j 0) m)
      ≡ pre ++ set ys k (bit_xor (get_or ys k 0) m)
xor-at pre ys i j k m e ej =
    rw (get_or-at pre ys j k (omega arith))
      (set-at pre ys j k (bit_xor (get_or ys k 0) m) (omega arith))

unmask_bytes-suc :
    (pre : List ℕ) (x : ℕ) (post key : List ℕ) (i : ℕ)
    → i ≡ length pre
    → unmask_bytes (length (x ∷ post)) i (pre ++ x ∷ post) key
      ≡ unmask_bytes (length post) (i + 1) (pre ++ bit_xor x (get_or key (i % 4) 0) ∷ post) key
unfolding unmask_bytes
unmask_bytes-suc pre x post key i e =
    ap (λ t. unmask_bytes (length post) (i + 1) t key)
      (rw (bit_and-mask 2 i) (xor-at pre (x ∷ post) i i 0 (get_or key (i % 4) 0) e (omega arith)))

unmask_bytes-xor_key :
    (pre post key : List ℕ) (i : ℕ)
    → i ≡ length pre
    → unmask_bytes (length post) i (pre ++ post) key ≡ pre ++ xor_key i key post
unfolding unmask_bytes
unmask_bytes-xor_key pre [] key i e = refl
unmask_bytes-xor_key pre (x ∷ post) key i e =
    let v = bit_xor x (get_or key (i % 4) 0) in
    unmask_bytes-suc pre x post key i e
    ∙ ap (λ t. unmask_bytes (length post) (i + 1) t key) (sym (append_assoc pre (v ∷ []) post))
    ∙ unmask_bytes-xor_key (pre ++ v ∷ []) post key (i + 1)
        (omega (arith, length-append pre (v ∷ [])))
    ∙ append_assoc pre (v ∷ []) _

abbrev xor4 : List ℕ → ℕ → ℕ → ℕ → ℕ → List ℕ
xor4 key x0 x1 x2 x3 =
    bit_xor x0 (get_or key 0 0)
    ∷ bit_xor x1 (get_or key 1 0)
    ∷ bit_xor x2 (get_or key 2 0)
    ∷ bit_xor x3 (get_or key 3 0)
    ∷ []

unmask_words-suc :
    (n i : ℕ) (pre : List ℕ) (x0 x1 x2 x3 : ℕ) (post key : List ℕ)
    → i ≡ length pre
    → unmask_words (suc n) i (pre ++ x0 ∷ x1 ∷ x2 ∷ x3 ∷ post) key
      ≡ unmask_words n (i + 4) (pre ++ (xor4 key x0 x1 x2 x3 ++ post)) key
unfolding unmask_words
unmask_words-suc n i pre x0 x1 x2 x3 post key e =
    let k0 = get_or key 0 0 in
    let k1 = get_or key 1 0 in
    let k2 = get_or key 2 0 in
    let k3 = get_or key 3 0 in
    let ys0 = x0 ∷ x1 ∷ x2 ∷ x3 ∷ post in
    let ys1 = bit_xor x0 k0 ∷ x1 ∷ x2 ∷ x3 ∷ post in
    let ys2 = bit_xor x0 k0 ∷ bit_xor x1 k1 ∷ x2 ∷ x3 ∷ post in
    let ys3 = bit_xor x0 k0 ∷ bit_xor x1 k1 ∷ bit_xor x2 k2 ∷ x3 ∷ post in
    let b0 = xor-at pre ys0 i (i + 0) 0 k0 e refl in
    let b1 = xor-at pre ys1 i (i + 1) 1 k1 e refl in
    let b2 = xor-at pre ys2 i (i + 2) 2 k2 e refl in
    let b3 = xor-at pre ys3 i (i + 3) 3 k3 e refl in
    let at3 = λ (t : List ℕ). set t (i + 3) (bit_xor (get_or t (i + 3) 0) k3) in
    let at2 = λ (t : List ℕ). set t (i + 2) (bit_xor (get_or t (i + 2) 0) k2) in
    let at1 = λ (t : List ℕ). set t (i + 1) (bit_xor (get_or t (i + 1) 0) k1) in
    ap (λ t. unmask_words n (i + 4) t key)
      (ap (λ t. at3 (at2 (at1 t))) b0 ∙ ap (λ t. at3 (at2 t)) b1 ∙ ap at3 b2 ∙ b3)

unmask-xor_key :
    (n m i : ℕ) (pre post key : List ℕ)
    → i ≡ length pre
    → i % 4 ≡ 0
    → length post ≡ 4 * n + m
    → unmask_bytes m (i + 4 * n) (unmask_words n i (pre ++ post) key) key
      ≡ pre ++ xor_key i key post
unfolding unmask_words
unmask-xor_key zero m i pre post key e aligned long =
    let em : m ≡ length post = omega arith in
    let ei : i + 4 * 0 ≡ i = omega arith in rw (em, ei) (unmask_bytes-xor_key pre post key i e)
unmask-xor_key (suc n) m i pre (x0 ∷ x1 ∷ x2 ∷ x3 ∷ post) key e aligned long =
    let done = xor4 key x0 x1 x2 x3 in
    let ei : i + 4 * suc n ≡ (i + 4) + 4 * n = omega arith in
    let e0 : i % 4 ≡ 0 = aligned in
    let e1 : (i + 1) % 4 ≡ 1 = omega arith in
    let e2 : (i + 1 + 1) % 4 ≡ 2 = omega arith in
    let e3 : (i + 1 + 1 + 1) % 4 ≡ 3 = omega arith in
    let e4 : i + 1 + 1 + 1 + 1 ≡ i + 4 = omega arith in
    let rest =
      unmask-xor_key n m (i + 4) (pre ++ done) post key (omega (arith, length-append pre done))
        (omega arith) (omega arith) in
    rw
      (
        ei,
        unmask_words-suc n i pre x0 x1 x2 x3 post key e,
        sym (append_assoc pre done post),
        rest,
        e0,
        e1,
        e2,
        e3,
        e4,
      )
      (append_assoc pre done _)
unmask-xor_key (suc n) m i pre [] key e aligned long = absurd (omega arith)
unmask-xor_key (suc n) m i pre (x0 ∷ []) key e aligned long = absurd (omega arith)
unmask-xor_key (suc n) m i pre (x0 ∷ x1 ∷ []) key e aligned long = absurd (omega arith)
unmask-xor_key (suc n) m i pre (x0 ∷ x1 ∷ x2 ∷ []) key e aligned long = absurd (omega arith)

-- On a payload of any length the two loops of unmask_payload combine each byte with the byte of
-- the key at its place modulo 4, the reference.
pub unmask_payload-xor_key :
    (bytes key : List ℕ) → unmask_payload bytes (length bytes) key ≡ xor_key 0 key bytes
unfolding unmask_payload
unmask_payload-xor_key bytes key =
    let words = length bytes / 4 in
    let m = length bytes - 4 * words in
    let e : 4 * words ≡ 0 + 4 * words = omega arith in
    ap (λ (t : ℕ). unmask_bytes m t (unmask_words words 0 bytes key) key) e
    ∙ unmask-xor_key words m 0 [] bytes key refl refl (omega arith)

-- Masking and unmasking with one key gives the payload back.
pub unmask_payload_twice :
    (bytes key : List ℕ)
    → unmask_payload (unmask_payload bytes (length bytes) key) (length bytes) key ≡ bytes
unmask_payload_twice bytes key =
    let once = unmask_payload bytes (length bytes) key in
    let same : once ≡ xor_key 0 key bytes = unmask_payload-xor_key bytes key in
    let long : length bytes ≡ length once = rw same (sym (length-xor_key 0 key bytes)) in
    ap (λ (t : ℕ). unmask_payload once t key) long
    ∙ unmask_payload-xor_key once key
    ∙ ap (xor_key 0 key) same
    ∙ xor_key-xor_key 0 key bytes
