-- ===== src/Ws/Tests.antt =====
-- libx/x/http/ws_frame.c: concrete frames.
use x.Base.{ℕ, ◌≡◌, refl, inl, List, [], ◌∷◌, ◌++◌, true, false, some, arith}
use x.Ws.{complete, stop, parse, unmask_payload}
use x.Ws.Encode.{encode}
use x.Ws.Mask.{xor_key, unmask_payload-xor_key}
use x.Ws.Resume.{receive_all, parse-receive_all}
use x.Ws.RoundTrip.{fresh, decoded, parse-encode, parse-encode_pieces}

abbrev word : List ℕ
word = 104 ∷ 101 ∷ 108 ∷ 108 ∷ 111 ∷ []

abbrev random_key : List ℕ
random_key = 17 ∷ 34 ∷ 51 ∷ 68 ∷ []

abbrev hello : List ℕ
hello = (encode (λ n. n) (λ n. true) random_key [] true false 1 (some word) 5 true).1

hello_bytes : hello ≡ 129 ∷ 133 ∷ 17 ∷ 34 ∷ 51 ∷ 68 ∷ 121 ∷ 71 ∷ 95 ∷ 40 ∷ 126 ∷ []
unfolding encode x.Ws.Encode.append x.Ws.Encode.encode_header x.Ws.Encode.encode_payload
    unmask_payload x.Ws.unmask_bytes x.Ws.unmask_words
hello_bytes = refl

unmask_payload-xor_key_example : unmask_payload word 5 random_key ≡ xor_key 0 random_key word
unmask_payload-xor_key_example = unmask_payload-xor_key word random_key

-- The frame comes in four pieces, the first one byte, and the buffer then holds a byte more.
parse-receive_all_example :
    receive_all
      (λ n. true)
      ((133 ∷ 17 ∷ 34 ∷ []) ∷ (51 ∷ 68 ∷ 121 ∷ []) ∷ (71 ∷ 95 ∷ 40 ∷ 126 ∷ 7 ∷ []) ∷ [])
      (parse (λ n. true) (fresh 1 0) (129 ∷ []))
    ≡ parse
        (λ n. true)
        (fresh 1 0)
        (129 ∷ 133 ∷ 17 ∷ 34 ∷ 51 ∷ 68 ∷ 121 ∷ 71 ∷ 95 ∷ 40 ∷ 126 ∷ 7 ∷ [])
parse-receive_all_example =
    parse-receive_all (λ n. true) (fresh 1 0) (129 ∷ [])
      ((133 ∷ 17 ∷ 34 ∷ []) ∷ (51 ∷ 68 ∷ 121 ∷ []) ∷ (71 ∷ 95 ∷ 40 ∷ 126 ∷ 7 ∷ []) ∷ [])

parse-encode_example :
    parse
      (λ n. true)
      (fresh 1 0)
      ((encode (λ n. n) (λ n. true) random_key [] true false 1 (some word) 5 true).1 ++ 7 ∷ [])
    ≡ stop complete (decoded 0 true false 1 true random_key word) (7 ∷ [])
unfolding encode x.Ws.Encode.append x.Ws.Encode.encode_header x.Ws.Encode.encode_payload
    unmask_payload x.Ws.unmask_bytes x.Ws.unmask_words
parse-encode_example =
    parse-encode (λ n. true) 0 true false 1 17 34 51 68 word (7 ∷ [])
      (omega arith, inl refl, inl (omega arith)) (omega arith) refl true (λ n. n) (λ n. true) refl

parse-encode_pieces_example :
    receive_all
      (λ n. true)
      ((129 ∷ []) ∷ (133 ∷ 17 ∷ 34 ∷ 51 ∷ 68 ∷ 121 ∷ 71 ∷ []) ∷ (95 ∷ 40 ∷ 126 ∷ 7 ∷ []) ∷ [])
      (parse (λ n. true) (fresh 1 0) [])
    ≡ stop complete (decoded 0 true false 1 true random_key word) (7 ∷ [])
unfolding encode x.Ws.Encode.append x.Ws.Encode.encode_header x.Ws.Encode.encode_payload
    unmask_payload x.Ws.unmask_bytes x.Ws.unmask_words
parse-encode_pieces_example =
    parse-encode_pieces (λ n. true) 0 true false 1 17 34 51 68 word (7 ∷ [])
      (omega arith, inl refl, inl (omega arith)) (omega arith) refl true (λ n. n) (λ n. true)
      ((129 ∷ []) ∷ (133 ∷ 17 ∷ 34 ∷ 51 ∷ 68 ∷ 121 ∷ 71 ∷ []) ∷ (95 ∷ 40 ∷ 126 ∷ 7 ∷ []) ∷ []) refl
      refl
