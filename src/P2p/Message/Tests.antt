-- ===== src/P2p/Message/Tests.antt =====
-- Runs of the STUN message codec on concrete input.
use x.Base.{
  ℕ, ◌+◌, ◌≡◌, refl, List, [], ◌∷◌, some, arith, leb, ◌&&◌, if◌then◌else◌, length, replicate,
}
use x.Base.Errno.{ok, invalid_arg}
use x.P2p.Wire.{read_u16_be, read_u32_be}
use x.P2p.Message.{Message, encode, decode, is_stun, init}
use x.P2p.Message.RoundTrip.{IsValid, payload, decode_accepts, decode-encode_message}

abbrev request : Message
request = record {
  type = 1;
  len = 0;
  txn_id = 1 ∷ 2 ∷ 3 ∷ 4 ∷ 5 ∷ 6 ∷ 7 ∷ 8 ∷ 9 ∷ 10 ∷ 11 ∷ 12 ∷ [];
  attrs = some (0 ∷ 36 ∷ 0 ∷ 0 ∷ []);
  attrs_len = 4;
}

request-IsValid : IsValid request
request-IsValid = record {
  type_word = omega arith;
  len_word = omega arith;
  id = refl;
  given = refl;
}

abbrev packet : List ℕ
packet =
    0 ∷ 1 ∷ 0 ∷ 4 ∷ 33 ∷ 18 ∷ 164 ∷ 66 ∷ 1 ∷ 2 ∷ 3 ∷ 4 ∷ 5 ∷ 6 ∷ 7 ∷ 8 ∷ 9 ∷ 10 ∷ 11 ∷ 12 ∷ 0 ∷ 36
    ∷ 0 ∷ 0 ∷ 0 ∷ []

decode-encode_message_example :
    (out : List ℕ) × (m : Message) × (encode (some request) (some (replicate 25 0))
      ≡ some (24, out))
    × (length out ≡ 25)
    × (decode (some request) (some out) ≡ (ok, some m))
    × (m.type ≡ 1)
    × (m.txn_id ≡ request.txn_id)
    × (m.len ≡ 4)
    × (m.attrs_len ≡ 4)
    × (payload m ≡ payload request)
decode-encode_message_example =
    decode-encode_message request request (replicate 25 0) request-IsValid (omega arith)

decode_accepts_example :
    (decode (some request) (some packet)).0
    ≡ (if is_stun (some packet) && leb (20 + read_u16_be packet 2) 25 then ok else invalid_arg)
decode_accepts_example = decode_accepts request packet

accepted : decode (some (init 0 [])) (some packet) ≡ (
  ok,
  some (record {
    type = 1;
    len = 4;
    txn_id = request.txn_id;
    attrs = some (0 ∷ 36 ∷ 0 ∷ 0 ∷ 0 ∷ []);
    attrs_len = 4;
  }),
)
unfolding decode read_u16_be read_u32_be init
accepted = refl
