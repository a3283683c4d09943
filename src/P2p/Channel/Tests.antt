-- ===== src/P2p/Channel/Tests.antt =====
-- Runs of the ChannelData codec on concrete input.
use x.Base.{ℕ, ◌≡◌, List, [], ◌∷◌, some, none, arith, length, drop, replicate, get_or, slice}
use x.Base.Errno.{ok}
use x.P2p.Wire.{unknown, classify}
use x.P2p.Channel.{Frame, encode, decode}
use x.P2p.Channel.RoundTrip.{decode-encode_channel, classify-encode_channel}

abbrev blank : Frame
blank = record { channel = 0; bytes = none; data_len = 0 }

decode-encode_channel_example :
    (o : List ℕ) × (encode 16385 (some (7 ∷ 8 ∷ 9 ∷ 10 ∷ 11 ∷ [])) 5 (replicate 16 1)
      ≡ some (12, o))
    × (length o ≡ 16)
    × (decode (some o) (some blank)
        ≡ (ok, some (record { channel = 16385; bytes = some (drop 4 o); data_len = 5 })))
    × (slice (drop 4 o) 0 5 ≡ 7 ∷ 8 ∷ 9 ∷ 10 ∷ 11 ∷ [])
decode-encode_channel_example =
    decode-encode_channel 16385 5 (7 ∷ 8 ∷ 9 ∷ 10 ∷ 11 ∷ []) (replicate 16 1) blank (omega arith)
      (omega arith) (omega arith) (omega arith)

classify-encode_channel_example :
    (o : List ℕ) × (encode 20480 (some (7 ∷ [])) 1 (replicate 8 1) ≡ some (8, o))
    × (classify (get_or o 0 0) ≡ unknown)
classify-encode_channel_example =
    classify-encode_channel 20480 1 (7 ∷ []) (replicate 8 1) (omega arith) (omega arith)
      (omega arith) (omega arith)
