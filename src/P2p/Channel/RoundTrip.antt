-- ===== src/P2p/Channel/RoundTrip.antt =====
-- Decoding a ChannelData frame that was encoded, and where the demultiplexer sends it.
use x.Base.{
  ℕ, zero, suc, ◌+◌, ◌-◌, ◌*◌, ◌/◌, ◌^◌, ◌≤◌, ◌<◌, ◌≡◌, refl, ap, ◌∙◌, List, true, false, some,
  arith, ltb, if◌then◌else◌, length, get_or, drop, replicate, length-replicate, memcpy, slice,
  length-slice, slice-drop,
}
use x.Base.Errno.{ok}
use x.P2p.Wire.{turn_channel, unknown, classify, write_u16_be, align4, align4_lem}
use x.P2p.Frames.{Holds, padding_lem, written}
use x.P2p.Channel.{Frame, channel_header, channel_min, channel_max, copy_data, encode, decode}

-- A frame's data, of at least `n` bytes.
copy_data_lem :
    (bytes : List ℕ) (n : ℕ) (out : List ℕ)
    → copy_data (some bytes) n out ≡ memcpy out channel_header (slice bytes 0 n)
unfolding copy_data
copy_data_lem bytes zero out = refl
copy_data_lem bytes (suc n) out =
    let positive : ltb 0 (suc n) ≡ true = ground arith in rw positive refl

decode_held :
    (channel n : ℕ) (payload out : List ℕ) (frame : Frame)
    → channel_min ≤ channel
    → channel ≤ channel_max
    → channel_header + n ≤ length out
    → Holds 0 channel n payload out
    → decode (some out) (some frame) ≡ (
      ok,
      some (record { channel = channel; bytes = some (drop channel_header out); data_len = n }),
    )
unfolding decode
decode_held channel n payload out frame low high fits held =
    let long : ltb (length out) channel_header ≡ false = ground arith in
    let below : ltb channel channel_min ≡ false = ground arith in
    let above : ltb channel_max channel ≡ false = ground arith in
    let room : ltb (length out) (channel_header + n) ≡ false = ground arith in
    rw (long, held.word, held.size, below, above, room) refl

encoded :
    (channel n : ℕ) (bytes out : List ℕ)
    → channel < 2 ^ 16
    → n < 2 ^ 16
    → 4 + (n + 3) / 4 * 4 ≤ length out
    → (o : List ℕ) × (encode channel (some bytes) n out ≡ some (4 + (n + 3) / 4 * 4, o))
      × (length o ≡ length out)
      × Holds 0 channel n (slice bytes 0 n) o
unfolding encode
encoded channel n bytes out word short fits =
    let padded = align4_lem n short in
    let payload = slice bytes 0 n in
    let pad = replicate {A = ℕ} (align4 n - n) 0 in
    let room : ltb (length out) (channel_header + align4 n) ≡ false = ground arith in
    let (size, held, _) =
      written 0 channel n payload pad out (length-slice bytes 0 n) word short
        (omega (arith, length-replicate {A = ℕ} (align4 n - n) 0)) in
    let o2 = write_u16_be (write_u16_be out 0 channel) 2 n in
    let o = memcpy (memcpy o2 channel_header payload) (channel_header + n) pad in
    rw (room, copy_data_lem bytes n o2, padding_lem _ (4 + n) n)
      (o, ap (λ t. some (channel_header + t, o)) padded, size, held)

-- Decoding what xTurnChannelDataEncode wrote for a channel number in the range of RFC 5766 and data
-- that fit the output once padded: the frame takes the 4 bytes of the header and the data rounded
-- up to a multiple of 4, and xTurnChannelDataDecode gets back the channel and the data.
pub decode-encode_channel :
    (channel n : ℕ) (bytes out : List ℕ) (frame : Frame)
    → channel_min ≤ channel
    → channel ≤ channel_max
    → n < 2 ^ 16
    → 4 + (n + 3) / 4 * 4 ≤ length out
    → (o : List ℕ) × (encode channel (some bytes) n out ≡ some (4 + (n + 3) / 4 * 4, o))
      × (length o ≡ length out)
      × (decode (some o) (some frame)
          ≡ (ok, some (record { channel = channel; bytes = some (drop 4 o); data_len = n })))
      × (slice (drop 4 o) 0 n ≡ slice bytes 0 n)
decode-encode_channel channel n bytes out frame low high short fits =
    let (o, done, size, held) = encoded channel n bytes out (omega arith) short fits in
    (
      o,
      done,
      size,
      decode_held channel n (slice bytes 0 n) o frame low high (omega (arith, size)) held,
      slice-drop o 4 0 n ∙ held.bytes,
    )

by_first_byte :
    (b channel : ℕ)
    → b ≡ channel / 2 ^ 8
    → channel_min ≤ channel
    → channel ≤ channel_max
    → classify b ≡ (if ltb channel 20480 then turn_channel else unknown)
unfolding classify
by_first_byte b channel e low high = ground arith

-- The demultiplexer takes an encoded frame for ChannelData when its channel number is below 0x5000;
-- it knows no protocol for a frame with a higher one, though decoding accepts numbers up to 0x7FFF.
pub classify-encode_channel :
    (channel n : ℕ) (bytes out : List ℕ)
    → channel_min ≤ channel
    → channel ≤ channel_max
    → n < 2 ^ 16
    → 4 + (n + 3) / 4 * 4 ≤ length out
    → (o : List ℕ) × (encode channel (some bytes) n out ≡ some (4 + (n + 3) / 4 * 4, o))
      × (classify (get_or o 0 0) ≡ (if ltb channel 20480 then turn_channel else unknown))
classify-encode_channel channel n bytes out low high short fits =
    let (o, done, _, held) = encoded channel n bytes out (omega arith) short fits in
    (o, done, by_first_byte (get_or o 0 0) channel held.first low high)
