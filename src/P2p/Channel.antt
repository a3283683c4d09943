-- ===== src/P2p/Channel.antt =====
-- libx/x/p2p/turn_channel.c: TURN ChannelData frames.
pub mod RoundTrip
mod Tests
use x.Base.{
  ℕ, ◌+◌, ◌-◌, List, Option, some, none, ltb, ◌||◌, if◌then◌else◌, length, drop, memcpy, slice,
  replicate,
}
use x.Base.Errno.{Errno, ok, invalid_arg}
use x.P2p.Wire.{read_u16_be, write_u16_be, align4}

abbrev pub channel_header : ℕ
channel_header = 4

-- XTURN_CHANNEL_MIN, 0x4000, and XTURN_CHANNEL_MAX, 0x7FFF.
abbrev pub channel_min : ℕ
channel_min = 16384

abbrev pub channel_max : ℕ
channel_max = 32767

-- The memcpy of xTurnChannelDataEncode, where `data` is not NULL.
pub copy_data : Option (List ℕ) → ℕ → List ℕ → List ℕ
copy_data none data_len out = out
copy_data (some bytes) data_len out =
    if ltb 0 data_len then memcpy out channel_header (slice bytes 0 data_len) else out

-- xTurnChannelDataEncode into the bytes `out`; -1 is `none`.
pub encode : ℕ → Option (List ℕ) → ℕ → List ℕ → Option (ℕ × List ℕ)
encode channel bytes data_len out =
    let total = channel_header + align4 data_len in
    let o1 = write_u16_be out 0 channel in
    let o2 = write_u16_be o1 2 data_len in
    let o3 = copy_data bytes data_len o2 in
    let padded = align4 data_len in
    let o4 =
      if ltb data_len padded
      then memcpy o3 (channel_header + data_len) (replicate (padded - data_len) 0)
      else o3 in
    if ltb (length out) total then none else some (total, o4)

-- What xTurnChannelDataDecode fills through its three pointers.
pub record Frame : Type 0 where
  pub channel : ℕ
  pub bytes : Option (List ℕ)
  pub data_len : ℕ

-- xTurnChannelDataDecode; `none` for the frame says that one of the three pointers is NULL.
pub decode : Option (List ℕ) → Option Frame → Errno × Option Frame
decode none frame = (invalid_arg, frame)
decode (some buf) none = (invalid_arg, none)
decode (some buf) (some frame) =
    let channel = read_u16_be buf 0 in
    let data_len = read_u16_be buf 2 in
    let start = record frame { channel = channel; data_len = data_len } in
    if ltb (length buf) channel_header
    then (invalid_arg, some frame)
    else if ltb channel channel_min || ltb channel_max channel
    then (invalid_arg, some start)
    else if ltb (length buf) (channel_header + data_len)
    then (invalid_arg, some start)
    else (ok, some (record start { bytes = some (drop channel_header buf) }))
