-- ===== src/Ring.antt =====
-- libx/x/buf/ring.c: a byte ring of power-of-two capacity with free-running cursors.
-- A handle is an `Option`: `none` is NULL. `bytes` lists the `cap` bytes of the flexible array.
pub mod Capacity
pub mod Cyclic
pub mod Bounds
pub mod Copy
pub mod Cursors
pub mod Fifo
pub mod Fresh
mod Tests
use x.Base.{
  ℕ, zero, suc, ◌+◌, Bool, true, false, List, [], ◌∷◌, Option, none, some, bit_and, bit_or, ltb,
  leb, ◌==◌, if◌then◌else◌, ◌++◌, length, replicate, add_size, sub_size, size_max, ◌>>◌, memcpy,
  slice,
}

-- struct xRingBuffer_
pub record Ring : Type 0 where
  pub cap : ℕ
  pub mask : ℕ
  pub head : ℕ
  pub tail : ℕ
  pub bytes : List ℕ

-- The shifts of next_pow2, on a 64-bit target.
pub smear : ℕ → ℕ
smear v =
    let v1 = bit_or v (v >> 1) in
    let v2 = bit_or v1 (v1 >> 2) in
    let v4 = bit_or v2 (v2 >> 4) in
    let v8 = bit_or v4 (v4 >> 8) in let v16 = bit_or v8 (v8 >> 16) in bit_or v16 (v16 >> 32)

pub next_pow2 : ℕ → ℕ
unfolding smear
next_pow2 v =
    let w = if ltb v 16 then 16 else v in
    if ltb (add_size (size_max >> 1) 1) w
    then add_size (size_max >> 1) 1
    else add_size (smear (sub_size w 1)) 1

-- sizeof(xRingBuffer_): four words.
abbrev header_size : ℕ
header_size = 32

-- The fields that xRingBufferCreate sets. The bytes of a fresh block are unspecified in C and stand
-- as zeros, since nothing reads them before they are written.
pub fresh : ℕ → Ring
fresh cap = record { cap = cap; mask = sub_size cap 1; head = 0; tail = 0; bytes = replicate cap 0 }

-- xRingBufferCreate; `malloc` tells whether a block of a size is granted.
pub create : (ℕ → Bool) → ℕ → Option Ring
create malloc min_cap =
    let cap = next_pow2 min_cap in
    if min_cap == 0
    then none
    else if malloc (add_size header_size cap)
    then some (fresh cap)
    else none

-- xRingBufferReset
pub reset : Option Ring → Option Ring
reset none = none
reset (some r) = some (record r { head = 0; tail = 0 })

-- xRingBufferLen
pub len : Option Ring → ℕ
len none = 0
len (some r) = sub_size r.head r.tail

-- xRingBufferCap
pub capacity : Option Ring → ℕ
capacity none = 0
capacity (some r) = r.cap

-- xRingBufferWritable
pub writable : Option Ring → ℕ
writable none = 0
writable (some r) = sub_size r.cap (sub_size r.head r.tail)

-- xRingBufferEmpty
pub is_empty : Option Ring → Bool
is_empty none = true
is_empty (some r) = r.head == r.tail

-- xRingBufferFull
pub is_full : Option Ring → Bool
is_full none = false
is_full (some r) = sub_size r.head r.tail == r.cap

-- The two `memcpy` calls of xRingBufferWrite, for `src` of the clamped length.
pub copy_in : Ring → List ℕ → List ℕ
copy_in r src =
    let pos = bit_and r.head r.mask in
    let first = sub_size r.cap pos in
    if leb (length src) first
    then memcpy r.bytes pos src
    else memcpy (memcpy r.bytes pos (slice src 0 first)) 0
        (slice src first (sub_size (length src) first))

-- xRingBufferWrite, where `src` lists the `len` bytes offered.
pub write : Option Ring → List ℕ → ℕ × Option Ring
write none src = (0, none)
write (some r) src =
    let room = sub_size r.cap (sub_size r.head r.tail) in
    let n = if ltb room (length src) then room else length src in
    if length src == 0
    then (0, some r)
    else if n == 0
    then (0, some r)
    else (n, some (record r { head = add_size r.head n; bytes = copy_in r (slice src 0 n) }))

-- The two `memcpy` calls of ring_copy_out, for the clamped length.
pub copy_slots : Ring → ℕ → List ℕ
copy_slots r n =
    let pos = bit_and r.tail r.mask in
    let first = sub_size r.cap pos in
    if leb n first
    then slice r.bytes pos n
    else slice r.bytes pos first ++ slice r.bytes 0 (sub_size n first)

-- ring_copy_out: the bytes copied, whose number is the result.
pub copy_out : Ring → ℕ → List ℕ
copy_out r want =
    let readable = sub_size r.head r.tail in
    let n = if ltb readable want then readable else want in if n == 0 then [] else copy_slots r n

-- xRingBufferRead
pub read : Option Ring → ℕ → List ℕ × Option Ring
read none want = ([], none)
read (some r) want =
    let out = copy_out r want in (out, some (record r { tail = add_size r.tail (length out) }))

-- xRingBufferPeek
pub peek : Option Ring → ℕ → List ℕ
peek none want = []
peek (some r) want = copy_out r want

-- xRingBufferDiscard
pub discard : Option Ring → ℕ → ℕ × Option Ring
discard none n = (0, none)
discard (some r) n =
    let readable = sub_size r.head r.tail in
    let m = if ltb readable n then readable else n in
    (m, some (record r { tail = add_size r.tail m }))
