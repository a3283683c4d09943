-- ===== src/Buffer.antt =====
-- libx/x/buf/buf.c: a linear byte buffer that grows. `bytes` lists the data part of the block that
-- was allocated, so its length is the block's size less the header's, whatever `cap` says.
pub mod Grow
pub mod Contents
pub mod Append
pub mod Reserve
mod Tests
use x.Base.{
  ℕ, zero, suc, ◌+◌, ◌-◌, ◌/◌, Bool, true, false, List, [], ◌∷◌, ◌++◌, Option, none, some, ltb, leb,
  ◌==◌, if◌then◌else◌, length, take, replicate, size_max, add_size, sub_size, mul_size, memcpy,
  slice,
}
use x.Base.Errno.{Errno, ok, invalid_arg, no_memory}

-- struct xBuffer_
pub record Buffer : Type 0 where
  pub rpos : ℕ
  pub wpos : ℕ
  pub cap : ℕ
  pub bytes : List ℕ

abbrev pub min_cap : ℕ
min_cap = 64

-- sizeof(xBuffer_): three words.
abbrev pub header_size : ℕ
header_size = 24

-- The loop of buf_next_cap, on fuel.
pub double_until : ℕ → ℕ → ℕ → ℕ
double_until zero cap needed = cap
double_until (suc fuel) cap needed =
    let rest = double_until fuel (mul_size cap 2) needed in if ltb cap needed then rest else cap

pub buf_next_cap : ℕ → ℕ → ℕ
buf_next_cap current needed =
    let cap = if current == 0 then min_cap else current in
    if ltb (size_max / 2) needed then size_max else double_until 64 cap needed

-- The data part of a block of `size` bytes in all, after `realloc`: what was there is kept as far
-- as it fits, and what is new is unspecified in C and stands as zeros.
abbrev pub resize : List ℕ → ℕ → List ℕ
resize bytes size =
    take (size - header_size) bytes ++ replicate (size - header_size - length bytes) 0

-- memmove(data, data + rpos, wpos - rpos), and the positions moved with it.
pub slide : Buffer → Buffer
slide b =
    let unread = sub_size b.wpos b.rpos in
    record b { rpos = 0; wpos = unread; bytes = memcpy b.bytes 0 (slice b.bytes b.rpos unread) }

-- buf_grow; `realloc` tells whether a block of a size is granted.
pub buf_grow : (ℕ → Bool) → Buffer → ℕ → Errno × Buffer
buf_grow realloc b needed =
    let unread = sub_size b.wpos b.rpos in
    let newcap = buf_next_cap b.cap needed in
    let size = add_size header_size newcap in
    let grown =
      if realloc size
      then (ok, record b { cap = newcap; bytes = resize b.bytes size })
      else (no_memory, b) in
    if leb needed b.cap
    then (ok, b)
    else if ltb 0 b.rpos
    then (if leb (add_size unread needed) b.cap then (ok, slide b) else grown)
    else grown

-- xBufferCreate
pub create : (ℕ → Bool) → ℕ → Option Buffer
create malloc initial_cap =
    let cap = if initial_cap == 0 then min_cap else initial_cap in
    let size = add_size header_size cap in
    if malloc size
    then some (record { rpos = 0; wpos = 0; cap = cap; bytes = resize [] size })
    else none

-- xBufferReset
pub reset : Option Buffer → Option Buffer
reset none = none
reset (some b) = some (record b { rpos = 0; wpos = 0 })

-- xBufferAppend past buf_grow: a failure is returned, else the bytes are copied in.
pub copy_behind : List ℕ → Buffer → Errno × Buffer → Errno × Option Buffer
copy_behind src b (ok, g) =
    (ok, some (record g { wpos = add_size g.wpos (length src); bytes = memcpy g.bytes g.wpos src }))
copy_behind src b (failed, g) = (failed, some b)

-- xBufferAppend, where `src` lists the `len` bytes.
pub append : (ℕ → Bool) → Option Buffer → List ℕ → Errno × Option Buffer
append realloc none src = (invalid_arg, none)
append realloc (some b) src =
    if length src == 0
    then (ok, some b)
    else copy_behind src b (buf_grow realloc b (add_size b.wpos (length src)))

-- xBufferReserve first moves the unread bytes to the front.
pub pack : Buffer → Buffer
pack b = if ltb 0 b.rpos then slide b else b

-- xBufferReserve
pub reserve : (ℕ → Bool) → Option Buffer → ℕ → Errno × Option Buffer
reserve realloc none additional = (invalid_arg, none)
reserve realloc (some b) additional =
    let packed = pack b in
    let grown = buf_grow realloc packed (add_size packed.wpos additional) in (grown.0, some grown.1)

-- xBufferData, with xBufferLen: the unread bytes, or `none` for NULL.
pub data_view : Option Buffer → Option (List ℕ)
data_view none = none
data_view (some b) =
    if leb b.wpos b.rpos then none else some (slice b.bytes b.rpos (sub_size b.wpos b.rpos))

-- xBufferLen
pub len : Option Buffer → ℕ
len none = 0
len (some b) = sub_size b.wpos b.rpos

-- xBufferCap
pub capacity : Option Buffer → ℕ
capacity none = 0
capacity (some b) = b.cap

-- xBufferWritable
pub writable : Option Buffer → ℕ
writable none = 0
writable (some b) = sub_size b.cap b.wpos

-- xBufferConsume
pub consume : Option Buffer → ℕ → Option Buffer
consume none n = none
consume (some b) n =
    if leb (sub_size b.wpos b.rpos) n
    then some (record b { rpos = 0; wpos = 0 })
    else some (record b { rpos = add_size b.rpos n })

-- xBufferCompact
pub compact : Option Buffer → Option Buffer
compact none = none
compact (some b) = if b.rpos == 0 then some b else some (slide b)
