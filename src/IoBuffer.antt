-- ===== src/IoBuffer.antt =====
-- libx/x/buf/io.c: buffers that are chains of references into shared, counted blocks. A block is
-- named by its place in the memory, and the pool is the stack of the blocks that are free.
pub mod Append
pub mod Contents
pub mod Queue
pub mod Cut
mod Tests
use x.Base.{
  ℕ, zero, suc, ◌+◌, ◌-◌, ◌*◌, List, [], ◌∷◌, ◌++◌, Bool, true, false, Option, some, none, ltb, leb,
  ◌==◌, if◌then◌else◌, length, get_or, set, drop, replicate, slice, min,
}
use x.Base.Errno.{Errno, ok, no_memory}

-- XIOBUFFER_BLOCK_SIZE
abbrev pub block_size : ℕ
block_size = 8192

-- XIOBUFFER_INLINE_REFS
abbrev pub inline_refs : ℕ
inline_refs = 8

-- struct xIOBlock
pub record Block : Type 0 where
  pub refs : ℕ
  pub size : ℕ
  pub bytes : List ℕ

-- struct xIOBufferRef
pub record Ref : Type 0 where
  pub block : ℕ
  pub offset : ℕ
  pub len : ℕ

-- struct xIOBuffer
pub record Buffer : Type 0 where
  pub refs : List Ref
  pub cap : ℕ
  pub nbytes : ℕ

-- The blocks there are, and the stack that g_pool_head heads.
pub record Mem : Type 0 where
  pub blocks : List Block
  pub pool : List ℕ

abbrev pub no_block : Block
no_block = record { refs = 0; size = 0; bytes = [] }

abbrev pub block_at : Mem → ℕ → Block
block_at m b = get_or m.blocks b no_block

abbrev pub put_block : Mem → ℕ → Block → Mem
put_block m b block = record m { blocks = set m.blocks b block }

-- xIOBlockAcquire; `malloc` tells whether one more block is granted.
pub acquire : (ℕ → Bool) → Mem → Option ℕ × Mem
acquire malloc m = elim m.pool [
  | b ∷ rest ↦ (
    some b,
    put_block (record m { pool = rest }) b (record (block_at m b) { refs = 1; size = 0 }),
  )
  | [] ↦
      let n = length m.blocks in
      let fresh : Block = record { refs = 1; size = 0; bytes = replicate block_size 0 } in
      if malloc n then (some n, record m { blocks = m.blocks ++ fresh ∷ [] }) else (none, m)
]

-- xIOBlockRetain
pub retain : ℕ → Mem → Mem
retain b m = put_block m b (record (block_at m b) { refs = (block_at m b).refs + 1 })

-- xIOBlockRelease
pub release : ℕ → Mem → Mem
release b m =
    let left = (block_at m b).refs - 1 in
    let less = put_block m b (record (block_at m b) { refs = left }) in
    if left == 0 then record less { pool = b ∷ m.pool } else less

-- The loop of iobuf_grow_refs.
pub double_to : ℕ → ℕ → ℕ → ℕ
double_to zero newcap needed = newcap
double_to (suc n) newcap needed =
    let rest = double_to n (newcap * 2) needed in if ltb newcap needed then rest else newcap

-- iobuf_grow_refs; `alloc` tells whether an array of that many references is granted.
pub grow_refs : (ℕ → Bool) → Buffer → ℕ → Errno × Buffer
grow_refs alloc io needed =
    let newcap = double_to 64 (if io.cap == 0 then inline_refs else io.cap * 2) needed in
    if leb needed io.cap
    then (ok, io)
    else if alloc newcap
    then (ok, record io { cap = newcap })
    else (no_memory, io)

abbrev pub on_ok : Errno × Buffer → (Buffer → Buffer) → Errno × Buffer
on_ok (ok, io) f = (ok, f io)
on_ok (other, io) f = (other, io)

-- iobuf_push_ref
pub push_ref : (ℕ → Bool) → Buffer → Ref → Bool → Errno × Buffer
push_ref alloc io r adjust =
    if r.len == 0
    then (ok, io)
    else on_ok (grow_refs alloc io (length io.refs + 1)) (λ io. record io {
      refs = io.refs ++ r ∷ [];
      nbytes = if adjust then io.nbytes + r.len else io.nbytes;
    })

-- xIOBufferInit
pub init : Buffer
init = record { refs = []; cap = inline_refs; nbytes = 0 }

-- The loop over the references of xIOBufferReset and xIOBufferDeinit.
pub release_all : List Ref → Mem → Mem
release_all [] m = m
release_all (r ∷ rs) m = release_all rs (release r.block m)

-- xIOBufferReset and xIOBufferDeinit
pub reset : Buffer → Mem → Buffer × Mem
reset io m = (record io { refs = []; nbytes = 0 }, release_all io.refs m)

pub deinit : Buffer → Mem → Buffer × Mem
deinit io m = (init, release_all io.refs m)

-- xIOBufferLen, xIOBufferEmpty and xIOBufferRefCount
pub len : Buffer → ℕ
len io = io.nbytes

pub is_empty : Buffer → Bool
is_empty io = io.nbytes == 0

pub ref_count : Buffer → ℕ
ref_count io = length io.refs

-- xIOBufferAppendIOBuffer: the answer, the buffer and the other buffer.
pub append_buffer : (ℕ → Bool) → Buffer → Buffer → Errno × Buffer × Buffer
append_buffer alloc io other =
    let r = grow_refs alloc io (length io.refs + length other.refs) in
    let joined = record r.1 { refs = r.1.refs ++ other.refs; nbytes = r.1.nbytes + other.nbytes } in
    if length other.refs == 0 then (ok, io, other) else elim r.0 [
      | ok ↦ (ok, joined, record other { refs = []; nbytes = 0 })
      | e ↦ (e, r.1, other)
    ]

-- What a loop over the first references has done: the bytes it went over, the references that
-- stay, the bytes it copied out, and the memory.
pub record Taken : Type 0 where
  pub total : ℕ
  pub rest : List Ref
  pub out : List ℕ
  pub mem : Mem

abbrev pub ref_bytes : Mem → Ref → ℕ → List ℕ
ref_bytes m r n = slice (block_at m r.block).bytes r.offset n

-- A reference without its first `n` bytes.
abbrev pub advance : Ref → ℕ → Ref
advance r n = record r { offset = r.offset + n; len = r.len - n }

-- The loop of xIOBufferRead, with `left` bytes to go.
pub read_loop : ℕ → List Ref → Mem → Taken
read_loop left [] m = record { total = 0; rest = []; out = []; mem = m }
read_loop left (r ∷ rs) m =
    let chunk = min r.len left in
    let bytes = ref_bytes m r chunk in
    let next = read_loop (left - chunk) rs (release r.block m) in
    if left == 0
    then record { total = 0; rest = r ∷ rs; out = []; mem = m }
    else if chunk == r.len
    then record next { total = chunk + next.total; out = bytes ++ next.out }
    else record { total = chunk; rest = advance r chunk ∷ rs; out = bytes; mem = m }

-- xIOBufferRead, with the bytes that it wrote to `out`.
pub read : Buffer → ℕ → Mem → Buffer × Taken
read io n m =
    let t = read_loop (min n io.nbytes) io.refs m in
    (record io { refs = t.rest; nbytes = io.nbytes - t.total }, t)

-- The loop of xIOBufferConsume.
pub consume_loop : ℕ → List Ref → Mem → Taken
consume_loop left [] m = record { total = 0; rest = []; out = []; mem = m }
consume_loop left (r ∷ rs) m =
    let next = consume_loop (left - r.len) rs (release r.block m) in
    if left == 0
    then record { total = 0; rest = r ∷ rs; out = []; mem = m }
    else if leb r.len left
    then record next { total = r.len + next.total }
    else record { total = left; rest = advance r left ∷ rs; out = []; mem = m }

-- xIOBufferConsume
pub consume : Buffer → ℕ → Mem → Buffer × Taken
consume io n m =
    let t = consume_loop (min n io.nbytes) io.refs m in
    (record io { refs = t.rest; nbytes = io.nbytes - t.total }, t)

-- xIOBufferCopyTo
pub copy_to : List Ref → Mem → List ℕ
copy_to [] m = []
copy_to (r ∷ rs) m = ref_bytes m r r.len ++ copy_to rs m

-- xIOBufferReadIov: the ranges, each a block's offset and length, of at most `max_iov` references.
pub read_iov : List Ref → ℕ → List Ref
read_iov rs zero = []
read_iov [] (suc n) = []
read_iov (r ∷ rs) (suc n) =
    let rest = read_iov rs n in if r.len == 0 then read_iov rs (suc n) else r ∷ rest
