-- ===== src/Lib.antt =====
-- libx, a C library of networking building blocks. This library models parts of it that keep state
-- or carry a wire format, and proves what those parts promise to their callers.
--
-- Parts and files
-- ---------------
-- Base         shared by all: lists over native numbers, size_t arithmetic with its wrap at 2^64,
--              bit operations as arithmetic, flat memory with memcpy, and the error codes of
--              libx/x/base/error.h.
-- Ring         libx/x/buf/ring.c, the byte ring buffer. A `Ring` is xRingBuffer_; `write`, `read`,
--              `peek`, `discard`, `reset` and the queries are the xRingBuffer functions, `copy_in`
--              and `copy_slots` the two-part memcpy around the end of the array.
-- Buffer       libx/x/buf/buf.c, the growing linear buffer. `append`, `reserve`, `consume`,
--              `compact` and `data_view` are the xBuffer functions over `buf_grow`.
-- Heap         libx/x/base/heap.c, the binary heap under the timers. The comparison is a parameter;
--              what the setidx callback stores is the `index` of the state.
-- Bitmap       libx/x/base/bitmap.c, the life cycle of a bitmap and its single bits; Bitmap.Bulk
--              has the operations on all bits.
-- Hex          libx/x/base/hex.c, bytes as hexadecimal text.
-- Ws           libx/x/http/ws_frame.c, WebSocket frames: `parse` is xWsFrameParse, one function for
--              each of its phases, and Ws.Encode the encoder. Ws.Resume is about frames that come
--              in pieces, Ws.RoundTrip about the two together.
-- MapFlat      libx/x/base/map_flat.c, the hash map with open addressing: `flat_set`, `flat_get` and
--              `flat_del` over their probing loops, `resize` with its rehash.
-- MapHash      libx/x/base/map_hash.c, the hash map with chains: `hash_set`, `hash_get`, `hash_del`
--              and `hash_iterate` over the loops on one chain, `resize` with its rehash.
-- Mpsc         libx/x/base/mpsc.c, the queue of many producers and one consumer: `push_step` and
--              `pop_step` are the atomic operations of xMpscPush and xMpscPop in their order, and
--              `Step` interleaves them.
-- Dns          libx/x/dns/dns_packet.c, domain names with compression pointers; Dns.Packet has the
--              query builder and the parser of packets, Dns.Response the builder of responses,
--              Dns.Clone the copies of record lists and Dns.Qtype the masks of record types.
-- IoBuffer     libx/x/buf/io.c, chains of references into blocks that buffers share: a memory of
--              counted blocks with the pool is part of the state. IoBuffer.Append has
--              xIOBufferAppend, IoBuffer.Cut xIOBufferCut.
-- P2p.Wire     the helpers of libx/x/p2p/ice_private.h: big-endian words, padding, and the
--              demultiplexer by first byte. P2p.Frames has the lemmas on what they write.
-- P2p.Message  libx/x/p2p/stun_msg.c, STUN messages.
-- P2p.Attr     libx/x/p2p/stun_attr.c, writing attributes and iterating over them; P2p.Address has
--              the addresses in them, P2p.Reason the text attributes and error codes.
-- P2p.Channel  libx/x/p2p/turn_channel.c, TURN ChannelData frames.
-- P2p.Pair     libx/x/p2p/ice_pair.c, priorities of candidate pairs.
--
-- The agent sends a STUN message by writing attributes into an area (P2p.Attr), which becomes the
-- payload of a message (P2p.Message); a received packet is classified by its first byte (P2p.Wire),
-- decoded, and iterated over. A connection appends what it receives to an I/O buffer, and the frame
-- parser takes its bytes from the front of one: Ws sees the buffer as the list of its unread bytes,
-- which is what `copy_to` of IoBuffer makes of its references. Each part stands on the words and the
-- flat memory of Base.
--
-- Conventions
-- -----------
-- A C function on a pointer is a function on an `Option`, where `none` is NULL, and returns the
-- state after the call with the result. A `size_t` is a number with its modulus written out. The
-- allocator is a parameter that tells which sizes are granted; freshly allocated bytes, which are
-- unspecified in C, stand as zeros. A buffer of `n` bytes is the list of those bytes.
--
-- Loops run on fuel where they are not structural: buf_next_cap on 64 doublings, which is enough as
-- the 64th passes 2^63; sift_up on the index and sift_down on the size, which bound their rounds.
-- The search for a free slot of a resize runs for as many rounds as there are slots, which is enough
-- as one of them is free; iobuf_grow_refs on 64 doublings; the loop of xIOBufferAppend on the number
-- of its bytes, as each round takes one at least. The results on these functions are stated of the
-- whole function, fuel included.
--
-- parse_name follows at most 64 pointers and moves on between two of them, so 65 times the length of
-- the buffer and one rounds are enough.
--
-- An int that dns_packet.c returns is its size_t modulo 2^32, negative from 2^31 on: a negative
-- result of a builder is none. The builders' packets of 4 GiB or more, whose int is positive
-- again, stand with all their bytes.
--
-- The queue's atomic operations take effect in one order, which acquire and release give for the
-- words that its threads share; a node is pushed again only when it is no longer in the queue.
--
-- Counts of bytes and references in I/O buffers and maps, which memory bounds, stand without their
-- modulus. Blocks are counted and pooled by one thread at a time: the lock-free stack is a list.
--
-- Not modelled: calls on file descriptors and scatter/gather views of the ring and the buffer, the
-- population count of the bitmap, the integrity and fingerprint attributes, which need the hashes,
-- and the other modules of libx, many of which mainly call the operating system and libraries.
pub mod Base
pub mod Ring
pub mod Buffer
pub mod Heap
pub mod P2p
pub mod Bitmap
pub mod Hex
pub mod Ws
pub mod Dns
pub mod MapFlat
pub mod MapHash
pub mod Mpsc
pub mod IoBuffer
