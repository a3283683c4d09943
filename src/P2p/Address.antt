-- ===== src/P2p/Address.antt =====
-- libx/x/p2p/stun_attr.c: addresses in attributes, plain and XORed with the magic cookie and the
-- transaction id.
pub mod Xor
pub mod Values
pub mod RoundTrip
mod Tests
use x.Base.{
  ℕ, zero, suc, ◌+◌, List, [], ◌∷◌, Bool, true, false, Option, some, none, ltb, ◌==◌, if◌then◌else◌,
  get_or, set, bit_xor, u16, ◌>>◌, memcpy, slice, replicate,
}
use x.Base.Errno.{Errno, ok, invalid_arg}
use x.P2p.Wire.{read_u16_be, read_u32_be, write_u16_be, write_u32_be}
use x.P2p.Message.{magic_cookie}
use x.P2p.Attr.{Writer, Attribute, attr_write_raw}

-- A socket address by its family, with ports and IPv4 addresses as the numbers that ntohs and
-- ntohl give; `unspecified` is zeroed memory, and `other` any family but these.
pub data SockAddr : Type 0 where
  inet : (port ip : ℕ) → SockAddr
  inet6 : (port : ℕ) (address : List ℕ) → SockAddr
  unspecified : SockAddr
  other : SockAddr

-- The 16 bytes that an IPv6 address is XORed with.
pub xor_key : List ℕ → List ℕ
xor_key txn_id = memcpy (write_u32_be (replicate 16 0) 0 magic_cookie) 4 (slice txn_id 0 12)

-- `n` rounds of the loop `value[off + i] ^= key[i]`, from `i` on.
pub xor_into : ℕ → ℕ → List ℕ → List ℕ → ℕ → List ℕ
xor_into zero i value key off = value
xor_into (suc n) i value key off =
    let next = set value (off + i) (bit_xor (get_or value (off + i) 0) (get_or key i 0)) in
    xor_into n (i + 1) next key off

-- encode_address up to its call of attr_write_raw: the value and its length.
pub address_value : SockAddr → Bool → List ℕ → Option (List ℕ × ℕ)
address_value (inet port ip) xor_encode txn_id =
    let start = set (set (replicate 20 0) 0 0) 1 1 in
    let port1 = if xor_encode then bit_xor port (u16 (magic_cookie >> 16)) else port in
    let ip1 = if xor_encode then bit_xor ip magic_cookie else ip in
    some (write_u32_be (write_u16_be start 2 port1) 4 ip1, 8)
address_value (inet6 port address) xor_encode txn_id =
    let start = set (set (replicate 20 0) 0 0) 1 2 in
    let port1 = if xor_encode then bit_xor port (u16 (magic_cookie >> 16)) else port in
    let value = memcpy (write_u16_be start 2 port1) 4 (slice address 0 16) in
    some (if xor_encode then xor_into 16 0 value (xor_key txn_id) 4 else value, 20)
address_value unspecified xor_encode txn_id = none
address_value other xor_encode txn_id = none

-- encode_address; xStunAttrWriteXorMappedAddress and xStunAttrWriteXorPeerAddress are it with the
-- types 0x0020 and 0x0012 and xor_encode, xStunAttrWriteMappedAddress with 0x0001 and without.
pub encode_address : Writer → ℕ → SockAddr → Bool → List ℕ → Errno × Writer
encode_address w attr_type addr xor_encode txn_id = elim (address_value addr xor_encode txn_id) [
  | some v ↦ attr_write_raw w attr_type (some v.0) v.1
  | none ↦ (invalid_arg, w)
]

-- The end of the IPv6 branch of decode_address.
pub unmask : Bool → Option (List ℕ) → List ℕ → List ℕ
unmask true (some id) address = xor_into 16 0 address (xor_key id) 0
unmask true none address = address
unmask false id address = address

-- decode_address, with what `out` is after the call; `none` for the transaction id is NULL.
pub decode_address : Option Attribute → Bool → Option (List ℕ) → SockAddr → Errno × SockAddr
decode_address none xor_decode txn_id out = (invalid_arg, out)
decode_address (some attr) xor_decode txn_id out =
    let v = attr.value in
    let family = get_or v 1 0 in
    let port = read_u16_be v 2 in
    let ip = read_u32_be v 4 in
    let port1 = if xor_decode then bit_xor port (u16 (magic_cookie >> 16)) else port in
    let ip1 = if xor_decode then bit_xor ip magic_cookie else ip in
    let address = unmask xor_decode txn_id (slice v 4 16) in
    if ltb attr.len 4
    then (invalid_arg, out)
    else if family == 1
    then (if ltb attr.len 8 then (invalid_arg, unspecified) else (ok, inet port1 ip1))
    else if family == 2
    then (if ltb attr.len 20 then (invalid_arg, unspecified) else (ok, inet6 port1 address))
    else (invalid_arg, unspecified)
