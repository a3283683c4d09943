-- ===== src/P2p/Address/RoundTrip.antt =====
-- Decoding an address that was encoded.
use x.Base.{
  ℕ, ◌^◌, ◌≤◌, ◌<◌, ◌≡◌, refl, sym, subst, ap, ◌∙◌, List, Bool, true, false, Option, some, none,
  arith, if◌then◌else◌, length, get_or, set, replicate, bit_xor, u16, ◌>>◌, memcpy, slice,
  length-slice,
}
use x.Base.Errno.{ok}
use x.P2p.Wire.{read_u16_be, write_u16_be, write_u32_be}
use x.P2p.Message.{magic_cookie}
use x.P2p.Attr.{Attribute}
use x.P2p.Address.{
  SockAddr, inet, inet6, unspecified, other, xor_key, xor_into, address_value, unmask,
  decode_address,
}
use x.P2p.Address.Xor.{xors, xors_twice, get_or-xor_into, slice-xor_into, xor_into_all}
use x.P2p.Address.Values.{
  agree, read_u16-Agree, read_u32-Agree, slice-Agree, masked-lt, decode_inet, decode_inet6,
  inet_value, inet6_value,
}

-- An address of the internet families, with its numbers in range.
abbrev pub IsAddress : SockAddr → Type 0
IsAddress (inet port ip) = (port < 2 ^ 16) × (ip < 2 ^ 32)
IsAddress (inet6 port address) = (port < 2 ^ 16) × (length address ≡ 16)
IsAddress unspecified = 1 ≤ 0
IsAddress other = 1 ≤ 0

-- Masking the address of an IPv6 value leaves what stands before it.
masked_value :
    (v id address : List ℕ) (port : ℕ)
    → length v ≡ 20
    → read_u16_be v 2 ≡ port
    → slice v 4 16 ≡ address
    → let m = xor_into 16 0 v (xor_key id) 4 in
      (get_or m 1 0 ≡ get_or v 1 0)
      × (read_u16_be m 2 ≡ port)
      × (slice m 4 16 ≡ xors address (xor_key id) 0)
unfolding read_u16_be
masked_value v id address port size hp ha =
    let before = get_or-xor_into 16 0 v (xor_key id) 4 in
    (
      before 1 (omega arith) (omega arith),
      rw (before 2 (omega arith) (omega arith), before 3 (omega arith) (omega arith)) hp,
      slice-xor_into 16 0 v (xor_key id) 4 (omega arith)
          ∙ ap (λ (t : List ℕ). xors t (xor_key id) 0) ha,
    )

unmask_masked :
    (id address bytes : List ℕ)
    → length bytes ≡ 16
    → bytes ≡ xors address (xor_key id) 0
    → unmask true (some id) bytes ≡ address
unfolding unmask
unmask_masked id address bytes size e =
    xor_into_all 16 bytes (xor_key id) size
    ∙ ap (λ (t : List ℕ). xors t (xor_key id) 0) e
    ∙ xors_twice address (xor_key id) 0

decode_inet_value :
    (port ip : ℕ) (c : Bool) (id : List ℕ) (attr : Attribute) (out : SockAddr)
    → port < 2 ^ 16
    → ip < 2 ^ 32
    → let port1 = if c then bit_xor port (u16 (magic_cookie >> 16)) else port in
      let ip1 = if c then bit_xor ip magic_cookie else ip in
      let value = write_u32_be (write_u16_be (set (set (replicate 20 0) 0 0) 1 1) 2 port1) 4 ip1 in
      (attr.len ≡ 8)
      → slice attr.value 0 8 ≡ slice value 0 8
      → decode_address (some attr) c (some id) out ≡ (ok, inet port ip)
decode_inet_value port ip c id attr out hp hi len bytes =
    let k = u16 (magic_cookie >> 16) in
    let port1 = if c then bit_xor port k else port in
    let ip1 = if c then bit_xor ip magic_cookie else ip in
    let begin : List ℕ = set (set (replicate 20 0) 0 0) 1 1 in
    let value = write_u32_be (write_u16_be begin 2 port1) 4 ip1 in
    let same = agree 8 attr.value value bytes in
    let (family, p, i) =
      inet_value begin port1 ip1 refl (masked-lt c 16 port k hp (omega arith))
        (masked-lt c 32 ip magic_cookie hi (omega arith)) in
    decode_inet attr c id out port ip len (same.at 1 (omega arith) ∙ family)
      (read_u16-Agree 2 same (omega arith) ∙ p) (read_u32-Agree 4 same (omega arith) ∙ i)

decode_inet6_value :
    (port : ℕ) (address : List ℕ) (c : Bool) (id : List ℕ) (attr : Attribute) (out : SockAddr)
    → port < 2 ^ 16
    → length address ≡ 16
    → let port1 = if c then bit_xor port (u16 (magic_cookie >> 16)) else port in
      let v =
        memcpy (write_u16_be (set (set (replicate 20 0) 0 0) 1 2) 2 port1) 4 (slice address 0 16) in
      let value = if c then xor_into 16 0 v (xor_key id) 4 else v in
      (attr.len ≡ 20)
      → slice attr.value 0 20 ≡ slice value 0 20
      → decode_address (some attr) c (some id) out ≡ (ok, inet6 port address)
unfolding unmask
decode_inet6_value port address true id attr out hp ha len bytes =
    let port1 = bit_xor port (u16 (magic_cookie >> 16)) in
    let begin : List ℕ = set (set (replicate 20 0) 0 0) 1 2 in
    let v = memcpy (write_u16_be begin 2 port1) 4 (slice address 0 16) in
    let (size, family, p, a) =
      inet6_value begin address port1 refl
        (masked-lt true 16 port (u16 (magic_cookie >> 16)) hp (omega arith)) ha in
    let (family1, p1, a1) = masked_value v id address port1 size p a in
    let same = agree 20 attr.value (xor_into 16 0 v (xor_key id) 4) bytes in
    decode_inet6 attr true id out port address len (same.at 1 (omega arith) ∙ family1 ∙ family)
      (read_u16-Agree 2 same (omega arith) ∙ p1)
      (unmask_masked id address (slice attr.value 4 16) (length-slice attr.value 4 16)
        (slice-Agree 4 16 same (omega arith) ∙ a1))
decode_inet6_value port address false id attr out hp ha len bytes =
    let begin : List ℕ = set (set (replicate 20 0) 0 0) 1 2 in
    let v = memcpy (write_u16_be begin 2 port) 4 (slice address 0 16) in
    let (size, family, p, a) = inet6_value begin address port refl hp ha in
    let same = agree 20 attr.value v bytes in
    decode_inet6 attr false id out port address len (same.at 1 (omega arith) ∙ family)
      (read_u16-Agree 2 same (omega arith) ∙ p) (slice-Agree 4 16 same (omega arith) ∙ a)

-- What was put into a `some`.
inside : {a b : List ℕ × ℕ} → some a ≡ some b → a ≡ b
inside {a} e = ap (λ o. from_some a o) e
  where
    from_some : List ℕ × ℕ → Option (List ℕ × ℕ) → List ℕ × ℕ
    from_some d none = d
    from_some d (some x) = x

-- Decoding an attribute with the length and the bytes that encode_address gives for an IPv4 or IPv6
-- address gets the address back, XORed or not, if both sides XOR or neither, with the same
-- transaction id.
pub decode-encode_address :
    (addr : SockAddr) (c : Bool) (id : List ℕ) (attr : Attribute) (out : SockAddr) {v : List ℕ × ℕ}
    → IsAddress addr
    → address_value addr c id ≡ some v
    → attr.len ≡ v.1
    → slice attr.value 0 v.1 ≡ slice v.0 0 v.1
    → decode_address (some attr) c (some id) out ≡ (ok, addr)
unfolding address_value
decode-encode_address (inet port ip) c id attr out (hp, hi) e len bytes =
    let same = sym (inside e) in
    decode_inet_value port ip c id attr out hp hi (len ∙ ap (λ v. v.1) same)
      (subst (λ v. slice attr.value 0 v.1 ≡ slice v.0 0 v.1) same bytes)
decode-encode_address (inet6 port address) c id attr out (hp, ha) e len bytes =
    let same = sym (inside e) in
    decode_inet6_value port address c id attr out hp ha (len ∙ ap (λ v. v.1) same)
      (subst (λ v. slice attr.value 0 v.1 ≡ slice v.0 0 v.1) same bytes)
decode-encode_address unspecified c id attr out absent e len bytes = absurd (omega arith)
decode-encode_address other c id attr out absent e len bytes = absurd (omega arith)
