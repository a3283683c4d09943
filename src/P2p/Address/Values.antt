-- ===== src/P2p/Address/Values.antt =====
-- The values that addresses are encoded as, and what decoding makes of bytes that agree with them.
use x.Base.{
  ℕ, zero, suc, ◌+◌, ◌^◌, ◌≤◌, ◌<◌, ◌≡◌, refl, sym, ap, ap₂, ◌∙◌, List, [], ◌∷◌, Bool, true, false,
  some, arith, if◌then◌else◌, length, get_or, bit_xor, bit_xor_twice, bit_xor-lt, u8, u16, ◌>>◌,
  memcpy, length-memcpy, get_or-memcpy, slice, length-slice, slice-memcpy, slice-eq-take, take-all,
}
use x.Base.Errno.{ok}
use x.P2p.Wire.{
  read_u16_be, read_u32_be, write_u16_be, write_u32_be, read-write_u16, read-write_u32,
  read_u16-memcpy,
}
use x.P2p.Message.{magic_cookie}
use x.P2p.Attr.{Attribute}
use x.P2p.Address.{SockAddr, inet, inet6, unmask, decode_address}

-- Two lists that show the same first `n` bytes.
pub record Agree (n : ℕ) (f g : List ℕ) : Type 0 where
  pub at : (j : ℕ) → j < n → get_or f j 0 ≡ get_or g j 0

get_or-slice : (f : List ℕ) (p n j : ℕ) → j < n → get_or (slice f p n) j 0 ≡ get_or f (p + j) 0
get_or-slice f p zero j h = absurd (omega arith)
get_or-slice f p (suc n) zero h = ap (λ (i : ℕ). get_or f i 0) (omega arith)
get_or-slice f p (suc n) (suc j) h =
    get_or-slice f (p + 1) n j (omega arith) ∙ ap (λ (i : ℕ). get_or f i 0) (omega arith)

pub agree : (n : ℕ) (f g : List ℕ) → slice f 0 n ≡ slice g 0 n → Agree n f g
agree n f g e = record {
  at = λ j h.
      ap (λ (i : ℕ). get_or f i 0) (omega arith)
      ∙ sym (get_or-slice f 0 n j h)
      ∙ ap (λ (t : List ℕ). get_or t j 0) e
      ∙ get_or-slice g 0 n j h
      ∙ ap (λ (i : ℕ). get_or g i 0) (omega arith);
}

pub masked_twice :
    (c : Bool) (x k : ℕ)
    → (if c then bit_xor (if c then bit_xor x k else x) k else (if c then bit_xor x k else x)) ≡ x
masked_twice true x k = bit_xor_twice x k
masked_twice false x k = refl

pub masked-lt :
    (c : Bool) (e x k : ℕ) → x < 2 ^ e → k < 2 ^ e → (if c then bit_xor x k else x) < 2 ^ e
masked-lt true e x k hx hk = bit_xor-lt e x k hx hk
masked-lt false e x k hx hk = hx

pub read_u16-Agree :
    {n : ℕ} {f g : List ℕ} (p : ℕ) → Agree n f g → p + 2 ≤ n → read_u16_be f p ≡ read_u16_be g p
unfolding read_u16_be
read_u16-Agree p same h = rw (same.at p (omega arith), same.at (p + 1) (omega arith)) refl

pub read_u32-Agree :
    {n : ℕ} {f g : List ℕ} (p : ℕ) → Agree n f g → p + 4 ≤ n → read_u32_be f p ≡ read_u32_be g p
unfolding read_u32_be
read_u32-Agree p same h =
    rw
      (
        same.at p (omega arith),
        same.at (p + 1) (omega arith),
        same.at (p + 2) (omega arith),
        same.at (p + 3) (omega arith),
      )
      refl

pub slice-Agree :
    {n : ℕ} {f g : List ℕ} (p m : ℕ) → Agree n f g → p + m ≤ n → slice f p m ≡ slice g p m
slice-Agree p zero same h = refl
slice-Agree p (suc m) same h =
    ap₂ ◌∷◌ (same.at p (omega arith)) (slice-Agree (p + 1) m same (omega arith))

pub decode_inet :
    (attr : Attribute) (c : Bool) (id : List ℕ) (out : SockAddr) (port ip : ℕ)
    → attr.len ≡ 8
    → get_or attr.value 1 0 ≡ 1
    → read_u16_be attr.value 2 ≡ (if c then bit_xor port (u16 (magic_cookie >> 16)) else port)
    → read_u32_be attr.value 4 ≡ (if c then bit_xor ip magic_cookie else ip)
    → decode_address (some attr) c (some id) out ≡ (ok, inet port ip)
unfolding decode_address
decode_inet attr c id out port ip len family hp hi =
    let k = u16 (magic_cookie >> 16) in
    rw (len, family, hp, hi)
      (ap₂ (λ (p i : ℕ). (ok, inet p i)) (masked_twice c port k) (masked_twice c ip magic_cookie))

pub decode_inet6 :
    (attr : Attribute) (c : Bool) (id : List ℕ) (out : SockAddr) (port : ℕ) (address : List ℕ)
    → attr.len ≡ 20
    → get_or attr.value 1 0 ≡ 2
    → read_u16_be attr.value 2 ≡ (if c then bit_xor port (u16 (magic_cookie >> 16)) else port)
    → unmask c (some id) (slice attr.value 4 16) ≡ address
    → decode_address (some attr) c (some id) out ≡ (ok, inet6 port address)
unfolding decode_address
decode_inet6 attr c id out port address len family hp ha =
    let k = u16 (magic_cookie >> 16) in
    rw (len, family, hp, ha) (ap (λ (p : ℕ). (ok, inet6 p address)) (masked_twice c port k))

-- The value of an IPv4 address.
pub inet_value :
    (start : List ℕ) (port ip : ℕ)
    → length start ≡ 20
    → port < 2 ^ 16
    → ip < 2 ^ 32
    → let v = write_u32_be (write_u16_be start 2 port) 4 ip in
      (get_or v 1 0 ≡ get_or start 1 0) × (read_u16_be v 2 ≡ port) × (read_u32_be v 4 ≡ ip)
unfolding write_u16_be write_u32_be
inet_value start port ip size hp hi =
    let word = u8 (port >> 8) ∷ u8 port ∷ [] in
    let bytes = u8 (ip >> 24) ∷ u8 (ip >> 16) ∷ u8 (ip >> 8) ∷ u8 ip ∷ [] in
    let v2 = memcpy start 2 word in
    let n2 = length-memcpy start 2 word in
    (
      get_or-memcpy v2 4 bytes 1 (omega (arith, n2)) (omega arith)
          ∙ get_or-memcpy start 2 word 1 (omega arith) (omega arith),
      read_u16-memcpy v2 4 bytes 2 (omega (arith, n2)) (omega arith)
          ∙ read-write_u16 start 2 port (omega arith) hp,
      read-write_u32 v2 4 ip (omega (arith, n2)) hi,
    )

-- The value of an IPv6 address, before it is masked.
pub inet6_value :
    (start address : List ℕ) (port : ℕ)
    → length start ≡ 20
    → port < 2 ^ 16
    → length address ≡ 16
    → let v = memcpy (write_u16_be start 2 port) 4 (slice address 0 16) in
      (length v ≡ 20)
      × (get_or v 1 0 ≡ get_or start 1 0)
      × (read_u16_be v 2 ≡ port)
      × (slice v 4 16 ≡ address)
unfolding write_u16_be
inet6_value start address port size hp ha =
    let word = u8 (port >> 8) ∷ u8 port ∷ [] in
    let v2 = memcpy start 2 word in
    let n2 = length-memcpy start 2 word in
    let bytes = slice address 0 16 in
    let nb = length-slice address 0 16 in
    (
      length-memcpy v2 4 bytes ∙ n2 ∙ size,
      get_or-memcpy v2 4 bytes 1 (omega (arith, n2, nb)) (omega arith)
          ∙ get_or-memcpy start 2 word 1 (omega arith) (omega arith),
      read_u16-memcpy v2 4 bytes 2 (omega (arith, n2, nb)) (omega arith)
          ∙ read-write_u16 start 2 port (omega arith) hp,
      ap (slice (memcpy v2 4 bytes) 4) (sym nb)
          ∙ slice-memcpy v2 4 bytes (omega (arith, n2, nb))
          ∙ slice-eq-take address 16 (omega arith)
          ∙ take-all 16 address (omega arith),
    )
