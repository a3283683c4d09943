-- ===== src/Dns/Qtype.antt =====
-- libx/x/dns/dns_packet.c: from bit masks of record types to the types on the wire.
use x.Base.{ℕ, ◌-◌, ◌^◌, ◌==◌, if◌then◌else◌, bit_and}

abbrev pub type_a : ℕ
type_a = 1

abbrev pub type_aaaa : ℕ
type_aaaa = 2

abbrev pub type_cname : ℕ
type_cname = 4

unfoldable pub qtype_from_bit : ℕ → ℕ
qtype_from_bit type =
    if type == type_a
    then 1
    else if type == type_aaaa
    then 28
    else if type == type_cname
    then 5
    else 0

-- The mask without the bits of another.
unfoldable pub without : ℕ → ℕ → ℕ
without type bits = bit_and type (2 ^ 32 - 1 - bits)

-- The mask that is left, and the type of the bit taken from it, or 0.
unfoldable pub qtype_take_next : ℕ → ℕ × ℕ
qtype_take_next type =
    if bit_and type type_a == 0
    then if bit_and type type_aaaa == 0
      then if bit_and type type_cname == 0 then (type, 0) else (without type type_cname, 5)
      else (without type type_aaaa, 28)
    else (without type type_a, 1)
