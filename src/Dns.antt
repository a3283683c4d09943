-- ===== src/Dns.antt =====
-- libx/x/dns/dns_packet.c: domain names on the wire. A C string is the list of its bytes without
-- the terminator.
pub mod Total
pub mod Wire
pub mod RoundTrip
pub mod Packet
pub mod Question
pub mod Query
pub mod Response
pub mod Records
pub mod Echo
pub mod Served
pub mod Clone
pub mod Copies
pub mod Qtype
mod Tests
use x.Base.{
  ℕ, zero, suc, ◌+◌, ◌-◌, ◌*◌, ◌%◌, ◌^◌, ◌<◌, List, [], ◌∷◌, ◌++◌, Bool, true, false, Option, some,
  none, ltb, leb, ◌==◌, ◌||◌, if◌then◌else◌, get_or, length, take, drop, bit_and, bit_or,
}

-- A label at the end of what encode_name has written.
pub encode_label : ℕ → List ℕ → List ℕ → Option (List ℕ)
encode_label outcap label out =
    if length label == 0
    then none
    else if ltb 63 (length label)
    then none
    else if ltb outcap (length out + 1 + length label)
    then none
    else some (out ++ (length label ∷ label))

-- The bytes written, whose number is returned as an int: none where that is negative.
unfoldable pub written : List ℕ → Option (List ℕ)
written out = if ltb (length out % 2 ^ 32) (2 ^ 31) then some out else none

-- The terminator.
pub encode_root : ℕ → Option (List ℕ) → Option (List ℕ)
encode_root outcap none = none
encode_root outcap (some out) =
    if ltb outcap (length out + 1) then none else written (out ++ 0 ∷ [])

abbrev pub and_then {ℓ κ} : {A : Type ℓ} {B : Type κ} → Option A → (A → Option B) → Option B
and_then none k = none
and_then (some a) k = k a

-- The loop of encode_name: the rest of the name, whether it is the whole name, the label read so
-- far, and the bytes written.
pub encode_loop : ℕ → List ℕ → Bool → List ℕ → List ℕ → Option (List ℕ)
encode_loop outcap [] whole label out =
    encode_root outcap (if whole then some out else encode_label outcap label out)
encode_loop outcap (c ∷ name) whole label out = elim (c == 46) [
  | true ↦ and_then (encode_label outcap label out) (λ next. encode_loop outcap name false [] next)
  | false ↦ encode_loop outcap name false (label ++ c ∷ []) out
]

-- encode_name
pub encode_name : ℕ → List ℕ → Option (List ℕ)
encode_name outcap name = encode_loop outcap name true [] []

-- What parse_name returns: a negative number, or the offset past the name, with the name it wrote.
pub data Name : Type 0 where
  out_of_fuel : Name
  failed : Name
  parsed : (end : ℕ) → (name : List ℕ) → Name

-- What the first byte of a part of a name says.
pub data Kind : Type 0 where
  pointer : Kind
  reserved : Kind
  root : Kind
  plain : Kind

pub kind_of : ℕ → Kind
kind_of c =
    if bit_and c 0xC0 == 0xC0
    then pointer
    else if (bit_and c 0xC0 == 0x80) || (bit_and c 0xC0 == 0x40)
    then reserved
    else if c == 0
    then root
    else plain

abbrev pub among : ℕ → List ℕ → Bool
among x [] = false
among x (y ∷ ys) = (y == x) || among x ys

-- The offset past the name is known at the first pointer.
abbrev pub end_or : Option ℕ → ℕ → ℕ
end_or none end = end
end_or (some first) end = first

-- The dot behind the last label goes.
pub strip_dot : List ℕ → List ℕ
strip_dot [] = []
strip_dot (c ∷ []) = if c == 46 then [] else c ∷ []
strip_dot (c ∷ d ∷ out) = c ∷ strip_dot (d ∷ out)

pub target_of : ℕ → ℕ → ℕ
target_of c low = bit_or (bit_and c 0x3F * 256) low

-- The offset past the name, as an int.
pub returned : ℕ → List ℕ → Name
returned end name =
    let word = end % 2 ^ 32 in if ltb word (2 ^ 31) then parsed word name else failed

pub at_root : ℕ → ℕ → Option ℕ → List ℕ → Name
at_root out_cap cur followed out =
    let name = strip_dot out in
    if leb out_cap (length name) then failed else returned (end_or followed (cur + 1)) name

-- The loop of parse_name.
pub parse_loop : ℕ → List ℕ → ℕ → ℕ → List ℕ → Option ℕ → List ℕ → Name
parse_loop zero buf out_cap cur out followed seen = out_of_fuel
parse_loop (suc n) buf out_cap cur out followed seen =
    let c = get_or buf cur 0 in
    elim (leb (length buf) cur) [
      | true ↦ failed
      | false ↦ elim (kind_of c) [
        | pointer ↦
            let target = target_of c (get_or buf (cur + 1) 0) in
            elim (leb (length buf) (cur + 1) || among target seen || leb 64 (length seen)) [
              | true ↦ failed
              | false ↦
                  parse_loop n buf out_cap target out (some (end_or followed (cur + 2)))
                    (target ∷ seen)
            ]
        | reserved ↦ failed
        | root ↦ at_root out_cap cur followed out
        | plain ↦ elim (ltb (length buf) (cur + 1 + c) || leb out_cap (length out + c + 1)) [
          | true ↦ failed
          | false ↦
              parse_loop n buf out_cap (cur + 1 + c)
                (out ++ (take c (drop (cur + 1) buf) ++ 46 ∷ [])) followed seen
        ]
      ]
    ]

-- parse_name: no more than 64 pointers are followed, and between two of them the position grows.
pub parse_fuel : ℕ → ℕ
parse_fuel len = 65 * (len + 1)

pub parse_name : List ℕ → ℕ → ℕ → Name
parse_name buf pos out_cap = parse_loop (parse_fuel (length buf)) buf out_cap pos [] none []
