-- ===== src/Dns/Tests.antt =====
-- libx/x/dns/dns_packet.c: names and queries, and a name that dns_build_query does not expect.
use x.Base.{
  ℕ, ◌+◌, ◌^◌, ◌≡◌, ◌≤◌, ◌⊎◌, refl, List, [], ◌∷◌, ◌++◌, map, Bool, true, Option, some, none, ltb,
  arith, inl, inr, length, replicate,
}
use x.Dns.{Name, failed, parsed, encode_name, parse_name}
use x.Dns.Total.{Fine, parse_name-Fine}
use x.Dns.RoundTrip.{parse-encode_name}
use x.Dns.Packet.{build_query, packet, parse_packet}
use x.Dns.Query.{query, parse-build_query}
use x.Dns.Response.{Given, build_response}
use x.Dns.Records.{Clean}
use x.Dns.Echo.{Sound}
use x.Dns.Served.{response, parse-build_response}
use x.Dns.Qtype.{qtype_take_next, qtype_from_bit}
use x.Dns.Clone.{Heap, records_clone, records_free}
use x.Dns.Copies.{value_of, copied, blocks, count, Refused, records_clone-copies}

-- "a.bc"
abbrev a_bc : List ℕ
a_bc = 97 ∷ 46 ∷ 98 ∷ 99 ∷ []

abbrev a_bc_coded : List ℕ
a_bc_coded = 1 ∷ 97 ∷ 2 ∷ 98 ∷ 99 ∷ 0 ∷ []

a_bc_encodes : encode_name 20 a_bc ≡ some a_bc_coded
unfolding encode_name x.Dns.encode_loop x.Dns.encode_label x.Dns.encode_root x.Dns.written
a_bc_encodes = refl

trailing_dot : encode_name 20 (97 ∷ 46 ∷ []) ≡ none
unfolding encode_name x.Dns.encode_loop x.Dns.encode_label x.Dns.encode_root x.Dns.written
trailing_dot = refl

-- The offset 2^31 is a negative int.
end_negative : x.Dns.returned (2 ^ 31) [] ≡ failed
unfolding x.Dns.returned
end_negative = refl

-- A pointer to itself, and a label followed by a pointer back to a name.
pointer_loop : parse_name (0xC0 ∷ 0 ∷ []) 0 256 ≡ failed
unfolding parse_name x.Dns.parse_fuel x.Dns.parse_loop x.Dns.kind_of x.Dns.target_of
pointer_loop = refl

compressed :
    parse_name (1 ∷ 98 ∷ 0 ∷ 1 ∷ 97 ∷ 0xC0 ∷ 0 ∷ 7 ∷ []) 3 256 ≡ parsed 7 (97 ∷ 46 ∷ 98 ∷ [])
unfolding parse_name x.Dns.parse_fuel x.Dns.parse_loop x.Dns.kind_of x.Dns.target_of x.Dns.at_root
    x.Dns.returned x.Dns.strip_dot
compressed = refl

parse_name-Fine_example : Fine 2 256 (parse_name (0xC0 ∷ 0 ∷ []) 0 256)
parse_name-Fine_example = parse_name-Fine (0xC0 ∷ 0 ∷ []) 0 256

parse-encode_name_example :
    parse_name ((5 ∷ 5 ∷ []) ++ (a_bc_coded ++ (9 ∷ []))) 2 10 ≡ parsed 8 a_bc
parse-encode_name_example =
    parse-encode_name 20 10 a_bc a_bc_coded (5 ∷ 5 ∷ []) (9 ∷ []) a_bc_encodes (omega arith)
      (omega arith)

abbrev a_bc_query : List ℕ
a_bc_query =
    18 ∷ 52 ∷ 1 ∷ 0 ∷ 0 ∷ 1 ∷ 0 ∷ 0 ∷ 0 ∷ 0 ∷ 0 ∷ 1 ∷ 1 ∷ 97 ∷ 2 ∷ 98 ∷ 99 ∷ 0 ∷ 0 ∷ 28 ∷ 0 ∷ 1 ∷ 0
    ∷ 0 ∷ 41 ∷ 16 ∷ 0 ∷ 0 ∷ 0 ∷ 0 ∷ 0 ∷ 0 ∷ 0 ∷ []

a_bc_built : build_query 512 0x1234 a_bc 28 ≡ some a_bc_query
unfolding build_query encode_name x.Dns.encode_loop x.Dns.encode_label x.Dns.encode_root
    x.Dns.written x.Dns.Packet.put_u16 x.Dns.Packet.query_header x.Dns.Packet.opt_record
a_bc_built = refl

parse-build_query_example :
    (33 ≤ 512)
    × (parse_packet true (λ n. true) a_bc_query
        ≡ packet (query 0x1234) (record { name = a_bc; qtype = 28; qclass = 1; wire_off = 22 }) [])
parse-build_query_example =
    parse-build_query true (λ n. true) 512 0x1234 a_bc 28 a_bc_query (omega arith) (omega arith)
      (omega arith) a_bc_built

abbrev length_of : Option (List ℕ) → ℕ
length_of none = 0
length_of (some xs) = length xs

-- An address for the name of the question, and the name that it stands for.
abbrev address : Given
address = record {
  qtype = 1;
  ttl = 300;
  name = none;
  rdata = some (10 ∷ 0 ∷ 0 ∷ 1 ∷ []);
  rdlength = 4;
}

abbrev alias : Given
alias = record { qtype = 5; ttl = 70000; name = some a_bc; rdata = some (98 ∷ []); rdlength = 2 }

abbrev served : List ℕ
served =
    0 ∷ 7 ∷ 128 ∷ 128 ∷ 0 ∷ 1 ∷ 0 ∷ 2 ∷ 0 ∷ 0 ∷ 0 ∷ 0 ∷ 1 ∷ 97 ∷ 2 ∷ 98 ∷ 99 ∷ 0 ∷ 0 ∷ 1 ∷ 0 ∷ 1 ∷ 1
    ∷ 97 ∷ 2 ∷ 98 ∷ 99 ∷ 0 ∷ 0 ∷ 5 ∷ 0 ∷ 1 ∷ 0 ∷ 1 ∷ 17 ∷ 112 ∷ 0 ∷ 3 ∷ 1 ∷ 98 ∷ 0 ∷ 1 ∷ 97 ∷ 2 ∷ 98
    ∷ 99 ∷ 0 ∷ 0 ∷ 1 ∷ 0 ∷ 1 ∷ 0 ∷ 0 ∷ 1 ∷ 44 ∷ 0 ∷ 4 ∷ 10 ∷ 0 ∷ 0 ∷ 1 ∷ []

is_served : build_response 512 7 0 a_bc 1 (alias ∷ address ∷ []) ≡ some served
unfolding build_response encode_name x.Dns.encode_loop x.Dns.encode_label x.Dns.encode_root
    x.Dns.written x.Dns.Packet.put_u16 x.Dns.Response.response_header x.Dns.Response.response_flags
    x.Dns.Response.needed x.Dns.Response.need x.Dns.Response.build_records
    x.Dns.Response.build_record x.Dns.Response.given_data x.Dns.Response.raw_data
    x.Dns.Response.record_fields
is_served = refl

a_bc-Clean : Clean a_bc
a_bc-Clean = ((λ e. cc, (λ e. cc, (λ e. cc, (λ e. cc, tt)))), omega arith)

alias-Sound : Sound a_bc alias
alias-Sound = record {
  small = omega arith;
  not_opt = λ e. cc;
  long = omega arith;
  owner = a_bc-Clean;
  body = inl (refl, ((λ e. cc, tt), omega arith));
}

address-Sound : Sound a_bc address
address-Sound = record {
  small = omega arith;
  not_opt = λ e. cc;
  long = omega arith;
  owner = a_bc-Clean;
  body = inr (λ e. cc, refl, omega arith);
}

parse-build_response_example :
    (off : ℕ) × (parse_packet true (λ n. true) served
      ≡ packet
          (response 7 0 2)
          (record { name = a_bc; qtype = 1; qclass = 1; wire_off = off })
          (record { qtype = 5; ttl = 70000; name = a_bc; rdata = 98 ∷ 0 ∷ [] }
            ∷ record { qtype = 1; ttl = 300; name = a_bc; rdata = 10 ∷ 0 ∷ 0 ∷ 1 ∷ [] }
            ∷ []))
parse-build_response_example =
    parse-build_response 512 7 0 a_bc 1 (alias ∷ address ∷ []) served (omega arith) (omega arith)
      (omega arith) (omega arith) (alias-Sound, (address-Sound, tt)) (omega arith) is_served

-- An owner that the record leaves out is not counted: 34 bytes pass the check, and 38 are written.
uncounted_owner :
    length_of (
      build_response 34 1 0
        (97 ∷ 97 ∷ 97 ∷ 97 ∷ [])
        1
        (record { qtype = 1; ttl = 0; name = none; rdata = none; rdlength = 0 } ∷ []))
    ≡ 38
unfolding build_response encode_name x.Dns.encode_loop x.Dns.encode_label x.Dns.encode_root
    x.Dns.written x.Dns.Packet.put_u16 x.Dns.Response.response_header x.Dns.Response.response_flags
    x.Dns.Response.needed x.Dns.Response.need x.Dns.Response.build_records
    x.Dns.Response.build_record x.Dns.Response.given_data x.Dns.Response.raw_data
    x.Dns.Response.record_fields
uncounted_owner = refl

-- Each bit is taken once, the lowest first, and as the type that it stands for.
types_taken :
    map qtype_take_next (0 ∷ 1 ∷ 2 ∷ 3 ∷ 4 ∷ 5 ∷ 6 ∷ 7 ∷ [])
    ≡ (0, 0) ∷ (0, 1) ∷ (0, 28) ∷ (2, 1) ∷ (0, 5) ∷ (4, 1) ∷ (4, 28) ∷ (6, 1) ∷ []
unfolding qtype_take_next x.Dns.Qtype.without
types_taken = refl

types_of_bits : map qtype_from_bit (0 ∷ 1 ∷ 2 ∷ 3 ∷ 4 ∷ []) ≡ 0 ∷ 1 ∷ 28 ∷ 0 ∷ 5 ∷ []
unfolding qtype_from_bit
types_of_bits = refl

-- The fifth request is refused: the copies are freed again.
abbrev four_blocks : ℕ → Bool
four_blocks n = ltb n 4

abbrev unused : Heap
unused = record { requests = 0; live = [] }

abbrev two_records : List Given
two_records = alias ∷ address ∷ []

clone_refused :
    records_clone four_blocks two_records unused ≡ ([], record { requests = 5; live = [] })
unfolding records_clone records_free x.Dns.Clone.clone_loop x.Dns.Clone.clone_one
    x.Dns.Clone.with_block x.Dns.Clone.with_name x.Dns.Clone.with_body x.Dns.Clone.duplicate
    x.Dns.Clone.duplicated x.Dns.Clone.alloc x.Dns.Clone.free x.Dns.Clone.free_held
    x.Dns.Clone.erase x.Dns.Clone.link
clone_refused = refl

records_clone-copies_example :
    ((map value_of (records_clone four_blocks two_records unused).0 ≡ map copied two_records)
      ⊎ (((records_clone four_blocks two_records unused).0 ≡ []) × Refused four_blocks))
    × ((i : ℕ)
        → (count i (records_clone four_blocks two_records unused).1.live
            ≡ count i (blocks (records_clone four_blocks two_records unused).0) + count i [])
          × (count i
                (records_free
                  (records_clone four_blocks two_records unused).0
                  (records_clone four_blocks two_records unused).1).live
              ≡ count i []))
records_clone-copies_example = records_clone-copies four_blocks two_records unused

-- A name of 268 bytes passes the checks, and the packet is longer than the buffer.
abbrev long_label : List ℕ
long_label = replicate {A = ℕ} 63 97

abbrev long_name : List ℕ
long_name =
    (long_label ++ 46 ∷ [])
    ++ ((long_label ++ 46 ∷ [])
        ++ ((long_label ++ 46 ∷ []) ++ ((long_label ++ 46 ∷ []) ++ replicate {A = ℕ} 12 97)))

past_the_buffer : length_of (build_query 283 1 long_name 1) ≡ 297
unfolding build_query encode_name x.Dns.encode_loop x.Dns.encode_label x.Dns.encode_root
    x.Dns.written x.Dns.Packet.put_u16 x.Dns.Packet.query_header x.Dns.Packet.opt_record
past_the_buffer = refl
