-- ===== src/P2p/Attr/Tests.antt =====
-- Writing and reading two attributes.
use x.Base.{◌≡◌, refl, [], ◌∷◌, arith, replicate}
use x.Base.Errno.{ok}
use x.P2p.Wire.{write_u16_be, align4}
use x.P2p.Attr.{Writer, Attribute, attr_write_raw, copy_value}
use x.P2p.Attr.RoundTrip.{Given, write}
use x.P2p.Attr.Sequence.{Wrote, start, further, collect, collect-write}

abbrev area : Writer
area = record { buf = replicate 16 9; cap = 16; pos = 0 }

abbrev one : Given
one = record { type = 37; value = []; len = 0 }

abbrev two : Given
two = record { type = 36; value = 1 ∷ 2 ∷ 3 ∷ []; len = 3 }

abbrev after_one : Writer
after_one = record { buf = 0 ∷ 37 ∷ 0 ∷ 0 ∷ replicate 12 9; cap = 16; pos = 4 }

abbrev after_two : Writer
after_two = record {
  buf = 0 ∷ 37 ∷ 0 ∷ 0 ∷ 0 ∷ 36 ∷ 0 ∷ 3 ∷ 1 ∷ 2 ∷ 3 ∷ 0 ∷ replicate 4 9;
  cap = 16;
  pos = 12;
}

wrote_one : write area one ≡ (ok, after_one)
unfolding attr_write_raw write_u16_be align4 copy_value
wrote_one = refl

wrote_two : write after_one two ≡ (ok, after_two)
unfolding attr_write_raw write_u16_be align4 copy_value
wrote_two = refl

Wrote-both : Wrote area (one ∷ two ∷ []) after_two
Wrote-both =
    further (record { type = omega arith; len = omega arith }) wrote_one
      (further (record { type = omega arith; len = omega arith }) wrote_two start)

abbrev nothing : Attribute
nothing = record { type = 0; len = 0; value = [] }

collect-write_example :
    collect 3 (record { bytes = after_two.buf; len = 12; pos = 0 }) nothing ≡ one ∷ two ∷ []
collect-write_example =
    collect-write 3 nothing
      (record { within = omega arith; area = omega arith; word = omega arith }) Wrote-both
      (omega arith)
