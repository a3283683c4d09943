-- ===== src/P2p/Attr/RoundTrip.antt =====
-- Iterating over attributes that were written.
use x.Base.{
  ℕ, zero, suc, ◌+◌, ◌-◌, ◌*◌, ◌/◌, ◌^◌, ◌≤◌, ◌<◌, ◌≡◌, refl, inl, inr, ◌⊎◌, List, true, some,
  arith, ltb, Bool-cases, length, get_or, replicate, length-replicate, add_size, memcpy, slice,
  length-slice,
}
use x.Base.Errno.{Errno, ok, no_memory}
use x.P2p.Wire.{write_u16_be, align4, align4_lem}
use x.P2p.Frames.{Holds, padding_lem, written}
use x.P2p.Attr.{attr_header_size, Writer, copy_value, attr_write_raw}

-- A writer within its area.
pub record IsValid (w : Writer) : Type 0 where
  pub within : w.pos ≤ w.cap
  pub area : w.cap ≤ length w.buf
  pub word : w.cap < 2 ^ 62

copy_value_lem :
    (value : List ℕ) (n p : ℕ) (buf : List ℕ)
    → copy_value (some value) n p buf ≡ memcpy buf p (slice value 0 n)
unfolding copy_value
copy_value_lem value zero p buf = refl
copy_value_lem value (suc n) p buf =
    let positive : ltb 0 (suc n) ≡ true = ground arith in rw positive refl

-- An attribute as it is given to the writer.
pub record Given : Type 0 where
  pub type : ℕ
  pub value : List ℕ
  pub len : ℕ

pub record IsWord (a : Given) : Type 0 where
  pub type : a.type < 2 ^ 16
  pub len : a.len < 2 ^ 16

-- Its bytes in a message, the header's and the padding's included.
abbrev pub size : Given → ℕ
size a = 4 + (a.len + 3) / 4 * 4

abbrev pub write : Writer → Given → Errno × Writer
write w a = attr_write_raw w a.type (some a.value) a.len

-- What a write leaves: the attribute at the old position, and what stood before it.
pub record Appended (w : Writer) (a : Given) (g : Writer) : Type 0 where
  pub valid : IsValid g
  pub cap : g.cap ≡ w.cap
  pub pos : g.pos ≡ w.pos + size a
  pub held : Holds w.pos a.type a.len (slice a.value 0 a.len) g.buf
  pub before : (j : ℕ) → j < w.pos → get_or g.buf j 0 ≡ get_or w.buf j 0

pub write_lem :
    {w : Writer} {a : Given}
    → IsValid w
    → IsWord a
    → ((write w a ≡ (no_memory, w)) × (w.cap < w.pos + size a))
      ⊎ ((g : Writer) × (write w a ≡ (ok, g)) × Appended w a g)
unfolding attr_write_raw
write_lem {w} {a} v k =
    let padded = align4_lem a.len k.len in
    let end : add_size w.pos (attr_header_size + align4 a.len) ≡ w.pos + size a =
      omega (arith, v.within, v.word, k.len) in
    elim (Bool-cases (ltb w.cap (w.pos + size a))) [
      | inl full ↦ rw (end, full) (inl (refl, ground arith))
      | inr room ↦
          let payload = slice a.value 0 a.len in
          let pad = replicate {A = ℕ} (align4 a.len - a.len) 0 in
          let npad = length-replicate {A = ℕ} (align4 a.len - a.len) 0 in
          let fits : w.pos + size a ≤ w.cap = ground arith in
          let (len, held, before) =
            written w.pos a.type a.len payload pad w.buf (length-slice a.value 0 a.len) k.type k.len
              (omega (arith, v.area)) in
          let b2 = write_u16_be (write_u16_be w.buf w.pos a.type) (w.pos + 2) a.len in
          rw
            (
              end,
              room,
              copy_value_lem a.value a.len (w.pos + 4) b2,
              padding_lem _ (w.pos + 4 + a.len) a.len,
            )
            (inr (
              _,
              refl,
              record {
                valid = record { within = fits; area = omega (arith, len, v.area); word = v.word };
                cap = refl;
                pos = refl;
                held = held;
                before = before;
              },
            ))
    ]
