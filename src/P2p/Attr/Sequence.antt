-- ===== src/P2p/Attr/Sequence.antt =====
-- A run of writes, and the loop that iterates over the attributes.
use x.Base.{
  ℕ, zero, suc, ◌+◌, ◌*◌, ◌/◌, ◌^◌, ◌≤◌, ◌<◌, ◌≡◌, refl, sym, subst, ap, ◌∙◌, List, [], ◌∷◌, map,
  true, false, arith, ltb, if◌then◌else◌, length, get_or, drop, add_size, slice, slice-drop, inl,
  inr,
}
use x.Base.Errno.{ok, no_memory}
use x.P2p.Wire.{align4, align4_lem}
use x.P2p.Frames.{Holds, Holds-agree}
use x.P2p.Attr.{Writer, Iter, Attribute, iter_next}
use x.P2p.Attr.RoundTrip.{IsValid, Given, IsWord, size, write, Appended, write_lem}

-- The writes of a message's attributes, one after another, none of which failed.
pub data Wrote : Writer → List Given → Writer → Type 0 where
  start : {w : Writer} → Wrote w [] w
  further :
      {w w1 g : Writer} {a : Given} {rest : List Given}
      → IsWord a
      → write w a ≡ (ok, w1)
      → Wrote w1 rest g
      → Wrote w (a ∷ rest) g

-- What an attribute shows of itself: its type, and as many bytes as its length says.
abbrev pub shown : Given → Given
shown a = record { type = a.type; value = slice a.value 0 a.len; len = a.len }

abbrev pub seen : Attribute → Given
seen a = record { type = a.type; value = slice a.value 0 a.len; len = a.len }

-- The loop `while (xStunAttrIterNext(&iter, &attr))` that the callers run, on fuel, with what it
-- sees.
pub collect : ℕ → Iter → Attribute → List Given
collect zero iter attr = []
collect (suc fuel) iter attr =
    let r = iter_next iter attr in
    let rest = collect fuel r.1.0 r.1.1 in if r.0 then seen r.1.1 ∷ rest else []

-- What a run of writes leaves.
record Kept (w g : Writer) : Type 0 where
  valid : IsValid g
  grown : w.pos ≤ g.pos
  before : (j : ℕ) → j < w.pos → get_or g.buf j 0 ≡ get_or w.buf j 0

appended :
    {w w1 : Writer} {a : Given} → IsValid w → IsWord a → write w a ≡ (ok, w1) → Appended w a w1
appended {w} {w1} {a} v k e = elim (write_lem v k) [
  | inl (refused, _) ↦
      let clash : ok ≡ no_memory = ap (λ r. r.0) (sym e ∙ refused) in absurd (cc clash)
  | inr (g, done, grown) ↦
      let same : g ≡ w1 = ap (λ r. r.1) (sym done ∙ e) in subst (Appended w a) same grown
]

kept : {w g : Writer} {given : List Given} → IsValid w → Wrote w given g → Kept w g
kept v start = record { valid = v; grown = omega arith; before = λ j h. refl }
kept v (further k e rest) =
    let first = appended v k e in
    let others = kept first.valid rest in
    record {
      valid = others.valid;
      grown = omega (arith, first.pos, others.grown);
      before = λ j h. others.before j (omega (arith, first.pos)) ∙ first.before j h;
    }

-- One step of the iterator over an attribute that the bytes hold.
next_held :
    {p t n len : ℕ} {payload bytes : List ℕ} (attr : Attribute)
    → Holds p t n payload bytes
    → n < 2 ^ 16
    → p + (4 + (n + 3) / 4 * 4) ≤ len
    → len < 2 ^ 62
    → iter_next (record { bytes = bytes; len = len; pos = p }) attr ≡ (
      true,
      (
        record { bytes = bytes; len = len; pos = p + (4 + (n + 3) / 4 * 4) },
        record { type = t; len = n; value = drop (p + 4) bytes },
      ),
    )
unfolding iter_next
next_held {p} {t} {n} {len} attr held short fits word =
    let padded = align4_lem n short in
    let header : add_size p 4 ≡ p + 4 = omega arith in
    let end : add_size (p + 4) n ≡ p + 4 + n = omega arith in
    let next : add_size p (4 + align4 n) ≡ p + (4 + (n + 3) / 4 * 4) = omega arith in
    let first : ltb len (p + 4) ≡ false = ground arith in
    let second : ltb len (p + 4 + n) ≡ false = ground arith in
    rw (header, held.word, held.size, end, next, first, second) refl

next_at_end :
    (bytes : List ℕ) (len : ℕ) (attr : Attribute)
    → len < 2 ^ 62
    → (iter_next (record { bytes = bytes; len = len; pos = len }) attr).0 ≡ false
unfolding iter_next
next_at_end bytes len attr word =
    let over : ltb len (add_size len 4) ≡ true = ground arith in rw over refl

-- Iterating over attributes that were written one after another, each of which the writer had room
-- for: the loop sees their types, lengths and values, in the order of the writes, and then ends.
pub collect-write :
    {w g : Writer} {given : List Given} (fuel : ℕ) (attr : Attribute)
    → IsValid w
    → Wrote w given g
    → length given < fuel
    → collect fuel (record { bytes = g.buf; len = g.pos; pos = w.pos }) attr ≡ map shown given
unfolding collect
collect-write zero attr v wrote enough = absurd (omega arith)
collect-write {w} (suc fuel) attr v start enough =
    let over = next_at_end w.buf w.pos attr (omega (arith, v.within, v.word)) in rw over refl
collect-write {w} {g} (suc fuel) attr v (further {w1 = w1} {a = a} {rest = rest} k e others)
      enough =
    let first = appended v k e in
    let after = kept first.valid others in
    let held =
      Holds-agree g.buf w1.buf first.held (λ j h. after.before j (omega (arith, first.pos))) in
    let room : w.pos + size a ≤ g.pos = omega (arith, first.pos, after.grown) in
    let small : g.pos < 2 ^ 62 = omega (arith, after.valid.within, after.valid.word) in
    let seen_attr : Attribute = record {
      type = a.type;
      len = a.len;
      value = drop (w.pos + 4) g.buf;
    } in
    let step = next_held {bytes = g.buf} attr held k.len room small in
    let rest_seen = collect-write fuel seen_attr first.valid others (omega arith) in
    let value =
      slice-drop g.buf (w.pos + 4) 0 a.len
      ∙ ap (λ (j : ℕ). slice g.buf j a.len) (omega arith)
      ∙ held.bytes in
    rw (step, ← first.pos, rest_seen)
      (ap (λ (t : List ℕ). record { type = a.type; value = t; len = a.len } ∷ map shown rest) value)
