-- ===== src/Dns/Total.antt =====
-- libx/x/dns/dns_packet.c, parse_name: it ends, and stays within its bounds.
use x.Base.{
  ℕ, zero, suc, ◌+◌, ◌-◌, ◌*◌, ◌%◌, ◌^◌, ◌≡◌, ◌≤◌, ◌<◌, refl, sym, subst, inl, inr, List, [], ◌∷◌,
  ◌++◌, Bool, true, false, Option, some, none, ltb, leb, ◌||◌, get_or, length, take, drop,
  Bool-cases, arith,
}
use native.Mathlib.Nat.{suc-mul}
use x.Dns.{
  Name, out_of_fuel, failed, parsed, Kind, pointer, reserved, root, plain, kind_of, among, end_or,
  strip_dot, target_of, returned, at_root, parse_loop, parse_fuel, parse_name,
}

-- A result that is no endless loop: the offset lies in the buffer, and the name and its terminator
-- in the output.
pub Fine : ℕ → ℕ → Name → Type 0
Fine len out_cap out_of_fuel = ⊥
Fine len out_cap failed = Unit
Fine len out_cap (parsed end name) = (end ≤ len) × (length name < out_cap)

module _ (buf : List ℕ) (out_cap : ℕ) where
  module _ (n cur : ℕ) (out : List ℕ) (followed : Option ℕ) (seen : List ℕ) where
    abbrev here : ℕ
    here = get_or buf cur 0

    abbrev target : ℕ
    target = target_of here (get_or buf (cur + 1) 0)

    abbrev bad_pointer : Bool
    bad_pointer = leb (length buf) (cur + 1) || among target seen || leb 64 (length seen)

    abbrev pub bad_label : Bool
    bad_label = ltb (length buf) (cur + 1 + here) || leb out_cap (length out + here + 1)

    -- The rounds of the loop.
    pub parse-outside :
        leb (length buf) cur ≡ true → parse_loop (suc n) buf out_cap cur out followed seen ≡ failed
    unfolding parse_loop
    parse-outside e = rw (e, parse_loop) refl

    pub parse-reserved :
        leb (length buf) cur ≡ false
        → kind_of here ≡ reserved
        → parse_loop (suc n) buf out_cap cur out followed seen ≡ failed
    unfolding parse_loop
    parse-reserved e k = rw (e, k, parse_loop) refl

    pub parse-root :
        leb (length buf) cur ≡ false
        → kind_of here ≡ root
        → parse_loop (suc n) buf out_cap cur out followed seen ≡ at_root out_cap cur followed out
    unfolding parse_loop
    parse-root e k = rw (e, k, parse_loop) refl

    pub parse-bad_pointer :
        leb (length buf) cur ≡ false
        → kind_of here ≡ pointer
        → bad_pointer ≡ true
        → parse_loop (suc n) buf out_cap cur out followed seen ≡ failed
    unfolding parse_loop
    parse-bad_pointer e k b = rw (e, k, b, parse_loop) refl

    pub parse-pointer :
        leb (length buf) cur ≡ false
        → kind_of here ≡ pointer
        → bad_pointer ≡ false
        → parse_loop (suc n) buf out_cap cur out followed seen
          ≡ parse_loop n buf out_cap target out (some (end_or followed (cur + 2))) (target ∷ seen)
    unfolding parse_loop
    parse-pointer e k b = rw (e, k, b, parse_loop) refl

    pub parse-bad_label :
        leb (length buf) cur ≡ false
        → kind_of here ≡ plain
        → bad_label ≡ true
        → parse_loop (suc n) buf out_cap cur out followed seen ≡ failed
    unfolding parse_loop
    parse-bad_label e k b = rw (e, k, b, parse_loop) refl

    pub parse-label :
        leb (length buf) cur ≡ false
        → kind_of here ≡ plain
        → bad_label ≡ false
        → parse_loop (suc n) buf out_cap cur out followed seen
          ≡ parse_loop n buf out_cap
              (cur + 1 + here)
              (out ++ (take here (drop (cur + 1) buf) ++ 46 ∷ []))
              followed
              seen
    unfolding parse_loop
    parse-label e k b = rw (e, k, b, parse_loop) refl

  abbrev Ends : ℕ → Option ℕ → Type 0
  Ends len none = Unit
  Ends len (some end) = end ≤ len

  end_or-le :
      (followed : Option ℕ) (end : ℕ)
      → Ends (length buf) followed
      → end ≤ length buf
      → end_or followed end ≤ length buf
  end_or-le none end f h = h
  end_or-le (some first) end f h = f

  returned-Fine :
      (end : ℕ) (name : List ℕ)
      → end ≤ length buf
      → length name < out_cap
      → Fine (length buf) out_cap (returned end name)
  unfolding Fine returned
  returned-Fine end name le lt = elim (Bool-cases (ltb (end % 2 ^ 32) (2 ^ 31))) [
    | inl e ↦ rw e (omega arith, lt)
    | inr e ↦ rw e tt
  ]

  at_root-Fine :
      (cur : ℕ) (followed : Option ℕ) (out : List ℕ)
      → cur < length buf
      → Ends (length buf) followed
      → Fine (length buf) out_cap (at_root out_cap cur followed out)
  unfolding Fine at_root
  at_root-Fine cur followed out lt f = elim (Bool-cases (leb out_cap (length (strip_dot out)))) [
    | inl e ↦ rw e tt
    | inr e ↦ rw e (
        returned-Fine (end_or followed (cur + 1)) (strip_dot out)
          (end_or-le followed (cur + 1) f (omega arith)) (ground arith))
  ]

  -- What the fuel has to cover with `k` pointers left to follow.
  abbrev cost : ℕ → ℕ → ℕ
  cost k cur = k * (length buf + 1) + (length buf - cur)

  cost-pointer : (n k cur next : ℕ) → cost (suc k) cur < suc n → cur < length buf → cost k next < n
  cost-pointer n k cur next fuel lt =
      let e : suc k * (length buf + 1) ≡ k * (length buf + 1) + (length buf + 1) =
        suc-mul k (length buf + 1) in
      omega arith

  abbrev Covered : ℕ → Type 0
  Covered n =
      (k cur : ℕ) (out : List ℕ) (followed : Option ℕ) (seen : List ℕ)
      → length seen + k ≡ 64
      → cost k cur < n
      → Ends (length buf) followed
      → Fine (length buf) out_cap (parse_loop n buf out_cap cur out followed seen)

  module _ (n : ℕ) (rest : Covered n) (k cur : ℕ) (out : List ℕ) (followed : Option ℕ)
      (seen : List ℕ) (left : length seen + k ≡ 64) (fuel : cost k cur < suc n)
      (f : Ends (length buf) followed) (e : leb (length buf) cur ≡ false) where
    abbrev P : Name → Type 0
    P = Fine (length buf) out_cap

    abbrev round : Name
    round = parse_loop (suc n) buf out_cap cur out followed seen

    after_pointer :
        (k : ℕ)
        → length seen + k ≡ 64
        → cost k cur < suc n
        → bad_pointer n cur out followed seen ≡ false
        → P (
            parse_loop n buf out_cap
              (target n cur out followed seen)
              out
              (some (end_or followed (cur + 2)))
              (target n cur out followed seen ∷ seen))
    after_pointer zero left fuel b = absurd (ground arith)
    after_pointer (suc k) left fuel b =
        rest k (target n cur out followed seen) out (some (end_or followed (cur + 2)))
          (target n cur out followed seen ∷ seen) (omega arith)
          (cost-pointer n k cur (target n cur out followed seen) fuel (ground arith))
          (end_or-le followed (cur + 2) f (ground arith))

    inside : (kind : Kind) → kind_of (get_or buf cur 0) ≡ kind → P round
    unfolding Fine
    inside pointer q = elim (Bool-cases (bad_pointer n cur out followed seen)) [
      | inl b ↦ subst P (sym (parse-bad_pointer n cur out followed seen e q b)) tt
      | inr b ↦
          subst P (sym (parse-pointer n cur out followed seen e q b)) (after_pointer k left fuel b)
    ]
    inside reserved q = subst P (sym (parse-reserved n cur out followed seen e q)) tt
    inside root q =
        subst P (sym (parse-root n cur out followed seen e q))
          (at_root-Fine cur followed out (ground arith) f)
    inside plain q = elim (Bool-cases (bad_label n cur out followed seen)) [
      | inl b ↦ subst P (sym (parse-bad_label n cur out followed seen e q b)) tt
      | inr b ↦
          subst P (sym (parse-label n cur out followed seen e q b))
            (rest k (cur + 1 + get_or buf cur 0) _ followed seen left (ground arith) f)
    ]

  -- This much fuel is enough.
  parse_loop-Fine : (n : ℕ) → Covered n
  unfolding Fine
  parse_loop-Fine zero k cur out followed seen left fuel f = absurd (omega arith)
  parse_loop-Fine (suc n) k cur out followed seen left fuel f =
      elim (Bool-cases (leb (length buf) cur)) [
        | inl e ↦
            subst (Fine (length buf) out_cap) (sym (parse-outside n cur out followed seen e)) tt
        | inr e ↦
            inside n (parse_loop-Fine n) k cur out followed seen left fuel f e
              (kind_of (get_or buf cur 0)) refl
      ]

-- On any bytes, from any offset and for any capacity, pointers into loops included, parse_name
-- ends: with a negative number, or with an offset within the buffer and a name that fits in the
-- output with its terminator.
pub parse_name-Fine :
    (buf : List ℕ) (pos out_cap : ℕ) → Fine (length buf) out_cap (parse_name buf pos out_cap)
unfolding parse_name parse_fuel
parse_name-Fine buf pos out_cap =
    parse_loop-Fine buf out_cap (65 * (length buf + 1)) 64 pos [] none [] refl (omega arith) tt
