-- ===== src/MapHash/Tests.antt =====
-- libx/x/base/map_hash.c: a table of four chains that overflows, with the identity for the hash.
use x.Base.{ℕ, ◌+◌, subst, ◌≡◌, ◌⊎◌, refl, [], ◌∷◌, Bool, true, false, arith, ◌==◌, ==_iff, length}
use x.Base.Errno.{ok, no_memory}
use x.MapHash.{Entry, Table, create, hash_set, hash_get, hash_del, hash_iterate, hash_len}
use x.MapHash.Chains.{Keys}
use x.MapHash.Valid.{Valid}
use x.MapHash.Lookup.{create-empty, set_del-Valid, set_then_get, set_result, del_then_get}
use x.MapHash.Visits.{entries, iterate_entries}

abbrev self : ℕ → ℕ
self n = n

abbrev same : ℕ → ℕ → Bool
same a b = a == b

abbrev always : ℕ → Bool
always n = true

same-Keys : Keys self same
same-Keys = record {
  symm = λ a b e. ground arith;
  trans = λ a b c e f. ground arith;
  same_hash = λ a b e. (==_iff a b).0 e;
}

-- Keys 1 and 5 share a chain, and the load is at its limit: the next key grows the array.
abbrev two : Table
two = record {
  buckets =
      []
      ∷ (record { key = 5; val = 50 } ∷ record { key = 1; val = 10 } ∷ [])
      ∷ (record { key = 2; val = 20 } ∷ [])
      ∷ []
      ∷ [];
  size = 3;
  cap = 4;
}

abbrev none_yet : Table
none_yet = record { buckets = [] ∷ [] ∷ [] ∷ [] ∷ []; size = 0; cap = 4 }

abbrev put : ℕ → ℕ → Table → Table
put key val t = (hash_set self same always true key val t).1

two_reached : put 2 20 (put 5 50 (put 1 10 none_yet)) ≡ two
unfolding hash_set x.MapHash.set_loop x.MapHash.set_absent x.MapHash.insert x.MapHash.link
    x.MapHash.bucket_idx
two_reached = refl

created : Valid self same none_yet × ((k : ℕ) → hash_get self same k none_yet ≡ 0)
unfolding create
created = create-empty self same always true 4 none_yet (omega arith) refl

create-empty_example : Valid self same none_yet × ((k : ℕ) → hash_get self same k none_yet ≡ 0)
unfolding create
create-empty_example = create-empty self same always true 4 none_yet (omega arith) refl

put-Valid : (key val : ℕ) (t : Table) → Valid self same t → Valid self same (put key val t)
put-Valid key val t v = (set_del-Valid same-Keys always true key val t v).0

two-Valid : Valid self same two
two-Valid =
    subst (Valid self same) two_reached
      (put-Valid 2 20 _ (put-Valid 5 50 _ (put-Valid 1 10 none_yet created.0)))

set_del-Valid_example :
    Valid self same (hash_set self same always false 5 90 two).1
    × Valid self same (hash_del self same 5 two).1
set_del-Valid_example = set_del-Valid same-Keys always false 5 90 two two-Valid

granted_to_two : (hash_set self same always true 9 90 two).0 ≡ ok
unfolding hash_set x.MapHash.set_loop x.MapHash.set_absent x.MapHash.insert x.MapHash.resize
    x.MapHash.bucket_idx
granted_to_two = refl

set_then_get_example : hash_get self same 5 (hash_set self same always true 9 90 two).1 ≡ 50
unfolding hash_get x.MapHash.get_loop x.MapHash.bucket_idx
set_then_get_example = set_then_get same-Keys always true 9 90 5 two two-Valid granted_to_two

set_result_example :
    let r = hash_set self same (λ n. false) true 9 90 two in
    ((r.0 ≡ ok)
      ⊎ ((r.0 ≡ no_memory) × ((k : ℕ) → hash_get self same k r.1 ≡ hash_get self same k two)))
    × (false ≡ true → true ≡ true → r.0 ≡ ok)
set_result_example = set_result same-Keys (λ n. false) true 9 90 two two-Valid

del_then_get_example :
    let r = hash_del self same 1 two in
    (r.0 ≡ hash_get self same 1 two) × (hash_get self same 5 r.1 ≡ hash_get self same 5 two)
del_then_get_example = del_then_get same-Keys 1 5 two two-Valid

iterate_entries_example :
    (hash_iterate (λ k v n. (same k 2, n + v)) two 0 ≡ 50)
    × (length (entries two.buckets) ≡ hash_len two)
iterate_entries_example = iterate_entries self same (λ k v n. (same k 2, n + v)) two 0 two-Valid
