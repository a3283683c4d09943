-- ===== src/Bitmap/Tests.antt =====
-- A bitmap of ten bits.
use x.Base.{ℕ, zero, suc, ◌<◌, ◌≡◌, refl, [], ◌∷◌, true, false, not, some, arith, get_or, replicate}
use x.Base.Errno.{ok}
use x.Bitmap.{Bitmap, init, set_bit, clear_bit, toggle_bit, test, has_bit, byte_at}
use x.Bitmap.Bulk.{full, empty, all_bytes, tail_mask}
use x.Bitmap.Bulk.Whole.{IsExact, empty_clear, full_misses}
use x.Bitmap.Ops.{IsValid, ops_correct, init_clear}

abbrev ten_bits : Bitmap
ten_bits = record { bytes = some (5 ∷ 2 ∷ []); nbits = 10; nbytes = 2; owned = true }

ten_bits-IsValid : IsValid ten_bits (5 ∷ 2 ∷ [])
ten_bits-IsValid = record { given = refl; enough = omega arith; byte = bytes }
  where
    bytes : (i : ℕ) → get_or (5 ∷ 2 ∷ []) i 0 < 256
    bytes zero = omega arith
    bytes (suc zero) = omega arith
    bytes (suc (suc i)) = omega arith

ops_correct_example :
    (test (set_bit (some ten_bits) 8) 8 ≡ true)
    × (test (clear_bit (some ten_bits) 8) 8 ≡ false)
    × (test (toggle_bit (some ten_bits) 8) 8 ≡ not (test (some ten_bits) 8))
ops_correct_example = ops_correct 8 8 ten_bits-IsValid

init_clear_example :
    (new : Bitmap) × (init (λ size. true) (some ten_bits) 20 ≡ (ok, some new))
    × (new.nbits ≡ 20)
    × IsValid new (replicate 3 0)
    × (test (some new) 7 ≡ false)
init_clear_example = init_clear (λ size. true) ten_bits 20 7 (omega arith) (omega arith) refl

-- Ten bits in three bytes, as xBitmapInitStatic allows: all ten are set.
abbrev spare_byte : Bitmap
spare_byte = record { bytes = some (255 ∷ 3 ∷ 0 ∷ []); nbits = 10; nbytes = 3; owned = false }

spare_byte_bits :
    (test (some spare_byte) 0 ≡ true)
    × (test (some spare_byte) 8 ≡ true)
    × (test (some spare_byte) 9 ≡ true)
unfolding test has_bit byte_at
spare_byte_bits = (refl, refl, refl)

full_misses_example : full (some spare_byte) ≡ false
full_misses_example = full_misses spare_byte (255 ∷ 3 ∷ 0 ∷ []) refl refl refl

-- Ten clear bits, with others set behind them.
abbrev ten_clear : Bitmap
ten_clear = record { bytes = some (0 ∷ 252 ∷ []); nbits = 10; nbytes = 2; owned = true }

ten_clear-empty : empty (some ten_clear) ≡ true
unfolding empty all_bytes tail_mask
ten_clear-empty = refl

ten_clear-IsExact : IsExact ten_clear (0 ∷ 252 ∷ [])
ten_clear-IsExact = record { given = refl; exact = refl; byte = bytes }
  where
    bytes : (i : ℕ) → get_or (0 ∷ 252 ∷ []) i 0 < 256
    bytes zero = omega arith
    bytes (suc zero) = omega arith
    bytes (suc (suc i)) = omega arith

empty_clear_example : test (some ten_clear) 9 ≡ false
empty_clear_example = empty_clear 9 ten_clear-IsExact ten_clear-empty
