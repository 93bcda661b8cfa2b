-- ===== src/BitArray/Tests.antt =====
-- An array of two bytes, of which the bits 0 to 9 are set.
use viengoos.BitArray.Alloc.{Allocated, bit_alloc-Allocated, bit_dealloc-bit_alloc}
use viengoos.BitArray.Scan.{IsBytes}
use viengoos.BitArray.{
  bit_test, test, check_byte, first_free_bit, scan, take_bit, found_last, check_last, conclude,
  bit_alloc, bit_dealloc,
}
use viengoos.Common.{ℕ, ◌≡◌, refl, arith, false, Option, some, if◌then◌else◌, ◌==◌, ◌>>=◌}

abbrev ten_set : ℕ → ℕ
ten_set x = if x == 0 then 255 else if x == 1 then 3 else 0

ten_set-IsBytes : IsBytes ten_set
ten_set-IsBytes x = ground arith

-- The bit 10 is free, and the search that starts at 12 goes around from 15 to 0 and finds it last,
-- where 12 to 15 are taken.
first_free : (bit_alloc 2 ten_set 2 3 >>= λ r. r.1) ≡ some 10
unfolding bit_alloc scan conclude check_last found_last take_bit check_byte first_free_bit
first_free = refl

abbrev end_set : ℕ → ℕ
end_set x = if x == 0 then 255 else if x == 1 then 243 else 0

around : (bit_alloc 2 end_set 2 12 >>= λ r. r.1) ≡ some 10
unfolding bit_alloc scan conclude check_last found_last take_bit check_byte first_free_bit
around = refl

bit_alloc-Allocated_example :
    (array' : ℕ → ℕ) × (o : Option ℕ) × (bit_alloc 2 ten_set 2 3 ≡ some (array', o))
    × Allocated ten_set 2 3 array' o
bit_alloc-Allocated_example =
    bit_alloc-Allocated 2 ten_set 2 3 ten_set-IsBytes (omega arith) (omega arith)

twelve_clear : bit_test ten_set 12 ≡ false
unfolding bit_test test
twelve_clear = refl

bit_dealloc-bit_alloc_example :
    (array' : ℕ → ℕ) × (k : ℕ) × (array'' : ℕ → ℕ) × (bit_alloc 2 ten_set 2 3
      ≡ some (array', some k))
    × (bit_dealloc array' k ≡ some array'')
    × ((j : ℕ) → bit_test array'' j ≡ bit_test ten_set j)
bit_dealloc-bit_alloc_example =
    bit_dealloc-bit_alloc 2 ten_set 2 3 ten_set-IsBytes (omega arith) (omega arith) 12 (omega arith)
      twelve_clear
