-- ===== src/BitArray.antt =====
-- The bit arrays of libbitarray/bit-array.h. An array is the function from the place of a byte to the
-- byte; a failed assert is `none`, and so are the rounds of the loop running out.
pub mod Bytes
pub mod Scan
pub mod Alloc
pub mod Set
mod Tests
use viengoos.Common.{
  ℕ, zero, suc, ◌+◌, ◌-◌, ◌*◌, ◌/◌, ◌%◌, ◌^◌, Bool, true, false, not, ◌&&◌, Option, none, some,
  bit_and, bit_or, List, [], ◌∷◌, ltb, ◌==◌, ◌>>=◌, ◌>>◌, assert, if◌then◌else◌,
}

-- byte & (1 << bit)
unfoldable pub test : ℕ → ℕ → Bool
test byte bit = not (bit_and byte (2 ^ bit) == 0)

-- byte | (1 << bit)
unfoldable pub with_bit : ℕ → ℕ → ℕ
with_bit byte bit = bit_or byte (2 ^ bit)

-- byte & ~(1 << bit), of an unsigned char
unfoldable pub without_bit : ℕ → ℕ → ℕ
without_bit byte bit = bit_and byte (255 - 2 ^ bit)

-- A write of a byte.
unfoldable pub set_byte : (ℕ → ℕ) → ℕ → ℕ → ℕ → ℕ
set_byte array at byte x = if at == x then byte else array x

unfoldable pub bit_test : (ℕ → ℕ) → ℕ → Bool
bit_test array bit = test (array (bit / 8)) (bit % 8)

-- bit_set: the array, and whether the bit was set by this call.
unfoldable pub bit_set : (ℕ → ℕ) → ℕ → ℕ → Option ((ℕ → ℕ) × Bool)
bit_set array size bit =
    assert (ltb bit (size * 8))
    >> (if bit_test array bit
        then some (array, false)
        else some (set_byte array (bit / 8) (with_bit (array (bit / 8)) (bit % 8)), true))

unfoldable pub bit_set_to : (ℕ → ℕ) → ℕ → ℕ → Bool → Option (ℕ → ℕ)
bit_set_to array size bit value =
    let byte = array (bit / 8) in
    assert (ltb bit (size * 8))
    >> some (
        set_byte array (bit / 8)
          (if value then with_bit byte (bit % 8) else without_bit byte (bit % 8)))

unfoldable pub bit_dealloc : (ℕ → ℕ) → ℕ → Option (ℕ → ℕ)
bit_dealloc array bit =
    assert (bit_test array bit)
    >> some (set_byte array (bit / 8) (without_bit (array (bit / 8)) (bit % 8)))

-- The table of bit_alloc, where `none` is -1.
abbrev free_bits : List (Option ℕ)
free_bits =
    some 0
    ∷ some 1
    ∷ some 0
    ∷ some 2
    ∷ some 0
    ∷ some 1
    ∷ some 0
    ∷ some 3
    ∷ some 0
    ∷ some 1
    ∷ some 0
    ∷ some 2
    ∷ some 0
    ∷ some 1
    ∷ some 0
    ∷ none
    ∷ []

abbrev entry : List (Option ℕ) → ℕ → Option ℕ
entry [] n = none
entry (x ∷ xs) zero = x
entry (x ∷ xs) (suc n) = entry xs n

unfoldable pub first_free_bit : ℕ → Option ℕ
first_free_bit n = entry free_bits n

-- check_byte
unfoldable pub check_byte : ℕ → Option ℕ
check_byte byte = elim (first_free_bit (byte % 16)) [
  | some b ↦ some b
  | none ↦ first_free_bit (byte / 16) >>= λ b. some (4 + b)
]

-- The loop of bit_alloc, from the byte `byte`, of which it sees `b`: the byte and its free bit, or
-- none if it is back at the first byte.
unfoldable pub scan : ℕ → (ℕ → ℕ) → ℕ → ℕ → ℕ → ℕ → Option (Option (ℕ × ℕ))
scan zero array size start_byte byte b = none
scan (suc fuel) array size start_byte byte b =
    let next = if byte + 1 == size then 0 else byte + 1 in
    let rest = scan fuel array size start_byte next (array next) in
    elim (check_byte b) [
      | some bit ↦ some (some (byte, bit))
      | none ↦ if next == start_byte then some none else rest
    ]

unfoldable pub take_bit : (ℕ → ℕ) → ℕ → ℕ → (ℕ → ℕ) × Option ℕ
take_bit array byte bit = (set_byte array byte (with_bit (array byte) bit), some (byte * 8 + bit))

unfoldable pub found_last : (ℕ → ℕ) → ℕ → Option ℕ → (ℕ → ℕ) × Option ℕ
found_last array byte (some bit) = take_bit array byte bit
found_last array byte none = (array, none)

-- The low bits of the first byte, which are tried last.
unfoldable pub check_last : (ℕ → ℕ) → ℕ → (ℕ → ℕ) × Option ℕ
check_last array start_bit =
    let byte = start_bit / 8 in
    let b = bit_or (array byte) (255 - (2 ^ (start_bit % 8) - 1)) in
    if start_bit % 8 == 0 then (array, none) else found_last array byte (check_byte b)

unfoldable pub conclude : (ℕ → ℕ) → ℕ → Option (ℕ × ℕ) → (ℕ → ℕ) × Option ℕ
conclude array start_bit (some (byte, bit)) = take_bit array byte bit
conclude array start_bit none = check_last array start_bit

-- bit_alloc: the array and the bit, where `none` is -1.
unfoldable pub bit_alloc : ℕ → (ℕ → ℕ) → ℕ → ℕ → Option ((ℕ → ℕ) × Option ℕ)
bit_alloc fuel array size start_bit =
    let start_byte = start_bit / 8 in
    let first =
      if start_bit % 8 == 0
      then array start_byte
      else bit_or (array start_byte) (2 ^ (start_bit % 8) - 1) in
    assert (ltb start_bit (size * 8))
    >> (scan fuel array size start_byte start_byte first >>= λ r. some (conclude array start_bit r))
