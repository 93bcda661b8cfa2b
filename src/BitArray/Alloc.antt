-- ===== src/BitArray/Alloc.antt =====
-- bit_alloc and bit_dealloc as wholes, by the bits of the array.
use viengoos.BitArray.Bytes.{
  test-with_bit, test-without_bit, with_bit_small, low_masked, high_masked, low_mask_small,
  high_mask_small, check_byte-none, check_byte-some,
}
use viengoos.BitArray.Scan.{IsBytes, Before, Seen, Scanned, scan-Scanned, bit_at}
use viengoos.BitArray.{
  test, with_bit, without_bit, set_byte, bit_test, check_byte, scan, take_bit, found_last,
  check_last, conclude, bit_alloc, bit_dealloc,
}
use viengoos.Common.{
  ℕ, ◌+◌, ◌-◌, ◌*◌, ◌/◌, ◌%◌, ◌^◌, ◌≤◌, ◌<◌, ◌≡◌, ◌≢◌, ◌⊎◌, inl, inr, refl, sym, ap, ◌∙◌, subst,
  arith, true, false, not, ◌&&◌, ◌||◌, Option, none, some, bit_or, ltb, leb, ◌==◌, ◌>>=◌, ◌>>◌,
  assert, if◌then◌else◌, Bool-cases, if_true, if_false, ℕ_discrete,
}

-- The bit is free before, the first one from the start and around, and the only one that changes; or
-- there is none.
abbrev pub Allocated : (ℕ → ℕ) → ℕ → ℕ → (ℕ → ℕ) → Option ℕ → Type 0
Allocated array size start array' none =
    (array' ≡ array) × ((j : ℕ) → j < size * 8 → bit_test array j ≡ true)
Allocated array size start array' (some k) =
    (k < size * 8)
    × (bit_test array k ≡ false)
    × ((j : ℕ) → j < size * 8 → Before start k j → bit_test array j ≡ true)
    × ((j : ℕ) → bit_test array' j ≡ (k == j || bit_test array j))
    × IsBytes array'

pub written :
    (array : ℕ → ℕ) (byte bit j : ℕ)
    → IsBytes array
    → bit < 8
    → bit_test (set_byte array byte (with_bit (array byte) bit)) j
      ≡ ((byte * 8 + bit) == j || bit_test array j)
unfolding bit_test set_byte
written array byte bit j bytes small = elim (ℕ_discrete byte (j / 8)) [
  | yes e ↦
      let here : (byte == j / 8) ≡ true = ground arith in
      let same_bit : (bit == j % 8) ≡ ((byte * 8 + bit) == j) = ground arith in
      ap (λ c. test (if c then with_bit (array byte) bit else array (j / 8)) (j % 8)) here
      ∙ test-with_bit (array byte) bit (j % 8) (bytes byte) small (omega arith)
      ∙ ap (λ c. c || test (array byte) (j % 8)) same_bit
      ∙ ap (λ y. (byte * 8 + bit) == j || test (array y) (j % 8)) e
  | no ne ↦
      let other : (byte == j / 8) ≡ false = ground arith in
      let other_bit : ((byte * 8 + bit) == j) ≡ false = ground arith in
      ap (λ c. test (if c then with_bit (array byte) bit else array (j / 8)) (j % 8)) other
      ∙ ap (λ c. c || test (array (j / 8)) (j % 8)) (sym other_bit)
]

written-IsBytes :
    (array : ℕ → ℕ) (byte b : ℕ) → IsBytes array → b < 256 → IsBytes (set_byte array byte b)
unfolding set_byte
written-IsBytes array byte b bytes small x = ground (arith, bytes x, small)

taken :
    (array : ℕ → ℕ) (size start byte bit : ℕ)
    → IsBytes array
    → byte < size
    → bit < 8
    → bit_test array (byte * 8 + bit) ≡ false
    → ((j : ℕ) → j < size * 8 → Before start (byte * 8 + bit) j → bit_test array j ≡ true)
    → Allocated array size start (take_bit array byte bit).0 (take_bit array byte bit).1
unfolding take_bit
taken array size start byte bit bytes h small free before = (
  omega arith,
  free,
  before,
  λ j. written array byte bit j bytes small,
  written-IsBytes array byte (with_bit (array byte) bit) bytes
      (with_bit_small (array byte) bit (bytes byte) small),
)

-- A bit of the first byte before the start, as the last step sees it.
last_bit :
    (array : ℕ → ℕ) (start j : ℕ)
    → IsBytes array
    → j / 8 ≡ start / 8
    → j < start
    → test (bit_or (array (start / 8)) (255 - (2 ^ (start % 8) - 1))) (j % 8) ≡ bit_test array j
unfolding bit_test
last_bit array start j bytes e h =
    let low : leb (start % 8) (j % 8) ≡ false = ground (arith, e, h) in
    high_masked (array (start / 8)) (start % 8) (j % 8) (bytes (start / 8)) (omega arith)
      (omega arith)
    ∙ ap (λ c. c || test (array (start / 8)) (j % 8)) low
    ∙ ap (λ y. test (array y) (j % 8)) (sym e)

last-Allocated :
    (array : ℕ → ℕ) (size start : ℕ)
    → IsBytes array
    → start < size * 8
    → start % 8 ≢ 0
    → Scanned array size start none
    → (o : Option ℕ) → check_byte (bit_or (array (start / 8)) (255 - (2 ^ (start % 8) - 1))) ≡ o
    → Allocated array size start
        (found_last array (start / 8) o).0
        (found_last array (start / 8) o).1
unfolding found_last Scanned
last-Allocated array size start bytes h m scanned none e =
    let b = bit_or (array (start / 8)) (255 - (2 ^ (start % 8) - 1)) in
    let small = high_mask_small (array (start / 8)) (start % 8) (bytes (start / 8)) (omega arith) in
    (
      refl,
      λ j inside. elim (place start j) [
        | inl p ↦ scanned j inside p
        | inr (at, less) ↦
            sym (last_bit array start j bytes at less)
            ∙ check_byte-none b (j % 8) small (omega arith) e
      ],
    )
  where
    place :
        (start j : ℕ) → ((start ≤ j) ⊎ (j < start / 8 * 8)) ⊎ ((j / 8 ≡ start / 8) × (j < start))
    place start j = ground arith
last-Allocated array size start bytes h m scanned (some bit) e =
    let b = bit_or (array (start / 8)) (255 - (2 ^ (start % 8) - 1)) in
    let small = high_mask_small (array (start / 8)) (start % 8) (bytes (start / 8)) (omega arith) in
    let (low, clear, below) = check_byte-some b bit small e in
    let masked =
      sym (high_masked (array (start / 8)) (start % 8) bit (bytes (start / 8)) (omega arith) low)
      ∙ clear in
    let less : bit < start % 8 = ground (arith, masked) in
    let free : test (array (start / 8)) bit ≡ false = ground (arith, masked) in
    taken array size start (start / 8) bit bytes (omega arith) low
      (bit_at array (start / 8) bit low ∙ free)
      (λ j inside before. elim (place start bit j less before) [
        | inl p ↦ scanned j inside p
        | inr (at, under) ↦
            sym (last_bit array start j bytes at (omega (arith, at, under, less)))
            ∙ below (j % 8) under
      ])
  where
    place :
        (start bit j : ℕ)
        → bit < start % 8
        → Before start (start / 8 * 8 + bit) j
        → ((start ≤ j) ⊎ (j < start / 8 * 8)) ⊎ ((j / 8 ≡ start / 8) × (j % 8 < bit))
    place start bit j less p = ground (arith, less, p)

-- The first byte, its bits before the start masked.
abbrev first_byte : (ℕ → ℕ) → ℕ → ℕ
first_byte array start =
    if start % 8 == 0 then array (start / 8) else bit_or (array (start / 8)) (2 ^ (start % 8) - 1)

first_byte-Seen :
    (array : ℕ → ℕ) (start : ℕ)
    → IsBytes array
    → Seen array start (start / 8) (first_byte array start)
first_byte-Seen array start bytes i small = elim (Bool-cases (start % 8 == 0)) [
  | inl e ↦
      let none_masked : (start / 8 == start / 8 && ltb (start / 8 * 8 + i) start) ≡ false =
        ground (arith, e) in
      ap (λ b. test b i)
        (if_true (start % 8 == 0) (array (start / 8))
          (bit_or (array (start / 8)) (2 ^ (start % 8) - 1)) e)
      ∙ ap (λ c. c || test (array (start / 8)) i) (sym none_masked)
  | inr e ↦
      let masked : ltb i (start % 8) ≡ (start / 8 == start / 8 && ltb (start / 8 * 8 + i) start) =
        ground (arith, small) in
      ap (λ b. test b i)
        (if_false (start % 8 == 0) (array (start / 8))
          (bit_or (array (start / 8)) (2 ^ (start % 8) - 1)) e)
      ∙ low_masked (array (start / 8)) (start % 8) i (bytes (start / 8)) (omega arith) small
      ∙ ap (λ c. c || test (array (start / 8)) i) masked
]

first_byte_small : (array : ℕ → ℕ) (start : ℕ) → IsBytes array → first_byte array start < 256
first_byte_small array start bytes = ground (
  arith,
  bytes (start / 8),
  low_mask_small (array (start / 8)) (start % 8) (bytes (start / 8)) (omega arith),
)

conclude-Allocated :
    (array : ℕ → ℕ) (size start : ℕ) (r : Option (ℕ × ℕ))
    → IsBytes array
    → start < size * 8
    → Scanned array size start r
    → Allocated array size start (conclude array start r).0 (conclude array start r).1
unfolding conclude check_last Scanned
conclude-Allocated array size start (some (byte, bit)) bytes h (inside, low, free, before) =
    taken array size start byte bit bytes inside low free before
conclude-Allocated array size start none bytes h scanned =
    let b = bit_or (array (start / 8)) (255 - (2 ^ (start % 8) - 1)) in
    let found = found_last array (start / 8) (check_byte b) in
    elim (Bool-cases (start % 8 == 0)) [
      | inl e ↦
          subst (λ (r : (ℕ → ℕ) × Option ℕ). Allocated array size start r.0 r.1)
            (sym (if_true (start % 8 == 0) (array, none) found e))
            (refl, λ j inside. scanned j inside (ground (arith, e)))
      | inr e ↦
          subst (λ (r : (ℕ → ℕ) × Option ℕ). Allocated array size start r.0 r.1)
            (sym (if_false (start % 8 == 0) (array, none) found e))
            (last-Allocated array size start bytes h (ground (arith, e)) scanned (check_byte b)
              refl)
    ]

-- For an array of bytes and a start bit in it, bit_alloc ends, on as many rounds as the array
-- has bytes. Either all bits are set, and it gives -1 and leaves the array as it is; or it gives
-- a bit of the array that was clear, the first such one from the start bit to the end and on
-- from the beginning, sets it, and leaves every other bit as it was.
pub bit_alloc-Allocated :
    (fuel : ℕ) (array : ℕ → ℕ) (size start : ℕ)
    → IsBytes array
    → start < size * 8
    → size ≤ fuel
    → (array' : ℕ → ℕ) × (o : Option ℕ) × (bit_alloc fuel array size start ≡ some (array', o))
      × Allocated array size start array' o
unfolding bit_alloc
bit_alloc-Allocated fuel array size start bytes h enough =
    let inside : ltb start (size * 8) ≡ true = ground (arith, h) in
    let (r, ran, scanned) =
      scan-Scanned fuel array size start (start / 8) (first_byte array start) bytes h (omega arith)
        (first_byte_small array start bytes) (first_byte-Seen array start bytes)
        (λ j small p. absurd (nothing_passed start j p)) (ground (arith, h, enough)) in
    (
      (conclude array start r).0,
      (conclude array start r).1,
      ap
            (λ c.
              assert c
              >> (scan fuel array size (start / 8) (start / 8) (first_byte array start) >>= λ r.
                  some (conclude array start r)))
            inside
          ∙ ap (λ o. o >>= λ r. some (conclude array start r)) ran,
      conclude-Allocated array size start r bytes h scanned,
    )
  where
    nothing_passed :
        (start j : ℕ)
        → (((start ≤ j) × ((j < start / 8 * 8) ⊎ (start / 8 < start / 8)))
            ⊎ ((start / 8 < start / 8) × (j < start / 8 * 8)))
        → ⊥
    nothing_passed start j p = ground (arith, p)

pub cleared :
    (array : ℕ → ℕ) (k j : ℕ)
    → IsBytes array
    → bit_test (set_byte array (k / 8) (without_bit (array (k / 8)) (k % 8))) j
      ≡ (not (k == j) && bit_test array j)
unfolding bit_test set_byte
cleared array k j bytes =
    let byte = without_bit (array (k / 8)) (k % 8) in
    elim (ℕ_discrete (k / 8) (j / 8)) [
      | yes e ↦
          let here : (k / 8 == j / 8) ≡ true = ground arith in
          let same_bit : (k % 8 == j % 8) ≡ (k == j) = ground arith in
          ap (λ c. test (if c then byte else array (j / 8)) (j % 8)) here
          ∙ test-without_bit (array (k / 8)) (k % 8) (j % 8) (bytes (k / 8)) (omega arith)
              (omega arith)
          ∙ ap (λ c. not c && test (array (k / 8)) (j % 8)) same_bit
          ∙ ap (λ y. not (k == j) && test (array y) (j % 8)) e
      | no ne ↦
          let other : (k / 8 == j / 8) ≡ false = ground arith in
          let other_bit : (k == j) ≡ false = ground arith in
          ap (λ c. test (if c then byte else array (j / 8)) (j % 8)) other
          ∙ ap (λ c. not c && test (array (j / 8)) (j % 8)) (sym other_bit)
    ]

-- For an array of bytes of which some bit is clear and a start bit in it, bit_alloc gives a bit,
-- and bit_dealloc of that bit ends without a failed assert and leaves every bit as it was before
-- bit_alloc.
pub bit_dealloc-bit_alloc :
    (fuel : ℕ) (array : ℕ → ℕ) (size start : ℕ)
    → IsBytes array
    → start < size * 8
    → size ≤ fuel
    → (clear : ℕ) → clear < size * 8
    → bit_test array clear ≡ false
    → (array' : ℕ → ℕ) × (k : ℕ) × (array'' : ℕ → ℕ) × (bit_alloc fuel array size start
        ≡ some (array', some k))
      × (bit_dealloc array' k ≡ some array'')
      × ((j : ℕ) → bit_test array'' j ≡ bit_test array j)
unfolding bit_dealloc
bit_dealloc-bit_alloc fuel array size start bytes h enough clear inside free =
    let (array', o, ran, done) = bit_alloc-Allocated fuel array size start bytes h enough in
    given array' o ran done
  where
    given :
        (array' : ℕ → ℕ) (o : Option ℕ)
        → bit_alloc fuel array size start ≡ some (array', o)
        → Allocated array size start array' o
        → (array' : ℕ → ℕ) × (k : ℕ) × (array'' : ℕ → ℕ) × (bit_alloc fuel array size start
            ≡ some (array', some k))
          × (bit_dealloc array' k ≡ some array'')
          × ((j : ℕ) → bit_test array'' j ≡ bit_test array j)
    given array' none ran (same, all) = absurd (ground (arith, all clear inside, free))
    given array' (some k) ran (small, was_free, before, now, bytes') =
        let set : bit_test array' k ≡ true = now k ∙ ap (λ c. c || bit_test array k) (self k) in
        let array'' = set_byte array' (k / 8) (without_bit (array' (k / 8)) (k % 8)) in
        (
          array',
          k,
          array'',
          ran,
          ap (λ c. assert c >> some array'') set,
          λ j. cleared array' k j bytes' ∙ ap (λ c. not (k == j) && c) (now j) ∙ back k j was_free,
        )
      where
        self : (k : ℕ) → (k == k) ≡ true
        self k = ground arith

        back :
            (k j : ℕ)
            → bit_test array k ≡ false
            → (not (k == j) && (k == j || bit_test array j)) ≡ bit_test array j
        back k j e = elim (ℕ_discrete k j) [
          | yes s ↦
              subst (λ j. (not (k == j) && (k == j || bit_test array j)) ≡ bit_test array j) s
                (ground (arith, e))
          | no ne ↦ ground (arith, ne)
        ]
