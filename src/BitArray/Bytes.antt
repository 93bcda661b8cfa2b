-- ===== src/BitArray/Bytes.antt =====
-- The bits of a byte, by trying all bytes.
use viengoos.BitArray.{test, with_bit, without_bit, check_byte, first_free_bit}
use viengoos.Common.{
  ℕ, zero, suc, ◌-◌, ◌^◌, ◌<◌, ◌≡◌, refl, arith, Bool, true, false, not, ◌&&◌, ◌||◌, Option, none,
  some, bit_or, ltb, leb, ◌==◌, ℕ_discrete, subst, ltb→lt,
}

unfoldable all_below : (ℕ → Bool) → ℕ → Bool
all_below f zero = true
all_below f (suc n) = f n && all_below f n

all_below_lem : (f : ℕ → Bool) (n : ℕ) → all_below f n ≡ true → (i : ℕ) → i < n → f i ≡ true
unfolding all_below
all_below_lem f zero e i h = elim h [ ]
all_below_lem f (suc n) e i h = elim (ℕ_discrete n i) [
  | yes s ↦ subst (λ k. f k ≡ true) s (ground (arith, e))
  | no ne ↦ all_below_lem f n (ground (arith, e)) i (omega arith)
]

abbrev agree : Bool → Bool → Bool
agree true b = b
agree false b = not b

agree_lem : (a b : Bool) → agree a b ≡ true → a ≡ b
agree_lem true true e = refl
agree_lem true false e = ground (arith, e)
agree_lem false true e = ground (arith, e)
agree_lem false false e = refl

-- A statement of all bytes and of two places of bits.
abbrev every : (ℕ → ℕ → ℕ → Bool) → Bool
every f = all_below (λ b. all_below (λ i. all_below (λ j. f b i j) 8) 8) 256

every_lem :
    (f : ℕ → ℕ → ℕ → Bool) → every f ≡ true → (b i j : ℕ) → b < 256 → i < 8 → j < 8 → f b i j ≡ true
every_lem f e b i j hb hi hj =
    all_below_lem (λ j. f b i j) 8
      (all_below_lem (λ i. all_below (λ j. f b i j) 8) 8
        (all_below_lem (λ b. all_below (λ i. all_below (λ j. f b i j) 8) 8) 256 e b hb) i hi)
      j hj

abbrev sets : ℕ → ℕ → ℕ → Bool
sets b i j = agree (test (with_bit b i) j) (i == j || test b j)

all_sets : every sets ≡ true
unfolding all_below test with_bit
all_sets = refl

pub test-with_bit :
    (b i j : ℕ) → b < 256 → i < 8 → j < 8 → test (with_bit b i) j ≡ (i == j || test b j)
test-with_bit b i j hb hi hj =
    agree_lem (test (with_bit b i) j) (i == j || test b j) (every_lem sets all_sets b i j hb hi hj)

abbrev clears : ℕ → ℕ → ℕ → Bool
clears b i j = agree (test (without_bit b i) j) (not (i == j) && test b j)

all_clears : every clears ≡ true
unfolding all_below test without_bit
all_clears = refl

pub test-without_bit :
    (b i j : ℕ) → b < 256 → i < 8 → j < 8 → test (without_bit b i) j ≡ (not (i == j) && test b j)
test-without_bit b i j hb hi hj =
    agree_lem (test (without_bit b i) j) (not (i == j) && test b j)
      (every_lem clears all_clears b i j hb hi hj)

abbrev fits : ℕ → ℕ → ℕ → Bool
fits b i j = ltb (with_bit b i) 256 && ltb (without_bit b i) 256

all_fits : every fits ≡ true
unfolding all_below with_bit without_bit
all_fits = refl

pub with_bit_small : (b i : ℕ) → b < 256 → i < 8 → with_bit b i < 256
with_bit_small b i hb hi = ground (arith, every_lem fits all_fits b i 0 hb hi (omega arith))

pub without_bit_small : (b i : ℕ) → b < 256 → i < 8 → without_bit b i < 256
without_bit_small b i hb hi = ground (arith, every_lem fits all_fits b i 0 hb hi (omega arith))

abbrev restores : ℕ → ℕ → ℕ → Bool
restores b i j = test b i || without_bit (with_bit b i) i == b

all_restores : every restores ≡ true
unfolding all_below test with_bit without_bit
all_restores = refl

pub without_bit-with_bit :
    (b i : ℕ) → b < 256 → i < 8 → test b i ≡ false → without_bit (with_bit b i) i ≡ b
without_bit-with_bit b i hb hi e =
    ground (arith, e, every_lem restores all_restores b i 0 hb hi (omega arith))

-- The masks of the first byte.
abbrev masks : ℕ → ℕ → ℕ → Bool
masks b i j =
    agree (test (bit_or b (2 ^ i - 1)) j) (ltb j i || test b j)
    && (agree (test (bit_or b (255 - (2 ^ i - 1))) j) (leb i j || test b j)
        && (ltb (bit_or b (2 ^ i - 1)) 256 && ltb (bit_or b (255 - (2 ^ i - 1))) 256))

all_masks : every masks ≡ true
unfolding all_below test
all_masks = refl

left_true : (a b : Bool) → (a && b) ≡ true → a ≡ true
left_true true b e = refl
left_true false b e = e

right_true : (a b : Bool) → (a && b) ≡ true → b ≡ true
right_true true b e = e
right_true false b e = ground (arith, e)

pub low_masked :
    (b i j : ℕ) → b < 256 → i < 8 → j < 8 → test (bit_or b (2 ^ i - 1)) j ≡ (ltb j i || test b j)
low_masked b i j hb hi hj =
    agree_lem (test (bit_or b (2 ^ i - 1)) j) (ltb j i || test b j)
      (left_true _ _ (every_lem masks all_masks b i j hb hi hj))

pub high_masked :
    (b i j : ℕ)
    → b < 256
    → i < 8
    → j < 8
    → test (bit_or b (255 - (2 ^ i - 1))) j ≡ (leb i j || test b j)
high_masked b i j hb hi hj =
    agree_lem (test (bit_or b (255 - (2 ^ i - 1))) j) (leb i j || test b j)
      (left_true _ _ (right_true _ _ (every_lem masks all_masks b i j hb hi hj)))

pub low_mask_small : (b i : ℕ) → b < 256 → i < 8 → bit_or b (2 ^ i - 1) < 256
low_mask_small b i hb hi = ltb→lt (bit_or b (2 ^ i - 1)) 256 (
    left_true _ _
      (right_true _ _ (right_true _ _ (every_lem masks all_masks b i 0 hb hi (omega arith)))))

pub high_mask_small : (b i : ℕ) → b < 256 → i < 8 → bit_or b (255 - (2 ^ i - 1)) < 256
high_mask_small b i hb hi = ltb→lt (bit_or b (255 - (2 ^ i - 1))) 256 (
    right_true (ltb (bit_or b (2 ^ i - 1)) 256) (ltb (bit_or b (255 - (2 ^ i - 1))) 256) (
      right_true (agree (test (bit_or b (255 - (2 ^ i - 1))) 0) (leb i 0 || test b 0)) _ (
        right_true (agree (test (bit_or b (2 ^ i - 1)) 0) (ltb 0 i || test b 0)) _
          (every_lem masks all_masks b i 0 hb hi (omega arith)))))

-- The free bit is the lowest one that is not set.
abbrev is_lowest : ℕ → ℕ → Option ℕ → Bool
is_lowest b j none = test b j
is_lowest b j (some k) = ltb k 8 && (not (test b k) && (leb k j || test b j))

abbrev finds : ℕ → ℕ → ℕ → Bool
finds b i j = is_lowest b j (check_byte b)

all_finds : every finds ≡ true
unfolding all_below test check_byte first_free_bit
all_finds = refl

pub check_byte-none : (b j : ℕ) → b < 256 → j < 8 → check_byte b ≡ none → test b j ≡ true
check_byte-none b j hb hj e =
    subst (λ o. is_lowest b j o ≡ true) e (every_lem finds all_finds b 0 j hb (omega arith) hj)

pub check_byte-some :
    (b k : ℕ)
    → b < 256
    → check_byte b ≡ some k
    → (k < 8) × (test b k ≡ false) × ((j : ℕ) → j < k → test b j ≡ true)
check_byte-some b k hb e =
    let at = λ (j : ℕ) (hj : j < 8).
      subst (λ o. is_lowest b j o ≡ true) e (every_lem finds all_finds b 0 j hb (omega arith) hj) in
    let small : k < 8 = ltb→lt k 8 (left_true _ _ (at 0 (omega arith))) in
    (
      small,
      ground (arith, at 0 (omega arith)),
      λ j less. ground (arith, at j (omega (arith, small)), less),
    )
