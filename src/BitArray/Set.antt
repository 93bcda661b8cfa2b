-- ===== src/BitArray/Set.antt =====
-- bit_set and bit_set_to write the one bit.
use viengoos.BitArray.Alloc.{written, cleared}
use viengoos.BitArray.Scan.{IsBytes}
use viengoos.BitArray.{bit_test, with_bit, without_bit, set_byte, bit_set, bit_set_to}
use viengoos.Common.{
  ℕ, ◌+◌, ◌*◌, ◌/◌, ◌%◌, ◌<◌, ◌≡◌, inl, inr, refl, sym, ap, ◌∙◌, subst, arith, Bool, true, false,
  not, ◌&&◌, ◌||◌, some, ltb, ◌==◌, ◌>>◌, assert, if◌then◌else◌, Bool-cases, if_true, if_false,
  ℕ_discrete,
}

written_at :
    (array : ℕ → ℕ) (k j : ℕ)
    → IsBytes array
    → bit_test (set_byte array (k / 8) (with_bit (array (k / 8)) (k % 8))) j
      ≡ (k == j || bit_test array j)
written_at array k j bytes =
    let place : k / 8 * 8 + k % 8 ≡ k = omega arith in
    written array (k / 8) (k % 8) j bytes (omega arith) ∙ ap (λ p. p == j || bit_test array j) place

already :
    (array : ℕ → ℕ) (k j : ℕ)
    → bit_test array k ≡ true
    → bit_test array j ≡ (k == j || bit_test array j)
already array k j e = elim (ℕ_discrete k j) [
  | yes s ↦ subst (λ j. bit_test array j ≡ (k == j || bit_test array j)) s (ground (arith, e))
  | no ne ↦ ground (arith, ne)
]

-- bit_set of a bit of the array sets it and no other, and says whether it was clear.
pub bit_set_cases :
    (array : ℕ → ℕ) (size bit : ℕ)
    → IsBytes array
    → bit < size * 8
    → (array' : ℕ → ℕ) × (fresh : Bool) × (bit_set array size bit ≡ some (array', fresh))
      × (fresh ≡ not (bit_test array bit))
      × ((j : ℕ) → bit_test array' j ≡ (bit == j || bit_test array j))
unfolding bit_set
bit_set_cases array size bit bytes h =
    let array' = set_byte array (bit / 8) (with_bit (array (bit / 8)) (bit % 8)) in
    let inside : ltb bit (size * 8) ≡ true = ground (arith, h) in
    let step =
      ap
        (λ c. assert c >> (if bit_test array bit then some (array, false) else some (array', true)))
        inside in
    elim (Bool-cases (bit_test array bit)) [
      | inl e ↦ (
        array,
        false,
        step ∙ if_true (bit_test array bit) (some (array, false)) (some (array', true)) e,
        ap not (sym e),
        λ j. already array bit j e,
      )
      | inr e ↦ (
        array',
        true,
        step ∙ if_false (bit_test array bit) (some (array, false)) (some (array', true)) e,
        ap not (sym e),
        λ j. written_at array bit j bytes,
      )
    ]

-- bit_set_to of a bit of the array gives it the value, and leaves the others.
pub bit_set_to_cases :
    (array : ℕ → ℕ) (size bit : ℕ) (value : Bool)
    → IsBytes array
    → bit < size * 8
    → (array' : ℕ → ℕ) × (bit_set_to array size bit value ≡ some array')
      × ((j : ℕ) → bit_test array' j ≡ (if bit == j then value else bit_test array j))
unfolding bit_set_to
bit_set_to_cases array size bit true bytes h =
    let array' = set_byte array (bit / 8) (with_bit (array (bit / 8)) (bit % 8)) in
    let inside : ltb bit (size * 8) ≡ true = ground (arith, h) in
    (
      array',
      ap (λ c. assert c >> some array') inside,
      λ j. written_at array bit j bytes ∙ either (bit == j) (bit_test array j),
    )
  where
    either : (c b : Bool) → (c || b) ≡ (if c then true else b)
    either true b = refl
    either false b = refl
bit_set_to_cases array size bit false bytes h =
    let array' = set_byte array (bit / 8) (without_bit (array (bit / 8)) (bit % 8)) in
    let inside : ltb bit (size * 8) ≡ true = ground (arith, h) in
    (
      array',
      ap (λ c. assert c >> some array') inside,
      λ j. cleared array bit j bytes ∙ either (bit == j) (bit_test array j),
    )
  where
    either : (c b : Bool) → (not c && b) ≡ (if c then false else b)
    either true b = refl
    either false b = refl
