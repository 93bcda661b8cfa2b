-- ===== src/Zalloc/Buddy.antt =====
-- Buddies, and the place of a block among those of its zone.
use native.Mathlib.Nat.{div-one}
use viengoos.Common.{
  ℕ, zero, suc, ◌+◌, ◌/◌, ◌%◌, ◌^◌, ◌≤◌, ◌<◌, ◌≡◌, inl, inr, arith, List, [], ◌∷◌, ltb, bit_xor,
  All, Bool-cases,
}
use viengoos.Word.Fields.{pow_congr, bit_xor-eq-two_pow, div_two_pow_suc, mod_two_pow_suc}
use viengoos.Zalloc.{neighbours, relink}

-- A block of the zone: at a multiple of the zone's size, not the null pointer, below 2 GB.
abbrev pub InZone : ℕ → ℕ → Type 0
InZone n b = (b % 2 ^ (n + 12) ≡ 0) × (0 < b) × (b < 2 ^ 31)

-- The zones from the n-th on.
abbrev pub AllInZone : ℕ → List (List ℕ) → Type 0
AllInZone n [] = Unit
AllInZone n (z ∷ zs) = All (InZone n) z × AllInZone (suc n) zs

pub All-relink :
    (P : ℕ → Type 0) (left right : List ℕ) → All P left → All P right → All P (relink left right)
unfolding relink
All-relink P [] right a b = b
All-relink P (l ∷ left) right (a, rest) b = All-relink P left (l ∷ right) rest (a, b)

pub All-neighbours :
    (P : ℕ → Type 0) (block : ℕ) (left zone : List ℕ)
    → All P left
    → All P zone
    → All P (neighbours block left zone).0 × All P (neighbours block left zone).1
unfolding neighbours
All-neighbours P block left [] a b = (a, b)
All-neighbours P block left (x ∷ rest) a (b, bs) = elim (Bool-cases (ltb x block)) [
  | inl y ↦ rw y (All-neighbours P block (x ∷ left) rest (b, a) bs)
  | inr n ↦ rw n (a, (b, bs))
]

-- The blocks to the left are below the new one.
pub All-left :
    (block : ℕ) (left zone : List ℕ)
    → All (λ b. b < block) left
    → All (λ b. b < block) (neighbours block left zone).0
unfolding neighbours
All-left block left [] a = a
All-left block left (x ∷ rest) a = elim (Bool-cases (ltb x block)) [
  | inl y ↦ rw y (All-left block (x ∷ left) rest (ground arith, a))
  | inr n ↦ rw n a
]

-- Nothing to the right is below the new block, as far as the nearest one tells.
abbrev pub FromOn : ℕ → List ℕ → Type 0
FromOn block [] = Unit
FromOn block (x ∷ xs) = block ≤ x

pub FromOn-right : (block : ℕ) (left zone : List ℕ) → FromOn block (neighbours block left zone).1
unfolding neighbours
FromOn-right block left [] = tt
FromOn-right block left (x ∷ rest) = elim (Bool-cases (ltb x block)) [
  | inl y ↦ rw y (FromOn-right block (x ∷ left) rest)
  | inr n ↦ rw n (ground arith)
]

-- Two buddies make a block of the next zone.
even_block : (n a : ℕ) → a % 2 ^ n ≡ 0 → a / 2 ^ n % 2 ≡ 0 → a % 2 ^ suc n ≡ 0
even_block zero a h e = omega (arith, div-one a)
even_block (suc n) a h e =
    let digit = mod_two_pow_suc a n in
    let half = even_block n (a / 2) (omega arith) (rw (← div_two_pow_suc a n) e) in
    omega (arith, mod_two_pow_suc a (suc n))

pub next_power : (n : ℕ) → 2 ^ (suc n + 12) ≡ 2 ^ suc (n + 12)
next_power n = pow_congr (suc n + 12) (suc (n + 12)) (omega arith)

pub buddies_join :
    (n a b : ℕ)
    → InZone n a
    → bit_xor a b ≡ 2 ^ (n + 12)
    → a < b
    → InZone (suc n) a × (b ≡ a + 2 ^ (n + 12))
buddies_join n a b (h, pos, lt) x below =
    let (sum, even) = bit_xor-eq-two_pow (n + 12) a b x below in
    ((rw (next_power n) (even_block (n + 12) a h even), pos, lt), sum)
