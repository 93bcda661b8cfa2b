-- ===== src/Math/Laws.antt =====
-- What the bit numbers of math.h say of the word.
use viengoos.Common.{
  ℕ, zero, suc, ◌+◌, ◌-◌, ◌*◌, ◌/◌, ◌%◌, ◌^◌, ◌≤◌, ◌<◌, ◌≡◌, ◌≢◌, ◌⊎◌, inl, inr, ap, arith, dec_lt,
  ℕ_discrete,
}
use native.Mathlib.Nat.{div-eq_of_lt, div-eq_of_lt-le}
use viengoos.Math.{clz, ffs, msb, lsb}
use viengoos.Word.Fields.{two_pow_suc, two_pow_pos, two_pow_le, two_pow_lt, pow_congr}

top_bit :
    (w x : ℕ) → x < 2 ^ suc w → ((x / 2 ^ w ≡ 1) × (2 ^ w ≤ x)) ⊎ ((x / 2 ^ w ≡ 0) × (x < 2 ^ w))
top_bit w x h = elim (dec_lt x (2 ^ w)) [
  | yes p ↦ inr (div-eq_of_lt p, p)
  | no p ↦
      inl
        (div-eq_of_lt-le {k = 1} (2 ^ w) (omega arith) (omega (arith, two_pow_suc w)), omega arith)
]

-- The highest bit that is set stands at place `w - 1 - clz w x`.
clz_bounds :
    (w x : ℕ)
    → x ≢ 0
    → x < 2 ^ w
    → (clz w x < w) × (2 ^ (w - 1 - clz w x) ≤ x) × (x < 2 ^ (w - clz w x))
unfolding clz
clz_bounds zero x ne h = absurd (ne (omega arith))
clz_bounds (suc w) x ne h = elim (top_bit w x h) [
  | inl (one, ge) ↦ rw one (
    omega arith,
    ground (arith, pow_congr (suc w - 1 - 0) w (omega arith)),
    ground (arith, pow_congr (suc w - 0) (suc w) (omega arith)),
  )
  | inr (none, lt) ↦
      let (small, low, high) = clz_bounds w x ne lt in
      rw none (
        omega arith,
        rw (ap (λ (t : ℕ). 2 ^ t) (shift (clz w x))) low,
        ground (arith, high, pow_congr (suc w - suc (clz w x)) (w - clz w x) (omega arith)),
      )
]
  where
    shift : (c : ℕ) → suc w - 1 - suc c ≡ w - 1 - c
    shift c = omega arith

pub msb_of_ne_zero : (w x : ℕ) → x ≢ 0 → msb w x ≡ w - clz w x
unfolding msb
msb_of_ne_zero w x ne = ground arith

-- vg_msb of a word other than 0 is the place of its highest bit, counted from 1: 2^(msb - 1) <=
-- x < 2^msb, and it is within the word.
pub msb_bounds :
    (w x : ℕ)
    → x ≢ 0
    → x < 2 ^ w
    → (0 < msb w x) × (msb w x ≤ w) × (2 ^ (msb w x - 1) ≤ x) × (x < 2 ^ msb w x)
msb_bounds w x ne h =
    let (small, low, high) = clz_bounds w x ne h in
    rw (msb_of_ne_zero w x ne)
      (omega arith, omega arith, rw (ap (λ (t : ℕ). 2 ^ t) (swap w (clz w x))) low, high)
  where
    swap : (w c : ℕ) → w - c - 1 ≡ w - 1 - c
    swap w c = omega arith

-- Every number but 0 is an odd number times a power of two, and `vg_lsb` counts the exponent
-- from 1, where the word holds the number.
pub lsb_odd-mul-two_pow : (w k q : ℕ) → k < w → lsb w ((2 * q + 1) * 2 ^ k) ≡ suc k
unfolding lsb ffs
lsb_odd-mul-two_pow zero k q h = elim h [ ]
lsb_odd-mul-two_pow (suc w) zero q h = ground arith
lsb_odd-mul-two_pow (suc w) (suc k) q h = ground (
  arith,
  ap (λ (t : ℕ). (2 * q + 1) * t) (two_pow_suc k),
  ap (λ (t : ℕ). ffs w t) halved,
  lsb_odd-mul-two_pow w k q (omega arith),
)
  where
    halved : (2 * q + 1) * 2 ^ suc k / 2 ≡ (2 * q + 1) * 2 ^ k
    halved = omega (arith, ap (λ (t : ℕ). (2 * q + 1) * t) (two_pow_suc k))

-- A record of the lowest bit that is set.
pub record LowestBit (w x : ℕ) : Type 0 where
  pub place : ℕ
  pub above : ℕ
  pub within : place < w
  pub value : x ≡ (2 * above + 1) * 2 ^ place

pub lowest_bit : (w x : ℕ) → x ≢ 0 → x < 2 ^ w → LowestBit w x
lowest_bit zero x ne h = absurd (ne (omega arith))
lowest_bit (suc w) x ne h = elim (ℕ_discrete (x % 2) 0) [
  | no odd ↦ record { place = 0; above = x / 2; within = omega arith; value = omega arith }
  | yes even ↦
      let r = lowest_bit w (x / 2) (omega arith) (omega (arith, two_pow_suc w)) in
      record {
        place = suc r.place;
        above = r.above;
        within = omega (arith, r.within);
        value = omega (arith, r.value, ap (λ (t : ℕ). (2 * r.above + 1) * t) (two_pow_suc r.place));
      }
]

-- The highest bit of a power of two.
pub msb-two_pow : (w k : ℕ) → k < w → msb w (2 ^ k) ≡ suc k
msb-two_pow w k h =
    let (pos, le, low, high) =
      msb_bounds w (2 ^ k) (omega (arith, two_pow_pos k)) (two_pow_lt k w h) in
    elim (dec_lt k (msb w (2 ^ k) - 1)) [
      | yes p ↦ absurd (omega (arith, two_pow_lt k (msb w (2 ^ k) - 1) p))
      | no p ↦ elim (dec_lt (msb w (2 ^ k)) (suc k)) [
        | yes q ↦ absurd (omega (arith, two_pow_le (msb w (2 ^ k)) k (omega arith)))
        | no q ↦ omega arith
      ]
    ]

-- A word of few significant bits is small.
pub lt-of-msb-le : (w x d : ℕ) → x < 2 ^ w → msb w x ≤ d → x < 2 ^ d
unfolding msb
lt-of-msb-le w zero d h k = two_pow_pos d
lt-of-msb-le w (suc x) d h k =
    let (pos, le, low, high) = msb_bounds w (suc x) (omega arith) h in
    omega (arith, two_pow_le (msb w (suc x)) d k)

-- And the other way round.
pub msb-le-of-lt : (w x d : ℕ) → x < 2 ^ w → x < 2 ^ d → msb w x ≤ d
unfolding msb
msb-le-of-lt w zero d h k = omega arith
msb-le-of-lt w (suc x) d h k =
    let (pos, le, low, high) = msb_bounds w (suc x) (omega arith) h in
    elim (dec_lt d (msb w (suc x))) [
      | yes p ↦ absurd (omega (arith, two_pow_le d (msb w (suc x) - 1) (omega arith)))
      | no p ↦ omega arith
    ]
