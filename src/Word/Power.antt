-- ===== src/Word/Power.antt =====
-- Powers of two: the test `n & (n - 1)`, and the logarithm by the highest bit.
use native.Mathlib.Nat.{mod_self as mod-self}
use viengoos.Common.{
  ℕ, zero, suc, ◌-◌, ◌/◌, ◌%◌, ◌^◌, ◌≤◌, ◌<◌, ◌≡◌, ◌≢◌, refl, ◌∙◌, ap, arith, bit_and, ℕ_discrete,
}
use viengoos.Word.Digits.{bit_and_digit}
use viengoos.Word.Fields.{two_pow_suc, bit_and-low_mask}

bit_and_self_within : (n a : ℕ) → a ≤ n → bit_and a a ≡ a
bit_and_self_within n zero h = refl
bit_and_self_within zero (suc a) h = absurd (omega arith)
bit_and_self_within (suc n) (suc a) h =
    omega (arith, bit_and_digit (suc a) (suc a), bit_and_self_within n (suc a / 2) (omega arith))

pub bit_and_self : (a : ℕ) → bit_and a a ≡ a
bit_and_self a = bit_and_self_within a a (omega arith)

half_pred : (n : ℕ) → n % 2 ≡ 0 → 0 < n → (n - 1) / 2 ≡ n / 2 - 1
half_pred n e h = omega arith

same_half : (n : ℕ) → n % 2 ≢ 0 → (n - 1) / 2 ≡ n / 2
same_half n e = omega arith

power_within : (m n : ℕ) → n ≤ m → 0 < n → bit_and n (n - 1) ≡ 0 → (k : ℕ) × (n ≡ 2 ^ k)
power_within zero n h pos e = absurd (omega arith)
power_within (suc m) n h pos e = elim (ℕ_discrete (n % 2) 0) [
  | yes even ↦
      let halved : bit_and (n / 2) (n / 2 - 1) ≡ 0 = ground (
        arith,
        bit_and_digit n (n - 1),
        ap (λ (t : ℕ). bit_and (n / 2) t) (half_pred n even pos),
      ) in
      let (k, p) = power_within m (n / 2) (omega arith) (omega arith) halved in
      (suc k, omega (arith, two_pow_suc k))
  | no odd ↦ (
    0,
    ground (
      arith,
      bit_and_digit n (n - 1),
      ap (λ (t : ℕ). bit_and (n / 2) t) (same_half n odd),
      bit_and_self (n / 2),
    ),
  )
]

-- A number other than 0 whose highest bit alone is set is a power of two.
pub bit_and-pred-eq-zero : (n : ℕ) → 0 < n → bit_and n (n - 1) ≡ 0 → (k : ℕ) × (n ≡ 2 ^ k)
bit_and-pred-eq-zero n pos e = power_within n n (omega arith) pos e

pub power-IsPower : (k : ℕ) → bit_and (2 ^ k) (2 ^ k - 1) ≡ 0
power-IsPower k = bit_and-low_mask k (2 ^ k) ∙ mod-self (2 ^ k)
