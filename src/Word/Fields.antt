-- ===== src/Word/Fields.antt =====
-- Masks and disjoint fields as arithmetic.
use native.Mathlib.Nat.{
  pow-suc, one-le-pow, suc-add, mul-one, div-one, zero-add, pow-le-pow_right, mul-mod_right,
  mod-eq_of_lt, div-lt_iff_lt-mul, mul-div-mul_right, mul_comm,
}
use native.Mathlib.Nat.{div-div-eq-div-mul, div-add-mod'}
use viengoos.Common.{
  ℕ, zero, suc, ◌+◌, ◌-◌, ◌*◌, ◌/◌, ◌%◌, ◌^◌, ◌≤◌, ◌<◌, ◌≡◌, refl, arith, ap, sym, ◌∙◌, bit_and,
  bit_or, bit_xor,
}
use viengoos.Word.Digits.{bit_and_digit, bit_or_digit, bit_xor_digit}

pub two_pow_suc : (k : ℕ) → 2 ^ suc k ≡ 2 * 2 ^ k
two_pow_suc k = omega (arith, pow-suc 2 k)

pub pow_congr : (m n : ℕ) → m ≡ n → 2 ^ m ≡ 2 ^ n
pow_congr m n e = ap (λ (t : ℕ). 2 ^ t) e

pub two_pow_pos : (k : ℕ) → 0 < 2 ^ k
two_pow_pos k = one-le-pow k 2 (omega arith)

pub two_pow_add : (m n : ℕ) → 2 ^ (m + n) ≡ 2 ^ m * 2 ^ n
two_pow_add zero n = rw zero-add (omega arith)
two_pow_add (suc m) n = grind (
  arith,
  two_pow_suc m,
  two_pow_suc (m + n),
  two_pow_add m n,
  ap (λ (t : ℕ). 2 ^ t) (suc-add m n),
)

pub two_pow_le : (m n : ℕ) → m ≤ n → 2 ^ m ≤ 2 ^ n
two_pow_le m n h = pow-le-pow_right (omega arith) h

pub two_pow_lt : (m n : ℕ) → m < n → 2 ^ m < 2 ^ n
two_pow_lt m n h = omega (arith, two_pow_suc m, two_pow_pos m, two_pow_le (suc m) n h)

-- A power of two as a product of two.
pub two_pow_split : (m n : ℕ) → m ≤ n → 2 ^ n ≡ 2 ^ m * 2 ^ (n - m)
two_pow_split m n h = pow_congr n (m + (n - m)) (omega arith) ∙ two_pow_add m (n - m)

-- A multiple of `2 ^ n` has no bits below `n`.
pub multiple-mod : (b m n : ℕ) → m ≤ n → b * 2 ^ n % 2 ^ m ≡ 0
multiple-mod b m n h =
    rw (two_pow_split m n h)
      (rw (regroup b (2 ^ m) (2 ^ (n - m))) (mul-mod_right (2 ^ m) (b * 2 ^ (n - m))))
  where
    regroup : (b x y : ℕ) → b * (x * y) ≡ x * (b * y)
    regroup b x y = omega arith

-- A shift by one more bit.
pub div_two_pow_suc : (x k : ℕ) → x / 2 ^ suc k ≡ x / 2 / 2 ^ k
div_two_pow_suc x k = rw (two_pow_suc k) (sym (div-div-eq-div-mul x 2 (2 ^ k)))

-- Induction on the first argument's size, halved at each step.
or_zero_within : (n a : ℕ) → a ≤ n → bit_or a 0 ≡ a
or_zero_within n zero h = refl
or_zero_within zero (suc a) h = absurd (omega arith)
or_zero_within (suc n) (suc a) h =
    omega (arith, bit_or_digit (suc a) 0, or_zero_within n (suc a / 2) (omega arith))

and_zero_within : (n a : ℕ) → a ≤ n → bit_and a 0 ≡ 0
and_zero_within n zero h = refl
and_zero_within zero (suc a) h = absurd (omega arith)
and_zero_within (suc n) (suc a) h =
    omega (arith, bit_and_digit (suc a) 0, and_zero_within n (suc a / 2) (omega arith))

pub bit_or-zero : (a : ℕ) → bit_or a 0 ≡ a
bit_or-zero a = or_zero_within a a (omega arith)

pub bit_and-zero : (a : ℕ) → bit_and a 0 ≡ 0
bit_and-zero a = and_zero_within a a (omega arith)

scale_suc : (q k : ℕ) → q * 2 ^ suc k ≡ 2 * (q * 2 ^ k)
scale_suc q k = omega (arith, ap (λ (t : ℕ). q * t) (two_pow_suc k))

pub mod_two_pow_suc : (x k : ℕ) → x % 2 ^ suc k ≡ 2 * (x / 2 % 2 ^ k) + x % 2
mod_two_pow_suc x k = omega (
  arith,
  div-add-mod' x (2 ^ suc k),
  div-add-mod' (x / 2) (2 ^ k),
  div_two_pow_suc x k,
  scale_suc (x / 2 ^ suc k) k,
  ap (λ (t : ℕ). t * 2 ^ k) (div_two_pow_suc x k),
)

half_mask : (k : ℕ) → (2 ^ suc k - 1) / 2 ≡ 2 ^ k - 1
half_mask k = omega (arith, two_pow_suc k, two_pow_pos k)

-- A field above bit `k` and a field below it do not meet.
pub bit_or_disjoint : (k q r : ℕ) → r < 2 ^ k → bit_or (q * 2 ^ k) r ≡ q * 2 ^ k + r
bit_or_disjoint zero q r h = ground (arith, bit_or-zero q)
bit_or_disjoint (suc k) q r h = ground (
  arith,
  bit_or_digit (q * 2 ^ suc k) r,
  scale_suc q k,
  bit_or_disjoint k q (r / 2) (omega arith),
)

-- `x & ((1 << k) - 1)`
pub bit_and-low_mask : (k x : ℕ) → bit_and x (2 ^ k - 1) ≡ x % 2 ^ k
bit_and-low_mask zero x = rw bit_and-zero (omega arith)
bit_and-low_mask (suc k) x = ground (
  arith,
  bit_and_digit x (2 ^ suc k - 1),
  two_pow_suc k,
  two_pow_pos k,
  mod_two_pow_suc x k,
  ap (λ (t : ℕ). bit_and (x / 2) t) (half_mask k),
  bit_and-low_mask k (x / 2),
)

-- `x & (m << k)` keeps nothing of the low `k` bits.
pub bit_and-high_mask : (k x m : ℕ) → bit_and x (m * 2 ^ k) ≡ bit_and (x / 2 ^ k) m * 2 ^ k
bit_and-high_mask zero x m =
    ground (arith, ap (λ (t : ℕ). bit_and x t) (mul-one m), ap (λ (t : ℕ). bit_and t m) (div-one x))
bit_and-high_mask (suc k) x m = ground (
  arith,
  bit_and_digit x (m * 2 ^ suc k),
  scale_suc m k,
  scale_suc (bit_and (x / 2 / 2 ^ k) m) k,
  div_two_pow_suc x k,
  bit_and-high_mask k (x / 2) m,
)

-- Two numbers that differ in bit `k` alone.
xor_zero : (n a b : ℕ) → a ≤ n → b ≤ n → bit_xor a b ≡ 0 → a ≡ b
xor_zero zero a b p q h = omega arith
xor_zero (suc n) a b p q h = omega (
  arith,
  bit_xor_digit a b,
  xor_zero n (a / 2) (b / 2) (omega arith) (omega arith) (omega (arith, bit_xor_digit a b)),
)

pub bit_xor-eq-two_pow :
    (k a b : ℕ) → bit_xor a b ≡ 2 ^ k → a < b → (b ≡ a + 2 ^ k) × (a / 2 ^ k % 2 ≡ 0)
bit_xor-eq-two_pow zero a b h lt =
    let halves : a / 2 ≡ b / 2 =
      xor_zero (a + b) (a / 2) (b / 2) (omega arith) (omega arith)
        (omega (arith, bit_xor_digit a b)) in
    (omega (arith, bit_xor_digit a b), omega (arith, bit_xor_digit a b))
bit_xor-eq-two_pow (suc k) a b h lt =
    let digit = bit_xor_digit a b in
    let double = two_pow_suc k in
    let (sum, even) = bit_xor-eq-two_pow k (a / 2) (b / 2) (omega arith) (omega arith) in
    (omega arith, rw (div_two_pow_suc a k) even)

xor_comm_within : (n a b : ℕ) → a ≤ n → b ≤ n → bit_xor a b ≡ bit_xor b a
xor_comm_within zero a b h k = let e : a ≡ b = omega arith in rw e refl
xor_comm_within (suc n) a b h k = omega (
  arith,
  bit_xor_digit a b,
  bit_xor_digit b a,
  xor_comm_within n (a / 2) (b / 2) (omega arith) (omega arith),
)

pub bit_xor_comm : (a b : ℕ) → bit_xor a b ≡ bit_xor b a
bit_xor_comm a b = xor_comm_within (a + b) a b (omega arith) (omega arith)

xor_self_within : (n a : ℕ) → a ≤ n → bit_xor a a ≡ 0
xor_self_within zero a h = let e : a ≡ 0 = omega arith in rw e refl
xor_self_within (suc n) a h =
    omega (arith, bit_xor_digit a a, xor_self_within n (a / 2) (omega arith))

pub bit_xor_self : (a : ℕ) → bit_xor a a ≡ 0
bit_xor_self a = xor_self_within a a (omega arith)

pub one_less-mul : (t u : ℕ) → 0 < t → (t - 1) * u + u ≡ t * u
one_less-mul zero u h = elim h [ ]
one_less-mul (suc t) u h = let e : suc t - 1 ≡ t = omega arith in rw e (omega arith)

-- A quotient of a number of `w` bits.
pub div-lt-two_pow : (w m x : ℕ) → m ≤ w → x < 2 ^ w → x / 2 ^ m < 2 ^ (w - m)
div-lt-two_pow w m x h k =
    (div-lt_iff_lt-mul (two_pow_pos m)).1 (omega (arith, two_pow_split m w h))

-- `x & ~((1 << m) - 1)`
pub bit_and-clear_low :
    (w m x : ℕ) → m ≤ w → x < 2 ^ w → bit_and x (2 ^ w - 1 - (2 ^ m - 1)) ≡ x / 2 ^ m * 2 ^ m
bit_and-clear_low w m x h k =
    rw (mask_split, bit_and-high_mask m x (2 ^ (w - m) - 1), bit_and-low_mask (w - m) (x / 2 ^ m))
      (ap (λ (t : ℕ). t * 2 ^ m) (mod-eq_of_lt (div-lt-two_pow w m x h k)))
  where
    mask_split : 2 ^ w - 1 - (2 ^ m - 1) ≡ (2 ^ (w - m) - 1) * 2 ^ m
    mask_split = omega (
      arith,
      two_pow_split m w h,
      two_pow_pos m,
      one_less-mul (2 ^ (w - m)) (2 ^ m) (two_pow_pos (w - m)),
    )

-- Bits that are shifted up and then down further.
pub mul-div-two_pow : (b k e : ℕ) → b * 2 ^ k / 2 ^ (k + e) ≡ b / 2 ^ e
mul-div-two_pow b k e =
    rw (two_pow_add k e, mul_comm (2 ^ k) (2 ^ e)) (mul-div-mul_right b (2 ^ e) (two_pow_pos k))
