-- ===== src/Word/Bit.antt =====
-- One bit of a word: tested by `&`, set by `|`, cleared by `& ~`.
use native.Mathlib.Nat.{div-one, mod-eq_of_lt, div-add-mod'}
use viengoos.Common.{
  ℕ, zero, suc, ◌+◌, ◌-◌, ◌*◌, ◌/◌, ◌%◌, ◌^◌, ◌≤◌, ◌<◌, ◌≡◌, arith, ap, bit_and, bit_or,
}
use viengoos.Word.Digits.{bit_and_digit, bit_or_digit}
use viengoos.Word.Fields.{
  two_pow_suc, two_pow_pos, div_two_pow_suc, bit_or-zero, bit_and-low_mask, bit_and-high_mask,
  two_pow_lt,
}

-- The bit of `x` at place `n`.
abbrev pub bit : ℕ → ℕ → ℕ
bit x n = x / 2 ^ n % 2

pub bit_and-one : (x : ℕ) → bit_and x 1 ≡ x % 2
bit_and-one x = bit_and-low_mask 1 x

pub bit_and-two_pow : (n x : ℕ) → bit_and x (2 ^ n) ≡ bit x n * 2 ^ n
bit_and-two_pow n x = ground (
  arith,
  bit_and-high_mask n x 1,
  bit_and-one (x / 2 ^ n),
  ap (λ (t : ℕ). bit_and x t) (one_times n),
)
  where
    one_times : (n : ℕ) → 1 * 2 ^ n ≡ 2 ^ n
    one_times n = omega arith

pub bit_or-two_pow : (n x : ℕ) → bit_or x (2 ^ n) ≡ x + (1 - bit x n) * 2 ^ n
bit_or-two_pow zero x = ground (arith, bit_or_digit x 1, bit_or-zero (x / 2), div-one x)
bit_or-two_pow (suc n) x = ground (
  arith,
  bit_or_digit x (2 ^ suc n),
  two_pow_suc n,
  div_two_pow_suc x n,
  bit_or-two_pow n (x / 2),
  ap (λ (t : ℕ). (1 - bit (x / 2) n) * t) (two_pow_suc n),
)

pub bit-le : (x n : ℕ) → bit x n * 2 ^ n ≤ x
bit-le x n = grind (arith, div-add-mod' x (2 ^ n))

pub bit_and-clear :
    (w n x : ℕ) → n < w → x < 2 ^ w → bit_and x (2 ^ w - 1 - 2 ^ n) ≡ x - bit x n * 2 ^ n
bit_and-clear zero n x h k = elim h [ ]
bit_and-clear (suc w) zero x h k = ground (
  arith,
  bit_and_digit x (2 ^ suc w - 1 - 1),
  two_pow_suc w,
  two_pow_pos w,
  div-one x,
  bit_and-low_mask w (x / 2),
  mod-eq_of_lt {n = x / 2} {m = 2 ^ w} (omega (arith, two_pow_suc w)),
  ap (λ (t : ℕ). bit_and (x / 2) t) (half w),
)
  where
    half : (w : ℕ) → (2 ^ suc w - 1 - 1) / 2 ≡ 2 ^ w - 1
    half w = omega (arith, two_pow_suc w, two_pow_pos w)
bit_and-clear (suc w) (suc n) x h k = ground (
  arith,
  bit_and_digit x (2 ^ suc w - 1 - 2 ^ suc n),
  two_pow_suc n,
  div_two_pow_suc x n,
  ap (λ (t : ℕ). bit (x / 2) n * t) (two_pow_suc n),
  bit_times_le,
  odd,
  ap (λ (t : ℕ). bit_and (x / 2) t) half,
  bit_and-clear w n (x / 2) (omega arith) (omega (arith, two_pow_suc w)),
)
  where
    half : (2 ^ suc w - 1 - 2 ^ suc n) / 2 ≡ 2 ^ w - 1 - 2 ^ n
    half = omega (arith, two_pow_suc w, two_pow_suc n, two_pow_lt n w (omega arith))

    odd : (2 ^ suc w - 1 - 2 ^ suc n) % 2 ≡ 1
    odd = omega (arith, two_pow_suc w, two_pow_suc n, two_pow_lt n w (omega arith))

    bit_times_le : bit (x / 2) n * 2 ^ n ≤ x / 2
    bit_times_le = bit-le (x / 2) n
