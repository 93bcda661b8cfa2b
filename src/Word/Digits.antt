-- ===== src/Word/Digits.antt =====
-- The lowest binary digit of `&`, `|` and `^`: the native operations recur on a count of digits,
-- which is dropped here.
use Prim.Native.Nat.{differ, digits, bit_and-bitwise, bit_or-bitwise, bit_xor-bitwise}
use viengoos.Common.{
  ℕ, zero, suc, ◌+◌, ◌*◌, ◌/◌, ◌%◌, ◌≤◌, ◌<◌, ◌≡◌, refl, arith, bit_and, bit_or, bit_xor, min, max,
}

module _ (rest : ℕ → ℕ) (op : ℕ → ℕ → ℕ) where
  count_irrelevant : (n m a b : ℕ) → a ≤ n → a ≤ m → digits rest op n a b ≡ digits rest op m a b
  count_irrelevant n m zero b p q = at_zero n m
    where
      at_zero : (n m : ℕ) → digits rest op n zero b ≡ digits rest op m zero b
      at_zero zero zero = refl
      at_zero zero (suc m) = refl
      at_zero (suc n) zero = refl
      at_zero (suc n) (suc m) = refl
  count_irrelevant zero m (suc a) b p q = absurd (omega arith)
  count_irrelevant (suc n) zero (suc a) b p q = absurd (omega arith)
  count_irrelevant (suc n) (suc m) (suc a) b p q =
      omega (arith, count_irrelevant n m (suc a / 2) (b / 2) (omega arith) (omega arith))

  lowest :
      (a b : ℕ)
      → digits rest op (suc a) (suc a) b
        ≡ digits rest op (suc a / 2) (suc a / 2) (b / 2) * 2 + op (suc a % 2) (b % 2)
  lowest a b =
      omega (arith, count_irrelevant a (suc a / 2) (suc a / 2) (b / 2) (omega arith) (omega arith))

pub bit_and_digit : (a b : ℕ) → bit_and a b ≡ bit_and (a / 2) (b / 2) * 2 + min (a % 2) (b % 2)
bit_and_digit zero b = simp bit_and-bitwise (omega arith)
bit_and_digit (suc a) b = simp bit_and-bitwise (lowest (λ d. 0) min a b)

pub bit_or_digit : (a b : ℕ) → bit_or a b ≡ bit_or (a / 2) (b / 2) * 2 + max (a % 2) (b % 2)
bit_or_digit zero b = simp bit_or-bitwise (omega arith)
bit_or_digit (suc a) b = simp bit_or-bitwise (lowest (λ d. d) max a b)

differ-mod : (x y : ℕ) → x < 2 → y < 2 → differ x y ≡ (x + y) % 2
differ-mod zero zero h k = refl
differ-mod zero (suc zero) h k = refl
differ-mod (suc zero) zero h k = refl
differ-mod (suc zero) (suc zero) h k = refl
differ-mod zero (suc (suc y)) h k = absurd (omega arith)
differ-mod (suc zero) (suc (suc y)) h k = absurd (omega arith)
differ-mod (suc (suc x)) y h k = absurd (omega arith)

pub bit_xor_digit : (a b : ℕ) → bit_xor a b ≡ bit_xor (a / 2) (b / 2) * 2 + (a % 2 + b % 2) % 2
bit_xor_digit zero b = simp bit_xor-bitwise (omega arith)
bit_xor_digit (suc a) b = simp bit_xor-bitwise (
    omega (
      arith,
      lowest (λ d. d) differ a b,
      differ-mod (suc a % 2) (b % 2) (omega arith) (omega arith),
    ))
