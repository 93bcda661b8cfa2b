-- ===== src/Addr/Meaning.antt =====
-- What a word means as an address: `bits`, a number of `depth` bits.
use native.Mathlib.Nat.{mod-eq_of_lt, mul-div_cancel, mul-le-mul_right}
use viengoos.Common.{
  ℕ, suc, ◌+◌, ◌-◌, ◌*◌, ◌/◌, ◌%◌, ◌^◌, ◌≤◌, ◌<◌, ◌≡◌, refl, ap, ◌∙◌, sym, arith, some, bit_and,
  bit_or,
}
use viengoos.Addr.{Addr, addr_bits, make, depth, prefix, int_mask}
use viengoos.Math.Laws.{lsb_odd-mul-two_pow}
use viengoos.Word.{shl}
use viengoos.Word.Bit.{bit_and-clear}
use viengoos.Word.Fields.{
  two_pow_suc, two_pow_pos, two_pow_split, multiple-mod, two_pow_lt, bit_or_disjoint,
  bit_and-low_mask,
}

-- A product that does not wrap.
word_of : {x y : ℕ} (m : ℕ) → x < m → x ≡ y → x % m ≡ y
word_of m h e = mod-eq_of_lt h ∙ e

scaled : (b n : ℕ) → b * 2 ^ n * 2 ^ 1 ≡ b * 2 ^ suc n
scaled b n = omega (arith, ap (λ (t : ℕ). b * t) (two_pow_suc n))

pub bits-le : (bits d : ℕ) → d ≤ 63 → bits < 2 ^ d → (bits + 1) * 2 ^ (63 - d) ≤ 2 ^ 63
bits-le bits d h k = omega (
  arith,
  two_pow_split d 63 h,
  mul-le-mul_right {m = bits + 1} {n = 2 ^ d} (2 ^ (63 - d)) (omega arith),
)

pub bits-lt : (bits d : ℕ) → d ≤ 63 → bits < 2 ^ d → bits * 2 ^ (63 - d) < 2 ^ 63
bits-lt bits d h k = omega (arith, bits-le bits d h k, two_pow_pos (63 - d))

pub record Means (a : Addr) (bits d : ℕ) : Type 0 where
  pub shallow : d ≤ addr_bits
  pub fits : bits < 2 ^ d
  pub word : a.raw ≡ (2 * bits + 1) * 2 ^ (addr_bits - d)

module _ {a : Addr} {bits d : ℕ} (m : Means a bits d) where
  pub depth-Means : depth a ≡ d
  unfolding depth
  depth-Means =
      rw (m.word, lsb_odd-mul-two_pow 64 (63 - d) bits (omega (arith, m.shallow)))
        (omega (arith, m.shallow))

  raw-lt : a.raw < 2 ^ 64
  raw-lt = omega (arith, m.word, bits-le bits d m.shallow m.fits, two_pow_pos (63 - d))

  -- `bits` at the upper end of the 63
  pub prefix-Means : prefix a ≡ bits * 2 ^ (addr_bits - d)
  unfolding prefix
  prefix-Means =
      let n = addr_bits - d in
      let n_lt : 2 ^ n < 2 ^ 64 = two_pow_lt n 64 (omega arith) in
      let quotient : a.raw / 2 ^ n ≡ 2 * bits + 1 =
        rw m.word (mul-div_cancel (2 * bits + 1) (two_pow_pos n)) in
      let raw_lt : a.raw < 2 ^ 64 = raw-lt in
      rw depth-Means (
        ground (
          arith,
          m.word,
          quotient,
          mod-eq_of_lt {n = 1 * 2 ^ n} {m = 2 ^ 64} (omega arith),
          bit_and-clear 64 n a.raw (omega arith) raw_lt,
        ))

-- `VG_ADDR` takes the bits in the upper `d` of 63.
pub make-Means :
    (bits d : ℕ)
    → d ≤ addr_bits
    → bits < 2 ^ d
    → (a : Addr) × (make (bits * 2 ^ (addr_bits - d)) d ≡ some a) × Means a bits d
unfolding make int_mask
make-Means bits d h k =
    let n = addr_bits - d in
    let p = bits * 2 ^ n in
    let n_lt : 2 ^ n < 2 ^ 64 = two_pow_lt n 64 (omega arith) in
    let total : 2 ^ d * 2 ^ n ≡ 2 ^ 63 = sym (two_pow_split d 63 h) in
    let p_lt : p < 2 ^ 63 = bits-lt bits d h k in
    let aligned : bit_and p (2 ^ (n % 32) - 1) ≡ 0 =
      bit_and-low_mask (n % 32) p ∙ multiple-mod bits (n % 32) n (omega arith) in
    let joined : bit_or (shl 64 p 1) (shl 64 1 n) ≡ (2 * bits + 1) * 2 ^ n =
      rw
        (
          word_of {x = p * 2 ^ 1} (2 ^ 64) (omega arith) (scaled bits n),
          word_of {x = 1 * 2 ^ n} {y = 2 ^ n} (2 ^ 64) (omega arith) (omega arith),
          bit_or_disjoint (suc n) bits (2 ^ n) (two_pow_lt n (suc n) (omega arith)),
        )
        (omega (arith, ap (λ (t : ℕ). bits * t) (two_pow_suc n))) in
    (
      record { raw = (2 * bits + 1) * 2 ^ n },
      ground (arith, aligned, p_lt, joined),
      record { shallow = h; fits = k; word = refl },
    )
