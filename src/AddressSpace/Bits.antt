-- ===== src/AddressSpace/Bits.antt =====
-- libhurd-mm/bits.h as arithmetic.
use native.Mathlib.Nat.{
  mod-lt, mod-eq_of_lt, div-add-mod', add-mul-mod_self_right, mul-le-mul_right, mod-one,
}
use viengoos.AddressSpace.{extract_bits64_inv, through_int}
use viengoos.Common.{
  ℕ, zero, suc, ◌+◌, ◌-◌, ◌*◌, ◌/◌, ◌%◌, ◌^◌, ◌≤◌, ◌<◌, ◌≡◌, ◌∙◌, sym, ap, arith, true, some, ◌==◌,
  bit_and,
}
use viengoos.Word.Fields.{two_pow_pos, two_pow_le, two_pow_split, bit_and-low_mask, pow_congr}

-- The `c` bits at the upper end of the `r` lowest.
abbrev pub top : ℕ → ℕ → ℕ → ℕ
top a r c = a / 2 ^ (r - c) % 2 ^ c

pub extract_bits64_inv-top :
    (a r c : ℕ) → 0 < r → r ≤ 63 → c ≤ r → extract_bits64_inv a (r - 1) c ≡ some (top a r c)
unfolding extract_bits64_inv
extract_bits64_inv-top a r zero h k l = ground (arith, mod-one (a / 2 ^ (r - 0)))
extract_bits64_inv-top a r (suc c) h k l = ground (
  arith,
  pow_congr (r - 1 + 1 - suc c) (r - suc c) (omega arith),
  ap (λ (u : ℕ). bit_and (a / u) (2 ^ suc c - 1))
      (pow_congr (r - 1 + 1 - suc c) (r - suc c) (omega arith)),
  bit_and-low_mask (suc c) (a / 2 ^ (r - suc c)),
)

-- The `r` lowest bits are those and the ones below.
pub mod_top : (a r c : ℕ) → c ≤ r → a % 2 ^ r ≡ top a r c * 2 ^ (r - c) + a % 2 ^ (r - c)
mod_top a r c h =
    ap (λ (x : ℕ). x % 2 ^ r) split
    ∙ ap (λ (x : ℕ). (top a r c * u + a % u + q * u₀) % x) (sym total)
    ∙ add-mul-mod_self_right (top a r c * u + a % u) q u₀
    ∙ mod-eq_of_lt {n = top a r c * u + a % u} {m = u₀} small
  where
    u : ℕ
    u = 2 ^ (r - c)

    v : ℕ
    v = 2 ^ c

    u₀ : ℕ
    u₀ = v * u

    q : ℕ
    q = a / u / v

    total : u₀ ≡ 2 ^ r
    total = sym (two_pow_split c r h)

    split : a ≡ top a r c * u + a % u + q * u₀
    split = omega (arith, div-add-mod' a u, ap (λ (t : ℕ). t * u) (div-add-mod' (a / u) v))

    small : top a r c * u + a % u < u₀
    small = omega (
      arith,
      mod-lt a (two_pow_pos (r - c)),
      mul-le-mul_right {m = top a r c + 1} {n = v} u
          (omega (arith, mod-lt (a / u) (two_pow_pos c))),
    )

-- A guard that fits 22 bits matches an int exactly if it matches the bits.
pub guard_matches :
    (g x d : ℕ) → g < 2 ^ 22 → x < 2 ^ d → d ≤ 32 → (g == through_int x) ≡ true → g ≡ x
unfolding through_int
guard_matches g x d h k l e =
    let small : x < 2 ^ 32 = omega (arith, two_pow_le d 32 l) in ground arith
