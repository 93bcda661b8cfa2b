-- ===== src/Addr/Laws.antt =====
-- The operations of addr.h on addresses by their meaning.
use native.Mathlib.Nat.{
  mod-eq_of_lt, mul-div_cancel, mul-le-mul_right, mul-lt-mul_of_pos_right, add-mul-mod_self_left,
  add-mod-mod, sub-zero, mul-add-div_right, div-eq_of_lt, mul-add-mod_self_right,
}
use viengoos.Common.{
  ℕ, zero, suc, ◌+◌, ◌-◌, ◌*◌, ◌/◌, ◌%◌, ◌^◌, ◌≤◌, ◌<◌, ◌≡◌, ap, ◌∙◌, arith, Option, some, le→leb,
  lt→ltb, ◌>>=◌,
}
use viengoos.Addr.{
  Addr, addr_bits, pagesize, ptr_to_page, ptr_to_addr, addr_to_ptr, make, depth, prefix, extend,
  chop, extract, add, sub,
}
use viengoos.Addr.Meaning.{Means, depth-Means, prefix-Means, make-Means, bits-lt}
use viengoos.Word.Fields.{
  two_pow_pos, two_pow_split, two_pow_add, pow_congr, two_pow_le, bit_or_disjoint, bit_and-low_mask,
  bit_and-clear_low, mul-div-two_pow, div-lt-two_pow,
}

no_wrap : {x : ℕ} (m : ℕ) → x < m → x % m ≡ x
no_wrap m h = mod-eq_of_lt h

one_times : (x : ℕ) → 1 * x ≡ x
one_times x = omega arith

difference-mul : (m c u : ℕ) → c ≤ m → (m - c) * u + c * u ≡ m * u
difference-mul m c u h = omega (arith, ap (λ (t : ℕ). t * u) {x = m - c + c} {y = m} (omega arith))

plus_none : (x u : ℕ) → (x + 0 * u) % 2 ^ 64 ≡ x % 2 ^ 64
plus_none x u = omega arith

-- Counting back is counting on by the negated word.
count_back :
    (b c u : ℕ)
    → c ≤ b
    → c < 2 ^ 64
    → (b - c) * u < 2 ^ 64
    → (b * u + (2 ^ 64 - c) % 2 ^ 64 * u) % 2 ^ 64 ≡ (b - c) * u
count_back b zero u h k l =
    rw (sub-zero b) (plus_none (b * u) u ∙ no_wrap (2 ^ 64) (rw sub-zero at l))
count_back b (suc c) u h k l =
    rw (no_wrap {x = 2 ^ 64 - suc c} (2 ^ 64) (omega arith), regroup)
      (add-mul-mod_self_left ((b - suc c) * u) (2 ^ 64) u ∙ no_wrap (2 ^ 64) l)
  where
    regroup : b * u + (2 ^ 64 - suc c) * u ≡ (b - suc c) * u + 2 ^ 64 * u
    regroup =
        omega (arith, difference-mul b (suc c) u h, difference-mul (2 ^ 64) (suc c) u (omega arith))

-- The call succeeds, with an address that means `bits` at depth `d`.
abbrev pub Yields : Option Addr → ℕ → ℕ → Type 0
Yields r bits d = (a : Addr) × (r ≡ some a) × Means a bits d

make_at :
    (p bits d : ℕ)
    → d ≤ addr_bits
    → bits < 2 ^ d
    → p ≡ bits * 2 ^ (addr_bits - d)
    → Yields (make p d) bits d
make_at p bits d h k e = rw e (make-Means bits d h k)

module _ {a : Addr} {bits d : ℕ} (m : Means a bits d) where
  -- `vg_addr_chop` drops the lowest `n` bits.
  pub chop-Means : (n : ℕ) → n ≤ d → Yields (chop a n) (bits / 2 ^ n) (d - n)
  unfolding chop
  chop-Means n h =
      rw (depth-Means m, le→leb n d h, prefix-Means m)
        (make_at _ (bits / 2 ^ n) (d - n) (omega arith) (div-lt-two_pow d n bits h m.fits) (
          bit_and-clear_low 64 (63 - (d - n)) (bits * 2 ^ (63 - d)) (omega arith)
            (omega (arith, bits-lt bits d m.shallow m.fits))
          ∙ ap (λ (t : ℕ). t * 2 ^ (63 - (d - n))) quotient))
    where
      place : 63 - (d - n) ≡ 63 - d + n
      place = omega (arith, m.shallow)

      quotient : bits * 2 ^ (63 - d) / 2 ^ (63 - (d - n)) ≡ bits / 2 ^ n
      quotient = rw (pow_congr _ _ place) (mul-div-two_pow bits (63 - d) n)

  -- `vg_addr_extract` reads the lowest `width` bits.
  pub extract-Means : (width : ℕ) → width ≤ d → extract a width ≡ some (bits % 2 ^ width)
  unfolding extract
  extract-Means width h =
      rw
        (
          depth-Means m,
          prefix-Means m,
          mul-div_cancel bits (two_pow_pos (addr_bits - d)),
          bit_and-low_mask width bits,
        )
        (ground arith)

  -- `vg_addr_extend` appends `n` bits.
  pub extend-Means :
      (p n : ℕ) → d + n ≤ addr_bits → p < 2 ^ n → Yields (extend a p n) (bits * 2 ^ n + p) (d + n)
  unfolding extend
  extend-Means p n h k =
      rw
        (
          depth-Means m,
          le→leb (d + n) 63 h,
          no_wrap {x = 1 * 2 ^ n} (2 ^ 64) (omega (arith, two_pow_le n 63 (omega arith))),
          one_times (2 ^ n),
          lt→ltb p (2 ^ n) k,
          prefix-Means m,
          no_wrap {x = p * 2 ^ (63 - d - n)} (2 ^ 64)
              (omega (arith, piece, two_pow_le (63 - d) 63 (omega arith))),
          bit_or_disjoint (63 - d) bits (p * 2 ^ (63 - d - n)) piece,
        )
        (make_at _ (bits * 2 ^ n + p) (d + n) h fits value)
    where
      room : 2 ^ (63 - d) ≡ 2 ^ n * 2 ^ (63 - d - n)
      room = two_pow_split n (63 - d) (omega (arith, m.shallow))

      piece : p * 2 ^ (63 - d - n) < 2 ^ (63 - d)
      piece =
          omega
            (arith, room, mul-lt-mul_of_pos_right {m = p} {n = 2 ^ n} k (two_pow_pos (63 - d - n)))

      fits : bits * 2 ^ n + p < 2 ^ (d + n)
      fits = omega (
        arith,
        two_pow_add d n,
        mul-le-mul_right {m = bits + 1} {n = 2 ^ d} (2 ^ n) (omega (arith, m.fits)),
      )

      value : bits * 2 ^ (63 - d) + p * 2 ^ (63 - d - n) ≡ (bits * 2 ^ n + p) * 2 ^ (63 - (d + n))
      value = omega (
        arith,
        ap (λ (t : ℕ). bits * t) room,
        ap (λ (t : ℕ). (bits * 2 ^ n + p) * t)
            (pow_congr (63 - (d + n)) (63 - d - n) (omega arith)),
      )

  -- vg_addr_add to an address of the bits b at depth d succeeds with the address of b + count at
  -- depth d, if d bits hold that.
  pub add-Means : (count : ℕ) → bits + count < 2 ^ d → Yields (add a count) (bits + count) d
  unfolding add
  add-Means count h =
      rw (depth-Means m, prefix-Means m)
        (make_at _ (bits + count) d m.shallow h (
          add-mod-mod (bits * 2 ^ (63 - d)) (count * 2 ^ (63 - d)) (2 ^ 64)
          ∙ no_wrap (2 ^ 64) (omega (arith, bits-lt (bits + count) d m.shallow h))
          ∙ omega arith))

  -- vg_addr_sub of at most b from an address of the bits b at depth d succeeds with the address
  -- of b - count at depth d.
  pub sub-Means : (count : ℕ) → count ≤ bits → Yields (sub a count) (bits - count) d
  unfolding sub add
  sub-Means count h =
      rw (depth-Means m, prefix-Means m)
        (make_at _ (bits - count) d m.shallow (omega (arith, m.fits)) (
          add-mod-mod (bits * 2 ^ (63 - d)) ((2 ^ 64 - count) % 2 ^ 64 * 2 ^ (63 - d)) (2 ^ 64)
          ∙ around))
    where
      small : (bits - count) * 2 ^ (63 - d) < 2 ^ 64
      small = omega (arith, bits-lt (bits - count) d m.shallow (omega (arith, m.fits)))

      around :
          (bits * 2 ^ (63 - d) + (2 ^ 64 - count) % 2 ^ 64 * 2 ^ (63 - d)) % 2 ^ 64
          ≡ (bits - count) * 2 ^ (63 - d)
      around =
          count_back bits count (2 ^ (63 - d)) h (omega (arith, m.fits, two_pow_le d 63 m.shallow))
            small

-- VG_ADDR of a prefix of d bits, at most 63, in the upper d of 63 succeeds, and vg_addr_prefix
-- and vg_addr_depth give the prefix and the depth back.
pub make-prefix-depth :
    (bits d : ℕ)
    → d ≤ addr_bits
    → bits < 2 ^ d
    → (a : Addr) × (make (bits * 2 ^ (addr_bits - d)) d ≡ some a)
      × (prefix a ≡ bits * 2 ^ (addr_bits - d))
      × (depth a ≡ d)
make-prefix-depth bits d h k =
    let (a, made, m) = make-Means bits d h k in (a, made, prefix-Means m, depth-Means m)

-- Two words that mean the same bits at the same depth are one word.
pub Means-unique : {a b : Addr} {bits d : ℕ} → Means a bits d → Means b bits d → a ≡ b
Means-unique m n = ground (arith, m.word, n.word)

Means-agree : {a b : Addr} {x y d e : ℕ} → Means a x d → Means b y e → x ≡ y → d ≡ e → a ≡ b
Means-agree {a} {b} {x} {y} {d} {e} m n p q =
    ground (arith, m.word, n.word, pow_congr (addr_bits - d) (addr_bits - e) (omega arith))

-- vg_addr_extend by n bits that fit succeeds; vg_addr_extract reads the bits back, and
-- vg_addr_chop by n gives the address back.
pub chop-extend :
    {a : Addr} {bits d : ℕ}
    → Means a bits d
    → (p n : ℕ) → d + n ≤ addr_bits
    → p < 2 ^ n
    → (e : Addr) × (extend a p n ≡ some e) × (extract e n ≡ some p) × (chop e n ≡ some a)
chop-extend {a} {bits} {d} m p n h k =
    let (e, extended, w) = extend-Means m p n h k in
    let (c, chopped, v) = chop-Means w n (omega arith) in
    (
      e,
      extended,
      extract-Means w n (omega arith) ∙ ap some (appended.1),
      chopped ∙ ap some (Means-agree v m appended.0 (omega arith)),
    )
  where
    appended : ((bits * 2 ^ n + p) / 2 ^ n ≡ bits) × ((bits * 2 ^ n + p) % 2 ^ n ≡ p)
    appended = (
      mul-add-div_right (two_pow_pos n) bits p ∙ rw (div-eq_of_lt k) (omega arith),
      mul-add-mod_self_right bits (2 ^ n) p ∙ mod-eq_of_lt k,
    )

-- VG_PTR_TO_PAGE of a 32-bit pointer succeeds with the address of depth 51 whose bits are the
-- page number.
pub ptr_to_page-Means : (ptr : ℕ) → ptr < 2 ^ 32 → Yields (ptr_to_page ptr) (ptr / pagesize) 51
unfolding ptr_to_page
ptr_to_page-Means ptr h =
    let (a, made, m) = make_at ptr ptr 63 (omega arith) (omega arith) (omega arith) in
    rw made (chop-Means m 12 (omega arith))

-- VG_ADDR_TO_PTR gives back the pointer that VG_PTR_TO_ADDR was given, for every 32-bit pointer
-- but the largest.
pub addr_to_ptr-ptr_to_addr :
    (ptr : ℕ) → ptr < 2 ^ 32 - 1 → (ptr_to_addr ptr >>= addr_to_ptr) ≡ some ptr
unfolding ptr_to_addr addr_to_ptr
addr_to_ptr-ptr_to_addr ptr h =
    let (a, made, m) = make_at ptr ptr 63 (omega arith) (omega arith) (omega arith) in
    rw made (ground (arith, prefix-Means m, depth-Means m))
