-- ===== src/AddrTrans/Guard.antt =====
-- Setting the guard and the subpage, and reading them back.
use native.Mathlib.Nat.{
  mod-eq_of_lt, mul-add-div_right, div-eq_of_lt, mul-add-mod_self_right, mul-le-mul_left,
  mul-le-mul_right, mod-lt, mul-div_right, div-le_self,
}
use viengoos.AddrTrans.{
  AddrTrans, subpages, subpage, guard, guard_bits, acceptable, set_guard_subpage,
  guard_subpage_bits, subpage_size, subpage_offset,
}
use viengoos.Common.{
  ℕ, suc, ◌+◌, ◌-◌, ◌*◌, ◌/◌, ◌%◌, ◌^◌, ◌≤◌, ◌<◌, ◌≡◌, ◌∙◌, ◌↔◌, refl, sym, ap, arith, true, false,
  bit_and, Bool-cases, dec_lt, ◌⊎◌, inl, inr,
}
use viengoos.Math.{msb}
use viengoos.Math.Laws.{msb-two_pow, lt-of-msb-le, msb-le-of-lt}
use viengoos.Word.Fields.{two_pow_pos, two_pow_le, two_pow_split, bit_or_disjoint, bit_and-low_mask}
use viengoos.Word.Power.{bit_and-pred-eq-zero, power-IsPower}

-- What the tests ask: `2 ^ k` subpages with `k ≤ 8`, the subpage one of them, and a guard that fits
-- its depth and the bits that the subpage leaves.
pub record Fits (guard_ gdepth_ subpage_ subpages_ : ℕ) : Type 0 where
  pub log2 : ℕ
  pub power : subpages_ ≡ 2 ^ log2
  pub few : log2 ≤ 8
  pub inside : subpage_ < 2 ^ log2
  pub narrow : guard_ < 2 ^ gdepth_
  pub room : guard_ < 2 ^ (guard_subpage_bits - log2)

msb_of_power : (n k : ℕ) → n < 2 ^ 32 → n ≡ 2 ^ k → msb 32 n ≡ suc k
msb_of_power n k h p = elim (dec_lt k 32) [
  | yes q ↦ rw p (msb-two_pow 32 k q)
  | no q ↦ absurd (omega (arith, two_pow_le 32 k (omega arith)))
]

-- The tests pass exactly in that case.
pub acceptable-Fits :
    (g d s n : ℕ) → g < 2 ^ 64 → n < 2 ^ 32 → acceptable g d s n ≡ true → Fits g d s n
unfolding acceptable
acceptable-Fits g d s n hg hn e =
    let pos : 0 < n = ground arith in
    let lone : bit_and n (n - 1) ≡ 0 = ground arith in
    let (k, p) = bit_and-pred-eq-zero n pos lone in
    let top : msb 32 n ≡ suc k = msb_of_power n k hn p in
    let fits : msb 64 g + (msb 32 n - 1) ≤ 22 = ground arith in
    record {
      log2 = k;
      power = p;
      few = ground arith;
      inside = ground arith;
      narrow = lt-of-msb-le 64 g d hg (ground arith);
      room = lt-of-msb-le 64 g (22 - k) hg (omega arith);
    }

pub Fits-acceptable :
    (g d s n : ℕ) → g < 2 ^ 64 → n < 2 ^ 32 → Fits g d s n → acceptable g d s n ≡ true
unfolding acceptable
Fits-acceptable g d s n hg hn f = ground (
  arith,
  msb_of_power n f.log2 hn f.power,
  two_pow_pos f.log2,
  ap (λ (t : ℕ). bit_and t (t - 1)) f.power,
  power-IsPower f.log2,
  msb-le-of-lt 64 g d hg f.narrow,
  msb-le-of-lt 64 g (22 - f.log2) hg f.room,
)

pred_of : (k : ℕ) → suc k - 1 ≡ k
pred_of k = omega arith

one_times : (x : ℕ) → 1 * x ≡ x
one_times x = omega arith

guard-fields :
    (g k s d : ℕ)
    → s < 2 ^ k
    → guard (record { guard_subpage = g * 2 ^ k + s; subpages_log2 = k; gdepth = d }) ≡ g
unfolding guard
guard-fields g k s d h = mul-add-div_right (two_pow_pos k) g s ∙ rw (div-eq_of_lt h) (omega arith)

-- What the setter leaves in the fields.
module _ (t : AddrTrans) (g d s n : ℕ) (f : Fits g d s n) (hn : n < 2 ^ 32) (hg : g < 2 ^ 64)
    (hd : d < 64) where
  field_lt : g * 2 ^ f.log2 + s < 2 ^ 22
  field_lt = omega (
    arith,
    f.inside,
    f.room,
    two_pow_split f.log2 22 (omega (arith, f.few)),
    mul-le-mul_left {m = g + 1} {n = 2 ^ (22 - f.log2)} (2 ^ f.log2) (omega (arith, f.room)),
  )

  set_fields :
      set_guard_subpage t g d s n
      ≡ (true, record { guard_subpage = g * 2 ^ f.log2 + s; subpages_log2 = f.log2; gdepth = d })
  unfolding set_guard_subpage
  set_fields = rw (
    Fits-acceptable g d s n hg hn f,
    msb_of_power n f.log2 hn f.power,
    pred_of f.log2,
    mod-eq_of_lt {n = g * 2 ^ f.log2} {m = 2 ^ 64} (omega (arith, field_lt)),
    bit_or_disjoint f.log2 g s f.inside,
    mod-eq_of_lt {n = g * 2 ^ f.log2 + s} {m = 2 ^ 22} field_lt,
    mod-eq_of_lt {n = f.log2} {m = 2 ^ 4} (omega (arith, f.few)),
    mod-eq_of_lt {n = d} {m = 2 ^ 6} hd,
  )

-- The fields of a structure that the setter made, or whose bits are all clear.
pub record IsWellFormed (t : AddrTrans) : Type 0 where
  pub few : t.subpages_log2 ≤ 8
  pub deep : t.gdepth < 64
  pub field : t.guard_subpage < 2 ^ guard_subpage_bits
  pub narrow : guard t < 2 ^ t.gdepth

-- The accessors as arithmetic, where the number of subpages is within its bound.
module _ (t : AddrTrans) (h : t.subpages_log2 ≤ 8) where
  pub subpages-pow : subpages t ≡ 2 ^ t.subpages_log2
  unfolding subpages
  subpages-pow =
      mod-eq_of_lt {n = 1 * 2 ^ t.subpages_log2} {m = 2 ^ 32}
        (omega (arith, two_pow_le t.subpages_log2 8 h))
      ∙ one_times (2 ^ t.subpages_log2)

  pub subpage-mod : subpage t ≡ t.guard_subpage % 2 ^ t.subpages_log2
  unfolding subpage
  subpage-mod = rw subpages-pow (bit_and-low_mask t.subpages_log2 t.guard_subpage)

  pub subpage_size-pow : subpage_size t ≡ 2 ^ (8 - t.subpages_log2)
  unfolding subpage_size
  subpage_size-pow =
      ap (λ (k : ℕ). 1 * 2 ^ k % 2 ^ 32) count
      ∙ mod-eq_of_lt {n = 1 * 2 ^ (8 - t.subpages_log2)} {m = 2 ^ 32}
          (omega (arith, two_pow_le (8 - t.subpages_log2) 8 (omega arith)))
      ∙ one_times (2 ^ (8 - t.subpages_log2))
    where
      count : (8 + 2 ^ 32 - t.subpages_log2) % 2 ^ 32 % 32 ≡ 8 - t.subpages_log2
      count = omega arith

pub set_guard_subpage-exact :
    (t : AddrTrans) (g d s n : ℕ)
    → g < 2 ^ 64
    → n < 2 ^ 32
    → (((set_guard_subpage t g d s n).0 ≡ true) ↔ Fits g d s n)
      × ((set_guard_subpage t g d s n).0 ≡ false → (set_guard_subpage t g d s n).1 ≡ t)
unfolding set_guard_subpage
set_guard_subpage-exact t g d s n hg hn = (
  (
    λ e. acceptable-Fits g d s n hg hn (ground arith),
    λ f. rw (Fits-acceptable g d s n hg hn f) refl,
  ),
  λ e. ground arith,
)

-- VG_CAP_ADDR_TRANS_SET_GUARD_SUBPAGE succeeds exactly if its arguments fit: 2^k subpages with k
-- at most 8, the subpage one of them, the guard within its depth and within the 22 - k bits
-- left. Otherwise it fails and leaves the structure as it was.
pub set_guard_subpage_cases :
    (t : AddrTrans) (g d s n : ℕ)
    → g < 2 ^ 64
    → n < 2 ^ 32
    → (((set_guard_subpage t g d s n).0 ≡ true) × Fits g d s n)
      ⊎ (((set_guard_subpage t g d s n).0 ≡ false)
          × (¬ Fits g d s n)
          × ((set_guard_subpage t g d s n).1 ≡ t))
set_guard_subpage_cases t g d s n hg hn =
    let (exact, kept) = set_guard_subpage-exact t g d s n hg hn in
    elim (Bool-cases (set_guard_subpage t g d s n).0) [
      | inl done ↦ inl (done, exact.0 done)
      | inr refused ↦ inr (refused, λ f. cc (exact.1 f), kept refused)
    ]

-- After a successful VG_CAP_ADDR_TRANS_SET_GUARD_SUBPAGE with a depth below 64 the accessors
-- give back the guard, its depth, the subpage and the number of subpages, and the structure is
-- well-formed.
pub set_guard_subpage-reads :
    (t : AddrTrans) (g d s n : ℕ)
    → g < 2 ^ 64
    → n < 2 ^ 32
    → d < 64
    → (set_guard_subpage t g d s n).0 ≡ true
    → let t' = (set_guard_subpage t g d s n).1 in
      (guard t' ≡ g) × (guard_bits t' ≡ d) × (subpage t' ≡ s) × (subpages t' ≡ n) × IsWellFormed t'
set_guard_subpage-reads t g d s n hg hn hd e = rw (set_fields t g d s n f hn hg hd) (
  guard_read,
  refl,
  subpage-mod made f.few ∙ mul-add-mod_self_right g (2 ^ f.log2) s ∙ mod-eq_of_lt f.inside,
  subpages-pow made f.few ∙ sym f.power,
  record {
    few = f.few;
    deep = hd;
    field = field_lt t g d s n f hn hg hd;
    narrow = rw guard_read f.narrow;
  },
)
  where
    f : Fits g d s n
    f = (set_guard_subpage-exact t g d s n hg hn).0.0 e

    made : AddrTrans
    made = record { guard_subpage = g * 2 ^ f.log2 + s; subpages_log2 = f.log2; gdepth = d }

    guard_read : guard made ≡ g
    guard_read = guard-fields g (f.log2) s d f.inside

subpage_bound : (t : AddrTrans) → IsWellFormed t → subpage t * subpage_size t + subpage_size t ≤ 256
subpage_bound t w =
    rw (subpage-mod t w.few, subpage_size-pow t w.few)
      (omega (
        arith,
        two_pow_split k 8 w.few,
        mul-le-mul_right {m = t.guard_subpage % 2 ^ k + 1} {n = 2 ^ k} (2 ^ (8 - k))
            (omega (arith, mod-lt t.guard_subpage (two_pow_pos k))),
      ))
  where
    k : ℕ
    k = t.subpages_log2

offset_no_wrap : (t : AddrTrans) → IsWellFormed t → subpage_offset t ≡ subpage t * subpage_size t
unfolding subpage_offset
offset_no_wrap t w = product (subpage t) (subpage_size t) (subpage_bound t w)
  where
    product : (a b : ℕ) → a * b + b ≤ 256 → a * b % 2 ^ 32 ≡ a * b
    product a b h = mod-eq_of_lt {n = a * b} {m = 2 ^ 32} (omega arith)

-- The slots that a well-formed structure designates are within the 256 of a page, and there is
-- at least one.
pub subpage_window :
    (t : AddrTrans)
    → IsWellFormed t
    → (subpage_offset t + subpage_size t ≤ 256) × (0 < subpage_size t)
subpage_window t w = (
  rw (offset_no_wrap t w) (subpage_bound t w),
  rw (subpage_size-pow t w.few) (two_pow_pos (8 - t.subpages_log2)),
)

-- The designated subpage by its number and the number of subpages.
module _ (t : AddrTrans) (w : IsWellFormed t) where
  pub subpage_size-div : 256 / subpages t ≡ subpage_size t
  subpage_size-div =
      rw (subpages-pow t w.few, subpage_size-pow t w.few, two_pow_split t.subpages_log2 8 w.few)
        (mul-div_right (2 ^ (8 - t.subpages_log2)) (two_pow_pos t.subpages_log2))

  pub subpage_offset-mul : subpage t * (256 / subpages t) ≡ subpage_offset t
  subpage_offset-mul = rw subpage_size-div (sym (offset_no_wrap t w))

  pub guard-lt : guard t < 2 ^ 22
  unfolding guard
  guard-lt = omega (arith, w.field, div-le_self t.guard_subpage (2 ^ t.subpages_log2))

  pub subpages-lt : subpages t < 2 ^ 32
  subpages-lt = rw (subpages-pow t w.few) (omega (arith, two_pow_le t.subpages_log2 8 w.few))
