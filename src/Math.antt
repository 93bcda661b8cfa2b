-- ===== src/Math.antt =====
-- libviengoos/viengoos/math.h: the numbers of the most and of the least significant bit of a word.
-- `w` is the word's width, 32 for uintptr_t on ia32 and 64 for uint64_t.
pub mod Laws
mod Tests
use viengoos.Common.{ℕ, zero, suc, ◌-◌, ◌/◌, ◌%◌, ◌^◌, ◌==◌, if◌then◌else◌}

-- __builtin_clz, of a number that is not 0: the zeros above the highest bit that is set.
unfoldable pub clz : ℕ → ℕ → ℕ
clz zero x = 0
clz (suc w) x = if x / 2 ^ w == 1 then 0 else suc (clz w x)

-- __builtin_ffs: 0 for 0, else one more than the number of zeros below the lowest bit that is set.
unfoldable pub ffs : ℕ → ℕ → ℕ
ffs zero x = 0
ffs (suc w) x =
    let above = ffs w (x / 2) in if x % 2 == 1 then 1 else if above == 0 then 0 else suc above

-- vg_msb and vg_msb64
unfoldable pub msb : ℕ → ℕ → ℕ
unfolding clz
msb w data_ = if data_ == 0 then 0 else w - clz w data_

-- vg_lsb and vg_lsb64
unfoldable pub lsb : ℕ → ℕ → ℕ
unfolding ffs
lsb w data_ = ffs w data_
