-- ===== src/Math/Tests.antt =====
-- Bit numbers of two words.
use viengoos.Common.{◌+◌, ◌*◌, ◌^◌, ◌≡◌, refl, arith}
use viengoos.Math.Laws.{lsb_odd-mul-two_pow}
use viengoos.Math.{msb, lsb}

msb_of_20 : msb 32 20 ≡ 5
unfolding msb
msb_of_20 = refl

lsb_odd-mul-two_pow_example : lsb 32 ((2 * 2 + 1) * 2 ^ 2) ≡ 3
lsb_odd-mul-two_pow_example = lsb_odd-mul-two_pow 32 2 2 (omega arith)
