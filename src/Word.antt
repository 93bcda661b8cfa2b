-- ===== src/Word.antt =====
-- Unsigned words of C as native numbers: the shifts, the masks, and their laws at every width.
mod Digits
pub mod Fields
pub mod Bit
pub mod Power
use viengoos.Common.{ℕ, ◌-◌, ◌*◌, ◌/◌, ◌%◌, ◌^◌}

-- `x << k` in a word of `w` bits
abbrev pub shl : ℕ → ℕ → ℕ → ℕ
shl w x k = (x * 2 ^ k) % 2 ^ w

-- `x >> k`
abbrev pub shr : ℕ → ℕ → ℕ
shr x k = x / 2 ^ k

-- `(1 << k) - 1`, where the shift does not wrap
abbrev pub low_mask : ℕ → ℕ
low_mask k = 2 ^ k - 1

-- `~x` in a word of `w` bits
abbrev pub complement : ℕ → ℕ → ℕ
complement w x = 2 ^ w - 1 - x
