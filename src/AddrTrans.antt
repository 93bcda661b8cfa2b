-- ===== src/AddrTrans.antt =====
-- libviengoos/viengoos/addr-trans.h: how the page table walker translates bits when it passes
-- through a capability. The macros are functions on the bit fields of the structure.
pub mod Guard
mod Tests
use viengoos.Common.{
  ℕ, ◌+◌, ◌-◌, ◌*◌, ◌%◌, ◌^◌, Bool, true, false, ◌&&◌, bit_and, bit_or, ltb, leb, ◌==◌,
  if◌then◌else◌,
}
use viengoos.Math.{msb}
use viengoos.Word.{shl, shr}

-- VG_CAP_ADDR_TRANS_GUARD_SUBPAGE_BITS, VG_CAP_ADDR_TRANS_SUBPAGES_BITS and
-- VG_CAP_ADDR_TRANS_GDEPTH_BITS
abbrev pub guard_subpage_bits : ℕ
guard_subpage_bits = 22

abbrev pub subpages_bits : ℕ
subpages_bits = 4

abbrev pub gdepth_bits : ℕ
gdepth_bits = 6

-- struct vg_cap_addr_trans
pub record AddrTrans : Type 0 where
  pub guard_subpage : ℕ
  pub subpages_log2 : ℕ
  pub gdepth : ℕ

-- VG_CAP_ADDR_TRANS_VOID
abbrev pub void : AddrTrans
void = record { guard_subpage = 0; subpages_log2 = 0; gdepth = 0 }

-- VG_CAP_ADDR_TRANS_SUBPAGES
unfoldable pub subpages : AddrTrans → ℕ
subpages t = shl 32 1 t.subpages_log2

-- VG_CAP_ADDR_TRANS_SUBPAGE
unfoldable pub subpage : AddrTrans → ℕ
unfolding subpages
subpage t = bit_and t.guard_subpage (subpages t - 1)

-- VG_CAP_ADDR_TRANS_SUBPAGE_SIZE_LOG2, an int read as a word of 32 bits: a field above 8 gives a
-- negative number, which the callers compare as unsigned.
unfoldable pub subpage_size_log2 : AddrTrans → ℕ
subpage_size_log2 t = (8 + 2 ^ 32 - t.subpages_log2) % 2 ^ 32

-- VG_CAP_ADDR_TRANS_SUBPAGE_SIZE; the processor takes the count of a shift modulo 32.
unfoldable pub subpage_size : AddrTrans → ℕ
unfolding subpage_size_log2
subpage_size t = shl 32 1 (subpage_size_log2 t % 32)

-- VG_CAP_ADDR_TRANS_SUBPAGE_OFFSET
unfoldable pub subpage_offset : AddrTrans → ℕ
unfolding subpage subpage_size
subpage_offset t = subpage t * subpage_size t % 2 ^ 32

-- VG_CAP_ADDR_TRANS_GUARD_BITS
abbrev pub guard_bits : AddrTrans → ℕ
guard_bits t = t.gdepth

-- VG_CAP_ADDR_TRANS_GUARD
unfoldable pub guard : AddrTrans → ℕ
guard t = shr t.guard_subpage t.subpages_log2

-- The tests of VG_CAP_ADDR_TRANS_SET_GUARD_SUBPAGE, in order: a subpage at least, their number a
-- power of two and at most 256, the subpage one of them, the guard within its depth and within the
-- field. The arguments are not negative.
unfoldable pub acceptable : ℕ → ℕ → ℕ → ℕ → Bool
acceptable guard_ gdepth_ subpage_ subpages_ =
    ltb 0 subpages_
    && bit_and subpages_ (subpages_ - 1) == 0
    && leb (msb 32 subpages_ - 1) 8
    && ltb subpage_ subpages_
    && leb (msb 64 guard_) gdepth_
    && leb (msb 64 guard_ + (msb 32 subpages_ - 1)) guard_subpage_bits

-- VG_CAP_ADDR_TRANS_SET_GUARD_SUBPAGE, the assignments cut to the widths of the fields
unfoldable pub set_guard_subpage : AddrTrans → ℕ → ℕ → ℕ → ℕ → Bool × AddrTrans
set_guard_subpage t guard_ gdepth_ subpage_ subpages_ =
    let log2 = msb 32 subpages_ - 1 in
    if acceptable guard_ gdepth_ subpage_ subpages_
    then (
      true,
      record {
        guard_subpage = bit_or (shl 64 guard_ log2) subpage_ % 2 ^ guard_subpage_bits;
        subpages_log2 = log2 % 2 ^ subpages_bits;
        gdepth = gdepth_ % 2 ^ gdepth_bits;
      },
    )
    else (false, t)

-- VG_CAP_ADDR_TRANS_SET_GUARD
unfoldable pub set_guard : AddrTrans → ℕ → ℕ → Bool × AddrTrans
set_guard t guard_ gdepth_ = set_guard_subpage t guard_ gdepth_ (subpage t) (subpages t)

-- VG_CAP_ADDR_TRANS_SET_SUBPAGE
unfoldable pub set_subpage : AddrTrans → ℕ → ℕ → Bool × AddrTrans
set_subpage t subpage_ subpages_ = set_guard_subpage t (guard t) (guard_bits t) subpage_ subpages_
