-- ===== src/Addr.antt =====
-- libviengoos/viengoos/addr.h: an address is a prefix of up to 63 bits and its depth in one
-- 64-bit word. A failed `assert` is `none`.
pub mod Meaning
pub mod Laws
mod Tests
use viengoos.Common.{
  ℕ, ◌+◌, ◌-◌, ◌*◌, ◌/◌, ◌%◌, ◌^◌, Bool, Option, none, some, bit_and, bit_or, ltb, leb, ◌==◌,
  assert, ◌>>=◌, ◌>>◌,
}
use viengoos.Math.{lsb}
use viengoos.Word.{shl, shr, low_mask, complement}

-- struct vg_addr
pub record Addr : Type 0 where
  pub raw : ℕ

-- VG_ADDR_BITS
abbrev pub addr_bits : ℕ
addr_bits = 63

-- VG_ADDR_VOID
abbrev pub void : Addr
void = record { raw = 0 }

-- VG_ADDR_IS_VOID, by VG_ADDR_EQ
unfoldable pub is_void : Addr → Bool
is_void a = a.raw == void.raw

-- `(1 << n) - 1` where 1 is an int: the processor takes the count modulo 32.
unfoldable pub int_mask : ℕ → ℕ
int_mask n = low_mask (n % 32)

-- VG_ADDR
unfoldable pub make : ℕ → ℕ → Option Addr
make prefix_ depth_ = do
  assert (leb depth_ addr_bits)
  assert (bit_and prefix_ (int_mask (addr_bits - depth_)) == 0)
  assert (ltb prefix_ (2 ^ addr_bits))
  some (record { raw = bit_or (shl 64 prefix_ 1) (shl 64 1 (addr_bits - depth_)) })

-- vg_addr_depth: 63 - (lsb - 1)
unfoldable pub depth : Addr → ℕ
depth a = addr_bits + 1 - lsb 64 a.raw

-- vg_addr_prefix
unfoldable pub prefix : Addr → ℕ
prefix a = shr (bit_and a.raw (complement 64 (shl 64 1 (addr_bits - depth a)))) 1

-- vg_addr_extend
unfoldable pub extend : Addr → ℕ → ℕ → Option Addr
extend a p d = do
  assert (leb (depth a + d) addr_bits)
  assert (ltb p (shl 64 1 d))
  make (bit_or (prefix a) (shl 64 p (addr_bits - depth a - d))) (depth a + d)

-- vg_addr_chop
unfoldable pub chop : Addr → ℕ → Option Addr
chop a n = do
  assert (leb n (depth a))
  let d = depth a - n
  make (bit_and (prefix a) (complement 64 (low_mask (addr_bits - d)))) d

-- vg_addr_extract
unfoldable pub extract : Addr → ℕ → Option ℕ
extract a width = do
  assert (leb width (depth a))
  some (bit_and (shr (prefix a) (addr_bits - depth a)) (low_mask width))

-- vg_addr_add
unfoldable pub add : Addr → ℕ → Option Addr
add a count = make ((prefix a + shl 64 count (addr_bits - depth a)) % 2 ^ 64) (depth a)

-- vg_addr_sub: the count is negated as a 64-bit word.
unfoldable pub sub : Addr → ℕ → Option Addr
sub a count = add a ((2 ^ 64 - count) % 2 ^ 64)

-- VG_PTR_TO_ADDR
unfoldable pub ptr_to_addr : ℕ → Option Addr
ptr_to_addr ptr = make ptr addr_bits

-- VG_ADDR_TO_PTR, with a pointer of 32 bits
unfoldable pub addr_to_ptr : Addr → Option ℕ
addr_to_ptr a = do
  assert (ltb (prefix a) (2 ^ 32 - 1))
  assert (depth a == addr_bits)
  some (prefix a % 2 ^ 32)

-- PAGESIZE_LOG2 and PAGESIZE
abbrev pub pagesize_log2 : ℕ
pagesize_log2 = 12

abbrev pub pagesize : ℕ
pagesize = 4096

-- VG_PTR_TO_PAGE
unfoldable pub ptr_to_page : ℕ → Option Addr
ptr_to_page ptr = make ptr addr_bits >>= λ a. chop a pagesize_log2
