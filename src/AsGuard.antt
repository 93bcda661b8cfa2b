-- ===== src/AsGuard.antt =====
-- libhurd-mm/as-compute-gbits.h: the length of the guard and the width of the page table that are
-- put at a place in an address space. The numbers are not negative but for `gbits` where the source
-- asserts that it is not.
pub mod Laws
mod Tests
use viengoos.Common.{
  ℕ, ◌+◌, ◌-◌, ◌%◌, Bool, ◌&&◌, Option, none, some, ltb, leb, ◌==◌, ◌>>=◌, ◌>>◌, assert,
  if◌then◌else◌,
}

-- struct as_guard_cappage
pub record AsGuardCappage : Type 0 where
  pub gbits : ℕ
  pub cappage_width : ℕ

-- The condition of assertx.
unfoldable pub arguments_hold : ℕ → ℕ → ℕ → Bool
arguments_hold untranslated_bits to_translate gbits =
    ltb 0 untranslated_bits
    && ltb 0 to_translate
    && leb to_translate untranslated_bits
    && leb gbits untranslated_bits
    && leb gbits to_translate

-- `gbits` after the chain of cases; `none` if it is negative.
unfoldable pub shrink : ℕ → ℕ → Option ℕ
shrink untranslated_bits gbits =
    let remainder = untranslated_bits - gbits - 7 - 12 in
    let to_remove = 8 - remainder % 8 in
    if leb untranslated_bits 12
    then some gbits
    else if leb (untranslated_bits - gbits) 12
    then some (untranslated_bits - 12)
    else if leb (untranslated_bits - gbits) (7 + 12)
    then if leb (7 + 12) untranslated_bits then some (untranslated_bits - 7 - 12) else none
    else some (if ltb to_remove gbits then gbits - to_remove else 0)

-- The width of the page table, for the new `gbits`.
unfoldable pub cappage_width_for : ℕ → ℕ → ℕ → ℕ
cappage_width_for untranslated_bits to_translate gbits =
    let width = if untranslated_bits - gbits == 7 + 12 then 7 else 8 in
    if ltb to_translate (gbits + width) then to_translate - gbits else width

unfoldable pub as_compute_gbits_cappage : ℕ → ℕ → ℕ → Option AsGuardCappage
as_compute_gbits_cappage untranslated_bits to_translate gbits =
    assert (arguments_hold untranslated_bits to_translate gbits)
    >> (shrink untranslated_bits gbits >>= λ g.
        some (record {
          gbits = g;
          cappage_width = cappage_width_for untranslated_bits to_translate g;
        }))
