-- ===== src/AddrTrans/Tests.antt =====
-- Subpage 2 of 4, behind a guard of 5 bits.
use viengoos.AddrTrans
use viengoos.AddrTrans.Guard.{Fits, IsWellFormed, set_guard_subpage_cases, set_guard_subpage-reads}
use viengoos.AddrTrans.{
  AddrTrans, set_guard_subpage, guard, guard_bits, subpage, subpages, subpage_offset, subpage_size,
  acceptable,
}
use viengoos.Common.{◌≡◌, ◌⊎◌, refl, arith, true, false}
use viengoos.Math.{msb}

set_guard_subpage_cases_example :
    (((set_guard_subpage AddrTrans.void 9 5 2 3).0 ≡ true) × Fits 9 5 2 3)
    ⊎ (((set_guard_subpage AddrTrans.void 9 5 2 3).0 ≡ false)
        × (¬ Fits 9 5 2 3)
        × ((set_guard_subpage AddrTrans.void 9 5 2 3).1 ≡ AddrTrans.void))
set_guard_subpage_cases_example =
    set_guard_subpage_cases AddrTrans.void 9 5 2 3 (omega arith) (omega arith)

accepts : (set_guard_subpage AddrTrans.void 9 5 2 4).0 ≡ true
unfolding set_guard_subpage acceptable msb
accepts = refl

abbrev quarter : AddrTrans
quarter = record { guard_subpage = 38; subpages_log2 = 2; gdepth = 5 }

quarter-IsWellFormed : IsWellFormed quarter
unfolding guard
quarter-IsWellFormed = omega arith

set_guard_subpage-reads_example :
    let t = (set_guard_subpage AddrTrans.void 9 5 2 4).1 in
    (guard t ≡ 9) × (guard_bits t ≡ 5) × (subpage t ≡ 2) × (subpages t ≡ 4) × IsWellFormed t
set_guard_subpage-reads_example =
    set_guard_subpage-reads AddrTrans.void 9 5 2 4 (omega arith) (omega arith) (omega arith) accepts
