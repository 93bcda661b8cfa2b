-- ===== src/AsGuard/Tests.antt =====
-- A page table in an empty address space, and one above a place with 15 bits left.
use viengoos.AsGuard.Laws.{IsChoice, as_compute_gbits_cappage_cases}
use viengoos.AsGuard.{
  AsGuardCappage, as_compute_gbits_cappage, arguments_hold, shrink, cappage_width_for,
}
use viengoos.Common.{◌-◌, ◌<◌, ◌≡◌, ◌⊎◌, refl, arith, none, some}

-- The guard of 41 bits leaves 22, and is cut to leave 19 + 8 bits.
wide : as_compute_gbits_cappage 63 63 41 ≡ some (record { gbits = 36; cappage_width = 8 })
unfolding as_compute_gbits_cappage arguments_hold shrink cappage_width_for
wide = refl

aborts : as_compute_gbits_cappage 15 15 0 ≡ none
unfolding as_compute_gbits_cappage arguments_hold shrink cappage_width_for
aborts = refl

as_compute_gbits_cappage_cases_example :
    ((as_compute_gbits_cappage 63 63 41 ≡ none) × (12 < 63 - 41) × (63 < 19))
    ⊎ ((r : AsGuardCappage) × (as_compute_gbits_cappage 63 63 41 ≡ some r) × IsChoice 63 63 41 r)
as_compute_gbits_cappage_cases_example =
    as_compute_gbits_cappage_cases 63 63 41
      (record { some_bits = omega arith; enough = omega arith; guard = omega arith })
