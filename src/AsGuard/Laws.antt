-- ===== src/AsGuard/Laws.antt =====
-- Where as_compute_gbits_cappage puts a page table, and when its assertion fails.
use viengoos.Common.{
  ℕ, ◌+◌, ◌-◌, ◌%◌, ◌≤◌, ◌<◌, ◌≡◌, ◌⊎◌, inl, inr, refl, arith, true, none, some, dec_lt, min, ◌==◌,
  if◌then◌else◌,
}
use viengoos.AsGuard.{
  AsGuardCappage, arguments_hold, shrink, cappage_width_for, as_compute_gbits_cappage,
}

-- The arguments that the function is for.
pub record IsPlace (untranslated to_translate gbits : ℕ) : Type 0 where
  pub some_bits : 0 < to_translate
  pub enough : to_translate ≤ untranslated
  pub guard : gbits ≤ to_translate

-- The bits that the new guard leaves are at a place for a page table: those of a page, those of a
-- folio's pages, or 8 bits more than these several times; or the guard is empty.
abbrev pub WellPlaced : ℕ → ℕ → Type 0
WellPlaced left gbits = (left ≡ 12) ⊎ ((19 ≤ left) × ((left - 19) % 8 ≡ 0)) ⊎ (gbits ≡ 0)

-- The guards among which the choice is: no longer than `gbits`, and shorter where `gbits` leaves more
-- than the bits of a folio's pages.
abbrev pub IsShorter : ℕ → ℕ → ℕ → Type 0
IsShorter untranslated gbits k = (k ≤ gbits) × (19 < untranslated - gbits → k < gbits)

pub record IsChoice (untranslated to_translate gbits : ℕ) (r : AsGuardCappage) : Type 0 where
  pub shrunk : r.gbits ≤ gbits
  pub fits : r.gbits + r.cappage_width ≤ to_translate
  -- 7 bits above the pages of a folio and 8 bits elsewhere, within what is to be translated.
  pub width :
      r.cappage_width ≡ min (if untranslated - r.gbits == 19 then 7 else 8) (to_translate - r.gbits)
  pub grows : gbits < to_translate → 0 < r.cappage_width
  pub kept : untranslated ≤ 12 → r.gbits ≡ gbits
  pub placed : 12 < untranslated → WellPlaced (untranslated - r.gbits) r.gbits
  pub longest :
      12 < untranslated
      → (k : ℕ) → IsShorter untranslated gbits k
      → WellPlaced (untranslated - k) k
      → k ≤ r.gbits

abbrev Longest : ℕ → ℕ → ℕ → Type 0
Longest u g n = 12 < u → (k : ℕ) → IsShorter u g k → WellPlaced (u - k) k → k ≤ n

longest_page :
    (u g k : ℕ) → 12 < u → u - g ≤ 12 → g ≤ u → IsShorter u g k → WellPlaced (u - k) k → k ≤ u - 12
longest_page u g k h a b s w = ground (arith, h, a, b, s, w)

longest_folio :
    (u g k : ℕ) → 12 < u - g → u - g ≤ 19 → IsShorter u g k → WellPlaced (u - k) k → k ≤ u - 7 - 12
longest_folio u g k a b s w = ground (arith, a, b, s, w)

longest_far :
    (u g k : ℕ)
    → 19 < u - g
    → 8 - (u - g - 7 - 12) % 8 < g
    → IsShorter u g k
    → WellPlaced (u - k) k
    → k ≤ g - (8 - (u - g - 7 - 12) % 8)
longest_far u g k a b (c, d) w = elim w [
  | inl e ↦ absurd (omega (arith, a, c, e))
  | inr v ↦ elim v [ inl (e, f) ↦ omega (arith, a, b, c, d a, e, f) | inr z ↦ omega (arith, z) ]
]

longest_none :
    (u g k : ℕ)
    → 19 < u - g
    → g ≤ 8 - (u - g - 7 - 12) % 8
    → IsShorter u g k
    → WellPlaced (u - k) k
    → k ≤ 0
longest_none u g k a b (c, d) w = elim w [
  | inl e ↦ absurd (omega (arith, a, c, e))
  | inr v ↦ elim v [ inl (e, f) ↦ omega (arith, a, b, c, d a, e, f) | inr z ↦ omega (arith, z) ]
]

shrink_cases :
    (u g : ℕ)
    → g ≤ u
    → ((shrink u g ≡ none) × (12 < u - g) × (u < 19))
      ⊎ ((n : ℕ) × (shrink u g ≡ some n)
          × (n ≤ g)
          × (u ≤ 12 → n ≡ g)
          × (12 < u → WellPlaced (u - n) n)
          × Longest u g n)
unfolding shrink
shrink_cases u g h = elim (dec_lt 12 u) [
  | no small ↦
      inr (g, ground arith, omega arith, λ _. refl, λ l. absurd (small l), λ l. absurd (small l))
  | yes large ↦ elim (dec_lt 12 (u - g)) [
    | no page ↦ inr (
      u - 12,
      ground arith,
      omega arith,
      λ l. absurd (omega arith),
      λ _. inl (omega arith),
      λ l k. longest_page u g k l (omega arith) h,
    )
    | yes more ↦ elim (dec_lt 19 (u - g)) [
      | yes far ↦ elim (dec_lt (8 - (u - g - 7 - 12) % 8) g) [
        | yes some_left ↦ inr (
          g - (8 - (u - g - 7 - 12) % 8),
          ground arith,
          omega arith,
          λ l. absurd (omega arith),
          λ _. inr (inl (omega arith, omega arith)),
          λ l k. longest_far u g k far some_left,
        )
        | no nothing ↦ inr (
          0,
          ground arith,
          omega arith,
          λ l. absurd (omega arith),
          λ _. inr (inr refl),
          λ l k. longest_none u g k far (omega arith),
        )
      ]
      | no folio ↦ elim (dec_lt u 19) [
        | yes short ↦ inl (ground arith, more, short)
        | no long ↦ inr (
          u - 7 - 12,
          ground arith,
          omega arith,
          λ l. absurd (omega arith),
          λ _. inr (inl (omega arith, omega arith)),
          λ l k. longest_folio u g k more (omega arith),
        )
      ]
    ]
  ]
]

width_cases :
    (u t g n : ℕ)
    → n ≤ g
    → g ≤ t
    → (n + cappage_width_for u t n ≤ t)
      × (cappage_width_for u t n ≡ min (if u - n == 19 then 7 else 8) (t - n))
      × (g < t → 0 < cappage_width_for u t n)
unfolding cappage_width_for
width_cases u t g n h k = ground arith

-- For 0 < to_translate <= untranslated_bits and gbits <= to_translate, either
-- as_compute_gbits_cappage fails its assertion, and then untranslated_bits is below 19 and more
-- than 12 above gbits; or it gives a guard no longer than gbits and a page table, of 7 bits
-- where the guard leaves 19 bits and of 8 bits elsewhere, cut to what the guard leaves of
-- to_translate, and not of 0 bits if gbits < to_translate. The guard is gbits if
-- untranslated_bits is at most 12. Otherwise it leaves 12 bits, or 19 and a multiple of 8, or is
-- empty, and no longer guard that does is no longer than gbits, or shorter than gbits where
-- gbits leaves more than 19 bits.
pub as_compute_gbits_cappage_cases :
    (u t g : ℕ)
    → IsPlace u t g
    → ((as_compute_gbits_cappage u t g ≡ none) × (12 < u - g) × (u < 19))
      ⊎ ((r : AsGuardCappage) × (as_compute_gbits_cappage u t g ≡ some r) × IsChoice u t g r)
unfolding as_compute_gbits_cappage arguments_hold
as_compute_gbits_cappage_cases u t g h =
    let holds : arguments_hold u t g ≡ true = ground (arith, h.some_bits, h.enough, h.guard) in
    elim (shrink_cases u g (omega (arith, h.enough, h.guard))) [
      | inl (e, far, short) ↦ inl (rw (holds, e) refl, far, short)
      | inr (n, e, le, kept, placed, longest) ↦
          let (fits, width, grows) = width_cases u t g n le h.guard in
          inr (
            record { gbits = n; cappage_width = cappage_width_for u t n },
            rw (holds, e) refl,
            record {
              shrunk = le;
              fits = fits;
              width = width;
              grows = grows;
              kept = kept;
              placed = placed;
              longest = longest;
            },
          )
    ]
