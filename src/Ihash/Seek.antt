-- ===== src/Ihash/Seek.antt =====
-- The search of replace_one, and the slot that it chooses.
use viengoos.Common.{
  ℕ, ◌%◌, ◌≡◌, ◌≢◌, ◌⊎◌, inl, inr, refl, sym, ap, ◌∙◌, subst, arith, Bool, true, false, some, List,
  [], ◌∷◌, ◌==◌, All, if◌then◌else◌, Bool-cases, Option-cases,
}
use viengoos.Ihash.Find.{route, route_lem, IsShaped, Holds, index_of}
use viengoos.Ihash.Probe.{first, Reaches, first-Reaches, default, scan, seek_loop-scan}
use viengoos.Ihash.{Table, value_at, key_at, deleted, stops, index_empty, remember, seek}

-- What the search of replace_one gives over a list of slots.
scan_idx :
    (t : Table) (key idx : ℕ) (xs : List ℕ) (free : ℕ)
    → (scan t key idx xs free).0 ≡ default idx (first (stops t key) xs)
unfolding scan first
scan_idx t key idx [] free = refl
scan_idx t key idx (x ∷ xs) free = ground (arith, scan_idx t key idx xs (remember t idx x free))

remember_cases :
    (t : Table) (idx x free : ℕ)
    → (remember t idx x free ≡ free) ⊎ ((remember t idx x free ≡ x) × (value_at t x ≡ deleted))
unfolding remember
remember_cases t idx x free = ground arith

-- `r` is the slot that was free before the list, or a deleted one on the way through it.
abbrev Remembered : Table → ℕ → ℕ → List ℕ → ℕ → Type 0
Remembered t key free xs r = (r ≡ free) ⊎ ((value_at t r ≡ deleted) × Reaches (stops t key) r xs)

Remembered-cons :
    (t : Table) (key idx x free : ℕ) (xs : List ℕ) (r : ℕ)
    → stops t key x ≡ false
    → Remembered t key (remember t idx x free) xs r
    → Remembered t key free (x ∷ xs) r
Remembered-cons t key idx x free xs r n (inr (gone, reached)) = inr (gone, inr (n, reached))
Remembered-cons t key idx x free xs r n (inl same) = elim (remember_cases t idx x free) [
  | inl old ↦ inl (same ∙ old)
  | inr (new, gone) ↦ inr (ap (value_at t) (same ∙ new) ∙ gone, inl (sym (same ∙ new)))
]

scan-Remembered :
    (t : Table) (key idx : ℕ) (xs : List ℕ) (free : ℕ)
    → Remembered t key free xs (scan t key idx xs free).1
unfolding scan
scan-Remembered t key idx [] free = inl refl
scan-Remembered t key idx (x ∷ xs) free = elim (Bool-cases (stops t key x)) [
  | inl y ↦ inl (ground arith)
  | inr n ↦
      let step : (scan t key idx xs (remember t idx x free)).1 ≡ (scan t key idx (x ∷ xs) free).1 =
        ground arith in
      subst (Remembered t key free (x ∷ xs)) step (
        Remembered-cons t key idx x free xs _ n
          (scan-Remembered t key idx xs (remember t idx x free)))
]

-- All the slots are taken.
abbrev pub AllTaken : Table → List ℕ → Type 0
AllTaken t xs = All (λ x. index_empty t x ≡ false) xs

pub deleted-free : (t : Table) (j : ℕ) → value_at t j ≡ deleted → index_empty t j ≡ true
unfolding index_empty
deleted-free t j e = ground arith

taken_stop :
    (t : Table) (key idx x : ℕ)
    → ((j : ℕ) → ¬ Holds t key j)
    → index_empty t x ≡ false
    → (stops t key x ≡ false) × (remember t idx x idx ≡ idx)
unfolding stops index_empty remember
taken_stop t key idx x none_ live = elim (Bool-cases (key_at t x == key)) [
  | inl y ↦ absurd (none_ x (record { live = live; named = ground arith }))
  | inr n ↦ (ground (arith, live, n), ground (arith, live))
]

vacant_remembered :
    (t : Table) (key idx x : ℕ)
    → stops t key x ≡ false
    → index_empty t x ≡ true
    → remember t idx x idx ≡ x
unfolding stops index_empty remember
vacant_remembered t key idx x n vacant = ground (arith, n, vacant)

-- A slot that was remembered is kept.
scan-kept :
    (t : Table) (key idx : ℕ) (xs : List ℕ) (free : ℕ)
    → free ≢ idx
    → (scan t key idx xs free).1 ≡ free
unfolding scan remember
scan-kept t key idx [] free ne = refl
scan-kept t key idx (x ∷ xs) free ne = ground (arith, scan-kept t key idx xs free ne)

-- A search for a key that the table has not, and that finds no free slot, has passed taken ones only.
scan-AllTaken :
    (t : Table) (key idx : ℕ) (xs : List ℕ)
    → ((j : ℕ) → ¬ Holds t key j)
    → index_empty t idx ≡ false
    → index_empty t (scan t key idx xs idx).0 ≡ false
    → index_empty t (scan t key idx xs idx).1 ≡ false
    → AllTaken t xs
unfolding scan
scan-AllTaken t key idx [] none_ live a b = tt
scan-AllTaken t key idx (x ∷ xs) none_ live a b = elim (Bool-cases (index_empty t x)) [
  | inr taken ↦
      let (passed, same) = taken_stop t key idx x none_ taken in
      let step : scan t key idx (x ∷ xs) idx ≡ scan t key idx xs idx = rw (passed, same) refl in
      (
        taken,
        scan-AllTaken t key idx xs none_ live (subst (λ r. index_empty t r.0 ≡ false) step a)
            (subst (λ r. index_empty t r.1 ≡ false) step b),
      )
  | inl vacant ↦ elim (Bool-cases (stops t key x)) [
    | inl y ↦
        let step : scan t key idx (x ∷ xs) idx ≡ (x, idx) = rw y refl in
        let c : index_empty t x ≡ false = subst (λ r. index_empty t r.0 ≡ false) step a in cc
    | inr n ↦
        let kept : remember t idx x idx ≡ x = vacant_remembered t key idx x n vacant in
        let other : x ≢ idx = λ e. let f : index_empty t x ≡ false = rw e live in cc in
        let step : (scan t key idx (x ∷ xs) idx).1 ≡ x =
          rw (n, kept) (scan-kept t key idx xs x other) in
        let c : index_empty t x ≡ false = subst (λ r. index_empty t r ≡ false) step b in cc
  ]
]

-- What a search ends with: the slot that a search for the key finds, and a slot that was remembered
-- on the way to it.
pub record Sought (t : Table) (key idx free : ℕ) : Type 0 where
  pub at : idx ≡ index_of t key
  pub kept :
      (free ≡ key % t.size)
      ⊎ ((value_at t free ≡ deleted) × Reaches (stops t key) free (route t.size key))
  pub full :
      ((j : ℕ) → ¬ Holds t key j)
      → index_empty t free ≡ false
      → index_empty t idx ≡ false
      → AllTaken t (route t.size key)

home_taken :
    (t : Table) (key home : ℕ) (xs : List ℕ)
    → index_empty t (scan t key home xs home).1 ≡ false
    → index_empty t home ≡ false
home_taken t key home xs b = elim (scan-Remembered t key home xs home) [
  | inl same ↦ subst (λ j. index_empty t j ≡ false) same b
  | inr (gone, _) ↦ let vacant = deleted-free t _ gone in cc
]

pub seek_total :
    (t : Table) (key : ℕ)
    → IsShaped t.size
    → (idx : ℕ) × (free : ℕ) × (seek t key ≡ some (idx, free)) × Sought t key idx free
unfolding seek index_of first
seek_total t key s =
    let home = key % t.size in
    let (xs, e, r, _) = route_lem t.size key s in
    elim (Bool-cases (stops t key home)) [
      | inl y ↦ (
        home,
        home,
        ground arith,
        record {
          at = rw r (ground arith);
          kept = inl refl;
          full = λ none_ taken _. let n = (taken_stop t key home home none_ taken).0 in cc;
        },
      )
      | inr n ↦
          let found = seek_loop-scan t key home t.size home home home 1 (omega (arith, s.odd)) e in
          (
            (scan t key home xs home).0,
            (scan t key home xs home).1,
            ground (arith, found),
            record {
              at = rw r (scan_idx t key home xs home ∙ ground arith);
              kept = elim (scan-Remembered t key home xs home) [
                | inl old ↦ inl old
                | inr (gone, reached) ↦ inr (gone, rw r (inr (n, reached)))
              ];
              full = λ none_ at_free at_idx.
                  let taken = home_taken t key home xs at_free in
                  rw r (taken, scan-AllTaken t key home xs none_ taken at_idx at_free);
            },
          )
    ]

-- If the chosen slot is free, a search for the key reaches it. `vacant` tells the free slots, among
-- which are the deleted ones.
pub chosen-Reaches :
    (t : Table) (key idx free : ℕ) (vacant : ℕ → Bool)
    → IsShaped t.size
    → Sought t key idx free
    → (value_at t free ≡ deleted → vacant free ≡ true)
    → vacant (if vacant free then free else idx) ≡ true
    → Reaches (stops t key) (if vacant free then free else idx) (route t.size key)
unfolding index_of
chosen-Reaches t key idx free vacant s sought gone open_ =
    let (xs, _, r, _) = route_lem t.size key s in
    elim (Bool-cases (vacant free)) [
      | inl y ↦
          rw y (elim sought.kept [ inl home ↦ rw r (inl (sym home)) | inr (_, reached) ↦ reached ])
      | inr n ↦ rw n (elim sought.kept [
        | inr (d, _) ↦ let y = gone d in cc
        | inl home ↦ elim (Option-cases (first (stops t key) (route t.size key))) [
          | inr (j, e) ↦
              let at : idx ≡ j = sought.at ∙ ap (default (key % t.size)) e in
              subst (λ y. Reaches (stops t key) y (route t.size key)) (sym at)
                (first-Reaches (stops t key) (route t.size key) e)
          | inl e ↦
              let at : idx ≡ free = sought.at ∙ ap (default (key % t.size)) e ∙ sym home in
              let o : vacant idx ≡ true = rw n at open_ in
              let same : vacant idx ≡ vacant free = ap vacant at in cc
        ]
      ])
    ]
