-- ===== src/Cap/Kind/Strength.antt =====
-- Weak and strong types, and the objects that both designate.
use viengoos.Cap.Kind.{
  CapType, void, page, rpage, cappage, rcappage, folio, activity, activity_control, thread,
  messenger, rmessenger, value, same, compatible, is_weak, weaken, strengthen,
}
use viengoos.Common.{
  ℕ, true, false, ◌≡◌, ◌∙◌, ◌⊎◌, ◌↔◌, refl, sym, ap, arith, ◌==◌, ==_iff, if◌then◌else◌,
}

-- The enumerator of a value.
abbrev of_value : ℕ → CapType
of_value n =
    if n == 0
    then void
    else if n == 1
    then page
    else if n == 2
    then rpage
    else if n == 3
    then cappage
    else if n == 4
    then rcappage
    else if n == 5
    then folio
    else if n == 6
    then activity
    else if n == 7
    then activity_control
    else if n == 8
    then thread
    else if n == 9
    then messenger
    else rmessenger

of_value-value : (a : CapType) → of_value (value a) ≡ a
unfolding value
of_value-value void = refl
of_value-value _ = refl

pub same_iff : (a b : CapType) → (same a b ≡ true) ↔ (a ≡ b)
unfolding same
same_iff a b = (
  λ e. sym (of_value-value a) ∙ ap of_value ((==_iff (value a) (value b)).0 e) ∙ of_value-value b,
  λ e. (==_iff (value a) (value b)).1 (ap value e),
)

compatible_strong : (a b : CapType) → (compatible a b ≡ same (strengthen a) (strengthen b))
unfolding compatible strengthen
compatible_strong void = elim [ void ↦ refl | _ ↦ refl ]
compatible_strong _ = elim [ void ↦ refl | _ ↦ refl ]

-- vg_cap_types_compatible holds of two types exactly if vg_cap_type_strengthen takes both to one
-- type.
pub compatible-strengthen :
    (a b : CapType) → (compatible a b ≡ true) ↔ (strengthen a ≡ strengthen b)
compatible-strengthen a b = rw (compatible_strong a b) (same_iff (strengthen a) (strengthen b))

-- vg_cap_type_weaken gives void or a weak type that is compatible with the type; it leaves a
-- weak type as it is; and no strengthened type is weak.
pub weaken_lem :
    (t : CapType)
    → ((weaken t ≡ void) ⊎ ((is_weak (weaken t) ≡ true) × (compatible (weaken t) t ≡ true)))
      × ((is_weak t ≡ false) ⊎ (weaken t ≡ t))
      × (is_weak (strengthen t) ≡ false)
unfolding weaken is_weak compatible strengthen
weaken_lem t = ground arith
