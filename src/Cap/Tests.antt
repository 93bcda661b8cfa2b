-- ===== src/Cap/Tests.antt =====
-- A weakened copy of a quarter of a page table.
use viengoos.AddrTrans
use viengoos.AddrTrans.Guard.{Fits, IsWellFormed}
use viengoos.AddrTrans.{
  AddrTrans, guard, guard_bits, subpage, subpages, subpage_offset, subpage_size, set_guard_subpage,
  acceptable,
}
use viengoos.Cap.Copy.{
  has, copy_weaken, subpage_refused, cap_copy_x, subpage_from, guard_from, changes_translation,
  narrows, type_of_copy,
}
use viengoos.Cap.Copy.Rights.{
  IsPermitted, cap_copy_x-exact, cap_copy_x-narrows, cap_copy_x-weakens, cap_copy_x-translation,
}
use viengoos.Cap.Kind.{same, void, cappage, rcappage, is_weak, compatible, strengthen, weaken}
use viengoos.Cap.Kind.Strength.{compatible-strengthen}
use viengoos.Cap.{Cap, Properties}
use viengoos.Common.{ℕ, ◌+◌, ◌≤◌, ◌≡◌, ◌⊎◌, ◌↔◌, refl, arith, Bool, true, false, List, [], ◌∷◌}
use viengoos.Math.{msb}

abbrev whole : Cap
whole = record {
  version = 0;
  weak_p = false;
  discardable = false;
  priority = 0;
  addr_trans = AddrTrans.void;
  type = cappage;
  oid = 1;
}

abbrev empty : Cap
empty = record whole { type = void; oid = 0 }

-- Subpage 2 of 4, to be copied weakened.
abbrev wanted : Properties
wanted = record {
  policy = record { discardable = false; priority = 0 };
  addr_trans = record { guard_subpage = 2; subpages_log2 = 2; gdepth = 0 };
}

abbrev flags : ℕ
flags = 9

-- The world is the list of the objects whose translations were removed.
abbrev shoot : List ℕ → Cap → List ℕ × Cap
shoot w c = (c.oid ∷ w, c)

abbrev copy : Bool × List ℕ × Cap
copy = cap_copy_x shoot [] empty whole flags wanted

plain : IsWellFormed AddrTrans.void
unfolding guard
plain = omega arith

wanted-IsWellFormed : IsWellFormed wanted.addr_trans
unfolding guard
wanted-IsWellFormed = omega arith

copies : copy.0 ≡ true
unfolding cap_copy_x subpage_refused narrows subpage_from guard_from changes_translation
    type_of_copy guard subpage set_guard_subpage acceptable msb weaken same
copies = refl

cap_copy_x-exact_example : (copy.0 ≡ true) ↔ (
    IsPermitted flags whole wanted
    × Fits
        (guard (guard_from flags empty whole wanted))
        (guard_bits (guard_from flags empty whole wanted))
        (subpage (subpage_from flags whole wanted))
        (subpages (subpage_from flags whole wanted)))
cap_copy_x-exact_example =
    cap_copy_x-exact shoot [] empty whole flags wanted plain plain wanted-IsWellFormed

cap_copy_x-narrows_example :
    (subpage_offset AddrTrans.void ≤ subpage_offset copy.2.addr_trans)
    × (subpage_offset copy.2.addr_trans + subpage_size copy.2.addr_trans
        ≤ subpage_offset AddrTrans.void + subpage_size AddrTrans.void)
    × IsWellFormed copy.2.addr_trans
cap_copy_x-narrows_example =
    cap_copy_x-narrows shoot [] empty whole flags wanted plain plain wanted-IsWellFormed copies

cap_copy_x-weakens_example :
    (copy.2.oid ≡ 1)
    × (copy.2.version ≡ 0)
    × (((has flags copy_weaken ≡ false) × (copy.2.type ≡ cappage))
        ⊎ ((has flags copy_weaken ≡ true)
            × ((copy.2.type ≡ void)
                ⊎ ((is_weak copy.2.type ≡ true) × (compatible copy.2.type cappage ≡ true)))))
cap_copy_x-weakens_example =
    cap_copy_x-weakens shoot [] empty whole flags wanted plain plain wanted-IsWellFormed copies

cap_copy_x-translation_example :
    (copy.1 ≡ 0 ∷ [])
    ⊎ ((copy.1 ≡ [])
        × (copy.2.oid ≡ empty.oid)
        × (copy.2.version ≡ empty.version)
        × (copy.2.type ≡ empty.type)
        × (guard copy.2.addr_trans ≡ guard empty.addr_trans)
        × (guard_bits copy.2.addr_trans ≡ guard_bits empty.addr_trans)
        × (subpage copy.2.addr_trans ≡ subpage empty.addr_trans)
        × (subpages copy.2.addr_trans ≡ subpages empty.addr_trans))
cap_copy_x-translation_example =
    cap_copy_x-translation shoot [] empty whole flags wanted plain plain wanted-IsWellFormed copies

compatible-strengthen_example :
    (compatible cappage rcappage ≡ true) ↔ (strengthen cappage ≡ strengthen rcappage)
compatible-strengthen_example = compatible-strengthen cappage rcappage
