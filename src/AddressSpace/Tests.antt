-- ===== src/AddressSpace/Tests.antt =====
-- A small address space: a page table with a page in slot 3, and a table that holds itself.
use viengoos.Addr.Meaning.{Means}
use viengoos.Addr.{Addr, depth, prefix}
use viengoos.AddrTrans
use viengoos.AddrTrans.{AddrTrans, guard, subpage_offset, subpage_size_log2}
use viengoos.AddressSpace.Ends.{IsCoarse, StoreIsCoarse, as_lookup_rel-ends}
use viengoos.AddressSpace.Knot.{IsKnot, as_lookup_rel-unfinished}
use viengoos.AddressSpace.Route.{IsSane, StoreIsSane, Route}
use viengoos.AddressSpace.Sound.{allowed, as_lookup_rel_sound}
use viengoos.AddressSpace.{
  want_cap, want_object, found, unfinished, as_lookup_rel, round, enter, translate_guard,
  stop_at_end, index_by, index_cappage, slot_of, leave, extract_bits64_inv, final_writable,
  type_refused, is_implicit_slot,
}
use viengoos.Math.{lsb}
use viengoos.Cap.Kind.{page, cappage, compatible, is_weak}
use viengoos.Cap.{Cap}
use viengoos.Common.{
  ℕ, ◌*◌, ◌^◌, ◌≡◌, ◌≢◌, refl, subst, arith, Bool, true, false, none, some, [], ◌∷◌, All, ◌==◌,
  if◌then◌else◌, Bool-cases, inl, inr,
}
use viengoos.Object.{Object, Store, start, slot, cap_to_object}

abbrev leaf : Cap
leaf = record {
  version = 0;
  weak_p = false;
  discardable = false;
  priority = 0;
  addr_trans = AddrTrans.void;
  type = page;
  oid = 2;
}

abbrev table : Cap
table = record leaf { type = cappage; oid = 1 }

abbrev table_object : Object
table_object = record {
  oid = 1;
  version = 0;
  type = cappage;
  caps = table ∷ leaf ∷ leaf ∷ leaf ∷ [];
  objects = [];
}

abbrev only : Object → Store
only o k = if k == 1 then some o else none

only_one : (o o' : Object) (P : Object → Type 0) (k : ℕ) → P o → only o k ≡ some o' → P o'
only_one o o' P k h e = elim (Bool-cases (k == 1)) [
  | inl here ↦ subst P (ground arith) h
  | inr other ↦ absurd (ground arith)
]

plain-IsSane : (c : Cap) → c.addr_trans ≡ AddrTrans.void → IsSane c
unfolding guard
plain-IsSane c e = record { formed = rw e (omega arith); short = rw e (omega arith) }

store-IsSane : StoreIsSane (only table_object)
store-IsSane k o e =
    only_one table_object o (λ x. All IsSane x.caps) k
      (
        plain-IsSane table refl,
        (plain-IsSane leaf refl, (plain-IsSane leaf refl, (plain-IsSane leaf refl, tt))),
      )
      e

store-IsCoarse : StoreIsCoarse (only table_object)
store-IsCoarse k o e = only_one table_object o (λ x. All IsCoarse x.caps) k (omega arith) e

abbrev address : Addr
address = record { raw = 7 * 2 ^ 55 }

address-Means : Means address 3 8
address-Means = record { shallow = omega arith; fits = omega arith; word = refl }

finds_leaf :
    as_lookup_rel 9 (only table_object) table address none want_object ≡ found leaf (slot 1 3) true
unfolding as_lookup_rel round enter translate_guard stop_at_end index_by index_cappage slot_of leave
    extract_bits64_inv final_writable type_refused is_implicit_slot cap_to_object compatible is_weak
    subpage_offset subpage_size_log2 depth prefix lsb
finds_leaf = refl

-- The lookup of `finds_leaf` follows a route.
as_lookup_rel_sound_example :
    (v : Bool) × Route (only table_object) table start 3 8 v leaf (slot 1 3)
    × (true ≡ allowed want_object leaf v)
as_lookup_rel_sound_example =
    as_lookup_rel_sound (only table_object) table 9 none want_object leaf (slot 1 3) true
      store-IsSane (plain-IsSane table refl) address-Means finds_leaf

as_lookup_rel-ends_example :
    as_lookup_rel 9 (only table_object) table address none want_cap ≢ unfinished
as_lookup_rel-ends_example =
    as_lookup_rel-ends (only table_object) table 9 none want_cap store-IsSane store-IsCoarse
      (plain-IsSane table refl) (omega arith) address-Means (omega arith)

-- A page table of 256 subpages whose first slot holds the capability to it.
abbrev knot : Cap
knot = record table { addr_trans = record AddrTrans.void { subpages_log2 = 8 } }

abbrev knot_object : Object
knot_object = record table_object { caps = knot ∷ [] }

knot-IsSane : IsSane knot
unfolding guard
knot-IsSane = record { formed = omega arith; short = omega arith }

knot-IsKnot : IsKnot (only knot_object) knot knot_object
unfolding compatible subpage_offset
knot-IsKnot = record {
  table = refl;
  designates = record { stored = refl; live = refl; fitting = refl; typed = refl };
  unguarded = refl;
  single = refl;
  held = refl;
}

as_lookup_rel-unfinished_example :
    as_lookup_rel 1000 (only knot_object) knot address none want_cap ≡ unfinished
as_lookup_rel-unfinished_example =
    as_lookup_rel-unfinished (only knot_object) knot knot_object want_cap 1000 knot-IsSane
      knot-IsKnot address-Means (omega arith)
