-- ===== src/AddressSpace/Knot.antt =====
-- A walk that does not end: a page table of single slots that holds the capability to itself.
use viengoos.Addr.Meaning.{Means, depth-Means}
use viengoos.Addr.{Addr}
use viengoos.AddrTrans.Guard.{subpage_window}
use viengoos.AddrTrans.{AddrTrans, guard_bits, subpage_offset, subpage_size_log2}
use viengoos.AddressSpace.Route.{Designates, IsSane}
use viengoos.AddressSpace.{
  extract_bits64_inv, Mode, want_cap, want_slot, want_object, Walk, more, round, unfinished, loop,
  as_lookup_rel, enter, translate_guard, slot_of, index_cappage, index_by, leave, stop_at_end,
}
use viengoos.Cap.Kind.{cappage, rcappage, same}
use viengoos.Cap.{Cap}
use viengoos.Common.{
  ℕ, zero, suc, ◌<◌, ◌≡◌, refl, ap, ◌∙◌, arith, true, false, none, some, get_elem?,
}
use viengoos.Object.{Object, Store, Place, start, slot, object, cap_to_object}

-- A page table with 256 subpages whose designated slot holds the capability itself.
pub record IsKnot (s : Store) (c : Cap) (o : Object) : Type 0 where
  pub table : c.type ≡ cappage
  pub designates : Designates s c o
  pub unguarded : guard_bits c.addr_trans ≡ 0
  pub single : c.addr_trans.subpages_log2 ≡ 8
  pub held : get_elem? o.caps (subpage_offset c.addr_trans) ≡ some c

Designates-cap_to_object :
    (s : Store) (c : Cap) (o : Object) → Designates s c o → cap_to_object s c ≡ object o
unfolding cap_to_object
Designates-cap_to_object s c o w = ground (arith, w.stored, w.live, w.fitting, w.typed)

no_size : (t : AddrTrans) → t.subpages_log2 ≡ 8 → subpage_size_log2 t ≡ 0
unfolding subpage_size_log2
no_size t h = omega arith

module _ (s : Store) (a : ℕ) (mode : Mode) (c : Cap) (o : Object) (sane : IsSane c)
    (knot : IsKnot s c o) where
  -- At the capability, with `r` bits left.
  abbrev at : Place → ℕ → Walk
  at p r = record { cap = c; place = p; remaining = r; writable = true }

  abbrev back : ℕ → Walk
  back r = at (slot o.oid (subpage_offset c.addr_trans)) r

  index_again : (p : Place) (r : ℕ) → index_cappage s a (at p r) ≡ more (back r)
  unfolding index_cappage extract_bits64_inv slot_of
  index_again p r = ground (
    arith,
    Designates-cap_to_object s c o knot.designates,
    no_size c.addr_trans knot.single,
    subpage_window c.addr_trans sane.formed,
    knot.held,
    knot.table,
  )

  writable_table : same c.type rcappage ≡ false
  unfolding same
  writable_table = rw knot.table

  table_again : (p : Place) (r : ℕ) → index_by c.type s a (at p r) ≡ more (back r)
  unfolding index_by
  table_again p r = ap (λ t. index_by t s a (at p r)) knot.table ∙ index_again p r

  leaves_again : (r : ℕ) → 0 < r → leave mode (back r) ≡ more (back r)
  unfolding leave
  leaves_again r pos = elim mode as (λ m. leave m (back r) ≡ more (back r)) [
    | want_cap ↦ ground arith
    | want_slot ↦ ground arith
    | want_object ↦ ground arith
  ]

  again : (p : Place) (r : ℕ) → 0 < r → round s a none mode (at p r) ≡ more (back r)
  unfolding round enter translate_guard stop_at_end
  again p r pos =
      ground (arith, table_again p r, leaves_again r pos, writable_table, knot.unguarded)

  loop_on : (fuel : ℕ) (p : Place) (r : ℕ) → 0 < r → loop s a none mode fuel (at p r) ≡ unfinished
  unfolding loop
  loop_on zero p r pos = refl
  loop_on (suc fuel) p r pos =
      ground (arith, again p r pos, loop_on fuel (slot o.oid (subpage_offset c.addr_trans)) r pos)

-- Where a page table with 256 subpages and no guard holds, in the one slot that it designates,
-- the capability to itself, a lookup of a capability of any type (the type wanted is -1) with
-- bits left to translate that starts at that capability, of type cappage, is unfinished after
-- any number of rounds.
pub as_lookup_rel-unfinished :
    (s : Store) (c : Cap) (o : Object) (mode : Mode) (fuel : ℕ) {address : Addr} {bits n : ℕ}
    → IsSane c
    → IsKnot s c o
    → Means address bits n
    → 0 < n
    → as_lookup_rel fuel s c address none mode ≡ unfinished
unfolding as_lookup_rel
as_lookup_rel-unfinished s c o mode fuel sane knot m pos =
    loop_on s _ mode c o sane knot fuel start _ (omega (arith, depth-Means m))
