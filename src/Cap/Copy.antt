-- ===== src/Cap/Copy.antt =====
-- vg_cap_copy_x in the kernel. The world `W` is whatever `cap_shootdown` works on: it takes a
-- capability, whose type it may clear, and removes the translations cached for it.
pub mod Rights
use viengoos.AddrTrans.{AddrTrans, subpage, subpages, guard, guard_bits, set_guard_subpage}
use viengoos.Cap.Kind.{CapType, cappage, rcappage, same, weaken}
use viengoos.Cap.{Cap, Policy, Properties, properties_get}
use viengoos.Common.{
  ℕ, ◌+◌, ◌*◌, ◌/◌, Bool, true, false, not, ◌&&◌, ◌||◌, bit_and, ltb, leb, ◌==◌, if◌then◌else◌,
}

-- VG_CAP_COPY_COPY_ADDR_TRANS_SUBPAGE and the other flags
abbrev pub copy_addr_trans_subpage : ℕ
copy_addr_trans_subpage = 1

abbrev pub copy_addr_trans_guard : ℕ
copy_addr_trans_guard = 2

abbrev pub copy_source_guard : ℕ
copy_source_guard = 4

abbrev pub copy_weaken : ℕ
copy_weaken = 8

abbrev pub copy_discardable_set : ℕ
copy_discardable_set = 16

abbrev pub copy_priority_set : ℕ
copy_priority_set = 32

-- `flags & flag`
abbrev pub has : ℕ → ℕ → Bool
has flags flag = not (bit_and flags flag == 0)

unfoldable pub is_cappage : CapType → Bool
is_cappage t = same t cappage || same t rcappage

-- The test that a subpage descriptor narrows that of the source: where the subpages start and end.
unfoldable pub narrows : AddrTrans → AddrTrans → Bool
narrows source wanted =
    leb (subpage source * (256 / subpages source)) (subpage wanted * (256 / subpages wanted))
    && leb ((subpage wanted + 1) * (256 / subpages wanted))
        ((subpage source + 1) * (256 / subpages source))

-- The two ways to refuse a subpage descriptor of the properties.
unfoldable pub subpage_refused : ℕ → Cap → Properties → Bool
unfolding is_cappage
subpage_refused flags source properties =
    has flags copy_addr_trans_subpage
    && (not (subpages properties.addr_trans == 1) && not (is_cappage source.type)
        || not (narrows source.addr_trans properties.addr_trans))

-- whose subpage the copy has
unfoldable pub subpage_from : ℕ → Cap → Properties → AddrTrans
subpage_from flags source properties =
    if has flags copy_addr_trans_subpage then properties.addr_trans else source.addr_trans

-- whose guard the copy has
unfoldable pub guard_from : ℕ → Cap → Cap → Properties → AddrTrans
guard_from flags target source properties =
    if has flags copy_addr_trans_guard
    then properties.addr_trans
    else if has flags copy_source_guard
    then source.addr_trans
    else target.addr_trans

unfoldable pub type_of_copy : ℕ → Cap → CapType
type_of_copy flags source = if has flags copy_weaken then weaken source.type else source.type

-- `changes_translation`
unfoldable pub changes_translation : ℕ → Cap → Cap → Properties → Bool
changes_translation flags target source properties =
    let sub = subpage_from flags source properties in
    let gd = guard_from flags target source properties in
    not (target.oid == source.oid)
    || not (target.version == source.version)
    || not (subpage sub == subpage target.addr_trans)
    || not (subpages sub == subpages target.addr_trans)
    || not (guard gd == guard target.addr_trans)
    || not (guard_bits gd == guard_bits target.addr_trans)
    || not (same (type_of_copy flags source) target.type)

-- the assignments at the end
unfoldable pub store : ℕ → Cap → Properties → AddrTrans → Cap
store flags source properties trans = record source {
  addr_trans = trans;
  type = type_of_copy flags source;
  discardable =
      if has flags copy_discardable_set then properties.policy.discardable else source.discardable;
  priority = if has flags copy_priority_set then properties.policy.priority else source.priority;
}

module _ {W : Type 0} (cap_shootdown : W → Cap → W × Cap) where
  -- Returns the flag, the world, and the target.
  unfoldable pub cap_copy_x : W → Cap → Cap → ℕ → Properties → Bool × W × Cap
  cap_copy_x w target source flags properties =
      if subpage_refused flags source properties
      then (false, w, target)
      else (let sub = subpage_from flags source properties in
          let gd = guard_from flags target source properties in
          let (w', target') =
            if changes_translation flags target source properties
            then cap_shootdown w target
            else (w, target) in
          let (done, trans) =
            set_guard_subpage properties.addr_trans (guard gd) (guard_bits gd) (subpage sub)
              (subpages sub) in
          if done then (true, w', store flags source properties trans) else (false, w', target'))

  -- vg_cap_copy_simple
  unfoldable pub cap_copy_simple : W → Cap → Cap → Bool × W × Cap
  cap_copy_simple w target source =
      cap_copy_x w target source (copy_discardable_set + copy_priority_set) (properties_get source)
