-- ===== src/AddressSpace/Route.antt =====
-- What an address space means, without shifts: from a capability, the bits of an address are its
-- guard, then the index of a slot in the object, then the bits for the capability in that slot.
use viengoos.AddrTrans.Guard.{IsWellFormed}
use viengoos.AddrTrans.{guard, guard_bits, subpage_offset}
use viengoos.Cap.Kind.{void, cappage, rcappage, folio, thread, messenger, same, compatible}
use viengoos.Cap.{Cap}
use viengoos.Common.{
  ℕ, ◌+◌, ◌*◌, ◌^◌, ◌≤◌, ◌<◌, ◌≡◌, ◌⊎◌, Bool, true, not, ◌&&◌, some, get_elem?, All,
}
use viengoos.Object.{Object, Store, Place, slot, temporary, folio_object_cap}

-- `o` is the live object of the capability.
pub record Designates (s : Store) (c : Cap) (o : Object) : Type 0 where
  pub stored : s c.oid ≡ some o
  pub live : o.version ≡ c.version
  pub fitting : compatible c.type o.type ≡ true
  pub typed : same c.type void ≡ Bool.false

-- Slot `i`, of `bits` bits, of the object that `c` designates holds `d`, which stands at `p`.
pub data Edge (s : Store) (c : Cap) (bits i : ℕ) (d : Cap) (p : Place) : Type 0 where
  page_slot :
      (o : Object)
      → Designates s c o
      → (c.type ≡ cappage) ⊎ (c.type ≡ rcappage)
      → c.addr_trans.subpages_log2 + bits ≡ 8
      → get_elem? o.caps (subpage_offset c.addr_trans + i) ≡ some d
      → p ≡ slot o.oid (subpage_offset c.addr_trans + i)
      → Edge s c bits i d p
  folio_slot :
      (o : Object)
      → Designates s c o
      → c.type ≡ folio
      → bits ≡ 7
      → folio_object_cap o i ≡ some d
      → p ≡ temporary
      → Edge s c bits i d p
  object_slot :
      (o : Object)
      → Designates s c o
      → (c.type ≡ thread) ⊎ (c.type ≡ messenger)
      → bits ≡ 2
      → get_elem? o.caps i ≡ some d
      → p ≡ slot o.oid i
      → Edge s c bits i d p

-- From `c`, which stands at `p`, the `n` bits `b` lead to `d` at `q`. `w` says that no read-only page
-- table was entered.
pub data Route (s : Store) : Cap → Place → ℕ → ℕ → Bool → Cap → Place → Type 0 where
  here :
      {c : Cap} {p : Place} {b n : ℕ} {w : Bool} → n ≡ 0 → b ≡ 0 → w ≡ true → Route s c p b n w c p
  guarded :
      {c : Cap} {p : Place} {b n : ℕ} {w : Bool}
      → 0 < n
      → guard_bits c.addr_trans ≡ n
      → guard c.addr_trans ≡ b
      → w ≡ not (same c.type rcappage)
      → Route s c p b n w c p
  through :
      {c d e : Cap} {p q r : Place} {b n : ℕ} {w v : Bool} (bits i rest m : ℕ)
      → Edge s c bits i d q
      → i < 2 ^ bits
      → rest < 2 ^ m
      → n ≡ guard_bits c.addr_trans + (bits + m)
      → b ≡ (guard c.addr_trans * 2 ^ bits + i) * 2 ^ m + rest
      → Route s d q rest m v e r
      → w ≡ not (same c.type rcappage) && v
      → Route s c p b n w e r

-- A capability whose guard an int can hold, with a well-formed translator.
pub record IsSane (c : Cap) : Type 0 where
  pub formed : IsWellFormed c.addr_trans
  pub short : guard_bits c.addr_trans ≤ 32

abbrev pub StoreIsSane : Store → Type 0
StoreIsSane s = (k : ℕ) (o : Object) → s k ≡ some o → All IsSane o.caps
