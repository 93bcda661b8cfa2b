-- ===== src/AddressSpace/Ends.antt =====
-- When the walk ends: each round takes bits off the address, unless a page table with 256 subpages,
-- each a single slot, is passed without a guard.
use viengoos.Addr.Meaning.{Means, depth-Means}
use viengoos.Addr.{Addr}
use viengoos.AddrTrans
use viengoos.AddrTrans.{guard_bits, subpage_offset, subpage_size_log2}
use viengoos.AddressSpace.Route.{Edge, page_slot, folio_slot, object_slot, IsSane, StoreIsSane}
use viengoos.AddressSpace.Sound.{round_more, All-get, Edge-IsSane}
use viengoos.AddressSpace.{
  Mode, Walk, Step, more, break, failed, cleared, fault, round, Outcome, refused, voided, asserted,
  unfinished, finish, loop, as_lookup_rel,
}
use viengoos.Cap.Kind.{CapType}
use viengoos.Cap.{Cap}
use viengoos.Common.{
  ℕ, zero, suc, ◌≤◌, ◌<◌, ◌≡◌, ◌≢◌, refl, arith, Option, some, All, ◌==◌, inl, inr, Bool-cases,
}
use viengoos.Object.{Object, Store, folio_object_cap}

-- Its page table, if it is one, is not cut into single slots.
abbrev pub IsCoarse : Cap → Type 0
IsCoarse c = c.addr_trans.subpages_log2 < 8

abbrev pub StoreIsCoarse : Store → Type 0
StoreIsCoarse s = (k : ℕ) (o : Object) → s k ≡ some o → All IsCoarse o.caps

folio_cap-IsCoarse : (o : Object) (i : ℕ) {d : Cap} → folio_object_cap o i ≡ some d → IsCoarse d
unfolding folio_object_cap
folio_cap-IsCoarse o i {d} e =
    let plain : d.addr_trans ≡ AddrTrans.void = ground arith in rw plain (omega arith)

Edge-IsCoarse :
    (s : Store) (c d : Cap) (bits i : ℕ) (p : _)
    → StoreIsCoarse s
    → Edge s c bits i d p
    → IsCoarse d
Edge-IsCoarse s c d bits i p all (page_slot o w _ _ at _) =
    All-get IsCoarse o.caps _ (all c.oid o w.stored) at
Edge-IsCoarse s c d bits i p all (folio_slot o w _ _ at _) = folio_cap-IsCoarse o i at
Edge-IsCoarse s c d bits i p all (object_slot o w _ _ at _) =
    All-get IsCoarse o.caps _ (all c.oid o w.stored) at

Edge-pos :
    (s : Store) (c d : Cap) (bits i : ℕ) (p : _) → IsCoarse c → Edge s c bits i d p → 0 < bits
Edge-pos s c d bits i p coarse (page_slot o w _ n _ _) = omega arith
Edge-pos s c d bits i p coarse (folio_slot o w _ n _ _) = omega arith
Edge-pos s c d bits i p coarse (object_slot o w _ n _ _) = omega arith

finish_ends : (type : Option CapType) (mode : Mode) (k : Walk) → finish type mode k ≢ unfinished
unfolding finish
finish_ends type mode k e = ground arith

module _ (s : Store) (a : ℕ) (type : Option CapType) (mode : Mode) (all : StoreIsSane s)
    (coarse : StoreIsCoarse s) where
  go_on :
      (rest : Walk → Outcome) (k : Walk)
      → ((k' : Walk)
          → IsSane k'.cap
          → IsCoarse k'.cap
          → k'.remaining < k.remaining
          → rest k' ≢ unfinished)
      → IsSane k.cap
      → IsCoarse k.cap
      → 0 < k.remaining
      → k.remaining ≤ 63
      → (r : Step) → round s a type mode k ≡ r
      → elim r [
        | more k' ↦ rest k'
        | break k' ↦ finish type mode k'
        | failed ↦ refused
        | cleared p ↦ voided p
        | fault ↦ asserted
      ]
        ≢ unfinished
  go_on rest k ih sane fine pos small (more k') e₁ =
      let (k₂, g, x) = round_more s a type mode k k' sane pos small e₁ in
      let edge : Edge s k.cap x.bits x.index k'.cap k'.place = rw g.cap at x.edge in
      ih k' (Edge-IsSane s _ _ _ _ _ all x.edge) (Edge-IsCoarse s _ _ _ _ _ coarse x.edge)
        (omega (arith, g.bits, x.count, Edge-pos s k.cap k'.cap x.bits x.index k'.place fine edge))
  go_on rest k ih sane fine pos small (break k') e₁ = finish_ends type mode k'
  go_on rest k ih sane fine pos small failed e₁ = λ e. cc
  go_on rest k ih sane fine pos small (cleared p) e₁ = λ e. cc
  go_on rest k ih sane fine pos small fault e₁ = λ e. cc

  loop_ends :
      (fuel : ℕ) (k : Walk)
      → IsSane k.cap
      → IsCoarse k.cap
      → k.remaining ≤ 63
      → k.remaining < fuel
      → loop s a type mode fuel k ≢ unfinished
  unfolding loop
  loop_ends zero k sane fine small enough e = elim enough [ ]
  loop_ends (suc fuel) k sane fine small enough e = elim (Bool-cases (k.remaining == 0)) [
    | inl done ↦ finish_ends type mode k (rw (loop, done) at e)
    | inr left ↦
        go_on (λ k'. loop s a type mode fuel k') k
          (λ k' sane' fine' less. loop_ends fuel k' sane' fine' (omega arith) (omega arith)) sane
          fine (ground arith) small (round s a type mode k) refl (rw (loop, left) at e)
  ]

-- In an address space whose translators are well-formed, with guards of at most 32 bits, and
-- that has no page table cut into 256 subpages, a lookup ends within one round more than the
-- address has bits.
pub as_lookup_rel-ends :
    (s : Store) (root : Cap) (fuel : ℕ) {address : Addr} {bits n : ℕ} (type : Option CapType)
    (mode : Mode)
    → StoreIsSane s
    → StoreIsCoarse s
    → IsSane root
    → IsCoarse root
    → Means address bits n
    → n < fuel
    → as_lookup_rel fuel s root address type mode ≢ unfinished
unfolding as_lookup_rel
as_lookup_rel-ends s root fuel {address} {bits} {n} type mode all coarse sane fine m enough =
    loop_ends s _ type mode all coarse fuel _ sane fine (omega (arith, depth-Means m, m.shallow))
      (omega (arith, depth-Means m))
