-- ===== src/AddressSpace.antt =====
-- libhurd-mm/as-lookup.c as the kernel compiles it (RM_INTERN), with libhurd-mm/bits.h: the walk from
-- a root capability along the bits of an address.
pub mod Bits
pub mod Route
pub mod Parts
pub mod Sound
pub mod Ends
pub mod Knot
mod Tests
use viengoos.Addr
use viengoos.Addr.{Addr, addr_bits}
use viengoos.AddrTrans.{subpage_size_log2, subpage_offset, guard, guard_bits}
use viengoos.Cap.Kind.{
  CapType, cappage, rcappage, folio, thread, messenger, same, is_weak, strengthen,
}
use viengoos.Cap.{Cap}
use viengoos.Common.{
  ℕ, zero, suc, ◌+◌, ◌-◌, ◌^◌, ◌%◌, Bool, true, false, not, ◌&&◌, Option, none, some, bit_and,
  get_elem?, ltb, leb, ◌==◌, if◌then◌else◌, assert, ◌>>=◌, ◌>>◌,
}
use viengoos.Object.{
  Object, Store, Place, start, slot, temporary, Found, object, nothing, stale, mismatch,
  cap_to_object, folio_object_cap,
}
use viengoos.Word.{shr, low_mask}

-- extract_bits64
unfoldable pub extract_bits64 : ℕ → ℕ → ℕ → Option ℕ
extract_bits64 w s c = do
  assert (ltb s 64)
  assert (leb (s + c) 64)
  if c == 64 then (if s == 0 then some w else none) else some (bit_and (shr w s) (low_mask c))

-- extract_bits64_inv; the start `e - c + 1` must not be negative.
unfoldable pub extract_bits64_inv : ℕ → ℕ → ℕ → Option ℕ
unfolding extract_bits64
extract_bits64_inv w e c =
    if c == 0 then some 0 else if leb c (e + 1) then extract_bits64 w (e + 1 - c) c else none

-- enum as_lookup_mode
pub data Mode : Type 0 where
  want_cap want_slot want_object : Mode

-- The variables of the loop: `*root` and where it stands, `remaining` and `w`.
pub record Walk : Type 0 where
  pub cap : Cap
  pub place : Place
  pub remaining : ℕ
  pub writable : Bool

-- One round of the loop goes on, leaves the loop, returns false, returns false having cleared a
-- capability, or fails an assertion.
pub data Step : Type 0 where
  more : Walk → Step
  break : Walk → Step
  failed : Step
  cleared : Place → Step
  fault : Step

-- The value of an int that a 64-bit word is assigned to, in a comparison with a 64-bit word: the low
-- 32 bits with the sign extended.
unfoldable pub through_int : ℕ → ℕ
through_int x = let low = x % 2 ^ 32 in if ltb low (2 ^ 31) then low else low + (2 ^ 64 - 2 ^ 32)

is_wanted_strong : Option CapType → Bool
is_wanted_strong none = false
is_wanted_strong (some t) = not (is_weak t)

-- The read-only page table: a strong type is refused, and the walk is read-only from here.
unfoldable pub enter : Option CapType → Walk → Step
unfolding is_wanted_strong
enter type k =
    if same k.cap.type rcappage
    then (if is_wanted_strong type then failed else more (record k { writable = false }))
    else more k

-- The guard is checked and translated.
unfoldable pub translate_guard : ℕ → Walk → Step
translate_guard addr k =
    let gdepth = guard_bits k.cap.addr_trans in
    if gdepth == 0
    then more k
    else if ltb k.remaining gdepth
    then failed
    else elim (extract_bits64_inv addr (k.remaining - 1) gdepth) [
      | none ↦ fault
      | some bits ↦
          if guard k.cap.addr_trans == through_int bits
          then more (record k { remaining = k.remaining - gdepth })
          else failed
    ]

-- The slot `offset` of the object, where `size` slots are allowed for.
unfoldable pub slot_of : Object → ℕ → ℕ → ℕ → Walk → Step
slot_of o size offset bits k =
    if ltb offset size
    then elim (get_elem? o.caps offset) [
      | none ↦ fault
      | some c ↦
          more (record k { cap = c; place = slot o.oid offset; remaining = k.remaining - bits })
    ]
    else fault

-- case vg_cap_cappage, case vg_cap_rcappage
unfoldable pub index_cappage : Store → ℕ → Walk → Step
index_cappage s addr k =
    let bits = subpage_size_log2 k.cap.addr_trans in
    if ltb k.remaining bits then failed else elim (cap_to_object s k.cap) [
      | nothing ↦ failed
      | stale ↦ cleared k.place
      | mismatch ↦ fault
      | object o ↦ elim (extract_bits64_inv addr (k.remaining - 1) bits) [
        | none ↦ fault
        | some i ↦ slot_of o 256 (subpage_offset k.cap.addr_trans + i) bits k
      ]
    ]

-- VG_FOLIO_OBJECTS_LOG2
abbrev pub folio_objects_log2 : ℕ
folio_objects_log2 = 7

-- case vg_cap_folio: the capability is made on the spot.
unfoldable pub index_folio : Store → ℕ → Walk → Step
index_folio s addr k =
    if ltb k.remaining folio_objects_log2 then failed else elim (cap_to_object s k.cap) [
      | nothing ↦ failed
      | stale ↦ cleared k.place
      | mismatch ↦ fault
      | object o ↦
          elim (extract_bits64_inv addr (k.remaining - 1) folio_objects_log2 >>= λ i.
          folio_object_cap o i) [
            | none ↦ fault
            | some c ↦ more (record k {
              cap = c;
              place = temporary;
              remaining = k.remaining - folio_objects_log2;
            })
          ]
    ]

-- VG_THREAD_SLOTS_LOG2 and VG_MESSENGER_SLOTS_LOG2
abbrev pub slots_log2 : ℕ
slots_log2 = 2

-- case vg_cap_thread, case vg_cap_messenger
unfoldable pub index_slots : Store → ℕ → Walk → Step
index_slots s addr k = if ltb k.remaining slots_log2 then failed else elim (cap_to_object s k.cap) [
  | nothing ↦ failed
  | stale ↦ cleared k.place
  | mismatch ↦ fault
  | object o ↦
      if same o.type k.cap.type
      then elim (extract_bits64_inv addr (k.remaining - 1) slots_log2) [
        | none ↦ fault
        | some i ↦ slot_of o 4 i slots_log2 k
      ]
      else fault
]

-- The switch on the type.
unfoldable pub index_by : CapType → Store → ℕ → Walk → Step
index_by cappage s addr k = index_cappage s addr k
index_by rcappage s addr k = index_cappage s addr k
index_by folio s addr k = index_folio s addr k
index_by thread s addr k = index_slots s addr k
index_by messenger s addr k = index_slots s addr k
index_by t s addr k = failed

-- The end of a round: no bits are left, and the slot's guard is not translated.
unfoldable pub leave : Mode → Walk → Step
leave want_object k =
    if k.remaining == 0
    then (if guard_bits k.cap.addr_trans == 0 then break k else failed)
    else more k
leave mode k = if k.remaining == 0 then break k else more k

-- The next part of a round, if the walk goes on.
abbrev pub then_ : Step → (Walk → Step) → Step
then_ (more k) f = f k
then_ (break k) f = break k
then_ failed f = failed
then_ (cleared p) f = cleared p
then_ fault f = fault

unfoldable pub stop_at_end : Walk → Step
stop_at_end k = if k.remaining == 0 then break k else more k

-- One round of the loop.
unfoldable pub round : Store → ℕ → Option CapType → Mode → Walk → Step
round s addr type mode k = then_ (enter type k) λ k₁.
    then_ (translate_guard addr k₁)
      λ k₂. then_ (stop_at_end k₂) λ k₃. then_ (index_by k₃.cap.type s addr k₃) (leave mode)

-- What the function gives: on success the capability, where it stands, and `*writable`.
pub data Outcome : Type 0 where
  found : Cap → Place → Bool → Outcome
  refused : Outcome
  voided : Place → Outcome
  asserted : Outcome
  unfinished : Outcome

-- `type != -1 && type != root->type`, and `root` does not just provide more strength than requested
unfoldable pub type_refused : Option CapType → CapType → Bool
type_refused none t = false
type_refused (some wanted) t = not (same wanted t) && not (same (strengthen wanted) t)

-- `w` in the end
unfoldable pub final_writable : Mode → Walk → Bool
final_writable want_object k = if is_weak k.cap.type then false else k.writable
final_writable mode k = k.writable

unfoldable pub is_implicit_slot : Mode → Place → Bool
is_implicit_slot want_slot temporary = true
is_implicit_slot mode p = false

-- What follows the loop.
unfoldable pub finish : Option CapType → Mode → Walk → Outcome
finish type mode k =
    if type_refused type k.cap.type
    then refused
    else if is_implicit_slot mode k.place
    then refused
    else found k.cap k.place (final_writable mode k)

-- The loop, for as many rounds as there is fuel.
unfoldable pub loop : Store → ℕ → Option CapType → Mode → ℕ → Walk → Outcome
unfolding finish
loop s addr type mode zero k = unfinished
loop s addr type mode (suc fuel) k = elim (k.remaining == 0) [
  | true ↦ finish type mode k
  | false ↦ elim (round s addr type mode k) [
    | more k' ↦ loop s addr type mode fuel k'
    | break k' ↦ finish type mode k'
    | failed ↦ refused
    | cleared p ↦ voided p
    | fault ↦ asserted
  ]
]

-- as_lookup_rel, by as_lookup_rel_internal
unfoldable pub as_lookup_rel : ℕ → Store → Cap → Addr → Option CapType → Mode → Outcome
unfolding loop
as_lookup_rel fuel s root address type mode =
    let remaining = Addr.depth address in
    loop s (shr (Addr.prefix address) (addr_bits - remaining)) type mode fuel
      (record { cap = root; place = start; remaining = remaining; writable = true })
