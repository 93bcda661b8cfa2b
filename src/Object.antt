-- ===== src/Object.antt =====
-- Objects as a capability finds them: vg_cap_to_object of viengoos/cap.c and vg_folio_object_cap of
-- libviengoos/viengoos/folio.h. `Store` is what `object_find` answers for each object identifier,
-- from memory or from the backing store.
use viengoos.AddrTrans
use viengoos.Cap.Kind.{CapType, void, same, compatible}
use viengoos.Cap.{Cap, Policy, properties_set}
use viengoos.Common.{ℕ, ◌+◌, false, not, Option, none, some, List, get_elem?, ◌==◌, if◌then◌else◌}

-- What a folio records of one of its objects.
pub record FolioObject : Type 0 where
  pub type : CapType
  pub version : ℕ
  pub policy : Policy

-- The descriptor's identity, version and type; the capability slots of the object, and what it
-- records of other objects if it is a folio.
pub record Object : Type 0 where
  pub oid : ℕ
  pub version : ℕ
  pub type : CapType
  pub caps : List Cap
  pub objects : List FolioObject

abbrev pub Store : Type 0
Store = ℕ → Option Object

-- Where a capability stands: the one that the caller passes, a slot of an object, or a variable.
pub data Place : Type 0 where
  start : Place
  slot : ℕ → ℕ → Place
  temporary : Place

-- `stale`: there is no object, and the capability's type was set to void. `mismatch`: the assertion
-- that the types are compatible fails.
pub data Found : Type 0 where
  object : Object → Found
  nothing : Found
  stale : Found
  mismatch : Found

-- vg_cap_to_object
unfoldable pub cap_to_object : Store → Cap → Found
cap_to_object s cap = if same cap.type void then nothing else elim (s cap.oid) [
  | none ↦ nothing
  | some o ↦
      if not (o.version == cap.version)
      then stale
      else if compatible cap.type o.type
      then object o
      else mismatch
]

-- vg_folio_object_cap; the field `weak_p`, which the macro does not set, is false.
unfoldable pub folio_object_cap : Object → ℕ → Option Cap
unfolding properties_set
folio_object_cap folio i = elim (get_elem? folio.objects i) [
  | none ↦ none
  | some f ↦ some (
      properties_set
        (record {
          version = f.version;
          weak_p = false;
          discardable = false;
          priority = 0;
          addr_trans = AddrTrans.void;
          type = f.type;
          oid = folio.oid + 1 + i;
        })
        (record { policy = f.policy; addr_trans = AddrTrans.void }))
]
