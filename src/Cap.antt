-- ===== src/Cap.antt =====
-- libviengoos/viengoos/cap.h: capabilities as the kernel holds them (RM_INTERN), their types, their
-- policy and the operation that copies one. The capability types are in `Cap.Kind`.
pub mod Kind
pub mod Copy
mod Tests
use viengoos.AddrTrans.{AddrTrans}
use viengoos.Cap.Kind.{CapType}
use viengoos.Common.{ℕ, Bool}

-- struct vg_object_policy: `priority` is the 7-bit two's complement pattern.
pub record Policy : Type 0 where
  pub discardable : Bool
  pub priority : ℕ

-- struct vg_cap_properties
pub record Properties : Type 0 where
  pub policy : Policy
  pub addr_trans : AddrTrans

-- struct vg_cap, the branch for RM_INTERN
pub record Cap : Type 0 where
  pub version : ℕ
  pub weak_p : Bool
  pub discardable : Bool
  pub priority : ℕ
  pub addr_trans : AddrTrans
  pub type : CapType
  pub oid : ℕ

-- VG_CAP_PROPERTIES_GET, with VG_CAP_POLICY_GET
unfoldable pub properties_get : Cap → Properties
properties_get c = record {
  policy = record { discardable = c.discardable; priority = c.priority };
  addr_trans = c.addr_trans;
}

-- VG_CAP_PROPERTIES_SET, with VG_CAP_POLICY_SET
unfoldable pub properties_set : Cap → Properties → Cap
properties_set c p = record c {
  discardable = p.policy.discardable;
  priority = p.policy.priority;
  addr_trans = p.addr_trans;
}
