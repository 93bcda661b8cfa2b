-- ===== src/Cap/Kind.antt =====
-- enum vg_cap_type and the functions on it.
pub mod Strength
use viengoos.Common.{ℕ, Bool, true, false, ◌==◌}

-- enum vg_cap_type
pub data CapType : Type 0 where
  void page rpage cappage rcappage folio activity activity_control thread messenger rmessenger :
      CapType

-- the enumerator's value
unfoldable pub value : CapType → ℕ
value void = 0
value page = 1
value rpage = 2
value cappage = 3
value rcappage = 4
value folio = 5
value activity = 6
value activity_control = 7
value thread = 8
value messenger = 9
value rmessenger = 10

-- `a == b`
unfoldable pub same : CapType → CapType → Bool
unfolding value
same a b = value a == value b

-- vg_cap_types_compatible
unfoldable pub compatible : CapType → CapType → Bool
unfolding same
compatible page rpage = true
compatible rpage page = true
compatible cappage rcappage = true
compatible rcappage cappage = true
compatible activity activity_control = true
compatible activity_control activity = true
compatible messenger rmessenger = true
compatible rmessenger messenger = true
compatible a b = same a b

-- vg_cap_type_weak_p
unfoldable pub is_weak : CapType → Bool
is_weak rpage = true
is_weak rcappage = true
is_weak activity = true
is_weak rmessenger = true
is_weak t = false

-- vg_cap_type_weaken
unfoldable pub weaken : CapType → CapType
weaken page = rpage
weaken rpage = rpage
weaken cappage = rcappage
weaken rcappage = rcappage
weaken activity_control = activity
weaken activity = activity
weaken messenger = rmessenger
weaken rmessenger = rmessenger
weaken t = void

-- vg_cap_type_strengthen
unfoldable pub strengthen : CapType → CapType
strengthen page = page
strengthen rpage = page
strengthen cappage = cappage
strengthen rcappage = cappage
strengthen activity_control = activity_control
strengthen activity = activity_control
strengthen messenger = messenger
strengthen rmessenger = messenger
strengthen t = t
