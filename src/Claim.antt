-- ===== src/Claim.antt =====
-- The accounting of frames when an activity claims an object: object_desc_claim of viengoos/object.c.
-- A descriptor is named by a number, a list is that of its descriptors, and a priority counts from
-- VG_OBJECT_PRIORITY_MIN. A failed assert, and the unlinking of what is not on the list, is `none`.
pub mod Lists
pub mod Sum
pub mod Accounts
pub mod Owned
pub mod Places
pub mod Loosen
pub mod Goal
pub mod Laundry
pub mod Left
pub mod Leave
pub mod Enter
pub mod Disconnect
pub mod Assign
pub mod Claimed
mod Tests
use viengoos.Activity.{
  Activity, Activities, with_activity, for_each_ancestor, no_test, activity_charge, activity_credit,
}
use viengoos.Common.{
  ℕ, zero, suc, ◌+◌, ◌-◌, ◌/◌, ◌%◌, ◌^◌, Bool, true, false, not, ◌&&◌, ◌||◌, Option, none, some,
  List, [], ◌∷◌, ltb, leb, ◌==◌, ◌>>=◌, ◌>>◌, assert, if◌then◌else◌,
}

-- struct object_desc
pub record Desc : Type 0 where
  pub dirty : Bool
  pub eviction_candidate : Bool
  pub discardable : Bool
  pub priority : ℕ
  pub age : ℕ
  pub activity : Option ℕ

-- struct vg_object_policy
pub record ObjectPolicy : Type 0 where
  pub discardable : Bool
  pub priority : ℕ

-- The activities, their lists, `laundry`, `available` and the descriptors. A node is true if it is
-- attached, that is, if its pointers are not NULL; `laundry_node` is the union with available_node.
pub record Frames : Type 0 where
  pub activities : Activities
  pub active : ℕ → ℕ → List ℕ
  pub inactive : ℕ → ℕ → List ℕ
  pub eviction_clean : ℕ → List ℕ
  pub eviction_dirty : ℕ → List ℕ
  pub laundry : List ℕ
  pub available : List ℕ
  pub desc : ℕ → Desc
  pub activity_node : ℕ → Bool
  pub laundry_node : ℕ → Bool

-- list_unlink
unfoldable pub list_unlink : List ℕ → ℕ → Option (List ℕ)
list_unlink [] d = none
list_unlink (x ∷ xs) d =
    let further = list_unlink xs d >>= λ ys. some (x ∷ ys) in if x == d then some xs else further

-- list_unlink of a node that is not attached fails; the node is then cleared.
unfoldable pub detach : (ℕ → Bool) → ℕ → Option (ℕ → Bool)
detach node d = assert (node d) >> some (λ e. if d == e then false else node e)

unfoldable pub set_at : (ℕ → List ℕ) → ℕ → List ℕ → ℕ → List ℕ
set_at f a l b = if a == b then l else f b

-- `activity != desc->activity`, for a descriptor that has an activity
unfoldable pub differs : Option ℕ → ℕ → Bool
differs none a = true
differs (some b) a = not (b == a)

unfoldable pub is_owner : Option ℕ → Option ℕ → Bool
is_owner none none = true
is_owner (some a) act = not (differs act a)
is_owner none (some b) = false

-- An eviction candidate that is in the laundry.
unfoldable pub in_laundry : Desc → Bool
in_laundry x = x.dirty && not x.discardable

-- The frame is counted anew: for another activity, or since it was reclaimable.
unfoldable pub is_anew : Desc → Bool → Bool
is_anew x moved = moved || (x.eviction_candidate && not (in_laundry x))

unfoldable pub with_activities : Frames → Activities → Frames
with_activities w s = record w { activities = s }

-- What one activity above is charged less, when a frame leaves the laundry.
unfoldable pub less_pending : Bool → Activity → Activity
less_pending moved v = record v {
  frames_total = if moved then (v.frames_total + 2 ^ 32 - 1) % 2 ^ 32 else v.frames_total;
  frames_pending_eviction = (v.frames_pending_eviction + 2 ^ 32 - 1) % 2 ^ 32;
}

unfoldable pub less_local : Bool → Activity → Activity
less_local moved v =
    if moved then record v { frames_local = (v.frames_local + 2 ^ 32 - 1) % 2 ^ 32 } else v

-- The accounting for a frame that leaves the laundry.
unfoldable pub saved_dirty : ℕ → Bool → Activities → ℕ → Option Activities
saved_dirty fuel moved s a =
    for_each_ancestor fuel no_test (less_pending moved)
      (with_activity s a (less_local moved (s.activity a))) a

-- A dirty eviction candidate is disconnected from its activity.
unfoldable pub leave_dirty : ℕ → Frames → ℕ → ℕ → Bool → Bool → Option Frames
leave_dirty fuel w d a moved update_accounting = list_unlink w.laundry d >>= λ l.
    detach w.laundry_node d >>= λ f. list_unlink (w.eviction_dirty a) d >>= λ e.
    detach w.activity_node d >>= λ g.
    let w' = record w {
      laundry = l;
      laundry_node = f;
      eviction_dirty = set_at w.eviction_dirty a e;
      activity_node = g;
    } in
    let accounted = saved_dirty fuel moved w.activities a >>= λ s. some (with_activities w' s) in
    if update_accounting then accounted else some w'

-- A clean one.
unfoldable pub leave_clean : Frames → ℕ → ℕ → Option Frames
leave_clean w d a = list_unlink w.available d >>= λ l. detach w.laundry_node d >>= λ f.
    list_unlink (w.eviction_clean a) d >>= λ e. detach w.activity_node d >>= λ g. some (record w {
      available = l;
      laundry_node = f;
      eviction_clean = set_at w.eviction_clean a e;
      activity_node = g;
    })

unfoldable pub set_in : (ℕ → ℕ → List ℕ) → ℕ → ℕ → List ℕ → ℕ → ℕ → List ℕ
set_in f a p l b q = if a == b && p == q then l else f b q

-- The object leaves the list of its priority: `active` if its age is not 0.
unfoldable pub off_list : Frames → ℕ → ℕ → Desc → Option Frames
off_list w d a x =
    let active = list_unlink (w.active a x.priority) d >>= λ l. detach w.activity_node d >>= λ g.
    some (record w { active = set_in w.active a x.priority l; activity_node = g }) in
    let inactive = list_unlink (w.inactive a x.priority) d >>= λ l.
    detach w.activity_node d >>= λ g.
    some (record w { inactive = set_in w.inactive a x.priority l; activity_node = g }) in
    if x.age == 0 then inactive else active

-- An object that is no eviction candidate.
unfoldable pub leave_list : ℕ → Frames → ℕ → ℕ → Desc → Bool → Bool → Option Frames
leave_list fuel w d a x moved update_accounting = off_list w d a x >>= λ w'.
    let accounted = activity_credit fuel w.activities a 1 >>= λ s. some (with_activities w' s) in
    if moved && update_accounting then accounted else some w'

unfoldable pub exclude_less : ℕ → Activity → Activity
exclude_less n v = record v { frames_excluded = (v.frames_excluded + 2 ^ 32 - n) % 2 ^ 32 }

-- One page less to free; at the last one the activity has met its goal.
unfoldable pub towards_goal : ℕ → Activities → ℕ → Option Activities
towards_goal fuel s a =
    let v = s.activity a in
    let s' = with_activity s a (record v { free_goal = v.free_goal - 1 }) in
    let met = for_each_ancestor fuel no_test (exclude_less v.free_initial_allocation) s' a >>= λ t.
    some (with_activity t a (record (t.activity a) { free_allocations = 0 })) in
    if v.free_goal - 1 == 0 then met else some s'

unfoldable pub goal : ℕ → Frames → ℕ → Bool → Option Frames
goal fuel w a counted =
    let nearer = towards_goal fuel w.activities a >>= λ s. some (with_activities w s) in
    if counted && not ((w.activities.activity a).free_goal == 0) then nearer else some w

-- The lists that the descriptor leaves.
unfoldable pub leave_lists : ℕ → Frames → ℕ → Desc → ℕ → Bool → Bool → Option Frames
leave_lists fuel w d x a moved update_accounting =
    if x.eviction_candidate
    then if in_laundry x then leave_dirty fuel w d a moved update_accounting else leave_clean w d a
    else leave_list fuel w d a x moved update_accounting

-- The descriptor is disconnected from its old activity, if it has one.
unfoldable pub disconnect : ℕ → Frames → ℕ → Desc → Option ℕ → Option ℕ → Bool → Option Frames
disconnect fuel w d x none act update_accounting = some w
disconnect fuel w d x (some a) act update_accounting =
    leave_lists fuel w d x a (differs act a) update_accounting >>= λ w'.
    goal fuel w' a (is_anew x (differs act a) && update_accounting)

-- One allocation less before the activity is paged; at the last one the exclusion ends.
unfoldable pub use_allocation : ℕ → Activities → ℕ → Option Activities
use_allocation fuel s b =
    let v = s.activity b in
    let late = if v.free_goal == 0 then v.free_bad_karma else 8 in
    let s' = with_activity s b (record v { free_allocations = v.free_allocations - 1 }) in
    let s'' =
      with_activity s b
        (record v { free_allocations = v.free_allocations - 1; free_bad_karma = late }) in
    let over =
      for_each_ancestor fuel no_test (exclude_less v.free_initial_allocation) s'' b >>= λ t.
      some (with_activity t b (record (t.activity b) { free_goal = 0 })) in
    if v.free_allocations == 0
    then some s
    else if v.free_allocations - 1 == 0
    then over
    else some s'

-- The frame is charged to the activity.
unfoldable pub charge_frame : ℕ → Activities → ℕ → Option Activities
charge_frame fuel s b = activity_charge fuel s b 1 >>= λ s'. use_allocation fuel s' b

-- The descriptor with its new policy, of which the discardable bit is written last; object_age sets
-- the highest of the 8 bits of the age.
unfoldable pub claimed_desc : Desc → ObjectPolicy → ℕ → Desc
claimed_desc x policy b = record x {
  eviction_candidate = false;
  discardable = policy.discardable;
  priority = policy.priority;
  age = x.age / 2 + 128;
  activity = some b;
}

-- The object is put in front of the active ones of the activity.
unfoldable pub pushed : Frames → ℕ → Desc → ObjectPolicy → ℕ → Frames
pushed w d x policy b = record w {
  active = set_in w.active b policy.priority (d ∷ w.active b policy.priority);
  activity_node = λ e. if d == e then true else w.activity_node e;
  desc = λ e. if d == e then claimed_desc x policy b else w.desc e;
}

-- list_push of a node that is attached fails.
unfoldable pub push_active : Frames → ℕ → Desc → ObjectPolicy → ℕ → Option Frames
push_active w d x policy b = assert (not (w.activity_node d)) >> some (pushed w d x policy b)

-- `activity != desc->activity || (...)` for the new activity
unfoldable pub is_new : Desc → ℕ → Option ℕ → Bool
is_new x b none = true
is_new x b (some a) = is_anew x (differs (some b) a)

-- The descriptor is assigned to its new activity, if it has one.
unfoldable pub assign : ℕ → Frames → ℕ → Desc → Option ℕ → ObjectPolicy → Bool → Option Frames
assign fuel w d x none policy update_accounting = some w
assign fuel w d x (some b) policy update_accounting = push_active w d x policy b >>= λ w'.
    let accounted = charge_frame fuel w'.activities b >>= λ s. some (with_activities w' s) in
    if is_new x b x.activity && update_accounting then accounted else some w'

unfoldable pub is_some : Option ℕ → Bool
is_some none = false
is_some (some a) = true

-- The owner and the priority stay, and the object is no eviction candidate.
unfoldable pub owner_stays : Frames → Option ℕ → ℕ → ObjectPolicy → Bool
owner_stays w act d policy =
    is_owner (w.desc d).activity act
    && (not (w.desc d).eviction_candidate && (w.desc d).priority == policy.priority)

unfoldable pub kept : Frames → ℕ → ObjectPolicy → Frames
kept w d policy = record w {
  desc = λ e. if d == e then record (w.desc d) { discardable = policy.discardable } else w.desc e;
}

-- From the old activity to the new one.
unfoldable pub moves : ℕ → Frames → Option ℕ → ℕ → ObjectPolicy → Bool → Option Frames
moves fuel w act d policy update_accounting =
    disconnect fuel w d (w.desc d) (w.desc d).activity act update_accounting >>= λ w'.
    assign fuel w' d (w.desc d) act policy update_accounting

-- object_desc_claim
unfoldable pub object_desc_claim : ℕ → Frames → Option ℕ → ℕ → ObjectPolicy → Bool → Option Frames
object_desc_claim fuel w act d policy update_accounting =
    assert (is_some (w.desc d).activity || is_some act)
    >> (if owner_stays w act d policy
        then some (kept w d policy)
        else moves fuel w act d policy update_accounting)
