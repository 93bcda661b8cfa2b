-- ===== src/Activity.antt =====
-- The activities that memory and storage are charged to: viengoos/activity.h, and the quota of folios
-- in folio_alloc and folio_free of viengoos/object.c. An activity is named by a number; the loops over
-- an activity and its ancestors take fuel. A failed assert is `none`. Of the statistics, those of the
-- current period are kept that a charge changes.
pub mod Path
pub mod Charge
pub mod Alike
pub mod Segment
pub mod Reserve
pub mod Quota
mod Tests
use viengoos.Common.{
  ℕ, zero, suc, ◌+◌, ◌-◌, ◌%◌, ◌^◌, Bool, true, false, not, ◌&&◌, Option, none, some, ltb, leb,
  ◌==◌, ◌>>=◌, ◌>>◌, assert, if◌then◌else◌,
}

-- struct activity; `quota` is policy.folios.
pub record Activity : Type 0 where
  pub parent : Option ℕ
  pub quota : ℕ
  pub folio_count : ℕ
  pub frames_local : ℕ
  pub frames_total : ℕ
  pub frames_pending_eviction : ℕ
  pub claimed : ℕ
  pub disowned : ℕ
  pub free_bad_karma : ℕ
  pub free_goal : ℕ
  pub free_allocations : ℕ
  pub free_initial_allocation : ℕ
  pub frames_excluded : ℕ

-- The activities in memory, and root_activity.
pub record Activities : Type 0 where
  pub activity : ℕ → Activity
  pub root : ℕ

-- A write of an activity's fields.
unfoldable pub with_activity : Activities → ℕ → Activity → Activities
with_activity s a v = record s { activity = λ x. if a == x then v else s.activity x }

-- The end of a round of activity_for_each_ancestor.
unfoldable pub to_parent :
    (Activities → ℕ → Option Activities) → Activities → ℕ → Option ℕ → Option Activities
to_parent rest s a none = assert (a == s.root) >> some s
to_parent rest s a (some b) = rest s b

-- activity_for_each_ancestor, where the code asserts `test` of an activity and then writes `update`
unfoldable pub for_each_ancestor :
    ℕ → (Activity → Bool) → (Activity → Activity) → Activities → ℕ → Option Activities
for_each_ancestor zero test update s a = none
for_each_ancestor (suc fuel) test update s a =
    let rest =
      to_parent (for_each_ancestor fuel test update) (with_activity s a (update (s.activity a))) a
        (update (s.activity a)).parent in
    assert (test (s.activity a)) >> rest

abbrev pub no_test : Activity → Bool
no_test v = true

unfoldable pub charge_total : ℕ → Activity → Activity
charge_total n v = record v {
  frames_total = (v.frames_total + n) % 2 ^ 32;
  claimed = (v.claimed + n) % 2 ^ 32;
}

-- activity_charge (activity, n)
unfoldable pub activity_charge : ℕ → Activities → ℕ → ℕ → Option Activities
activity_charge fuel s a n =
    let v = s.activity a in
    for_each_ancestor fuel no_test (charge_total n)
      (with_activity s a (record v { frames_local = (v.frames_local + n) % 2 ^ 32 })) a

unfoldable pub has_total : ℕ → Activity → Bool
has_total n v = leb n v.frames_total

unfoldable pub credit_total : ℕ → Activity → Activity
credit_total n v = record v {
  frames_total = v.frames_total - n;
  disowned = (v.disowned + n) % 2 ^ 32;
}

-- activity_charge (activity, -n), where n is not 0
unfoldable pub activity_credit : ℕ → Activities → ℕ → ℕ → Option Activities
activity_credit fuel s a n =
    let v = s.activity a in
    assert (leb n v.frames_local)
    >> for_each_ancestor fuel (has_total n) (credit_total n)
        (with_activity s a (record v { frames_local = v.frames_local - n })) a

-- The quota of the activity is used up.
unfoldable pub full : Activity → Bool
full v = not (v.quota == 0) && leb v.quota v.folio_count

unfoldable pub one_more : Activity → Activity
one_more v = record v { folio_count = (v.folio_count + 1) % 2 ^ 32 }

unfoldable pub one_less : Activity → Activity
one_less v = record v { folio_count = (v.folio_count + 2 ^ 32 - 1) % 2 ^ 32 }

-- The first loop of folio_alloc: the activities, and that of which the quota is used up.
unfoldable pub reserve_folio : ℕ → Activities → ℕ → Option (Activities × Option ℕ)
reserve_folio zero s a = none
reserve_folio (suc fuel) s a =
    let s' = with_activity s a (one_more (s.activity a)) in
    let above : Option (Activities × Option ℕ) = elim (s.activity a).parent [
      | none ↦ assert (a == s.root) >> some (s', none)
      | some b ↦ reserve_folio fuel s' b
    ] in
    if full (s.activity a) then some (s, some a) else above

-- The second loop of folio_alloc, up to the activity `stop`.
unfoldable pub give_back : ℕ → Activities → ℕ → ℕ → Option Activities
give_back zero s stop b = none
give_back (suc fuel) s stop b =
    let s' = with_activity s b (one_less (s.activity b)) in
    let above : Option Activities = elim (s.activity b).parent [
      | none ↦ assert (b == s.root) >> some s'
      | some c ↦ give_back fuel s' stop c
    ] in
    if b == stop then some s else above

unfoldable pub charged : ℕ → ℕ → Activities → Option ℕ → Option (Activities × Bool)
charged fuel a s none = some (s, true)
charged fuel a s (some stop) = give_back fuel s stop a >>= λ s'. some (s', false)

-- The accounting of folio_alloc: whether the quotas allow the folio.
unfoldable pub folio_quota : ℕ → Activities → ℕ → Option (Activities × Bool)
folio_quota fuel s a = reserve_folio fuel s a >>= λ r. charged fuel a r.0 r.1

-- The accounting of folio_free.
unfoldable pub folio_release : ℕ → Activities → ℕ → Option Activities
folio_release fuel s owner = for_each_ancestor fuel no_test one_less s owner
