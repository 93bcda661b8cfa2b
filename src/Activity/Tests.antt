-- ===== src/Activity/Tests.antt =====
-- The theorems about activities at a root, 0, and an activity below it, 1.
use viengoos.Activity.Charge.{Counted, activity_charge-Counted}
use viengoos.Activity.Quota.{QuotaHeld, folio_quota-QuotaHeld, folio_release-folio_quota}
use viengoos.Activity.{
  Activity, Activities, activity_charge, folio_quota, folio_release, with_activity, reserve_folio,
  give_back, charged, full, one_more, one_less,
}
use viengoos.Common.{
  ℕ, ◌≡◌, ◌<◌, refl, arith, Bool, true, false, none, some, [], ◌∷◌, if◌then◌else◌, ◌==◌, ◌^◌,
}

abbrev blank : Activity
blank = record {
  parent = none;
  quota = 2;
  folio_count = 1;
  frames_local = 3;
  frames_total = 7;
  frames_pending_eviction = 0;
  claimed = 0;
  disowned = 0;
  free_bad_karma = 0;
  free_goal = 0;
  free_allocations = 0;
  free_initial_allocation = 0;
  frames_excluded = 0;
}

abbrev two : Activities
two = record {
  activity = λ a. if a == 1 then record blank { parent = some 0 } else blank;
  root = 0;
}

activity_charge-Counted_example :
    (s' : Activities) × (activity_charge 2 two 1 4 ≡ some s') × Counted 1 (0 ∷ []) 4 0 0 two s'
activity_charge-Counted_example =
    activity_charge-Counted 2 two 1 4 (0 ∷ []) (omega arith) (refl, (omega arith, tt), (refl, refl))
      (omega arith) (omega arith, (omega arith, tt))

small_counts : (b : ℕ) → (two.activity b).folio_count < 2 ^ 32
small_counts b = ground arith

folio_quota-QuotaHeld_example :
    (s' : Activities) × (allowed : Bool) × (folio_quota 2 two 1 ≡ some (s', allowed))
    × QuotaHeld two 1 (0 ∷ []) s' allowed
folio_quota-QuotaHeld_example =
    folio_quota-QuotaHeld 2 two 1 (0 ∷ []) (omega arith) (refl, (omega arith, tt), (refl, refl))
      small_counts

-- The activities once the folio is counted.
abbrev counted : Activities
counted =
    with_activity (with_activity two 1 (one_more (two.activity 1))) 0 (one_more (two.activity 0))

quota_run : folio_quota 2 two 1 ≡ some (counted, true)
unfolding folio_quota charged reserve_folio full one_more with_activity
quota_run = refl

folio_release-folio_quota_example :
    (s'' : Activities) × (folio_release 2 counted 1 ≡ some s'')
    × (s''.root ≡ two.root)
    × ((b : ℕ) → s''.activity b ≡ two.activity b)
folio_release-folio_quota_example =
    folio_release-folio_quota 2 two counted 1 (0 ∷ []) (omega arith)
      (refl, (omega arith, tt), (refl, refl)) small_counts quota_run

-- A quota that is used up at the root.
abbrev tight : Activities
tight = record {
  activity = λ a. if a == 1 then record blank { parent = some 0 } else record blank { quota = 1 };
  root = 0;
}

used_up :
    folio_quota 2 tight 1
    ≡ some (
      with_activity
          (with_activity tight 1 (one_more (tight.activity 1)))
          1
          (one_less (one_more (tight.activity 1))),
      false,
    )
unfolding folio_quota charged reserve_folio give_back full one_more one_less with_activity
used_up = refl
