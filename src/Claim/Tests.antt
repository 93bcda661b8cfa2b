-- ===== src/Claim/Tests.antt =====
-- object_desc_claim where the frame 5 goes from an activity to the root above it.
use viengoos.Activity.Charge.{count_if}
use viengoos.Activity.Path.{IsPath}
use viengoos.Activity.{
  Activity, Activities, activity_credit, for_each_ancestor, has_total, with_activity, to_parent,
  credit_total,
}
use viengoos.Claim.Accounts.{Accounts, below, owned, pending}
use viengoos.Claim.Claimed.{Claimed, object_desc_claim-Claimed}
use viengoos.Claim.Disconnect.{Owner}
use viengoos.Claim.Left.{Small}
use viengoos.Claim.Lists.{times}
use viengoos.Claim.Owned.{active-Changes}
use viengoos.Claim.Places.{Places}
use viengoos.Claim.Sum.{sum_below}
use viengoos.Claim.{
  Desc, Frames, ObjectPolicy, set_in, object_desc_claim, owner_stays, is_owner, is_some, moves,
  disconnect, assign, leave_lists, leave_list, off_list, list_unlink, detach, differs, goal,
  towards_goal, is_anew, with_activities, exclude_less,
}
use viengoos.Common.{
  ℕ, zero, suc, ◌≡◌, ◌<◌, refl, sym, subst, ◌∙◌, arith, true, false, ◌&&◌, Option, Bool-cases, inl,
  inr, none, some, List, [], ◌∷◌, if◌then◌else◌, ◌==◌, ◌>>=◌, length, ℕ_discrete, ap,
}

abbrev blank : Activity
blank = record {
  parent = none;
  quota = 0;
  folio_count = 0;
  frames_local = 0;
  frames_total = 0;
  frames_pending_eviction = 0;
  claimed = 0;
  disowned = 0;
  free_bad_karma = 0;
  free_goal = 0;
  free_allocations = 0;
  free_initial_allocation = 0;
  frames_excluded = 0;
}

abbrev two : Activities
two = record {
  activity = λ a.
      if a == 1
      then record blank { parent = some 0; frames_local = 1; frames_total = 1; free_goal = 1 }
      else if a == 0
      then record blank { frames_total = 1 }
      else blank;
  root = 0;
}

abbrev frame : Desc
frame = record {
  dirty = true;
  eviction_candidate = false;
  discardable = false;
  priority = 3;
  age = 1;
  activity = some 1;
}

abbrev listless : Frames
listless = record {
  activities = two;
  active = λ a p. [];
  inactive = λ a p. [];
  eviction_clean = λ a. [];
  eviction_dirty = λ a. [];
  laundry = [];
  available = [];
  desc = λ d. frame;
  activity_node = λ d. false;
  laundry_node = λ d. false;
}

abbrev one : Frames
one = record listless { active = set_in listless.active 1 3 (5 ∷ []); activity_node = λ d. d == 5 }

abbrev ups : ℕ → List ℕ
ups a = if a == 1 then 0 ∷ [] else []

nothing : (b : ℕ) → owned listless b ≡ 0
unfolding owned sum_below
nothing b = refl

owned-one : (b : ℕ) → owned one b ≡ count_if (b == 1) 1
unfolding owned
owned-one b =
    let c = active-Changes listless 1 3 1 0 (5 ∷ []) (omega arith) (omega arith) in
    elim (ℕ_discrete b 1) [
      | yes e ↦
          subst (λ b. owned one b ≡ count_if (b == 1) 1) (sym e) (omega (arith, c.here, nothing 1))
      | no ne ↦
          let other : (b == 1) ≡ false = ground arith in
          sym (c.others b ne) ∙ nothing b ∙ ap (λ t. count_if t 1) (sym other)
    ]

paths : (a : ℕ) → a < 2 → IsPath two a (ups a)
paths zero h = (refl, refl)
paths (suc zero) h = (refl, (omega arith, tt), (refl, refl))
paths (suc (suc n)) h = absurd (omega (arith, h))

accounts : Accounts 2 ups (owned one) (pending one) two
unfolding below sum_below pending
accounts = record {
  paths = paths;
  local = λ b. ground (arith, owned-one b);
  total = λ b. ground (arith, owned-one 0, owned-one 1);
  pend = λ b. ground arith;
}

small : Small two
small b = ground arith

abbrev policy : ObjectPolicy
policy = record { discardable = true; priority = 9 }

five_there : Places one 5 frame 1
unfolding times set_in
five_there = record {
  active = λ b q. elim (Bool-cases (1 == b && 3 == q)) [ inl e ↦ rw e refl | inr n ↦ rw n refl ];
  inactive = λ b q. ground arith;
  dirty = λ b. ground arith;
  clean = λ b. ground arith;
  activity_node = refl;
  laundry = λ e. absurd (ground (arith, e));
  available = λ e. absurd (ground (arith, e));
  laundry_node = λ e. absurd (ground (arith, e));
}

owner : (act : Option ℕ) → Owner 2 one 5 frame (some 1) act
owner act = (omega arith, omega arith, five_there)

in_range : (b : ℕ) → some 0 ≡ some b → b < 2
in_range b e = ground (arith, e)

fuel_enough : (a : ℕ) → a < 2 → length (ups a) < 3
fuel_enough a h = ground arith

object_desc_claim-Claimed_example :
    (w' : Frames) × (object_desc_claim 3 one (some 0) 5 policy true ≡ some w')
    × Claimed 2 ups 5 policy (some 0) one w'
object_desc_claim-Claimed_example =
    object_desc_claim-Claimed 3 2 ups one (some 0) 5 policy fuel_enough (omega arith) in_range
      accounts small (owner (some 0))

-- The frame is given up: it leaves its list.
given_up : (object_desc_claim 3 one none 5 policy true >>= λ w. some (w.active 1 3)) ≡ some []
unfolding object_desc_claim owner_stays is_owner is_some moves disconnect assign leave_lists
    leave_list off_list list_unlink detach set_in differs goal towards_goal is_anew with_activities
    activity_credit for_each_ancestor has_total with_activity to_parent credit_total exclude_less
given_up = refl
