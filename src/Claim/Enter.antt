-- ===== src/Claim/Enter.antt =====
-- A descriptor is put on the list of its new activity, and its frame is counted.
use viengoos.Activity.Alike.{Alike, Alike-Counted}
use viengoos.Activity.Charge.{count_if, activity_charge-Counted}
use viengoos.Activity.{Activities}
use viengoos.Claim.Accounts.{Accounts, Counted-Accounts, levels, owned, pending}
use viengoos.Claim.Goal.{towards_goal-Alike, use_allocation-Alike}
use viengoos.Claim.Left.{Left, Room}
use viengoos.Claim.Lists.{times}
use viengoos.Claim.Owned.{Changes, active-Changes}
use viengoos.Claim.Places.{Keeps, Places, Loose, Keeps-activities, Loose-activities, set_in-keeps}
use viengoos.Claim.{
  Desc, Frames, ObjectPolicy, set_in, with_activities, goal, towards_goal, charge_frame,
  claimed_desc, pushed,
}
use viengoos.Common.{
  ℕ, ◌+◌, ◌/◌, ◌^◌, ◌<◌, ◌≡◌, ◌≢◌, refl, ◌∙◌, arith, Bool, true, false, not, ◌&&◌, some, List, [],
  ◌∷◌, All, length, ◌==◌, ◌>>=◌, Bool-cases, inl, inr, if_true, if_false,
}

-- The counts stay right where the activities change in other fields, and where what they own is
-- said in another way.
pub Accounts-Alike :
    (n : ℕ) (ups : ℕ → List ℕ) (own held own' : ℕ → ℕ) (s s' : Activities) (a : ℕ)
    → a < n
    → Accounts n ups own held s
    → Alike s s'
    → ((b : ℕ) → own b ≡ own' b)
    → Accounts n ups own' held s'
Accounts-Alike n ups own held own' s s' a h acc same eq =
    Counted-Accounts n ups own held own' held s s' a 0 0 0 h acc (Alike-Counted s s' a (ups a) same)
      (λ b _. eq b) (omega (arith, eq a)) (λ b _. refl) (omega arith)

pub goal-Left :
    (fuel n : ℕ) (ups : ℕ → List ℕ) (w w' : Frames) (d : ℕ) (x : Desc) (a e : ℕ) (counted : Bool)
    → a < n
    → length (ups a) < fuel
    → Left n ups d x a e w w'
    → (w'' : Frames) × (goal fuel w' a counted ≡ some w'') × Left n ups d x a e w w''
unfolding goal with_activities owned pending
goal-Left fuel n ups w w' d x a e counted h enough left =
    elim (Bool-cases (counted && not ((w'.activities.activity a).free_goal == 0))) [
      | inl met ↦
          let (s, ran, same) =
            towards_goal-Alike fuel w'.activities a (ups a) enough (left.accounts.paths a h) in
          (
            record w' { activities = s },
            if_true (counted && not ((w'.activities.activity a).free_goal == 0))
                  (towards_goal fuel w'.activities a >>= λ s. some (record w' { activities = s }))
                  (some w') met
                ∙ rw ran refl,
            record {
              accounts =
                  Accounts-Alike n ups (λ b. owned w' b + count_if (a == b) e) (pending w')
                    (λ b. owned w' b + count_if (a == b) e) w'.activities s a h left.accounts same
                    (λ b. refl);
              local = λ b. omega (arith, left.local b, (same.1 b).local);
              total = λ b. omega (arith, left.total b, (same.1 b).total);
              keeps = Keeps-activities d w w' s left.keeps;
              loose = Loose-activities w' d x s left.loose;
              same = left.same;
            },
          )
      | inr other ↦ (
        w',
        if_false (counted && not ((w'.activities.activity a).free_goal == 0))
            (towards_goal fuel w'.activities a >>= λ s. some (record w' { activities = s }))
            (some w') other,
        left,
      )
    ]

pub pushed-Changes :
    (w : Frames) (d : ℕ) (x : Desc) (policy : ObjectPolicy) (b : ℕ)
    → policy.priority < levels
    → Changes w (pushed w d x policy b) b 1 0
unfolding pushed owned
pushed-Changes w d x policy b p =
    let c =
      active-Changes w b policy.priority 1 0 (d ∷ w.active b policy.priority) p (omega arith) in
    record { here = c.here; others = c.others }

pub pushed-Keeps :
    (w : Frames) (d : ℕ) (x : Desc) (policy : ObjectPolicy) (b : ℕ)
    → Keeps d w (pushed w d x policy b)
unfolding pushed times
pushed-Keeps w d x policy b = record {
  laundry = λ e ne. refl;
  available = λ e ne. refl;
  dirty = λ b e ne. refl;
  clean = λ b e ne. refl;
  active = λ c q e ne.
      set_in-keeps w.active b policy.priority (d ∷ w.active b policy.priority) c q e (ground arith);
  inactive = λ b q e ne. refl;
  activity_node = λ e ne. ground arith;
  laundry_node = λ e ne. refl;
}

-- The descriptor that was pushed is where its new state asks for.
pub pushed-Places :
    (w : Frames) (d : ℕ) (x y : Desc) (policy : ObjectPolicy) (b : ℕ)
    → Loose w d y
    → Places (pushed w d x policy b) d (claimed_desc x policy b) b
unfolding pushed claimed_desc times set_in
pushed-Places w d x y policy b l =
    let young : ((x.age / 2 + 128) == 0) ≡ false = ground arith in
    let first : (d == d) ≡ true = ground arith in
    record {
      active = λ c q. elim (Bool-cases (b == c && policy.priority == q)) [
        | inl e ↦ rw (e, first, young, l.active b policy.priority) refl
        | inr n ↦ rw n (l.active c q)
      ];
      inactive = λ c q. l.inactive c q ∙ rw young (ground arith);
      dirty = λ c. l.dirty c ∙ ground arith;
      clean = λ c. l.clean c ∙ ground arith;
      activity_node = rw first refl;
      laundry = λ e. absurd (ground (arith, e));
      available = λ e. absurd (ground (arith, e));
      laundry_node = λ e. absurd (ground (arith, e));
    }

-- A frame that is counted anew.
pub charge_frame-Accounts :
    (fuel n : ℕ) (ups : ℕ → List ℕ) (own own' held : ℕ → ℕ) (s : Activities) (b : ℕ)
    → b < n
    → length (ups b) < fuel
    → Accounts n ups own held s
    → Room s
    → ((c : ℕ) → c ≢ b → own c ≡ own' c)
    → own' b + 0 ≡ own b + 1
    → (s' : Activities) × (charge_frame fuel s b ≡ some s') × Accounts n ups own' held s'
unfolding charge_frame
charge_frame-Accounts fuel n ups own own' held s b h enough acc small others here =
    let (s₁, ran, counted) =
      activity_charge-Counted fuel s b 1 (ups b) enough (acc.paths b h) (small b).0
        (room (b ∷ ups b)) in
    let acc₁ =
      Counted-Accounts n ups own held own' held s s₁ b 1 0 0 h acc counted others here (λ c _. refl)
        (omega arith) in
    let (s', ran', same) = use_allocation-Alike fuel s₁ b (ups b) enough (acc₁.paths b h) in
    (s', rw ran ran', Accounts-Alike n ups own' held own' s₁ s' b h acc₁ same (λ c. refl))
  where
    room : (xs : List ℕ) → All (λ b. (s.activity b).frames_total + 1 < 2 ^ 32) xs
    room [] = tt
    room (x ∷ xs) = ((small x).1, room xs)
