-- ===== src/Claim/Assign.antt =====
-- The last part of object_desc_claim: the descriptor is assigned to its new activity.
use viengoos.Activity.Charge.{count_if}
use viengoos.Claim.Accounts.{Accounts, levels, owned, pending}
use viengoos.Claim.Enter.{
  Accounts-Alike, pushed-Changes, pushed-Keeps, pushed-Places, charge_frame-Accounts,
}
use viengoos.Claim.Left.{Room}
use viengoos.Claim.Places.{Keeps, Places, Saved, Loose, Keeps-activities, Places-activities}
use viengoos.Claim.{
  Desc, Frames, ObjectPolicy, with_activities, is_new, charge_frame, claimed_desc, pushed,
  push_active, assign,
}
use viengoos.Activity.Alike.{SameCounts-self}
use viengoos.Common.{
  ℕ, ◌+◌, ◌<◌, ◌≡◌, ◌≢◌, refl, sym, ap, ◌∙◌, subst, arith, Bool, true, false, ◌&&◌, some, List,
  length, ◌==◌, ◌>>=◌, if◌then◌else◌, Bool-cases, inl, inr, if_true, if_false, ℕ_discrete,
}

assign_lem :
    (fuel : ℕ) (w : Frames) (d : ℕ) (x : Desc) (policy : ObjectPolicy) (b : ℕ)
    → w.activity_node d ≡ false
    → assign fuel w d x (some b) policy true ≡ (
        let w' = pushed w d x policy b in
        let accounted = charge_frame fuel w'.activities b >>= λ s. some (with_activities w' s) in
        if is_new x b x.activity && true then accounted else some w')
unfolding assign push_active
assign_lem fuel w d x policy b e = rw e refl

-- The descriptor is put on the list of `b`: its frame is counted, unless it was counted all along.
pub assign-Accounts :
    (fuel n : ℕ) (ups : ℕ → List ℕ) (w : Frames) (d : ℕ) (x : Desc) (policy : ObjectPolicy) (b : ℕ)
    (flight : ℕ → ℕ) (y : Desc)
    → b < n
    → length (ups b) < fuel
    → Accounts n ups (λ c. owned w c + flight c) (pending w) w.activities
    → Room w.activities
    → Loose w d y
    → policy.priority < levels
    → ((c : ℕ) → flight c ≡ count_if (b == c) (if is_new x b x.activity then 0 else 1))
    → (w' : Frames) × (assign fuel w d x (some b) policy true ≡ some w')
      × Accounts n ups (owned w') (pending w') w'.activities
      × (w'.desc ≡ (pushed w d x policy b).desc)
      × Keeps d w w'
      × Places w' d (claimed_desc x policy b) b
      × (Saved w d → Saved w' d)
unfolding with_activities owned pending pushed
assign-Accounts fuel n ups w d x policy b flight y h enough acc room l p counted =
    let w₁ = pushed w d x policy b in
    let c = pushed-Changes w d x policy b p in
    let k = pushed-Keeps w d x policy b in
    let placed = pushed-Places w d x y policy b l in
    let run = assign_lem fuel w d x policy b l.activity_node in
    let charge = charge_frame fuel w₁.activities b >>= λ s. some (record w₁ { activities = s }) in
    elim (Bool-cases (is_new x b x.activity)) [
      | inl anew ↦
          let none_yet : (c : ℕ) → flight c ≡ 0 = λ c.
            counted c
            ∙ ap (λ t. count_if (b == c) (if t then 0 else 1)) anew
            ∙ no_frames (b == c) in
          let (s, ran, acc') =
            charge_frame-Accounts fuel n ups (λ c. owned w c + flight c) (owned w₁) (pending w)
              w.activities b h enough acc room (λ e ne. omega (arith, c.others e ne, none_yet e))
              (omega (arith, c.here, none_yet b)) in
          (
            record w₁ { activities = s },
            run
                ∙ if_true (is_new x b x.activity && true) charge (some w₁) (rw anew refl)
                ∙ rw ran refl,
            acc',
            refl,
            Keeps-activities d w w₁ s k,
            Places-activities w₁ d (claimed_desc x policy b) b s placed,
            λ o. record {
              laundry = o.laundry;
              available = o.available;
              laundry_node = o.laundry_node;
            },
          )
      | inr old ↦
          let held : (c : ℕ) → flight c ≡ count_if (b == c) 1 =
            λ c. counted c ∙ ap (λ t. count_if (b == c) (if t then 0 else 1)) old in
          (
            w₁,
            run ∙ if_false (is_new x b x.activity && true) charge (some w₁) (rw old refl),
            Accounts-Alike n ups (λ c. owned w c + flight c) (pending w) (owned w₁) w.activities
                w.activities b h acc (refl, λ a. SameCounts-self (w.activities.activity a))
                (λ e. same_owned e held),
            refl,
            k,
            placed,
            λ o. record {
              laundry = o.laundry;
              available = o.available;
              laundry_node = o.laundry_node;
            },
          )
    ]
  where
    no_frames : (c : Bool) → count_if c 0 ≡ 0
    no_frames true = refl
    no_frames false = refl

    same_owned :
        (e : ℕ)
        → ((c : ℕ) → flight c ≡ count_if (b == c) 1)
        → owned w e + flight e ≡ owned (pushed w d x policy b) e
    same_owned e held = elim (ℕ_discrete b e) [
      | yes s ↦
          subst (λ e. owned w e + flight e ≡ owned (pushed w d x policy b) e) s
            (omega (
              arith,
              (pushed-Changes w d x policy b p).here,
              held b ∙ ap (λ t. count_if t 1) (self b),
            ))
      | no ne ↦ omega (
        arith,
        (pushed-Changes w d x policy b p).others e (λ q. ne (sym q)),
        held e ∙ ap (λ t. count_if t 1) (other b e ne),
      )
    ]
      where
        self : (b : ℕ) → (b == b) ≡ true
        self b = ground arith

        other : (b e : ℕ) → b ≢ e → (b == e) ≡ false
        other b e ne = ground arith
