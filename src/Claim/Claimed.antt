-- ===== src/Claim/Claimed.antt =====
-- object_desc_claim as a whole, from the counts before it to those after it.
use viengoos.Activity.Charge.{count_if}
use viengoos.Claim.Assign.{assign-Accounts}
use viengoos.Claim.Accounts.{Accounts, levels, owned, pending}
use viengoos.Claim.Enter.{Accounts-Alike}
use viengoos.Claim.Left.{Small}
use viengoos.Claim.Disconnect.{Owner, in_flight, disconnect-Disconnected}
use viengoos.Claim.Places.{Keeps, Keeps-trans, Places, Saved, Loose}
use viengoos.Claim.{
  Desc, Frames, ObjectPolicy, is_anew, is_new, is_owner, is_some, differs, claimed_desc, pushed,
  disconnect, assign, object_desc_claim, owner_stays, kept, moves,
}
use viengoos.Activity.Alike.{SameCounts-self}
use viengoos.Common.{
  ℕ, ◌+◌, ◌<◌, ◌≡◌, ◌≢◌, refl, ap, ◌∙◌, subst, arith, true, false, not, ◌&&◌, ◌||◌, Option, none,
  some, List, length, ◌==◌, ◌>>=◌, ◌>>◌, assert, if◌then◌else◌, Bool-cases, inl, inr, if_true, sym,
  if_false,
}

-- What the claim leaves of the descriptor, and where it then is.
abbrev pub Assigned : Frames → Frames → ℕ → ObjectPolicy → Option ℕ → Type 0
Assigned w w' d policy none = (w'.desc d ≡ w.desc d) × Loose w' d (w.desc d)
Assigned w w' d policy (some b) =
    ((w'.desc d).activity ≡ some b)
    × ((w'.desc d).eviction_candidate ≡ false)
    × ((w'.desc d).priority ≡ policy.priority)
    × ((w'.desc d).discardable ≡ policy.discardable)
    × Places w' d (w'.desc d) b

-- The counts are right, the descriptor is assigned, and no other one was moved or changed.
pub record Claimed (n : ℕ) (ups : ℕ → List ℕ) (d : ℕ) (policy : ObjectPolicy) (act : Option ℕ)
    (w w' : Frames) : Type 0 where
  pub accounts : Accounts n ups (owned w') (pending w') w'.activities
  pub assigned : Assigned w w' d policy act
  pub saved : (w.desc d).eviction_candidate ≡ true → Saved w' d
  pub keeps : Keeps d w w'
  pub others : (e : ℕ) → d ≢ e → w'.desc e ≡ w.desc e

claim_lem :
    (fuel : ℕ) (w : Frames) (act : Option ℕ) (d : ℕ) (policy : ObjectPolicy)
    → (is_some (w.desc d).activity || is_some act) ≡ true
    → object_desc_claim fuel w act d policy true ≡ (
        if owner_stays w act d policy
        then some (kept w d policy)
        else moves fuel w act d policy true)
unfolding object_desc_claim
claim_lem fuel w act d policy e =
    let rest =
      if owner_stays w act d policy
      then some (kept w d policy)
      else moves fuel w act d policy true in
    ap (λ c. assert c >> rest) e

in_flight_lem :
    (x : Desc) (o : Option ℕ) (b c : ℕ)
    → in_flight x o (some b) c ≡ count_if (b == c) (if is_new x b o then 0 else 1)
unfolding is_new is_anew differs
in_flight_lem x none b c = ground arith
in_flight_lem x (some a) b c = ground arith

owner_lem : (o : Option ℕ) (b : ℕ) → is_owner o (some b) ≡ true → o ≡ some b
unfolding is_owner differs
owner_lem none b e = absurd (ground (arith, e))
owner_lem (some a) b e = ground (arith, e)

is_some_lem :
    (n : ℕ) (w : Frames) (d : ℕ) (x : Desc) (o act : Option ℕ)
    → Owner n w d x o act
    → (is_some o || is_some act) ≡ true
unfolding is_some
is_some_lem n w d x none act h = h.0
is_some_lem n w d x (some a) act h = refl

-- The owner is given up.
given_up :
    (fuel n : ℕ) (ups : ℕ → List ℕ) (w : Frames) (d : ℕ) (o : Option ℕ) (policy : ObjectPolicy)
    → (w.desc d).activity ≡ o
    → ((a : ℕ) → a < n → length (ups a) < fuel)
    → Accounts n ups (owned w) (pending w) w.activities
    → Small w.activities
    → Owner n w d (w.desc d) o none
    → (w' : Frames) × (object_desc_claim fuel w none d policy true ≡ some w')
      × Claimed n ups d policy none w w'
unfolding assign moves owner_stays is_owner is_some differs is_anew
given_up fuel n ups w d none policy e enough acc small owner = absurd (ground (arith, owner.0))
given_up fuel n ups w d (some a) policy e enough acc small owner =
    let x = w.desc d in
    let (w', ran, dis) =
      disconnect-Disconnected fuel n ups w d x (some a) none enough acc small owner in
    let stay : owner_stays w none d policy ≡ false =
      ap (λ o. is_owner o none && (not x.eviction_candidate && x.priority == policy.priority)) e in
    (
      w',
      claim_lem fuel w none d policy (ap (λ o. is_some o || false) e)
          ∙ if_false (owner_stays w none d policy) (some (kept w d policy))
              (moves fuel w none d policy true) stay
          ∙ ap (λ o. disconnect fuel w d x o none true >>= λ w'. some w') e
          ∙ ap (λ r. r >>= λ w'. some w') ran,
      record {
        accounts =
            Accounts-Alike n ups (λ c. owned w' c + count_if (a == c) 0) (pending w') (owned w')
              w'.activities w'.activities a owner.0 dis.accounts
              (refl, λ b. SameCounts-self (w'.activities.activity b)) (λ b. ground arith);
        assigned = (ap (λ f. f d) dis.same, dis.loose);
        saved = dis.loose.saved;
        keeps = dis.keeps;
        others = λ f ne. ap (λ g. g f) dis.same;
      },
    )

-- The descriptor goes to the list of `b`.
taken :
    (fuel n : ℕ) (ups : ℕ → List ℕ) (w : Frames) (d b : ℕ) (policy : ObjectPolicy)
    → b < n
    → ((a : ℕ) → a < n → length (ups a) < fuel)
    → policy.priority < levels
    → Accounts n ups (owned w) (pending w) w.activities
    → Small w.activities
    → Owner n w d (w.desc d) (w.desc d).activity (some b)
    → owner_stays w (some b) d policy ≡ false
    → (w' : Frames) × (object_desc_claim fuel w (some b) d policy true ≡ some w')
      × Claimed n ups d policy (some b) w w'
unfolding moves pushed claimed_desc
taken fuel n ups w d b policy h enough p acc small owner away =
    let x = w.desc d in
    let (w₁, ran, dis) =
      disconnect-Disconnected fuel n ups w d x x.activity (some b) enough acc small owner in
    let (w', ran', acc', desc, keeps, places, saved) =
      assign-Accounts fuel n ups w₁ d x policy b (in_flight x x.activity (some b)) x h (enough b h)
        dis.accounts dis.room dis.loose p (in_flight_lem x x.activity b) in
    let first : (d == d) ≡ true = ground arith in
    let now : w'.desc d ≡ claimed_desc x policy b =
      ap (λ f. f d) desc ∙ if_true (d == d) (claimed_desc x policy b) (w₁.desc d) first in
    (
      w',
      claim_lem fuel w (some b) d policy (is_some_lem n w d x x.activity (some b) owner)
          ∙ if_false (owner_stays w (some b) d policy) (some (kept w d policy))
              (moves fuel w (some b) d policy true) away
          ∙ ap (λ r. r >>= λ w'. assign fuel w' d x (some b) policy true) ran
          ∙ ran',
      record {
        accounts = acc';
        assigned = (
          ap (λ y. y.activity) now,
          ap (λ y. y.eviction_candidate) now,
          ap (λ y. y.priority) now,
          ap (λ y. y.discardable) now,
          subst (λ y. Places w' d y b) (sym now) places,
        );
        saved = λ e. saved (dis.loose.saved e);
        keeps = Keeps-trans d w w₁ w' dis.keeps keeps;
        others = λ e ne.
            ap (λ f. f e) desc
            ∙ if_false (d == e) (claimed_desc x policy b) (w₁.desc e) (ground arith)
            ∙ ap (λ f. f e) dis.same;
      },
    )

-- The owner keeps it: only the discardable bit is written.
left_there :
    (n : ℕ) (ups : ℕ → List ℕ) (w : Frames) (d b : ℕ) (policy : ObjectPolicy)
    → Accounts n ups (owned w) (pending w) w.activities
    → Owner n w d (w.desc d) (some b) (some b)
    → (w.desc d).activity ≡ some b
    → (w.desc d).eviction_candidate ≡ false
    → (w.desc d).priority ≡ policy.priority
    → Claimed n ups d policy (some b) w (kept w d policy)
unfolding kept owned pending
left_there n ups w d b policy acc owner e f g =
    let x = w.desc d in
    let y = record x { discardable = policy.discardable } in
    let w' = kept w d policy in
    let first : (d == d) ≡ true = ground arith in
    let now : w'.desc d ≡ y = if_true (d == d) y x first in
    record {
      accounts = record {
        paths = acc.paths;
        local = acc.local;
        total = acc.total;
        pend = acc.pend;
      };
      assigned = (
        ap (λ z. z.activity) now ∙ e,
        ap (λ z. z.eviction_candidate) now ∙ f,
        ap (λ z. z.priority) now ∙ g,
        ap (λ z. z.discardable) now,
        subst (λ z. Places w' d z b) (sym now) (same f owner.2),
      );
      saved = λ c. absurd (ground (arith, c, f));
      keeps = record {
        laundry = λ e ne. refl;
        available = λ e ne. refl;
        dirty = λ b e ne. refl;
        clean = λ b e ne. refl;
        active = λ b q e ne. refl;
        inactive = λ b q e ne. refl;
        activity_node = λ e ne. refl;
        laundry_node = λ e ne. refl;
      };
      others = λ e ne. if_false (d == e) y (w.desc e) (ground arith);
    }
  where
    same :
        (w.desc d).eviction_candidate ≡ false
        → Places w d (w.desc d) b
        → Places (kept w d policy) d (record (w.desc d) { discardable = policy.discardable }) b
    same f p = record {
      active = p.active;
      inactive = p.inactive;
      dirty = λ c. p.dirty c ∙ rw f (ground arith);
      clean = λ c. p.clean c ∙ rw f (ground arith);
      activity_node = p.activity_node;
      laundry = λ e. absurd (ground (arith, e, f));
      available = λ e. absurd (ground (arith, e, f));
      laundry_node = λ e. absurd (ground (arith, e, f));
    }

-- Where the frames_local of each activity is the length of its active, inactive and dirty
-- eviction lists, and its frames_total and frames_pending_eviction are the sums of those lengths
-- over it and the activities below it, and these counts have room for one more frame,
-- object_desc_claim with accounting, for an activity in memory or for none, with priorities in
-- their range, on fuel above the number of the ancestors of any activity, of a descriptor that
-- is once on each list that its state asks for, on no other list of an activity and with the
-- nodes attached, or that has no activity, is claimed for one, is on no list of any activity
-- with its node clear and, if it is an eviction candidate, not in the laundry or available, ends
-- without a failed assert and the counts are right again. Claimed for an activity, the
-- descriptor has it as its own, the new policy and no candidacy, and is once on the list of that
-- activity that its new state asks for, and on no other list of an activity; claimed for none,
-- it is on no list of any activity, its node is clear, and its fields are as before. If it was
-- an eviction candidate, it is in neither the laundry nor available. No other descriptor changes
-- or moves.
pub object_desc_claim-Claimed :
    (fuel n : ℕ) (ups : ℕ → List ℕ) (w : Frames) (act : Option ℕ) (d : ℕ) (policy : ObjectPolicy)
    → ((a : ℕ) → a < n → length (ups a) < fuel)
    → policy.priority < levels
    → ((b : ℕ) → act ≡ some b → b < n)
    → Accounts n ups (owned w) (pending w) w.activities
    → Small w.activities
    → Owner n w d (w.desc d) (w.desc d).activity act
    → (w' : Frames) × (object_desc_claim fuel w act d policy true ≡ some w')
      × Claimed n ups d policy act w w'
unfolding owner_stays
object_desc_claim-Claimed fuel n ups w none d policy enough p h acc small owner =
    given_up fuel n ups w d (w.desc d).activity policy refl enough acc small owner
object_desc_claim-Claimed fuel n ups w (some b) d policy enough p h acc small owner =
    let x = w.desc d in
    elim (Bool-cases (owner_stays w (some b) d policy)) [
      | inr away ↦ taken fuel n ups w d b policy (h b refl) enough p acc small owner away
      | inl stay ↦
          let mine : x.activity ≡ some b = owner_lem x.activity b (ground (arith, stay)) in
          (
            kept w d policy,
            claim_lem fuel w (some b) d policy (is_some_lem n w d x x.activity (some b) owner)
                ∙ if_true (owner_stays w (some b) d policy) (some (kept w d policy))
                    (moves fuel w (some b) d policy true) stay,
            left_there n ups w d b policy acc (subst (λ o. Owner n w d x o (some b)) mine owner)
                mine (ground (arith, stay)) (ground (arith, stay)),
          )
    ]
