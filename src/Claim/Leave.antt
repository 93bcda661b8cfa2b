-- ===== src/Claim/Leave.antt =====
-- A descriptor leaves the lists of its activity: what the activities then count.
use viengoos.Activity.Alike.{Alike-Counted, SameCounts-self}
use viengoos.Activity.Charge.{Counted, count_if, activity_credit-Counted}
use viengoos.Claim.Accounts.{Accounts, below-ge, levels, owned, pending}
use viengoos.Claim.Laundry.{saved_dirty-Counted}
use viengoos.Claim.Left.{Left, Small, All_of, settled, suc_pos, pending_le, holds}
use viengoos.Claim.Lists.{list_unlink-Unlinked, detach-Detached}
use viengoos.Claim.Loosen.{
  dirty-Keeps, clean-Keeps, active-Keeps, inactive-Keeps, dirty-Loose, clean-Loose, active-Loose,
  inactive-Loose,
}
use viengoos.Claim.Owned.{
  Changes, active-Changes, inactive-Changes, dirty-Changes, set_at_self, set_at-other,
}
use viengoos.Claim.Places.{Keeps, Places, Loose, Keeps-activities, Loose-activities}
use viengoos.Claim.{
  Desc, Frames, in_laundry, is_anew, leave_dirty, leave_clean, leave_list, leave_lists, off_list,
  set_at, set_in, with_activities,
}
use viengoos.Common.{
  ℕ, ◌+◌, ◌≤◌, ◌<◌, ◌≡◌, refl, sym, ap, ◌∙◌, subst, arith, Bool, true, false, some, List, ◌∷◌, All,
  length, ◌==◌, if◌then◌else◌, Bool-cases, inl, inr, if_true, if_false,
}

pub leave_dirty-Left :
    (fuel n : ℕ) (ups : ℕ → List ℕ) (w : Frames) (d a : ℕ) (x : Desc) (moved : Bool)
    → a < n
    → length (ups a) < fuel
    → Accounts n ups (owned w) (pending w) w.activities
    → Small w.activities
    → Places w d x a
    → x.eviction_candidate ≡ true
    → in_laundry x ≡ true
    → (w' : Frames) × (leave_dirty fuel w d a moved true ≡ some w')
      × Left n ups d x a (if moved then 0 else 1) w w'
unfolding leave_dirty with_activities pending owned
leave_dirty-Left fuel n ups w d a x moved h enough acc small places ec il =
    let (l, done, u) = list_unlink-Unlinked w.laundry d (places.laundry ec ∙ rw il refl) in
    let (m, done', v) =
      list_unlink-Unlinked (w.eviction_dirty a) d (places.dirty a ∙ rw (il, ec) (ground arith)) in
    let (f, cleared, y) = detach-Detached w.laundry_node d (places.laundry_node ec) in
    let (g, cleared', z) = detach-Detached w.activity_node d places.activity_node in
    let c = dirty-Changes w a l m (sym v.shorter) in
    let one : 1 ≤ pending w a = suc_pos (length (w.eviction_dirty a)) (length m) v.shorter in
    let (s', ran, counted) =
      saved_dirty-Counted fuel moved w.activities a (ups a) enough (acc.paths a h)
        (omega (arith, acc.local a, pending_le w a, one), omega (arith, (small a).0))
        (holds n ups w a h acc small one) in
    let new = record w {
      laundry = l;
      laundry_node = f;
      eviction_dirty = set_at w.eviction_dirty a m;
      activity_node = g;
    } in
    let w' = record new { activities = s' } in
    (
      w',
      rw (done, cleared, done', cleared', ran) refl,
      settled n ups w w' d x a (if moved then 0 else 1) (count_if moved 1) 1 h acc counted c.others
          (taken moved (owned w' a) (owned w a) (c.here))
          (λ b ne. ap length (sym (set_at-other w.eviction_dirty a m b ne)))
          (omega (arith, v.shorter, ap length (set_at_self w.eviction_dirty a m)))
          (Keeps-activities d w new s' (dirty-Keeps w d a l m f g u v y z))
          (Loose-activities new d x s' (dirty-Loose w d a x l m f g u v y z places ec il)) refl,
    )
  where
    taken : (c : Bool) (x y : ℕ) → x + 1 ≡ y + 0 → x + (if c then 0 else 1) + count_if c 1 ≡ y
    taken true x y e = omega (arith, e)
    taken false x y e = omega (arith, e)

pub leave_clean-Left :
    (n : ℕ) (ups : ℕ → List ℕ) (w : Frames) (d a : ℕ) (x : Desc)
    → a < n
    → Accounts n ups (owned w) (pending w) w.activities
    → Places w d x a
    → x.eviction_candidate ≡ true
    → in_laundry x ≡ false
    → (w' : Frames) × (leave_clean w d a ≡ some w') × Left n ups d x a 0 w w'
unfolding leave_clean pending owned
leave_clean-Left n ups w d a x h acc places ec il =
    let (l, done, u) = list_unlink-Unlinked w.available d (places.available ec ∙ rw il refl) in
    let (m, done', v) =
      list_unlink-Unlinked (w.eviction_clean a) d (places.clean a ∙ rw (il, ec) (ground arith)) in
    let (f, cleared, y) = detach-Detached w.laundry_node d (places.laundry_node ec) in
    let (g, cleared', z) = detach-Detached w.activity_node d places.activity_node in
    let w' = record w {
      available = l;
      laundry_node = f;
      eviction_clean = set_at w.eviction_clean a m;
      activity_node = g;
    } in
    (
      w',
      rw (done, cleared, done', cleared') refl,
      settled n ups w w' d x a 0 0 0 h acc
          (Alike-Counted w.activities w.activities a (ups a)
            (refl, λ b. SameCounts-self (w.activities.activity b)))
          (λ b ne. refl) (omega arith) (λ b ne. refl) (omega arith)
          (clean-Keeps w d a l m f g u v y z) (clean-Loose w d a x l m f g u v y z places ec il)
          refl,
    )

-- A frame that is off the list of its priority, which the counts do not show yet.
record Taken (w : Frames) (d a : ℕ) (x : Desc) : Type 0 where
  new : Frames
  done : off_list w d a x ≡ some new
  changes : Changes w new a 0 1
  dirty : (b : ℕ) → pending w b ≡ pending new b
  keeps : Keeps d w new
  loose : Loose new d x
  same : new.desc ≡ w.desc
  activities : new.activities ≡ w.activities

off_list-Taken :
    (w : Frames) (d a : ℕ) (x : Desc)
    → x.priority < levels
    → Places w d x a
    → x.eviction_candidate ≡ false
    → Taken w d a x
unfolding off_list pending owned
off_list-Taken w d a x p places ec =
    let (g, cleared, z) = detach-Detached w.activity_node d places.activity_node in
    elim (Bool-cases (x.age == 0)) [
      | inl old ↦
          let (l, done, u) =
            list_unlink-Unlinked (w.inactive a x.priority) d
              (places.inactive a x.priority ∙ rw (ec, old) (ground arith)) in
          let c = inactive-Changes w a x.priority 0 1 l p (omega (arith, u.shorter)) in
          record {
            new = record w { inactive = set_in w.inactive a x.priority l; activity_node = g };
            done = rw (old, done, cleared) refl;
            changes = record { here = c.here; others = c.others };
            dirty = λ b. refl;
            keeps = inactive-Keeps w d a x.priority l g u z;
            loose = inactive-Loose w d a x l g u z places ec old;
            same = refl;
            activities = refl;
          }
      | inr young ↦
          let (l, done, u) =
            list_unlink-Unlinked (w.active a x.priority) d
              (places.active a x.priority ∙ rw (ec, young) (ground arith)) in
          let c = active-Changes w a x.priority 0 1 l p (omega (arith, u.shorter)) in
          record {
            new = record w { active = set_in w.active a x.priority l; activity_node = g };
            done = rw (young, done, cleared) refl;
            changes = record { here = c.here; others = c.others };
            dirty = λ b. refl;
            keeps = active-Keeps w d a x.priority l g u z;
            loose = active-Loose w d a x l g u z places ec young;
            same = refl;
            activities = refl;
          }
    ]

own_totals :
    (n : ℕ) (ups : ℕ → List ℕ) (w : Frames) (a : ℕ)
    → a < n
    → Accounts n ups (owned w) (pending w) w.activities
    → 1 ≤ owned w a
    → All (λ b. 1 ≤ (w.activities.activity b).frames_total) (a ∷ ups a)
own_totals n ups w a h acc one =
    All_of (λ b. 1 ≤ (w.activities.activity b).frames_total) (a ∷ ups a)
      (λ b i. omega (arith, below-ge n ups (owned w) a b h i, acc.total b, one))

pub leave_list-Left :
    (fuel n : ℕ) (ups : ℕ → List ℕ) (w : Frames) (d a : ℕ) (x : Desc) (moved : Bool)
    → a < n
    → length (ups a) < fuel
    → Accounts n ups (owned w) (pending w) w.activities
    → x.priority < levels
    → Places w d x a
    → x.eviction_candidate ≡ false
    → (w' : Frames) × (leave_list fuel w d a x moved true ≡ some w')
      × Left n ups d x a (if moved then 0 else 1) w w'
unfolding leave_list with_activities pending owned
leave_list-Left fuel n ups w d a x true h enough acc p i ec =
    let o = off_list-Taken w d a x p i ec in
    let one : 1 ≤ owned w a = omega (arith, o.changes.here) in
    let (s', ran, counted) =
      activity_credit-Counted fuel w.activities a 1 (ups a) enough (acc.paths a h)
        (omega (arith, acc.local a, one)) (own_totals n ups w a h acc one) in
    let w' = record o.new { activities = s' } in
    (
      w',
      rw (o.done, ran) refl,
      settled n ups w w' d x a 0 1 0 h acc counted o.changes.others (omega (arith, o.changes.here))
          (λ b ne. o.dirty b) (omega (arith, o.dirty a)) (Keeps-activities d w o.new s' o.keeps)
          (Loose-activities o.new d x s' o.loose) o.same,
    )
leave_list-Left fuel n ups w d a x false h enough acc p i ec =
    let o = off_list-Taken w d a x p i ec in
    (
      o.new,
      rw o.done refl,
      settled n ups w o.new d x a 1 0 0 h acc
          (subst (Counted a (ups a) 0 0 0 w.activities) (sym o.activities) (
            Alike-Counted w.activities w.activities a (ups a)
              (refl, λ b. SameCounts-self (w.activities.activity b))))
          o.changes.others (omega (arith, o.changes.here)) (λ b ne. o.dirty b)
          (omega (arith, o.dirty a)) o.keeps o.loose o.same,
    )

anew_lem :
    (moved : Bool) (x : Desc)
    → x.eviction_candidate ≡ true
    → in_laundry x ≡ false
    → true ≡ is_anew x moved
unfolding is_anew
anew_lem moved x e f = ground (arith, e, f)

-- The descriptor leaves its lists: if it is not counted anew, its frame is still counted.
pub leave_lists-Left :
    (fuel n : ℕ) (ups : ℕ → List ℕ) (w : Frames) (d a : ℕ) (x : Desc) (moved : Bool)
    → a < n
    → length (ups a) < fuel
    → Accounts n ups (owned w) (pending w) w.activities
    → Small w.activities
    → x.priority < levels
    → Places w d x a
    → (w' : Frames) × (leave_lists fuel w d x a moved true ≡ some w')
      × Left n ups d x a (if is_anew x moved then 0 else 1) w w'
unfolding leave_lists is_anew
leave_lists-Left fuel n ups w d a x moved h enough acc small p i =
    let dirty = leave_dirty fuel w d a moved true in
    let clean = leave_clean w d a in
    let listed = leave_list fuel w d a x moved true in
    let evicted = if in_laundry x then dirty else clean in
    elim (Bool-cases x.eviction_candidate) [
      | inl candidate ↦ elim (Bool-cases (in_laundry x)) [
        | inl laundry ↦
            let (w', ran, left) =
              leave_dirty-Left fuel n ups w d a x moved h enough acc small i candidate laundry in
            (
              w',
              if_true x.eviction_candidate evicted listed candidate
                  ∙ if_true (in_laundry x) dirty clean laundry
                  ∙ ran,
              subst (λ c. Left n ups d x a (if c then 0 else 1) w w')
                  (ground (arith, candidate, laundry)) left,
            )
        | inr other ↦
            let (w', ran, left) = leave_clean-Left n ups w d a x h acc i candidate other in
            (
              w',
              if_true x.eviction_candidate evicted listed candidate
                  ∙ if_false (in_laundry x) dirty clean other
                  ∙ ran,
              subst (λ c. Left n ups d x a (if c then 0 else 1) w w')
                  (anew_lem moved x candidate other) left,
            )
      ]
      | inr member ↦
          let (w', ran, left) = leave_list-Left fuel n ups w d a x moved h enough acc p i member in
          (
            w',
            if_false x.eviction_candidate evicted listed member ∙ ran,
            subst (λ c. Left n ups d x a (if c then 0 else 1) w w') (ground (arith, member)) left,
          )
    ]
