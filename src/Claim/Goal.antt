-- ===== src/Claim/Goal.antt =====
-- The goals of an activity that is to free frames: they are no part of the counts.
use viengoos.Activity.Alike.{
  Alike, Alike-trans, Alike-with_activity, Alike-IsPath, Updated-Alike, SameCounts, SameCounts-self,
}
use viengoos.Activity.Path.{IsPath, all_pass, for_each_ancestor-Updated}
use viengoos.Activity.{Activity, Activities, with_activity, for_each_ancestor, no_test}
use viengoos.Claim.{exclude_less, towards_goal, use_allocation}
use viengoos.Common.{
  ℕ, ◌-◌, ◌<◌, ◌≡◌, refl, some, List, ◌∷◌, length, ◌==◌, ◌>>=◌, if◌then◌else◌, Bool-cases, inl, inr,
}

-- Frames are taken out of the exclusion, and a last write follows.
excluded :
    (fuel n : ℕ) (s : Activities) (a : ℕ) (ups : List ℕ) (last : Activity → Activity)
    → length ups < fuel
    → IsPath s a ups
    → ((v : Activity) → SameCounts (last v) v)
    → (s' : Activities) × ((for_each_ancestor fuel no_test (exclude_less n) s a >>= λ t.
          some (with_activity t a (last (t.activity a))))
        ≡ some s')
      × Alike s s'
unfolding exclude_less
excluded fuel n s a ups last enough path same =
    let (t, ran, u) =
      for_each_ancestor-Updated fuel no_test (exclude_less n) s a ups enough (λ v. refl) path
        (all_pass (a ∷ ups)) in
    let t' = with_activity t a (last (t.activity a)) in
    (
      t',
      rw ran refl,
      Alike-trans s t t'
          (Updated-Alike (exclude_less n) (a ∷ ups) s t
            (λ v. record { parent = refl; local = refl; total = refl; pending = refl }) u)
          (Alike-with_activity t a (last (t.activity a)) (same (t.activity a))),
    )

pub towards_goal-Alike :
    (fuel : ℕ) (s : Activities) (a : ℕ) (ups : List ℕ)
    → length ups < fuel
    → IsPath s a ups
    → (s' : Activities) × (towards_goal fuel s a ≡ some s') × Alike s s'
unfolding towards_goal
towards_goal-Alike fuel s a ups enough path =
    let v = record (s.activity a) { free_goal = (s.activity a).free_goal - 1 } in
    let same : SameCounts v (s.activity a) = record {
      parent = refl;
      local = refl;
      total = refl;
      pending = refl;
    } in
    let s₁ = with_activity s a v in
    let one = Alike-with_activity s a v same in
    elim (Bool-cases ((s.activity a).free_goal - 1 == 0)) [
      | inl met ↦
          let (s', ran, two) =
            excluded fuel (s.activity a).free_initial_allocation s₁ a ups
              (λ v. record v { free_allocations = 0 }) enough (Alike-IsPath s s₁ a ups one path)
              (λ v. record { parent = refl; local = refl; total = refl; pending = refl }) in
          (s', rw met ran, Alike-trans s s₁ s' one two)
      | inr not_yet ↦ (s₁, rw not_yet refl, one)
    ]

pub use_allocation-Alike :
    (fuel : ℕ) (s : Activities) (b : ℕ) (ups : List ℕ)
    → length ups < fuel
    → IsPath s b ups
    → (s' : Activities) × (use_allocation fuel s b ≡ some s') × Alike s s'
unfolding use_allocation
use_allocation-Alike fuel s b ups enough path =
    let v = s.activity b in
    let late = if v.free_goal == 0 then v.free_bad_karma else 8 in
    let u = record v { free_allocations = v.free_allocations - 1 } in
    let u' = record v { free_allocations = v.free_allocations - 1; free_bad_karma = late } in
    let same : SameCounts u v = record {
      parent = refl;
      local = refl;
      total = refl;
      pending = refl;
    } in
    let same' : SameCounts u' v = record {
      parent = refl;
      local = refl;
      total = refl;
      pending = refl;
    } in
    let s₁ = with_activity s b u' in
    elim (Bool-cases (v.free_allocations == 0)) [
      | inl idle ↦ (s, rw idle refl, (refl, λ c. SameCounts-self (s.activity c)))
      | inr busy ↦ elim (Bool-cases (v.free_allocations - 1 == 0)) [
        | inl over ↦
            let (s', ran, two) =
              excluded fuel v.free_initial_allocation s₁ b ups (λ v. record v { free_goal = 0 })
                enough (Alike-IsPath s s₁ b ups (Alike-with_activity s b u' same') path)
                (λ v. record { parent = refl; local = refl; total = refl; pending = refl }) in
            (s', rw (busy, over) ran, Alike-trans s s₁ s' (Alike-with_activity s b u' same') two)
        | inr more ↦ (with_activity s b u, rw (busy, more) refl, Alike-with_activity s b u same)
      ]
    ]
