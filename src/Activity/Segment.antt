-- ===== src/Activity/Segment.antt =====
-- The second loop of folio_alloc, over the first part of a path.
use viengoos.Activity.Path.{Updated, Updated-cons, with_activity-parent}
use viengoos.Activity.{Activities, with_activity, one_less, give_back}
use viengoos.Common.{
  ℕ, zero, suc, ◌<◌, ◌≡◌, ◌≢◌, refl, ap, ◌∙◌, arith, false, Option, none, some, List, [], ◌∷◌, All,
  length, ◌==◌, ◌>>◌, assert, if_false,
}

abbrev pub head_of : List ℕ → ℕ → ℕ
head_of [] c = c
head_of (x ∷ xs) c = x

-- The activities from the first one up to, and without, `c`.
abbrev pub IsSegment : Activities → List ℕ → ℕ → Type 0
IsSegment s [] c = Unit {0}
IsSegment s (x ∷ xs) c =
    ((s.activity x).parent ≡ some (head_of xs c)) × (x ≢ c) × All (λ z. x ≢ z) xs × IsSegment s xs c

pub IsSegment-same :
    (s s' : Activities) (xs : List ℕ) (c : ℕ)
    → ((b : ℕ) → (s'.activity b).parent ≡ (s.activity b).parent)
    → IsSegment s xs c
    → IsSegment s' xs c
IsSegment-same s s' [] c h p = tt
IsSegment-same s s' (x ∷ xs) c h (p, ne, nes, rest) =
    (h x ∙ p, ne, nes, IsSegment-same s s' xs c h rest)

pub give_back-Updated :
    (fuel : ℕ) (s : Activities) (xs : List ℕ) (c : ℕ)
    → length xs < fuel
    → IsSegment s xs c
    → (s' : Activities) × (give_back fuel s c (head_of xs c) ≡ some s') × Updated one_less xs s s'
unfolding give_back one_less
give_back-Updated zero s xs c enough p = elim enough [ ]
give_back-Updated (suc fuel) s [] c enough p = (s, ground arith, (refl, λ b. refl))
give_back-Updated (suc fuel) s (x ∷ xs) c enough (p, ne, nes, rest) =
    let s₁ = with_activity s x (one_less (s.activity x)) in
    let (s', ran, u) =
      give_back-Updated fuel s₁ xs c (omega arith)
        (IsSegment-same s s₁ xs c (with_activity-parent s x (one_less (s.activity x)) refl) rest) in
    let other : (x == c) ≡ false = ground arith in
    (
      s',
      if_false (x == c) (some s)
            (elim (s.activity x).parent [
              | none ↦ assert (x == s.root) >> some s₁
              | some c' ↦ give_back fuel s₁ c c'
            ])
            other
          ∙ ap
              (λ o. elim o as (λ _. Option Activities) [
                | none ↦ assert (x == s.root) >> some s₁
                | some c' ↦ give_back fuel s₁ c c'
              ])
              p
          ∙ ran,
      Updated-cons one_less s s' x xs nes u,
    )
