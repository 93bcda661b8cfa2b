-- ===== src/Claim/Laundry.antt =====
-- The counts when a frame leaves the laundry.
use viengoos.Activity.Charge.{Counted, Counted_lem, count_if}
use viengoos.Activity.Path.{
  IsPath, all_of, all_pass, with_activity-parent, IsPath-same, for_each_ancestor-Updated,
}
use viengoos.Activity.{Activity, Activities, with_activity, no_test}
use viengoos.Claim.{less_pending, less_local, saved_dirty}
use viengoos.Common.{
  ℕ, ◌+◌, ◌^◌, ◌≤◌, ◌<◌, ◌≡◌, refl, arith, Bool, true, false, some, List, [], ◌∷◌, All, length,
}

-- A count that is not 0 and fits a word.
abbrev pub Counting : ℕ → Type 0
Counting k = (1 ≤ k) × (k < 2 ^ 32)

-- The activity counts a frame, and one that is pending eviction.
abbrev pub Holds : Activity → Type 0
Holds v = Counting v.frames_total × Counting v.frames_pending_eviction

-- What the write of frames_local leaves.
local_less :
    (moved : Bool) (v : Activity)
    → Counting v.frames_local
    → ((less_local moved v).frames_local + count_if moved 1 ≡ v.frames_local + 0)
      × ((less_local moved v).parent ≡ v.parent)
      × ((less_local moved v).frames_total ≡ v.frames_total)
      × ((less_local moved v).frames_pending_eviction ≡ v.frames_pending_eviction)
unfolding less_local
local_less true v h = (omega (arith, h), refl, refl, refl)
local_less false v h = (refl, refl, refl, refl)

less_pending-parent : (moved : Bool) (v : Activity) → (less_pending moved v).parent ≡ v.parent
unfolding less_pending
less_pending-parent moved v = refl

less_pending-local :
    (moved : Bool) (v : Activity) → (less_pending moved v).frames_local ≡ v.frames_local
unfolding less_pending
less_pending-local moved v = refl

counts_less :
    (moved : Bool) (v w : Activity)
    → Holds v
    → w.frames_total ≡ v.frames_total
    → w.frames_pending_eviction ≡ v.frames_pending_eviction
    → ((less_pending moved w).frames_total + count_if moved 1 ≡ v.frames_total + 0)
      × ((less_pending moved w).frames_pending_eviction + 1 ≡ v.frames_pending_eviction)
unfolding less_pending
counts_less true v w (t, p) e f = (omega (arith, t, e), omega (arith, p, f))
counts_less false v w (t, p) e f = (omega (arith, e), omega (arith, p, f))

counts_of :
    (moved : Bool) (s : Activities) (xs : List ℕ)
    → All (λ b. Holds (s.activity b)) xs
    → All
        (λ b.
          (w : Activity)
          → w.frames_total ≡ (s.activity b).frames_total
          → w.frames_pending_eviction ≡ (s.activity b).frames_pending_eviction
          → ((less_pending moved w).frames_total + count_if moved 1
              ≡ (s.activity b).frames_total + 0)
            × ((less_pending moved w).frames_pending_eviction + 1
                ≡ (s.activity b).frames_pending_eviction))
        xs
counts_of moved s [] h = tt
counts_of moved s (x ∷ xs) (h, hs) =
    (λ w e f. counts_less moved (s.activity x) w h e f, counts_of moved s xs hs)

pub saved_dirty-Counted :
    (fuel : ℕ) (moved : Bool) (s : Activities) (a : ℕ) (ups : List ℕ)
    → length ups < fuel
    → IsPath s a ups
    → Counting (s.activity a).frames_local
    → All (λ b. Holds (s.activity b)) (a ∷ ups)
    → (s' : Activities) × (saved_dirty fuel moved s a ≡ some s')
      × Counted a ups 0 (count_if moved 1) 1 s s'
unfolding saved_dirty with_activity
saved_dirty-Counted fuel moved s a ups enough path local holds =
    let v = less_local moved (s.activity a) in
    let (less, parent, total, pending) = local_less moved (s.activity a) local in
    let s₁ = with_activity s a v in
    let (s', ran, u) =
      for_each_ancestor-Updated fuel no_test (less_pending moved) s₁ a ups enough
        (less_pending-parent moved)
        (IsPath-same s s₁ a ups refl
          (all_of (λ b. ((with_activity s a v).activity b).parent ≡ (s.activity b).parent) (a ∷ ups)
            (with_activity-parent s a v parent))
          path)
        (all_pass (a ∷ ups)) in
    (
      s',
      ran,
      Counted_lem (less_pending moved) s s' a v ups 0 (count_if moved 1) 1 u parent total pending
          less (counts_of moved s (a ∷ ups) holds) (less_pending-parent moved)
          (less_pending-local moved),
    )
