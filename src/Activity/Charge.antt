-- ===== src/Activity/Charge.antt =====
-- A charge of an activity counts for it and all its ancestors.
use viengoos.Common.{
  ℕ, ◌+◌, ◌-◌, ◌%◌, ◌^◌, ◌≤◌, ◌<◌, ◌≡◌, ◌≢◌, inl, inr, refl, sym, ◌∙◌, subst, arith, Bool, true,
  false, some, List, [], ◌∷◌, All, length, leb, ◌==◌, if◌then◌else◌, Bool-cases, ℕ_discrete,
}
use viengoos.Activity.Path.{
  IsPath, Updated, mem, for_each_ancestor-Updated, IsPath-same, with_activity_self,
  with_activity_ne, with_activity-parent, all_of, mem-All,
}
use viengoos.Activity.{
  Activity, Activities, with_activity, no_test, charge_total, activity_charge, has_total,
  credit_total, activity_credit,
}

abbrev pub count_if : Bool → ℕ → ℕ
count_if c n = if c then n else 0

-- Of the frames of the activity at the start of the path, `up` are new, `down` are gone and `less`
-- are no longer pending eviction; no other counts changed.
pub record Counted (a : ℕ) (ups : List ℕ) (up down less : ℕ) (s s' : Activities) : Type 0 where
  pub root : s'.root ≡ s.root
  pub parent : (b : ℕ) → (s'.activity b).parent ≡ (s.activity b).parent
  pub local :
      (b : ℕ)
      → (s'.activity b).frames_local + count_if (a == b) down
        ≡ (s.activity b).frames_local + count_if (a == b) up
  pub total :
      (b : ℕ)
      → (s'.activity b).frames_total + count_if (mem b (a ∷ ups)) down
        ≡ (s.activity b).frames_total + count_if (mem b (a ∷ ups)) up
  pub pending :
      (b : ℕ)
      → (s'.activity b).frames_pending_eviction + count_if (mem b (a ∷ ups)) less
        ≡ (s.activity b).frames_pending_eviction

-- A statement of what an update of `v` at `a`, and then of its ancestors, leaves: it is proved for
-- `a`, for its ancestors and for all others.
by_place :
    (update : Activity → Activity) (s s' : Activities) (a : ℕ) (v : Activity) (ups : List ℕ)
    (F : ℕ → Activity → Type 0)
    → Updated update (a ∷ ups) (with_activity s a v) s'
    → F a (update v)
    → ((b : ℕ) → a ≢ b → mem b ups ≡ true → F b (update (s.activity b)))
    → ((b : ℕ) → a ≢ b → mem b ups ≡ false → F b (s.activity b))
    → (b : ℕ) → F b (s'.activity b)
by_place update s s' a v ups F (_, u) at above beside b = elim (ℕ_discrete a b) [
  | yes e ↦
      let self : (a == a) ≡ true = ground arith in
      let now : s'.activity a ≡ update v = u a ∙ rw (self, with_activity_self s a v) refl in
      subst (λ b. F b (s'.activity b)) e (subst (F a) (sym now) at)
  | no ne ↦
      let other : (a == b) ≡ false = ground arith in
      elim (Bool-cases (mem b ups)) [
        | inl i ↦
            subst (F b) (sym (u b ∙ rw (other, i, with_activity_ne s a b v ne) refl)) (above b ne i)
        | inr o ↦
            subst (F b) (sym (u b ∙ rw (other, o, with_activity_ne s a b v ne) refl))
              (beside b ne o)
      ]
]

-- What an update is to do with the counts of an activity.
abbrev Counts : (Activity → Activity) → ℕ → ℕ → ℕ → Activity → Type 0
Counts update up down less v =
    (w : Activity)
    → w.frames_total ≡ v.frames_total
    → w.frames_pending_eviction ≡ v.frames_pending_eviction
    → ((update w).frames_total + down ≡ v.frames_total + up)
      × ((update w).frames_pending_eviction + less ≡ v.frames_pending_eviction)

pub Counted_lem :
    (update : Activity → Activity) (s s' : Activities) (a : ℕ) (v : Activity) (ups : List ℕ)
    (up down less : ℕ)
    → Updated update (a ∷ ups) (with_activity s a v) s'
    → v.parent ≡ (s.activity a).parent
    → v.frames_total ≡ (s.activity a).frames_total
    → v.frames_pending_eviction ≡ (s.activity a).frames_pending_eviction
    → v.frames_local + down ≡ (s.activity a).frames_local + up
    → All (λ b. Counts update up down less (s.activity b)) (a ∷ ups)
    → ((w : Activity) → (update w).parent ≡ w.parent)
    → ((w : Activity) → (update w).frames_local ≡ w.frames_local)
    → Counted a ups up down less s s'
unfolding with_activity
Counted_lem update s s' a v ups up down less u parent total pending local counts keeps keeps_local =
    let at = counts.0 v total pending in
    let above = λ (b : ℕ) (i : mem b ups ≡ true).
      mem-All (λ b. Counts update up down less (s.activity b)) b ups counts.1 i (s.activity b) refl
        refl in
    record {
      root = u.0;
      parent =
          by_place update s s' a v ups (λ b w. w.parent ≡ (s.activity b).parent) u
            (keeps v ∙ parent) (λ b _ _. keeps (s.activity b)) (λ b _ _. refl);
      local =
          by_place update s s' a v ups
            (λ b w.
              w.frames_local + count_if (a == b) down
              ≡ (s.activity b).frames_local + count_if (a == b) up)
            u (ground (arith, local, keeps_local v))
            (λ b ne _. ground (arith, keeps_local (s.activity b))) (λ b ne _. ground arith);
      total =
          by_place update s s' a v ups
            (λ b w.
              w.frames_total + count_if (mem b (a ∷ ups)) down
              ≡ (s.activity b).frames_total + count_if (mem b (a ∷ ups)) up)
            u (ground (arith, at.0)) (λ b ne i. ground (arith, i, (above b i).0))
            (λ b ne o. ground (arith, o));
      pending =
          by_place update s s' a v ups
            (λ b w.
              w.frames_pending_eviction + count_if (mem b (a ∷ ups)) less
              ≡ (s.activity b).frames_pending_eviction)
            u (ground (arith, at.1)) (λ b ne i. ground (arith, i, (above b i).1))
            (λ b ne o. ground (arith, o));
    }

charge_totals :
    (s : Activities) (n : ℕ) (xs : List ℕ)
    → All (λ b. (s.activity b).frames_total + n < 2 ^ 32) xs
    → All (λ b. Counts (charge_total n) n 0 0 (s.activity b)) xs
unfolding charge_total
charge_totals s n [] h = tt
charge_totals s n (x ∷ xs) (h, hs) =
    (λ w e f. (omega (arith, e), omega (arith, f)), charge_totals s n xs hs)

-- For an activity with its ancestors up to the root, where the counts have room for n more,
-- activity_charge of n ends without a failed assert, adds n to the frames_local of the activity
-- and to the frames_total of it and of each ancestor, and leaves the other counts of frames and
-- the parents as they are.
pub activity_charge-Counted :
    (fuel : ℕ) (s : Activities) (a n : ℕ) (ups : List ℕ)
    → length ups < fuel
    → IsPath s a ups
    → (s.activity a).frames_local + n < 2 ^ 32
    → All (λ b. (s.activity b).frames_total + n < 2 ^ 32) (a ∷ ups)
    → (s' : Activities) × (activity_charge fuel s a n ≡ some s') × Counted a ups n 0 0 s s'
unfolding activity_charge charge_total with_activity
activity_charge-Counted fuel s a n ups enough path small bound =
    let v = record (s.activity a) { frames_local = ((s.activity a).frames_local + n) % 2 ^ 32 } in
    let s₁ = with_activity s a v in
    let parents = with_activity-parent s a v refl in
    let (s', ran, (root, u)) =
      for_each_ancestor-Updated fuel no_test (charge_total n) s₁ a ups enough (λ w. refl)
        (IsPath-same s s₁ a ups refl
          (all_of (λ b. (s₁.activity b).parent ≡ (s.activity b).parent) (a ∷ ups) parents) path)
        (all_of (λ b. true ≡ true) (a ∷ ups) (λ b. refl)) in
    (
      s',
      ran,
      Counted_lem (charge_total n) s s' a v ups n 0 0 (root, u) refl refl refl (omega arith)
          (charge_totals s n (a ∷ ups) bound) (λ w. refl) (λ w. refl),
    )

credit_totals :
    (s : Activities) (n : ℕ) (xs : List ℕ)
    → All (λ b. n ≤ (s.activity b).frames_total) xs
    → All (λ b. Counts (credit_total n) 0 n 0 (s.activity b)) xs
unfolding credit_total
credit_totals s n [] h = tt
credit_totals s n (x ∷ xs) (h, hs) =
    (λ w e f. (omega (arith, e), omega (arith, f)), credit_totals s n xs hs)

have_totals :
    (s : Activities) (a n : ℕ) (v : Activity) (xs : List ℕ)
    → v.frames_total ≡ (s.activity a).frames_total
    → All (λ b. n ≤ (s.activity b).frames_total) xs
    → All (λ b. has_total n ((with_activity s a v).activity b) ≡ true) xs
unfolding has_total with_activity
have_totals s a n v [] e h = tt
have_totals s a n v (x ∷ xs) e (h, hs) = (ground arith, have_totals s a n v xs e hs)

pub activity_credit-Counted :
    (fuel : ℕ) (s : Activities) (a n : ℕ) (ups : List ℕ)
    → length ups < fuel
    → IsPath s a ups
    → n ≤ (s.activity a).frames_local
    → All (λ b. n ≤ (s.activity b).frames_total) (a ∷ ups)
    → (s' : Activities) × (activity_credit fuel s a n ≡ some s') × Counted a ups 0 n 0 s s'
unfolding activity_credit credit_total with_activity
activity_credit-Counted fuel s a n ups enough path small bound =
    let v = record (s.activity a) { frames_local = (s.activity a).frames_local - n } in
    let s₁ = with_activity s a v in
    let parents = with_activity-parent s a v refl in
    let held : leb n (s.activity a).frames_local ≡ true = ground arith in
    let (s', ran, u) =
      for_each_ancestor-Updated fuel (has_total n) (credit_total n) s₁ a ups enough (λ w. refl)
        (IsPath-same s s₁ a ups refl
          (all_of (λ b. (s₁.activity b).parent ≡ (s.activity b).parent) (a ∷ ups) parents) path)
        (have_totals s a n v (a ∷ ups) refl bound) in
    (
      s',
      rw held ran,
      Counted_lem (credit_total n) s s' a v ups 0 n 0 u refl refl refl (omega arith)
          (credit_totals s n (a ∷ ups) bound) (λ w. refl) (λ w. refl),
    )
