-- ===== src/Activity/Path.antt =====
-- The activities from one up to the root, and what a loop over them does.
use viengoos.Common.{
  ℕ, zero, suc, ◌<◌, ◌≡◌, ◌≢◌, inl, inr, refl, sym, ap, ◌∙◌, subst, arith, Bool, true, false, ◌||◌,
  Option, none, some, List, [], ◌∷◌, All, length, ◌==◌, if◌then◌else◌, Bool-cases, ℕ_discrete,
}
use viengoos.Activity.{Activity, Activities, with_activity, to_parent, for_each_ancestor}

-- The ancestors of `a`, the root last.
abbrev pub IsPath : Activities → ℕ → List ℕ → Type 0
IsPath s a [] = ((s.activity a).parent ≡ none) × (a ≡ s.root)
IsPath s a (y ∷ ys) = ((s.activity a).parent ≡ some y) × All (λ z. a ≢ z) (y ∷ ys) × IsPath s y ys

abbrev pub mem : ℕ → List ℕ → Bool
mem b [] = false
mem b (x ∷ xs) = x == b || mem b xs

-- `update` was made of the activities in the list, and of no others.
abbrev pub Updated : (Activity → Activity) → List ℕ → Activities → Activities → Type 0
Updated update path s s' =
    (s'.root ≡ s.root)
    × ((b : ℕ) → s'.activity b ≡ (if mem b path then update (s.activity b) else s.activity b))

-- The path is one where the parents of its activities are the same.
pub IsPath-same :
    (s s' : Activities) (a : ℕ) (ups : List ℕ)
    → s'.root ≡ s.root
    → All (λ b. (s'.activity b).parent ≡ (s.activity b).parent) (a ∷ ups)
    → IsPath s a ups
    → IsPath s' a ups
IsPath-same s s' a [] r (p, _) (f, g) = (p ∙ f, g ∙ sym r)
IsPath-same s s' a (y ∷ ys) r (p, ps) (f, ne, h) = (p ∙ f, ne, IsPath-same s s' y ys r ps h)

pub with_activity_self :
    (s : Activities) (a : ℕ) (v : Activity) → (with_activity s a v).activity a ≡ v
unfolding with_activity
with_activity_self s a v = ground arith

pub with_activity_ne :
    (s : Activities) (a b : ℕ) (v : Activity)
    → a ≢ b
    → (with_activity s a v).activity b ≡ s.activity b
unfolding with_activity
with_activity_ne s a b v ne = ground arith

-- A statement of the activities that a list names holds after a write of another one.
pub All-with_activity :
    (P : Activity → Type 0) (s : Activities) (a : ℕ) (v : Activity) (bs : List ℕ)
    → All (λ z. a ≢ z) bs
    → All (λ b. P (s.activity b)) bs
    → All (λ b. P ((with_activity s a v).activity b)) bs
All-with_activity P s a v [] ne h = tt
All-with_activity P s a v (b ∷ bs) (ne, nes) (h, hs) =
    (subst P (sym (with_activity_ne s a b v ne)) h, All-with_activity P s a v bs nes hs)

same_parents :
    (s : Activities) (a : ℕ) (v : Activity) (bs : List ℕ)
    → All (λ z. a ≢ z) bs
    → All (λ b. ((with_activity s a v).activity b).parent ≡ (s.activity b).parent) bs
same_parents s a v [] ne = tt
same_parents s a v (b ∷ bs) (ne, nes) =
    (ap (λ w. w.parent) (with_activity_ne s a b v ne), same_parents s a v bs nes)

-- The rest of the path, after a write of its first activity.
pub IsPath-with_activity :
    (s : Activities) (a y : ℕ) (v : Activity) (ys : List ℕ)
    → All (λ z. a ≢ z) (y ∷ ys)
    → IsPath s y ys
    → IsPath (with_activity s a v) y ys
unfolding with_activity
IsPath-with_activity s a y v ys ne h =
    IsPath-same s (with_activity s a v) y ys refl (same_parents s a v (y ∷ ys) ne) h

-- The parents are those before a write that keeps the parent.
pub with_activity-parent :
    (s : Activities) (a : ℕ) (v : Activity)
    → v.parent ≡ (s.activity a).parent
    → (b : ℕ) → ((with_activity s a v).activity b).parent ≡ (s.activity b).parent
unfolding with_activity
with_activity-parent s a v e b = ground arith

pub all_of : (P : ℕ → Type 0) (xs : List ℕ) → ((b : ℕ) → P b) → All P xs
all_of P [] h = tt
all_of P (x ∷ xs) h = (h x, all_of P xs h)

pub mem-All : (P : ℕ → Type 0) (b : ℕ) (xs : List ℕ) → All P xs → mem b xs ≡ true → P b
mem-All P b [] h e = absurd (ground (arith, e))
mem-All P b (x ∷ xs) (h, hs) e = elim (Bool-cases (x == b)) [
  | inl same ↦ subst P (ground (arith, same)) h
  | inr other ↦ mem-All P b xs hs (ground (arith, e, other))
]

-- A statement of every activity of the list.
pub all_pass : (xs : List ℕ) → All (λ b. true ≡ true) xs
all_pass xs = all_of (λ b. true ≡ true) xs (λ b. refl)

root_same :
    (s : Activities) (a : ℕ) (v : Activity) → a ≡ s.root → (a == (with_activity s a v).root) ≡ true
unfolding with_activity
root_same s a v e = ground arith

pub mem-ne : (b : ℕ) (xs : List ℕ) → All (λ z. b ≢ z) xs → mem b xs ≡ false
mem-ne b [] ne = refl
mem-ne b (x ∷ xs) (ne, nes) = ground (arith, mem-ne b xs nes)

-- An update of the first activity, and then of those above it.
pub Updated-cons :
    (update : Activity → Activity) (s s' : Activities) (x : ℕ) (xs : List ℕ)
    → All (λ z. x ≢ z) xs
    → Updated update xs (with_activity s x (update (s.activity x))) s'
    → Updated update (x ∷ xs) s s'
unfolding with_activity
Updated-cons update s s' x xs ne (root, h) = (root, λ b. each b)
  where
    each :
        (b : ℕ) → s'.activity b ≡ (if mem b (x ∷ xs) then update (s.activity b) else s.activity b)
    each b = elim (ℕ_discrete x b) [
      | yes e ↦
          let out : mem x xs ≡ false = mem-ne x xs ne in
          subst
            (λ b. s'.activity b ≡ (if mem b (x ∷ xs) then update (s.activity b) else s.activity b))
            e (h x ∙ ground (arith, out))
      | no n ↦ let self : (x == b) ≡ false = ground arith in h b ∙ rw self refl
    ]

one_round :
    (fuel : ℕ) (test : Activity → Bool) (update : Activity → Activity) (s : Activities) (a : ℕ)
    (above : Option ℕ)
    → test (s.activity a) ≡ true
    → (update (s.activity a)).parent ≡ above
    → for_each_ancestor (suc fuel) test update s a
      ≡ to_parent
          (for_each_ancestor fuel test update)
          (with_activity s a (update (s.activity a)))
          a
          above
unfolding for_each_ancestor
one_round fuel test update s a above t e = rw t (
    ap
      (to_parent (for_each_ancestor fuel test update) (with_activity s a (update (s.activity a))) a)
      e)

at_root :
    (rest : Activities → ℕ → Option Activities) (s : Activities) (a : ℕ)
    → (a == s.root) ≡ true
    → to_parent rest s a none ≡ some s
unfolding to_parent
at_root rest s a e = rw e refl

pub for_each_ancestor-Updated :
    (fuel : ℕ) (test : Activity → Bool) (update : Activity → Activity) (s : Activities) (a : ℕ)
    (ups : List ℕ)
    → length ups < fuel
    → ((v : Activity) → (update v).parent ≡ v.parent)
    → IsPath s a ups
    → All (λ b. test (s.activity b) ≡ true) (a ∷ ups)
    → (s' : Activities) × (for_each_ancestor fuel test update s a ≡ some s')
      × Updated update (a ∷ ups) s s'
unfolding to_parent
for_each_ancestor-Updated zero test update s a ups enough keep h t = elim enough [ ]
for_each_ancestor-Updated (suc fuel) test update s a [] enough keep (f, g) (t, _) =
    let s₁ = with_activity s a (update (s.activity a)) in
    let top : (a == s₁.root) ≡ true = root_same s a (update (s.activity a)) g in
    (
      s₁,
      one_round fuel test update s a none t (keep (s.activity a) ∙ f)
          ∙ at_root (for_each_ancestor fuel test update) s₁ a top,
      Updated-cons update s s₁ a [] tt (refl, λ b. refl),
    )
for_each_ancestor-Updated (suc fuel) test update s a (y ∷ ys) enough keep (f, ne, h) (t, ts) =
    let v = update (s.activity a) in
    let s₁ = with_activity s a v in
    let (s', ran, u) =
      for_each_ancestor-Updated fuel test update s₁ y ys (omega arith) keep
        (IsPath-with_activity s a y v ys ne h)
        (All-with_activity (λ w. test w ≡ true) s a v (y ∷ ys) ne ts) in
    (
      s',
      one_round fuel test update s a (some y) t (keep (s.activity a) ∙ f) ∙ ran,
      Updated-cons update s s' a (y ∷ ys) ne u,
    )
