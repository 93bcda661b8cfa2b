-- ===== src/Claim/Places.antt =====
-- Where a descriptor is, and what stays there while another one is moved.
use viengoos.Activity.{Activities}
use viengoos.Claim.Lists.{times}
use viengoos.Claim.{Desc, Frames, set_at, set_in, in_laundry}
use viengoos.Common.{
  ℕ, ◌≡◌, ◌≢◌, inl, inr, refl, ap, ◌∙◌, subst, arith, Bool, true, false, not, ◌&&◌, List, ◌==◌,
  if◌then◌else◌, Bool-cases, ℕ_discrete,
}

-- The descriptor is once on each list of `a` that its state asks for, and on no other list of any
-- activity; the nodes say so. An eviction candidate is in the laundry or available, as its state asks.
pub record Places (w : Frames) (d : ℕ) (x : Desc) (a : ℕ) : Type 0 where
  pub active :
      (b q : ℕ)
      → times d (w.active b q) ≡ (
          if (a == b && x.priority == q) && (not x.eviction_candidate && not (x.age == 0))
          then 1
          else 0)
  pub inactive :
      (b q : ℕ)
      → times d (w.inactive b q)
        ≡ (if (a == b && x.priority == q) && (not x.eviction_candidate && x.age == 0) then 1 else 0)
  pub dirty :
      (b : ℕ)
      → times d (w.eviction_dirty b)
        ≡ (if a == b && (x.eviction_candidate && in_laundry x) then 1 else 0)
  pub clean :
      (b : ℕ)
      → times d (w.eviction_clean b)
        ≡ (if a == b && (x.eviction_candidate && not (in_laundry x)) then 1 else 0)
  pub activity_node : w.activity_node d ≡ true
  pub laundry : x.eviction_candidate ≡ true → times d w.laundry ≡ (if in_laundry x then 1 else 0)
  pub available :
      x.eviction_candidate ≡ true → times d w.available ≡ (if in_laundry x then 0 else 1)
  pub laundry_node : x.eviction_candidate ≡ true → w.laundry_node d ≡ true

-- The descriptor is neither in the laundry nor available.
pub record Saved (w : Frames) (d : ℕ) : Type 0 where
  pub laundry : times d w.laundry ≡ 0
  pub available : times d w.available ≡ 0
  pub laundry_node : w.laundry_node d ≡ false

-- The descriptor is on no list of any activity, and no longer up for eviction if it was.
pub record Loose (w : Frames) (d : ℕ) (x : Desc) : Type 0 where
  pub active : (b q : ℕ) → times d (w.active b q) ≡ 0
  pub inactive : (b q : ℕ) → times d (w.inactive b q) ≡ 0
  pub dirty : (b : ℕ) → times d (w.eviction_dirty b) ≡ 0
  pub clean : (b : ℕ) → times d (w.eviction_clean b) ≡ 0
  pub activity_node : w.activity_node d ≡ false
  pub saved : x.eviction_candidate ≡ true → Saved w d

-- No descriptor but `d` is put on a list or taken off one.
pub record Keeps (d : ℕ) (w w' : Frames) : Type 0 where
  pub laundry : (e : ℕ) → d ≢ e → times e w'.laundry ≡ times e w.laundry
  pub available : (e : ℕ) → d ≢ e → times e w'.available ≡ times e w.available
  pub dirty : (b e : ℕ) → d ≢ e → times e (w'.eviction_dirty b) ≡ times e (w.eviction_dirty b)
  pub clean : (b e : ℕ) → d ≢ e → times e (w'.eviction_clean b) ≡ times e (w.eviction_clean b)
  pub active : (b q e : ℕ) → d ≢ e → times e (w'.active b q) ≡ times e (w.active b q)
  pub inactive : (b q e : ℕ) → d ≢ e → times e (w'.inactive b q) ≡ times e (w.inactive b q)
  pub activity_node : (e : ℕ) → d ≢ e → w'.activity_node e ≡ w.activity_node e
  pub laundry_node : (e : ℕ) → d ≢ e → w'.laundry_node e ≡ w.laundry_node e

-- One step after another keeps what both keep.
pub Keeps-trans : (d : ℕ) (w w' w'' : Frames) → Keeps d w w' → Keeps d w' w'' → Keeps d w w''
Keeps-trans d w w' w'' h k = record {
  laundry = λ e ne. k.laundry e ne ∙ h.laundry e ne;
  available = λ e ne. k.available e ne ∙ h.available e ne;
  dirty = λ b e ne. k.dirty b e ne ∙ h.dirty b e ne;
  clean = λ b e ne. k.clean b e ne ∙ h.clean b e ne;
  active = λ b q e ne. k.active b q e ne ∙ h.active b q e ne;
  inactive = λ b q e ne. k.inactive b q e ne ∙ h.inactive b q e ne;
  activity_node = λ e ne. k.activity_node e ne ∙ h.activity_node e ne;
  laundry_node = λ e ne. k.laundry_node e ne ∙ h.laundry_node e ne;
}

pub set_at-keeps :
    (f : ℕ → List ℕ) (a : ℕ) (l : List ℕ) (b e : ℕ)
    → times e l ≡ times e (f a)
    → times e (set_at f a l b) ≡ times e (f b)
unfolding set_at
set_at-keeps f a l b e h = elim (ℕ_discrete a b) [
  | yes s ↦ subst (λ b. times e (if a == b then l else f b) ≡ times e (f b)) s (ground (arith, h))
  | no n ↦ ground arith
]

pub set_in-keeps :
    (f : ℕ → ℕ → List ℕ) (a p : ℕ) (l : List ℕ) (b q e : ℕ)
    → times e l ≡ times e (f a p)
    → times e (set_in f a p l b q) ≡ times e (f b q)
unfolding set_in
set_in-keeps f a p l b q e h = elim (Bool-cases (a == b && p == q)) [
  | inl s ↦
      let eb : a ≡ b = ground (arith, s) in
      let eq : p ≡ q = ground (arith, s) in
      rw s (h ∙ ap (λ c. times e (f c p)) eb ∙ ap (λ r. times e (f b r)) eq)
  | inr o ↦ rw o refl
]

-- The activities do not show where a descriptor is.
pub Keeps-activities :
    (d : ℕ) (w w' : Frames) (s : Activities)
    → Keeps d w w'
    → Keeps d w (record w' { activities = s })
Keeps-activities d w w' s k = record {
  laundry = k.laundry;
  available = k.available;
  dirty = k.dirty;
  clean = k.clean;
  active = k.active;
  inactive = k.inactive;
  activity_node = k.activity_node;
  laundry_node = k.laundry_node;
}

pub Loose-activities :
    (w : Frames) (d : ℕ) (x : Desc) (s : Activities)
    → Loose w d x
    → Loose (record w { activities = s }) d x
Loose-activities w d x s l = record {
  active = l.active;
  inactive = l.inactive;
  dirty = l.dirty;
  clean = l.clean;
  activity_node = l.activity_node;
  saved = λ e. record {
    laundry = (l.saved e).laundry;
    available = (l.saved e).available;
    laundry_node = (l.saved e).laundry_node;
  };
}

pub Places-activities :
    (w : Frames) (d : ℕ) (x : Desc) (a : ℕ) (s : Activities)
    → Places w d x a
    → Places (record w { activities = s }) d x a
Places-activities w d x a s p = record {
  active = p.active;
  inactive = p.inactive;
  dirty = p.dirty;
  clean = p.clean;
  activity_node = p.activity_node;
  laundry = p.laundry;
  available = p.available;
  laundry_node = p.laundry_node;
}

pub set_at-gone :
    (f : ℕ → List ℕ) (a d : ℕ) (l : List ℕ) (c : Bool)
    → times d l ≡ 0
    → ((b : ℕ) → times d (f b) ≡ (if a == b && c then 1 else 0))
    → (b : ℕ) → times d (set_at f a l b) ≡ 0
unfolding set_at
set_at-gone f a d l c g h b = elim (Bool-cases (a == b)) [
  | inl e ↦ rw e g
  | inr n ↦ rw n (h b ∙ rw n refl)
]

pub set_in-gone :
    (f : ℕ → ℕ → List ℕ) (a p d : ℕ) (l : List ℕ) (c : Bool)
    → times d l ≡ 0
    → ((b q : ℕ) → times d (f b q) ≡ (if (a == b && p == q) && c then 1 else 0))
    → (b q : ℕ) → times d (set_in f a p l b q) ≡ 0
unfolding set_in
set_in-gone f a p d l c g h b q = elim (Bool-cases (a == b && p == q)) [
  | inl e ↦ rw e g
  | inr n ↦ rw n (h b q ∙ rw n refl)
]
