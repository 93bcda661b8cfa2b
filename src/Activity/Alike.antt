-- ===== src/Activity/Alike.antt =====
-- Changes of the activities that leave the counts of frames as they are.
use viengoos.Activity.Charge.{Counted, count_if}
use viengoos.Activity.Path.{
  all_of, IsPath, IsPath-same, Updated, mem, with_activity_self, with_activity_ne,
}
use viengoos.Activity.{Activity, Activities, with_activity}
use viengoos.Common.{
  ℕ, ◌+◌, ◌≡◌, refl, sym, ap, ◌∙◌, subst, arith, List, ◌∷◌, ◌==◌, Bool-cases, inl, inr, ℕ_discrete,
}

-- The counts of an activity are those of another one, and so is its parent.
pub record SameCounts (w v : Activity) : Type 0 where
  pub parent : w.parent ≡ v.parent
  pub local : w.frames_local ≡ v.frames_local
  pub total : w.frames_total ≡ v.frames_total
  pub pending : w.frames_pending_eviction ≡ v.frames_pending_eviction

abbrev pub Alike : Activities → Activities → Type 0
Alike s s' = (s'.root ≡ s.root) × ((b : ℕ) → SameCounts (s'.activity b) (s.activity b))

pub SameCounts-self : (v : Activity) → SameCounts v v
SameCounts-self v = record { parent = refl; local = refl; total = refl; pending = refl }

SameCounts-trans : (u v w : Activity) → SameCounts u v → SameCounts v w → SameCounts u w
SameCounts-trans u v w h k = record {
  parent = h.parent ∙ k.parent;
  local = h.local ∙ k.local;
  total = h.total ∙ k.total;
  pending = h.pending ∙ k.pending;
}

pub Alike-trans : (s s' s'' : Activities) → Alike s s' → Alike s' s'' → Alike s s''
Alike-trans s s' s'' (r, h) (q, k) =
    (q ∙ r, λ b. SameCounts-trans (s''.activity b) (s'.activity b) (s.activity b) (k b) (h b))

pub Alike-with_activity :
    (s : Activities) (a : ℕ) (v : Activity)
    → SameCounts v (s.activity a)
    → Alike s (with_activity s a v)
unfolding with_activity
Alike-with_activity s a v h = (refl, λ b. each b)
  where
    each : (b : ℕ) → SameCounts ((with_activity s a v).activity b) (s.activity b)
    each b = elim (ℕ_discrete a b) [
      | yes e ↦
          subst (λ b. SameCounts ((with_activity s a v).activity b) (s.activity b)) e
            (subst (λ u. SameCounts u (s.activity a)) (sym (with_activity_self s a v)) h)
      | no n ↦
          subst (λ u. SameCounts u (s.activity b)) (sym (with_activity_ne s a b v n))
            (SameCounts-self (s.activity b))
    ]

pub Updated-Alike :
    (update : Activity → Activity) (path : List ℕ) (s s' : Activities)
    → ((v : Activity) → SameCounts (update v) v)
    → Updated update path s s'
    → Alike s s'
Updated-Alike update path s s' same (r, u) = (r, λ b. each b)
  where
    each : (b : ℕ) → SameCounts (s'.activity b) (s.activity b)
    each b = elim (Bool-cases (mem b path)) [
      | inl i ↦
          subst (λ v. SameCounts v (s.activity b)) (sym (u b ∙ rw i refl)) (same (s.activity b))
      | inr o ↦
          subst (λ v. SameCounts v (s.activity b)) (sym (u b ∙ rw o refl))
            (SameCounts-self (s.activity b))
    ]

pub Alike-IsPath :
    (s s' : Activities) (a : ℕ) (ups : List ℕ) → Alike s s' → IsPath s a ups → IsPath s' a ups
Alike-IsPath s s' a ups h =
    IsPath-same s s' a ups h.0
      (all_of (λ b. (s'.activity b).parent ≡ (s.activity b).parent) (a ∷ ups) (λ b. (h.1 b).parent))

pub Alike-Counted :
    (s s' : Activities) (a : ℕ) (ups : List ℕ) → Alike s s' → Counted a ups 0 0 0 s s'
Alike-Counted s s' a ups (r, h) = record {
  root = r;
  parent = λ b. (h b).parent;
  local = λ b. ap (λ k. k + count_if (a == b) 0) (h b).local;
  total = λ b. ap (λ k. k + count_if (mem b (a ∷ ups)) 0) (h b).total;
  pending = λ b. ground (arith, (h b).pending);
}
