-- ===== src/Claim/Loosen.antt =====
-- A descriptor that leaves its lists: where it is then, and what stays.
use viengoos.Claim.Lists.{Unlinked, Detached}
use viengoos.Claim.Places.{
  Places, Loose, Keeps, set_at-keeps, set_in-keeps, set_at-gone, set_in-gone,
}
use viengoos.Claim.{Desc, Frames, in_laundry, set_at, set_in}
use viengoos.Common.{ℕ, ◌≡◌, ◌∙◌, refl, arith, Bool, true, false, List, ◌==◌, not, ◌&&◌}

pub dirty-Keeps :
    (w : Frames) (d a : ℕ) (l m : List ℕ) (f g : ℕ → Bool)
    → Unlinked d w.laundry l
    → Unlinked d (w.eviction_dirty a) m
    → Detached d w.laundry_node f
    → Detached d w.activity_node g
    → Keeps d w (record w {
      laundry = l;
      laundry_node = f;
      eviction_dirty = set_at w.eviction_dirty a m;
      activity_node = g;
    })
dirty-Keeps w d a l m f g u v h k = record {
  laundry = u.keeps;
  available = λ e ne. refl;
  dirty = λ b e ne. set_at-keeps w.eviction_dirty a m b e (v.keeps e ne);
  clean = λ b e ne. refl;
  active = λ b q e ne. refl;
  inactive = λ b q e ne. refl;
  activity_node = k.keeps;
  laundry_node = h.keeps;
}

pub dirty-Loose :
    (w : Frames) (d a : ℕ) (x : Desc) (l m : List ℕ) (f g : ℕ → Bool)
    → Unlinked d w.laundry l
    → Unlinked d (w.eviction_dirty a) m
    → Detached d w.laundry_node f
    → Detached d w.activity_node g
    → Places w d x a
    → x.eviction_candidate ≡ true
    → in_laundry x ≡ true
    → Loose
        (record w {
          laundry = l;
          laundry_node = f;
          eviction_dirty = set_at w.eviction_dirty a m;
          activity_node = g;
        })
        d
        x
dirty-Loose w d a x l m f g u v h k p c i = record {
  active = λ b q. p.active b q ∙ rw c (ground arith);
  inactive = λ b q. p.inactive b q ∙ rw c (ground arith);
  dirty = set_at-gone w.eviction_dirty a d m (x.eviction_candidate && in_laundry x) v.gone p.dirty;
  clean = λ b. p.clean b ∙ rw i (ground arith);
  activity_node = k.gone;
  saved = λ e. record {
    laundry = u.gone;
    available = p.available e ∙ rw i refl;
    laundry_node = h.gone;
  };
}

pub clean-Keeps :
    (w : Frames) (d a : ℕ) (l m : List ℕ) (f g : ℕ → Bool)
    → Unlinked d w.available l
    → Unlinked d (w.eviction_clean a) m
    → Detached d w.laundry_node f
    → Detached d w.activity_node g
    → Keeps d w (record w {
      available = l;
      laundry_node = f;
      eviction_clean = set_at w.eviction_clean a m;
      activity_node = g;
    })
clean-Keeps w d a l m f g u v h k = record {
  laundry = λ e ne. refl;
  available = u.keeps;
  dirty = λ b e ne. refl;
  clean = λ b e ne. set_at-keeps w.eviction_clean a m b e (v.keeps e ne);
  active = λ b q e ne. refl;
  inactive = λ b q e ne. refl;
  activity_node = k.keeps;
  laundry_node = h.keeps;
}

pub clean-Loose :
    (w : Frames) (d a : ℕ) (x : Desc) (l m : List ℕ) (f g : ℕ → Bool)
    → Unlinked d w.available l
    → Unlinked d (w.eviction_clean a) m
    → Detached d w.laundry_node f
    → Detached d w.activity_node g
    → Places w d x a
    → x.eviction_candidate ≡ true
    → in_laundry x ≡ false
    → Loose
        (record w {
          available = l;
          laundry_node = f;
          eviction_clean = set_at w.eviction_clean a m;
          activity_node = g;
        })
        d
        x
clean-Loose w d a x l m f g u v h k p c i = record {
  active = λ b q. p.active b q ∙ rw c (ground arith);
  inactive = λ b q. p.inactive b q ∙ rw c (ground arith);
  clean =
      set_at-gone w.eviction_clean a d m (x.eviction_candidate && not (in_laundry x)) v.gone
        p.clean;
  dirty = λ b. p.dirty b ∙ rw i (ground arith);
  activity_node = k.gone;
  saved =
      λ e. record { available = u.gone; laundry = p.laundry e ∙ rw i refl; laundry_node = h.gone };
}

pub active-Keeps :
    (w : Frames) (d a p : ℕ) (l : List ℕ) (g : ℕ → Bool)
    → Unlinked d (w.active a p) l
    → Detached d w.activity_node g
    → Keeps d w (record w { active = set_in w.active a p l; activity_node = g })
active-Keeps w d a p l g u k = record {
  laundry = λ e ne. refl;
  available = λ e ne. refl;
  dirty = λ b e ne. refl;
  clean = λ b e ne. refl;
  active = λ b q e ne. set_in-keeps w.active a p l b q e (u.keeps e ne);
  inactive = λ b q e ne. refl;
  activity_node = k.keeps;
  laundry_node = λ e ne. refl;
}

pub active-Loose :
    (w : Frames) (d a : ℕ) (x : Desc) (l : List ℕ) (g : ℕ → Bool)
    → Unlinked d (w.active a x.priority) l
    → Detached d w.activity_node g
    → Places w d x a
    → x.eviction_candidate ≡ false
    → (x.age == 0) ≡ false
    → Loose (record w { active = set_in w.active a x.priority l; activity_node = g }) d x
active-Loose w d a x l g u k p c i = record {
  active =
      set_in-gone w.active a x.priority d l (not x.eviction_candidate && not (x.age == 0)) u.gone
        p.active;
  inactive = λ b q. p.inactive b q ∙ rw i (ground arith);
  dirty = λ b. p.dirty b ∙ rw c (ground arith);
  clean = λ b. p.clean b ∙ rw c (ground arith);
  activity_node = k.gone;
  saved = λ e. absurd (ground (arith, c, e));
}

pub inactive-Keeps :
    (w : Frames) (d a p : ℕ) (l : List ℕ) (g : ℕ → Bool)
    → Unlinked d (w.inactive a p) l
    → Detached d w.activity_node g
    → Keeps d w (record w { inactive = set_in w.inactive a p l; activity_node = g })
inactive-Keeps w d a p l g u k = record {
  laundry = λ e ne. refl;
  available = λ e ne. refl;
  dirty = λ b e ne. refl;
  clean = λ b e ne. refl;
  active = λ b q e ne. refl;
  inactive = λ b q e ne. set_in-keeps w.inactive a p l b q e (u.keeps e ne);
  activity_node = k.keeps;
  laundry_node = λ e ne. refl;
}

pub inactive-Loose :
    (w : Frames) (d a : ℕ) (x : Desc) (l : List ℕ) (g : ℕ → Bool)
    → Unlinked d (w.inactive a x.priority) l
    → Detached d w.activity_node g
    → Places w d x a
    → x.eviction_candidate ≡ false
    → (x.age == 0) ≡ true
    → Loose (record w { inactive = set_in w.inactive a x.priority l; activity_node = g }) d x
inactive-Loose w d a x l g u k p c i = record {
  inactive =
      set_in-gone w.inactive a x.priority d l (not x.eviction_candidate && x.age == 0) u.gone
        p.inactive;
  active = λ b q. p.active b q ∙ rw i (ground arith);
  dirty = λ b. p.dirty b ∙ rw c (ground arith);
  clean = λ b. p.clean b ∙ rw c (ground arith);
  activity_node = k.gone;
  saved = λ e. absurd (ground (arith, c, e));
}
