-- ===== src/Claim/Owned.antt =====
-- What an activity owns when a list of it changes.
use viengoos.Claim.Accounts.{levels, owned}
use viengoos.Claim.Sum.{sum_below, sum_below-same, sum_below-change}
use viengoos.Claim.{Frames, set_at, set_in}
use viengoos.Common.{ℕ, suc, ◌+◌, ◌<◌, ◌≡◌, ◌≢◌, sym, ap, arith, List, length}

-- `w'` owns what `w` does but for `a`, which has `up` more and `down` less.
pub record Changes (w w' : Frames) (a up down : ℕ) : Type 0 where
  pub here : owned w' a + down ≡ owned w a + up
  pub others : (b : ℕ) → b ≢ a → owned w b ≡ owned w' b

pub set_in_self : (f : ℕ → ℕ → List ℕ) (a p : ℕ) (l : List ℕ) → set_in f a p l a p ≡ l
unfolding set_in
set_in_self f a p l = ground arith

set_in-level :
    (f : ℕ → ℕ → List ℕ) (a p : ℕ) (l : List ℕ) (q : ℕ) → q ≢ p → set_in f a p l a q ≡ f a q
unfolding set_in
set_in-level f a p l q ne = ground arith

set_in-other :
    (f : ℕ → ℕ → List ℕ) (a p : ℕ) (l : List ℕ) (b q : ℕ) → b ≢ a → set_in f a p l b q ≡ f b q
unfolding set_in
set_in-other f a p l b q ne = ground arith

pub active-Changes :
    (w : Frames) (a p up down : ℕ) (l : List ℕ)
    → p < levels
    → length l + down ≡ length (w.active a p) + up
    → Changes w (record w { active = set_in w.active a p l }) a up down
unfolding owned
active-Changes w a p up down l h e = record {
  here = omega (
    arith,
    sum_below-change (λ q. length (w.active a q) + length (w.inactive a q))
        (λ q. length (set_in w.active a p l a q) + length (w.inactive a q)) levels p up down h
        (λ q ne.
          ap (λ m. length m + length (w.inactive a q)) (sym (set_in-level w.active a p l q ne)))
        (omega (arith, e, ap length (set_in_self w.active a p l))),
  );
  others = λ b ne.
      ap (λ k. k + length (w.eviction_dirty b))
        (sum_below-same (λ q. length (w.active b q) + length (w.inactive b q))
          (λ q. length (set_in w.active a p l b q) + length (w.inactive b q)) levels
          (λ q _.
            ap (λ m. length m + length (w.inactive b q))
              (sym (set_in-other w.active a p l b q ne))));
}

pub inactive-Changes :
    (w : Frames) (a p up down : ℕ) (l : List ℕ)
    → p < levels
    → length l + down ≡ length (w.inactive a p) + up
    → Changes w (record w { inactive = set_in w.inactive a p l }) a up down
unfolding owned
inactive-Changes w a p up down l h e = record {
  here = omega (
    arith,
    sum_below-change (λ q. length (w.active a q) + length (w.inactive a q))
        (λ q. length (w.active a q) + length (set_in w.inactive a p l a q)) levels p up down h
        (λ q ne.
          ap (λ m. length (w.active a q) + length m) (sym (set_in-level w.inactive a p l q ne)))
        (omega (arith, e, ap length (set_in_self w.inactive a p l))),
  );
  others = λ b ne.
      ap (λ k. k + length (w.eviction_dirty b))
        (sum_below-same (λ q. length (w.active b q) + length (w.inactive b q))
          (λ q. length (w.active b q) + length (set_in w.inactive a p l b q)) levels
          (λ q _.
            ap (λ m. length (w.active b q) + length m)
              (sym (set_in-other w.inactive a p l b q ne))));
}

pub set_at_self : (f : ℕ → List ℕ) (a : ℕ) (l : List ℕ) → set_at f a l a ≡ l
unfolding set_at
set_at_self f a l = ground arith

pub set_at-other : (f : ℕ → List ℕ) (a : ℕ) (l : List ℕ) (b : ℕ) → b ≢ a → set_at f a l b ≡ f b
unfolding set_at
set_at-other f a l b ne = ground arith

pub dirty-Changes :
    (w : Frames) (a : ℕ) (laundry l : List ℕ)
    → suc (length l) ≡ length (w.eviction_dirty a)
    → Changes w (record w { laundry = laundry; eviction_dirty = set_at w.eviction_dirty a l }) a 0 1
unfolding owned
dirty-Changes w a laundry l e = record {
  here = omega (arith, e, ap length (set_at_self w.eviction_dirty a l));
  others = λ b ne.
      ap (λ m. sum_below (λ p. length (w.active b p) + length (w.inactive b p)) levels + length m)
        (sym (set_at-other w.eviction_dirty a l b ne));
}
