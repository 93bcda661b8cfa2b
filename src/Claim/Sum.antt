-- ===== src/Claim/Sum.antt =====
-- Sums over the numbers below a bound, and how they change with one of their terms.
use viengoos.Common.{ℕ, zero, suc, ◌+◌, ◌≤◌, ◌<◌, ◌≡◌, ◌≢◌, refl, sym, ap, subst, arith, ℕ_discrete}

unfoldable pub sum_below : (ℕ → ℕ) → ℕ → ℕ
sum_below f zero = 0
sum_below f (suc n) = sum_below f n + f n

pub sum_below-same :
    (f g : ℕ → ℕ) (n : ℕ) → ((i : ℕ) → i < n → f i ≡ g i) → sum_below f n ≡ sum_below g n
unfolding sum_below
sum_below-same f g zero h = refl
sum_below-same f g (suc n) h =
    omega (arith, sum_below-same f g n (λ i less. h i (omega arith)), h n (omega arith))

-- One term is changed by `up` and `down`.
pub sum_below-change :
    (f g : ℕ → ℕ) (n c up down : ℕ)
    → c < n
    → ((i : ℕ) → i ≢ c → f i ≡ g i)
    → g c + down ≡ f c + up
    → sum_below g n + down ≡ sum_below f n + up
unfolding sum_below
sum_below-change f g zero c up down less same one = elim less [ ]
sum_below-change f g (suc n) c up down less same one = elim (ℕ_discrete c n) [
  | yes e ↦
      let below = sum_below-same f g n (λ i h. same i (λ e'. absurd (omega (arith, e', e)))) in
      let here : g n + down ≡ f n + up = subst (λ k. g k + down ≡ f k + up) e one in
      omega (arith, below, here)
  | no ne ↦
      omega
        (arith, sum_below-change f g n c up down (omega arith) same one, same n (λ e. ne (sym e)))
]

pub sum_below-ge : (f : ℕ → ℕ) (n c : ℕ) → c < n → f c ≤ sum_below f n
unfolding sum_below
sum_below-ge f zero c less = elim less [ ]
sum_below-ge f (suc n) c less = elim (ℕ_discrete c n) [
  | yes e ↦ let here : f c ≡ f n = ap f e in omega (arith, here)
  | no ne ↦ omega (arith, sum_below-ge f n c (omega arith))
]
