-- ===== src/Futex/Plan.antt =====
-- What `wake` is to do with the messengers of a queue, by lists: the first ones that match are woken,
-- the next ones are moved, and the others stay.
use viengoos.Common.{
  ℕ, zero, suc, ◌≡◌, ◌<◌, refl, arith, Bool, true, false, List, [], ◌∷◌, All, drop, if◌then◌else◌,
}

unfoldable pub filter : (ℕ → Bool) → List ℕ → List ℕ
filter f [] = []
filter f (m ∷ ms) = if f m then m ∷ filter f ms else filter f ms

abbrev pub take : ℕ → List ℕ → List ℕ
take zero xs = []
take (suc n) [] = []
take (suc n) (x ∷ xs) = x ∷ take n xs

-- Without the first n of those that match.
unfoldable pub without : (ℕ → Bool) → ℕ → List ℕ → List ℕ
without f n [] = []
without f zero (m ∷ ms) = m ∷ ms
without f (suc n) (m ∷ ms) = if f m then without f n ms else m ∷ without f (suc n) ms

pub filter-same :
    (f g : ℕ → Bool) (ms : List ℕ) → All (λ m. f m ≡ g m) ms → filter f ms ≡ filter g ms
unfolding filter
filter-same f g [] same = refl
filter-same f g (m ∷ ms) (e, same) = ground (arith, e, filter-same f g ms same)

pub without-same :
    (f g : ℕ → Bool) (n : ℕ) (ms : List ℕ)
    → All (λ m. f m ≡ g m) ms
    → without f n ms ≡ without g n ms
unfolding without
without-same f g n [] same = refl
without-same f g zero (m ∷ ms) same = refl
without-same f g (suc n) (m ∷ ms) (e, same) =
    ground (arith, e, without-same f g n ms same, without-same f g (suc n) ms same)

pub take-nil : (n : ℕ) → take n [] ≡ []
take-nil zero = refl
take-nil (suc n) = refl

pub drop-nil : (n : ℕ) → drop {A = ℕ} n [] ≡ []
drop-nil zero = refl
drop-nil (suc n) = refl

pub without-zero : (f : ℕ → Bool) (ms : List ℕ) → without f 0 ms ≡ ms
unfolding without
without-zero f [] = refl
without-zero f (m ∷ ms) = refl

pub without-skip :
    (f : ℕ → Bool) (n m : ℕ) (ms : List ℕ)
    → f m ≡ false
    → 0 < n
    → without f n (m ∷ ms) ≡ m ∷ without f n ms
unfolding without
without-skip f zero m ms e h = elim h [ ]
without-skip f (suc n) m ms e h = rw e refl

pub without-hit :
    (f : ℕ → Bool) (n m : ℕ) (ms : List ℕ)
    → f m ≡ true
    → without f (suc n) (m ∷ ms) ≡ without f n ms
unfolding without
without-hit f n m ms e = rw e refl

pub filter-hit :
    (f : ℕ → Bool) (m : ℕ) (ms : List ℕ) → f m ≡ true → filter f (m ∷ ms) ≡ m ∷ filter f ms
unfolding filter
filter-hit f m ms e = rw e refl
