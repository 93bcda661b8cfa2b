-- ===== src/Zalloc/Alloc.antt =====
-- zalloc on a well-formed pool: the block that it takes, and what it gives back of it.
use viengoos.Common.{
  ℕ, zero, suc, ◌+◌, ◌-◌, ◌^◌, ◌≤◌, ◌≡◌, ◌⊎◌, inl, inr, refl, ap, ap₂, ◌∙◌, subst, arith, some,
  List, [], ◌∷◌, All, length, get_elem?, get_or, set, drop,
}
use viengoos.Zalloc.Buddy.{InZone, AllInZone}
use viengoos.Zalloc.Turn.{weight, total}
use viengoos.Zalloc.{search}

-- The first block of the zone m was taken off the zones from the n-th on.
pub record Taken (measure : ℕ → ℕ → ℕ) (n m b : ℕ) (zs zs' : List (List ℕ)) : Type 0 where
  pub block : InZone m b
  pub inside : AllInZone n zs'
  pub sum : total measure n zs ≡ measure b (2 ^ (m + 12)) + total measure n zs'

pub set-Taken :
    (measure : ℕ → ℕ → ℕ) (n k m b : ℕ) (bs : List ℕ) (zs : List (List ℕ))
    → m ≡ n + k
    → AllInZone n zs
    → get_elem? zs k ≡ some (b ∷ bs)
    → Taken measure n m b zs (set zs k bs)
unfolding total weight
set-Taken measure n k m b bs [] at all e = cc
set-Taken measure n zero m b bs ([] ∷ zs) at all e = cc
set-Taken measure n zero m b bs ((c ∷ cs) ∷ zs) at ((here, rest), all) e =
    let head : c ≡ b = cc in
    let tail : cs ≡ bs = cc in
    let same : n ≡ m = omega arith in
    record {
      block = subst (λ m. InZone m b) same (subst (InZone n) head here);
      inside = (subst (All (InZone n)) tail rest, all);
      sum = omega (
        arith,
        ap₂ (λ (b n : ℕ). measure b (2 ^ (n + 12))) head same,
        ap (weight measure n) tail,
      );
    }
set-Taken measure n (suc k) m b bs (z ∷ zs) at (here, all) e =
    let t = set-Taken measure (suc n) k m b bs zs (omega arith) all e in
    record { block = t.block; inside = (here, t.inside); sum = omega (arith, t.sum) }

-- Where the search of zalloc_internal ends.
pub search_cases :
    (ys : List (List ℕ)) (n : ℕ)
    → (All (λ y. y ≡ []) ys × (search ys n ≡ n + length ys))
      ⊎ ((k : ℕ) × (b : ℕ) × (bs : List ℕ) × (search ys n ≡ n + k)
          × (get_elem? ys k ≡ some (b ∷ bs)))
unfolding search
search_cases [] n = inl (tt, omega arith)
search_cases ((b ∷ bs) ∷ ys) n = inr (0, b, bs, omega arith, refl)
search_cases ([] ∷ ys) n = elim (search_cases ys (suc n)) [
  | inl (all, e) ↦ inl ((refl, all), omega (arith, e))
  | inr (k, b, bs, e, at) ↦ inr (suc k, b, bs, omega (arith, e), at)
]

pub get_elem?-drop : (w k : ℕ) (zs : List (List ℕ)) → get_elem? (drop w zs) k ≡ get_elem? zs (w + k)
get_elem?-drop zero k zs = ap (get_elem? zs) (omega arith)
get_elem?-drop (suc w) k [] = refl
get_elem?-drop (suc w) k (z ∷ zs) = get_elem?-drop w k zs ∙ ap (get_elem? (z ∷ zs)) shift
  where
    shift : suc (w + k) ≡ suc w + k
    shift = omega arith

pub length-drop : (w : ℕ) (zs : List (List ℕ)) → length (drop w zs) ≡ length zs - w
length-drop zero zs = omega arith
length-drop (suc w) [] = omega arith
length-drop (suc w) (z ∷ zs) = omega (arith, length-drop w zs)

-- The zones that the search passed over are empty.
pub drop-empty :
    (w n : ℕ) (zs : List (List ℕ)) → All (λ y. y ≡ []) (drop w zs) → w ≤ n → get_or zs n [] ≡ []
drop-empty w n [] all h = refl
drop-empty zero zero (z ∷ zs) all h = all.0
drop-empty zero (suc n) (z ∷ zs) all h = drop-empty zero n zs all.1 (omega arith)
drop-empty (suc w) zero (z ∷ zs) all h = elim h [ ]
drop-empty (suc w) (suc n) (z ∷ zs) all h = drop-empty w n zs all (omega arith)
