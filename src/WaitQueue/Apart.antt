-- ===== src/WaitQueue/Apart.antt =====
-- Lists of distinct messengers, and their parts.
use viengoos.Common.{ℕ, ◌≢◌, sym, List, [], ◌∷◌, ◌++◌, All}
use viengoos.WaitQueue.Chain.{last_or, Distinct}

pub All-split : (P : ℕ → Type 0) (xs ys : List ℕ) → All P (xs ++ ys) → All P xs × All P ys
All-split P [] ys all = (tt, all)
All-split P (x ∷ xs) ys (p, all) = let (a, b) = All-split P xs ys all in ((p, a), b)

pub All-join : (P : ℕ → Type 0) (xs ys : List ℕ) → All P xs → All P ys → All P (xs ++ ys)
All-join P [] ys _ b = b
All-join P (x ∷ xs) ys (p, a) b = (p, All-join P xs ys a b)

pub All-last : (P : ℕ → Type 0) (x : ℕ) (xs : List ℕ) → All P (x ∷ xs) → P (last_or x xs)
All-last P x [] all = all.0
All-last P x (y ∷ ys) all = All-last P y ys all.1

-- No messenger of the first list is in the second.
abbrev pub Apart : List ℕ → List ℕ → Type 0
Apart xs ys = All (λ x. All (λ y. x ≢ y) ys) xs

pub Distinct-split :
    (xs ys : List ℕ) → Distinct (xs ++ ys) → Distinct xs × Distinct ys × Apart xs ys
Distinct-split [] ys d = (tt, d, tt)
Distinct-split (x ∷ xs) ys (ne, d) =
    let (a, b, c) = Distinct-split xs ys d in
    let (l, r) = All-split (λ y. x ≢ y) xs ys ne in ((l, a), b, (r, c))

pub Distinct-join : (xs ys : List ℕ) → Distinct xs → Distinct ys → Apart xs ys → Distinct (xs ++ ys)
Distinct-join [] ys a b c = b
Distinct-join (x ∷ xs) ys (ne, a) b (r, c) =
    (All-join (λ y. x ≢ y) xs ys ne r, Distinct-join xs ys a b c)

-- The first of the second list is not in the first, and the others.
pub Apart-head :
    (xs : List ℕ) (y : ℕ) (ys : List ℕ) → Apart xs (y ∷ ys) → All (λ x. y ≢ x) xs × Apart xs ys
Apart-head [] y ys a = (tt, tt)
Apart-head (x ∷ xs) y ys ((ne, nes), a) =
    let (l, r) = Apart-head xs y ys a in ((λ e. ne (sym e), l), (nes, r))

pub Apart-last : (x : ℕ) (xs ys : List ℕ) → Apart (x ∷ xs) ys → All (λ y. last_or x xs ≢ y) ys
Apart-last x xs ys a = All-last (λ z. All (λ y. z ≢ y) ys) x xs a
