-- ===== src/Memory/Order.antt =====
-- The order of the reservations, what the search of the tree promises, and where the walk back to
-- the first one that overlaps ends.
use viengoos.Common.{
  ℕ, zero, suc, ◌≤◌, ◌<◌, ◌≡◌, refl, sym, ap, ◌∙◌, subst, arith, true, false, none, some, List, [],
  ◌∷◌, All, get_elem?, dec_lt, ℕ_discrete,
}
use mathlib.Core.Option.{some-injective, none-ne-some}
use viengoos.Memory.{Reservation, Find, overlaps, ends_after, walk}

-- No two reservations overlap, and they stand in their order.
abbrev pub Ordered : List Reservation → Type 0
Ordered [] = Unit
Ordered (r ∷ rs) = (r.start ≤ r.end) × All (λ s. r.end < s.start) rs × Ordered rs

-- What hurd_btree_reservation_find answers.
pub record Finder (find : Find) : Type 0 where
  pub none_overlaps :
      (l : List Reservation) (start end : ℕ)
      → find l start end ≡ none
      → (i : ℕ) (r : Reservation) → get_elem? l i ≡ some r
      → overlaps r start end ≡ false
  pub overlaps_it :
      (l : List Reservation) (start end i : ℕ)
      → find l start end ≡ some i
      → (r : Reservation) × (get_elem? l i ≡ some r) × (overlaps r start end ≡ true)

pub All-get :
    (P : Reservation → Type 0) (xs : List Reservation) (i : ℕ) (x : Reservation)
    → All P xs
    → get_elem? xs i ≡ some x
    → P x
All-get P [] i x h e = absurd (none-ne-some x e)
All-get P (y ∷ ys) zero x h e = subst P (some-injective y x e) h.0
All-get P (y ∷ ys) (suc i) x h e = All-get P ys i x h.1 e

pub Ordered-get :
    (l : List Reservation) (i j : ℕ) (x y : Reservation)
    → Ordered l
    → i < j
    → get_elem? l i ≡ some x
    → get_elem? l j ≡ some y
    → x.end < y.start
Ordered-get [] i j x y o less e f = absurd (none-ne-some x e)
Ordered-get (r ∷ rs) i zero x y o less e f = elim less [ ]
Ordered-get (r ∷ rs) zero (suc j) x y o less e f =
    subst (λ z. z.end < y.start) (some-injective r x e)
      (All-get (λ s. r.end < s.start) rs j y o.1 f)
Ordered-get (r ∷ rs) (suc i) (suc j) x y o less e f = Ordered-get rs i j x y o.2 (omega arith) e f

pub Ordered-one :
    (l : List Reservation) (i : ℕ) (x : Reservation)
    → Ordered l
    → get_elem? l i ≡ some x
    → x.start ≤ x.end
Ordered-one [] i x o e = absurd (none-ne-some x e)
Ordered-one (r ∷ rs) zero x o e = subst (λ z. z.start ≤ z.end) (some-injective r x e) o.0
Ordered-one (r ∷ rs) (suc i) x o e = Ordered-one rs i x o.2 e

get_elem?-before :
    (l : List Reservation) (i : ℕ) (y : Reservation)
    → get_elem? l (suc i) ≡ some y
    → (x : Reservation) × (get_elem? l i ≡ some x)
get_elem?-before [] i y e = absurd (none-ne-some y e)
get_elem?-before (r ∷ rs) zero y e = (r, refl)
get_elem?-before (r ∷ rs) (suc i) y e = get_elem?-before rs i y e

-- The place of the first reservation that ends behind `start`.
pub record IsFirst (l : List Reservation) (start k bound : ℕ) : Type 0 where
  pub it : Reservation
  pub at : get_elem? l k ≡ some it
  pub behind : start < it.end
  pub bounded : it.start ≤ bound
  pub earlier : (j : ℕ) (z : Reservation) → j < k → get_elem? l j ≡ some z → z.end ≤ start

stays :
    (l : List Reservation) (start i : ℕ) (x y : Reservation)
    → Ordered l
    → get_elem? l i ≡ some x
    → get_elem? l (suc i) ≡ some y
    → start < y.end
    → x.end ≤ start
    → IsFirst l start (suc i) y.start
stays l start i x y o e f after before = record {
  it = y;
  at = f;
  behind = after;
  bounded = omega arith;
  earlier = λ j z less g. elim (ℕ_discrete j i) [
    | yes same ↦
        let one : x ≡ z = some-injective x z (sym e ∙ ap (get_elem? l) (sym same) ∙ g) in
        subst (λ q. q.end ≤ start) one before
    | no other ↦
        let lower : z.end < x.start = Ordered-get l j i z x o (omega arith) g e in
        let proper : x.start ≤ x.end = Ordered-one l i x o e in omega arith
  ];
}

pub walk-IsFirst :
    (l : List Reservation) (start i : ℕ) (y : Reservation)
    → Ordered l
    → get_elem? l i ≡ some y
    → start < y.end
    → IsFirst l start (walk l start i) y.start
unfolding walk ends_after
walk-IsFirst l start zero y o e after = record {
  it = y;
  at = e;
  behind = after;
  bounded = omega arith;
  earlier = λ j z less g. elim less [ ];
}
walk-IsFirst l start (suc i) y o e after =
    let (x, at) = get_elem?-before l i y e in
    let lower : x.end < y.start = Ordered-get l i (suc i) x y o (omega arith) at e in
    let proper : x.start ≤ x.end = Ordered-one l i x o at in
    elim (dec_lt start x.end) [
      | yes further ↦
          let on : ends_after start (get_elem? l i) ≡ true = rw at (ground arith) in
          let w = walk-IsFirst l start i x o at further in
          rw on (record {
            it = w.it;
            at = w.at;
            behind = w.behind;
            bounded = omega (arith, w.bounded);
            earlier = w.earlier;
          })
      | no ended ↦
          let off : ends_after start (get_elem? l i) ≡ false = rw at (ground arith) in
          rw off (stays l start i x y o at e after (omega arith))
    ]

pub starts_later :
    (l : List Reservation) (k i : ℕ) (x r : Reservation)
    → Ordered l
    → get_elem? l k ≡ some x
    → get_elem? l i ≡ some r
    → k ≤ i
    → x.start ≤ r.start
starts_later l k i x r o e f h = elim (ℕ_discrete k i) [
  | yes same ↦
      let one : x ≡ r = some-injective x r (sym e ∙ ap (get_elem? l) same ∙ f) in
      subst (λ q. x.start ≤ q.start) one (omega arith)
  | no other ↦
      let less : x.end < r.start = Ordered-get l k i x r o (omega arith) e f in
      let proper : x.start ≤ x.end = Ordered-one l k x o e in omega arith
]
