-- ===== src/Zalloc/Turn.antt =====
-- A turn of add_block's loop conserves every additive measure of memory.
use mathlib.Core.List.{tail}
use viengoos.Common.{
  ℕ, suc, ◌+◌, ◌^◌, ◌≤◌, ◌<◌, ◌≡◌, ◌⊎◌, inl, inr, refl, sym, ap, ◌∙◌, subst, arith, Bool, true,
  false, List, [], ◌∷◌, ltb, bit_xor, get_or, All, Bool-cases, dec_lt,
}
use viengoos.Word.Fields.{two_pow_suc, two_pow_pos, bit_xor_self, bit_xor_comm}
use viengoos.Zalloc.{zone_size, neighbours, relink, is_buddy, link, add_to_zone}
use viengoos.Zalloc.Buddy.{
  InZone, FromOn, All-relink, All-neighbours, All-left, FromOn-right, buddies_join, next_power,
}

module _ (measure : ℕ → ℕ → ℕ) where
  -- The measure of a zone's blocks, and of the zones from the n-th on.
  unfoldable pub weight : ℕ → List ℕ → ℕ
  weight n [] = 0
  weight n (b ∷ bs) = measure b (2 ^ (n + 12)) + weight n bs

  unfoldable pub total : ℕ → List (List ℕ) → ℕ
  total n [] = 0
  total n (z ∷ zs) = weight n z + total (suc n) zs

module _ (measure : ℕ → ℕ → ℕ)
    (additive : (b s t : ℕ) → measure b (s + t) ≡ measure b s + measure (b + s) t) where
  weight-relink :
      (n : ℕ) (left right : List ℕ)
      → weight measure n (relink left right) ≡ weight measure n left + weight measure n right
  unfolding weight relink
  weight-relink n [] right = omega arith
  weight-relink n (l ∷ left) right = omega (arith, weight-relink n left (l ∷ right))

  weight-neighbours :
      (n block : ℕ) (left zone : List ℕ)
      → weight measure n (neighbours block left zone).0
          + weight measure n (neighbours block left zone).1
        ≡ weight measure n left + weight measure n zone
  unfolding weight neighbours
  weight-neighbours n block left [] = refl
  weight-neighbours n block left (x ∷ rest) = elim (Bool-cases (ltb x block)) [
    | inl y ↦ rw y (omega (arith, weight-neighbours n block (x ∷ left) rest))
    | inr n ↦ rw n refl
  ]

  measure-double :
      (n b : ℕ)
      → measure b (2 ^ (suc n + 12))
        ≡ measure b (2 ^ (n + 12)) + measure (b + 2 ^ (n + 12)) (2 ^ (n + 12))
  measure-double n b =
      let e : 2 ^ (suc n + 12) ≡ 2 ^ (n + 12) + 2 ^ (n + 12) =
        omega (arith, next_power n, two_pow_suc (n + 12)) in
      rw e (additive b (2 ^ (n + 12)) (2 ^ (n + 12)))

  -- What a turn of the loop leaves, of blocks of the weight `w` and the new block.
  unfoldable pub Turn : ℕ → ℕ → ℕ → Bool × ℕ × List ℕ → Type 0
  Turn n w block (joined, block', zone') =
      All (InZone n) zone'
      × (((joined ≡ true)
            × InZone (suc n) block'
            × (weight measure n zone' + measure block' (2 ^ (suc n + 12))
                ≡ w + measure block (2 ^ (n + 12))))
          ⊎ ((joined ≡ false) × (weight measure n zone' ≡ w + measure block (2 ^ (n + 12)))))

  left-Turn :
      (l block n : ℕ) (ls right : List ℕ)
      → All (InZone n) (l ∷ ls)
      → All (InZone n) right
      → l < block
      → bit_xor l block ≡ 2 ^ (n + 12)
      → Turn n (weight measure n (l ∷ ls) + weight measure n right) block (true, l, relink ls right)
  unfolding Turn weight
  left-Turn l block n ls right (here, al) ar below x =
      let (inside, sum) = buddies_join n l block here x below in
      (
        All-relink (InZone n) ls right al ar,
        inl (refl, inside, rw sum (omega (arith, measure-double n l, weight-relink n ls right))),
      )

  right-Turn :
      (r block n : ℕ) (left rs : List ℕ)
      → All (InZone n) left
      → All (InZone n) (r ∷ rs)
      → InZone n block
      → block ≤ r
      → bit_xor r block ≡ 2 ^ (n + 12)
      → Turn n
          (weight measure n left + weight measure n (r ∷ rs))
          block
          (true, block, relink left rs)
  unfolding Turn weight
  right-Turn r block n left rs al (here, ar) inside from x = elim (dec_lt block r) [
    | yes lt ↦
        let (next, sum) = buddies_join n block r inside (bit_xor_comm block r ∙ x) lt in
        (
          All-relink (InZone n) left rs al ar,
          inl (refl, next, rw sum (omega (arith, measure-double n block, weight-relink n left rs))),
        )
    | no ge ↦
        let same : r ≡ block = omega arith in
        absurd (omega (arith, two_pow_pos (n + 12), x, ap (bit_xor r) (sym same), bit_xor_self r))
  ]

  stay-Turn :
      (block n : ℕ) (left right : List ℕ)
      → All (InZone n) left
      → All (InZone n) right
      → InZone n block
      → Turn n
          (weight measure n left + weight measure n right)
          block
          (false, block, relink left (block ∷ right))
  unfolding Turn weight
  stay-Turn block n left right al ar inside = (
    All-relink (InZone n) left (block ∷ right) al (inside, ar),
    inr (refl, omega (arith, weight-relink n left (block ∷ right))),
  )

  link-Turn :
      (left right : List ℕ) (block n : ℕ)
      → All (InZone n) left
      → All (InZone n) right
      → All (λ b. b < block) left
      → FromOn block right
      → InZone n block
      → Turn n (weight measure n left + weight measure n right) block (link left right block n)
  unfolding link is_buddy zone_size
  link-Turn left right block n al ar below from inside = elim (Bool-cases (is_buddy left block n)) [
    | inl y ↦ rw y (take_left left al below y)
    | inr no_left ↦ elim (Bool-cases (is_buddy right block n)) [
      | inl y ↦ rw (no_left, y) (take_right right ar from y)
      | inr no_right ↦ rw (no_left, no_right) (stay-Turn block n left right al ar inside)
    ]
  ]
    where
      take_left :
          (left : List ℕ)
          → All (InZone n) left
          → All (λ b. b < block) left
          → is_buddy left block n ≡ true
          → Turn n
              (weight measure n left + weight measure n right)
              block
              (true, get_or left 0 0, relink (tail left) right)
      take_left [] al below y = cc
      take_left (l ∷ ls) al below y = left-Turn l block n ls right al ar below.0 (ground arith)

      take_right :
          (right : List ℕ)
          → All (InZone n) right
          → FromOn block right
          → is_buddy right block n ≡ true
          → Turn n
              (weight measure n left + weight measure n right)
              block
              (true, block, relink left (tail right))
      take_right [] ar from y = cc
      take_right (r ∷ rs) ar from y = right-Turn r block n left rs al ar inside from (ground arith)

  pub add_to_zone-Turn :
      (block n : ℕ) (zone : List ℕ)
      → All (InZone n) zone
      → InZone n block
      → Turn n (weight measure n zone) block (add_to_zone block n zone)
  unfolding add_to_zone weight
  add_to_zone-Turn block n zone all inside =
      let (al, ar) = All-neighbours (InZone n) block [] zone tt all in
      let split : weight measure n (neighbours block [] zone).0
            + weight measure n (neighbours block [] zone).1
          ≡ weight measure n zone =
        weight-neighbours n block [] zone ∙ nothing in
      subst (λ w. Turn n w block (add_to_zone block n zone)) split
        (link-Turn (neighbours block [] zone).0 (neighbours block [] zone).1 block n al ar
          (All-left block [] zone tt) (FromOn-right block [] zone) inside)
    where
      nothing : weight measure n [] + weight measure n zone ≡ weight measure n zone
      nothing = omega arith
