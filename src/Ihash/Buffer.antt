-- ===== src/Ihash/Buffer.antt =====
-- The buffer that hurd_ihash_buffer_size asks for is large enough.
use native.Mathlib.Nat.{mul-div_cancel, mod-eq_of_lt}
use viengoos.Common.{
  ℕ, ◌*◌, ◌/◌, ◌%◌, ◌^◌, ◌≤◌, ◌<◌, ◌≡◌, ◌⊎◌, inl, inr, refl, ap, ◌∙◌, subst, arith, Bool, true,
  false, ◌||◌, Option, none, some, List, [], ◌∷◌, leb, ◌==◌, Bool-cases,
}
use viengoos.Ihash.Sizes.{ihash_sizes, item_size, pick_size, fitting_size, load_factor, buffer_size}

-- Ascending, from `n` on.
abbrev Ascending : ℕ → List ℕ → Type 0
Ascending n [] = Unit
Ascending n (s ∷ ss) = (n < s) × Ascending s ss

abbrev Has : ℕ → List ℕ → Type 0
Has b [] = ⊥
Has b (s ∷ ss) = (s ≡ b) ⊎ Has b ss

sizes-Ascending : Ascending 2 ihash_sizes
sizes-Ascending = omega arith

has : ℕ → List ℕ → Bool
has b [] = false
has b (s ∷ ss) = s == b || has b ss

Has-has : (b : ℕ) (ss : List ℕ) → has b ss ≡ true → Has b ss
unfolding has
Has-has b [] e = cc
Has-has b (s ∷ ss) e = elim (Bool-cases (s == b)) [
  | inl y ↦ inl (ground arith)
  | inr n ↦ inr (Has-has b ss (ground arith))
]

-- The largest size of which the buffer's size is a word.
largest : Has 230444239 ihash_sizes
unfolding has
largest = Has-has 230444239 ihash_sizes refl

Has-lt : (n b : ℕ) (ss : List ℕ) → Ascending n ss → Has b ss → n < b
Has-lt n b [] up h = elim h [ ]
Has-lt n b (s ∷ ss) up (inl here) = omega arith
Has-lt n b (s ∷ ss) up (inr h) = omega (arith, Has-lt s b ss up.1 h)

fitting :
    (n w b : ℕ) (ss : List ℕ)
    → Ascending n ss
    → Has b ss
    → w ≤ b
    → (s : ℕ) × (fitting_size ss w ≡ some s) × (w ≤ s) × (s ≤ b) × Has s ss
unfolding fitting_size
fitting n w b [] up h le = elim h [ ]
fitting n w b (x ∷ xs) up (inl here) le = (x, ground arith, omega arith, omega arith, inl refl)
fitting n w b (x ∷ xs) up (inr h) le = elim (Bool-cases (leb w x)) [
  | inl y ↦ (x, rw y, ground arith, omega (arith, Has-lt x b xs up.1 h), inl refl)
  | inr m ↦
      let (s, e, low, high, among) = fitting x w b xs up.1 h le in (s, rw m e, low, high, inr among)
]

pick_stops :
    (s : ℕ) (ss : List ℕ) (before : Option ℕ) → Ascending s ss → pick_size ss s before ≡ before
unfolding pick_size
pick_stops s [] before up = refl
pick_stops s (x ∷ xs) before up = ground arith

pick-Has :
    (n s : ℕ) (ss : List ℕ) (before : Option ℕ)
    → Ascending n ss
    → Has s ss
    → pick_size ss s before ≡ some s
unfolding pick_size
pick-Has n s [] before up h = elim h [ ]
pick-Has n s (x ∷ xs) before up (inl here) =
    let next : Ascending s xs = subst (λ y. Ascending y xs) here up.1 in
    ground (arith, pick_stops s xs (some x) next, ap some here)
pick-Has n s (x ∷ xs) before up (inr h) =
    ground (arith, pick-Has x s xs (some x) up.1 h, Has-lt x s xs up.1 h)

bytes : (s : ℕ) (large : Bool) → s ≤ 230444239 → s * item_size large < 2 ^ 32
unfolding item_size
bytes s true h = omega arith
bytes s false h = omega arith

item_size-pos : (large : Bool) → 0 < item_size large
unfolding item_size
item_size-pos true = omega arith
item_size-pos false = omega arith

-- Where count * 100 is a 32-bit word and count * 100 / load is at most 230444239,
-- hurd_ihash_buffer_size gives the bytes of a size of the table of sizes,
-- hurd_ihash_init_with_buffer picks that size for such a buffer, and it is at least count * 100
-- / load.
pub buffer_size-pick_size :
    (count max_load : ℕ) (large : Bool)
    → count * 100 < 2 ^ 32
    → count * 100 / load_factor max_load ≤ 230444239
    → (s : ℕ) × (buffer_size count large max_load ≡ s * item_size large)
      × (pick_size ihash_sizes (buffer_size count large max_load / item_size large) none ≡ some s)
      × (count * 100 / load_factor max_load ≤ s)
unfolding buffer_size
buffer_size-pick_size count max_load large small fits =
    let wanted = count * 100 / load_factor max_load in
    let rounded : count * 100 % 2 ^ 32 ≡ count * 100 = mod-eq_of_lt small in
    let (s, e, low, high, among) =
      fitting 2 wanted 230444239 ihash_sizes sizes-Ascending largest fits in
    let size : buffer_size count large max_load ≡ s * item_size large =
      ground (arith, rounded, e, mod-eq_of_lt (bytes s large high)) in
    (
      s,
      size,
      ap (λ (x : ℕ). pick_size ihash_sizes (x / item_size large) none) size
          ∙ ap (λ (x : ℕ). pick_size ihash_sizes x none) (mul-div_cancel s (item_size-pos large))
          ∙ pick-Has 2 s ihash_sizes none sizes-Ascending among,
      low,
    )
