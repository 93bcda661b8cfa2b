-- ===== src/Ihash/Probe.antt =====
-- The two searches as searches of one list of slots.
use native.Mathlib.Nat.{mod-lt, mod_self, mod-eq_of_lt}
use viengoos.Common.{
  ℕ, zero, suc, ◌+◌, ◌*◌, ◌%◌, ◌^◌, ◌<◌, ◌≡◌, ◌≢◌, ◌⊎◌, inl, inr, ap, ◌∙◌, arith, Bool, true, false,
  Option, none, some, List, [], ◌∷◌, All, ◌==◌, if◌then◌else◌, Bool-cases, Option-cases, ℕ_discrete,
}
use viengoos.Ihash.{Table, stops, next_up, next_down, next_step, find_loop, remember, seek_loop}

-- The first slot that passes the test.
unfoldable pub first : (ℕ → Bool) → List ℕ → Option ℕ
first p [] = none
first p (x ∷ xs) = if p x then some x else first p xs

-- `f` is in the list, and no slot before it passes.
abbrev pub Reaches : (ℕ → Bool) → ℕ → List ℕ → Type 0
Reaches p f [] = ⊥
Reaches p f (x ∷ xs) = (x ≡ f) ⊎ ((p x ≡ false) × Reaches p f xs)

pub first-Reaches : (p : ℕ → Bool) (xs : List ℕ) {j : ℕ} → first p xs ≡ some j → Reaches p j xs
unfolding first
first-Reaches p [] e = cc
first-Reaches p (x ∷ xs) e = elim (Bool-cases (p x)) [
  | inl y ↦ inl (ground arith)
  | inr n ↦ inr (n, first-Reaches p xs (ground arith))
]

pub first-passes : (p : ℕ → Bool) (xs : List ℕ) {j : ℕ} → first p xs ≡ some j → p j ≡ true
unfolding first
first-passes p [] e = cc
first-passes p (x ∷ xs) {j} e = elim (Bool-cases (p x)) [
  | inl y ↦ let same : x ≡ j = ground arith in rw (← same) y
  | inr n ↦ first-passes p xs (ground arith)
]

-- A change of the test at a slot where the search does not end, so that it no longer passes there.
pub first_kept :
    (p p' : ℕ → Bool) (f : ℕ) (xs : List ℕ) {j : ℕ}
    → ((x : ℕ) → x ≢ f → p' x ≡ p x)
    → p' f ≡ false
    → j ≢ f
    → first p xs ≡ some j
    → first p' xs ≡ some j
unfolding first
first_kept p p' f [] same off ne e = cc
first_kept p p' f (x ∷ xs) {j} same off ne e = elim (ℕ_discrete x f) [
  | yes here ↦ elim (Bool-cases (p x)) [
    | inl y ↦ absurd (ne (ground arith))
    | inr n ↦
        let passed : p' x ≡ false = rw here off in ground (arith, first_kept p p' f xs same off ne)
  ]
  | no other ↦ ground (arith, same x other, first_kept p p' f xs same off ne)
]

-- A change of the test at a slot that the search reaches, so that it passes there.
pub first_there :
    (p p' : ℕ → Bool) (f : ℕ) (xs : List ℕ)
    → ((x : ℕ) → x ≢ f → p' x ≡ p x)
    → p' f ≡ true
    → Reaches p f xs
    → first p' xs ≡ some f
unfolding first
first_there p p' f [] same on r = elim r [ ]
first_there p p' f (x ∷ xs) same on (inl here) =
    let passed : p' x ≡ true = rw here on in ground (arith, passed, here)
first_there p p' f (x ∷ xs) same on (inr (n, r)) = elim (ℕ_discrete x f) [
  | yes here ↦ let passed : p' x ≡ true = rw here on in ground (arith, passed, here)
  | no other ↦ ground (arith, same x other, first_there p p' f xs same on r)
]

pub Reaches-All :
    (p : ℕ → Bool) (f n : ℕ) (xs : List ℕ) → All (λ x. x < n) xs → Reaches p f xs → f < n
Reaches-All p f n [] all r = elim r [ ]
Reaches-All p f n (x ∷ xs) all (inl here) = omega arith
Reaches-All p f n (x ∷ xs) all (inr (m, r)) = Reaches-All p f n xs all.1 r

-- The slots that both loops look at, in order; `none` means that the fuel ran out.
unfoldable pub probes : ℕ → ℕ → ℕ → ℕ → ℕ → Option (List ℕ)
probes zero size up down i = none
probes (suc fuel) size up down i =
    let up' = next_up size up i in
    let down' = next_down size down i in
    let i' = next_step size i in
    let rest = probes fuel size up' down' i' in
    if i' == 0
    then some (up' ∷ down' ∷ [])
    else elim rest [ none ↦ none | some xs ↦ some (up' ∷ down' ∷ xs) ]

pub next_up-lt : (size up i : ℕ) → 0 < size → next_up size up i < size
unfolding next_up
next_up-lt size up i pos = mod-lt ((up + i) % 2 ^ 32) pos

pub next_down-lt : (size down i : ℕ) → 0 < size → next_down size down i < size
unfolding next_down
next_down-lt size down i pos = mod-lt _ pos

step_last : (size i : ℕ) → i + 2 ≡ size → size < 2 ^ 31 → next_step size i ≡ 0
unfolding next_step
step_last size i e small =
    ap (λ (x : ℕ). x % size) {x = (i + 2) % 2 ^ 32} {y = size} (omega arith) ∙ mod_self size

step_more : (size i : ℕ) → i + 2 < size → size < 2 ^ 31 → next_step size i ≡ i + 2
unfolding next_step
step_more size i h small =
    ap (λ (x : ℕ). x % size) {x = (i + 2) % 2 ^ 32} {y = i + 2} (omega arith) ∙ mod-eq_of_lt h

-- The step goes through the odd numbers below an odd size, and ends at 0.
pub probes_total :
    (fuel size up down i h k : ℕ)
    → size ≡ 2 * h + 1
    → i ≡ 2 * k + 1
    → i < size
    → size < 2 ^ 31
    → h < k + fuel
    → (xs : List ℕ) × (probes fuel size up down i ≡ some xs) × All (λ x. x < size) xs
unfolding probes
probes_total zero size up down i h k odd step small bound enough = absurd (omega arith)
probes_total (suc fuel) size up down i h k odd step small bound enough =
    let up' = next_up size up i in
    let down' = next_down size down i in
    let up_lt = next_up-lt size up i (omega arith) in
    let down_lt = next_down-lt size down i (omega arith) in
    elim (ℕ_discrete (i + 2) size) [
      | yes last ↦
          (up' ∷ down' ∷ [], ground (arith, step_last size i last bound), (up_lt, (down_lt, tt)))
      | no more ↦
          let advance = step_more size i (omega arith) bound in
          let (xs, found, all) =
            probes_total fuel size up' down' (next_step size i) h (suc k) odd
              (omega (arith, advance)) (omega (arith, advance)) bound (omega arith) in
          (up' ∷ down' ∷ xs, ground (arith, advance, found), (up_lt, (down_lt, all)))
    ]

abbrev pub default : ℕ → Option ℕ → ℕ
default d none = d
default d (some x) = x

module _ (t : Table) (key idx : ℕ) where
  pub find_loop-first :
      (fuel up down i : ℕ) {xs : List ℕ}
      → probes fuel t.size up down i ≡ some xs
      → find_loop fuel t key idx up down i ≡ some (default idx (first (stops t key) xs))
  unfolding probes find_loop first
  find_loop-first zero up down i e = cc
  find_loop-first (suc fuel) up down i {xs} e =
      let up' = next_up t.size up i in
      let down' = next_down t.size down i in
      let i' = next_step t.size i in
      elim (Option-cases (probes fuel t.size up' down' i')) [
        | inl out ↦ ground (arith, out)
        | inr (ys, more) ↦ ground (arith, more, find_loop-first fuel up' down' i' more)
      ]

  -- What the loop of replace_one computes over the same slots.
  unfoldable pub scan : List ℕ → ℕ → ℕ × ℕ
  scan [] free = (idx, free)
  scan (x ∷ xs) free = if stops t key x then (x, free) else scan xs (remember t idx x free)

  pub seek_loop-scan :
      (fuel free up down i : ℕ) {xs : List ℕ}
      → 0 < t.size
      → probes fuel t.size up down i ≡ some xs
      → seek_loop fuel t key idx free up down i ≡ some (scan xs free)
  unfolding probes seek_loop scan
  seek_loop-scan zero free up down i pos e = cc
  seek_loop-scan (suc fuel) free up down i {xs} pos e =
      let up' = next_up t.size up i in
      let down' = next_down t.size down i in
      let i' = next_step t.size i in
      let again : down' % t.size ≡ down' = mod-eq_of_lt (next_down-lt t.size down i pos) in
      let free' = remember t idx down' (remember t idx up' free) in
      elim (Option-cases (probes fuel t.size up' down' i')) [
        | inl out ↦ ground (arith, out, again)
        | inr (ys, more) ↦
            ground (arith, more, again, seek_loop-scan fuel free' up' down' i' pos more)
      ]
