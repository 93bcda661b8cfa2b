-- ===== src/Ihash/Find.antt =====
-- hurd_ihash_find finds exactly the items of the table.
use native.Mathlib.Nat.{mod-lt}
use viengoos.Common.{
  ℕ, ◌+◌, ◌*◌, ◌%◌, ◌^◌, ◌≤◌, ◌<◌, ◌≡◌, ◌⊎◌, inl, inr, refl, ◌∙◌, arith, true, false, none, some,
  List, [], ◌∷◌, All, length, if◌then◌else◌, Bool-cases,
}
use viengoos.Ihash.Probe.{first, probes, probes_total, default, find_loop-first}
use viengoos.Ihash.{Table, value_at, key_at, index_empty, index_valid, stops, find_index, find}

-- The slots at which a search for the key looks, in order.
unfoldable pub route : ℕ → ℕ → List ℕ
route size key =
    let idx = key % size in idx ∷ elim (probes size size idx idx 1) [ none ↦ [] | some xs ↦ xs ]

-- The item at the slot is found by its key.
abbrev pub IsFound : Table → ℕ → Type 0
IsFound t j = first (stops t (key_at t j)) (route t.size (key_at t j)) ≡ some j

-- A size that the probe is made for: odd, and small enough for an unsigned int.
pub record IsShaped (size : ℕ) : Type 0 where
  pub half : ℕ
  pub odd : size ≡ 2 * half + 1
  pub two : 0 < half
  pub bound : size < 2 ^ 31

pub record IsTable (t : Table) : Type 0 where
  pub shaped : IsShaped t.size
  pub long : t.size ≤ length t.items
  pub placed : (j : ℕ) → index_empty t j ≡ false → IsFound t j

pub route_lem :
    (size key : ℕ)
    → IsShaped size
    → (xs : List ℕ) × (probes size size (key % size) (key % size) 1 ≡ some xs)
      × (route size key ≡ (key % size) ∷ xs)
      × All (λ x. x < size) (route size key)
unfolding route
route_lem size key s =
    let (xs, e, all) =
      probes_total size size (key % size) (key % size) 1 s.half 0 s.odd refl
        (omega (arith, s.odd, s.two)) s.bound (omega (arith, s.odd)) in
    (xs, e, rw e, rw e (mod-lt key (omega (arith, s.odd)), all))

-- The slot with which find_index ends.
unfoldable pub index_of : Table → ℕ → ℕ
index_of t key = default (key % t.size) (first (stops t key) (route t.size key))

pub find_index-first :
    (t : Table) (key : ℕ) → IsShaped t.size → find_index t key ≡ some (index_of t key)
unfolding find_index index_of first
find_index-first t key s =
    let (xs, e, r, _) = route_lem t.size key s in
    rw r (
      ground (arith, find_loop-first t key (key % t.size) t.size (key % t.size) (key % t.size) 1 e))

-- The slot holds an item with the key.
pub record Holds (t : Table) (key j : ℕ) : Type 0 where
  pub live : index_empty t j ≡ false
  pub named : key_at t j ≡ key

pub valid-Holds : (t : Table) (key j : ℕ) → index_valid t j key ≡ true → Holds t key j
unfolding index_valid
valid-Holds t key j e = record { live = ground arith; named = ground arith }

pub Holds-valid : (t : Table) (key j : ℕ) → Holds t key j → index_valid t j key ≡ true
unfolding index_valid
Holds-valid t key j h = ground (arith, h.live, h.named)

-- An item with the key is where the search ends.
pub index_of-Holds : (t : Table) (key j : ℕ) → IsTable t → Holds t key j → index_of t key ≡ j
unfolding index_of
index_of-Holds t key j w h =
    let f : first (stops t key) (route t.size key) ≡ some j = rw (← h.named) (w.placed j h.live) in
    rw f

pub find-index_of :
    (t : Table) (key : ℕ)
    → IsShaped t.size
    → find t key
      ≡ some (if index_valid t (index_of t key) key then value_at t (index_of t key) else 0)
unfolding find
find-index_of t key s = ground (arith, find_index-first t key s, s.odd)

pub find-Holds :
    (t : Table) (key j : ℕ) → IsTable t → Holds t key j → find t key ≡ some (value_at t j)
find-Holds t key j w h =
    find-index_of t key w.shaped ∙ rw (index_of-Holds t key j w h, Holds-valid t key j h)

pub find_none :
    (t : Table) (key : ℕ) → IsTable t → ((j : ℕ) → ¬ Holds t key j) → find t key ≡ some 0
find_none t key w none_ = elim (Bool-cases (index_valid t (index_of t key) key)) [
  | inl y ↦ absurd (none_ (index_of t key) (valid-Holds t key (index_of t key) y))
  | inr n ↦ find-index_of t key w.shaped ∙ rw n
]

-- Whether the table has the key.
pub present :
    (t : Table) (key : ℕ) → IsTable t → ((j : ℕ) × Holds t key j) ⊎ ((j : ℕ) → ¬ Holds t key j)
present t key w = elim (Bool-cases (index_valid t (index_of t key) key)) [
  | inl y ↦ inl (index_of t key, valid-Holds t key (index_of t key) y)
  | inr n ↦ inr λ j h.
      let at : index_valid t (index_of t key) key ≡ true =
        rw (index_of-Holds t key j w h) (Holds-valid t key j h) in
      cc
]

-- hurd_ihash_find ends on a well-formed table; it gives the value of the slot that holds the
-- key, or NULL if no slot holds it.
pub find_cases :
    (t : Table) (key : ℕ)
    → IsTable t
    → ((j : ℕ) × Holds t key j × (find t key ≡ some (value_at t j)))
      ⊎ (((j : ℕ) → ¬ Holds t key j) × (find t key ≡ some 0))
find_cases t key w = elim (present t key w) [
  | inl (j, h) ↦ inl (j, h, find-Holds t key j w h)
  | inr n ↦ inr (n, find_none t key w n)
]
