-- ===== src/Ihash/Init.antt =====
-- A table in a fresh buffer, and a buffer that is large enough.
use mathlib.Core.List.{tail}
use viengoos.Common.{
  ℕ, zero, suc, ◌/◌, ◌%◌, ◌^◌, ◌≤◌, ◌<◌, ◌≡◌, inl, inr, refl, arith, Bool, true, false, Option,
  none, some, List, [], ◌∷◌, All, length, get_or, ltb, Bool-cases,
}
use viengoos.Ihash.Find.{IsTable, IsShaped, find_none}
use viengoos.Ihash.Sizes.{ihash_sizes, item_size, init_internal, pick_size, init_with_buffer}
use viengoos.Ihash.{Table, Item, item_at, empty, index_empty, find}

pick_size-le :
    (ss : List ℕ) (m : ℕ) (before : Option ℕ) (P : ℕ → Type 0) {s : ℕ}
    → All P ss
    → ((b : ℕ) → before ≡ some b → (b ≤ m) × P b)
    → pick_size ss m before ≡ some s
    → (s ≤ m) × P s
unfolding pick_size
pick_size-le [] m before P all h e = h _ e
pick_size-le (x ∷ xs) m before P all h e = elim (Bool-cases (ltb m x)) [
  | inl large ↦ h _ (ground arith)
  | inr fits ↦
      pick_size-le xs m (some x) P all.1
        (λ b q.
          let same : x ≡ b = ground arith in
          let room : x ≤ m = ground arith in rw (← same) (room, all.0))
        (ground arith)
]

pick_size-some : (ss : List ℕ) (m b : ℕ) → (s : ℕ) × (pick_size ss m (some b) ≡ some s)
unfolding pick_size
pick_size-some [] m b = (b, refl)
pick_size-some (x ∷ xs) m b = elim (Bool-cases (ltb m x)) [
  | inl large ↦ (b, rw large)
  | inr fits ↦ rw fits (pick_size-some xs m x)
]

-- An odd size from 3 on.
abbrev IsGood : ℕ → Type 0
IsGood s = (s % 2 ≡ 1) × (2 < s)

sizes-IsGood : All IsGood ihash_sizes
sizes-IsGood = omega arith

good-IsShaped : (s m : ℕ) → IsGood s → s ≤ m → m < 2 ^ 31 → IsShaped s
good-IsShaped s m (odd, three) le small = record {
  half = s / 2;
  odd = omega arith;
  two = omega arith;
  bound = omega arith;
}

item-fresh :
    (xs : List Item) (j : ℕ)
    → All (λ x. x.value ≡ empty) xs
    → (get_or xs j (record { value = empty; key = 0 })).value ≡ empty
item-fresh [] j all = refl
item-fresh (x ∷ xs) zero all = all.0
item-fresh (x ∷ xs) (suc j) all = item-fresh xs j all.1

pub fresh-IsTable :
    (t : Table)
    → All (λ x. x.value ≡ empty) t.items
    → t.size ≤ length t.items
    → IsShaped t.size
    → IsTable t × ((j : ℕ) → index_empty t j ≡ true)
unfolding index_empty item_at
fresh-IsTable t all long shaped =
    (record { shaped = shaped; long = long; placed = λ j e. let v = vacant j in cc }, vacant)
  where
    vacant : (j : ℕ) → index_empty t j ≡ true
    vacant j = ground (arith, item-fresh t.items j all)

items_few : (size : ℕ) (large : Bool) → size < 2 ^ 32 → size / item_size large < 2 ^ 31
unfolding item_size
items_few size true h = omega arith
items_few size false h = omega arith

-- hurd_ihash_init_with_buffer of a zeroed buffer, of less than 2^32 bytes and with room for 3
-- items or more, gives a well-formed table in which no key is found.
pub init_with_buffer_cases :
    (large has_locp : Bool) (buffer : List Item) (size k : ℕ)
    → size < 2 ^ 32
    → 3 ≤ size / item_size large
    → size / item_size large ≤ length buffer
    → All (λ x. x.value ≡ empty) buffer
    → (t : Table) × (init_with_buffer large has_locp buffer size ≡ some t)
      × IsTable t
      × (find t k ≡ some 0)
unfolding init_with_buffer pick_size
init_with_buffer_cases large has_locp buffer size k small three long all =
    let m = size / item_size large in
    let (s, picked) = pick_size-some (tail ihash_sizes) m 3 in
    let whole : pick_size ihash_sizes m none ≡ some s = ground (arith, picked) in
    let (le, good) = pick_size-le ihash_sizes m none IsGood sizes-IsGood (λ b q. cc) whole in
    let t = record (init_internal large has_locp) { items = buffer; size = s } in
    let (w, vacant) =
      fresh-IsTable t all (omega arith) (good-IsShaped s m good le (items_few size large small)) in
    (t, rw whole, w, find_none t k w (λ j h. let v = vacant j in let l = h.live in cc))
