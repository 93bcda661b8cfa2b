-- ===== src/Memory/Tests.antt =====
-- Reservations of three pages, and the memory around them.
use viengoos.Common.{
  ℕ, zero, suc, ◌+◌, ◌≤◌, ◌≡◌, ◌⊎◌, inl, inr, sym, subst, ◌∙◌, refl, arith, true, false, Option,
  none, some, List, [], ◌∷◌, get_elem?, if◌then◌else◌, ◌>>=◌, Bool-cases,
}
use mathlib.Core.Option.{some-injective, none-ne-some}
use viengoos.Memory.Add.{Added, memory_add-Added}
use viengoos.Memory.Clear.{Cleared, others, of_type, let_go, memory_reservation_clear-Cleared}
use viengoos.Memory.Order.{Ordered, Finder}
use viengoos.Memory.Reserve.{
  detach, prev, sides, coalesce, reserve_beside, reserve_apart, memory_reserve,
}
use viengoos.Memory.Reserved.{Reserves, memory_reserve_cases}
use viengoos.Memory.{Reservation, Memory, overlaps, past_null, memory_add, memory_reservation_clear}
use viengoos.Zalloc.Pools.{IsDisjoint, free_count}
use viengoos.Zalloc.Turn.{total, weight}
use viengoos.Memory.Spare.{spare}
use viengoos.Zalloc.Empty.{no_memory, no_memory-IsPool}

-- The first one that overlaps.
unfoldable search : List Reservation → ℕ → ℕ → Option ℕ
search [] start end = none
search (r ∷ rs) start end =
    let further = search rs start end >>= λ i. some (suc i) in
    if overlaps r start end then some 0 else further

-- Either none overlaps, or the search gives one that does.
Searched : List Reservation → ℕ → ℕ → Type 0
Searched l start end =
    ((search l start end ≡ none)
      × ((i : ℕ) (r : Reservation) → get_elem? l i ≡ some r → overlaps r start end ≡ false))
    ⊎ ((i : ℕ) × (r : Reservation) × (search l start end ≡ some i)
        × (get_elem? l i ≡ some r)
        × (overlaps r start end ≡ true))

none_of_both :
    (r : Reservation) (rs : List Reservation) (start end : ℕ)
    → overlaps r start end ≡ false
    → ((i : ℕ) (s : Reservation) → get_elem? rs i ≡ some s → overlaps s start end ≡ false)
    → (i : ℕ) (s : Reservation) → get_elem? (r ∷ rs) i ≡ some s
    → overlaps s start end ≡ false
none_of_both r rs start end apart free zero s at =
    subst (λ q. overlaps q start end ≡ false) (some-injective r s at) apart
none_of_both r rs start end apart free (suc i) s at = free i s at

search_cases : (l : List Reservation) (start end : ℕ) → Searched l start end
unfolding search Searched
search_cases [] start end = inl (refl, λ i r e. absurd (none-ne-some r e))
search_cases (r ∷ rs) start end = elim (Bool-cases (overlaps r start end)) [
  | inl over ↦ inr (0, r, rw over refl, refl, over)
  | inr apart ↦ elim (search_cases rs start end) [
    | inl (e, free) ↦ inl (rw (apart, e) refl, none_of_both r rs start end apart free)
    | inr (i, s, e, at, over) ↦ inr (suc i, s, rw (apart, e) refl, at, over)
  ]
]

search-Finder : Finder search
unfolding Searched
search-Finder = record {
  none_overlaps = λ l start end e i r at. elim (search_cases l start end) [
    | inl (_, free) ↦ free i r at
    | inr (j, s, f, _, _) ↦ absurd (none-ne-some j (sym e ∙ f))
  ];
  overlaps_it = λ l start end i e. elim (search_cases l start end) [
    | inl (f, _) ↦ absurd (none-ne-some i (sym f ∙ e))
    | inr (j, s, f, at, over) ↦
        let same = some-injective j i (sym f ∙ e) in
        (s, subst (λ k. get_elem? l k ≡ some s) same at, over)
  ];
}

-- Of 16 pages from 4k on, a byte of the third one and two pages more are reserved.
abbrev in_use : List Reservation
in_use =
    record { start = 12388; end = 12488; type = 1 }
    ∷ record { start = 32768; end = 40959; type = 2 }
    ∷ []

in_use-Ordered : Ordered in_use
in_use-Ordered = (omega arith, (omega arith, tt), (omega arith, tt, tt))

abbrev empty : Memory
empty = record { pool = no_memory; memory_total = 0 }

spare_once : (x : ℕ) → free_count x no_memory + spare in_use (past_null 4096) 69631 x ≤ 1
unfolding free_count total weight spare
spare_once x = ground arith

let_go_once : (x : ℕ) → free_count x no_memory + let_go (others 2 in_use) (of_type 2 in_use) x ≤ 1
unfolding free_count total weight let_go
let_go_once x = ground arith

memory_add-Added_example :
    (m' : Memory) × (memory_add search in_use empty 4096 69631 ≡ some m')
    × Added in_use (past_null 4096) 69631 empty m'
    × IsDisjoint m'.pool
memory_add-Added_example =
    memory_add-Added search in_use empty 4096 69631 search-Finder in_use-Ordered
      (omega arith, (omega arith, tt)) no_memory-IsPool spare_once refl refl (omega arith)
      (omega arith) (omega arith) (omega arith)

memory_reservation_clear-Cleared_example :
    (m' : Memory) × (memory_reservation_clear search 2 in_use empty ≡ some (others 2 in_use, m'))
    × Cleared 2 [] in_use empty m'
    × IsDisjoint m'.pool
memory_reservation_clear-Cleared_example =
    memory_reservation_clear-Cleared search 2 in_use empty search-Finder in_use-Ordered
      ((omega arith, omega arith), ((omega arith, omega arith), tt)) no_memory-IsPool let_go_once
      (omega arith) (omega arith)

memory_reserve_cases_example : Reserves search in_use 20480 24575 1
memory_reserve_cases_example =
    memory_reserve_cases search in_use 20480 24575 1 search-Finder in_use-Ordered (omega arith)
      (omega arith) (omega arith) (omega arith)
      ((omega arith, omega arith), ((omega arith, omega arith), tt))

-- A region between two reservations of its type: what was reserved on the right is lost.
abbrev two_sides : List Reservation
two_sides =
    record { start = 4096; end = 8191; type = 1 }
    ∷ record { start = 12288; end = 16383; type = 1 }
    ∷ []

right_is_lost :
    memory_reserve search two_sides 8192 12287 1
    ≡ some (true, record { start = 4096; end = 12287; type = 1 } ∷ [])
unfolding memory_reserve reserve_apart reserve_beside sides prev coalesce detach search overlaps
right_is_lost = refl

-- A region behind the last reservation: `right` is NULL.
behind_the_last : memory_reserve search two_sides 16384 20479 1 ≡ none
unfolding memory_reserve reserve_apart reserve_beside sides prev coalesce detach search overlaps
behind_the_last = refl
