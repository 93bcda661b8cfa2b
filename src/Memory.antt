-- ===== src/Memory.antt =====
-- The reservations of physical memory, and the memory that is given to the free pool:
-- viengoos/memory.c. The tree of the reservations is their list in its order, so that `prev` and
-- `next` are the places before and behind, and `find` is an operation on it (Memory.Order.Finder).
-- A failed assert, a panic and a missing reservation are `none`.
pub mod Order
pub mod Spare
pub mod Gap
pub mod Add
pub mod Clear
pub mod Reserve
pub mod Reserved
mod Tests
use viengoos.Common.{
  ℕ, zero, suc, ◌+◌, ◌-◌, ◌*◌, ◌/◌, ◌%◌, ◌^◌, Bool, true, false, not, ◌&&◌, Option, none, some,
  List, [], ◌∷◌, ◌++◌, get_elem?, ltb, ◌==◌, ◌>>=◌, ◌>>◌, assert, if◌then◌else◌,
}
use viengoos.Zalloc.{Pool, Run, returns, panics, past_zones, zfree}

-- struct reservation
pub record Reservation : Type 0 where
  pub start : ℕ
  pub end : ℕ
  pub type : ℕ

-- The free pool and memory_total.
pub record Memory : Type 0 where
  pub pool : Pool
  pub memory_total : ℕ

-- hurd_btree_reservation_find: the place of a reservation that overlaps a region.
abbrev pub Find : Type 0
Find = List Reservation → ℕ → ℕ → Option ℕ

-- reservation_node_compare gives 0.
unfoldable pub overlaps : Reservation → ℕ → ℕ → Bool
overlaps r start end = not (ltb r.end start) && not (ltb end r.start)

-- `prev && prev->region.end > start`, for the reservation at a place
unfoldable pub ends_after : ℕ → Option Reservation → Bool
ends_after start none = false
ends_after start (some r) = ltb start r.end

-- The first reservation that overlaps, from one that does.
unfoldable pub walk : List Reservation → ℕ → ℕ → ℕ
walk l start zero = zero
walk l start (suc i) =
    let before = walk l start i in if ends_after start (get_elem? l i) then before else suc i

-- `start_reservation` and `end_reservation`
unfoldable pub clip : Reservation → ℕ → ℕ → ℕ × ℕ
clip r start end =
    ((if ltb start r.start then r.start else start), (if ltb r.end end then r.end else end))

-- memory_is_reserved, once a reservation was looked for
unfoldable pub reserved_from : List Reservation → ℕ → ℕ → Option ℕ → Option (Option (ℕ × ℕ))
reserved_from l start end none = some none
reserved_from l start end (some i) =
    get_elem? l (walk l start i) >>= λ r. some (some (clip r start end))

-- memory_is_reserved
unfoldable pub memory_is_reserved : Find → List Reservation → ℕ → ℕ → Option (Option (ℕ × ℕ))
memory_is_reserved find l start end =
    assert (ltb start end) >> reserved_from l start end (find l start end)

unfoldable pub page_down : ℕ → ℕ
page_down x = x / 4096 * 4096

-- `start_reservation` and `end_reservation` in memory_add
unfoldable pub gap_end : ℕ → Option (ℕ × ℕ) → ℕ × ℕ
gap_end end none = ((end + 1) % 2 ^ 32, (end + 1) % 2 ^ 32)
gap_end end (some (from, till)) = (page_down from, till)

unfoldable pub returned : Run Pool → Option Pool
returned (returns p) = some p
returned panics = none
returned past_zones = none

-- The memory from `start` to `till` is freed, where there is any.
unfoldable pub free_gap : Memory → ℕ → ℕ → Option Memory
free_gap m start till =
    let size = (till + 2 ^ 32 - start) % 2 ^ 32 in
    let freed = returned (zfree m.pool start size) >>= λ p.
    some (record { pool = p; memory_total = (m.memory_total + size / 4096) % 2 ^ 32 }) in
    if ltb 0 size then freed else some m

-- The loop of memory_add.
unfoldable pub add_loop : ℕ → Find → List Reservation → ℕ → Memory → ℕ → Option Memory
add_loop zero find l end m start = none
add_loop (suc fuel) find l end m start =
    let more = memory_is_reserved find l start end >>= λ found.
    free_gap m start (gap_end end found).0 >>= λ m'.
    add_loop fuel find l end m' (page_down (((gap_end end found).1 + 4095) % 2 ^ 32)) in
    if ltb start end then more else some m

-- The page at address 0 is dropped.
unfoldable pub past_null : ℕ → ℕ
past_null start = if start == 0 then 4096 else start

-- memory_add; the fuel is the number of the pages up to `end`, and one.
unfoldable pub memory_add : Find → List Reservation → Memory → ℕ → ℕ → Option Memory
memory_add find l m start end =
    assert (start % 4096 == 0)
    >> (assert (end % 4096 == 4095)
        >> add_loop (suc (suc (end / 4096))) find l end m (past_null start))

-- memory_reservation_clear, with the reservations that it has passed and kept.
unfoldable pub clear_loop :
    Find → ℕ → List Reservation → List Reservation → Memory → Option (List Reservation × Memory)
clear_loop find type kept [] m = some (kept, m)
clear_loop find type kept (r ∷ rs) m =
    let cleared =
      memory_add find (kept ++ rs) m (page_down r.start) (page_down r.end + 4095) >>= λ m'.
      clear_loop find type kept rs m' in
    let passed = clear_loop find type (kept ++ r ∷ []) rs m in
    if r.type == type then cleared else passed

-- memory_reservation_clear
unfoldable pub memory_reservation_clear :
    Find → ℕ → List Reservation → Memory → Option (List Reservation × Memory)
memory_reservation_clear find type l m = clear_loop find type [] l m
