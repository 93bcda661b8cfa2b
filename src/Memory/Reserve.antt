-- ===== src/Memory/Reserve.antt =====
-- The reservation of memory: memory_reserve of viengoos/memory.c. A reservation that is not there
-- and whose fields are read, as of `right` where `overlap` is the last one, is `none`.
use viengoos.Common.{
  ℕ, zero, suc, ◌+◌, ◌-◌, ◌%◌, ◌^◌, Bool, true, false, ◌&&◌, ◌||◌, Option, none, some, List, [],
  ◌∷◌, get_elem?, set, length, ltb, ◌==◌, ◌>>=◌, ◌>>◌, assert, if◌then◌else◌,
}
use viengoos.Memory.{Reservation, Find}

-- hurd_btree_reservation_insert
unfoldable pub insert : List Reservation → Reservation → List Reservation
insert [] n = n ∷ []
insert (r ∷ rs) n = if ltb n.end r.start then n ∷ r ∷ rs else r ∷ insert rs n

-- hurd_btree_reservation_detach
unfoldable pub detach : List Reservation → ℕ → List Reservation
detach [] i = []
detach (r ∷ rs) zero = rs
detach (r ∷ rs) (suc i) = r ∷ detach rs i

-- hurd_btree_reservation_prev
unfoldable pub prev : ℕ → Option ℕ
prev zero = none
prev (suc i) = some i

-- `left` and `right`, from the place of `overlap`
unfoldable pub sides : ℕ → Reservation → ℕ → ℕ → Option (ℕ × ℕ)
sides i overlap start end =
    let before = prev i >>= λ j. some (j, i) in
    let behind = assert ((overlap.end + 1) % 2 ^ 32 == start) >> some (i, suc i) in
    if overlap.start == (end + 1) % 2 ^ 32 then before else behind

-- The region is joined with that on the right, and that on the left; whether with any.
unfoldable pub coalesce : List Reservation → ℕ → ℕ → ℕ → ℕ → ℕ → Option (Bool × List Reservation)
coalesce l left right start end type = get_elem? l right >>= λ r. get_elem? l left >>= λ q.
    let with_right = r.start == (end + 1) % 2 ^ 32 && r.type == type in
    let with_left = (q.end + 1) % 2 ^ 32 == start && q.type == type in
    let joined = if with_right then set l right (record r { start = start }) else l in
    let rest = if with_right then detach joined right else joined in
    some (
      with_right || with_left,
      (if with_left then set rest left (record q { end = end }) else joined),
    )

-- A descriptor is taken for the region; MAX_RESERVATIONS is 128.
unfoldable pub new_reservation : List Reservation → ℕ → ℕ → ℕ → Option (Bool × List Reservation)
new_reservation l start end type =
    if ltb (length l) 128
    then some (true, insert l (record { start = start; end = end; type = type }))
    else none

-- Once the reservations beside the region were looked for.
unfoldable pub reserve_beside :
    List Reservation → ℕ → ℕ → ℕ → Option ℕ → Option (Bool × List Reservation)
reserve_beside l start end type none = new_reservation l start end type
reserve_beside l start end type (some i) = get_elem? l i >>= λ overlap.
    sides i overlap start end >>= λ n. coalesce l n.0 n.1 start end type >>= λ c.
    if c.0 then some (true, c.1) else new_reservation l start end type

-- Once a reservation that overlaps was looked for.
unfoldable pub reserve_apart :
    Find → List Reservation → ℕ → ℕ → ℕ → Option ℕ → Option (Bool × List Reservation)
reserve_apart find l start end type (some i) = some (false, l)
reserve_apart find l start end type none =
    reserve_beside l start end type (find l ((start + 2 ^ 32 - 1) % 2 ^ 32) ((end + 1) % 2 ^ 32))

-- memory_reserve
unfoldable pub memory_reserve :
    Find → List Reservation → ℕ → ℕ → ℕ → Option (Bool × List Reservation)
memory_reserve find l start end type =
    assert (ltb start end) >> reserve_apart find l start end type (find l start end)
