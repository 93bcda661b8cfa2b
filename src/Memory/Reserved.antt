-- ===== src/Memory/Reserved.antt =====
-- memory_reserve of a region that stands apart, and of one that overlaps a reservation.
use viengoos.Common.{
  ℕ, suc, ◌+◌, ◌-◌, ◌%◌, ◌^◌, ◌≤◌, ◌<◌, ◌≡◌, ◌≢◌, ◌⊎◌, inl, inr, refl, arith, Bool, true, false,
  ◌&&◌, ◌||◌, Option, none, some, List, [], ◌∷◌, All, length, ltb, leb, Bool-cases, get_elem?,
}
use viengoos.Memory.Order.{Ordered, Finder, All-get}
use viengoos.Memory.Reserve.{insert, new_reservation, reserve_beside, reserve_apart, memory_reserve}
use viengoos.Memory.{Reservation, Find, overlaps}

-- A reservation holds the byte.
unfoldable pub holds_byte : List Reservation → ℕ → Bool
holds_byte [] b = false
holds_byte (r ∷ rs) b = (leb r.start b && leb b r.end) || holds_byte rs b

-- A byte is between the region and the reservation.
abbrev pub Apart : ℕ → ℕ → Reservation → Type 0
Apart start end r = (r.end + 1 < start) ⊎ (end + 1 < r.start)

All-insert :
    (P : Reservation → Type 0) (l : List Reservation) (n : Reservation)
    → All P l
    → P n
    → All P (insert l n)
unfolding insert
All-insert P [] n a p = (p, tt)
All-insert P (r ∷ rs) n (q, a) p = elim (Bool-cases (ltb n.end r.start)) [
  | inl h ↦ rw h (p, (q, a))
  | inr h ↦ rw h (q, All-insert P rs n a p)
]

All-beyond :
    (n r : Reservation) (rs : List Reservation)
    → n.end < r.start
    → r.start ≤ r.end
    → All (λ s. r.end < s.start) rs
    → All (λ s. n.end < s.start) rs
All-beyond n r [] h g a = tt
All-beyond n r (s ∷ rs) h g (p, a) = (omega arith, All-beyond n r rs h g a)

insert-Ordered :
    (l : List Reservation) (n : Reservation)
    → Ordered l
    → n.start ≤ n.end
    → All (Apart n.start n.end) l
    → Ordered (insert l n)
unfolding insert
insert-Ordered [] n o p a = (p, tt, tt)
insert-Ordered (r ∷ rs) n (q, b, o) p (apart, a) = elim (Bool-cases (ltb n.end r.start)) [
  | inl h ↦
      let before : n.end < r.start = ground (arith, h) in
      rw h (p, (before, All-beyond n r rs before q b), (q, b, o))
  | inr h ↦
      let behind : r.end < n.start = ground (arith, h, apart) in
      rw h (q, All-insert (λ s. r.end < s.start) rs n b behind, insert-Ordered rs n o p a)
]

insert-holds_byte :
    (l : List Reservation) (n : Reservation) (b : ℕ)
    → holds_byte (insert l n) b ≡ ((leb n.start b && leb b n.end) || holds_byte l b)
unfolding insert holds_byte
insert-holds_byte [] n b = refl
insert-holds_byte (r ∷ rs) n b = elim (Bool-cases (ltb n.end r.start)) [
  | inl h ↦ rw h refl
  | inr h ↦ rw (h, insert-holds_byte rs n b) (ground arith)
]

-- The region was reserved, or a reservation overlaps it and nothing changed.
abbrev pub Reserves : Find → List Reservation → ℕ → ℕ → ℕ → Type 0
Reserves find l start end type =
    ((memory_reserve find l start end type ≡ some (false, l))
      × ((i : ℕ) × (r : Reservation) × (get_elem? l i ≡ some r) × (overlaps r start end ≡ true)))
    ⊎ ((l' : List Reservation) × (memory_reserve find l start end type ≡ some (true, l'))
        × Ordered l'
        × ((b : ℕ) → holds_byte l' b ≡ ((leb start b && leb b end) || holds_byte l b)))

all-Apart :
    (l : List Reservation) (start end : ℕ)
    → ((i : ℕ) (r : Reservation) → get_elem? l i ≡ some r → Apart start end r)
    → All (Apart start end) l
all-Apart [] start end h = tt
all-Apart (r ∷ rs) start end h = (h 0 r refl, all-Apart rs start end (λ i s e. h (suc i) s e))

-- A reservation that neither overlaps the region nor is beside it.
wide-Apart :
    (r : Reservation) (start end : ℕ)
    → overlaps r start end ≡ false
    → (r.end + 1 ≢ start) × (r.start ≢ end + 1)
    → Apart start end r
unfolding overlaps
wide-Apart r start end e (h, g) = ground (arith, h, g)

not_wide :
    (r : Reservation) (start end : ℕ)
    → 0 < start
    → Apart start end r
    → overlaps r (start - 1) (end + 1) ≡ false
unfolding overlaps
not_wide r start end positive h = ground arith

-- The region gets a reservation of its own.
new_run :
    (find : Find) (l : List Reservation) (start end type : ℕ)
    → length l < 128
    → 0 < start
    → start < end
    → end + 1 < 2 ^ 32
    → find l start end ≡ none
    → find l (start - 1) (end + 1) ≡ none
    → memory_reserve find l start end type
      ≡ some (true, insert l (record { start = start; end = end; type = type }))
unfolding memory_reserve reserve_apart reserve_beside new_reservation
new_run find l start end type room positive order small e wide =
    let below : ltb start end ≡ true = ground arith in
    let left : ltb (length l) 128 ≡ true = ground arith in
    let before : (start + 2 ^ 32 - 1) % 2 ^ 32 ≡ start - 1 = omega arith in
    let behind : (end + 1) % 2 ^ 32 ≡ end + 1 = omega arith in
    rw (below, e, before, behind, wide, left) refl

-- For fewer than 128 reservations in their order, of which none overlaps another, and a region
-- of two bytes or more that does not begin at 0, does not end at the last address, and that no
-- reservation ends or begins directly beside: memory_reserve either gives false, leaves the
-- reservations as they are, and then one overlaps the region; or it gives true, and leaves
-- reservations in their order, of which none overlaps another, that hold the bytes of the region
-- and those held before, and no others.
pub memory_reserve_cases :
    (find : Find) (l : List Reservation) (start end type : ℕ)
    → Finder find
    → Ordered l
    → length l < 128
    → 0 < start
    → start < end
    → end + 1 < 2 ^ 32
    → All (λ r. (r.end + 1 ≢ start) × (r.start ≢ end + 1)) l
    → Reserves find l start end type
unfolding memory_reserve reserve_apart
memory_reserve_cases find l start end type f o room positive order small beside =
    let below : ltb start end ≡ true = ground arith in go (find l start end) refl below
  where
    wide :
        ((i : ℕ) (r : Reservation) → get_elem? l i ≡ some r → Apart start end r)
        → (a : Option ℕ) → find l (start - 1) (end + 1) ≡ a
        → find l (start - 1) (end + 1) ≡ none
    wide apart none e = e
    wide apart (some i) e =
        let (r, at, over) = f.overlaps_it l (start - 1) (end + 1) i e in
        absurd (ground (arith, over, not_wide r start end positive (apart i r at)))

    go :
        (a : Option ℕ)
        → find l start end ≡ a
        → ltb start end ≡ true
        → Reserves find l start end type
    go (some i) e below =
        let (r, at, over) = f.overlaps_it l start end i e in
        inl (rw (below, e) refl, (i, r, at, over))
    go none e below =
        let apart = λ (i : ℕ) (r : Reservation) (at : get_elem? l i ≡ some r).
          wide-Apart r start end (f.none_overlaps l start end e i r at)
            (All-get (λ r. (r.end + 1 ≢ start) × (r.start ≢ end + 1)) l i r beside at) in
        let new : Reservation = record { start = start; end = end; type = type } in
        inr (
          insert l new,
          new_run find l start end type room positive order small e
              (wide apart (find l (start - 1) (end + 1)) refl),
          insert-Ordered l new o (omega arith) (all-Apart l start end apart),
          insert-holds_byte l new,
        )
