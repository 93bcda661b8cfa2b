-- ===== src/Memory/Gap.antt =====
-- One turn of memory_add: what memory_is_reserved answers, and the memory before that is freed.
use viengoos.Common.{
  ℕ, ◌+◌, ◌-◌, ◌/◌, ◌%◌, ◌^◌, ◌≤◌, ◌<◌, ◌≡◌, ◌≢◌, ◌⊎◌, inl, inr, refl, arith, true, false, Option,
  none, some, List, All, get_elem?, ltb, dec_lt,
}
use viengoos.Memory.Order.{Ordered, Finder, All-get, IsFirst, walk-IsFirst}
use viengoos.Memory.Spare.{Uneven, overlaps-bounds}
use viengoos.Memory.{
  Reservation, Memory, Find, overlaps, walk, clip, reserved_from, memory_is_reserved, returned,
  free_gap,
}
use viengoos.Zalloc.Free.{Pages}
use viengoos.Zalloc.Pools.{holds, free_count, IsPool, zfree-Donated}
use viengoos.Zalloc.{Pool, returns, zfree}

-- What memory_is_reserved finds.
abbrev pub Answer : Find → List Reservation → ℕ → ℕ → Type 0
Answer find l start end =
    ((memory_is_reserved find l start end ≡ some none)
      × ((i : ℕ) (r : Reservation) → get_elem? l i ≡ some r → overlaps r start end ≡ false))
    ⊎ ((k : ℕ) × (w : IsFirst l start k end) × (memory_is_reserved find l start end
          ≡ some (some (clip w.it start end))))

reserved_from-IsFirst :
    (l : List Reservation) (start end i : ℕ) (r : Reservation)
    → Ordered l
    → All Uneven l
    → start % 4096 ≡ 0
    → get_elem? l i ≡ some r
    → overlaps r start end ≡ true
    → (k : ℕ) × (w : IsFirst l start k end) × (reserved_from l start end (some i)
        ≡ some (some (clip w.it start end)))
unfolding reserved_from
reserved_from-IsFirst l start end i r o u whole at over =
    let (from, till) = overlaps-bounds r start end over in
    let odd : r.end % 4096 ≢ 0 = All-get Uneven l i r u at in
    let w = walk-IsFirst l start i r o at (omega (arith, odd, from)) in
    (
      walk l start i,
      record {
        it = w.it;
        at = w.at;
        behind = w.behind;
        bounded = omega (arith, w.bounded, till);
        earlier = w.earlier;
      },
      rw w.at refl,
    )

pub memory_is_reserved-Answer :
    (find : Find) (l : List Reservation) (start end : ℕ)
    → Finder find
    → Ordered l
    → All Uneven l
    → start % 4096 ≡ 0
    → start < end
    → Answer find l start end
unfolding memory_is_reserved reserved_from
memory_is_reserved-Answer find l start end f o u whole less =
    let below : ltb start end ≡ true = ground arith in go (find l start end) refl below
  where
    go : (a : Option ℕ) → find l start end ≡ a → ltb start end ≡ true → Answer find l start end
    go none e below = inl (rw (below, e) refl, f.none_overlaps l start end e)
    go (some i) e below =
        let (r, at, over) = f.overlaps_it l start end i e in
        let (k, w, done) = reserved_from-IsFirst l start end i r o u whole at over in
        inr (k, w, rw (below, e) done)

-- The memory from `start` on, of `size` bytes, was freed.
pub record Freed (m m' : Memory) (start size : ℕ) : Type 0 where
  pub pool : IsPool m'.pool
  pub memory : m'.pool.memory ≡ m.pool.memory + size / 4096
  pub memory_total : m'.memory_total ≡ m.memory_total + size / 4096
  pub free : (x : ℕ) → free_count x m'.pool ≡ free_count x m.pool + holds x start size

free_gap-run :
    (m : Memory) (start till size : ℕ) (p : Pool)
    → (till + 2 ^ 32 - start) % 2 ^ 32 ≡ size
    → 0 < size
    → zfree m.pool start size ≡ returns p
    → m.memory_total + size / 4096 < 2 ^ 32
    → free_gap m start till
      ≡ some (record { pool = p; memory_total = m.memory_total + size / 4096 })
unfolding free_gap returned
free_gap-run m start till size p e more done room =
    let some_left : ltb 0 size ≡ true = ground arith in
    let total : (m.memory_total + size / 4096) % 2 ^ 32 ≡ m.memory_total + size / 4096 =
      omega arith in
    rw (e, some_left, done, total) refl

pub free_gap-Freed :
    (m : Memory) (start till : ℕ)
    → IsPool m.pool
    → start % 4096 ≡ 0
    → till % 4096 ≡ 0
    → 0 < start
    → start ≤ till
    → till ≤ 2 ^ 31
    → m.pool.memory + (till - start) / 4096 < 2 ^ 32
    → m.memory_total + (till - start) / 4096 < 2 ^ 32
    → (m' : Memory) × (free_gap m start till ≡ some m') × Freed m m' start (till - start)
unfolding free_gap returned
free_gap-Freed m start till q whole whole' positive order small room room' =
    let size : (till + 2 ^ 32 - start) % 2 ^ 32 ≡ till - start = omega arith in
    elim (dec_lt start till) [
      | no empty ↦
          let none_left : ltb 0 (till - start) ≡ false = ground arith in
          (
            m,
            rw (size, none_left) refl,
            record {
              pool = q;
              memory = omega arith;
              memory_total = omega arith;
              free = λ x. ground arith;
            },
          )
      | yes more ↦
          let pages : Pages start (till - start) = record {
            positive = positive;
            some_size = omega arith;
            aligned = whole;
            whole = omega arith;
            below = omega arith;
          } in
          let (p, done, d) = zfree-Donated m.pool start (till - start) q pages room in
          (
            record { pool = p; memory_total = m.memory_total + (till - start) / 4096 },
            free_gap-run m start till (till - start) p size (omega arith) done room',
            record { pool = d.pool; memory = d.memory; memory_total = refl; free = d.free },
          )
    ]
