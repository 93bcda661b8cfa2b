-- ===== src/Memory/Add.antt =====
-- memory_add frees the memory of the pages that no reservation touches, each once.
use viengoos.Common.{
  ℕ, zero, suc, ◌+◌, ◌-◌, ◌/◌, ◌%◌, ◌^◌, ◌≤◌, ◌<◌, ◌≡◌, inl, inr, refl, ap, ◌∙◌, arith, true, false,
  Option, none, some, List, All, ltb, ◌==◌, if◌then◌else◌, dec_lt,
}
use viengoos.Memory.Gap.{memory_is_reserved-Answer, free_gap-Freed}
use viengoos.Memory.Order.{Ordered, Finder, Ordered-one}
use viengoos.Memory.Spare.{
  spare, Uneven, clip-IsClip, spare-gap, spare-all, page_down-least, page_down-next, spare-none,
}
use viengoos.Memory.{
  Reservation, Memory, Find, clip, memory_is_reserved, page_down, gap_end, free_gap, add_loop,
  memory_add, past_null,
}
use viengoos.Zalloc.Pools.{holds, free_count, IsPool, IsDisjoint}

-- All spare memory from `start` to `end` was freed.
pub record Added (l : List Reservation) (start end : ℕ) (m m' : Memory) : Type 0 where
  pub pool : IsPool m'.pool
  pub most : m'.pool.memory ≤ m.pool.memory + (end + 1 - start) / 4096
  pub memory_total : m'.memory_total + m.pool.memory ≡ m.memory_total + m'.pool.memory
  pub free : (x : ℕ) → free_count x m'.pool ≡ free_count x m.pool + spare l start end x

abbrev Loops : ℕ → Find → List Reservation → ℕ → Memory → ℕ → Type 0
Loops fuel find l end m start =
    (m' : Memory) × (add_loop fuel find l end m start ≡ some m') × Added l start end m m'

turn :
    (fuel : ℕ) (find : Find) (l : List Reservation) (end start : ℕ) (m m' : Memory)
    (found : Option (ℕ × ℕ))
    → start < end
    → memory_is_reserved find l start end ≡ some found
    → free_gap m start (gap_end end found).0 ≡ some m'
    → add_loop (suc fuel) find l end m start
      ≡ add_loop fuel find l end m' (page_down (((gap_end end found).1 + 4095) % 2 ^ 32))
unfolding add_loop
turn fuel find l end start m m' found less e f =
    let more : ltb start end ≡ true = ground arith in rw (more, e, f) refl

stop :
    (fuel : ℕ) (find : Find) (l : List Reservation) (end : ℕ) (m : Memory) (start : ℕ)
    → end ≤ start
    → add_loop (suc fuel) find l end m start ≡ some m
unfolding add_loop
stop fuel find l end m start h = let off : ltb start end ≡ false = ground arith in rw off refl

page_down-whole : (a : ℕ) → page_down a % 4096 ≡ 0
unfolding page_down
page_down-whole a = omega arith

page_down-order : (a b : ℕ) → a ≤ b → page_down a ≤ page_down (b + 4095)
unfolding page_down
page_down-order a b h = omega arith

page_down-up : (b end : ℕ) → end % 4096 ≡ 4095 → b ≤ end → page_down (b + 4095) ≤ end + 1
unfolding page_down
page_down-up b end whole h = omega arith

all_gap : (end : ℕ) → end < 2 ^ 31 → (gap_end end none).0 ≡ end + 1
unfolding gap_end
all_gap end h = omega arith

all_step :
    (end : ℕ)
    → end < 2 ^ 31
    → end % 4096 ≡ 4095
    → page_down (((gap_end end none).1 + 4095) % 2 ^ 32) ≡ end + 1
unfolding gap_end page_down
all_step end h whole = omega arith

gap_end-from : (end : ℕ) (c : ℕ × ℕ) → (gap_end end (some c)).0 ≡ page_down c.0
unfolding gap_end
gap_end-from end (a, b) = refl

gap_end-next :
    (end : ℕ) (c : ℕ × ℕ)
    → c.1 < 2 ^ 31
    → page_down (((gap_end end (some c)).1 + 4095) % 2 ^ 32) ≡ page_down (c.1 + 4095)
unfolding gap_end page_down
gap_end-next end (a, b) h = omega arith

-- One turn, and those after it.
and_then :
    (fuel : ℕ) (find : Find) (l : List Reservation) (end start from next : ℕ) (m : Memory)
    (found : Option (ℕ × ℕ))
    → IsPool m.pool
    → start % 4096 ≡ 0
    → from % 4096 ≡ 0
    → next % 4096 ≡ 0
    → 0 < start
    → end < 2 ^ 31
    → end % 4096 ≡ 4095
    → start < end
    → start ≤ from
    → from ≤ next
    → next ≤ end + 1
    → m.pool.memory + (end + 1 - start) / 4096 < 2 ^ 32
    → m.memory_total + (end + 1 - start) / 4096 < 2 ^ 32
    → memory_is_reserved find l start end ≡ some found
    → (gap_end end found).0 ≡ from
    → page_down (((gap_end end found).1 + 4095) % 2 ^ 32) ≡ next
    → ((x : ℕ) → spare l start end x ≡ holds x start (from - start) + spare l next end x)
    → ((m' : Memory)
        → IsPool m'.pool
        → m'.pool.memory + (end + 1 - next) / 4096 < 2 ^ 32
        → m'.memory_total + (end + 1 - next) / 4096 < 2 ^ 32
        → Loops fuel find l end m' next)
    → Loops (suc fuel) find l end m start
and_then fuel find l end start from next m found q s f n positive small e less low order high room
      room' run gap step sum further =
    let (m', freed, d) =
      free_gap-Freed m start from q s f positive low (omega arith) (omega arith) (omega arith) in
    let (m'', ran, a) =
      further m' d.pool (omega (arith, d.memory)) (omega (arith, d.memory_total)) in
    (
      m'',
      turn fuel find l end start m m' found less run (ap (free_gap m start) gap ∙ freed)
          ∙ ap (add_loop fuel find l end m') step
          ∙ ran,
      record {
        pool = a.pool;
        most = omega (arith, a.most, d.memory);
        memory_total = omega (arith, a.memory_total, d.memory, d.memory_total);
        free = λ x. omega (arith, a.free x, d.free x, sum x);
      },
    )

add_loop-Added :
    (fuel : ℕ) (find : Find) (l : List Reservation) (end : ℕ) (m : Memory) (start : ℕ)
    → Finder find
    → Ordered l
    → All Uneven l
    → IsPool m.pool
    → start % 4096 ≡ 0
    → end % 4096 ≡ 4095
    → 0 < start
    → end < 2 ^ 31
    → start ≤ end + 1
    → (end + 1 - start) / 4096 < fuel
    → m.pool.memory + (end + 1 - start) / 4096 < 2 ^ 32
    → m.memory_total + (end + 1 - start) / 4096 < 2 ^ 32
    → Loops fuel find l end m start
add_loop-Added zero find l end m start f o u q whole whole' positive small within enough room
      room' =
    elim enough [ ]
add_loop-Added (suc fuel) find l end m start f o u q whole whole' positive small within enough room
      room' =
    elim (dec_lt start end) [
      | no finished ↦ (
        m,
        stop fuel find l end m start (omega arith),
        record {
          pool = q;
          most = omega arith;
          memory_total = refl;
          free = λ x. omega (arith, spare-none l start end x (omega arith));
        },
      )
      | yes less ↦ elim (memory_is_reserved-Answer find l start end f o u whole less) [
        | inl (run, free) ↦
            and_then fuel find l end start (end + 1) (end + 1) m none q whole (omega arith)
              (omega arith) positive small whole' less within (omega arith) (omega arith) room room'
              run (all_gap end small) (all_step end small whole')
              (λ x. omega (
                arith,
                spare-all l start end x whole whole' less free,
                spare-none l (end + 1) end x (omega arith),
              ))
              (λ m' q' r r'.
                add_loop-Added fuel find l end m' (end + 1) f o u q' (omega arith) whole'
                  (omega arith) small (omega arith) (omega arith) r r')
        | inr (k, w, run) ↦
            let proper = Ordered-one l k w.it o w.at in
            let c = clip-IsClip w.it start end w.behind less proper w.bounded in
            let a = (clip w.it start end).0 in
            let b = (clip w.it start end).1 in
            let low = page_down-least start a whole c.low in
            let next = page_down-next start b whole c.some_of in
            let order = page_down-order a b c.order in
            let high = page_down-up b end whole' c.high in
            and_then fuel find l end start (page_down a) (page_down (b + 4095)) m
              (some (clip w.it start end)) q whole (page_down-whole a) (page_down-whole (b + 4095))
              positive small whole' less low order high room room' run
              (gap_end-from end (clip w.it start end))
              (gap_end-next end (clip w.it start end) (omega (arith, c.high)))
              (λ x. spare-gap l start end k x a b w o u whole whole' c)
              (λ m' q' r r'.
                add_loop-Added fuel find l end m' (page_down (b + 4095)) f o u q'
                  (page_down-whole (b + 4095)) whole' (omega arith) small high (omega arith) r r')
      ]
    ]

-- The free lists, whatever is in them.
pub memory_add_lem :
    (find : Find) (l : List Reservation) (m : Memory) (start end : ℕ)
    → Finder find
    → Ordered l
    → All Uneven l
    → IsPool m.pool
    → start % 4096 ≡ 0
    → end % 4096 ≡ 4095
    → start ≤ end
    → end < 2 ^ 31
    → m.pool.memory + (end + 1 - start) / 4096 < 2 ^ 32
    → m.memory_total + (end + 1 - start) / 4096 < 2 ^ 32
    → (m' : Memory) × (memory_add find l m start end ≡ some m') × Added l (past_null start) end m m'
unfolding memory_add past_null
memory_add_lem find l m start end f o u q whole whole' order small room room' =
    let even : (start % 4096 == 0) ≡ true = ground arith in
    let last : (end % 4096 == 4095) ≡ true = ground arith in
    let from = if start == 0 then 4096 else start in
    let later : start ≤ from = ground arith in
    let positive : 0 < from = ground arith in
    let aligned : from % 4096 ≡ 0 = ground arith in
    let within : from ≤ end + 1 = ground arith in
    let (m', ran, a) =
      add_loop-Added (suc (suc (end / 4096))) find l end m from f o u q aligned whole' positive
        small within (omega arith) (omega arith) (omega arith) in
    (m', rw (even, last) ran, a)

-- For reservations in their order, of which none overlaps another and none ends with the first
-- byte of a page, a search that finds one that overlaps if there is one, and a well-formed pool
-- where no address is free twice and no page that is to be added is free already, memory_add of
-- one or more pages, from start to end, below 2 GB, ends without a failed assert, where
-- zalloc_memory and memory_total are still words with the number of those pages more: the pool
-- is well-formed, an address is in one free block more if it is from start, or from 4096 where
-- start is 0, to end and no reservation touches its page, and in as many as before if not, so
-- that none is in two; and memory_total grows as much as zalloc_memory.
pub memory_add-Added :
    (find : Find) (l : List Reservation) (m : Memory) (start end : ℕ)
    → Finder find
    → Ordered l
    → All Uneven l
    → IsPool m.pool
    → ((x : ℕ) → free_count x m.pool + spare l (past_null start) end x ≤ 1)
    → start % 4096 ≡ 0
    → end % 4096 ≡ 4095
    → start ≤ end
    → end < 2 ^ 31
    → m.pool.memory + (end + 1 - start) / 4096 < 2 ^ 32
    → m.memory_total + (end + 1 - start) / 4096 < 2 ^ 32
    → (m' : Memory) × (memory_add find l m start end ≡ some m')
      × Added l (past_null start) end m m'
      × IsDisjoint m'.pool
memory_add-Added find l m start end f o u q apart whole whole' order small room room' =
    let (m', ran, a) =
      memory_add_lem find l m start end f o u q whole whole' order small room room' in
    (m', ran, a, λ x. omega (arith, a.free x, apart x))
