-- ===== src/Memory/Clear.antt =====
-- memory_reservation_clear frees the memory of the pages that only cleared reservations touch.
use mathlib.Core.List.{append-nil, append_assoc}
use viengoos.Common.{
  ℕ, ◌+◌, ◌*◌, ◌^◌, ◌≤◌, ◌<◌, ◌≡◌, inl, inr, refl, sym, ap, ◌∙◌, subst, arith, Bool, true, false,
  not, ◌&&◌, ◌||◌, some, List, [], ◌∷◌, ◌++◌, All, length, leb, ◌==◌, if◌then◌else◌, Bool-cases,
}
use viengoos.Memory.Add.{memory_add_lem}
use viengoos.Memory.Order.{Ordered, Finder}
use viengoos.Memory.Spare.{spare, Uneven, touched}
use viengoos.Memory.{
  Reservation, Memory, Find, overlaps, page_down, past_null, memory_add, clear_loop,
  memory_reservation_clear,
}
use viengoos.Zalloc.Pools.{free_count, IsPool, IsDisjoint}

-- The reservations of a type, and the others.
unfoldable pub of_type : ℕ → List Reservation → List Reservation
of_type type [] = []
of_type type (r ∷ rs) = if r.type == type then r ∷ of_type type rs else of_type type rs

unfoldable pub others : ℕ → List Reservation → List Reservation
others type [] = []
others type (r ∷ rs) = if r.type == type then others type rs else r ∷ others type rs

-- 1 for an address behind the page at 0 that only reservations of `gone` touch.
unfoldable pub let_go : List Reservation → List Reservation → ℕ → ℕ
let_go kept gone x = if leb 4096 x && (touched gone x && not (touched kept x)) then 1 else 0

touched-append :
    (ks rs : List Reservation) (x : ℕ) → touched (ks ++ rs) x ≡ (touched ks x || touched rs x)
unfolding touched
touched-append [] rs x = refl
touched-append (k ∷ ks) rs x = rw (touched-append ks rs x) (ground arith)

touched-parts :
    (type : ℕ) (rs : List Reservation) (x : ℕ)
    → touched rs x ≡ (touched (of_type type rs) x || touched (others type rs) x)
unfolding touched of_type others
touched-parts type [] x = refl
touched-parts type (r ∷ rs) x = elim (Bool-cases (r.type == type)) [
  | inl one ↦ rw (one, touched-parts type rs x) (ground arith)
  | inr other ↦ rw (other, touched-parts type rs x) (ground arith)
]

-- The pages from that of the start to that of the end are those that the reservation touches.
overlaps-pages :
    (r : Reservation) (x : ℕ)
    → overlaps r (page_down x) (page_down x + 4095)
      ≡ (leb (page_down r.start) x && leb x (page_down r.end + 4095))
unfolding overlaps page_down
overlaps-pages r x = ground arith

-- What one cleared reservation frees is what is let go with the other ones, and not without it.
share :
    (a r t o k : Bool)
    → (if a && (r && not (k || (t || o))) then 1 else 0)
        + (if a && (t && not (k || o)) then 1 else 0)
      ≡ (if a && ((r || t) && not (k || o)) then 1 else 0)
share a r t o k = ground arith

All-without :
    (P : Reservation → Type 0) (ks : List Reservation) (r : Reservation) (rs : List Reservation)
    → All P (ks ++ r ∷ rs)
    → All P (ks ++ rs)
All-without P [] r rs a = a.1
All-without P (k ∷ ks) r rs (p, a) = (p, All-without P ks r rs a)

All-middle :
    (P : Reservation → Type 0) (ks : List Reservation) (r : Reservation) (rs : List Reservation)
    → All P (ks ++ r ∷ rs)
    → P r
All-middle P [] r rs a = a.0
All-middle P (k ∷ ks) r rs a = All-middle P ks r rs a.1

Ordered-without :
    (ks : List Reservation) (r : Reservation) (rs : List Reservation)
    → Ordered (ks ++ r ∷ rs)
    → Ordered (ks ++ rs)
Ordered-without [] r rs o = o.2
Ordered-without (k ∷ ks) r rs (p, a, o) =
    (p, All-without (λ s. k.end < s.start) ks r rs a, Ordered-without ks r rs o)

-- A reservation below 2 GB that does not end with the first byte of a page.
abbrev pub IsLow : Reservation → Type 0
IsLow r = (r.end < 2 ^ 31) × Uneven r

-- The memory that only cleared reservations touch is free, and no more.
pub record Cleared (type : ℕ) (kept rs : List Reservation) (m m' : Memory) : Type 0 where
  pub pool : IsPool m'.pool
  pub memory_total : m'.memory_total + m.pool.memory ≡ m.memory_total + m'.pool.memory
  pub free :
      (x : ℕ)
      → free_count x m'.pool
        ≡ free_count x m.pool + let_go (kept ++ others type rs) (of_type type rs) x

abbrev Clears : Find → ℕ → List Reservation → List Reservation → Memory → Type 0
Clears find type kept rs m =
    (m' : Memory) × (clear_loop find type kept rs m ≡ some (kept ++ others type rs, m'))
    × Cleared type kept rs m m'

in_page :
    (r : Reservation) (x : ℕ) (b : Bool)
    → (leb (past_null (page_down r.start)) x && (leb x (page_down r.end + 4095) && b))
      ≡ (leb 4096 x && (overlaps r (page_down x) (page_down x + 4095) && b))
unfolding overlaps page_down past_null
in_page r x b = ground arith

spare-one :
    (ks rs : List Reservation) (type : ℕ) (r : Reservation) (x : ℕ)
    → r.type ≡ type
    → spare (ks ++ rs) (past_null (page_down r.start)) (page_down r.end + 4095) x
        + let_go (ks ++ others type rs) (of_type type rs) x
      ≡ let_go (ks ++ others type (r ∷ rs)) (of_type type (r ∷ rs)) x
unfolding spare let_go others of_type touched
spare-one ks rs type r x e =
    let one : (r.type == type) ≡ true = ground arith in
    rw (one, touched-append ks rs x, touched-append ks (others type rs) x, touched-parts type rs x)
      (ap
          (λ c.
            (if c then 1 else 0)
            + (if leb 4096 x
                  && (touched (of_type type rs) x
                      && not (touched ks x || touched (others type rs) x))
                then 1
                else 0))
          (in_page r x
            (not (touched ks x || (touched (of_type type rs) x || touched (others type rs) x))))
        ∙ share (leb 4096 x) (overlaps r (page_down x) (page_down x + 4095))
            (touched (of_type type rs) x) (touched (others type rs) x) (touched ks x))

Ordered-middle :
    (ks : List Reservation) (r : Reservation) (rs : List Reservation)
    → Ordered (ks ++ r ∷ rs)
    → r.start ≤ r.end
Ordered-middle [] r rs o = o.0
Ordered-middle (k ∷ ks) r rs o = Ordered-middle ks r rs o.2

others-hit :
    (type : ℕ) (r : Reservation) (rs : List Reservation)
    → (r.type == type) ≡ true
    → others type rs ≡ others type (r ∷ rs)
unfolding others
others-hit type r rs e = rw e refl

cleared_run :
    (find : Find) (type : ℕ) (kept rs : List Reservation) (r : Reservation) (m m' : Memory)
    → (r.type == type) ≡ true
    → memory_add find (kept ++ rs) m (page_down r.start) (page_down r.end + 4095) ≡ some m'
    → clear_loop find type kept (r ∷ rs) m ≡ clear_loop find type kept rs m'
unfolding clear_loop
cleared_run find type kept rs r m m' on added = rw (on, added) refl

clear_one :
    (find : Find) (type : ℕ) (kept rs : List Reservation) (r : Reservation) (m : Memory)
    → Finder find
    → Ordered (kept ++ r ∷ rs)
    → All Uneven (kept ++ rs)
    → IsPool m.pool
    → r.end < 2 ^ 31
    → r.type ≡ type
    → m.pool.memory + 2 ^ 19 < 2 ^ 32
    → m.memory_total + 2 ^ 19 < 2 ^ 32
    → ((m' : Memory)
        → IsPool m'.pool
        → m'.pool.memory ≤ m.pool.memory + 2 ^ 19
        → m'.memory_total ≤ m.memory_total + 2 ^ 19
        → Clears find type kept rs m')
    → Clears find type kept (r ∷ rs) m
unfolding page_down
clear_one find type kept rs r m f o u q small e room room' further =
    let on : (r.type == type) ≡ true = ground arith in
    let order : r.start ≤ r.end = Ordered-middle kept r rs o in
    let (m', added, a) =
      memory_add_lem find (kept ++ rs) m (page_down r.start) (page_down r.end + 4095) f
        (Ordered-without kept r rs o) u q (omega arith) (omega arith) (omega arith) (omega arith)
        (omega arith) (omega arith) in
    let (m'', ran, c) =
      further m' a.pool (omega (arith, a.most)) (omega (arith, a.most, a.memory_total)) in
    (
      m'',
      cleared_run find type kept rs r m m' on added
          ∙ ran
          ∙ ap (λ l. some (kept ++ l, m'')) (others-hit type r rs on),
      record {
        pool = c.pool;
        memory_total = omega (arith, a.memory_total, c.memory_total);
        free = λ x. omega (arith, a.free x, c.free x, spare-one kept rs type r x e);
      },
    )

All-Uneven : (rs : List Reservation) → All IsLow rs → All Uneven rs
All-Uneven [] a = tt
All-Uneven (r ∷ rs) ((_, u), a) = (u, All-Uneven rs a)

-- A reservation of another type is kept.
pass_one :
    (find : Find) (type : ℕ) (kept rs : List Reservation) (r : Reservation) (m : Memory)
    → (r.type == type) ≡ false
    → Clears find type (kept ++ r ∷ []) rs m
    → Clears find type kept (r ∷ rs) m
unfolding clear_loop others of_type
pass_one find type kept rs r m other (m', ran, c) =
    let same : (kept ++ r ∷ []) ++ others type rs ≡ kept ++ r ∷ others type rs =
      append_assoc kept (r ∷ []) (others type rs) in
    (
      m',
      rw other (ran ∙ ap (λ l. some (l, m')) same),
      record {
        pool = c.pool;
        memory_total = c.memory_total;
        free = λ x.
            rw other (c.free x ∙ ap (λ l. free_count x m.pool + let_go l (of_type type rs) x) same);
      },
    )

pub clear_loop-Cleared :
    (find : Find) (type : ℕ) (kept rs : List Reservation) (m : Memory)
    → Finder find
    → Ordered (kept ++ rs)
    → All IsLow (kept ++ rs)
    → IsPool m.pool
    → m.pool.memory + length rs * 2 ^ 19 < 2 ^ 32
    → m.memory_total + length rs * 2 ^ 19 < 2 ^ 32
    → Clears find type kept rs m
unfolding clear_loop let_go others of_type touched
clear_loop-Cleared find type kept [] m f o u q room room' = (
  m,
  ap (λ l. some (l, m)) (sym (append-nil kept)),
  record { pool = q; memory_total = refl; free = λ x. ground arith },
)
clear_loop-Cleared find type kept (r ∷ rs) m f o u q room room' =
    elim (Bool-cases (r.type == type)) [
      | inl one ↦
          clear_one find type kept rs r m f o
            (All-Uneven (kept ++ rs) (All-without IsLow kept r rs u)) q
            (All-middle IsLow kept r rs u).0 (ground (arith, one)) (omega arith) (omega arith)
            (λ m' q' h h'.
              clear_loop-Cleared find type kept rs m' f (Ordered-without kept r rs o)
                (All-without IsLow kept r rs u) q' (omega arith) (omega arith))
      | inr other ↦ pass_one find type kept rs r m other (
          clear_loop-Cleared find type (kept ++ r ∷ []) rs m f
            (subst Ordered (sym (append_assoc kept (r ∷ []) rs)) o)
            (subst (All IsLow) (sym (append_assoc kept (r ∷ []) rs)) u) q (omega arith)
            (omega arith))
    ]

-- For reservations in their order, of which none overlaps another, none ends with the first byte
-- of a page and each is below 2 GB, a search that finds one that overlaps if there is one, and a
-- well-formed pool where no address is free twice and nothing that is to be let go is free
-- already, and where zalloc_memory and memory_total are still words with 2^19 more for each
-- reservation, memory_reservation_clear ends without a failed assert. It keeps exactly the
-- reservations of the other types; the pool is well-formed; an address is in one free block more
-- if it is not below 4096 and its page is touched by a reservation of the type and by none of
-- the others, and in as many as before if not, so that none is in two; and memory_total grows as
-- much as zalloc_memory.
pub memory_reservation_clear-Cleared :
    (find : Find) (type : ℕ) (l : List Reservation) (m : Memory)
    → Finder find
    → Ordered l
    → All IsLow l
    → IsPool m.pool
    → ((x : ℕ) → free_count x m.pool + let_go (others type l) (of_type type l) x ≤ 1)
    → m.pool.memory + length l * 2 ^ 19 < 2 ^ 32
    → m.memory_total + length l * 2 ^ 19 < 2 ^ 32
    → (m' : Memory) × (memory_reservation_clear find type l m ≡ some (others type l, m'))
      × Cleared type [] l m m'
      × IsDisjoint m'.pool
unfolding memory_reservation_clear
memory_reservation_clear-Cleared find type l m f o u q apart room room' =
    let (m', ran, c) = clear_loop-Cleared find type [] l m f o u q room room' in
    (m', ran, c, λ x. omega (arith, c.free x, apart x))
