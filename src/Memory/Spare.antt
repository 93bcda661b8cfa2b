-- ===== src/Memory/Spare.antt =====
-- Which addresses memory_add is to free: those in pages that no reservation touches.
use viengoos.Common.{
  ℕ, zero, suc, ◌+◌, ◌-◌, ◌*◌, ◌/◌, ◌%◌, ◌≤◌, ◌<◌, ◌≡◌, ◌≢◌, ◌⊎◌, inl, inr, refl, subst, arith,
  Bool, true, false, not, ◌&&◌, ◌||◌, some, List, [], ◌∷◌, All, get_elem?, leb, if◌then◌else◌,
  Bool-cases, dec_lt,
}
use viengoos.Memory.Order.{Ordered, All-get, starts_later, IsFirst}
use mathlib.Core.Option.{some-injective, none-ne-some}
use viengoos.Memory.{Reservation, overlaps, clip, page_down}
use viengoos.Zalloc.Pools.{holds}

-- A reservation overlaps the page of the address.
unfoldable pub touched : List Reservation → ℕ → Bool
touched [] x = false
touched (r ∷ rs) x = overlaps r (page_down x) (page_down x + 4095) || touched rs x

-- 1 for an address from `start` to `end` in a page that no reservation touches, and 0 otherwise.
unfoldable pub spare : List Reservation → ℕ → ℕ → ℕ → ℕ
spare l start end x = if leb start x && (leb x end && not (touched l x)) then 1 else 0

-- A reservation does not end with the first byte of a page.
abbrev pub Uneven : Reservation → Type 0
Uneven r = r.end % 4096 ≢ 0

pub overlaps-bounds :
    (r : Reservation) (start end : ℕ)
    → overlaps r start end ≡ true
    → (start ≤ r.end) × (r.start ≤ end)
unfolding overlaps
overlaps-bounds r start end e = (ground arith, ground arith)

pub overlaps-apart :
    (r : Reservation) (start end : ℕ)
    → overlaps r start end ≡ false
    → (r.end < start) ⊎ (end < r.start)
unfolding overlaps
overlaps-apart r start end e = ground arith

touched-get :
    (l : List Reservation) (x : ℕ)
    → touched l x ≡ true
    → (i : ℕ) × (r : Reservation) × (get_elem? l i ≡ some r)
      × (overlaps r (page_down x) (page_down x + 4095) ≡ true)
unfolding touched
touched-get [] x e = absurd (ground (arith, e))
touched-get (r ∷ rs) x e = elim (Bool-cases (overlaps r (page_down x) (page_down x + 4095))) [
  | inl over ↦ (0, r, refl, over)
  | inr apart ↦
      let further : touched rs x ≡ true = ground (arith, e, apart) in
      let (i, s, at, over) = touched-get rs x further in (suc i, s, at, over)
]

untouched-get :
    (l : List Reservation) (x i : ℕ) (r : Reservation)
    → touched l x ≡ false
    → get_elem? l i ≡ some r
    → overlaps r (page_down x) (page_down x + 4095) ≡ false
unfolding touched
untouched-get [] x i r e at = absurd (none-ne-some r at)
untouched-get (s ∷ rs) x zero r e at =
    let one = some-injective s r at in
    subst (λ q. overlaps q (page_down x) (page_down x + 4095) ≡ false) one (ground arith)
untouched-get (s ∷ rs) x (suc i) r e at = untouched-get rs x i r (ground arith) at

-- The part of a reservation between `start` and `end`.
pub record IsClip (r : Reservation) (start end a b : ℕ) : Type 0 where
  pub low : start ≤ a
  pub low_it : r.start ≤ a
  pub low_of : (a ≡ start) ⊎ (a ≡ r.start)
  pub high : b ≤ end
  pub high_it : b ≤ r.end
  pub some_of : start < b
  pub order : a ≤ b

pub clip-IsClip :
    (r : Reservation) (start end : ℕ)
    → start < r.end
    → start < end
    → r.start ≤ r.end
    → r.start ≤ end
    → IsClip r start end (clip r start end).0 (clip r start end).1
unfolding clip
clip-IsClip r start end h g p q = record {
  low = ground arith;
  low_it = ground arith;
  low_of = ground arith;
  high = ground arith;
  high_it = ground arith;
  some_of = ground arith;
  order = ground arith;
}

-- No reservation touches the pages before the first one that overlaps.
pub before_first :
    (l : List Reservation) (start end k x a b : ℕ) (w : IsFirst l start k end)
    → Ordered l
    → All Uneven l
    → start % 4096 ≡ 0
    → IsClip w.it start end a b
    → start ≤ x
    → x < page_down a
    → touched l x ≡ false
unfolding page_down
before_first l start end k x a b w o u whole c low high = elim (Bool-cases (touched l x)) [
  | inr apart ↦ apart
  | inl over ↦
      let (i, r, at, e) = touched-get l x over in
      let (from, till) = overlaps-bounds r (page_down x) (page_down x + 4095) e in
      elim (dec_lt i k) [
        | yes earlier ↦
            let before : r.end ≤ start = w.earlier i r earlier at in
            let odd : r.end % 4096 ≢ 0 = All-get Uneven l i r u at in
            absurd (omega (arith, before, odd, from))
        | no later ↦
            let behind : w.it.start ≤ r.start = starts_later l k i w.it r o w.at at (omega arith) in
            absurd (elim c.low_of [
              | inl e ↦ omega (arith, e, high, low, whole)
              | inr e ↦ omega (arith, e, high, behind, till)
            ])
      ]
]

-- An address is before the gap's end, or behind the reservation, if its page is apart from it.
before_or_behind :
    (r : Reservation) (start end a b x : ℕ)
    → IsClip r start end a b
    → (r.end < page_down x) ⊎ (page_down x + 4095 < r.start)
    → ((x < page_down a) × (x < page_down (b + 4095)))
      ⊎ ((page_down a ≤ x) × (page_down (b + 4095) ≤ x))
unfolding page_down
before_or_behind r start end a b x c (inl h) =
    let behind : b < x / 4096 * 4096 = omega (arith, c.high_it) in
    inr (omega (arith, behind, c.order), omega (arith, behind))
before_or_behind r start end a b x c (inr h) =
    let before : x / 4096 * 4096 + 4095 < a = omega (arith, c.low_it) in
    inl (omega (arith, before), omega (arith, before, c.order))

split_range :
    (start end from next x : ℕ)
    → start ≤ from
    → from ≤ end + 1
    → start ≤ next
    → ((x < from) × (x < next)) ⊎ ((from ≤ x) × (next ≤ x))
    → (if leb start x && (leb x end && true) then 1 else 0)
      ≡ holds x start (from - start) + (if leb next x && (leb x end && true) then 1 else 0)
split_range start end from next x f g h (inl (u, v)) = ground arith
split_range start end from next x f g h (inr (u, v)) = ground arith

outside_gap :
    (start end from next x : ℕ)
    → start ≤ from
    → (x < start) ⊎ (from ≤ x)
    → (if leb start x && (leb x end && false) then 1 else 0)
      ≡ holds x start (from - start) + (if leb next x && (leb x end && false) then 1 else 0)
outside_gap start end from next x f (inl u) = ground arith
outside_gap start end from next x f (inr u) = ground arith

pub page_down-least : (start a : ℕ) → start % 4096 ≡ 0 → start ≤ a → start ≤ page_down a
unfolding page_down
page_down-least start a whole h = omega arith

pub page_down-next :
    (start b : ℕ) → start % 4096 ≡ 0 → start < b → start + 4096 ≤ page_down (b + 4095)
unfolding page_down
page_down-next start b whole h = omega arith

pub page_down-end : (a end : ℕ) → a ≤ end → page_down a ≤ end + 1
unfolding page_down
page_down-end a end h = omega arith

-- The spare memory from `start` on is the gap before the first reservation that overlaps, and that
-- behind it.
pub spare-gap :
    (l : List Reservation) (start end k x a b : ℕ) (w : IsFirst l start k end)
    → Ordered l
    → All Uneven l
    → start % 4096 ≡ 0
    → end % 4096 ≡ 4095
    → IsClip w.it start end a b
    → spare l start end x
      ≡ holds x start (page_down a - start) + spare l (page_down (b + 4095)) end x
unfolding spare
spare-gap l start end k x a b w o u whole whole' c =
    let gap = before_first l start end k x a b w o u whole c in
    let low = page_down-least start a whole c.low in
    elim (Bool-cases (touched l x)) [
      | inl over ↦
          let out : (x < start) ⊎ (page_down a ≤ x) = elim (dec_lt x start) [
            | yes before ↦ inl before
            | no from ↦ elim (dec_lt x (page_down a)) [
              | yes inside ↦ absurd (ground (arith, over, gap (omega arith) inside))
              | no behind ↦ inr (omega arith)
            ]
          ] in
          rw over (outside_gap start end (page_down a) (page_down (b + 4095)) x low out)
      | inr apart ↦
          let away =
            overlaps-apart w.it (page_down x) (page_down x + 4095)
              (untouched-get l x k w.it apart w.at) in
          let next = page_down-next start b whole c.some_of in
          rw apart (
            split_range start end (page_down a) (page_down (b + 4095)) x low
              (page_down-end a end (omega (arith, c.order, c.high))) (omega arith)
              (before_or_behind w.it start end a b x c away))
    ]

-- Where no reservation overlaps, all is spare.
pub spare-all :
    (l : List Reservation) (start end x : ℕ)
    → start % 4096 ≡ 0
    → end % 4096 ≡ 4095
    → start < end
    → ((i : ℕ) (r : Reservation) → get_elem? l i ≡ some r → overlaps r start end ≡ false)
    → spare l start end x ≡ holds x start (end + 1 - start)
unfolding spare page_down
spare-all l start end x whole whole' less none_overlaps = elim (Bool-cases (touched l x)) [
  | inr apart ↦ rw apart (ground arith)
  | inl over ↦
      let (i, r, at, e) = touched-get l x over in
      let (from, till) = overlaps-bounds r (page_down x) (page_down x + 4095) e in
      let out = overlaps-apart r start end (none_overlaps i r at) in
      let outside : (x < start) ⊎ (end < x) = elim out [
        | inl h ↦ inl (omega (arith, h, from))
        | inr h ↦ inr (omega (arith, h, till))
      ] in
      rw over (ground (arith, outside))
]

pub spare-none : (l : List Reservation) (start end x : ℕ) → end < start → spare l start end x ≡ 0
unfolding spare
spare-none l start end x h = ground arith
