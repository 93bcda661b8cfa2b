-- ===== src/BitArray/Scan.antt =====
-- The loop of bit_alloc finds the first free bit, from where it starts and around.
use viengoos.BitArray.Bytes.{check_byte-none, check_byte-some}
use viengoos.BitArray.{test, bit_test, check_byte, scan}
use viengoos.Common.{
  ℕ, zero, suc, ◌+◌, ◌-◌, ◌*◌, ◌/◌, ◌%◌, ◌≤◌, ◌<◌, ◌≡◌, ◌≢◌, ◌⊎◌, inl, inr, refl, sym, ap, ◌∙◌,
  arith, true, false, ◌&&◌, ◌||◌, Option, none, some, ltb, ◌==◌, if◌then◌else◌, Option-cases,
  if_true, if_false, ℕ_discrete,
}

abbrev pub IsBytes : (ℕ → ℕ) → Type 0
IsBytes array = (x : ℕ) → array x < 256

-- The bit `j` comes before `k` where the search starts at `start` and goes around.
abbrev pub Before : ℕ → ℕ → ℕ → Type 0
Before start k j = ((start ≤ j) × (j < k)) ⊎ ((k < start) × ((start ≤ j) ⊎ (j < k)))

-- The loop has passed the bit `j` when it is at the byte `byte`.
abbrev pub Passed : ℕ → ℕ → ℕ → Type 0
Passed start byte j =
    ((start ≤ j) × ((j < byte * 8) ⊎ (byte < start / 8))) ⊎ ((byte < start / 8) × (j < byte * 8))

-- What the loop sees of the byte: of the first one, the bits before the start are masked.
abbrev pub Seen : (ℕ → ℕ) → ℕ → ℕ → ℕ → Type 0
Seen array start byte b =
    (i : ℕ)
    → i < 8
    → test b i ≡ ((byte == start / 8 && ltb (byte * 8 + i) start) || test (array byte) i)

pub bit_at :
    (array : ℕ → ℕ) (byte i : ℕ) → i < 8 → bit_test array (byte * 8 + i) ≡ test (array byte) i
unfolding bit_test
bit_at array byte i h =
    let q : (byte * 8 + i) / 8 ≡ byte = omega arith in
    let r : (byte * 8 + i) % 8 ≡ i = omega arith in rw (q, r) refl

-- A bit of the byte that the loop is at, as the loop sees it.
bit_in_view :
    (array : ℕ → ℕ) (start byte b j : ℕ)
    → Seen array start byte b
    → j / 8 ≡ byte
    → (byte ≡ start / 8 → start ≤ j)
    → test b (j % 8) ≡ bit_test array j
unfolding bit_test
bit_in_view array start byte b j seen e after =
    let place : byte * 8 + j % 8 ≡ j = omega (arith, e) in
    let unmasked : (byte == start / 8 && ltb (byte * 8 + j % 8) start) ≡ false =
      elim (ℕ_discrete byte (start / 8)) [
        | yes s ↦ ground (arith, s, after s, place)
        | no ne ↦ ground (arith, ne)
      ] in
    seen (j % 8) (omega arith)
    ∙ ap (λ c. c || test (array byte) (j % 8)) unmasked
    ∙ ap (λ y. test (array y) (j % 8)) (sym e)

-- What the loop leaves: the free bit, or all bits but those before the start in the first byte.
unfoldable pub Scanned : (ℕ → ℕ) → ℕ → ℕ → Option (ℕ × ℕ) → Type 0
Scanned array size start (some (byte, bit)) =
    (byte < size)
    × (bit < 8)
    × (bit_test array (byte * 8 + bit) ≡ false)
    × ((j : ℕ) → j < size * 8 → Before start (byte * 8 + bit) j → bit_test array j ≡ true)
Scanned array size start none =
    (j : ℕ) → j < size * 8 → (start ≤ j) ⊎ (j < start / 8 * 8) → bit_test array j ≡ true

-- The number of rounds left.
abbrev pub rounds : ℕ → ℕ → ℕ → ℕ
rounds size start_byte byte =
    if ltb byte start_byte then start_byte - byte else size - byte + start_byte

-- The next byte.
abbrev IsNext : ℕ → ℕ → ℕ → Type 0
IsNext size byte next = (next ≡ byte + 1) ⊎ ((byte + 1 ≡ size) × (next ≡ 0))

-- A bit of the byte that the loop is at.
abbrev Here : ℕ → ℕ → ℕ → Type 0
Here start byte j = (j / 8 ≡ byte) × (byte ≡ start / 8 → start ≤ j)

is_next :
    (size byte : ℕ) → byte < size → IsNext size byte (if byte + 1 == size then 0 else byte + 1)
is_next size byte h = ground arith

place_before :
    (size start byte next j : ℕ)
    → byte < size
    → IsNext size byte next
    → j < size * 8
    → Passed start next j
    → Here start byte j ⊎ Passed start byte j
place_before size start byte next j h n small p = elim (ℕ_discrete (j / 8) byte) [
  | yes e ↦ inl (e, λ s. ground (arith, s, p, n, small))
  | no ne ↦ inr (ground (arith, ne, p, n, small, h))
]

place_last :
    (size start byte next j : ℕ)
    → byte < size
    → IsNext size byte next
    → next ≡ start / 8
    → j < size * 8
    → (start ≤ j) ⊎ (j < start / 8 * 8)
    → Here start byte j ⊎ Passed start byte j
place_last size start byte next j h n last small p = elim (ℕ_discrete (j / 8) byte) [
  | yes e ↦ inl (e, λ s. ground (arith, s, p, n, small, last))
  | no ne ↦ inr (ground (arith, ne, p, n, small, h, last))
]

place_found :
    (start byte bit j : ℕ)
    → (byte ≡ start / 8 → start ≤ byte * 8 + bit)
    → bit < 8
    → Before start (byte * 8 + bit) j
    → (Here start byte j × (j % 8 < bit)) ⊎ Passed start byte j
place_found start byte bit j after small p = elim (ℕ_discrete (j / 8) byte) [
  | yes e ↦ ground (arith, e, p, small, after)
  | no ne ↦ inr (ground (arith, ne, p, small, after))
]

-- All bits passed are set.
abbrev pub AllPassed : (ℕ → ℕ) → ℕ → ℕ → ℕ → Type 0
AllPassed array size start byte =
    (j : ℕ) → j < size * 8 → Passed start byte j → bit_test array j ≡ true

found-Scanned :
    (array : ℕ → ℕ) (size start byte b bit : ℕ)
    → byte < size
    → b < 256
    → Seen array start byte b
    → AllPassed array size start byte
    → check_byte b ≡ some bit
    → Scanned array size start (some (byte, bit))
unfolding Scanned
found-Scanned array size start byte b bit h small seen passed e =
    let (low, clear, below) = check_byte-some b bit small e in
    let clear' : ((byte == start / 8 && ltb (byte * 8 + bit) start) || test (array byte) bit)
        ≡ false =
      sym (seen bit low) ∙ clear in
    let after : byte ≡ start / 8 → start ≤ byte * 8 + bit = λ s. ground (arith, s, clear') in
    (
      h,
      low,
      bit_at array byte bit low ∙ ground (arith, clear'),
      λ j inside before. elim (place_found start byte bit j after low before) [
        | inl (here, less) ↦
            sym (bit_in_view array start byte b j seen here.0 here.1) ∙ below (j % 8) less
        | inr p ↦ passed j inside p
      ],
    )

nothing_free :
    (array : ℕ → ℕ) (start byte b j : ℕ)
    → b < 256
    → Seen array start byte b
    → check_byte b ≡ none
    → Here start byte j
    → bit_test array j ≡ true
nothing_free array start byte b j small seen e (at, after) =
    sym (bit_in_view array start byte b j seen at after)
    ∙ check_byte-none b (j % 8) small (omega arith) e

later_byte :
    (array : ℕ → ℕ) (start next : ℕ) → next ≢ start / 8 → Seen array start next (array next)
later_byte array start next ne i small = ground (arith, ne)

fewer_rounds :
    (size start_byte byte next fuel : ℕ)
    → byte < size
    → start_byte < size
    → IsNext size byte next
    → next ≢ start_byte
    → rounds size start_byte byte ≤ suc fuel
    → rounds size start_byte next ≤ fuel
fewer_rounds size start_byte byte next fuel h first n ne enough =
    ground (arith, h, first, n, ne, enough)

-- One round in which no bit is found.
round_on :
    (fuel : ℕ) (array : ℕ → ℕ) (size start_byte byte b next : ℕ)
    → (if byte + 1 == size then 0 else byte + 1) ≡ next
    → check_byte b ≡ none
    → scan (suc fuel) array size start_byte byte b ≡ (
        if next == start_byte then some none else scan fuel array size start_byte next (array next))
unfolding scan
round_on fuel array size start_byte byte b next e none_free =
    ap
      (λ o. elim o as (λ _. Option (Option (ℕ × ℕ))) [
        | some bit ↦ some (some (byte, bit))
        | none ↦
            if (if byte + 1 == size then 0 else byte + 1) == start_byte
            then some none
            else scan fuel array size start_byte (if byte + 1 == size then 0 else byte + 1)
                (array (if byte + 1 == size then 0 else byte + 1))
      ])
      none_free
    ∙ ap (λ n. if n == start_byte then some none else scan fuel array size start_byte n (array n)) e

round_found :
    (fuel : ℕ) (array : ℕ → ℕ) (size start_byte byte b bit : ℕ)
    → check_byte b ≡ some bit
    → scan (suc fuel) array size start_byte byte b ≡ some (some (byte, bit))
unfolding scan
round_found fuel array size start_byte byte b bit e =
    ap
      (λ o. elim o as (λ _. Option (Option (ℕ × ℕ))) [
        | some bit ↦ some (some (byte, bit))
        | none ↦
            if (if byte + 1 == size then 0 else byte + 1) == start_byte
            then some none
            else scan fuel array size start_byte (if byte + 1 == size then 0 else byte + 1)
                (array (if byte + 1 == size then 0 else byte + 1))
      ])
      e

pub scan-Scanned :
    (fuel : ℕ) (array : ℕ → ℕ) (size start byte b : ℕ)
    → IsBytes array
    → start < size * 8
    → byte < size
    → b < 256
    → Seen array start byte b
    → AllPassed array size start byte
    → rounds size (start / 8) byte ≤ fuel
    → (r : Option (ℕ × ℕ)) × (scan fuel array size (start / 8) byte b ≡ some r)
      × Scanned array size start r
unfolding Scanned
scan-Scanned zero array size start byte b bytes first h small seen passed enough =
    absurd (ground (arith, h, enough))
scan-Scanned (suc fuel) array size start byte b bytes first h small seen passed enough =
    elim (Option-cases (check_byte b)) [
      | inr (bit, e) ↦ (
        some (byte, bit),
        round_found fuel array size (start / 8) byte b bit e,
        found-Scanned array size start byte b bit h small seen passed e,
      )
      | inl e ↦
          let next = if byte + 1 == size then 0 else byte + 1 in
          let n : IsNext size byte next = is_next size byte h in
          let on = round_on fuel array size (start / 8) byte b next refl e in
          let rest = scan fuel array size (start / 8) next (array next) in
          elim (ℕ_discrete next (start / 8)) [
            | yes last ↦ (
              none,
              on ∙ if_true (next == start / 8) (some none) rest (same_test next (start / 8) last),
              λ j inside p. elim (place_last size start byte next j h n last inside p) [
                | inl here ↦ nothing_free array start byte b j small seen e here
                | inr q ↦ passed j inside q
              ],
            )
            | no ne ↦
                let (r, ran, done) =
                  scan-Scanned fuel array size start next (array next) bytes first
                    (within size byte h) (bytes next) (later_byte array start next ne)
                    (λ j inside p. elim (place_before size start byte next j h n inside p) [
                      | inl here ↦ nothing_free array start byte b j small seen e here
                      | inr q ↦ passed j inside q
                    ])
                    (fewer_rounds size (start / 8) byte next fuel h (omega arith) n ne enough) in
                (
                  r,
                  on
                      ∙ if_false (next == start / 8) (some none) rest
                          (other_test next (start / 8) ne)
                      ∙ ran,
                  done,
                )
          ]
    ]
  where
    same_test : (x y : ℕ) → x ≡ y → (x == y) ≡ true
    same_test x y e = ground arith

    other_test : (x y : ℕ) → x ≢ y → (x == y) ≡ false
    other_test x y e = ground arith

    within : (size byte : ℕ) → byte < size → (if byte + 1 == size then 0 else byte + 1) < size
    within size byte h = ground arith
