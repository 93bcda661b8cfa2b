-- ===== src/Zalloc/Request.antt =====
-- zalloc and zalloc_internal on a well-formed pool.
use viengoos.Common.{
  ℕ, zero, suc, ◌+◌, ◌-◌, ◌/◌, ◌%◌, ◌^◌, ◌≤◌, ◌<◌, ◌≡◌, ◌⊎◌, inl, inr, refl, sym, ap, ◌∙◌, subst,
  arith, true, false, some, List, [], ◌∷◌, ltb, ◌==◌, All, length, Bool-cases, dec_lt, bit_and,
  get_elem?, get_or, drop, ℕ_discrete,
}
use viengoos.Math.{msb}
use viengoos.Math.Laws.{msb_bounds, msb-le-of-lt}
use viengoos.Word.Fields.{bit_and-low_mask, two_pow_le, pow_congr}
use viengoos.Zalloc.Alloc.{search_cases, get_elem?-drop, length-drop, drop-empty}
use viengoos.Zalloc.Bite.{Allocated, bite_cases}
use viengoos.Zalloc.Pools.{IsPool, free_bytes, bytes}
use viengoos.Zalloc.Turn.{weight, total}
use viengoos.Zalloc.{Pool, returns, search, bite, bite_first, zalloc_internal, zalloc}

-- `zone_nr` before the search
abbrev wanted : ℕ → ℕ
wanted size = (msb 32 ((size + 2 ^ 32 - 1) % 2 ^ 32) + 2 ^ 32 - 12) % 2 ^ 32

-- A request that the allocator serves: pages, and 2 GB at most.
pub record IsRequest (size : ℕ) : Type 0 where
  pub some_size : 0 < size
  pub whole : size % 2 ^ 12 ≡ 0
  pub bound : size ≤ 2 ^ 31

-- The zone is the first of which the blocks are large enough.
record FirstZone (size n : ℕ) : Type 0 where
  zone : n ≤ 19
  large : size ≤ 2 ^ (n + 12)
  first : (m : ℕ) → size ≤ 2 ^ (m + 12) → n ≤ m

wanted-FirstZone : (size : ℕ) → IsRequest size → FirstZone size (wanted size)
wanted-FirstZone size h =
    let x = size - 1 in
    let less : (size + 2 ^ 32 - 1) % 2 ^ 32 ≡ x = omega (arith, h.some_size, h.bound) in
    let page : 4095 ≤ x = omega (arith, h.some_size, h.whole) in
    let (pos, le, low, high) = msb_bounds 32 x (omega arith) (omega (arith, h.bound)) in
    let m = msb 32 x in
    let few : m ≤ 31 =
      msb-le-of-lt 32 x 31 (omega (arith, h.bound)) (omega (arith, h.some_size, h.bound)) in
    let many : 11 < m = elim (dec_lt 11 m) [
      | yes lt ↦ lt
      | no ge ↦ absurd (omega (arith, two_pow_le m 11 (omega arith)))
    ] in
    let zone : wanted size ≡ m - 12 =
      ap (λ y. (msb 32 y + 2 ^ 32 - 12) % 2 ^ 32) less ∙ omega arith in
    record {
      zone = omega (arith, zone);
      large =
          omega (arith, h.some_size, high, pow_congr (wanted size + 12) m (omega (arith, zone)));
      first = λ n fits. omega (
        arith,
        zone,
        msb-le-of-lt 32 x (n + 12) (omega (arith, h.bound)) (omega (arith, h.some_size)),
      );
    }

-- Where the zone `n` has a block, its first one is bitten off.
found :
    (p : Pool) (size n b : ℕ) (bs : List ℕ)
    → size % 2 ^ 12 ≡ 0
    → search (drop (wanted size) p.zones) (wanted size) ≡ n
    → n < 19
    → get_elem? p.zones n ≡ some (b ∷ bs)
    → zalloc_internal p size ≡ bite p size n b bs
unfolding zalloc_internal bite_first
found p size n b bs whole e small at =
    let paged : bit_and size 4095 ≡ 0 = bit_and-low_mask 12 size ∙ whole in
    let last : (n == 19) ≡ false = ground arith in rw (paged, e, last, at) refl

exhausted :
    (p : Pool) (size : ℕ)
    → size % 2 ^ 12 ≡ 0
    → search (drop (wanted size) p.zones) (wanted size) ≡ 19
    → (size ≡ 4096 → p.memory ≡ 0)
    → zalloc_internal p size ≡ returns (0, p)
unfolding zalloc_internal
exhausted p size whole e none_left =
    let paged : bit_and size 4095 ≡ 0 = bit_and-low_mask 12 size ∙ whole in
    rw (paged, e)
      (elim (ℕ_discrete size 4096) [
        | yes same ↦
            let zero_pages : p.memory ≡ 0 = none_left same in
            let one : (size == 4096) ≡ true = ground arith in rw (one, zero_pages) refl
        | no other ↦ let more : (size == 4096) ≡ false = ground arith in rw more refl
      ])

total-empty : (n : ℕ) (zs : List (List ℕ)) → All (λ z. z ≡ []) zs → total bytes n zs ≡ 0
unfolding total weight
total-empty n [] all = refl
total-empty n (z ∷ zs) (e, all) = omega (arith, ap (weight bytes n) e, total-empty (suc n) zs all)

nothing_left :
    (p : Pool) (n : ℕ) → IsPool p → All (λ z. z ≡ []) (drop n p.zones) → n ≡ 0 → p.memory ≡ 0
unfolding free_bytes
nothing_left p n w empty e =
    let all : All (λ z. z ≡ []) p.zones = subst (λ n. All (λ z. z ≡ []) (drop n p.zones)) e empty in
    omega (arith, w.count, total-empty 0 p.zones all)

get_elem?-lt : (n : ℕ) (zs : List (List ℕ)) {z : List ℕ} → get_elem? zs n ≡ some z → n < length zs
get_elem?-lt n [] e = cc
get_elem?-lt zero (z ∷ zs) e = omega arith
get_elem?-lt (suc n) (z ∷ zs) e = omega (arith, get_elem?-lt n zs e)

-- No free block is as large as the request.
abbrev pub Exhausted : Pool → ℕ → Type 0
Exhausted p size = (n : ℕ) → size ≤ 2 ^ (n + 12) → get_or p.zones n [] ≡ []

pub zalloc_internal_cases :
    (p : Pool) (size : ℕ)
    → IsPool p
    → IsRequest size
    → ((zalloc_internal p size ≡ returns (0, p)) × Exhausted p size)
      ⊎ ((b : ℕ) × (q : Pool) × (zalloc_internal p size ≡ returns (b, q)) × Allocated p q b size)
zalloc_internal_cases p size w h =
    let f = wanted-FirstZone size h in
    let n = wanted size in
    elim (search_cases (drop n p.zones) n) [
      | inl (empty, e) ↦ inl (
        exhausted p size h.whole (omega (arith, e, length-drop n p.zones, w.long, f.zone))
            (λ same. nothing_left p n w empty (omega (arith, f.first 0 (omega (arith, same))))),
        λ m fits. drop-empty n m p.zones empty (f.first m fits),
      )
      | inr (k, b, bs, e, at) ↦
          let here : get_elem? p.zones (n + k) ≡ some (b ∷ bs) =
            sym (get_elem?-drop n k p.zones) ∙ at in
          let small : n + k < 19 = omega (arith, get_elem?-lt (n + k) p.zones here, w.long) in
          let (q, done, allocated) =
            bite_cases p size (n + k) b bs w small h.some_size h.whole
              (omega (arith, f.large, two_pow_le (n + 12) (n + k + 12) (omega arith))) here in
          inr (b, q, found p size (n + k) b bs h.whole e small here ∙ done, allocated)
    ]

-- zalloc of pages, of 2 GB at most, on a well-formed pool returns. Either it gives 0 and leaves
-- the pool as it is, and then no free block is as large as the request, or it is larger than all
-- the free memory; or it gives pages below 2 GB, and leaves a well-formed pool that has the free
-- memory less those pages, address by address, and counts it in zalloc_memory.
pub zalloc_cases :
    (p : Pool) (size : ℕ)
    → IsPool p
    → IsRequest size
    → ((zalloc p size ≡ returns (0, p)) × (Exhausted p size ⊎ (free_bytes p < size)))
      ⊎ ((b : ℕ) × (q : Pool) × (zalloc p size ≡ returns (b, q)) × Allocated p q b size)
unfolding zalloc
zalloc_cases p size w h = elim (Bool-cases (ltb p.memory (size / 4096))) [
  | inl much ↦
      let less : p.memory < size / 4096 = ground arith in
      inl (rw much refl, inr (omega (arith, w.count)))
  | inr fits ↦ rw fits (elim (zalloc_internal_cases p size w h) [
    | inl (e, none_left) ↦ inl (e, inl none_left)
    | inr r ↦ inr r
  ])
]
