-- ===== src/Zalloc/Free.antt =====
-- zfree: the zone of each block that it breaks off, and its loop.
use native.Mathlib.Nat.{mod-eq_of_lt}
use viengoos.Common.{
  ℕ, zero, suc, ◌+◌, ◌-◌, ◌*◌, ◌/◌, ◌%◌, ◌^◌, ◌≤◌, ◌<◌, ◌≡◌, inl, inr, refl, ap, ◌∙◌, subst, arith,
  some, List, ltb, ◌==◌, if◌then◌else◌, length, Bool-cases, dec_lt,
}
use viengoos.Math.{msb, lsb}
use viengoos.Math.Laws.{msb_bounds, lsb_odd-mul-two_pow, lowest_bit}
use viengoos.Word.Fields.{two_pow_suc, two_pow_pos, two_pow_le, mod_two_pow_suc, multiple-mod}
use viengoos.Zalloc.Buddy.{InZone, AllInZone}
use viengoos.Zalloc.Climb.{AddedZones, add_block-total}
use viengoos.Zalloc.{zone_size, zone_for, add_block, free_loop}

-- An odd multiple of a power of two is a multiple of no larger power.
odd_multiple : (k p q : ℕ) → (2 * q + 1) * 2 ^ p % 2 ^ k ≡ 0 → k ≤ p
odd_multiple zero p q h = omega arith
odd_multiple (suc k) zero q h = absurd (omega (arith, mod_two_pow_suc ((2 * q + 1) * 2 ^ 0) k))
odd_multiple (suc k) (suc p) q h =
    let double = ap (λ (t : ℕ). (2 * q + 1) * t) (two_pow_suc p) in
    let digits = mod_two_pow_suc ((2 * q + 1) * 2 ^ suc p) k in
    let half : (2 * q + 1) * 2 ^ suc p / 2 ≡ (2 * q + 1) * 2 ^ p = omega arith in
    let rest : (2 * q + 1) * 2 ^ p % 2 ^ k ≡ 0 = subst (λ x. x % 2 ^ k ≡ 0) half (omega arith) in
    omega (arith, odd_multiple k p q rest)

-- Pages below 2 GB, from `block` on, but not at 0.
pub record Pages (block size : ℕ) : Type 0 where
  pub positive : 0 < block
  pub some_size : 0 < size
  pub aligned : block % 2 ^ 12 ≡ 0
  pub whole : size % 2 ^ 12 ≡ 0
  pub below : block + size ≤ 2 ^ 31

-- The block that is broken off.
pub record Piece (block size n : ℕ) : Type 0 where
  pub small : n < 19
  pub inside : InZone n block
  pub fits : 2 ^ (n + 12) ≤ size
  pub paged : 2 ^ (n + 12) % 2 ^ 12 ≡ 0

prefix-Piece :
    (block size p q s n m : ℕ)
    → Pages block size
    → block ≡ (2 * q + 1) * 2 ^ p
    → 2 ^ s ≤ size
    → m ≤ p
    → m ≤ s
    → m ≡ n + 12
    → Piece block size n
prefix-Piece block size p q s n m h e low at_p at_s sum = record {
  small = elim (dec_lt n 19) [
    | yes lt ↦ lt
    | no ge ↦ absurd (
        omega (
          arith,
          h.below,
          h.positive,
          two_pow_le 31 (n + 12) (omega arith),
          two_pow_le (n + 12) s (omega arith),
        ))
  ];
  inside = (
    rw e (multiple-mod (2 * q + 1) (n + 12) p (omega arith)),
    h.positive,
    omega (arith, h.below, h.some_size),
  );
  fits = omega (arith, two_pow_le (n + 12) s (omega arith));
  paged = omega (arith, multiple-mod 1 12 (n + 12) (omega arith));
}

chosen_zone :
    (l s : ℕ)
    → 12 < l
    → 12 < s
    → l ≤ 32
    → s ≤ 32
    → let a : ℕ = (l + 2 ^ 32 - 1) % 2 ^ 32 in
      let b : ℕ = (s + 2 ^ 32 - 1) % 2 ^ 32 in
      let n : ℕ = ((if ltb a b then a else b) + 2 ^ 32 - 12) % 2 ^ 32 in
      (n + 12 ≤ l - 1) × (n + 12 ≤ s - 1)
chosen_zone l s hl hs bl bs = ground arith

-- The zone number that zfree computes, of pages below 2 GB and not at 0, is one of the 19; the
-- block is aligned to the size of that zone, below 2 GB and not null, and that size is one of
-- whole pages and no more than the pages.
pub zone_for-Piece : (block size : ℕ) → Pages block size → Piece block size (zone_for block size)
unfolding zone_for
zone_for-Piece block size h =
    let b = lowest_bit 32 block (omega (arith, h.positive)) (omega (arith, h.below, h.some_size)) in
    let (pos, le, low, high) =
      msb_bounds 32 size (omega (arith, h.some_size)) (omega (arith, h.below)) in
    let number : lsb 32 block ≡ suc b.place =
      ap (lsb 32) b.value ∙ lsb_odd-mul-two_pow 32 b.place b.above b.within in
    let twelve : 12 ≤ b.place =
      odd_multiple 12 b.place b.above (subst (λ x. x % 2 ^ 12 ≡ 0) b.value h.aligned) in
    let large : 12 < msb 32 size = elim (dec_lt 12 (msb 32 size)) [
      | yes lt ↦ lt
      | no ge ↦
          absurd (omega (arith, h.whole, h.some_size, two_pow_le (msb 32 size) 12 (omega arith)))
    ] in
    let (at_p, at_s) =
      chosen_zone (lsb 32 block) (msb 32 size) (omega (arith, number)) large
        (omega (arith, number, b.within)) le in
    prefix-Piece block size b.place b.above (msb 32 size - 1) _ _ h b.value low
      (omega (arith, number, at_p)) at_s refl

-- What is left after the piece.
rest_Pages :
    (block size n : ℕ)
    → Pages block size
    → Piece block size n
    → 2 ^ (n + 12) < size
    → Pages (block + 2 ^ (n + 12)) (size - 2 ^ (n + 12))
rest_Pages block size n h piece more = record {
  positive = omega (arith, h.positive);
  some_size = omega arith;
  aligned = omega (arith, h.aligned, piece.paged);
  whole = omega (arith, h.whole, piece.paged);
  below = omega (arith, h.below, piece.fits);
}

-- A turn of the loop, of a piece of the size `z`.
free_loop_turn :
    (fuel : ℕ) (zs xs : List (List ℕ)) (block size z : ℕ)
    → z ≡ 2 ^ (zone_for block size + 12)
    → add_block block (zone_for block size) zs ≡ some xs
    → (block + z) % 2 ^ 32 ≡ block + z
    → (size + 2 ^ 32 - z) % 2 ^ 32 ≡ size - z
    → free_loop (suc fuel) zs block size
      ≡ (if (size - z) == 0 then some xs else free_loop fuel xs (block + z) (size - z))
unfolding free_loop zone_size
free_loop_turn fuel zs xs block size z e done b s = rw (done, ← e, b, s) refl

module _ (measure : ℕ → ℕ → ℕ)
    (additive : (b s t : ℕ) → measure b (s + t) ≡ measure b s + measure (b + s) t) where
  AddedZones-trans :
      (zs xs ys : List (List ℕ)) (block s t size : ℕ)
      → s + t ≡ size
      → AddedZones measure 0 zs xs (measure block s)
      → AddedZones measure 0 xs ys (measure (block + s) t)
      → AddedZones measure 0 zs ys (measure block size)
  AddedZones-trans zs xs ys block s t size e f g = record {
    inside = g.inside;
    long = g.long ∙ f.long;
    sum = omega (arith, f.sum, g.sum, additive block s t, ap (measure block) e);
  }

  pub free_loop-total :
      (fuel : ℕ) (zs : List (List ℕ)) (block size : ℕ)
      → AllInZone 0 zs
      → length zs ≡ 19
      → Pages block size
      → size / 4096 < fuel
      → (zs' : List (List ℕ)) × (free_loop fuel zs block size ≡ some zs')
        × AddedZones measure 0 zs zs' (measure block size)
  free_loop-total zero zs block size all long h enough = elim enough [ ]
  free_loop-total (suc fuel) zs block size all long h enough =
      let n = zone_for block size in
      let z = 2 ^ (n + 12) in
      let piece = zone_for-Piece block size h in
      let (xs, done, added) =
        add_block-total measure additive zs block n piece.small all long piece.inside in
      let block_lem : (block + z) % 2 ^ 32 ≡ block + z =
        mod-eq_of_lt (omega (arith, h.below, piece.fits)) in
      let size_lem : (size + 2 ^ 32 - z) % 2 ^ 32 ≡ size - z = omega (arith, h.below, piece.fits) in
      let turn = free_loop_turn fuel zs xs block size z refl done block_lem size_lem in
      elim (Bool-cases ((size - z) == 0)) [
        | inl y ↦ (
          xs,
          turn ∙ ap (λ c. if c then some xs else free_loop fuel xs (block + z) (size - z)) y,
          subst (λ s. AddedZones measure 0 zs xs (measure block s))
              (let e : size - z ≡ 0 = ground arith in omega (arith, piece.fits)) added,
        )
        | inr more ↦
            let left : z < size = ground arith in
            let less : (size - z) / 4096 < fuel =
              omega (arith, enough, piece.paged, two_pow_pos (n + 12)) in
            let (ys, end, then_added) =
              free_loop-total fuel xs (block + z) (size - z) added.inside (added.long ∙ long)
                (rest_Pages block size n h piece left) less in
            (
              ys,
              turn
                  ∙ ap (λ c. if c then some xs else free_loop fuel xs (block + z) (size - z)) more
                  ∙ end,
              AddedZones-trans zs xs ys block z (size - z) size (omega arith) added then_added,
            )
      ]
