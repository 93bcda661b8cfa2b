-- ===== src/Zalloc/Climb.antt =====
-- add_block over the zones: it ends within the array, and conserves every additive measure.
use viengoos.Common.{
  ℕ, zero, suc, ◌+◌, ◌%◌, ◌^◌, ◌<◌, ◌≡◌, inl, inr, refl, sym, ap, subst, arith, Bool, true, false,
  some, List, [], ◌∷◌, length,
}
use viengoos.Zalloc.Buddy.{InZone, AllInZone}
use viengoos.Zalloc.Turn.{weight, total, Turn, add_to_zone-Turn}
use viengoos.Zalloc.{add_to_zone, climb, at_zone, add_block}

-- No block is in a zone past the last one.
outside : (n b : ℕ) → n ≡ 19 → InZone n b → ⊥
outside n b e (h, pos, lt) =
    let whole : b % 2 ^ (19 + 12) ≡ 0 = subst (λ m. b % 2 ^ (m + 12) ≡ 0) e h in omega arith

module _ (measure : ℕ → ℕ → ℕ) where
  -- The zones from the n-th on after a block was added to them.
  pub record AddedZones (n : ℕ) (zs zs' : List (List ℕ)) (amount : ℕ) : Type 0 where
    pub inside : AllInZone n zs'
    pub long : length zs' ≡ length zs
    pub sum : total measure n zs' ≡ total measure n zs + amount

module _ (measure : ℕ → ℕ → ℕ)
    (additive : (b s t : ℕ) → measure b (s + t) ≡ measure b s + measure (b + s) t) where
  climb-total :
      (zs : List (List ℕ)) (block n : ℕ)
      → AllInZone n zs
      → n + length zs ≡ 19
      → InZone n block
      → (zs' : List (List ℕ)) × (climb block n zs ≡ some zs')
        × AddedZones measure n zs zs' (measure block (2 ^ (n + 12)))
  unfolding climb total Turn
  climb-total [] block n all long inside = absurd (outside n block (omega arith) inside)
  climb-total (z ∷ zs) block n (here, all) long inside =
      go (add_to_zone block n z) refl (add_to_zone-Turn measure additive block n z here inside)
        (λ b. climb-total zs b (suc n) all (omega arith))
    where
      go :
          (turn : Bool × ℕ × List ℕ)
          → add_to_zone block n z ≡ turn
          → Turn measure additive n (weight measure n z) block turn
          → ((b : ℕ)
              → InZone (suc n) b
              → (zs' : List (List ℕ)) × (climb b (suc n) zs ≡ some zs')
                × AddedZones measure (suc n) zs zs' (measure b (2 ^ (suc n + 12))))
          → (zs' : List (List ℕ)) × (climb block n (z ∷ zs) ≡ some zs')
            × AddedZones measure n (z ∷ zs) zs' (measure block (2 ^ (n + 12)))
      go (true, block', z') e (kept, inl (j, next, w)) further =
          let (zs', done, added) = further block' next in
          (
            z' ∷ zs',
            rw (e, done) refl,
            record {
              inside = (kept, added.inside);
              long = ap suc added.long;
              sum = omega (arith, added.sum, w);
            },
          )
      go (false, block', z') e (kept, inr (j, w)) further =
          (z' ∷ zs, rw e refl, record { inside = (kept, all); long = refl; sum = omega (arith, w) })
      go (true, block', z') e (kept, inr (j, w)) further = cc
      go (false, block', z') e (kept, inl (j, next, w)) further = cc

  at_zone-total :
      (k : ℕ) (zs : List (List ℕ)) (block n m : ℕ)
      → m ≡ n + k
      → m < 19
      → AllInZone n zs
      → n + length zs ≡ 19
      → InZone m block
      → (zs' : List (List ℕ)) × (at_zone k (climb block m) zs ≡ some zs')
        × AddedZones measure n zs zs' (measure block (2 ^ (m + 12)))
  unfolding at_zone total
  at_zone-total zero zs block n m e small all long inside =
      let same : n ≡ m = omega arith in
      subst
        (λ n.
          (zs' : List (List ℕ)) × (climb block m zs ≡ some zs')
          × AddedZones measure n zs zs' (measure block (2 ^ (m + 12))))
        (sym same)
        (climb-total zs block m (subst (λ n. AllInZone n zs) same all) (omega arith) inside)
  at_zone-total (suc k) [] block n m e small all long inside = absurd (omega arith)
  at_zone-total (suc k) (z ∷ zs) block n m e small (here, all) long inside =
      let (zs', done, added) =
        at_zone-total k zs block (suc n) m (omega arith) small all (omega arith) inside in
      (
        z ∷ zs',
        rw done refl,
        record {
          inside = (here, added.inside);
          long = ap suc added.long;
          sum = omega (arith, added.sum);
        },
      )

  -- add_block of a block of one of the 19 zones, aligned to its size, not null and below 2 GB,
  -- to 19 zones of such blocks, ends within the array of zones, and leaves 19 zones of such
  -- blocks; every additive measure of memory grows by that of the block.
  pub add_block-total :
      (zs : List (List ℕ)) (block m : ℕ)
      → m < 19
      → AllInZone 0 zs
      → length zs ≡ 19
      → InZone m block
      → (zs' : List (List ℕ)) × (add_block block m zs ≡ some zs')
        × AddedZones measure 0 zs zs' (measure block (2 ^ (m + 12)))
  unfolding add_block
  add_block-total zs block m small all long inside =
      at_zone-total m zs block 0 m (omega arith) small all (omega arith) inside
