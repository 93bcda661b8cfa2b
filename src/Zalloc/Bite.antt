-- ===== src/Zalloc/Bite.antt =====
-- What zalloc takes off a well-formed pool.
use native.Mathlib.Nat.{mod-eq_of_lt, div-add-mod', mul_comm}
use viengoos.Common.{
  ℕ, zero, suc, ◌+◌, ◌-◌, ◌*◌, ◌/◌, ◌%◌, ◌^◌, ◌≤◌, ◌<◌, ◌≡◌, refl, sym, ap, ◌∙◌, subst, arith, true,
  false, some, List, ◌∷◌, ltb, length, dec_lt, get_elem?, set, length-set,
}
use viengoos.Word.Fields.{multiple-mod, two_pow_split}
use viengoos.Zalloc.Alloc.{Taken, set-Taken}
use viengoos.Zalloc.Buddy.{InZone}
use viengoos.Zalloc.Free.{Pages}
use viengoos.Zalloc.Pools.{
  IsPool, zfree-Donated, free_count, free_bytes, bytes, holds, holds_additive,
}
use viengoos.Zalloc.{Pool, returns, then_run, zone_size, zfree, bite}

-- The pool `q` has the memory of `p` but for that from `block` on.
pub record Allocated (p q : Pool) (block size : ℕ) : Type 0 where
  pub pool : IsPool q
  pub pages : Pages block size
  pub memory : p.memory ≡ q.memory + size / 4096
  pub free : (x : ℕ) → free_count x p ≡ holds x block size + free_count x q

-- A block of a zone ends at 2 GB or before.
block_end : (c d t : ℕ) → c * t < d * t → c * t + t ≤ d * t
block_end zero zero t h = omega arith
block_end zero (suc d) t h = omega arith
block_end (suc c) zero t h = omega arith
block_end (suc c) (suc d) t h = omega (arith, block_end c d t (omega arith))

InZone-end : (k b : ℕ) → k < 19 → InZone k b → b + 2 ^ (k + 12) ≤ 2 ^ 31
InZone-end k b small (h, pos, lt) =
    let t = 2 ^ (k + 12) in
    let d = 2 ^ (31 - (k + 12)) in
    let limit : d * t ≡ 2 ^ 31 =
      omega (arith, two_pow_split (k + 12) 31 (omega arith), mul_comm d t) in
    let place : b / t * t ≡ b = omega (arith, div-add-mod' b t) in
    omega (arith, limit, place, block_end (b / t) d t (omega (arith, limit, place)))

-- The pool without the block that is taken.
left_IsPool :
    (p q : Pool) (k b : ℕ)
    → IsPool p
    → Taken bytes 0 k b p.zones q.zones
    → length q.zones ≡ length p.zones
    → q.memory ≡ (p.memory + 2 ^ 32 - 2 ^ (k + 12) / 4096) % 2 ^ 32
    → IsPool q × (p.memory ≡ q.memory + 2 ^ (k + 12) / 4096)
unfolding free_bytes
left_IsPool p q k b w taken long m =
    let paged : 2 ^ (k + 12) % 2 ^ 12 ≡ 0 =
      omega (arith, multiple-mod 1 12 (k + 12) (omega arith)) in
    let room : 2 ^ (k + 12) / 4096 ≤ p.memory = omega (arith, w.count, taken.sum) in
    let less : q.memory + 2 ^ (k + 12) / 4096 ≡ p.memory = omega (arith, m, w.small) in
    (
      record {
        inside = taken.inside;
        long = long ∙ w.long;
        count = omega (arith, w.count, taken.sum, less);
        small = omega (arith, w.small, less);
      },
      sym less,
    )

InZone-aligned : (k b : ℕ) → InZone k b → b % 2 ^ 12 ≡ 0
InZone-aligned k b (h, pos, lt) =
    let place : b / 2 ^ (k + 12) * 2 ^ (k + 12) ≡ b =
      omega (arith, div-add-mod' b (2 ^ (k + 12))) in
    subst (λ x. x % 2 ^ 12 ≡ 0) place (multiple-mod (b / 2 ^ (k + 12)) 12 (k + 12) (omega arith))

-- The start of the block, and what is left of it.
start_Pages :
    (size k b : ℕ)
    → k < 19
    → InZone k b
    → 0 < size
    → size % 2 ^ 12 ≡ 0
    → size ≤ 2 ^ (k + 12)
    → Pages b size
start_Pages size k b small inside pos whole fits = record {
  positive = inside.1;
  some_size = pos;
  aligned = InZone-aligned k b inside;
  whole = whole;
  below = omega (arith, InZone-end k b small inside);
}

rest_Pages :
    (size k b : ℕ)
    → k < 19
    → InZone k b
    → size % 2 ^ 12 ≡ 0
    → size < 2 ^ (k + 12)
    → Pages (b + size) (2 ^ (k + 12) - size)
rest_Pages size k b small inside whole less =
    let aligned = InZone-aligned k b inside in
    let paged = multiple-mod 1 12 (k + 12) (omega arith) in
    record {
      positive = omega (arith, inside.1);
      some_size = omega arith;
      aligned = omega arith;
      whole = omega arith;
      below = omega (arith, InZone-end k b small inside);
    }

-- The pool at the moment the block was taken.
abbrev cut : Pool → ℕ → List ℕ → Pool
cut p k bs = record {
  zones = set p.zones k bs;
  memory = (p.memory + 2 ^ 32 - 2 ^ (k + 12) / 4096) % 2 ^ 32;
}

bite_more :
    (p d : Pool) (size k b : ℕ) (bs : List ℕ)
    → size < 2 ^ (k + 12)
    → b + 2 ^ (k + 12) ≤ 2 ^ 31
    → zfree (cut p k bs) (b + size) (2 ^ (k + 12) - size) ≡ returns d
    → bite p size k b bs ≡ returns (b, d)
unfolding bite zone_size then_run
bite_more p d size k b bs less end e =
    let more : ltb size (2 ^ (k + 12)) ≡ true = ground arith in
    let sum_lem : (b + size) % 2 ^ 32 ≡ b + size = mod-eq_of_lt (omega arith) in
    let rest_lem : (2 ^ (k + 12) + 2 ^ 32 - size) % 2 ^ 32 ≡ 2 ^ (k + 12) - size = omega arith in
    rw (more, sum_lem, rest_lem, e) refl

bite_all :
    (p : Pool) (size k b : ℕ) (bs : List ℕ)
    → size ≡ 2 ^ (k + 12)
    → bite p size k b bs ≡ returns (b, cut p k bs)
unfolding bite zone_size then_run
bite_all p size k b bs same =
    let all : ltb size (2 ^ (k + 12)) ≡ false = ground arith in rw all refl

count_rest :
    (x b size t before cut_off after : ℕ)
    → size < t
    → before ≡ holds x b t + cut_off
    → after ≡ cut_off + holds x (b + size) (t - size)
    → before ≡ holds x b size + after
count_rest x b size t before cut_off after less e f =
    let split : size + (t - size) ≡ t = omega arith in
    let parts = holds_additive x b size (t - size) in
    let same : holds x b (size + (t - size)) ≡ holds x b t = ap (holds x b) split in omega arith

-- A block that a zone holds is taken where it is large enough.
pub bite_cases :
    (p : Pool) (size k b : ℕ) (bs : List ℕ)
    → IsPool p
    → k < 19
    → 0 < size
    → size % 2 ^ 12 ≡ 0
    → size ≤ 2 ^ (k + 12)
    → get_elem? p.zones k ≡ some (b ∷ bs)
    → (q : Pool) × (bite p size k b bs ≡ returns (b, q)) × Allocated p q b size
unfolding free_count
bite_cases p size k b bs w small pos whole fits e =
    let q = cut p k bs in
    let taken : (measure : ℕ → ℕ → ℕ) → Taken measure 0 k b p.zones q.zones =
      λ measure. set-Taken measure 0 k k b bs p.zones (omega arith) w.inside e in
    let inside = (taken bytes).block in
    let (left, memory) = left_IsPool p q k b w (taken bytes) (length-set p.zones k bs) refl in
    let pages = start_Pages size k b small inside pos whole fits in
    let paged = multiple-mod 1 12 (k + 12) (omega arith) in
    elim (dec_lt size (2 ^ (k + 12))) [
      | yes less ↦
          let (d, done, donated) =
            zfree-Donated q (b + size) (2 ^ (k + 12) - size) left
              (rest_Pages size k b small inside whole less) (omega (arith, w.small, memory)) in
          (
            d,
            bite_more p d size k b bs less (InZone-end k b small inside) done,
            record {
              pool = donated.pool;
              pages = pages;
              memory = omega (arith, memory, donated.memory, whole, paged);
              free = λ x.
                  count_rest x b size (2 ^ (k + 12)) _ (free_count x q) _ less (taken (holds x)).sum
                    (donated.free x);
            },
          )
      | no all ↦
          let same : size ≡ 2 ^ (k + 12) = omega arith in
          (
            q,
            bite_all p size k b bs same,
            record {
              pool = left;
              pages = pages;
              memory = memory ∙ ap (λ t. q.memory + t / 4096) (sym same);
              free = λ x. (taken (holds x)).sum ∙ ap (λ t. holds x b t + free_count x q) (sym same);
            },
          )
    ]
