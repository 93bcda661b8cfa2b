-- ===== src/Zalloc/Pools.antt =====
-- zfree on a well-formed pool.
use viengoos.Common.{
  ℕ, suc, ◌+◌, ◌*◌, ◌/◌, ◌%◌, ◌^◌, ◌≤◌, ◌<◌, ◌≡◌, refl, ◌∙◌, subst, arith, false, ◌&&◌, ltb, leb,
  ◌==◌, if◌then◌else◌, length, bit_and,
}
use native.Mathlib.Nat.{mod-eq_of_lt}
use viengoos.Word.Fields.{bit_and-low_mask}
use viengoos.Zalloc.Buddy.{AllInZone}
use viengoos.Zalloc.Free.{Pages, free_loop-total}
use viengoos.Zalloc.Turn.{total}
use viengoos.Zalloc.{Pool, returns, zfree, accounted}

-- Two measures of memory: its bytes, and whether it holds the address `x`.
abbrev pub bytes : ℕ → ℕ → ℕ
bytes b s = s

pub bytes_additive : (b s t : ℕ) → bytes b (s + t) ≡ bytes b s + bytes (b + s) t
bytes_additive b s t = refl

abbrev pub holds : ℕ → ℕ → ℕ → ℕ
holds x b s = if leb b x && ltb x (b + s) then 1 else 0

pub holds_additive : (x b s t : ℕ) → holds x b (s + t) ≡ holds x b s + holds x (b + s) t
holds_additive x b s t = ground arith

-- The number of the free blocks that hold the address.
unfoldable pub free_count : ℕ → Pool → ℕ
free_count x p = total (holds x) 0 p.zones

unfoldable pub free_bytes : Pool → ℕ
free_bytes p = total bytes 0 p.zones

-- A well-formed pool: 19 zones, of blocks that are aligned to their size, not null and below
-- 2 GB, and `zalloc_memory` is the number of their pages.
pub record IsPool (p : Pool) : Type 0 where
  pub inside : AllInZone 0 p.zones
  pub long : length p.zones ≡ 19
  pub count : p.memory * 4096 ≡ free_bytes p
  pub small : p.memory < 2 ^ 32

-- The pool `q` has the memory of `p`, and that from `block` on.
pub record Donated (p q : Pool) (block size : ℕ) : Type 0 where
  pub pool : IsPool q
  pub memory : q.memory ≡ p.memory + size / 4096
  pub free : (x : ℕ) → free_count x q ≡ free_count x p + holds x block size

-- The lists of blocks, whatever is in them.
pub zfree-Donated :
    (p : Pool) (block size : ℕ)
    → IsPool p
    → Pages block size
    → p.memory + size / 4096 < 2 ^ 32
    → (q : Pool) × (zfree p block size ≡ returns q) × Donated p q block size
unfolding zfree accounted free_count free_bytes
zfree-Donated p block size w h small =
    let (zs, done, added) =
      free_loop-total bytes bytes_additive (suc (size / 4096)) p.zones block size w.inside w.long h
        (omega arith) in
    let memory : (p.memory + size / 4096) % 2 ^ 32 ≡ p.memory + size / 4096 = mod-eq_of_lt small in
    let whole : bit_and size 4095 ≡ 0 = bit_and-low_mask 12 size ∙ h.whole in
    let aligned : bit_and block 4095 ≡ 0 = bit_and-low_mask 12 block ∙ h.aligned in
    let proper : (block == 0) ≡ false = ground (arith, h.positive) in
    (
      record { zones = zs; memory = p.memory + size / 4096 },
      rw (proper, whole, aligned, done, memory) refl,
      record {
        pool = record {
          inside = added.inside;
          long = added.long ∙ w.long;
          count = omega (arith, added.sum, w.count, h.whole);
          small = small;
        };
        memory = refl;
        free = λ x.
            let (zs', done', added') =
              free_loop-total (holds x) (holds_additive x) (suc (size / 4096)) p.zones block size
                w.inside w.long h (omega arith) in
            let same : zs' ≡ zs = cc in
            subst (λ z. total (holds x) 0 z ≡ total (holds x) 0 p.zones + holds x block size) same
              added'.sum;
      },
    )

-- No address is in two free blocks.
abbrev pub IsDisjoint : Pool → Type 0
IsDisjoint p = (x : ℕ) → free_count x p ≤ 1

-- zfree of pages below 2 GB and not at 0, on a well-formed pool of which the count of pages
-- stays a word, where no address is free twice and none of those pages is free already, returns.
-- It leaves a well-formed pool in which each address is in one free block more if it is in those
-- pages, and in as many as before if not, zalloc_memory grows by the number of the pages, and no
-- address is in two free blocks.
pub zfree_cases :
    (p : Pool) (block size : ℕ)
    → IsPool p
    → Pages block size
    → ((x : ℕ) → free_count x p + holds x block size ≤ 1)
    → p.memory + size / 4096 < 2 ^ 32
    → (q : Pool) × (zfree p block size ≡ returns q) × Donated p q block size × IsDisjoint q
zfree_cases p block size w h apart small =
    let (q, done, d) = zfree-Donated p block size w h small in
    (q, done, d, λ x. omega (arith, d.free x, apart x))
