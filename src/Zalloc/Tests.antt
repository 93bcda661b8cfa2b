-- ===== src/Zalloc/Tests.antt =====
-- The example of zalloc.c, zfree (4k, 16k), and memory at 2 GB.
use viengoos.Common.{ℕ, ◌+◌, ◌≤◌, ◌<◌, ◌≡◌, ◌⊎◌, refl, arith, [], ◌∷◌, replicate}
use viengoos.Math.{msb, lsb, clz, ffs}
use viengoos.Zalloc.Bite.{Allocated}
use viengoos.Zalloc.Free.{Pages, Piece, zone_for-Piece}
use viengoos.Zalloc.Pools.{IsPool, IsDisjoint, Donated, zfree_cases, free_count, free_bytes, holds}
use viengoos.Zalloc.Request.{IsRequest, Exhausted, zalloc_cases}
use viengoos.Zalloc.Reuse.{zalloc-disjoint, zfree-zalloc}
use viengoos.Zalloc.Turn.{weight, total}
use viengoos.Zalloc.Empty.{no_memory, no_blocks, no_memory-IsPool}
use viengoos.Zalloc.{
  Pool, returns, past_zones, panics, zfree, zalloc, zalloc_internal, accounted, free_loop, zone_for,
  add_block, at_zone, climb, add_to_zone, link, is_buddy, neighbours, relink, zone_size, search,
  bite, bite_first, then_run,
}

-- The 16k at 4k, and 4k more: blocks of 4k at 4k and 16k, and of 8k at 8k.
abbrev broken_up : Pool
broken_up = record { zones = (4096 ∷ 16384 ∷ []) ∷ (8192 ∷ []) ∷ replicate 17 []; memory = 4 }

example_of_the_source : zfree no_memory 4096 16384 ≡ returns broken_up
unfolding zfree accounted free_loop zone_for add_block at_zone climb add_to_zone link is_buddy
    neighbours relink zone_size msb lsb clz ffs
example_of_the_source = refl

misaligned : zfree no_memory 4097 4096 ≡ panics
unfolding zfree
misaligned = refl

beyond_2gb : zfree no_memory 2147483648 2147483648 ≡ past_zones
unfolding zfree accounted free_loop zone_for add_block at_zone climb add_to_zone link is_buddy
    neighbours relink zone_size msb lsb clz ffs
beyond_2gb = refl

-- 8k: the block at 8k; then 4k: the first one.
abbrev without_8k : Pool
without_8k = record { zones = (4096 ∷ 16384 ∷ []) ∷ [] ∷ replicate 17 []; memory = 2 }

abbrev without_12k : Pool
without_12k = record { zones = (16384 ∷ []) ∷ [] ∷ replicate 17 []; memory = 1 }

given_8k : zalloc broken_up 8192 ≡ returns (8192, without_8k)
unfolding zalloc zalloc_internal search bite_first bite then_run zone_size msb clz
given_8k = refl

given_4k : zalloc without_8k 4096 ≡ returns (4096, without_12k)
unfolding zalloc zalloc_internal search bite_first bite then_run zone_size msb clz
given_4k = refl

broken_up-IsPool : IsPool broken_up
unfolding free_bytes total weight
broken_up-IsPool = record {
  inside = (
    ((refl, omega arith, omega arith), ((refl, omega arith, omega arith), tt)),
    (((refl, omega arith, omega arith), tt), no_blocks 2 17),
  );
  long = refl;
  count = refl;
  small = omega arith;
}

one_block_each : (x : ℕ) → free_count x broken_up ≤ 1
unfolding free_count total weight
one_block_each x = ground arith

two_pages : IsRequest 8192
two_pages = record { some_size = omega arith; whole = refl; bound = omega arith }

one_page : IsRequest 4096
one_page = record { some_size = omega arith; whole = refl; bound = omega arith }

at_4k-Pages : Pages 4096 16384
at_4k-Pages = record {
  positive = omega arith;
  some_size = omega arith;
  aligned = refl;
  whole = refl;
  below = omega arith;
}

zone_for-Piece_example : Piece 4096 16384 (zone_for 4096 16384)
zone_for-Piece_example = zone_for-Piece 4096 16384 at_4k-Pages

nothing_free : (x : ℕ) → free_count x no_memory + holds x 4096 16384 ≤ 1
unfolding free_count total weight holds
nothing_free x = ground arith

zfree_cases_example :
    (q : Pool) × (zfree no_memory 4096 16384 ≡ returns q)
    × Donated no_memory q 4096 16384
    × IsDisjoint q
zfree_cases_example =
    zfree_cases no_memory 4096 16384 no_memory-IsPool at_4k-Pages nothing_free (omega arith)

zalloc_cases_example :
    ((zalloc broken_up 8192 ≡ returns (0, broken_up))
      × (Exhausted broken_up 8192 ⊎ (free_bytes broken_up < 8192)))
    ⊎ ((b : ℕ) × (q : Pool) × (zalloc broken_up 8192 ≡ returns (b, q))
        × Allocated broken_up q b 8192)
zalloc_cases_example = zalloc_cases broken_up 8192 broken_up-IsPool two_pages

zalloc-disjoint_example : holds 8193 8192 8192 + holds 8193 4096 4096 ≤ 1
zalloc-disjoint_example =
    zalloc-disjoint broken_up without_8k without_12k 8192 4096 8192 4096 broken_up-IsPool
      one_block_each two_pages one_page (λ e. omega arith) (λ e. omega arith) given_8k given_4k 8193

zfree-zalloc_example :
    (r : Pool) × (zfree without_8k 8192 8192 ≡ returns r)
    × IsPool r
    × (r.memory ≡ broken_up.memory)
    × ((x : ℕ) → free_count x r ≡ free_count x broken_up)
zfree-zalloc_example =
    zfree-zalloc broken_up without_8k 8192 8192 broken_up-IsPool two_pages (λ e. omega arith)
      given_8k
