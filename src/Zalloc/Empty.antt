-- ===== src/Zalloc/Empty.antt =====
-- The pool before any memory is given to it.
use viengoos.Common.{ℕ, zero, suc, refl, arith, [], replicate}
use viengoos.Zalloc.Buddy.{AllInZone}
use viengoos.Zalloc.Pools.{IsPool, free_bytes}
use viengoos.Zalloc.Turn.{total, weight}
use viengoos.Zalloc.{Pool}

abbrev pub no_memory : Pool
no_memory = record { zones = replicate 19 []; memory = 0 }

pub no_blocks : (n k : ℕ) → AllInZone n (replicate k [])
no_blocks n zero = tt
no_blocks n (suc k) = (tt, no_blocks (suc n) k)

pub no_memory-IsPool : IsPool no_memory
unfolding free_bytes total weight
no_memory-IsPool = record {
  inside = no_blocks 0 19;
  long = refl;
  count = refl;
  small = omega arith;
}
