-- ===== src/Zalloc.antt =====
-- viengoos/zalloc.c and zalloc.h: the zone allocator of pages, on ia32, where uintptr_t has 32 bits
-- and there are 19 zones. A zone's doubly linked list is the list of the addresses of its blocks;
-- what a block holds is not modelled. The source keeps the links in the blocks themselves, so that
-- such a list stands for it as long as no memory is free twice.
pub mod Buddy
pub mod Turn
pub mod Climb
pub mod Free
pub mod Pools
pub mod Empty
pub mod Alloc
pub mod Bite
pub mod Request
pub mod Reuse
mod Tests
use mathlib.Core.List.{tail}
use viengoos.Common.{
  ℕ, zero, suc, ◌+◌, ◌-◌, ◌/◌, ◌%◌, ◌^◌, bit_and, bit_xor, Bool, true, false, not, Option, none,
  some, List, [], ◌∷◌, ltb, ◌==◌, ◌>>=◌, if◌then◌else◌, get_or, get_elem?, set, drop,
}
use viengoos.Math.{msb, lsb}

-- PAGESIZE
abbrev pub pagesize : ℕ
pagesize = 4096

-- ZONES, `sizeof (uintptr_t) * 8 - PAGESIZE_LOG2 - 1`
abbrev pub zones_count : ℕ
zones_count = 19

-- ZONE_SIZE, of a zone of the array
unfoldable pub zone_size : ℕ → ℕ
zone_size x = 2 ^ (x + 12)

-- `zone` and `zalloc_memory`
pub record Pool : Type 0 where
  pub zones : List (List ℕ)
  pub memory : ℕ

-- The search of add_block: the blocks to the left, the nearest one first, and those to the right.
unfoldable pub neighbours : ℕ → List ℕ → List ℕ → List ℕ × List ℕ
neighbours block left [] = (left, [])
neighbours block left (right ∷ rest) =
    let further = neighbours block (right ∷ left) rest in
    if ltb right block then further else (left, right ∷ rest)

-- The list, from both sides of a place in it.
unfoldable pub relink : List ℕ → List ℕ → List ℕ
relink [] right = right
relink (l ∷ left) right = relink left (l ∷ right)

-- `n && (((uintptr_t) n) ^ ((uintptr_t) block)) == ZONE_SIZE (zone_nr)` for the nearest neighbour
unfoldable pub is_buddy : List ℕ → ℕ → ℕ → Bool
unfolding zone_size
is_buddy [] block zone_nr = false
is_buddy (n ∷ _) block zone_nr = bit_xor n block == zone_size zone_nr

-- What follows the search, with the neighbours: whether the block was joined with its buddy, then
-- the joined block, and the list of the zone.
unfoldable pub link : List ℕ → List ℕ → ℕ → ℕ → Bool × ℕ × List ℕ
link left right block zone_nr =
    if is_buddy left block zone_nr
    then (true, get_or left 0 0, relink (tail left) right)
    else if is_buddy right block zone_nr
    then (true, block, relink left (tail right))
    else (false, block, relink left (block ∷ right))

-- One turn of add_block.
unfoldable pub add_to_zone : ℕ → ℕ → List ℕ → Bool × ℕ × List ℕ
add_to_zone block zone_nr zone =
    let (left, right) = neighbours block [] zone in link left right block zone_nr

-- The loop of add_block, on the zones from `zone_nr` on; `none` is an access past the array.
unfoldable pub climb : ℕ → ℕ → List (List ℕ) → Option (List (List ℕ))
climb block zone_nr [] = none
climb block zone_nr (z ∷ zs) =
    let (joined, block', z') = add_to_zone block zone_nr z in
    let rest = climb block' (suc zone_nr) zs >>= λ zs'. some (z' ∷ zs') in
    if joined then rest else some (z' ∷ zs)

-- An operation on the zones from the k-th on.
unfoldable pub at_zone :
    ℕ → (List (List ℕ) → Option (List (List ℕ))) → List (List ℕ) → Option (List (List ℕ))
at_zone zero f zs = f zs
at_zone (suc k) f [] = none
at_zone (suc k) f (z ∷ zs) = at_zone k f zs >>= λ zs'. some (z ∷ zs')

-- add_block
unfoldable pub add_block : ℕ → ℕ → List (List ℕ) → Option (List (List ℕ))
add_block block zone_nr zs = at_zone zone_nr (climb block zone_nr) zs

-- `zone_nr` of zfree
unfoldable pub zone_for : ℕ → ℕ → ℕ
zone_for block size =
    let block_align = (lsb 32 block + 2 ^ 32 - 1) % 2 ^ 32 in
    let size_align = (msb 32 size + 2 ^ 32 - 1) % 2 ^ 32 in
    ((if ltb block_align size_align then block_align else size_align) + 2 ^ 32 - 12) % 2 ^ 32

-- The loop of zfree.
unfoldable pub free_loop : ℕ → List (List ℕ) → ℕ → ℕ → Option (List (List ℕ))
free_loop zero zs block size = none
free_loop (suc fuel) zs block size =
    let zone_nr = zone_for block size in
    let block' = (block + zone_size zone_nr) % 2 ^ 32 in
    let size' = (size + 2 ^ 32 - zone_size zone_nr) % 2 ^ 32 in
    add_block block zone_nr zs >>= λ zs'.
    let rest = free_loop fuel zs' block' size' in if size' == 0 then some zs' else rest

-- How a call ends: it returns, it panics or fails an assertion, or it leaves the array of the zones.
pub data Run {ℓ} (A : Type ℓ) : Type ℓ where
  returns : A → Run A
  panics : Run A
  past_zones : Run A

unfoldable pub then_run {ℓ κ} : {A : Type ℓ} {B : Type κ} → Run A → (A → Run B) → Run B
then_run (returns a) f = f a
then_run panics f = panics
then_run past_zones f = past_zones

-- The zones that the loop leaves, with the new `zalloc_memory`.
unfoldable pub accounted : Option (List (List ℕ)) → ℕ → Run Pool
accounted none memory = past_zones
accounted (some zs) memory = returns (record { zones = zs; memory = memory })

-- zfree; the loop's fuel is the number of its pages, and one.
unfoldable pub zfree : Pool → ℕ → ℕ → Run Pool
zfree p block size =
    let freed = free_loop (suc (size / pagesize)) p.zones block size in
    let result = accounted freed ((p.memory + size / pagesize) % 2 ^ 32) in
    if block == 0
    then panics
    else if not (bit_and size (pagesize - 1) == 0)
    then panics
    else if not (bit_and block (pagesize - 1) == 0)
    then panics
    else result

-- The search of zalloc_internal, on the zones from `zone_nr` on. It stops behind the last zone
-- whatever is read there.
unfoldable pub search : List (List ℕ) → ℕ → ℕ
search [] zone_nr = zone_nr
search ([] ∷ zs) zone_nr = search zs (suc zone_nr)
search ((b ∷ bs) ∷ zs) zone_nr = zone_nr

-- What follows the search, where a zone with a block was found.
unfoldable pub bite : Pool → ℕ → ℕ → ℕ → List ℕ → Run (ℕ × Pool)
bite p size zone_nr block rest =
    let left : Pool = record {
      zones = set p.zones zone_nr rest;
      memory = (p.memory + 2 ^ 32 - zone_size zone_nr / pagesize) % 2 ^ 32;
    } in
    let donated =
      zfree left ((block + size) % 2 ^ 32) ((zone_size zone_nr + 2 ^ 32 - size) % 2 ^ 32) in
    then_run (if ltb size (zone_size zone_nr) then donated else returns left)
      (λ q. returns (block, q))

-- `zone[zone_nr]`, of which the first block is taken
unfoldable pub bite_first : Pool → ℕ → ℕ → Option (List ℕ) → Run (ℕ × Pool)
bite_first p size zone_nr none = past_zones
bite_first p size zone_nr (some []) = past_zones
bite_first p size zone_nr (some (block ∷ rest)) = bite p size zone_nr block rest

-- zalloc_internal: the block's address, or 0
unfoldable pub zalloc_internal : Pool → ℕ → Run (ℕ × Pool)
zalloc_internal p size =
    let wanted = (msb 32 ((size + 2 ^ 32 - 1) % 2 ^ 32) + 2 ^ 32 - 12) % 2 ^ 32 in
    let zone_nr = search (drop wanted p.zones) wanted in
    let found = bite_first p size zone_nr (get_elem? p.zones zone_nr) in
    let exhausted =
      if size == pagesize
      then if p.memory == 0 then returns (0, p) else panics
      else returns (0, p) in
    if not (bit_and size (pagesize - 1) == 0)
    then panics
    else if zone_nr == zones_count
    then exhausted
    else found

-- zalloc
unfoldable pub zalloc : Pool → ℕ → Run (ℕ × Pool)
zalloc p size = if ltb p.memory (size / pagesize) then returns (0, p) else zalloc_internal p size
