-- ===== src/Ihash/Tests.antt =====
-- A table of 7 slots: two keys with one home slot, and the removal of the first.
use viengoos.Common.{
  ℕ, ◌*◌, ◌/◌, ◌≤◌, ◌≡◌, ◌⊎◌, refl, arith, Bool, true, false, none, some, List, [], ◌∷◌, replicate,
  All, ◌==◌, ◌>>=◌, if◌then◌else◌,
}
use viengoos.Ihash.Buffer.{buffer_size-pick_size}
use viengoos.Ihash.Find.{route, IsShaped, IsTable, Holds, find_cases}
use viengoos.Ihash.Init.{fresh-IsTable}
use viengoos.Ihash.Remove.{remove_cases}
use viengoos.Ihash.Replace.{replace_cases, replace_one_cleaned, OldItem}
use viengoos.Ihash.Seek.{AllTaken}
use viengoos.Ihash.Sizes.{pick_size, buffer_size, item_size, load_factor, ihash_sizes}
use viengoos.Ihash.{
  Table, Item, Added, Error, success, enomem, find, replace, remove, replace_one, seek, seek_loop,
  find_index, find_loop, stops, next_up, next_down, next_step, remember, put, evict, choose, place,
  write, stored_key, locp_remove, index_valid, index_empty, item_at, value_at,
}

abbrev blank : List Item
blank = replicate 7 (record { value = 0; key = 0 })

abbrev fresh : Table
fresh = record {
  nr_items = 0;
  large = false;
  items = blank;
  size = 7;
  has_locp = false;
  max_load = 80;
  has_cleanup = true;
}

fresh_lem : IsTable fresh
fresh_lem = (fresh-IsTable fresh all (omega arith) shaped).0
  where
    all : All (λ x. x.value ≡ 0) blank
    all = (refl, (refl, (refl, (refl, (refl, (refl, (refl, tt)))))))

    shaped : IsShaped 7
    shaped = record { half = 3; odd = refl; two = omega arith; bound = omega arith }

-- Keys 3 and 10 share the home slot 3; 10 goes to slot 4, and is found after 3 is removed.
collides :
    (replace fresh 3 100 false >>= λ (_, a).
    replace a.table 10 200 false >>= λ (_, b). remove b.table 3 >>= λ (_, t, _). find t 10)
    ≡ some 200
unfolding replace remove replace_one find seek seek_loop find_index find_loop stops next_up
    next_down next_step remember put evict choose place write stored_key locp_remove index_valid
    index_empty item_at
collides = refl

find_cases_example :
    ((j : ℕ) × Holds fresh 3 j × (find fresh 3 ≡ some (value_at fresh j)))
    ⊎ (((j : ℕ) → ¬ Holds fresh 3 j) × (find fresh 3 ≡ some 0))
find_cases_example = find_cases fresh 3 fresh_lem

replace_cases_example :
    (e : Error) × (a : Added) × (replace fresh 3 100 false ≡ some (e, a))
    × (((e ≡ success)
          × IsTable a.table
          × (find a.table 10 ≡ (if 10 == 3 then some 100 else find fresh 10)))
        ⊎ ((e ≡ enomem) × (a.table ≡ fresh) × (find fresh 3 ≡ some 0) × AllTaken fresh (route 7 3)))
unfolding stored_key
replace_cases_example =
    replace_cases fresh 3 100 false 10 fresh_lem refl (omega arith) (omega arith)

replace_one_cleaned_example :
    (a : Added) × (replace_one fresh 3 100 true ≡ some a) × OldItem fresh 3 true a
replace_one_cleaned_example = replace_one_cleaned fresh 3 100 true fresh_lem

remove_cases_example :
    (removed : Bool) × (t' : Table) × (cleaned : List ℕ) × (remove fresh 3
      ≡ some (removed, t', cleaned))
    × IsTable t'
    × (find t' 10 ≡ (if 10 == 3 then some 0 else find fresh 10))
    × (((removed ≡ true)
          × ((j : ℕ) × Holds fresh 3 j
              × (cleaned ≡ (if fresh.has_cleanup then value_at fresh j ∷ [] else []))))
        ⊎ ((removed ≡ false) × (t' ≡ fresh) × (cleaned ≡ []) × (find fresh 3 ≡ some 0)))
remove_cases_example = remove_cases fresh 3 10 fresh_lem

buffer_size-pick_size_example :
    (s : ℕ) × (buffer_size 100 true 30 ≡ s * item_size true)
    × (pick_size ihash_sizes (buffer_size 100 true 30 / item_size true) none ≡ some s)
    × (100 * 100 / load_factor 30 ≤ s)
unfolding load_factor
buffer_size-pick_size_example = buffer_size-pick_size 100 30 true (omega arith) (omega arith)
