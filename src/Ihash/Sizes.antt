-- ===== src/Ihash/Sizes.antt =====
-- The sizes of hash tables: hurd_ihash_init_with_buffer, hurd_ihash_buffer_size and the setters of
-- libhurd-ihash/ihash.c, with a word size of 32.
use viengoos.Common.{
  ℕ, ◌*◌, ◌/◌, ◌%◌, ◌^◌, ◌-◌, Bool, false, Option, none, some, List, [], ◌∷◌, ltb, leb, ◌==◌,
  if◌then◌else◌, ◌>>=◌,
}
use viengoos.Ihash.{Table, Item, max_load_default}

-- ihash_sizes
abbrev pub ihash_sizes : List ℕ
ihash_sizes =
    3 ∷ 7 ∷ 19 ∷ 43 ∷ 103 ∷ 211 ∷ 431 ∷ 863 ∷ 1747 ∷ 3499 ∷ 7019 ∷ 14051 ∷ 28111 ∷ 56239 ∷ 112507
    ∷ 225023 ∷ 450067 ∷ 900139 ∷ 1800311 ∷ 3600659 ∷ 7201351 ∷ 14402743 ∷ 28805519 ∷ 57611039
    ∷ 115222091 ∷ 230444239 ∷ 460888499 ∷ 921777067 ∷ 1843554151 ∷ 3687108307 ∷ 7374216631
    ∷ 14748433279 ∷ 29496866579 ∷ 58993733159 ∷ 117987466379 ∷ 235974932759 ∷ 471949865531
    ∷ 943899731087 ∷ []

-- ITEM_SIZE: a pointer and a key of 32 or 64 bits
unfoldable pub item_size : Bool → ℕ
item_size large = if large then 12 else 8

-- hurd_ihash_init_internal; the size is 0, and there are no items yet.
unfoldable pub init_internal : Bool → Bool → Table
init_internal large has_locp = record {
  nr_items = 0;
  large = large;
  items = [];
  size = 0;
  has_locp = has_locp;
  max_load = max_load_default;
  has_cleanup = false;
}

-- The loop of hurd_ihash_init_with_buffer and what it picks, `ihash_sizes[i - 1]`: the size before
-- the first that is too large. `none` is a read before the array.
unfoldable pub pick_size : List ℕ → ℕ → Option ℕ → Option ℕ
pick_size [] max_size before = before
pick_size (s ∷ ss) max_size before =
    let rest = pick_size ss max_size (some s) in if ltb max_size s then before else rest

-- hurd_ihash_init_with_buffer, with the items that stand in the buffer and its size in bytes
unfoldable pub init_with_buffer : Bool → Bool → List Item → ℕ → Option Table
init_with_buffer large has_locp buffer size =
    pick_size ihash_sizes (size / item_size large) none >>= λ s.
    some (record (init_internal large has_locp) { items = buffer; size = s })

-- hurd_ihash_set_cleanup
unfoldable pub set_cleanup : Table → Bool → Table
set_cleanup t has_cleanup = record t { has_cleanup = has_cleanup }

-- hurd_ihash_set_max_load
unfoldable pub set_max_load : Table → ℕ → Table
set_max_load t max_load = record t { max_load = max_load }

-- The first size that is large enough.
unfoldable pub fitting_size : List ℕ → ℕ → Option ℕ
fitting_size [] count = none
fitting_size (s ∷ ss) count =
    let rest = fitting_size ss count in if leb count s then some s else rest

-- The load factor of hurd_ihash_buffer_size, an int that is not negative
unfoldable pub load_factor : ℕ → ℕ
load_factor max_load =
    let load = if max_load == 0 then max_load_default else max_load in
    if ltb 100 load then 100 else load

-- hurd_ihash_buffer_size
unfoldable pub buffer_size : ℕ → Bool → ℕ → ℕ
unfolding load_factor
buffer_size count large max_load =
    let wanted = count * 100 % 2 ^ 32 / load_factor max_load in
    elim (fitting_size ihash_sizes wanted) [
      | none ↦ 2 ^ 32 - 1
      | some s ↦ s * item_size large % 2 ^ 32
    ]
