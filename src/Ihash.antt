-- ===== src/Ihash.antt =====
-- libhurd-ihash/ihash.c as the kernel compiles it (NO_MALLOC): an open hash table in a buffer of the
-- caller, with a quadratic probe in both directions.
pub mod Sizes
pub mod Init
pub mod Buffer
pub mod Probe
pub mod Find
pub mod Replace
pub mod Remove
pub mod Write
pub mod Seek
mod Tests
use viengoos.Common.{
  ℕ, zero, suc, ◌+◌, ◌-◌, ◌*◌, ◌%◌, ◌^◌, Bool, true, false, not, ◌&&◌, ◌||◌, Option, none, some,
  List, [], ◌∷◌, get_or, set, ltb, ◌==◌, if◌then◌else◌, ◌>>=◌,
}

-- struct _hurd_ihash_item and struct _hurd_ihash_item64
pub record Item : Type 0 where
  pub value : ℕ
  pub key : ℕ

-- _HURD_IHASH_EMPTY and _HURD_IHASH_DELETED, pointers of 32 bits
abbrev pub empty : ℕ
empty = 0

abbrev pub deleted : ℕ
deleted = 2 ^ 32 - 1

-- struct hurd_ihash, with a word size of 32: `has_locp` says that there is a location pointer, and
-- `has_cleanup` that there is a cleanup function.
pub record Table : Type 0 where
  pub nr_items : ℕ
  pub large : Bool
  pub items : List Item
  pub size : ℕ
  pub has_locp : Bool
  pub max_load : ℕ
  pub has_cleanup : Bool

-- HURD_IHASH_MAX_LOAD_DEFAULT
abbrev pub max_load_default : ℕ
max_load_default = 80

-- ITEM
unfoldable pub item_at : Table → ℕ → Item
item_at t idx = get_or t.items idx (record { value = empty; key = 0 })

-- VALUE
abbrev pub value_at : Table → ℕ → ℕ
value_at t idx = (item_at t idx).value

-- KEY
abbrev pub key_at : Table → ℕ → ℕ
key_at t idx = (item_at t idx).key

-- index_empty
unfoldable pub index_empty : Table → ℕ → Bool
index_empty t idx = value_at t idx == empty || value_at t idx == deleted

-- index_valid
unfoldable pub index_valid : Table → ℕ → ℕ → Bool
index_valid t idx key = not (index_empty t idx) && key_at t idx == key

-- The test by which both searches stop at a slot.
unfoldable pub stops : Table → ℕ → ℕ → Bool
stops t key idx = value_at t idx == empty || key_at t idx == key

-- `up_idx = (up_idx + i) % ht->size`
unfoldable pub next_up : ℕ → ℕ → ℕ → ℕ
next_up size up i = (up + i) % 2 ^ 32 % size

-- `if (down_idx < i) down_idx += ht->size; down_idx = (down_idx - i) % ht->size`
unfoldable pub next_down : ℕ → ℕ → ℕ → ℕ
next_down size down i =
    let d = if ltb down i then (down + size) % 2 ^ 32 else down in (d + 2 ^ 32 - i) % 2 ^ 32 % size

-- `i = (i + 2) % ht->size`
unfoldable pub next_step : ℕ → ℕ → ℕ
next_step size i = (i + 2) % 2 ^ 32 % size

-- The loop of find_index; `none` means that the fuel ran out.
unfoldable pub find_loop : ℕ → Table → ℕ → ℕ → ℕ → ℕ → ℕ → Option ℕ
find_loop zero t key idx up down i = none
find_loop (suc fuel) t key idx up down i =
    let up' = next_up t.size up i in
    let down' = next_down t.size down i in
    let i' = next_step t.size i in
    let rest = find_loop fuel t key idx up' down' i' in
    if stops t key up'
    then some up'
    else if stops t key down'
    then some down'
    else if i' == 0
    then some idx
    else rest

-- find_index
unfoldable pub find_index : Table → ℕ → Option ℕ
find_index t key =
    let idx = key % t.size in
    let rest = find_loop t.size t key idx idx idx 1 in if stops t key idx then some idx else rest

-- locp_remove, of the location pointer to a slot, with the values for which the cleanup function is
-- called
unfoldable pub locp_remove : Table → ℕ → Bool → Table × List ℕ
locp_remove t idx cleanup = (
  record t {
    items = set t.items idx (record { value = deleted; key = key_at t idx });
    nr_items = (t.nr_items + 2 ^ 32 - 1) % 2 ^ 32;
  },
  if cleanup && t.has_cleanup then value_at t idx ∷ [] else [],
)

-- `if (first_free == idx && VALUE (ht, slot) == _HURD_IHASH_DELETED) first_free = slot`
unfoldable pub remember : Table → ℕ → ℕ → ℕ → ℕ
remember t idx slot first_free =
    if first_free == idx && value_at t slot == deleted then slot else first_free

-- The loop of replace_one: the slot where the search ends, and `first_free`.
unfoldable pub seek_loop : ℕ → Table → ℕ → ℕ → ℕ → ℕ → ℕ → ℕ → Option (ℕ × ℕ)
seek_loop zero t key idx first_free up down i = none
seek_loop (suc fuel) t key idx first_free up down i =
    let up' = next_up t.size up i in
    let free_up = remember t idx up' first_free in
    let down' = next_down t.size down i % t.size in
    let free_down = remember t idx down' free_up in
    let i' = next_step t.size i in
    let rest = seek_loop fuel t key idx free_down up' down' i' in
    if stops t key up'
    then some (up', first_free)
    else if stops t key down'
    then some (down', free_up)
    else if i' == 0
    then some (idx, free_down)
    else rest

unfoldable pub seek : Table → ℕ → Option (ℕ × ℕ)
seek t key =
    let idx = key % t.size in
    let rest = seek_loop t.size t key idx idx idx idx 1 in
    if stops t key idx then some (idx, idx) else rest

-- What replace_one leaves: the table, the number that it returns, `*had_value`, `*old_value` where
-- it is asked for, the values for which the cleanup function was called, and the slot of which the
-- address is stored in the new value.
pub record Added : Type 0 where
  pub table : Table
  pub added : Bool
  pub had_value : Bool
  pub old_value : Option ℕ
  pub cleaned : List ℕ
  pub located : Option ℕ

-- the key as the item has room for it
unfoldable pub stored_key : Table → ℕ → ℕ
stored_key t key = if t.large then key else key % 2 ^ 32

-- the assignments of a new item
unfoldable pub write : Table → ℕ → ℕ → ℕ → Table
unfolding stored_key
write t idx key value = record t {
  nr_items = (t.nr_items + 1) % 2 ^ 32;
  items = set t.items idx (record { value = value; key = stored_key t key });
}

-- The old entry for the key is removed.
unfoldable pub evict : Table → ℕ → Bool → ℕ → Table × List ℕ
evict t key wants_old idx = if index_valid t idx key then locp_remove t idx wants_old else (t, [])

-- `if (!index_empty (ht, first_free)) first_free = idx`
unfoldable pub choose : Table → ℕ → ℕ → ℕ
choose t idx first_free = if index_empty t first_free then first_free else idx

-- The new item is written if the slot is free.
unfoldable pub place : Table → ℕ → ℕ → ℕ → Table × Bool
place t free key value = if index_empty t free then (write t free key value, true) else (t, false)

-- What follows the search of replace_one; `wants_old` says that `old_value` is not NULL.
unfoldable pub put : Table → ℕ → ℕ → Bool → ℕ → ℕ → Added
put t key value wants_old idx first_free =
    let (t', cleaned) = evict t key wants_old idx in
    let free = choose t' idx first_free in
    let (t'', added) = place t' free key value in
    record {
      table = t'';
      added = added;
      had_value = index_valid t idx key;
      old_value = if index_valid t idx key && wants_old then some (value_at t idx) else none;
      cleaned = cleaned;
      located = if added && t.has_locp then some free else none;
    }

-- replace_one
unfoldable pub replace_one : Table → ℕ → ℕ → Bool → Option Added
replace_one t key value wants_old =
    seek t key >>= λ (idx, first_free). some (put t key value wants_old idx first_free)

-- error_t
pub data Error : Type 0 where
  success enomem : Error

-- hurd_ihash_replace without malloc
unfoldable pub replace : Table → ℕ → ℕ → Bool → Option (Error × Added)
replace t key value wants_old =
    let nothing : Added = record {
      table = t;
      added = false;
      had_value = false;
      old_value = none;
      cleaned = [];
      located = none;
    } in
    let attempt =
      replace_one t key value wants_old >>= λ a. some (if a.added then success else enomem, a) in
    if t.size == 0 then some (enomem, nothing) else attempt

-- hurd_ihash_find; NULL is 0.
unfoldable pub find : Table → ℕ → Option ℕ
find t key =
    let rest =
      find_index t key >>= λ idx. some (if index_valid t idx key then value_at t idx else 0) in
    if t.size == 0 then some 0 else rest

-- hurd_ihash_remove: the number that it returns, the table and the values cleaned up.
unfoldable pub remove : Table → ℕ → Option (Bool × Table × List ℕ)
remove t key =
    let rest = find_index t key >>= λ idx.
    let (t', cleaned) = locp_remove t idx true in
    some (if index_valid t idx key then (true, t', cleaned) else (false, t, [])) in
    if t.size == 0 then some (false, t, []) else rest
