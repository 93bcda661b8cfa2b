-- ===== src/Ihash/Replace.antt =====
-- replace_one and hurd_ihash_replace: the new item is found, and every other item still is.
use viengoos.Common.{
  ℕ, ◌≡◌, ◌≢◌, ◌⊎◌, inl, inr, refl, sym, ap, subst, subst₂, ◌∙◌, arith, Bool, true, false, ◌&&◌,
  none, some, List, [], ◌∷◌, ◌==◌, if◌then◌else◌, Bool-cases, ℕ_discrete,
}
use viengoos.Ihash.Find.{
  route, route_lem, IsTable, Holds, find_none, present, valid-Holds, index_of-Holds, Holds-valid,
}
use viengoos.Ihash.Probe.{Reaches, Reaches-All}
use viengoos.Ihash.Remove.{
  locp_remove-IsTable, Holds-back, Holds-unique, stops-locp_remove, size-locp_remove,
  large-locp_remove, find-locp_remove, index_empty-locp_remove_self, index_empty-locp_remove_ne,
}
use viengoos.Ihash.Seek.{Sought, seek_total, chosen-Reaches, deleted-free, AllTaken}
use viengoos.Ihash.Write.{write-IsTable, find-write}
use viengoos.Ihash.{
  Table, value_at, empty, deleted, index_empty, index_valid, evict, choose, place, stops,
  locp_remove, find, stored_key, put, Added, replace_one, Error, success, enomem, replace,
}

-- What an attempt leaves: the item under its key and all others as before, or the table as it was.
abbrev pub Outcome : Table → ℕ → ℕ → ℕ → Table → Bool → Type 0
Outcome t key value k table added =
    ((added ≡ true) × IsTable table × (find table k ≡ (if k == key then some value else find t k)))
    ⊎ ((added ≡ false) × (table ≡ t) × (find t key ≡ some 0) × AllTaken t (route t.size key))

module _ (t : Table) (key value : ℕ) (wants_old : Bool) (k : ℕ) (w : IsTable t)
    (fits : stored_key t key ≡ key) (real : value ≢ empty) (real' : value ≢ deleted) (idx free : ℕ)
    (sought : Sought t key idx free) where
  -- A slot that is free after the old item, if any, is gone.
  placed :
      (t₁ : Table)
      → IsTable t₁
      → t₁.size ≡ t.size
      → stored_key t₁ key ≡ key
      → stops t₁ key ≡ stops t key
      → (value_at t free ≡ deleted → index_empty t₁ free ≡ true)
      → ((j : ℕ) → ¬ Holds t₁ key j)
      → index_empty t₁ (choose t₁ idx free) ≡ true
      → ((place t₁ (choose t₁ idx free) key value).1 ≡ true)
        × IsTable (place t₁ (choose t₁ idx free) key value).0
        × (find (place t₁ (choose t₁ idx free) key value).0 k
            ≡ (if k == key then some value else find t₁ k))
  unfolding choose place
  placed t₁ w₁ size fits₁ same gone absent open_ =
      let f = if index_empty t₁ free then free else idx in
      let before = chosen-Reaches t key idx free (index_empty t₁) w.shaped sought gone open_ in
      let reached : Reaches (stops t₁ key) f (route t₁.size key) =
        subst₂ (λ p n. Reaches p f (route n key)) (sym same) (sym size) before in
      let (_, _, _, all) = route_lem t₁.size key w₁.shaped in
      let inside = Reaches-All (stops t₁ key) f t₁.size (route t₁.size key) all reached in
      rw open_ (
        refl,
        write-IsTable t₁ f key value w₁ open_ inside reached fits₁ real real' absent,
        find-write t₁ f key value w₁ open_ inside reached fits₁ real real' absent k,
      )

  abbrev a : Added
  a = put t key value wants_old idx free

  put-evict :
      (e : Table × List ℕ)
      → evict t key wants_old idx ≡ e
      → (let p = place e.0 (choose e.0 idx free) key value in Outcome t key value k p.0 p.1)
      → Outcome t key value k a.table a.added
  unfolding put
  put-evict e eq o =
      subst
        (λ (x : Table × List ℕ).
          let p = place x.0 (choose x.0 idx free) key value in Outcome t key value k p.0 p.1)
        (sym eq) o

  -- There is an item with the key: it is removed first, so that there is a free slot.
  put_present : Holds t key idx → Outcome t key value k a.table a.added
  unfolding evict stored_key choose
  put_present h =
      let t₁ = (locp_remove t idx wants_old).0 in
      let self = index_empty-locp_remove_self t idx wants_old h.live in
      let (done, w', found) =
        placed t₁ (locp_remove-IsTable t idx wants_old h.live w)
          (size-locp_remove t idx wants_old h.live) stored
          (stops-locp_remove t idx wants_old h.live key) gone
          (λ j g. let (g', ne) = Holds-back t idx wants_old h.live g in ne (Holds-unique w g' h))
          (open_ self) in
      put-evict (locp_remove t idx wants_old) evicted
        (inl (done, w', found ∙ ground (arith, find-locp_remove t key idx wants_old w h k)))
    where
      evicted : evict t key wants_old idx ≡ locp_remove t idx wants_old
      evicted = ground (arith, Holds-valid t key idx h)

      stored : stored_key (locp_remove t idx wants_old).0 key ≡ key
      stored = ground (arith, large-locp_remove t idx wants_old h.live, fits)

      gone : value_at t free ≡ deleted → index_empty (locp_remove t idx wants_old).0 free ≡ true
      gone d = elim (ℕ_discrete idx free) [
        | yes here ↦
            ap (index_empty (locp_remove t idx wants_old).0) (sym here)
            ∙ index_empty-locp_remove_self t idx wants_old h.live
        | no other ↦
            index_empty-locp_remove_ne t idx wants_old h.live free other ∙ deleted-free t free d
      ]

      open_ :
          index_empty (locp_remove t idx wants_old).0 idx ≡ true
          → index_empty
              (locp_remove t idx wants_old).0
              (choose (locp_remove t idx wants_old).0 idx free)
            ≡ true
      open_ self = elim (Bool-cases (index_empty (locp_remove t idx wants_old).0 free)) [
        | inl y ↦ rw y y
        | inr n ↦ rw n self
      ]

  put_absent : ((j : ℕ) → ¬ Holds t key j) → Outcome t key value k a.table a.added
  unfolding evict place choose
  put_absent none_ =
      put-evict (t, []) evicted
        (elim (Bool-cases (index_empty t (choose t idx free))) [
          | inl y ↦ inl (placed t w refl fits refl (deleted-free t free) none_ y)
          | inr n ↦
              let (at_free, at_idx) = choose-taken n in
              inr (
                ground (arith, n),
                ground (arith, n),
                find_none t key w none_,
                sought.full none_ at_free at_idx,
              )
        ])
    where
      choose-taken :
          index_empty t (choose t idx free) ≡ false
          → (index_empty t free ≡ false) × (index_empty t idx ≡ false)
      choose-taken n = ground (arith, n)

      evicted : evict t key wants_old idx ≡ (t, [])
      evicted = elim (Bool-cases (index_valid t idx key)) [
        | inl y ↦ absurd (none_ idx (valid-Holds t key idx y))
        | inr n ↦ rw n
      ]

  put_cases : Outcome t key value k a.table a.added
  put_cases = elim (present t key w) [
    | inl (j, h) ↦
        put_present (subst (Holds t key) (sym (sought.at ∙ index_of-Holds t key j w h)) h)
    | inr none_ ↦ put_absent none_
  ]

-- What an attempt leaves, whichever slot it chooses.
pub replace_one_cases :
    (t : Table) (key value : ℕ) (wants_old : Bool) (k : ℕ)
    → IsTable t
    → stored_key t key ≡ key
    → value ≢ empty
    → value ≢ deleted
    → (a : Added) × (replace_one t key value wants_old ≡ some a)
      × Outcome t key value k a.table a.added
unfolding replace_one
replace_one_cases t key value wants_old k w fits real real' =
    let (idx, free, e, sought) = seek_total t key w.shaped in
    (
      put t key value wants_old idx free,
      rw e,
      put_cases t key value wants_old k w fits real real' idx free sought,
    )

-- In a well-formed table, for a value that is not reserved and a key for which an item has room,
-- hurd_ihash_replace (without malloc) ends. Either it succeeds, the table is well-formed,
-- hurd_ihash_find gives the value under the key and under every other key what it gave before;
-- or it returns ENOMEM, the table is unchanged, the key is not in it, and every slot on the way
-- of the search for the key is taken.
pub replace_cases :
    (t : Table) (key value : ℕ) (wants_old : Bool) (k : ℕ)
    → IsTable t
    → stored_key t key ≡ key
    → value ≢ empty
    → value ≢ deleted
    → (e : Error) × (a : Added) × (replace t key value wants_old ≡ some (e, a))
      × (((e ≡ success)
            × IsTable a.table
            × (find a.table k ≡ (if k == key then some value else find t k)))
          ⊎ ((e ≡ enomem) × (a.table ≡ t) × (find t key ≡ some 0) × AllTaken t (route t.size key)))
unfolding replace
replace_cases t key value wants_old k w fits real real' =
    let (a, ran, o) = replace_one_cases t key value wants_old k w fits real real' in
    elim o [
      | inl (done, w', found) ↦
          (success, a, ground (arith, ran, w.shaped.odd), inl (refl, w', found))
      | inr (failed, same, missing, taken) ↦
          (enomem, a, ground (arith, ran, w.shaped.odd), inr (refl, same, missing, taken))
    ]

-- The old item, where it goes, and the calls of the cleanup function.
abbrev pub OldItem : Table → ℕ → Bool → Added → Type 0
OldItem t key wants_old a =
    ((j : ℕ) × Holds t key j
      × (a.had_value ≡ true)
      × (a.old_value ≡ (if wants_old then some (value_at t j) else none))
      × (a.cleaned ≡ (if wants_old && t.has_cleanup then value_at t j ∷ [] else [])))
    ⊎ ((find t key ≡ some 0) × (a.had_value ≡ false) × (a.old_value ≡ none) × (a.cleaned ≡ []))

-- On a well-formed table replace_one ends. If a slot holds the key, *had_value is true,
-- *old_value is its value where that is asked for, and the cleanup function, if any, is called
-- for the value exactly if old_value is not NULL; otherwise *had_value is false and nothing is
-- stored or cleaned up.
pub replace_one_cleaned :
    (t : Table) (key value : ℕ) (wants_old : Bool)
    → IsTable t
    → (a : Added) × (replace_one t key value wants_old ≡ some a) × OldItem t key wants_old a
unfolding replace_one put evict locp_remove
replace_one_cleaned t key value wants_old w =
    let (idx, free, e, sought) = seek_total t key w.shaped in
    (
      put t key value wants_old idx free,
      rw e,
      elim (present t key w) [
        | inl (j, h) ↦
            let at : idx ≡ j = sought.at ∙ index_of-Holds t key j w h in
            let valid : index_valid t idx key ≡ true =
              ap (λ x. index_valid t x key) at ∙ Holds-valid t key j h in
            let value : value_at t idx ≡ value_at t j = ap (value_at t) at in
            inl (j, h, valid, ground (arith, valid, value), ground (arith, valid, value))
        | inr none_ ↦ elim (Bool-cases (index_valid t idx key)) [
          | inl y ↦ absurd (none_ idx (valid-Holds t key idx y))
          | inr n ↦ inr (find_none t key w none_, n, ground (arith, n), ground (arith, n))
        ]
      ],
    )
