-- ===== src/Ihash/Remove.antt =====
-- Removing an item leaves every other item where a search finds it.
use viengoos.Common.{
  ℕ, zero, suc, ◌<◌, ◌||◌, ◌≡◌, ◌≢◌, ◌⊎◌, inl, inr, refl, sym, ap, ◌∙◌, fun_ext, arith, Bool, true,
  false, some, List, [], ◌∷◌, length, get_or, ◌==◌, if◌then◌else◌, Bool-cases, length-set,
  get_or-set_self, get_or-set_ne, ℕ_discrete,
}
use viengoos.Ihash.Find.{
  route, IsTable, Holds, index_of, find_index-first, find-Holds, find_none, present, valid-Holds,
  index_of-Holds, Holds-valid,
}
use viengoos.Ihash.Probe.{first}
use viengoos.Ihash.{
  Table, Item, item_at, value_at, key_at, empty, deleted, index_empty, index_valid, stops,
  locp_remove, find, remove,
}

live-lt-length : (t : Table) (j : ℕ) → index_empty t j ≡ false → j < length t.items
unfolding index_empty item_at
live-lt-length t j e = go t.items j e
  where
    go :
        (xs : List Item) (j : ℕ)
        → (let v = (get_or xs j (record { value = empty; key = 0 })).value in
            v == empty || v == deleted)
          ≡ false
        → j < length xs
    go [] j e = cc
    go (x ∷ xs) zero e = omega arith
    go (x ∷ xs) (suc j) e = omega (arith, go xs j e)

module _ (t : Table) (idx : ℕ) (cleanup : Bool) (live : index_empty t idx ≡ false) where
  abbrev t₁ : Table
  t₁ = (locp_remove t idx cleanup).0

  pub item-locp_remove_self : item_at t₁ idx ≡ record { value = deleted; key = key_at t idx }
  unfolding item_at locp_remove
  item-locp_remove_self = get_or-set_self t.items idx _ _ (live-lt-length t idx live)

  pub item-locp_remove_ne : (j : ℕ) → idx ≢ j → item_at t₁ j ≡ item_at t j
  unfolding item_at locp_remove
  item-locp_remove_ne j ne = get_or-set_ne t.items _ _ ne

  pub stops-locp_remove : (k : ℕ) → stops t₁ k ≡ stops t k
  unfolding stops index_empty
  stops-locp_remove k = fun_ext λ x. elim (ℕ_discrete idx x) [
    | yes here ↦
        ap (λ y. stops t₁ k y) (sym here)
        ∙ ground (arith, item-locp_remove_self, live)
        ∙ ap (λ y. stops t k y) here
    | no other ↦ ground (arith, item-locp_remove_ne x other)
  ]

  pub size-locp_remove : t₁.size ≡ t.size
  unfolding locp_remove
  size-locp_remove = refl

  pub large-locp_remove : t₁.large ≡ t.large
  unfolding locp_remove
  large-locp_remove = refl

  pub index_empty-locp_remove_self : index_empty t₁ idx ≡ true
  unfolding index_empty
  index_empty-locp_remove_self = ground (arith, item-locp_remove_self)

  pub index_empty-locp_remove_ne : (j : ℕ) → idx ≢ j → index_empty t₁ j ≡ index_empty t j
  unfolding index_empty
  index_empty-locp_remove_ne j ne = ground (arith, item-locp_remove_ne j ne)

  key-locp_remove : (j : ℕ) → key_at t₁ j ≡ key_at t j
  key-locp_remove j = elim (ℕ_discrete idx j) [
    | yes here ↦ ground (arith, item-locp_remove_self, here)
    | no other ↦ ground (arith, item-locp_remove_ne j other)
  ]

  -- The items are those that were there, less the one that is removed.
  pub Holds-back : {k j : ℕ} → Holds t₁ k j → Holds t k j × (j ≢ idx)
  Holds-back {k} {j} h = elim (ℕ_discrete idx j) [
    | yes here ↦
        let gone : index_empty t₁ j ≡ true = rw (← here) index_empty-locp_remove_self in
        let live_ = h.live in cc
    | no other ↦ (
      record {
        live = sym (index_empty-locp_remove_ne j other) ∙ h.live;
        named = sym (key-locp_remove j) ∙ h.named;
      },
      λ e. other (sym e),
    )
  ]

  pub Holds-locp_remove : {k j : ℕ} → Holds t k j → j ≢ idx → Holds t₁ k j
  Holds-locp_remove {k} {j} h ne = record {
    live = index_empty-locp_remove_ne j (λ e. ne (sym e)) ∙ h.live;
    named = key-locp_remove j ∙ h.named;
  }

  pub locp_remove-IsTable : IsTable t → IsTable t₁
  unfolding locp_remove
  locp_remove-IsTable w = record {
    shaped = w.shaped;
    long = rw (length-set t.items idx) w.long;
    placed = λ j e.
        let (h, _) = Holds-back (record { live = e; named = refl }) in
        let key = key-locp_remove j in
        let found : first (stops t (key_at t j)) (route t.size (key_at t j)) ≡ some j =
          w.placed j h.live in
        let here : first (stops t (key_at t₁ j)) (route t.size (key_at t₁ j)) ≡ some j =
          ap (λ k. first (stops t k) (route t.size k)) key ∙ found in
        ap (λ p. first p (route t.size (key_at t₁ j))) (stops-locp_remove (key_at t₁ j)) ∙ here;
  }

pub Holds-unique : {t : Table} {k i j : ℕ} → IsTable t → Holds t k i → Holds t k j → i ≡ j
Holds-unique {t} {k} {i} {j} w h g = sym (index_of-Holds t k i w h) ∙ index_of-Holds t k j w g

remove-present :
    (t : Table) (key j : ℕ)
    → IsTable t
    → Holds t key j
    → remove t key ≡ some (true, (locp_remove t j true).0, (locp_remove t j true).1)
unfolding remove
remove-present t key j w h = ground (
  arith,
  find_index-first t key w.shaped,
  index_of-Holds t key j w h,
  Holds-valid t key j h,
  w.shaped.odd,
)

remove-absent :
    (t : Table) (key : ℕ)
    → IsTable t
    → ((j : ℕ) → ¬ Holds t key j)
    → remove t key ≡ some (false, t, [])
unfolding remove
remove-absent t key w none_ = elim (Bool-cases (index_valid t (index_of t key) key)) [
  | inl y ↦ absurd (none_ (index_of t key) (valid-Holds t key (index_of t key) y))
  | inr n ↦ ground (arith, find_index-first t key w.shaped, w.shaped.odd)
]

pub find-locp_remove :
    (t : Table) (key j : ℕ) (cleanup : Bool)
    → IsTable t
    → Holds t key j
    → (k : ℕ) → find (locp_remove t j cleanup).0 k ≡ (if k == key then some 0 else find t k)
find-locp_remove t key j cleanup w h k =
    let w₁ = locp_remove-IsTable t j cleanup h.live w in
    elim (ℕ_discrete k key) [
      | yes same ↦
          find_none _ k w₁ (λ i g.
            let (g', ne) = Holds-back t j cleanup h.live g in ne (Holds-unique w g' (rw same h)))
          ∙ ground arith
      | no other ↦ elim (present t k w) [
        | inl (i, g) ↦
            let ne : i ≢ j = λ e. other (sym g.named ∙ ap (key_at t) e ∙ h.named) in
            let kept = Holds-locp_remove t j cleanup h.live g ne in
            find-Holds _ k i w₁ kept
            ∙ ap (λ (x : Item). some x.value)
                (item-locp_remove_ne t j cleanup h.live i (λ e. ne (sym e)))
            ∙ sym (find-Holds t k i w g)
            ∙ ground arith
        | inr none_ ↦
            find_none _ k w₁ (λ i g. none_ i (Holds-back t j cleanup h.live g).0)
            ∙ sym (find_none t k w none_)
            ∙ ground arith
      ]
    ]

-- hurd_ihash_remove ends on a well-formed table and leaves one in which the key is not found and
-- every other key is found as before. Either it returns 1, an item had the key, and the cleanup
-- function, if any, is called for its value alone; or it returns 0, and the table is unchanged
-- and did not have the key.
pub remove_cases :
    (t : Table) (key k : ℕ)
    → IsTable t
    → (removed : Bool) × (t' : Table) × (cleaned : List ℕ) × (remove t key
        ≡ some (removed, t', cleaned))
      × IsTable t'
      × (find t' k ≡ (if k == key then some 0 else find t k))
      × (((removed ≡ true)
            × ((j : ℕ) × Holds t key j
                × (cleaned ≡ (if t.has_cleanup then value_at t j ∷ [] else []))))
          ⊎ ((removed ≡ false) × (t' ≡ t) × (cleaned ≡ []) × (find t key ≡ some 0)))
remove_cases t key k w = elim (present t key w) [
  | inl (j, h) ↦ (
    true,
    (locp_remove t j true).0,
    (locp_remove t j true).1,
    remove-present t key j w h,
    locp_remove-IsTable t j true h.live w,
    find-locp_remove t key j true w h k,
    inl (refl, (j, h, calls j)),
  )
  | inr none_ ↦ (
    false,
    t,
    [],
    remove-absent t key w none_,
    w,
    absent k none_,
    inr (refl, refl, refl, find_none t key w none_),
  )
]
  where
    calls : (j : ℕ) → (locp_remove t j true).1 ≡ (if t.has_cleanup then value_at t j ∷ [] else [])
    calls j = unfold locp_remove in refl

    absent :
        (k : ℕ) → ((j : ℕ) → ¬ Holds t key j) → find t k ≡ (if k == key then some 0 else find t k)
    absent k none_ = elim (ℕ_discrete k key) [
      | yes same ↦ ap (find t) same ∙ find_none t key w none_ ∙ ground arith
      | no other ↦ ground arith
    ]
