-- ===== src/Ihash/Write.antt =====
-- An item written to a free slot that the search for its key reaches.
use viengoos.Common.{
  ℕ, ◌<◌, ◌≡◌, ◌≢◌, ◌⊎◌, inl, inr, refl, sym, ap, ◌∙◌, arith, true, false, some, ◌==◌,
  if◌then◌else◌, length-set, get_or-set_self, get_or-set_ne, ℕ_discrete,
}
use viengoos.Ihash.Find.{route, IsTable, IsFound, Holds, find-Holds, find_none, present}
use viengoos.Ihash.Probe.{first, first_kept, first_there, Reaches}
use viengoos.Ihash.{
  Table, Item, item_at, key_at, empty, deleted, index_empty, stops, find, stored_key, write,
}

module _ (t : Table) (f key value : ℕ) (w : IsTable t) (free : index_empty t f ≡ true)
    (inside : f < t.size) (reached : Reaches (stops t key) f (route t.size key))
    (fits : stored_key t key ≡ key) (real : value ≢ empty) (real' : value ≢ deleted)
    (absent : (j : ℕ) → ¬ Holds t key j) where
  abbrev t' : Table
  t' = write t f key value

  item-write_self : item_at t' f ≡ record { value = value; key = key }
  unfolding item_at write
  item-write_self =
      get_or-set_self t.items f _ _ (omega (arith, w.long, inside))
      ∙ ap (λ k. record { value = value; key = k }) fits

  pub item-write_ne : (j : ℕ) → f ≢ j → item_at t' j ≡ item_at t j
  unfolding item_at write
  item-write_ne j ne = get_or-set_ne t.items _ _ ne

  stops-write_ne : (k x : ℕ) → x ≢ f → stops t' k x ≡ stops t k x
  unfolding stops
  stops-write_ne k x ne = ground (arith, item-write_ne x (λ e. ne (sym e)))

  stops-write_self : (k : ℕ) → stops t' k f ≡ (key == k)
  unfolding stops
  stops-write_self k = ground (arith, item-write_self)

  pub Holds-write_self : Holds t' key f
  unfolding index_empty
  Holds-write_self = record {
    live = ground (arith, item-write_self);
    named = ground (arith, item-write_self);
  }

  apart : {k j : ℕ} → Holds t k j → f ≢ j
  apart h e = let live = h.live in let gone = ap (index_empty t) e ∙ live in cc

  index_empty-write_ne : (j : ℕ) → f ≢ j → index_empty t' j ≡ index_empty t j
  unfolding index_empty
  index_empty-write_ne j ne = ground (arith, item-write_ne j ne)

  pub Holds-write_ne : {k j : ℕ} → Holds t k j → Holds t' k j
  Holds-write_ne {k} {j} h =
      let ne = apart h in
      record {
        live = index_empty-write_ne j ne ∙ h.live;
        named = ap (λ (x : Item). x.key) (item-write_ne j ne) ∙ h.named;
      }

  pub Holds-write-back : {k j : ℕ} → Holds t' k j → ((j ≡ f) × (k ≡ key)) ⊎ ((f ≢ j) × Holds t k j)
  Holds-write-back {k} {j} h = elim (ℕ_discrete f j) [
    | yes here ↦ inl (
      sym here,
      sym h.named ∙ ap (key_at t') (sym here) ∙ ap (λ (x : Item). x.key) item-write_self,
    )
    | no other ↦ inr (
      other,
      record {
        live = sym (index_empty-write_ne j other) ∙ h.live;
        named = ap (λ (x : Item). x.key) (sym (item-write_ne j other)) ∙ h.named;
      },
    )
  ]

  found_new : first (stops t' key) (route t.size key) ≡ some f
  found_new =
      first_there (stops t key) (stops t' key) f (route t.size key) (stops-write_ne key)
        (stops-write_self key ∙ ground arith) reached

  found_old : {k j : ℕ} → Holds t k j → first (stops t' k) (route t.size k) ≡ some j
  found_old {k} {j} h =
      let other : key ≢ k = λ e. absent j (rw e h) in
      let before : first (stops t k) (route t.size k) ≡ some j =
        ap (λ x. first (stops t x) (route t.size x)) (sym h.named) ∙ w.placed j h.live in
      first_kept (stops t k) (stops t' k) f (route t.size k) (stops-write_ne k)
        (stops-write_self k ∙ ground arith) (λ e. apart h (sym e)) before

  found : (j : ℕ) → index_empty t' j ≡ false → IsFound t' j
  unfolding write
  found j e = elim (Holds-write-back (record { live = e; named = refl })) [
    | inl (here, same) ↦
        ap (λ k. first (stops t' k) (route t.size k)) same ∙ found_new ∙ ap some (sym here)
    | inr (other, h) ↦ found_old h
  ]

  pub write-IsTable : IsTable t'
  unfolding write
  write-IsTable = record {
    shaped = w.shaped;
    long = rw (length-set t.items f) w.long;
    placed = found;
  }

  -- The new item is found under its key, and every other key finds what it did.
  pub find-write : (k : ℕ) → find t' k ≡ (if k == key then some value else find t k)
  find-write k = elim (ℕ_discrete k key) [
    | yes same ↦
        ap (find t') same
        ∙ find-Holds t' key f write-IsTable Holds-write_self
        ∙ ap (λ (x : Item). some x.value) item-write_self
        ∙ ground arith
    | no other ↦ elim (present t k w) [
      | inl (j, h) ↦
          find-Holds t' k j write-IsTable (Holds-write_ne h)
          ∙ ap (λ (x : Item). some x.value) (item-write_ne j (apart h))
          ∙ sym (find-Holds t k j w h)
          ∙ ground arith
      | inr none_ ↦
          find_none t' k write-IsTable (λ j h. elim (Holds-write-back h) [
            | inl (_, same) ↦ other same
            | inr (_, h') ↦ none_ j h'
          ])
          ∙ sym (find_none t k w none_)
          ∙ ground arith
    ]
  ]
