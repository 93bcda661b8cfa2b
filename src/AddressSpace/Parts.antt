-- ===== src/AddressSpace/Parts.antt =====
-- The parts of a round of the walk, where they let it go on.
use viengoos.AddressSpace.Bits.{top, extract_bits64_inv-top, mod_top, guard_matches}
use native.Mathlib.Nat.{mod-lt, zero-mul}
use viengoos.AddressSpace.{
  Walk, more, break, through_int, enter, translate_guard, slot_of, index_cappage, index_folio,
  index_slots, index_by,
}
use viengoos.AddressSpace.Route.{Designates, Edge, page_slot, folio_slot, object_slot, IsSane}
use viengoos.AddrTrans.Guard.{guard-lt}
use viengoos.AddrTrans.{AddrTrans, guard, guard_bits, subpage_offset, subpage_size_log2}
use viengoos.Cap.Kind.{CapType, cappage, rcappage, folio, thread, messenger, same}
use viengoos.Cap.{Cap}
use viengoos.Common.{
  ℕ, ◌+◌, ◌-◌, ◌*◌, ◌/◌, ◌%◌, ◌^◌, ◌≤◌, ◌<◌, ◌≡◌, ◌≢◌, ◌⊎◌, inl, inr, ◌∙◌, refl, sym, ap, arith,
  true, not, ◌&&◌, Option, some, get_elem?, ◌==◌, Bool-cases,
}
use viengoos.Object.{Object, Store, slot, object, cap_to_object, folio_object_cap}
use viengoos.Word.Fields.{two_pow_pos, pow_congr}

-- the walk after the read-only bit is taken into account
abbrev pub entered : Walk → Walk
entered k = record k { writable = k.writable && not (same k.cap.type rcappage) }

pub enter_more : (type : Option CapType) (k k₁ : Walk) → enter type k ≡ more k₁ → k₁ ≡ entered k
unfolding enter
enter_more type k k₁ e = ground arith

pub enter_break : (type : Option CapType) (k k₁ : Walk) → enter type k ≢ break k₁
unfolding enter
enter_break type k k₁ e = ground arith

pub record Guarded (a : ℕ) (k k₂ : Walk) : Type 0 where
  pub cap : k₂.cap ≡ k.cap
  pub place : k₂.place ≡ k.place
  pub writable : k₂.writable ≡ k.writable
  pub bits : k.remaining ≡ guard_bits k.cap.addr_trans + k₂.remaining
  pub value : a % 2 ^ k.remaining ≡ guard k.cap.addr_trans * 2 ^ k₂.remaining + a % 2 ^ k₂.remaining

pub translate_guard_more :
    (a : ℕ) (k k₂ : Walk)
    → IsSane k.cap
    → 0 < k.remaining
    → k.remaining ≤ 63
    → translate_guard a k ≡ more k₂
    → Guarded a k k₂
unfolding translate_guard
translate_guard_more a k k₂ sane pos small e = elim (Bool-cases (gd == 0)) [
  | inl none_ ↦
      let same_walk : k₂ ≡ k = ground arith in
      let zero_depth : gd ≡ 0 = ground arith in
      rw same_walk (record {
        cap = refl;
        place = refl;
        writable = refl;
        bits = omega arith;
        value = omega (arith, no_guard zero_depth);
      })
  | inr some_ ↦
      let room : gd ≤ k.remaining = ground arith in
      let read = extract_bits64_inv-top a k.remaining gd pos small room in
      let matched : guard k.cap.addr_trans == through_int (top a k.remaining gd) ≡ true =
        ground arith in
      let there : k₂ ≡ record k { remaining = k.remaining - gd } = ground arith in
      rw there (record {
        cap = refl;
        place = refl;
        writable = refl;
        bits = omega arith;
        value =
            mod_top a k.remaining gd room
            ∙ ap (λ (t : ℕ). t * 2 ^ (k.remaining - gd) + a % 2 ^ (k.remaining - gd))
                (sym (
                  guard_matches (guard k.cap.addr_trans) (top a k.remaining gd) gd
                    (guard-lt k.cap.addr_trans sane.formed)
                    (mod-lt (a / 2 ^ (k.remaining - gd)) (two_pow_pos gd)) sane.short matched));
      })
]
  where
    gd : ℕ
    gd = guard_bits k.cap.addr_trans

    no_guard : gd ≡ 0 → guard k.cap.addr_trans * 2 ^ k.remaining ≡ 0
    no_guard z =
        let zero_guard : guard k.cap.addr_trans ≡ 0 =
          omega (arith, sane.formed.narrow, pow_congr gd 0 z) in
        ap (λ (t : ℕ). t * 2 ^ k.remaining) zero_guard ∙ zero-mul (2 ^ k.remaining)

cap_to_object-Designates :
    (s : Store) (c : Cap) (o : Object) → cap_to_object s c ≡ object o → Designates s c o
unfolding cap_to_object
cap_to_object-Designates s c o e = record {
  stored = ground arith;
  live = ground arith;
  fitting = ground arith;
  typed = ground arith;
}

pub record Indexed (s : Store) (a : ℕ) (k k₄ : Walk) : Type 0 where
  pub bits : ℕ
  pub index : ℕ
  pub edge : Edge s k.cap bits index k₄.cap k₄.place
  pub writable : k₄.writable ≡ k.writable
  pub count : k.remaining ≡ bits + k₄.remaining
  pub inside : index < 2 ^ bits
  pub value : a % 2 ^ k.remaining ≡ index * 2 ^ k₄.remaining + a % 2 ^ k₄.remaining

slot_of_more :
    (o : Object) (size offset bits : ℕ) (k k₄ : Walk)
    → slot_of o size offset bits k ≡ more k₄
    → (get_elem? o.caps offset ≡ some k₄.cap)
      × (k₄.place ≡ slot o.oid offset)
      × (k₄.remaining ≡ k.remaining - bits)
      × (k₄.writable ≡ k.writable)
unfolding slot_of
slot_of_more o size offset bits k k₄ e = ground arith

size_log2 : (t : AddrTrans) → t.subpages_log2 ≤ 8 → subpage_size_log2 t ≡ 8 - t.subpages_log2
unfolding subpage_size_log2
size_log2 t h = omega arith

module _ (s : Store) (a : ℕ) (k k₄ : Walk) (pos : 0 < k.remaining) (small : k.remaining ≤ 63) where
  -- The edge for the bits that were read.
  indexed :
      (bits : ℕ)
      → bits ≤ k.remaining
      → Edge s k.cap bits (top a k.remaining bits) k₄.cap k₄.place
      → k₄.remaining ≡ k.remaining - bits
      → k₄.writable ≡ k.writable
      → Indexed s a k k₄
  indexed bits room edge left same_ = record {
    bits = bits;
    index = top a k.remaining bits;
    edge = edge;
    writable = same_;
    count = omega arith;
    inside = mod-lt (a / 2 ^ (k.remaining - bits)) (two_pow_pos bits);
    value = rw left (mod_top a k.remaining bits room);
  }

  index_cappage_more :
      IsSane k.cap
      → (k.cap.type ≡ cappage) ⊎ (k.cap.type ≡ rcappage)
      → index_cappage s a k ≡ more k₄
      → Indexed s a k k₄
  unfolding index_cappage
  index_cappage_more sane kind e =
      let t = k.cap.addr_trans in
      let bits = subpage_size_log2 t in
      let few = size_log2 t sane.formed.few in
      let (o, got) : (o : Object) × (cap_to_object s k.cap ≡ object o) = ground arith in
      let room : bits ≤ k.remaining = ground arith in
      let read = extract_bits64_inv-top a k.remaining bits pos small room in
      let stepped : slot_of o 256 (subpage_offset t + top a k.remaining bits) bits k ≡ more k₄ =
        ground arith in
      let (at, place, left, same_) = slot_of_more o 256 _ bits k k₄ stepped in
      indexed bits room
        (page_slot o (cap_to_object-Designates s k.cap o got) kind (omega (arith, sane.formed.few))
          at place)
        left same_

  index_folio_more : k.cap.type ≡ folio → index_folio s a k ≡ more k₄ → Indexed s a k k₄
  unfolding index_folio
  index_folio_more kind e =
      let (o, got) : (o : Object) × (cap_to_object s k.cap ≡ object o) = ground arith in
      let room : 7 ≤ k.remaining = ground arith in
      let read = extract_bits64_inv-top a k.remaining 7 pos small room in
      let at : folio_object_cap o (top a k.remaining 7) ≡ some k₄.cap = ground arith in
      indexed 7 room
        (folio_slot o (cap_to_object-Designates s k.cap o got) kind refl at (ground arith))
        (ground arith) (ground arith)

  index_slots_more :
      (k.cap.type ≡ thread) ⊎ (k.cap.type ≡ messenger)
      → index_slots s a k ≡ more k₄
      → Indexed s a k k₄
  unfolding index_slots
  index_slots_more kind e =
      let (o, got) : (o : Object) × (cap_to_object s k.cap ≡ object o) = ground arith in
      let room : 2 ≤ k.remaining = ground arith in
      let read = extract_bits64_inv-top a k.remaining 2 pos small room in
      let stepped : slot_of o 4 (top a k.remaining 2) 2 k ≡ more k₄ = ground arith in
      let (at, place, left, same_) = slot_of_more o 4 _ 2 k k₄ stepped in
      indexed 2 room (object_slot o (cap_to_object-Designates s k.cap o got) kind refl at place)
        left same_

  pub index_by_more :
      (t : CapType) → k.cap.type ≡ t → IsSane k.cap → index_by t s a k ≡ more k₄ → Indexed s a k k₄
  unfolding index_by
  index_by_more cappage h sane e = index_cappage_more sane (inl h) e
  index_by_more rcappage h sane e = index_cappage_more sane (inr h) e
  index_by_more folio h sane e = index_folio_more h e
  index_by_more thread h sane e = index_slots_more (inl h) e
  index_by_more messenger h sane e = index_slots_more (inr h) e
  index_by_more _ h sane e = cc

pub translate_guard_break : (a : ℕ) (k k₁ : Walk) → translate_guard a k ≢ break k₁
unfolding translate_guard
translate_guard_break a k k₁ e = ground arith

pub index_by_break : (t : CapType) (s : Store) (a : ℕ) (k k₁ : Walk) → index_by t s a k ≢ break k₁
unfolding index_by index_cappage index_folio index_slots slot_of
index_by_break cappage s a k k₁ e = ground arith
index_by_break _ s a k k₁ e = ground arith
