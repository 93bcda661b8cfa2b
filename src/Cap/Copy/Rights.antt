-- ===== src/Cap/Copy/Rights.antt =====
-- A copy never gives more than its source, and never leaves a stale translation.
use viengoos.AddrTrans.{
  AddrTrans, subpage, subpages, guard, guard_bits, set_guard_subpage, subpage_offset, subpage_size,
}
use viengoos.AddrTrans.Guard.{
  IsWellFormed, Fits, set_guard_subpage-exact, set_guard_subpage-reads, subpage_size-div,
  subpage_offset-mul, guard-lt, subpages-lt,
}
use viengoos.Cap.Copy.{
  has, copy_addr_trans_subpage, copy_weaken, copy_addr_trans_guard, copy_source_guard, narrows,
  subpage_refused, subpage_from, guard_from, type_of_copy, changes_translation, store, cap_copy_x,
}
use viengoos.Cap.Kind.{CapType, cappage, rcappage, same, void, is_weak, compatible, weaken}
use viengoos.Cap.Kind.Strength.{same_iff, weaken_lem}
use viengoos.Cap.{Cap, Properties}
use viengoos.Common.{
  ℕ, ◌+◌, ◌*◌, ◌/◌, ◌≤◌, ◌≡◌, ◌↔◌, ◌⊎◌, inl, inr, refl, sym, ap, ap₂, ◌∙◌, arith, Bool, true, false,
  not, ◌&&◌, ◌||◌, ◌==◌, Bool-cases, if◌then◌else◌,
}

choose :
    {a b : AddrTrans} (c : Bool)
    → IsWellFormed a
    → IsWellFormed b
    → IsWellFormed (if c then a else b)
choose true p q = p
choose false p q = q

-- A descriptor that passes the test reaches a part of the source's slots.
narrows_window :
    (a b : AddrTrans)
    → IsWellFormed a
    → IsWellFormed b
    → narrows a b ≡ true
    → (subpage_offset a ≤ subpage_offset b)
      × (subpage_offset b + subpage_size b ≤ subpage_offset a + subpage_size a)
unfolding narrows
narrows_window a b u v e =
    let low : subpage a * (256 / subpages a) ≤ subpage b * (256 / subpages b) = ground arith in
    let high : (subpage b + 1) * (256 / subpages b) ≤ (subpage a + 1) * (256 / subpages a) =
      ground arith in
    (
      omega (arith, subpage_offset-mul a u, subpage_offset-mul b v),
      omega (
        arith,
        subpage_offset-mul a u,
        subpage_offset-mul b v,
        subpage_size-div a u,
        subpage_size-div b v,
      ),
    )

-- The slots of `b` are among those of `a`.
abbrev pub IsWithin : AddrTrans → AddrTrans → Type 0
IsWithin b a =
    (subpage_offset a ≤ subpage_offset b)
    × (subpage_offset b + subpage_size b ≤ subpage_offset a + subpage_size a)

window_narrows :
    (a b : AddrTrans) → IsWellFormed a → IsWellFormed b → IsWithin b a → narrows a b ≡ true
unfolding narrows
window_narrows a b u v (low, high) =
    let first : subpage a * (256 / subpages a) ≤ subpage b * (256 / subpages b) =
      omega (arith, subpage_offset-mul a u, subpage_offset-mul b v) in
    let last : (subpage b + 1) * (256 / subpages b) ≤ (subpage a + 1) * (256 / subpages a) = omega (
      arith,
      subpage_offset-mul a u,
      subpage_offset-mul b v,
      subpage_size-div a u,
      subpage_size-div b v,
    ) in
    ground arith

-- What may be asked for: the subpage of the source, or one that narrows it; and several subpages
-- for page tables only.
abbrev pub IsPermitted : ℕ → Cap → Properties → Type 0
IsPermitted flags source properties =
    (has flags copy_addr_trans_subpage ≡ false)
    ⊎ (((subpages properties.addr_trans ≡ 1) ⊎ ((source.type ≡ cappage) ⊎ (source.type ≡ rcappage)))
        × IsWithin properties.addr_trans source.addr_trans)

-- The test for page tables, on the left as it stands in the code.
is_table :
    (t : CapType) → (same t cappage || same t rcappage ≡ true) ↔ ((t ≡ cappage) ⊎ (t ≡ rcappage))
is_table t = (
  λ e. elim (Bool-cases (same t cappage)) [
    | inl first ↦ inl ((same_iff t cappage).0 first)
    | inr other ↦ inr ((same_iff t rcappage).0 (ground arith))
  ],
  λ c. elim c [
    | inl p ↦ let q = (same_iff t cappage).1 p in ground arith
    | inr p ↦ let q = (same_iff t rcappage).1 p in ground arith
  ],
)

permitted :
    (flags : ℕ) (source : Cap) (properties : Properties)
    → IsWellFormed source.addr_trans
    → IsWellFormed properties.addr_trans
    → (subpage_refused flags source properties ≡ false) ↔ IsPermitted flags source properties
unfolding subpage_refused
permitted flags source properties ws wp =
    let narrow = narrows_window source.addr_trans properties.addr_trans ws wp in
    let back = window_narrows source.addr_trans properties.addr_trans ws wp in
    elim (Bool-cases (has flags copy_addr_trans_subpage)) [
      | inr unset ↦ ((λ e. inl unset), λ e. rw unset)
      | inl set_ ↦ (
        λ e. inr (kind set_ e, narrow (ground arith)),
        λ c. elim c [ inl unset ↦ cc | inr (k, within) ↦ ground (arith, back within, known k) ],
      )
    ]
  where
    kind :
        has flags copy_addr_trans_subpage ≡ true
        → subpage_refused flags source properties ≡ false
        → (subpages properties.addr_trans ≡ 1)
          ⊎ ((source.type ≡ cappage) ⊎ (source.type ≡ rcappage))
    kind set_ e = elim (Bool-cases (subpages properties.addr_trans == 1)) [
      | inl one ↦ inl (ground arith)
      | inr several ↦ inr ((is_table source.type).0 (ground arith))
    ]

    known :
        (subpages properties.addr_trans ≡ 1) ⊎ ((source.type ≡ cappage) ⊎ (source.type ≡ rcappage))
        → not (subpages properties.addr_trans == 1)
            && not (same source.type cappage || same source.type rcappage)
          ≡ false
    known (inl one) = ground arith
    known (inr table) = let t = (is_table source.type).1 table in ground arith

-- What the tests of `changes_translation` leave equal.
record Unchanged (target source : Cap) (flags : ℕ) (properties : Properties) : Type 0 where
  oid : target.oid ≡ source.oid
  version : target.version ≡ source.version
  kind : type_of_copy flags source ≡ target.type
  guards : guard (guard_from flags target source properties) ≡ guard target.addr_trans
  depths : guard_bits (guard_from flags target source properties) ≡ guard_bits target.addr_trans
  places : subpage (subpage_from flags source properties) ≡ subpage target.addr_trans
  numbers : subpages (subpage_from flags source properties) ≡ subpages target.addr_trans

unchanged :
    (target source : Cap) (flags : ℕ) (properties : Properties)
    → changes_translation flags target source properties ≡ false
    → Unchanged target source flags properties
unfolding changes_translation
unchanged target source flags properties e = record {
  oid = ground arith;
  version = ground arith;
  kind = (same_iff (type_of_copy flags source) target.type).0 (ground arith);
  guards = ground arith;
  depths = ground arith;
  places = ground arith;
  numbers = ground arith;
}

module _ {W : Type 0} (cap_shootdown : W → Cap → W × Cap) (w : W) (target source : Cap) (flags : ℕ)
    (properties : Properties) (wt : IsWellFormed target.addr_trans)
    (ws : IsWellFormed source.addr_trans) (wp : IsWellFormed properties.addr_trans) where
  abbrev sub : AddrTrans
  sub = subpage_from flags source properties

  abbrev gd : AddrTrans
  gd = guard_from flags target source properties

  abbrev result : Bool × W × Cap
  result = cap_copy_x cap_shootdown w target source flags properties

  sub-IsWellFormed : IsWellFormed sub
  unfolding subpage_from
  sub-IsWellFormed = choose (has flags copy_addr_trans_subpage) wp ws

  gd-IsWellFormed : IsWellFormed gd
  unfolding guard_from
  gd-IsWellFormed =
      choose (has flags copy_addr_trans_guard) wp (choose (has flags copy_source_guard) ws wt)

  setter_exact :
      ((set_guard_subpage properties.addr_trans
          (guard gd)
          (guard_bits gd)
          (subpage sub)
          (subpages sub)).0
        ≡ true)
      ↔ Fits (guard gd) (guard_bits gd) (subpage sub) (subpages sub)
  setter_exact =
      (set_guard_subpage-exact properties.addr_trans (guard gd) (guard_bits gd) (subpage sub)
        (subpages sub) (omega (arith, guard-lt gd gd-IsWellFormed))
        (subpages-lt sub sub-IsWellFormed)).0

  succeeds : (result.0 ≡ true) ↔ (
      (subpage_refused flags source properties ≡ false)
      × ((set_guard_subpage properties.addr_trans
            (guard gd)
            (guard_bits gd)
            (subpage sub)
            (subpages sub)).0
          ≡ true))
  unfolding cap_copy_x
  succeeds = ground arith

  -- With well-formed translators, vg_cap_copy_x succeeds exactly if the chosen guard and subpage
  -- fit together and, where a subpage descriptor is given, it reaches only slots that the source
  -- reaches and gives several subpages only for page tables.
  pub cap_copy_x-exact : (result.0 ≡ true) ↔ (
      IsPermitted flags source properties
      × Fits (guard gd) (guard_bits gd) (subpage sub) (subpages sub))
  cap_copy_x-exact =
      let allowed = permitted flags source properties ws wp in
      (
        λ e. (allowed.0 (succeeds.0 e).0, setter_exact.0 (succeeds.0 e).1),
        λ p. succeeds.1 (allowed.1 p.0, setter_exact.1 p.1),
      )

  -- What a successful copy leaves behind.
  record Copied : Type 0 where
    reads :
        (guard result.2.addr_trans ≡ guard gd)
        × (guard_bits result.2.addr_trans ≡ guard_bits gd)
        × (subpage result.2.addr_trans ≡ subpage sub)
        × (subpages result.2.addr_trans ≡ subpages sub)
        × IsWellFormed result.2.addr_trans
    object : (result.2.oid ≡ source.oid) × (result.2.version ≡ source.version)
    kind : result.2.type ≡ type_of_copy flags source
    world : result.1 ≡ (
        if changes_translation flags target source properties
        then (cap_shootdown w target).0
        else w)

  copied : result.0 ≡ true → Copied
  unfolding cap_copy_x store
  copied e =
      let done = (succeeds.0 e).1 in
      let kept = (succeeds.0 e).0 in
      let trans =
        set_guard_subpage-reads properties.addr_trans (guard gd) (guard_bits gd) (subpage sub)
          (subpages sub) (omega (arith, guard-lt gd gd-IsWellFormed))
          (subpages-lt sub sub-IsWellFormed) gd-IsWellFormed.deep done in
      let field : result.2.addr_trans
          ≡ (set_guard_subpage properties.addr_trans (guard gd) (guard_bits gd) (subpage sub)
              (subpages sub)).1 =
        ground arith in
      record {
        reads = rw field trans;
        object = ground arith;
        kind = ground arith;
        world = ground arith;
      }

  same_window :
      (a b : AddrTrans)
      → IsWellFormed a
      → IsWellFormed b
      → subpage a ≡ subpage b
      → subpages a ≡ subpages b
      → (subpage_offset a ≡ subpage_offset b) × (subpage_size a ≡ subpage_size b)
  same_window a b u v p q = (
    sym (subpage_offset-mul a u) ∙ ap₂ (λ x y. x * (256 / y)) p q ∙ subpage_offset-mul b v,
    sym (subpage_size-div a u) ∙ ap (λ (y : ℕ). 256 / y) q ∙ subpage_size-div b v,
  )

  window_of_sub :
      subpage_refused flags source properties ≡ false
      → (subpage_offset source.addr_trans ≤ subpage_offset sub)
        × (subpage_offset sub + subpage_size sub
            ≤ subpage_offset source.addr_trans + subpage_size source.addr_trans)
  unfolding subpage_refused subpage_from
  window_of_sub e = elim (Bool-cases (has flags copy_addr_trans_subpage)) [
    | inl set_ ↦
        rw set_ (narrows_window source.addr_trans properties.addr_trans ws wp (ground arith))
    | inr unset ↦ rw unset (omega arith)
  ]

  -- After a successful vg_cap_copy_x of well-formed translators, the slots that the copy reaches
  -- are among those that the source reaches, and the copy is well-formed.
  pub cap_copy_x-narrows :
      result.0 ≡ true
      → (subpage_offset source.addr_trans ≤ subpage_offset result.2.addr_trans)
        × (subpage_offset result.2.addr_trans + subpage_size result.2.addr_trans
            ≤ subpage_offset source.addr_trans + subpage_size source.addr_trans)
        × IsWellFormed result.2.addr_trans
  cap_copy_x-narrows e =
      let (_, _, p, q, wf) = (copied e).reads in
      let (first, size) = same_window result.2.addr_trans sub wf sub-IsWellFormed p q in
      let (low, high) = window_of_sub (succeeds.0 e).0 in (rw first low, rw (first, size) high, wf)

  -- With well-formed translators of the target, the source and the properties, a successful
  -- vg_cap_copy_x designates the object and version of its source. Without VG_CAP_COPY_WEAKEN it
  -- has the type of the source; with it, the type is void, or a weak type compatible with that
  -- of the source.
  pub cap_copy_x-weakens :
      result.0 ≡ true
      → (result.2.oid ≡ source.oid)
        × (result.2.version ≡ source.version)
        × (((has flags copy_weaken ≡ false) × (result.2.type ≡ source.type))
            ⊎ ((has flags copy_weaken ≡ true)
                × ((result.2.type ≡ void)
                    ⊎ ((is_weak result.2.type ≡ true)
                        × (compatible result.2.type source.type ≡ true)))))
  unfolding type_of_copy
  cap_copy_x-weakens e =
      let c = copied e in
      (
        c.object.0,
        c.object.1,
        elim (Bool-cases (has flags copy_weaken)) [
          | inr unset ↦ inl (unset, ground (arith, c.kind))
          | inl set_ ↦
              let k : result.2.type ≡ weaken source.type = ground (arith, c.kind) in
              inr (set_, rw k (weaken_lem source.type).0)
        ],
      )

  -- After a successful vg_cap_copy_x of well-formed translators, either cap_shootdown was called
  -- on the target, or the object, the version, the type, the guard and the subpage of the target
  -- are what they were.
  pub cap_copy_x-translation :
      result.0 ≡ true
      → (result.1 ≡ (cap_shootdown w target).0)
        ⊎ ((result.1 ≡ w)
            × (result.2.oid ≡ target.oid)
            × (result.2.version ≡ target.version)
            × (result.2.type ≡ target.type)
            × (guard result.2.addr_trans ≡ guard target.addr_trans)
            × (guard_bits result.2.addr_trans ≡ guard_bits target.addr_trans)
            × (subpage result.2.addr_trans ≡ subpage target.addr_trans)
            × (subpages result.2.addr_trans ≡ subpages target.addr_trans))
  cap_copy_x-translation e =
      elim (Bool-cases (changes_translation flags target source properties)) [
        | inl yes_ ↦ inl (c.world ∙ rw yes_ refl)
        | inr no_ ↦
            let u = unchanged target source flags properties no_ in
            let k = c.kind in
            let (p, q, r, s, _) = c.reads in
            inr (
              c.world ∙ rw no_ refl,
              c.object.0 ∙ sym u.oid,
              c.object.1 ∙ sym u.version,
              k ∙ u.kind,
              p ∙ u.guards,
              q ∙ u.depths,
              r ∙ u.places,
              s ∙ u.numbers,
            )
      ]
    where
      c : Copied
      c = copied e
