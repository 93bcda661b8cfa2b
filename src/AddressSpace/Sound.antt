-- ===== src/AddressSpace/Sound.antt =====
-- What the walk finds is where the route leads.
use viengoos.AddressSpace.Parts.{
  entered, enter_more, enter_break, Guarded, translate_guard_more, translate_guard_break, Indexed,
  index_by_more, index_by_break,
}
use native.Mathlib.Nat.{mod-lt, mod-eq_of_lt, mod-one, mul-div_cancel}
use viengoos.AddressSpace.{
  Mode, want_object, Walk, Step, more, break, failed, cleared, fault, enter, translate_guard,
  index_by, leave, then_, stop_at_end, round, Outcome, found, refused, voided, asserted, finish,
  loop, as_lookup_rel, final_writable,
}
use viengoos.AddressSpace.Route.{
  Edge, page_slot, folio_slot, object_slot, Route, here, guarded, through, IsSane, StoreIsSane,
}
use viengoos.AddrTrans.Guard.{IsWellFormed}
use viengoos.Addr.Meaning.{Means, depth-Means, prefix-Means}
use viengoos.Addr
use viengoos.Addr.{Addr, addr_bits}
use viengoos.AddrTrans
use viengoos.AddrTrans.{AddrTrans, guard, guard_bits, subpage_offset, subpage_size_log2}
use viengoos.Cap.Kind.{CapType, rcappage, same, is_weak}
use viengoos.Cap.{Cap}
use viengoos.Common.{
  ℕ, zero, suc, ◌+◌, ◌-◌, ◌*◌, ◌%◌, ◌^◌, ◌≤◌, ◌<◌, ◌≡◌, ◌≢◌, ◌⊎◌, inl, inr, ◌∙◌, refl, sym, ap,
  subst, arith, Bool, true, false, not, ◌&&◌, Option, some, List, [], ◌∷◌, get_elem?, All, ◌==◌,
  if◌then◌else◌, Bool-cases,
}
use viengoos.Object.{Object, Store, Place, start, folio_object_cap}
use viengoos.Word.Fields.{two_pow_pos, two_pow_add, pow_congr}
use viengoos.Word.{shr}

then_more :
    (st : Step) (f : Walk → Step) {k : Walk}
    → then_ st f ≡ more k
    → (k₁ : Walk) × (st ≡ more k₁) × (f k₁ ≡ more k)
then_more (more k₁) f e = (k₁, refl, e)
then_more _ f e = cc

then_break :
    (st : Step) (f : Walk → Step) {k : Walk}
    → ((k₁ : Walk) → st ≢ break k₁)
    → then_ st f ≡ break k
    → (k₁ : Walk) × (st ≡ more k₁) × (f k₁ ≡ break k)
then_break (more k₁) f never e = (k₁, refl, e)
then_break (break k₁) f never e = absurd (never k₁ refl)
then_break failed f never e = cc
then_break (cleared p) f never e = cc
then_break fault f never e = cc

ended :
    (st : Step) (f : Walk → Step) {k : Walk}
    → then_ st f ≡ break k
    → (st ≡ break k) ⊎ ((k₁ : Walk) × (st ≡ more k₁) × (f k₁ ≡ break k))
ended (more k₁) f e = inr (k₁, refl, e)
ended (break k₁) f e = inl e
ended _ f e = cc

-- The two ends of a round: the guard was translated, and bits were left or not.
stop_more : (k k' : Walk) → stop_at_end k ≡ more k' → (k' ≡ k) × (0 < k.remaining)
unfolding stop_at_end
stop_more k k' e = ground arith

stop_break : (k k' : Walk) → stop_at_end k ≡ break k' → (k' ≡ k) × (k.remaining ≡ 0)
unfolding stop_at_end
stop_break k k' e = ground arith

leave_more : (mode : Mode) (k k' : Walk) → leave mode k ≡ more k' → k' ≡ k
unfolding leave
leave_more want_object k k' e = ground arith
leave_more _ k k' e = ground arith

leave_break : (mode : Mode) (k k' : Walk) → leave mode k ≡ break k' → (k' ≡ k) × (k.remaining ≡ 0)
unfolding leave
leave_break want_object k k' e = ground arith
leave_break _ k k' e = ground arith

module _ (s : Store) (a : ℕ) (type : Option CapType) (mode : Mode) (k k' : Walk)
    (sane : IsSane k.cap) (pos : 0 < k.remaining) (small : k.remaining ≤ 63) where
  after_guard :
      (k₁ k₂ : Walk)
      → enter type k ≡ more k₁
      → translate_guard a k₁ ≡ more k₂
      → Guarded a (entered k) k₂
  after_guard k₁ k₂ e₁ e₂ =
      translate_guard_more a (entered k) k₂ sane pos small (rw (enter_more type k k₁ e₁) at e₂)

  after_index :
      (k₂ k₃ k₄ : Walk)
      → Guarded a (entered k) k₂
      → stop_at_end k₂ ≡ more k₃
      → index_by k₃.cap.type s a k₃ ≡ more k₄
      → Indexed s a k₂ k₄
  after_index k₂ k₃ k₄ g e₃ e₄ =
      let (same_, left) = stop_more k₂ k₃ e₃ in
      index_by_more s a k₂ k₄ left (omega (arith, g.bits)) k₂.cap.type refl (rw g.cap sane)
        (subst (λ x. index_by x.cap.type s a x ≡ more k₄) same_ e₄)

  -- The walk goes on at the slot that the guard and the index lead to.
  pub round_more :
      round s a type mode k ≡ more k' → (k₂ : Walk) × Guarded a (entered k) k₂ × Indexed s a k₂ k'
  unfolding round
  round_more e =
      let (k₁, e₁, r₁) = then_more (enter type k) _ e in
      let (k₂, e₂, r₂) = then_more (translate_guard a k₁) _ r₁ in
      let (k₃, e₃, r₃) = then_more (stop_at_end k₂) _ r₂ in
      let (k₄, e₄, r₄) = then_more (index_by k₃.cap.type s a k₃) _ r₃ in
      let g = after_guard k₁ k₂ e₁ e₂ in
      (k₂, g, rw (leave_more mode k₄ k' r₄) (after_index k₂ k₃ k₄ g e₃ e₄))

  -- It stops at the capability itself, or at that slot, with no bits left.
  pub round_break :
      round s a type mode k ≡ break k'
      → (k'.remaining ≡ 0)
        × (Guarded a (entered k) k' ⊎ ((k₂ : Walk) × Guarded a (entered k) k₂ × Indexed s a k₂ k'))
  unfolding round
  round_break e =
      let (k₁, e₁, r₁) = then_break (enter type k) _ (enter_break type k) e in
      let (k₂, e₂, r₂) = then_break (translate_guard a k₁) _ (translate_guard_break a k₁) r₁ in
      let g = after_guard k₁ k₂ e₁ e₂ in
      elim (ended (stop_at_end k₂) _ r₂) [
        | inl e₃ ↦ let (same_, none_) = stop_break k₂ k' e₃ in (rw same_ none_, inl (rw same_ g))
        | inr (k₃, e₃, r₃) ↦
            let (k₄, e₄, r₄) =
              then_break (index_by k₃.cap.type s a k₃) _ (index_by_break k₃.cap.type s a k₃) r₃ in
            let (same_, none_) = leave_break mode k₄ k' r₄ in
            (rw same_ none_, inr (k₂, g, rw same_ (after_index k₂ k₃ k₄ g e₃ e₄)))
      ]

-- `*writable` in the mode, where the walk ended at `d` with `w`
abbrev pub allowed : Mode → Cap → Bool → Bool
allowed want_object d w = if is_weak d.type then false else w
allowed mode d w = w

finish-found :
    (type : Option CapType) (mode : Mode) (k : Walk) (d : Cap) (q : Place) (w : Bool)
    → finish type mode k ≡ found d q w
    → (k.cap ≡ d) × (k.place ≡ q) × (w ≡ allowed mode d k.writable)
unfolding finish final_writable
finish-found type want_object k d q w e = ground arith
finish-found type _ k d q w e = ground arith

-- What the loop finds, from any point of the walk.
record Leads (s : Store) (a : ℕ) (mode : Mode) (k : Walk) (d : Cap) (q : Place) (w : Bool)
    : Type 0 where
  unread : Bool
  route : Route s k.cap k.place (a % 2 ^ k.remaining) k.remaining unread d q
  flag : w ≡ allowed mode d (k.writable && unread)

and_assoc : (x y z : Bool) → ((x && y) && z) ≡ (x && (y && z))
and_assoc true y z = refl
and_assoc false y z = refl

and_true : (x : Bool) → (x && true) ≡ x
and_true true = refl
and_true false = refl

pub All-get {ℓ κ} :
    {A : Type ℓ} (P : A → Type κ) (xs : List A) (i : ℕ) {x : A}
    → All P xs
    → get_elem? xs i ≡ some x
    → P x
All-get P [] i h e = cc
All-get P (y ∷ ys) zero h e = subst P (cc) h.0
All-get P (y ∷ ys) (suc i) h e = All-get P ys i h.1 e

void-IsWellFormed : IsWellFormed AddrTrans.void
unfolding guard
void-IsWellFormed = omega arith

folio_cap-IsSane : (o : Object) (i : ℕ) {d : Cap} → folio_object_cap o i ≡ some d → IsSane d
unfolding folio_object_cap
folio_cap-IsSane o i {d} e =
    let plain : d.addr_trans ≡ AddrTrans.void = ground arith in
    record { formed = rw plain void-IsWellFormed; short = rw plain (omega arith) }

pub Edge-IsSane :
    (s : Store) (c d : Cap) (bits i : ℕ) (p : Place)
    → StoreIsSane s
    → Edge s c bits i d p
    → IsSane d
Edge-IsSane s c d bits i p all (page_slot o w _ _ at _) =
    All-get IsSane o.caps _ (all c.oid o w.stored) at
Edge-IsSane s c d bits i p all (folio_slot o w _ _ at _) = folio_cap-IsSane o i at
Edge-IsSane s c d bits i p all (object_slot o w _ _ at _) =
    All-get IsSane o.caps _ (all c.oid o w.stored) at

module _ (s : Store) (a : ℕ) (mode : Mode) (k k₂ k' : Walk) (d : Cap) (q : Place) (w : Bool) where
  -- a round in front of what the rest of the walk finds
  prepend :
      Guarded a (entered k) k₂
      → Indexed s a k₂ k'
      → Leads s a mode k' d q w
      → Leads s a mode k d q w
  prepend g x l = record {
    unread = not (same k.cap.type rcappage) && l.unread;
    route =
        through x.bits x.index (a % 2 ^ k'.remaining) k'.remaining (rw g.cap at x.edge) x.inside
          (mod-lt a (two_pow_pos k'.remaining)) (omega (arith, g.bits, x.count)) value l.route refl;
    flag =
        l.flag
        ∙ ap (λ z. allowed mode d (z && l.unread)) (x.writable ∙ g.writable)
        ∙ ap (allowed mode d) (and_assoc k.writable (not (same k.cap.type rcappage)) l.unread);
  }
    where
      g₀ : ℕ
      g₀ = guard k.cap.addr_trans

      value :
          a % 2 ^ k.remaining
          ≡ (g₀ * 2 ^ x.bits + x.index) * 2 ^ k'.remaining + a % 2 ^ k'.remaining
      value = omega (
        arith,
        g.value,
        x.value,
        ap (λ (t : ℕ). g₀ * t) (pow_congr k₂.remaining (x.bits + k'.remaining) x.count),
        ap (λ (t : ℕ). g₀ * t) (two_pow_add x.bits k'.remaining),
      )

module _ (s : Store) (a : ℕ) (type : Option CapType) (mode : Mode) (d : Cap) (q : Place) (w : Bool)
    (all : StoreIsSane s) where
  finished :
      (k : Walk) → k.remaining ≡ 0 → finish type mode k ≡ found d q w → Leads s a mode k d q w
  finished k none_ e =
      let (cap, place, flag) = finish-found type mode k d q w e in
      record {
        unread = true;
        route = rw (← cap, ← place) (here none_ (no_bits none_) refl);
        flag = flag ∙ ap (allowed mode d) (sym (and_true k.writable));
      }
    where
      no_bits : k.remaining ≡ 0 → a % 2 ^ k.remaining ≡ 0
      no_bits z = rw (pow_congr k.remaining 0 z) (mod-one a)

  at_guard :
      (k k' : Walk)
      → Guarded a (entered k) k'
      → 0 < k.remaining
      → k'.remaining ≡ 0
      → finish type mode k' ≡ found d q w
      → Leads s a mode k d q w
  at_guard k k' g pos none_ e =
      let (cap, place, flag) = finish-found type mode k' d q w e in
      let r : Route s k.cap k.place (a % 2 ^ k.remaining) k.remaining
          (not (same k.cap.type rcappage)) k.cap k.place =
        guarded pos (omega (arith, g.bits)) value refl in
      record {
        unread = not (same k.cap.type rcappage);
        route =
            subst
              (λ x.
                Route s k.cap k.place (a % 2 ^ k.remaining) k.remaining
                  (not (same k.cap.type rcappage)) x q)
              (sym g.cap ∙ cap)
              (subst
                (λ x.
                  Route s k.cap k.place (a % 2 ^ k.remaining) k.remaining
                    (not (same k.cap.type rcappage)) k.cap x)
                (sym g.place ∙ place) r);
        flag = flag ∙ ap (allowed mode d) g.writable;
      }
    where
      g₀ : ℕ
      g₀ = guard k.cap.addr_trans

      value : g₀ ≡ a % 2 ^ k.remaining
      value = omega (
        arith,
        g.value,
        ap (λ (t : ℕ). g₀ * t) (pow_congr k'.remaining 0 none_),
        ap (λ (t : ℕ). a % t) (pow_congr k'.remaining 0 none_),
        mod-one a,
      )

  -- the loop was left by `break`
  broken :
      (k k' : Walk)
      → IsSane k.cap
      → 0 < k.remaining
      → k.remaining ≤ 63
      → round s a type mode k ≡ break k'
      → finish type mode k' ≡ found d q w
      → Leads s a mode k d q w
  broken k k' sane pos small e₁ e₂ =
      let (none_, how) = round_break s a type mode k k' sane pos small e₁ in
      elim how [
        | inr (k₂, g, x) ↦ prepend s a mode k k₂ k' d q w g x (finished k' none_ e₂)
        | inl g ↦ at_guard k k' g pos none_ e₂
      ]

  -- the loop goes on as the round says
  continue :
      (rest : Walk → Outcome)
      → ((k' : Walk)
          → IsSane k'.cap
          → k'.remaining ≤ 63
          → rest k' ≡ found d q w
          → Leads s a mode k' d q w)
      → (k : Walk) → IsSane k.cap
      → 0 < k.remaining
      → k.remaining ≤ 63
      → (r : Step) → round s a type mode k ≡ r
      → elim r [
        | more k' ↦ rest k'
        | break k' ↦ finish type mode k'
        | failed ↦ refused
        | cleared p ↦ voided p
        | fault ↦ asserted
      ]
        ≡ found d q w
      → Leads s a mode k d q w
  continue rest ih k sane pos small (more k') e₁ e₂ =
      let (k₂, g, x) = round_more s a type mode k k' sane pos small e₁ in
      prepend s a mode k k₂ k' d q w g x
        (ih k' (Edge-IsSane s _ _ _ _ _ all x.edge) (omega (arith, g.bits, x.count)) e₂)
  continue rest ih k sane pos small (break k') e₁ e₂ = broken k k' sane pos small e₁ e₂
  continue rest ih k sane pos small failed e₁ e₂ = cc
  continue rest ih k sane pos small (cleared p) e₁ e₂ = cc
  continue rest ih k sane pos small fault e₁ e₂ = cc

  loop_sound :
      (fuel : ℕ) (k : Walk)
      → IsSane k.cap
      → k.remaining ≤ 63
      → loop s a type mode fuel k ≡ found d q w
      → Leads s a mode k d q w
  unfolding loop
  loop_sound zero k sane small e = cc
  loop_sound (suc fuel) k sane small e = elim (Bool-cases (k.remaining == 0)) [
    | inl done ↦ finished k (ground arith) (rw (loop, done) at e)
    | inr left ↦
        continue (λ k'. loop s a type mode fuel k')
          (λ k' sane' small' e'. loop_sound fuel k' sane' small' e') k sane (ground arith) small
          (round s a type mode k) refl (rw (loop, left) at e)
  ]

-- If as_lookup_rel finds a capability in an address space whose translators are well-formed,
-- with guards of at most 32 bits, then the bits of the address name a route from the root to it
-- (guard, slot, guard, slot, ...), and *writable says whether no read-only page table is on the
-- way (and, where the object is wanted, that the capability is not weak).
pub as_lookup_rel_sound :
    (s : Store) (root : Cap) (fuel : ℕ) {address : Addr} {bits n : ℕ} (type : Option CapType)
    (mode : Mode) (d : Cap) (q : Place) (w : Bool)
    → StoreIsSane s
    → IsSane root
    → Means address bits n
    → as_lookup_rel fuel s root address type mode ≡ found d q w
    → (v : Bool) × Route s root start bits n v d q × (w ≡ allowed mode d v)
unfolding as_lookup_rel
as_lookup_rel_sound s root fuel {address} {bits} {n} type mode d q w all sane m e =
    let l =
      loop_sound s a type mode d q w all fuel
        (record { cap = root; place = start; remaining = Addr.depth address; writable = true }) sane
        (omega (arith, depth-Means m, m.shallow)) e in
    (l.unread, rw (← value, ← depth-Means m) l.route, l.flag)
  where
    a : ℕ
    a = shr (Addr.prefix address) (addr_bits - Addr.depth address)

    value : a % 2 ^ Addr.depth address ≡ bits
    value =
        rw (depth-Means m, prefix-Means m, mul-div_cancel bits (two_pow_pos (addr_bits - n)))
          (mod-eq_of_lt m.fits)
