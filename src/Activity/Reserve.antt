-- ===== src/Activity/Reserve.antt =====
-- The first loop of folio_alloc: how far it gets.
use viengoos.Activity.Path.{
  IsPath, IsPath-with_activity, Updated, Updated-cons, mem, with_activity_ne, with_activity-parent,
}
use viengoos.Activity.Segment.{head_of, IsSegment, IsSegment-same}
use viengoos.Activity.{Activity, Activities, with_activity, full, one_more, reserve_folio}
use viengoos.Common.{
  ℕ, zero, suc, ◌≤◌, ◌<◌, ◌≡◌, ◌≢◌, ◌⊎◌, inl, inr, refl, sym, ap, ◌∙◌, arith, true, false, ◌||◌,
  Option, none, some, List, [], ◌∷◌, All, length, ◌==◌, ◌>>◌, assert, Bool-cases, if_true, if_false,
}

-- What the first loop of folio_alloc does where an activity `c` of the path has its quota used up.
pub record Stopped (s : Activities) (a : ℕ) (ups : List ℕ) (c : ℕ) (s' : Activities) : Type 0 where
  pub passed : List ℕ
  pub shorter : length passed ≤ length ups
  pub first : head_of passed c ≡ a
  pub is_full : full (s.activity c) ≡ true
  pub on_path : mem c (a ∷ ups) ≡ true
  pub segment : IsSegment s passed c
  pub apart : (z : ℕ) → All (λ b. z ≢ b) (a ∷ ups) → All (λ b. z ≢ b) passed × (z ≢ c)
  pub counted : Updated one_more passed s s'

-- One round of the loop where there is room.
one_round :
    (fuel : ℕ) (s : Activities) (a : ℕ) (o : Option ℕ)
    → full (s.activity a) ≡ false
    → (s.activity a).parent ≡ o
    → reserve_folio (suc fuel) s a ≡ elim o as (λ _. Option (Activities × Option ℕ)) [
      | none ↦ assert (a == s.root) >> some (with_activity s a (one_more (s.activity a)), none)
      | some b ↦ reserve_folio fuel (with_activity s a (one_more (s.activity a))) b
    ]
unfolding reserve_folio
one_round fuel s a o room p =
    let s' = with_activity s a (one_more (s.activity a)) in
    if_false (full (s.activity a)) (some (s, some a))
      (elim (s.activity a).parent [
        | none ↦ assert (a == s.root) >> some (s', none)
        | some b ↦ reserve_folio fuel s' b
      ])
      room
    ∙ ap
        (λ o. elim o as (λ _. Option (Activities × Option ℕ)) [
          | none ↦ assert (a == s.root) >> some (s', none)
          | some b ↦ reserve_folio fuel s' b
        ])
        p

stop_at :
    (fuel : ℕ) (s : Activities) (a : ℕ)
    → full (s.activity a) ≡ true
    → reserve_folio (suc fuel) s a ≡ some (s, some a)
unfolding reserve_folio
stop_at fuel s a f =
    let s' = with_activity s a (one_more (s.activity a)) in
    if_true (full (s.activity a)) (some (s, some a))
      (elim (s.activity a).parent [
        | none ↦ assert (a == s.root) >> some (s', none)
        | some b ↦ reserve_folio fuel s' b
      ])
      f

Stopped-here :
    (s : Activities) (a : ℕ) (ups : List ℕ) → full (s.activity a) ≡ true → Stopped s a ups a s
Stopped-here s a ups f = record {
  passed = [];
  shorter = omega arith;
  first = refl;
  is_full = f;
  on_path = ground arith;
  segment = tt;
  apart = λ z ne. (tt, ne.0);
  counted = (refl, λ b. refl);
}

mem_ne : (a c : ℕ) (xs : List ℕ) → All (λ z. a ≢ z) xs → mem c xs ≡ true → a ≢ c
mem_ne a c [] ne i = absurd (ground (arith, i))
mem_ne a c (x ∷ xs) (ne, nes) i = elim (Bool-cases (x == c)) [
  | inl e ↦ λ q. ne (ground (arith, e, q))
  | inr o ↦ mem_ne a c xs nes (ground (arith, i, o))
]

Stopped-above :
    (s : Activities) (a y : ℕ) (ys : List ℕ) (c : ℕ) (s' : Activities)
    → (s.activity a).parent ≡ some y
    → All (λ z. a ≢ z) (y ∷ ys)
    → Stopped (with_activity s a (one_more (s.activity a))) y ys c s'
    → Stopped s a (y ∷ ys) c s'
unfolding one_more
Stopped-above s a y ys c s' p ne above =
    let v = one_more (s.activity a) in
    let other = mem_ne a c (y ∷ ys) ne above.on_path in
    record {
      passed = a ∷ above.passed;
      shorter = omega (arith, above.shorter);
      first = refl;
      is_full = ap full (sym (with_activity_ne s a c v other)) ∙ above.is_full;
      on_path = ap (λ b. a == c || b) above.on_path ∙ ground arith;
      segment = (
        p ∙ ap some (sym above.first),
        other,
        (above.apart a ne).0,
        IsSegment-same (with_activity s a v) s above.passed c
            (λ b. sym (with_activity-parent s a v refl b)) above.segment,
      );
      apart = λ z (h, hs). ((h, (above.apart z hs).0), (above.apart z hs).1);
      counted = Updated-cons one_more s s' a above.passed (above.apart a ne).0 above.counted;
    }

rooms_before :
    (s : Activities) (a : ℕ) (v : Activity) (xs : List ℕ)
    → All (λ z. a ≢ z) xs
    → All (λ b. full ((with_activity s a v).activity b) ≡ false) xs
    → All (λ b. full (s.activity b) ≡ false) xs
rooms_before s a v [] ne h = tt
rooms_before s a v (x ∷ xs) (ne, nes) (h, hs) =
    (ap full (sym (with_activity_ne s a x v ne)) ∙ h, rooms_before s a v xs nes hs)

-- All activities of the path have room, and are counted for; or one of them has none.
abbrev pub Reserved : Activities → ℕ → List ℕ → ℕ → Type 0
Reserved s a ups fuel =
    ((s' : Activities) × (reserve_folio fuel s a ≡ some (s', none))
      × All (λ b. full (s.activity b) ≡ false) (a ∷ ups)
      × Updated one_more (a ∷ ups) s s')
    ⊎ ((s' : Activities) × (c : ℕ) × (reserve_folio fuel s a ≡ some (s', some c))
        × Stopped s a ups c s')

pub reserve_folio-Reserved :
    (fuel : ℕ) (s : Activities) (a : ℕ) (ups : List ℕ)
    → length ups < fuel
    → IsPath s a ups
    → Reserved s a ups fuel
reserve_folio-Reserved zero s a ups enough path = elim enough [ ]
reserve_folio-Reserved (suc fuel) s a [] enough (p, r) =
    let s' = with_activity s a (one_more (s.activity a)) in
    elim (Bool-cases (full (s.activity a))) [
      | inl f ↦ inr (s, a, stop_at fuel s a f, Stopped-here s a [] f)
      | inr room ↦
          let top : (a == s.root) ≡ true = ground arith in
          inl (
            s',
            one_round fuel s a none room p
                ∙ ap
                    (λ c. assert c >> (λ (o : Option (Activities × Option ℕ)). o) (some (s', none)))
                    top,
            (room, tt),
            Updated-cons one_more s s' a [] tt (refl, λ b. refl),
          )
    ]
reserve_folio-Reserved (suc fuel) s a (y ∷ ys) enough (p, ne, path) =
    let v = one_more (s.activity a) in
    let above =
      reserve_folio-Reserved fuel (with_activity s a v) y ys (omega arith)
        (IsPath-with_activity s a y v ys ne path) in
    elim (Bool-cases (full (s.activity a))) [
      | inl f ↦ inr (s, a, stop_at fuel s a f, Stopped-here s a (y ∷ ys) f)
      | inr room ↦ elim above [
        | inl (s', ran, rooms, u) ↦ inl (
          s',
          one_round fuel s a (some y) room p ∙ ran,
          (room, rooms_before s a v (y ∷ ys) ne rooms),
          Updated-cons one_more s s' a (y ∷ ys) ne u,
        )
        | inr (s', c, ran, stopped) ↦ inr (
          s',
          c,
          one_round fuel s a (some y) room p ∙ ran,
          Stopped-above s a y ys c s' p ne stopped,
        )
      ]
    ]
