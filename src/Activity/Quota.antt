-- ===== src/Activity/Quota.antt =====
-- The quota of folios: folio_alloc counts a folio for an activity and all its ancestors, or for none.
use viengoos.Activity.Path.{
  IsPath, IsPath-same, Updated, mem, for_each_ancestor-Updated, all_of, all_pass, mem-All,
}
use viengoos.Activity.Segment.{IsSegment-same, give_back-Updated}
use viengoos.Activity.Reserve.{reserve_folio-Reserved}
use viengoos.Activity.{
  Activity, Activities, full, one_more, one_less, give_back, charged, folio_quota, folio_release,
  no_test,
}
use viengoos.Common.{
  ℕ, ◌+◌, ◌-◌, ◌%◌, ◌^◌, ◌≤◌, ◌<◌, ◌≡◌, ◌≢◌, inl, inr, refl, sym, ap, ◌∙◌, subst, arith, Bool, true,
  false, Option, none, some, List, ◌∷◌, All, length, leb, ◌>>=◌, Bool-cases, if_true, if_false, ◌⊎◌,
  if◌then◌else◌, [],
}

-- A count goes up and down again.
one_less-one_more : (v : Activity) → v.folio_count < 2 ^ 32 → one_less (one_more v) ≡ v
unfolding one_less one_more
one_less-one_more v h =
    let e : ((v.folio_count + 1) % 2 ^ 32 + 2 ^ 32 - 1) % 2 ^ 32 ≡ v.folio_count =
      omega (arith, h) in
    ap (λ k. record v { folio_count = k }) e

undone :
    (xs : List ℕ) (s s' s'' : Activities)
    → ((b : ℕ) → (s.activity b).folio_count < 2 ^ 32)
    → Updated one_more xs s s'
    → Updated one_less xs s' s''
    → (s''.root ≡ s.root) × ((b : ℕ) → s''.activity b ≡ s.activity b)
undone xs s s' s'' small (r, up) (q, down) = (q ∙ r, λ b. each b)
  where
    each : (b : ℕ) → s''.activity b ≡ s.activity b
    each b = elim (Bool-cases (mem b xs)) [
      | inl i ↦
          down b
          ∙ if_true (mem b xs) (one_less (s'.activity b)) (s'.activity b) i
          ∙ ap one_less (up b ∙ if_true (mem b xs) (one_more (s.activity b)) (s.activity b) i)
          ∙ one_less-one_more (s.activity b) (small b)
      | inr o ↦
          down b
          ∙ if_false (mem b xs) (one_less (s'.activity b)) (s'.activity b) o
          ∙ up b
          ∙ if_false (mem b xs) (one_more (s.activity b)) (s.activity b) o
    ]

more_parents :
    (xs : List ℕ) (s s' : Activities)
    → Updated one_more xs s s'
    → (b : ℕ) → (s'.activity b).parent ≡ (s.activity b).parent
unfolding one_more
more_parents xs s s' (r, u) b = ap (λ v. v.parent) (u b) ∙ elim (Bool-cases (mem b xs)) [
  | inl i ↦ ap (λ v. v.parent) (if_true (mem b xs) (one_more (s.activity b)) (s.activity b) i)
  | inr o ↦ ap (λ v. v.parent) (if_false (mem b xs) (one_more (s.activity b)) (s.activity b) o)
]

-- What the two loops leave.
abbrev QuotaRun : Activities → ℕ → List ℕ → Activities → Bool → Type 0
QuotaRun s a ups s' true =
    All (λ b. full (s.activity b) ≡ false) (a ∷ ups) × Updated one_more (a ∷ ups) s s'
QuotaRun s a ups s' false =
    ((c : ℕ) × (mem c (a ∷ ups) ≡ true) × (full (s.activity c) ≡ true))
    × (s'.root ≡ s.root)
    × ((b : ℕ) → s'.activity b ≡ s.activity b)

folio_quota-QuotaRun :
    (fuel : ℕ) (s : Activities) (a : ℕ) (ups : List ℕ)
    → length ups < fuel
    → IsPath s a ups
    → ((b : ℕ) → (s.activity b).folio_count < 2 ^ 32)
    → (s' : Activities) × (allowed : Bool) × (folio_quota fuel s a ≡ some (s', allowed))
      × QuotaRun s a ups s' allowed
unfolding folio_quota charged
folio_quota-QuotaRun fuel s a ups enough path small =
    elim (reserve_folio-Reserved fuel s a ups enough path) [
      | inl (s', ran, rooms, u) ↦
          (s', true, ap (λ o. o >>= λ r. charged fuel a r.0 r.1) ran, (rooms, u))
      | inr (s', c, ran, st) ↦
          let (s'', back, u) =
            give_back-Updated fuel s' st.passed c (omega (arith, st.shorter, enough)) (
              IsSegment-same s s' st.passed c (more_parents st.passed s s' st.counted)
                st.segment) in
          (
            s'',
            false,
            ap (λ o. o >>= λ r. charged fuel a r.0 r.1) ran
                ∙ ap (λ b. give_back fuel s' c b >>= λ s'. some (s', false)) (sym st.first)
                ∙ ap (λ o. o >>= λ s'. some (s', false)) back,
            (
              (c, st.on_path, st.is_full),
              (undone st.passed s s' s'' small st.counted u).0,
              (undone st.passed s s' s'' small st.counted u).1,
            ),
          )
    ]

-- The quota of the activity leaves no room for a folio; 0 is no quota.
abbrev pub IsFull : Activity → Type 0
IsFull v = (v.quota ≢ 0) × (v.quota ≤ v.folio_count)

abbrev pub HasRoom : Activity → Type 0
HasRoom v = (v.quota ≡ 0) ⊎ (v.folio_count < v.quota)

-- The activities of the path had room and have one folio more, or one had none and the activities
-- are as before.
abbrev pub QuotaHeld : Activities → ℕ → List ℕ → Activities → Bool → Type 0
QuotaHeld s a ups s' true =
    All (λ b. HasRoom (s.activity b)) (a ∷ ups)
    × (s'.root ≡ s.root)
    × ((b : ℕ)
        → s'.activity b ≡ (
            if mem b (a ∷ ups)
            then record (s.activity b) { folio_count = ((s.activity b).folio_count + 1) % 2 ^ 32 }
            else s.activity b))
QuotaHeld s a ups s' false =
    ((c : ℕ) × (mem c (a ∷ ups) ≡ true) × IsFull (s.activity c))
    × (s'.root ≡ s.root)
    × ((b : ℕ) → s'.activity b ≡ s.activity b)

full-IsFull : (v : Activity) → full v ≡ true → IsFull v
unfolding full
full-IsFull v e = ground (arith, e)

full-HasRoom : (v : Activity) → full v ≡ false → HasRoom v
unfolding full
full-HasRoom v e = ground (arith, e)

all-HasRoom :
    (s : Activities) (xs : List ℕ)
    → All (λ b. full (s.activity b) ≡ false) xs
    → All (λ b. HasRoom (s.activity b)) xs
all-HasRoom s [] h = tt
all-HasRoom s (x ∷ xs) (h, hs) = (full-HasRoom (s.activity x) h, all-HasRoom s xs hs)

QuotaRun-QuotaHeld :
    (s : Activities) (a : ℕ) (ups : List ℕ) (s' : Activities) (allowed : Bool)
    → QuotaRun s a ups s' allowed
    → QuotaHeld s a ups s' allowed
unfolding one_more
QuotaRun-QuotaHeld s a ups s' true (rooms, (root, more)) =
    (all-HasRoom s (a ∷ ups) rooms, root, more)
QuotaRun-QuotaHeld s a ups s' false ((c, on, f), root, same) =
    ((c, on, full-IsFull (s.activity c) f), root, same)

-- For an activity with its ancestors up to the root, and folio counts that fit their words, the
-- accounting of folio_alloc ends without a failed assert. Either it allows the folio, where the
-- activity and each ancestor have the quota 0 or a folio_count below their quota, and raises the
-- folio_count of each of these by one and changes nothing else; or it refuses it, where one of
-- them has a quota other than 0 that its folio_count has reached, and leaves every activity as
-- it was.
pub folio_quota-QuotaHeld :
    (fuel : ℕ) (s : Activities) (a : ℕ) (ups : List ℕ)
    → length ups < fuel
    → IsPath s a ups
    → ((b : ℕ) → (s.activity b).folio_count < 2 ^ 32)
    → (s' : Activities) × (allowed : Bool) × (folio_quota fuel s a ≡ some (s', allowed))
      × QuotaHeld s a ups s' allowed
folio_quota-QuotaHeld fuel s a ups enough path small =
    let (s', allowed, ran, r) = folio_quota-QuotaRun fuel s a ups enough path small in
    (s', allowed, ran, QuotaRun-QuotaHeld s a ups s' allowed r)

abbrev is_allowed : Option (Activities × Bool) → Bool
is_allowed none = false
is_allowed (some r) = r.1

abbrev state_of : Activities → Option (Activities × Bool) → Activities
state_of s none = s
state_of s (some r) = r.0

-- For an activity with its ancestors up to the root, and folio counts that fit their words, the
-- accounting of folio_free after an allowed folio_alloc ends without a failed assert and leaves
-- every activity as it was before.
pub folio_release-folio_quota :
    (fuel : ℕ) (s s' : Activities) (a : ℕ) (ups : List ℕ)
    → length ups < fuel
    → IsPath s a ups
    → ((b : ℕ) → (s.activity b).folio_count < 2 ^ 32)
    → folio_quota fuel s a ≡ some (s', true)
    → (s'' : Activities) × (folio_release fuel s' a ≡ some s'')
      × (s''.root ≡ s.root)
      × ((b : ℕ) → s''.activity b ≡ s.activity b)
unfolding folio_release one_less
folio_release-folio_quota fuel s s' a ups enough path small e =
    let (t, allowed, ran, held) = folio_quota-QuotaRun fuel s a ups enough path small in
    given t allowed (sym ran ∙ e) held
  where
    given :
        (t : Activities) (allowed : Bool)
        → ◌≡◌ {A = Option (Activities × Bool)} (some (t, allowed)) (some (s', true))
        → QuotaRun s a ups t allowed
        → (s'' : Activities) × (folio_release fuel s' a ≡ some s'')
          × (s''.root ≡ s.root)
          × ((b : ℕ) → s''.activity b ≡ s.activity b)
    given t false q held = absurd (ground (arith, ap is_allowed q))
    given t true q held =
        let same : t ≡ s' = ap (state_of s) q in
        let u = subst (Updated one_more (a ∷ ups) s) same held.1 in
        let (s'', ran, d) =
          for_each_ancestor-Updated fuel no_test one_less s' a ups enough (λ v. refl)
            (IsPath-same s s' a ups u.0
              (all_of (λ b. (s'.activity b).parent ≡ (s.activity b).parent) (a ∷ ups)
                (more_parents (a ∷ ups) s s' u))
              path)
            (all_pass (a ∷ ups)) in
        let back = undone (a ∷ ups) s s' s'' small u d in (s'', ran, back.0, back.1)

-- No activity has more folios than its quota.
abbrev pub Within : Activities → Type 0
Within s = (b : ℕ) → (s.activity b).quota ≢ 0 → (s.activity b).folio_count ≤ (s.activity b).quota

abbrev WithinQuota : Activity → Type 0
WithinQuota v = v.quota ≢ 0 → v.folio_count ≤ v.quota

one_more-WithinQuota : (v : Activity) → v.quota < 2 ^ 32 → full v ≡ false → WithinQuota (one_more v)
unfolding one_more full
one_more-WithinQuota v small room ne =
    let below : leb v.quota v.folio_count ≡ false = ground arith in
    omega (arith, small, lt_of v.quota v.folio_count below)
  where
    lt_of : (q k : ℕ) → leb q k ≡ false → k < q
    lt_of q k e = ground (arith, e)

QuotaRun-Within :
    (s s' : Activities) (a : ℕ) (ups : List ℕ) (allowed : Bool)
    → ((b : ℕ) → (s.activity b).quota < 2 ^ 32)
    → QuotaRun s a ups s' allowed
    → Within s
    → Within s'
QuotaRun-Within s s' a ups false small held h b = subst WithinQuota (sym (held.2 b)) (h b)
QuotaRun-Within s s' a ups true small (rooms, u) h b = elim (Bool-cases (mem b (a ∷ ups))) [
  | inl i ↦
      subst WithinQuota
        (sym (u.1 b ∙ if_true (mem b (a ∷ ups)) (one_more (s.activity b)) (s.activity b) i))
        (one_more-WithinQuota (s.activity b) (small b)
          (mem-All (λ b. full (s.activity b) ≡ false) b (a ∷ ups) rooms i))
  | inr o ↦
      subst WithinQuota
        (sym (u.1 b ∙ if_false (mem b (a ∷ ups)) (one_more (s.activity b)) (s.activity b) o)) (h b)
]

-- For an activity with its ancestors up to the root, with folio counts and quotas that fit their
-- words, where no activity with a quota has more folios than it allows, this is so after the
-- accounting of folio_alloc too, which ends without a failed assert.
pub folio_quota-Within :
    (fuel : ℕ) (s : Activities) (a : ℕ) (ups : List ℕ)
    → length ups < fuel
    → IsPath s a ups
    → ((b : ℕ) → (s.activity b).folio_count < 2 ^ 32)
    → ((b : ℕ) → (s.activity b).quota < 2 ^ 32)
    → Within s
    → (s' : Activities) × (allowed : Bool) × (folio_quota fuel s a ≡ some (s', allowed)) × Within s'
folio_quota-Within fuel s a ups enough path small quota h =
    let (s', allowed, ran, held) = folio_quota-QuotaRun fuel s a ups enough path small in
    (s', allowed, ran, QuotaRun-Within s s' a ups allowed quota held h)
