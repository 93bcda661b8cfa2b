-- ===== src/Claim/Accounts.antt =====
-- The counts of the activities agree with the frames that they own.
use viengoos.Activity.Charge.{count_if, Counted}
use viengoos.Activity.Path.{all_of, IsPath, IsPath-same, mem}
use viengoos.Activity.{Activities}
use viengoos.Claim.Sum.{sum_below, sum_below-change, sum_below-ge}
use viengoos.Claim.{Frames}
use viengoos.Common.{
  ℕ, ◌+◌, ◌≤◌, ◌<◌, ◌≡◌, ◌≢◌, inl, inr, refl, sym, ap, subst, arith, Bool, true, false, List, ◌∷◌,
  length, Bool-cases, ℕ_discrete,
}

-- VG_OBJECT_PRIORITY_LEVELS
abbrev pub levels : ℕ
levels = 128

-- The frames on the lists of the activity that count: `active`, `inactive` and `eviction_dirty`.
unfoldable pub owned : Frames → ℕ → ℕ
owned w a =
    sum_below (λ p. length (w.active a p) + length (w.inactive a p)) levels
    + length (w.eviction_dirty a)

unfoldable pub pending : Frames → ℕ → ℕ
pending w a = length (w.eviction_dirty a)

-- The sum of a count over an activity and those below it, of `n` activities.
unfoldable pub below : ℕ → (ℕ → List ℕ) → (ℕ → ℕ) → ℕ → ℕ
below n ups f b = sum_below (λ c. count_if (mem b (c ∷ ups c)) (f c)) n

-- The counts of `n` activities, with the ancestors `ups`, are those of the frames that they own and
-- of the frames that are pending eviction.
pub record Accounts (n : ℕ) (ups : ℕ → List ℕ) (own held : ℕ → ℕ) (s : Activities) : Type 0 where
  pub paths : (a : ℕ) → a < n → IsPath s a (ups a)
  pub local : (b : ℕ) → (s.activity b).frames_local ≡ own b
  pub total : (b : ℕ) → (s.activity b).frames_total ≡ below n ups own b
  pub pend : (b : ℕ) → (s.activity b).frames_pending_eviction ≡ below n ups held b

below-change :
    (n : ℕ) (ups : ℕ → List ℕ) (f g : ℕ → ℕ) (a up down : ℕ)
    → a < n
    → ((b : ℕ) → b ≢ a → f b ≡ g b)
    → g a + down ≡ f a + up
    → (b : ℕ)
    → below n ups g b + count_if (mem b (a ∷ ups a)) down
      ≡ below n ups f b + count_if (mem b (a ∷ ups a)) up
unfolding below
below-change n ups f g a up down less same one b = elim (Bool-cases (mem b (a ∷ ups a))) [
  | inl i ↦
      sum_below-change (λ c. count_if (mem b (c ∷ ups c)) (f c))
        (λ c. count_if (mem b (c ∷ ups c)) (g c)) n a (count_if (mem b (a ∷ ups a)) up)
        (count_if (mem b (a ∷ ups a)) down) less
        (λ c ne. ap (count_if (mem b (c ∷ ups c))) (same c ne)) (rw i one)
  | inr o ↦
      sum_below-change (λ c. count_if (mem b (c ∷ ups c)) (f c))
        (λ c. count_if (mem b (c ∷ ups c)) (g c)) n a (count_if (mem b (a ∷ ups a)) up)
        (count_if (mem b (a ∷ ups a)) down) less
        (λ c ne. ap (count_if (mem b (c ∷ ups c))) (same c ne)) (rw o refl)
]

count_if-zero : (c : Bool) → count_if c 0 ≡ 0
count_if-zero true = refl
count_if-zero false = refl

-- A change of the counts follows a change of what one activity owns.
pub Counted-Accounts :
    (n : ℕ) (ups : ℕ → List ℕ) (own held own' held' : ℕ → ℕ) (s s' : Activities)
    (a up down less : ℕ)
    → a < n
    → Accounts n ups own held s
    → Counted a (ups a) up down less s s'
    → ((b : ℕ) → b ≢ a → own b ≡ own' b)
    → own' a + down ≡ own a + up
    → ((b : ℕ) → b ≢ a → held b ≡ held' b)
    → held' a + less ≡ held a
    → Accounts n ups own' held' s'
Counted-Accounts n ups own held own' held' s s' a up down less h acc c same one same' one' =
    record {
      paths = λ x i.
          IsPath-same s s' x (ups x) c.root
            (all_of (λ b. (s'.activity b).parent ≡ (s.activity b).parent) (x ∷ ups x) c.parent)
            (acc.paths x i);
      local = λ b. elim (ℕ_discrete a b) [
        | yes e ↦
            subst (λ b. (s'.activity b).frames_local ≡ own' b) e
              (ground (arith, c.local a, acc.local a, one))
        | no ne ↦ ground (arith, c.local b, acc.local b, same b (λ e. ne (sym e)))
      ];
      total = λ b.
          omega (arith, c.total b, acc.total b, below-change n ups own own' a up down h same one b);
      pend = λ b. omega (
        arith,
        c.pending b,
        acc.pend b,
        below-change n ups held held' a 0 less h same' (omega (arith, one')) b,
        count_if-zero (mem b (a ∷ ups a)),
      );
    }

-- A frame that is owned counts for all activities above.
pub below-ge :
    (n : ℕ) (ups : ℕ → List ℕ) (f : ℕ → ℕ) (a b : ℕ)
    → a < n
    → mem b (a ∷ ups a) ≡ true
    → f a ≤ below n ups f b
unfolding below
below-ge n ups f a b h i =
    subst (λ k. k ≤ sum_below (λ c. count_if (mem b (c ∷ ups c)) (f c)) n) (rw i refl)
      (sum_below-ge (λ c. count_if (mem b (c ∷ ups c)) (f c)) n a h)
