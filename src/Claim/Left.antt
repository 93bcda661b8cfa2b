-- ===== src/Claim/Left.antt =====
-- What holds after a descriptor has left the lists of its activity.
use viengoos.Activity.Charge.{Counted, count_if}
use viengoos.Activity.Path.{mem}
use viengoos.Activity.{Activities}
use viengoos.Claim.Accounts.{Accounts, Counted-Accounts, below-ge, owned, pending}
use viengoos.Claim.Laundry.{Holds}
use viengoos.Claim.Places.{Keeps, Loose}
use viengoos.Claim.{Desc, Frames}
use viengoos.Common.{
  ℕ, suc, ◌+◌, ◌^◌, ◌≤◌, ◌<◌, ◌≡◌, ◌≢◌, refl, arith, Bool, true, false, List, [], ◌∷◌, All, ◌==◌,
}

-- There is room for one more frame in the counts.
abbrev pub Room : Activities → Type 0
Room s =
    (b : ℕ)
    → ((s.activity b).frames_local + 1 < 2 ^ 32) × ((s.activity b).frames_total + 1 < 2 ^ 32)

-- So there is, and the counts of frames pending eviction fit their words.
abbrev pub Small : Activities → Type 0
Small s =
    (b : ℕ)
    → ((s.activity b).frames_local + 1 < 2 ^ 32)
      × ((s.activity b).frames_total + 1 < 2 ^ 32)
      × ((s.activity b).frames_pending_eviction < 2 ^ 32)

-- The descriptor is off its lists; `e` frames of the activity `a` are counted that are on no list.
pub record Left (n : ℕ) (ups : ℕ → List ℕ) (d : ℕ) (x : Desc) (a e : ℕ) (w w' : Frames)
    : Type 0 where
  pub accounts : Accounts n ups (λ b. owned w' b + count_if (a == b) e) (pending w') w'.activities
  pub local :
      (b : ℕ) → (w'.activities.activity b).frames_local ≤ (w.activities.activity b).frames_local
  pub total :
      (b : ℕ) → (w'.activities.activity b).frames_total ≤ (w.activities.activity b).frames_total
  pub keeps : Keeps d w w'
  pub loose : Loose w' d x
  pub same : w'.desc ≡ w.desc

pub All_of : (P : ℕ → Type 0) (xs : List ℕ) → ((b : ℕ) → mem b xs ≡ true → P b) → All P xs
All_of P [] h = tt
All_of P (x ∷ xs) h = (h x (ground arith), All_of P xs (λ b i. h b (ground (arith, i))))

-- The counts after the write of a list of `a`, and the change of the counts that goes with it.
pub settled :
    (n : ℕ) (ups : ℕ → List ℕ) (w w' : Frames) (d : ℕ) (x : Desc) (a e down less : ℕ)
    → a < n
    → Accounts n ups (owned w) (pending w) w.activities
    → Counted a (ups a) 0 down less w.activities w'.activities
    → ((b : ℕ) → b ≢ a → owned w b ≡ owned w' b)
    → owned w' a + e + down ≡ owned w a
    → ((b : ℕ) → b ≢ a → pending w b ≡ pending w' b)
    → pending w' a + less ≡ pending w a
    → Keeps d w w'
    → Loose w' d x
    → w'.desc ≡ w.desc
    → Left n ups d x a e w w'
settled n ups w w' d x a e down less h acc c others here others' here' keeps loose same = record {
  accounts =
      Counted-Accounts n ups (owned w) (pending w) (λ b. owned w' b + count_if (a == b) e)
        (pending w') w.activities w'.activities a 0 down less h acc c
        (λ b ne. ground (arith, others b ne)) (ground (arith, here)) others' here';
  local = λ b. omega (arith, c.local b, none_up (a == b));
  total = λ b. omega (arith, c.total b, none_up (mem b (a ∷ ups a)));
  keeps = keeps;
  loose = loose;
  same = same;
}
  where
    none_up : (c : Bool) → count_if c 0 ≡ 0
    none_up true = refl
    none_up false = refl

pub suc_pos : (m k : ℕ) → m ≡ suc k → 1 ≤ m
suc_pos m k e = omega (arith, e)

pub pending_le : (w : Frames) (a : ℕ) → pending w a ≤ owned w a
unfolding pending owned
pending_le w a = omega arith

-- Where a frame of `a` is pending eviction, the activities above count it.
pub holds :
    (n : ℕ) (ups : ℕ → List ℕ) (w : Frames) (a : ℕ)
    → a < n
    → Accounts n ups (owned w) (pending w) w.activities
    → Small w.activities
    → 1 ≤ pending w a
    → All (λ b. Holds (w.activities.activity b)) (a ∷ ups a)
holds n ups w a h acc small one =
    All_of (λ b. Holds (w.activities.activity b)) (a ∷ ups a)
      (λ b i.
        let t = below-ge n ups (owned w) a b h i in
        let p = below-ge n ups (pending w) a b h i in
        (
          (omega (arith, t, acc.total b, pending_le w a, one), omega (arith, (small b).1)),
          (omega (arith, p, acc.pend b, one), (small b).2),
        ))
