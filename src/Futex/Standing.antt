-- ===== src/Futex/Standing.antt =====
-- The queue of an object stands as it is, and its messengers wait for what they waited for.
use viengoos.Common.{
  ℕ, zero, suc, ◌≡◌, ◌≢◌, refl, ◌∙◌, arith, Bool, List, [], ◌∷◌, ◌++◌, All, ◌==◌, if◌then◌else◌,
  Bool-cases, inl, inr,
}
use viengoos.Futex.Plan.{without}
use viengoos.Futex.{Waiters}
use viengoos.WaitQueue.Chain.{IsQueue}
use viengoos.WaitQueue.{World}

-- The messenger waits for the same reason.
abbrev pub SameWait : Waiters → Waiters → ℕ → Type 0
SameWait s s' x =
    (s'.waits_for_futex x ≡ s.waits_for_futex x) × (s'.wait_reason_arg x ≡ s.wait_reason_arg x)

-- After `s'` the object has the queue, and each messenger of it waits for the reason that it had at `s`.
pub record Standing (s s' : Waiters) (o : ℕ) (os : List ℕ) : Type 0 where
  pub queue : IsQueue s'.world o os
  pub reasons : All (SameWait s s') os

pub SameWait_refl : (s : Waiters) (xs : List ℕ) → All (SameWait s s) xs
SameWait_refl s [] = tt
SameWait_refl s (x ∷ xs) = ((refl, refl), SameWait_refl s xs)

pub SameWait_trans :
    (s t u : Waiters) (xs : List ℕ)
    → All (SameWait s t) xs
    → All (SameWait t u) xs
    → All (SameWait s u) xs
SameWait_trans s t u [] h k = tt
SameWait_trans s t u (x ∷ xs) (h, hs) (k, ks) =
    ((k.0 ∙ h.0, k.1 ∙ h.1), SameWait_trans s t u xs hs ks)

pub Standing_still : (s : Waiters) (o : ℕ) (os : List ℕ) → IsQueue s.world o os → Standing s s o os
Standing_still s o os q = record { queue = q; reasons = SameWait_refl s os }

pub Standing_then :
    (s t u : Waiters) (o : ℕ) (os : List ℕ)
    → Standing s t o os
    → (IsQueue t.world o os → Standing t u o os)
    → Standing s u o os
Standing_then s t u o os h k = record {
  queue = (k h.queue).queue;
  reasons = SameWait_trans s t u os h.reasons (k h.queue).reasons;
}

pub suffix_all : (P : ℕ → Type 0) (ks ms : List ℕ) → All P (ks ++ ms) → All P ms
suffix_all P [] ms h = h
suffix_all P (k ∷ ks) ms (h, hs) = suffix_all P ks ms hs

all-without :
    (P : ℕ → Type 0) (f : ℕ → Bool) (n : ℕ) (ms : List ℕ) → All P ms → All P (without f n ms)
unfolding without
all-without P f n [] h = tt
all-without P f zero (m ∷ ms) h = h
all-without P f (suc n) (m ∷ ms) (h, hs) = elim (Bool-cases (f m)) [
  | inl e ↦ rw e (all-without P f n ms hs)
  | inr e ↦ rw e (h, all-without P f (suc n) ms hs)
]

pub all_append-without :
    (P : ℕ → Type 0) (f : ℕ → Bool) (n : ℕ) (ks ms : List ℕ)
    → All P (ks ++ ms)
    → All P (ks ++ without f n ms)
all_append-without P f n [] ms h = all-without P f n ms h
all_append-without P f n (k ∷ ks) ms (h, hs) = (h, all_append-without P f n ks ms hs)

-- Another messenger is moved, and waits at another offset.
pub SameWait-moved :
    (s : Waiters) (w : World) (offset m : ℕ) (xs : List ℕ)
    → All (λ x. m ≢ x) xs
    → All
        (SameWait s (record s {
          world = w;
          wait_reason_arg = λ y. if m == y then offset else s.wait_reason_arg y;
        }))
        xs
SameWait-moved s w offset m [] ne = tt
SameWait-moved s w offset m (x ∷ xs) (ne, nes) =
    ((refl, ground arith), SameWait-moved s w offset m xs nes)
