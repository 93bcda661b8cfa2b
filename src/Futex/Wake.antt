-- ===== src/Futex/Wake.antt =====
-- `wake` does what its plan says.
use viengoos.Common.{
  ℕ, zero, suc, ◌+◌, ◌-◌, ◌%◌, ◌^◌, ◌≤◌, ◌<◌, ◌≡◌, ◌≢◌, inl, inr, refl, ◌∙◌, arith, true, some,
  List, [], ◌∷◌, ◌++◌, length, Bool-cases,
}
use viengoos.Futex.Steps.{waits_at, Stage, Woke, Woke-end}
use viengoos.Futex.Turn.{Replies, wake_one-Waked, requeue_one-Moved}
use viengoos.Futex.Round.{Ends, past, after_wake, after_move}
use viengoos.Futex.{Waiters, Reply, Request, Progress, wake_loop, wake}
use viengoos.WaitQueue.Chain.{IsQueue}
use viengoos.WaitQueue.Ends.{queue_head-first}

wake_loop-Woke :
    (reply : Reply) (quiet : ℕ → Type 0) (two : Type 0) (fuel : ℕ) (r : Request) (p : Progress)
    (ks ms qs : List ℕ) (k moves : ℕ)
    → length ms < fuel
    → r.to_wake - p.count ≡ k
    → p.to_requeue ≡ moves % 2 ^ 32
    → moves ≤ 2 ^ 32
    → (0 < k → moves < 2 ^ 32)
    → (0 < k → Replies reply quiet)
    → (0 < k → quiet r.object1)
    → (two → quiet r.object2)
    → (0 < moves → two)
    → 0 < k + moves
    → (two → r.object1 ≢ r.object2)
    → Stage two r p ks ms qs
    → Ends reply quiet two fuel r p ks ms qs k moves
unfolding wake_loop
wake_loop-Woke reply quiet two zero r p ks ms qs k moves enough a b c d v q1 q2 t more ne s =
    elim enough [ ]
wake_loop-Woke reply quiet two (suc fuel) r p ks [] qs k moves enough a b c d v q1 q2 t more ne s =
    (p, refl, Woke-end quiet two r p ks qs k moves s)
wake_loop-Woke reply quiet two (suc fuel) r p ks (m ∷ ms) qs zero zero enough a b c d v q1 q2 t more
      ne s =
    absurd (omega arith)
wake_loop-Woke reply quiet two (suc fuel) r p ks (m ∷ ms) qs zero (suc moves) enough a b c d v q1 q2
      t more ne s =
    elim (Bool-cases (waits_at p.waiters r.offset1 m)) [
      | inr other ↦ past reply quiet two fuel r p m ks ms qs 0 (suc moves) s other more (
          wake_loop-Woke reply quiet two fuel r p (ks ++ m ∷ []) ms qs 0 (suc moves) (omega arith) a
            b c d v q1 q2 t more ne)
      | inl hit ↦
          let u = t (omega arith) in
          let (q, done, w) = requeue_one-Moved two r p m ks ms qs u ne s in
          let one_less : q.to_requeue ≡ moves = omega (arith, w.to_requeue) in
          after_move reply quiet two fuel r p q m ks ms qs moves s u hit done w (omega arith)
            one_less
            (λ left.
              wake_loop-Woke reply quiet two fuel r q ks ms (qs ++ m ∷ []) 0 moves (omega arith)
                (omega (arith, w.count)) (omega (arith, one_less)) (omega arith) (λ _. omega arith)
                (λ z. elim z [ ]) (λ z. elim z [ ]) q2 (λ _. u) (omega arith) ne w.stage)
    ]
wake_loop-Woke reply quiet two (suc fuel) r p ks (m ∷ ms) qs (suc k) moves enough a b c d v q1 q2 t
      more ne s =
    elim (Bool-cases (waits_at p.waiters r.offset1 m)) [
      | inr other ↦ past reply quiet two fuel r p m ks ms qs (suc k) moves s other more (
          wake_loop-Woke reply quiet two fuel r p (ks ++ m ∷ []) ms qs (suc k) moves (omega arith) a
            b c d v q1 q2 t more ne)
      | inl hit ↦
          let below = d (omega arith) in
          let (q, done, w) =
            wake_one-Waked reply quiet two r p m ks ms qs (v (omega arith)) (q1 (omega arith)) q2 ne
              s in
          after_wake reply quiet two fuel r p q m ks ms qs k moves s hit done w (omega arith)
            (omega arith)
            (λ left.
              wake_loop-Woke reply quiet two fuel r q ks ms qs k moves (omega arith)
                (omega (arith, w.count)) (w.to_requeue ∙ b) c (λ _. below) (λ _. v (omega arith))
                (λ _. q1 (omega arith)) q2 t left ne w.stage)
    ]

-- The loop's state at its start.
abbrev pub at_start : Waiters → ℕ → Progress
at_start s to_requeue = record { waiters = s; count = 0; to_requeue = to_requeue; woken = [] }

wake-loop :
    (reply : Reply) (quiet : ℕ → Type 0) (two : Type 0) (fuel : ℕ) (r : Request) (s : Waiters)
    (to_requeue : ℕ) (ms qs : List ℕ) (k moves : ℕ)
    → IsQueue s.world r.object1 ms
    → Ends reply quiet two fuel r (at_start s to_requeue) [] ms qs k moves
    → (p : Progress) × (wake reply fuel r s to_requeue ≡ some p)
      × Woke quiet two r (at_start s to_requeue) p [] ms qs k moves
unfolding wake
wake-loop reply quiet two fuel r s to_requeue ms qs k moves q (p, ran, l) =
    (p, rw (queue_head-first s.world r.object1 ms q) ran, l)

pub wake_cases :
    (reply : Reply) (quiet : ℕ → Type 0) (fuel : ℕ) (r : Request) (s : Waiters) (to_requeue : ℕ)
    (ms qs : List ℕ)
    → length ms < fuel
    → to_requeue < 2 ^ 32
    → 0 < r.to_wake + to_requeue
    → IsQueue s.world r.object1 ms
    → (0 < to_requeue → r.object1 ≢ r.object2)
    → (0 < to_requeue → s.world.found r.object2 ≡ true)
    → (0 < to_requeue → IsQueue s.world r.object2 qs)
    → Replies reply quiet
    → quiet r.object1
    → (0 < to_requeue → quiet r.object2)
    → (p : Progress) × (wake reply fuel r s to_requeue ≡ some p)
      × Woke quiet (0 < to_requeue) r (at_start s to_requeue) p [] ms qs r.to_wake to_requeue
wake_cases reply quiet fuel r s to_requeue ms qs enough small more q ne found q' v q1 q2 =
    wake-loop reply quiet (0 < to_requeue) fuel r s to_requeue ms qs r.to_wake to_requeue q (
      wake_loop-Woke reply quiet (0 < to_requeue) fuel r (at_start s to_requeue) [] ms qs r.to_wake
        to_requeue enough (omega arith) (omega arith) (omega arith) (λ _. small) (λ _. v) (λ _. q1)
        q2 (λ z. z) more ne (record { first = q; second = q'; found = found }))

-- wake with to_wake and to_requeue both 0, where ms wait on the first object and qs on the
-- second, which is another one that is found, moves to the end of qs the first 2^32 of the
-- messengers of ms that wait for the futex at the offset, and wakes none, whatever replies do.
pub wake-none_asked :
    (reply : Reply) (fuel : ℕ) (r : Request) (s : Waiters) (ms qs : List ℕ)
    → length ms < fuel
    → r.to_wake ≡ 0
    → IsQueue s.world r.object1 ms
    → r.object1 ≢ r.object2
    → s.world.found r.object2 ≡ true
    → IsQueue s.world r.object2 qs
    → (p : Progress) × (wake reply fuel r s 0 ≡ some p)
      × Woke (λ _. Unit) Unit r (at_start s 0) p [] ms qs 0 (2 ^ 32)
wake-none_asked reply fuel r s ms qs enough none_asked q ne found q' =
    wake-loop reply (λ _. Unit) Unit fuel r s 0 ms qs 0 (2 ^ 32) q
      (wake_loop-Woke reply (λ _. Unit) Unit fuel r (at_start s 0) [] ms qs 0 (2 ^ 32) enough
        (omega arith) (omega arith) (omega arith) (λ z. elim z [ ]) (λ z. elim z [ ]) (λ _. tt)
        (λ _. tt) (λ _. tt) (omega arith) (λ _. ne)
        (record { first = q; second = λ _. q'; found = λ _. found }))
