-- ===== src/Futex/Turn.antt =====
-- One messenger is woken, or moved to the second object.
use viengoos.Common.{
  ℕ, ◌+◌, ◌-◌, ◌%◌, ◌^◌, ◌≡◌, ◌≢◌, refl, sym, ◌∙◌, some, List, [], ◌∷◌, ◌++◌, All, ◌==◌,
  if◌then◌else◌,
}
use viengoos.Futex.Standing.{SameWait, Standing, SameWait-moved}
use viengoos.Futex.Steps.{Stage}
use viengoos.Futex.{Waiters, Reply, Request, Progress, wake_one, requeue_one}
use viengoos.WaitQueue.Chain.{IsQueue}
use viengoos.WaitQueue.Enqueue.{IsFree, enqueue_cases}
use viengoos.WaitQueue.Others.{apart_free}
use viengoos.WaitQueue.Unlink.{Left-IsFree, unlink_cases}

-- A reply to a messenger that is on no queue succeeds, and the queues of the `quiet` objects stand; it
-- may put the messenger on the queue of another object, for another reason.
pub record Replies (reply : Reply) (quiet : ℕ → Type 0) : Type 0 where
  pub answers :
      (s : Waiters) (m : ℕ)
      → IsFree s.world m
      → (s' : Waiters) × (reply s m ≡ some s')
        × ((o : ℕ) → s'.world.found o ≡ s.world.found o)
        × ((o : ℕ) (os : List ℕ) → quiet o → IsQueue s.world o os → Standing s s' o os)

-- A messenger was woken.
pub record Waked (quiet : ℕ → Type 0) (two : Type 0) (r : Request) (p q : Progress) (m : ℕ)
    (ks ms qs : List ℕ) : Type 0 where
  pub stage : Stage two r q ks ms qs
  pub same : All (SameWait p.waiters q.waiters) (ks ++ ms)
  pub woken : q.woken ≡ p.woken ++ m ∷ []
  pub count : q.count ≡ p.count + 1
  pub to_requeue : q.to_requeue ≡ p.to_requeue
  pub others :
      (o : ℕ) (os : List ℕ)
      → quiet o
      → r.object1 ≢ o
      → IsQueue p.waiters.world o os
      → Standing p.waiters q.waiters o os

pub wake_one-Waked :
    (reply : Reply) (quiet : ℕ → Type 0) (two : Type 0) (r : Request) (p : Progress) (m : ℕ)
    (ks ms qs : List ℕ)
    → Replies reply quiet
    → quiet r.object1
    → (two → quiet r.object2)
    → (two → r.object1 ≢ r.object2)
    → Stage two r p ks (m ∷ ms) qs
    → (q : Progress) × (wake_one reply p m ≡ some q) × Waked quiet two r p q m ks ms qs
unfolding wake_one
wake_one-Waked reply quiet two r p m ks ms qs replies quiet1 quiet2 ne s =
    let (w, done, changed, left) = unlink_cases p.waiters.world r.object1 m ks ms s.first in
    let (s', sent, found, kept) =
      replies.answers (record p.waiters { world = w }) m (Left-IsFree p.waiters.world w m left) in
    let first = kept r.object1 (ks ++ ms) quiet1 changed.queue in
    (
      record p { waiters = s'; count = p.count + 1; woken = p.woken ++ m ∷ [] },
      rw (done, sent) refl,
      record {
        stage = record {
          first = first.queue;
          second = λ u.
              (kept r.object2 qs (quiet2 u)
                (changed.others r.object2 qs (ne u) (s.second u))).queue;
          found = λ u. found r.object2 ∙ changed.found r.object2 ∙ s.found u;
        };
        same = first.reasons;
        woken = refl;
        count = refl;
        to_requeue = refl;
        others = λ o os h n q.
            let k = kept o os h (changed.others o os n q) in
            record { queue = k.queue; reasons = k.reasons };
      },
    )

-- A messenger was moved.
pub record Moved (two : Type 0) (r : Request) (p q : Progress) (m : ℕ) (ks ms qs : List ℕ)
    : Type 0 where
  pub stage : Stage two r q ks ms (qs ++ m ∷ [])
  pub same : All (SameWait p.waiters q.waiters) (ks ++ ms)
  pub woken : q.woken ≡ p.woken
  pub count : q.count ≡ p.count + 1
  pub to_requeue : q.to_requeue ≡ (p.to_requeue + 2 ^ 32 - 1) % 2 ^ 32
  pub others :
      (o : ℕ) (os : List ℕ)
      → r.object1 ≢ o
      → r.object2 ≢ o
      → IsQueue p.waiters.world o os
      → Standing p.waiters q.waiters o os

pub requeue_one-Moved :
    (two : Type 0) (r : Request) (p : Progress) (m : ℕ) (ks ms qs : List ℕ)
    → two
    → (two → r.object1 ≢ r.object2)
    → Stage two r p ks (m ∷ ms) qs
    → (q : Progress) × (requeue_one r p m ≡ some q) × Moved two r p q m ks ms qs
unfolding requeue_one
requeue_one-Moved two r p m ks ms qs u ne s =
    let (w, done, changed, left) = unlink_cases p.waiters.world r.object1 m ks ms s.first in
    let free = Left-IsFree p.waiters.world w m left in
    let (w', done', changed') =
      enqueue_cases w r.object2 m qs free (changed.found r.object2 ∙ s.found u)
        (changed.others r.object2 qs (ne u) (s.second u)) in
    (
      record p {
        waiters = record p.waiters {
          world = w';
          wait_reason_arg = λ x. if m == x then r.offset2 else p.waiters.wait_reason_arg x;
        };
        count = p.count + 1;
        to_requeue = (p.to_requeue + 2 ^ 32 - 1) % 2 ^ 32;
      },
      rw (done, done') refl,
      record {
        stage = record {
          first = changed'.others r.object1 (ks ++ ms) (λ e. ne u (sym e)) changed.queue;
          second = λ _. changed'.queue;
          found = λ _. changed'.found r.object2 ∙ changed.found r.object2 ∙ s.found u;
        };
        same =
            SameWait-moved p.waiters w' r.offset2 m (ks ++ ms)
              (apart_free w m free.fields r.object1 (ks ++ ms) free.exists free.free changed.queue);
        woken = refl;
        count = refl;
        to_requeue = refl;
        others = λ o os n1 n2 q.
            let k = changed.others o os n1 q in
            record {
              queue = changed'.others o os n2 k;
              reasons =
                  SameWait-moved p.waiters w' r.offset2 m os
                    (apart_free w m free.fields o os free.exists free.free k);
            };
      },
    )
