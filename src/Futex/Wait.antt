-- ===== src/Futex/Wait.antt =====
-- A messenger that waits for a futex is woken.
use viengoos.Common.{
  ℕ, ◌+◌, ◌^◌, ◌<◌, ◌≡◌, ◌≢◌, inl, inr, refl, ap, ◌∙◌, subst, arith, Bool, true, false, ◌||◌, some,
  List, [], ◌∷◌, ◌++◌, All, length, leb, ◌==◌, Bool-cases,
}
use viengoos.Futex.Call.{Called, counted, waits, with_reason, futex_wait, count_of, futex_wake}
use viengoos.Futex.Plan.{filter, take, without, filter-same, filter-hit}
use viengoos.Futex.Steps.{waits_at}
use viengoos.Futex.Turn.{Replies}
use viengoos.Futex.Wake.{wake_cases}
use viengoos.Futex.{Waiters, Reply, Request}
use viengoos.WaitQueue.Chain.{IsQueue}
use viengoos.WaitQueue.Enqueue.{IsFree, enqueue_cases}
use viengoos.WaitQueue.Others.{apart_free}
use viengoos.WaitQueue.{World}

-- The messengers of a queue that wait for the futex at the offset.
abbrev pub waiting : Waiters → ℕ → List ℕ → List ℕ
waiting s offset ms = filter (waits_at s offset) ms

filter-append : (f : ℕ → Bool) (xs ys : List ℕ) → filter f (xs ++ ys) ≡ filter f xs ++ filter f ys
unfolding filter
filter-append f [] ys = refl
filter-append f (x ∷ xs) ys = elim (Bool-cases (f x)) [
  | inl e ↦ rw e (ap (λ l. x ∷ l) (filter-append f xs ys))
  | inr e ↦ rw e (filter-append f xs ys)
]

-- The messenger's own reason does not change those of the others.
waits_at-with_reason :
    (s : Waiters) (w : World) (m offset : ℕ) (ms : List ℕ)
    → All (λ x. m ≢ x) ms
    → All
        (λ x.
          waits_at (record (with_reason s m offset) { world = w }) offset x ≡ waits_at s offset x)
        ms
unfolding waits_at with_reason
waits_at-with_reason s w m offset [] ne = tt
waits_at-with_reason s w m offset (x ∷ xs) (ne, nes) =
    (ground arith, waits_at-with_reason s w m offset xs nes)

waits_self :
    (s : Waiters) (w : World) (m offset : ℕ)
    → waits_at (record (with_reason s m offset) { world = w }) offset m ≡ true
unfolding waits_at with_reason
waits_self s w m offset = ground arith

-- The messenger waits last, for the futex.
pub record Waits (s : Waiters) (object offset : ℕ) (ms : List ℕ) (reply : ℕ) (c : Called)
    : Type 0 where
  pub queue : IsQueue c.waiters.world object (ms ++ reply ∷ [])
  pub waiting_last : waiting c.waiters offset (ms ++ reply ∷ []) ≡ waiting s offset ms ++ reply ∷ []
  pub waits_still : c.answer ≡ waits

pub futex_wait-Waits :
    (s : Waiters) (object offset word reply : ℕ) (ms : List ℕ)
    → IsFree s.world reply
    → s.world.found object ≡ true
    → IsQueue s.world object ms
    → (c : Called) × (futex_wait s object offset word word false reply ≡ some c)
      × Waits s object offset ms reply c
unfolding futex_wait with_reason filter
futex_wait-Waits s object offset word reply ms free found q =
    let (w, done, changed) = enqueue_cases s.world object reply ms free found q in
    let s' : Waiters = record (with_reason s reply offset) { world = w } in
    let same : (word == word) ≡ true = ground arith in
    let ne = apart_free s.world reply free.fields object ms free.exists free.free q in
    (
      record { waiters = s'; woken = []; answer = waits },
      rw (same, done) refl,
      record {
        queue = changed.queue;
        waiting_last =
            filter-append (waits_at s' offset) ms (reply ∷ [])
            ∙ ap (λ l. l ++ filter (waits_at s' offset) (reply ∷ []))
                (filter-same (waits_at s' offset) (waits_at s offset) ms
                  (waits_at-with_reason s w reply offset ms ne))
            ∙ ap (λ l. waiting s offset ms ++ l)
                (filter-hit (waits_at s' offset) reply [] (waits_self s w reply offset));
        waits_still = refl;
      },
    )

-- Of the messengers that wait for the futex, in their order, `n` are answered.
pub record Wakes (s : Waiters) (object offset : ℕ) (ms : List ℕ) (n : ℕ) (c : Called) : Type 0 where
  pub queue : IsQueue c.waiters.world object (without (waits_at s offset) n ms)
  pub first_ones : c.woken ≡ take n (waiting s offset ms)
  pub number : c.answer ≡ counted (length (take n (waiting s offset ms)))

pub futex_wake-Wakes :
    (send : Reply) (quiet : ℕ → Type 0) (fuel : ℕ) (s : Waiters) (object offset val1 : ℕ)
    (ms : List ℕ)
    → length ms < fuel
    → 0 < val1
    → val1 < 2 ^ 31
    → IsQueue s.world object ms
    → Replies send quiet
    → quiet object
    → (c : Called) × (futex_wake send fuel s object offset val1 ≡ some c)
      × Wakes s object offset ms val1 c
unfolding futex_wake count_of
futex_wake-Wakes send quiet fuel s object offset val1 ms enough positive small q v u =
    let request : Request = record {
      to_wake = val1;
      object1 = object;
      offset1 = offset;
      object2 = 0;
      offset2 = 0;
    } in
    let (p, ran, w) =
      wake_cases send quiet fuel request s 0 ms [] enough (omega arith) (omega arith) q
        (λ z. elim z [ ]) (λ z. elim z [ ]) (λ z. elim z [ ]) v u (λ z. elim z [ ]) in
    let valid : (val1 == 0 || leb (2 ^ 31) val1) ≡ false = ground arith in
    let all : val1 + 0 ≡ val1 = omega arith in
    let same = ap (λ n. length (take n (waiting s offset ms))) all in
    let count : p.count ≡ length (take val1 (waiting s offset ms)) = omega (arith, w.count, same) in
    (
      record { waiters = p.waiters; woken = p.woken; answer = counted p.count },
      rw (valid, ran) refl,
      record {
        queue =
            subst (λ n. IsQueue p.waiters.world object (without (waits_at s offset) n ms)) all
              w.first.queue;
        first_ones = w.woken;
        number = ap counted count;
      },
    )
