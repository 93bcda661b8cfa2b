-- ===== src/Futex/Tests.antt =====
-- Messengers 10, 11 and 12 wait on the object 1, at offset 0; object 2 has no waiters.
use viengoos.Common.{
  ℕ, ◌^◌, ◌≡◌, refl, arith, Bool, true, false, none, some, [], ◌∷◌, ◌==◌, if◌then◌else◌, ◌>>=◌,
}
use viengoos.Futex.Op.{futex_op_or, futex_op_cmp_lt, operate, comparison, int_less}
use viengoos.Futex.Call.{
  futex_wait, futex_wake, futex_cmp_requeue, eagain, ewouldblock, einval, refused,
}
use viengoos.Futex.Steps.{Woke}
use viengoos.Futex.Wake.{at_start, wake-none_asked}
use viengoos.Futex.{
  Waiters, Reply, Request, Progress, matches, wake_one, requeue_one, wake_loop, wake,
}
use viengoos.WaitQueue.Chain.{IsQueue}
use viengoos.WaitQueue.{
  Waiter, store, set_wait_queue_p, set_wait_queue, start_queue, queue_head, tail_from, queue_tail,
  queue_next, enqueue_after, enqueue, unlink_only, unlink_last, unlink_first, unlink_middle,
  unlink_tail, unlink_inner, unlink,
}

abbrev waiter : Bool → Bool → ℕ → ℕ → Waiter
waiter head tail next prev = record {
  wait_queue_p = true;
  wait_queue_head = head;
  wait_queue_tail = tail;
  next = next;
  prev = prev;
}

abbrev start : Waiters
start = record {
  world = record {
    messenger = λ m.
        if m == 10
        then some (waiter true false 11 12)
        else if m == 11
        then some (waiter false false 12 10)
        else if m == 12
        then some (waiter false true 1 11)
        else none;
    found = λ o. true;
    wait_queue_p = λ o. o == 1;
    wait_queue = λ o. 10;
  };
  waits_for_futex = λ m. true;
  wait_reason_arg = λ m. 0;
}

three_wait : IsQueue start.world 1 (10 ∷ 11 ∷ 12 ∷ [])
three_wait = (
  refl,
  refl,
  refl,
  ((omega arith, (omega arith, tt)), ((omega arith, tt), (tt, tt))),
  (refl, (refl, (refl, tt))),
)

nobody_waits : IsQueue start.world 2 []
nobody_waits = refl

-- The reply is sent, and nothing else changes.
abbrev sent : Reply
sent s m = some s

abbrev AllQuiet : ℕ → Type 0
AllQuiet o = Unit

abbrev one_of_each : Request
one_of_each = record { to_wake = 1; object1 = 1; offset1 = 0; object2 = 2; offset2 = 4 }

abbrev nothing : Request
nothing = record { to_wake = 0; object1 = 1; offset1 = 0; object2 = 2; offset2 = 4 }

-- The first one is woken and the second one is moved.
a_run :
    (wake sent 4 one_of_each start 1 >>= λ p. queue_head p.waiters.world 1 >>= λ a.
    a >>= λ x. queue_head p.waiters.world 2 >>= λ b. b >>= λ y. some (x ∷ y ∷ p.count ∷ p.woken))
    ≡ some (12 ∷ 11 ∷ 2 ∷ 10 ∷ [])
unfolding wake wake_loop wake_one requeue_one matches enqueue enqueue_after start_queue store
    set_wait_queue set_wait_queue_p queue_head tail_from queue_tail queue_next unlink unlink_tail
    unlink_only unlink_last unlink_inner unlink_first unlink_middle
a_run = refl

wake-none_asked_example :
    (p : Progress) × (wake sent 4 nothing start 0 ≡ some p)
    × Woke (λ _. Unit) Unit nothing (at_start start 0) p [] (10 ∷ 11 ∷ 12 ∷ []) [] 0 (2 ^ 32)
wake-none_asked_example =
    wake-none_asked sent 4 nothing start (10 ∷ 11 ∷ 12 ∷ []) [] (omega arith) refl three_wait
      (omega arith) refl nobody_waits

-- 13 joins 10, 11 and 12.
abbrev with_13 : Waiters
with_13 = record start {
  world = record start.world {
    messenger = λ m.
        if m == 13
        then some (record {
          wait_queue_p = false;
          wait_queue_head = false;
          wait_queue_tail = false;
          next = 0;
          prev = 0;
        })
        else start.world.messenger m;
  };
}

another_value : futex_wait start 1 0 7 8 false 13 ≡ some (refused start ewouldblock)
unfolding futex_wait
another_value = refl

none_to_wake : futex_wake sent 5 start 1 0 0 ≡ some (refused start einval)
unfolding futex_wake
none_to_wake = refl

requeue_another_value : futex_cmp_requeue sent 5 start 1 0 7 1 1 2 4 8 ≡ some (refused start eagain)
unfolding futex_cmp_requeue
requeue_another_value = refl

-- 3 or 1 is 3, but the word is 4.
or_adds : operate futex_op_or 3 1 ≡ 4
unfolding operate
or_adds = refl

minus_one_less : comparison false futex_op_cmp_lt 4294967295 0 ≡ true
unfolding comparison int_less
minus_one_less = refl
