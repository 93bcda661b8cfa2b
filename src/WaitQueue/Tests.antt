-- ===== src/WaitQueue/Tests.antt =====
-- Messengers 10, 11 and 12 and the objects 1 and 2.
use viengoos.Common.{
  ℕ, ◌≡◌, refl, arith, Bool, true, false, none, some, [], ◌∷◌, ◌++◌, ◌==◌, leb, ◌&&◌, if◌then◌else◌,
  ◌>>=◌,
}
use viengoos.WaitQueue.Chain.{IsQueue}
use viengoos.WaitQueue.Enqueue.{Changed, IsFree, push_cases, enqueue_cases}
use viengoos.WaitQueue.Unlink.{Unlinked, unlink_cases}
use viengoos.WaitQueue.Links.{links_clear, unlink-links_clear}
use viengoos.WaitQueue.{
  Waiter, World, store, set_wait_queue_p, set_wait_queue, start_queue, queue_head, tail_from,
  queue_tail, queue_next, push_before, push, enqueue_after, enqueue, unlink_only, unlink_last,
  unlink_first, unlink_middle, unlink_tail, unlink_inner, unlink,
}

abbrev new_messenger : Waiter
new_messenger = record {
  wait_queue_p = false;
  wait_queue_head = false;
  wait_queue_tail = false;
  next = 0;
  prev = 0;
}

abbrev start : World
start = record {
  messenger = λ m. if leb 10 m && leb m 12 then some new_messenger else none;
  found = λ o. true;
  wait_queue_p = λ o. false;
  wait_queue = λ o. 0;
}

is_free : IsFree start 10
is_free = record { fields = new_messenger; exists = refl; free = refl }

-- 12 in front of 10 and 11; the middle one is taken out, then the last one.
a_run :
    (enqueue start 1 10 >>= λ a. enqueue a 1 11 >>= λ b.
    push b 1 12 >>= λ c. unlink c 10 >>= λ d. unlink d 11 >>= λ e. queue_tail e 1)
    ≡ some (some 12)
unfolding enqueue enqueue_after start_queue store set_wait_queue set_wait_queue_p push push_before
    queue_head tail_from queue_tail queue_next unlink unlink_tail unlink_only unlink_last
    unlink_inner unlink_first unlink_middle
a_run = refl

push_cases_example : (w' : World) × (push start 1 10 ≡ some w') × Changed start w' 1 (10 ∷ [])
push_cases_example = push_cases start 1 10 [] is_free refl refl

enqueue_cases_example :
    (w' : World) × (enqueue start 1 10 ≡ some w') × Changed start w' 1 ([] ++ 10 ∷ [])
enqueue_cases_example = enqueue_cases start 1 10 [] is_free refl refl

waiter : Bool → Bool → ℕ → ℕ → Waiter
waiter head tail next prev = record {
  wait_queue_p = true;
  wait_queue_head = head;
  wait_queue_tail = tail;
  next = next;
  prev = prev;
}

-- 10, 11 and 12 wait on the object 1.
abbrev three : World
three = record start {
  messenger = λ m.
      if m == 10
      then some (waiter true false 11 12)
      else if m == 11
      then some (waiter false false 12 10)
      else if m == 12
      then some (waiter false true 1 11)
      else none;
  wait_queue_p = λ o. o == 1;
  wait_queue = λ o. 10;
}

three_wait : IsQueue three 1 (10 ∷ 11 ∷ 12 ∷ [])
unfolding waiter
three_wait = (
  refl,
  refl,
  refl,
  ((omega arith, (omega arith, tt)), ((omega arith, tt), (tt, tt))),
  (refl, (refl, (refl, tt))),
)

unlink_cases_example : Unlinked three 11 1 (10 ∷ 12 ∷ [])
unlink_cases_example = unlink_cases three 1 11 (10 ∷ []) (12 ∷ []) three_wait

unlink-links_clear_example :
    (w' : World) × (v : Waiter) × (unlink three 11 ≡ some w')
    × (w'.messenger 11 ≡ some v)
    × (links_clear v ≡ false)
unlink-links_clear_example =
    unlink-links_clear three 1 11 (10 ∷ []) (12 ∷ []) three_wait (omega arith) (omega arith, tt)
