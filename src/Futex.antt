-- ===== src/Futex.antt =====
-- The waking and requeuing of futex waiters: the helper `wake` of viengoos/server.c (VG_futex).
-- `count` and `to_wake` are not negative; `to_requeue`, of which one is taken also at 0, is the 32
-- bits of an int. The reply to a messenger is a parameter: its stub is generated code, and to deliver
-- it may put the messenger on another queue, for another reason. The messengers that were replied to are listed.
pub mod Plan
pub mod Steps
pub mod Turn
pub mod Round
pub mod Wake
pub mod Call
pub mod Wait
pub mod Op
pub mod Standing
pub mod Asked
pub mod Both
mod Tests
use viengoos.Common.{
  ℕ, zero, suc, ◌+◌, ◌-◌, ◌%◌, ◌^◌, Bool, true, false, ◌&&◌, Option, none, some, List, [], ◌∷◌,
  ◌++◌, ltb, ◌==◌, ◌>>=◌, if◌then◌else◌,
}
use viengoos.WaitQueue.{World, queue_head, queue_next, unlink, enqueue}

-- The messengers, with their wait_reason and wait_reason_arg.
pub record Waiters : Type 0 where
  pub world : World
  pub waits_for_futex : ℕ → Bool
  pub wait_reason_arg : ℕ → ℕ

-- What vg_futex_reply to a messenger makes of the waiting messengers; `none` is an error, on which the
-- kernel panics.
abbrev pub Reply : Type 0
Reply = Waiters → ℕ → Option Waiters

-- The arguments of `wake` that do not change.
pub record Request : Type 0 where
  pub to_wake : ℕ
  pub object1 : ℕ
  pub offset1 : ℕ
  pub object2 : ℕ
  pub offset2 : ℕ

-- The state of the loop.
pub record Progress : Type 0 where
  pub waiters : Waiters
  pub count : ℕ
  pub to_requeue : ℕ
  pub woken : List ℕ

-- m->wait_reason == MESSENGER_WAIT_FUTEX && m->wait_reason_arg == offset1
unfoldable pub matches : Waiters → ℕ → ℕ → Bool
matches s offset1 m = s.waits_for_futex m && s.wait_reason_arg m == offset1

-- The messenger is unlinked and its futex call is answered.
unfoldable pub wake_one : Reply → Progress → ℕ → Option Progress
wake_one reply p m = unlink p.waiters.world m >>= λ w.
    reply (record p.waiters { world = w }) m >>= λ s.
    some (record p { waiters = s; count = p.count + 1; woken = p.woken ++ m ∷ [] })

-- The messenger is moved to the second object.
unfoldable pub requeue_one : Request → Progress → ℕ → Option Progress
requeue_one r p m = unlink p.waiters.world m >>= λ w. enqueue w r.object2 m >>= λ w'.
    some (record p {
      waiters = record p.waiters {
        world = w';
        wait_reason_arg = λ x. if m == x then r.offset2 else p.waiters.wait_reason_arg x;
      };
      count = p.count + 1;
      to_requeue = (p.to_requeue + 2 ^ 32 - 1) % 2 ^ 32;
    })

-- The loop over the queue; the next messenger is looked up before anything is done with this one.
unfoldable pub wake_loop : Reply → ℕ → Request → Progress → Option ℕ → Option Progress
wake_loop reply zero r p m = none
wake_loop reply (suc fuel) r p none = some p
wake_loop reply (suc fuel) r p (some m) = queue_next p.waiters.world m >>= λ next.
    let skip = wake_loop reply fuel r p next in
    let woken = wake_one reply p m >>= λ q.
    let rest = wake_loop reply fuel r q next in
    if q.count == r.to_wake && q.to_requeue == 0 then some q else rest in
    let requeued = requeue_one r p m >>= λ q.
    let rest = wake_loop reply fuel r q next in if q.to_requeue == 0 then some q else rest in
    if matches p.waiters r.offset1 m
    then (if ltb p.count r.to_wake then woken else requeued)
    else skip

-- wake
unfoldable pub wake : Reply → ℕ → Request → Waiters → ℕ → Option Progress
wake reply fuel r s to_requeue =
    queue_head s.world r.object1
    >>= wake_loop reply fuel r
        (record { waiters = s; count = 0; to_requeue = to_requeue; woken = [] })
