-- ===== src/Futex/Call.antt =====
-- The futex calls FUTEX_WAIT, FUTEX_WAKE and FUTEX_CMP_REQUEUE of viengoos/server.c, once their
-- message is read and their objects are found. `word` is the int at the first address; an int is its
-- 32 bits. A failed assert and a panic are `none`.
use viengoos.Common.{
  ℕ, ◌^◌, Bool, true, not, ◌||◌, Option, some, List, [], ltb, leb, ◌==◌, ◌>>=◌, ◌>>◌, assert,
  if◌then◌else◌,
}
use viengoos.Futex.{Waiters, Reply, Request, Progress, wake}
use viengoos.WaitQueue.{enqueue}

-- The answer to the caller; one that waits has none yet.
pub data Answer : Type 0 where
  waits : Answer
  einval : Answer
  ewouldblock : Answer
  eagain : Answer
  counted : ℕ → Answer

-- The waiters that a call leaves, those that it answered, and its own answer.
pub record Called : Type 0 where
  pub waiters : Waiters
  pub woken : List ℕ
  pub answer : Answer

abbrev pub refused : Waiters → Answer → Called
refused s a = record { waiters = s; woken = []; answer = a }

-- wait_reason and wait_reason_arg of the messenger that is to wait
unfoldable pub with_reason : Waiters → ℕ → ℕ → Waiters
with_reason s m offset = record s {
  waits_for_futex = λ x. if m == x then true else s.waits_for_futex x;
  wait_reason_arg = λ x. if m == x then offset else s.wait_reason_arg x;
}

-- FUTEX_WAIT
unfoldable pub futex_wait : Waiters → ℕ → ℕ → ℕ → ℕ → Bool → ℕ → Option Called
futex_wait s object1 offset1 word val1 timeout reply =
    let queued =
      assert (not timeout)
      >> (enqueue s.world object1 reply >>= λ w. some (record {
        waiters = record (with_reason s reply offset1) { world = w };
        woken = [];
        answer = waits;
      })) in
    if word == val1 then queued else some (refused s ewouldblock)

-- The count of `wake` is the answer.
unfoldable pub count_of : Option Progress → Option Called
count_of run =
    run >>= λ p. some (record { waiters = p.waiters; woken = p.woken; answer = counted p.count })

-- FUTEX_WAKE; there is no second object.
unfoldable pub futex_wake : Reply → ℕ → Waiters → ℕ → ℕ → ℕ → Option Called
futex_wake reply fuel s object1 offset1 val1 =
    let request : Request = record {
      to_wake = val1;
      object1 = object1;
      offset1 = offset1;
      object2 = 0;
      offset2 = 0;
    } in
    let run = count_of (wake reply fuel request s 0) in
    if val1 == 0 || leb (2 ^ 31) val1 then some (refused s einval) else run

-- FUTEX_CMP_REQUEUE; a negative number to wake is none.
unfoldable pub futex_cmp_requeue :
    Reply → ℕ → Waiters → ℕ → ℕ → ℕ → ℕ → ℕ → ℕ → ℕ → ℕ → Option Called
futex_cmp_requeue reply fuel s object1 offset1 word val1 val2 object2 offset2 val3 =
    let request : Request = record {
      to_wake = if ltb val1 (2 ^ 31) then val1 else 0;
      object1 = object1;
      offset1 = offset1;
      object2 = object2;
      offset2 = offset2;
    } in
    let run = count_of (wake reply fuel request s val2) in
    if word == val3 then run else some (refused s eagain)
