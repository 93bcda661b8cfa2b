-- ===== src/Futex/Both.antt =====
-- FUTEX_WAKE_OP wakes at the first address and, if its comparison holds, at the second one.
use viengoos.Common.{ℕ, ◌≡◌, ◌≢◌, Bool, List, [], ◌++◌, ◌==◌, if◌then◌else◌}
use viengoos.Futex.Call.{counted}
use viengoos.Futex.Op.{Operated}
use viengoos.Futex.Plan.{take, without}
use viengoos.Futex.Standing.{Standing}
use viengoos.Futex.Steps.{waits_at}
use viengoos.Futex.Wait.{waiting}
use viengoos.Futex.{Waiters, Progress}
use viengoos.WaitQueue.Chain.{IsQueue}

-- The first `n` of the messengers that wait at the offset are answered, and no others.
record WokeAt (quiet : ℕ → Type 0) (s : Waiters) (object offset n : ℕ) (ms : List ℕ) (p : Progress)
    : Type 0 where
  queue : Standing s p.waiters object (without (waits_at s offset) n ms)
  first_ones : p.woken ≡ take n (waiting s offset ms)
  others :
      (o : ℕ) (os : List ℕ)
      → quiet o
      → object ≢ o
      → IsQueue s.world o os
      → Standing s p.waiters o os

-- The queue at the second address when the messengers at the first one are woken.
abbrev pub remaining : Waiters → ℕ → ℕ → List ℕ → ℕ → List ℕ → List ℕ
remaining s object1 offset1 ms object2 qs =
    if object1 == object2 then without (waits_at s offset1) 1 ms else qs

-- What FUTEX_WAKE_OP does, where `more` says whether the comparison holds.
pub record WakesBoth (quiet : ℕ → Type 0) (s : Waiters) (object1 offset1 : ℕ) (ms : List ℕ)
    (object2 offset2 : ℕ) (rest : List ℕ) (more : Bool) (val2 : ℕ) (c : Operated) : Type 0 where
  pub woken :
      c.called.woken
      ≡ take 1 (waiting s offset1 ms) ++ (if more then take val2 (waiting s offset2 rest) else [])
  pub first :
      object1 ≢ object2 → IsQueue c.called.waiters.world object1 (without (waits_at s offset1) 1 ms)
  pub second :
      IsQueue c.called.waiters.world object2
        (if more then without (waits_at s offset2) val2 rest else rest)
  pub others :
      (o : ℕ) (os : List ℕ)
      → quiet o
      → object1 ≢ o
      → object2 ≢ o
      → IsQueue s.world o os
      → IsQueue c.called.waiters.world o os
  pub answer : c.called.answer ≡ counted 0
