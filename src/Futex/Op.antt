-- ===== src/Futex/Op.antt =====
-- FUTEX_WAKE_OP of viengoos/server.c, once its message is read and its objects are found. `oldval` is
-- the int at the second address, `oparg` and `cmparg` are those of val3, and an int is its 32 bits. An
-- operation that the source does not know leaves the word alone.

use viengoos.Common.{
  ℕ, ◌+◌, ◌-◌, ◌%◌, ◌^◌, Bool, not, Option, some, List, ◌++◌, ltb, ◌==◌, ◌>>=◌, if◌then◌else◌,
  bit_and, bit_xor,
}
use viengoos.Futex.Call.{Called, counted}
use viengoos.Futex.{Waiters, Reply, Request, Progress, wake}

-- FUTEX_OP_SET, FUTEX_OP_ADD, ...
pub data FutexOp : Type 0 where
  futex_op_set : FutexOp
  futex_op_add : FutexOp
  futex_op_or : FutexOp
  futex_op_andn : FutexOp
  futex_op_xor : FutexOp
  futex_op_unknown : FutexOp

-- FUTEX_OP_CMP_EQ, FUTEX_OP_CMP_NE, ...
pub data FutexCmp : Type 0 where
  futex_op_cmp_eq : FutexCmp
  futex_op_cmp_ne : FutexCmp
  futex_op_cmp_lt : FutexCmp
  futex_op_cmp_le : FutexCmp
  futex_op_cmp_gt : FutexCmp
  futex_op_cmp_ge : FutexCmp
  futex_op_cmp_unknown : FutexCmp

-- The word that is written.
unfoldable pub operate : FutexOp → ℕ → ℕ → ℕ
operate futex_op_set oldval oparg = oparg
operate futex_op_add oldval oparg = (oldval + oparg) % 2 ^ 32
operate futex_op_or oldval oparg = (oldval + oparg) % 2 ^ 32
operate futex_op_andn oldval oparg = bit_and oldval (2 ^ 32 - 1 - oparg)
operate futex_op_xor oldval oparg = bit_xor oldval oparg
operate futex_op_unknown oldval oparg = oldval

-- The order of ints, by their 32 bits.
unfoldable pub int_less : ℕ → ℕ → Bool
int_less a b = ltb ((a + 2 ^ 31) % 2 ^ 32) ((b + 2 ^ 31) % 2 ^ 32)

-- Of an unknown comparison the result is what the uninitialised variable holds, `indeterminate`.
unfoldable pub comparison : Bool → FutexCmp → ℕ → ℕ → Bool
comparison indeterminate futex_op_cmp_eq oldval cmparg = oldval == cmparg
comparison indeterminate futex_op_cmp_ne oldval cmparg = not (oldval == cmparg)
comparison indeterminate futex_op_cmp_lt oldval cmparg = int_less oldval cmparg
comparison indeterminate futex_op_cmp_le oldval cmparg = not (int_less cmparg oldval)
comparison indeterminate futex_op_cmp_gt oldval cmparg = int_less cmparg oldval
comparison indeterminate futex_op_cmp_ge oldval cmparg = not (int_less oldval cmparg)
comparison indeterminate futex_op_cmp_unknown oldval cmparg = indeterminate

-- The waiters that the call leaves, those that it answered and its own answer; and the word at the
-- second address.
pub record Operated : Type 0 where
  pub called : Called
  pub word : ℕ

-- wake (to_wake, object, offset, 0, 0, 0), where a negative number to wake is none
unfoldable pub wake_at : Reply → ℕ → Waiters → ℕ → ℕ → ℕ → Option Progress
wake_at reply fuel s to_wake object offset =
    let request : Request = record {
      to_wake = if ltb to_wake (2 ^ 31) then to_wake else 0;
      object1 = object;
      offset1 = offset;
      object2 = 0;
      offset2 = 0;
    } in
    wake reply fuel request s 0

unfoldable pub answered : Waiters → List ℕ → ℕ → Operated
answered s woken word = record {
  called = record { waiters = s; woken = woken; answer = counted 0 };
  word = word;
}

-- FUTEX_WAKE_OP; whatever was woken, the answer is 0.
unfoldable pub futex_wake_op :
    Reply
    → Bool
    → ℕ
    → Waiters
    → ℕ
    → ℕ
    → ℕ
    → ℕ
    → ℕ
    → FutexOp
    → ℕ
    → FutexCmp
    → ℕ
    → ℕ
    → Option Operated
futex_wake_op reply indeterminate fuel s object1 offset1 object2 offset2 oldval op oparg cmp cmparg
      val2 =
    let word = operate op oldval oparg in
    wake_at reply fuel s 1 object1 offset1 >>= λ p.
    let second = wake_at reply fuel p.waiters val2 object2 offset2 >>= λ q.
    some (answered q.waiters (p.woken ++ q.woken) word) in
    if comparison indeterminate cmp oldval cmparg
    then second
    else some (answered p.waiters p.woken word)
