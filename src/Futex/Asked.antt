-- ===== src/Futex/Asked.antt =====
-- What FUTEX_WAKE_OP of viengoos/server.c asks of the word, and when it wakes at the second address.
use viengoos.Common.{
  ℕ, ◌+◌, ◌-◌, ◌^◌, ◌≤◌, ◌<◌, ◌≡◌, refl, arith, Bool, true, false, ◌⊎◌, ◌↔◌, bit_and, bit_xor,
}
use viengoos.Futex.Op.{
  FutexOp, FutexCmp, futex_op_set, futex_op_add, futex_op_or, futex_op_andn, futex_op_xor,
  futex_op_unknown, futex_op_cmp_eq, futex_op_cmp_ne, futex_op_cmp_lt, futex_op_cmp_le,
  futex_op_cmp_gt, futex_op_cmp_ge, futex_op_cmp_unknown, int_less, operate, comparison,
}

-- The order of ints by their 32 bits: a negative one has the highest bit.
abbrev pub IntLess : ℕ → ℕ → Type 0
IntLess a b = ((2 ^ 31 ≤ a) × (b < 2 ^ 31)) ⊎ ((a < b) × ((b < 2 ^ 31) ⊎ (2 ^ 31 ≤ a)))

-- Whether `more` is the result of the comparison.
abbrev pub Compares : Bool → FutexCmp → ℕ → ℕ → Bool → Type 0
Compares indeterminate futex_op_cmp_eq a b more = (more ≡ true) ↔ (a ≡ b)
Compares indeterminate futex_op_cmp_ne a b more = (more ≡ false) ↔ (a ≡ b)
Compares indeterminate futex_op_cmp_lt a b more = (more ≡ true) ↔ IntLess a b
Compares indeterminate futex_op_cmp_le a b more = (more ≡ false) ↔ IntLess b a
Compares indeterminate futex_op_cmp_gt a b more = (more ≡ true) ↔ IntLess b a
Compares indeterminate futex_op_cmp_ge a b more = (more ≡ false) ↔ IntLess a b
Compares indeterminate futex_op_cmp_unknown a b more = more ≡ indeterminate

pub comparison-Compares :
    (indeterminate : Bool) (cmp : FutexCmp) (a b : ℕ)
    → a < 2 ^ 32
    → b < 2 ^ 32
    → Compares indeterminate cmp a b (comparison indeterminate cmp a b)
unfolding comparison int_less
comparison-Compares indeterminate futex_op_cmp_eq a b h k = ground (arith, h, k)
comparison-Compares indeterminate futex_op_cmp_ne a b h k = ground (arith, h, k)
comparison-Compares indeterminate futex_op_cmp_lt a b h k = ground (arith, h, k)
comparison-Compares indeterminate futex_op_cmp_le a b h k = ground (arith, h, k)
comparison-Compares indeterminate futex_op_cmp_gt a b h k = ground (arith, h, k)
comparison-Compares indeterminate futex_op_cmp_ge a b h k = ground (arith, h, k)
comparison-Compares indeterminate futex_op_cmp_unknown a b h k = refl

-- The new word; FUTEX_OP_OR adds.
abbrev pub IsOperated : FutexOp → ℕ → ℕ → ℕ → Type 0
IsOperated futex_op_set old arg new = new ≡ arg
IsOperated futex_op_add old arg new = (new ≡ old + arg) ⊎ (new + 2 ^ 32 ≡ old + arg)
IsOperated futex_op_or old arg new = (new ≡ old + arg) ⊎ (new + 2 ^ 32 ≡ old + arg)
IsOperated futex_op_andn old arg new = new ≡ bit_and old (2 ^ 32 - 1 - arg)
IsOperated futex_op_xor old arg new = new ≡ bit_xor old arg
IsOperated futex_op_unknown old arg new = new ≡ old

pub operate-IsOperated :
    (op : FutexOp) (old arg : ℕ)
    → old < 2 ^ 32
    → arg < 2 ^ 32
    → IsOperated op old arg (operate op old arg)
unfolding operate
operate-IsOperated futex_op_set old arg h k = refl
operate-IsOperated futex_op_add old arg h k = ground (arith, h, k)
operate-IsOperated futex_op_or old arg h k = ground (arith, h, k)
operate-IsOperated futex_op_andn old arg h k = refl
operate-IsOperated futex_op_xor old arg h k = refl
operate-IsOperated futex_op_unknown old arg h k = refl
