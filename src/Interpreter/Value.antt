-- ===== src/Interpreter/Value.antt =====
-- `class value` of Assignment04/src/interpreter.h and the arithmetic of `execute_binop_high`: 64-bit
-- words whose lowest bit is set where they hold an integer. An int32_t is its pattern.
use vm_design.Common.{ℕ, ◌+◌, ◌-◌, ◌*◌, ◌/◌, ◌%◌, ◌^◌, ◌<◌, ◌≡◌, Bool, true, false, not, ◌&&◌, ◌||◌}
use vm_design.Common.{ltb, ◌==◌, if◌then◌else◌, arith}
use vm_design.Common.Words.{add32, sub32, sext32, nonneg32}
use vm_design.Bytecode.{Bytecode}

-- `BOX(static_cast<aint>(val))` of an int32_t.
abbrev pub box : ℕ → ℕ
box w = (sext32 w * 2 + 1) % 2 ^ 64

-- `static_cast<int32_t>(UNBOX(repr))`
abbrev pub as_integer : ℕ → ℕ
as_integer repr = repr / 2 % 2 ^ 32

abbrev pub is_integer : ℕ → Bool
is_integer repr = repr % 2 == 1

abbrev pub is_reference : ℕ → Bool
is_reference repr = repr % 2 == 0

-- An integer is read back from its word, which is a word, and no reference.
pub as_integer-box :
    (w : ℕ)
    → w < 2 ^ 32
    → (as_integer (box w) ≡ w) × (is_integer (box w) ≡ true) × (is_reference (box w) ≡ false)
as_integer-box w h = ground arith

abbrev pub of_bool : Bool → ℕ
of_bool true = 1
of_bool false = 0

-- `a < b` for two int32_t.
abbrev pub less32 : ℕ → ℕ → Bool
less32 a b = ltb (add32 a (2 ^ 31)) (add32 b (2 ^ 31))

abbrev pub magnitude : ℕ → ℕ
magnitude p = if nonneg32 p then p else 2 ^ 32 - p

-- The product of a sign and a magnitude, cut to 32 bits.
abbrev pub with_sign : Bool → ℕ → ℕ
with_sign true m = m % 2 ^ 32
with_sign false m = sub32 0 (m % 2 ^ 32)

abbrev pub same_sign : ℕ → ℕ → Bool
same_sign a b = if nonneg32 a then nonneg32 b else not (nonneg32 b)

-- `/` and `%` of C, which round towards zero, on the operands as int64_t; not for a divisor 0.
unfoldable pub div32 : ℕ → ℕ → ℕ
div32 a b = with_sign (same_sign a b) (magnitude a / magnitude b)

unfoldable pub mod32 : ℕ → ℕ → ℕ
mod32 a b = with_sign (nonneg32 a) (magnitude a % magnitude b)

-- What a binary operation makes of two integers: a pattern, no result at a divisor 0, or no
-- operation of the table.
pub data Binop : Type 0 where
  result : ℕ → Binop
  zero_divisor unknown : Binop

unfoldable pub binop : Bytecode → ℕ → ℕ → Binop
binop Bytecode.low_add a b = result (add32 a b)
binop Bytecode.low_sub a b = result (sub32 a b)
binop Bytecode.low_mul a b = result (a * b % 2 ^ 32)
binop Bytecode.low_div a b = if b == 0 then zero_divisor else result (div32 a b)
binop Bytecode.low_mod a b = if b == 0 then zero_divisor else result (mod32 a b)
binop Bytecode.low_lt a b = result (of_bool (less32 a b))
binop Bytecode.low_le a b = result (of_bool (not (less32 b a)))
binop Bytecode.low_gt a b = result (of_bool (less32 b a))
binop Bytecode.low_ge a b = result (of_bool (not (less32 a b)))
binop Bytecode.low_ne a b = result (of_bool (not (a == b)))
binop Bytecode.low_and a b = result (of_bool (not (a == 0) && not (b == 0)))
binop Bytecode.low_or a b = result (of_bool (not (a == 0) || not (b == 0)))
binop _ a b = unknown
