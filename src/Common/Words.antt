-- ===== src/Common/Words.antt =====
-- Machine words as natural numbers. An int32_t is its bit pattern, a number below 2 ^ 32.
use Prim.Native.Nat.{ℕ, ◌+◌, ◌-◌, ◌*◌, ◌/◌, ◌%◌, ◌^◌, ◌<◌}
use mathlib.Core.Path.{◌≡◌}
use mathlib.Core.Bool.{Bool}
use mathlib.Core.List.{List, [], ◌∷◌}
use mathlib.Core.Option.{Option, none, some}
use native.Mathlib.Omega.{arith}
use vm_design.Common.Tests.{ltb, if◌then◌else◌}

abbrev pub u32_mod : ℕ
u32_mod = 2 ^ 32

abbrev pub u64_mod : ℕ
u64_mod = 2 ^ 64

abbrev pub add32 : ℕ → ℕ → ℕ
add32 a b = (a + b) % 2 ^ 32

abbrev pub sub32 : ℕ → ℕ → ℕ
sub32 a b = (a + 2 ^ 32 - b) % 2 ^ 32

abbrev pub add64 : ℕ → ℕ → ℕ
add64 a b = (a + b) % 2 ^ 64

abbrev pub sub64 : ℕ → ℕ → ℕ
sub64 a b = (a + 2 ^ 64 - b) % 2 ^ 64

-- `x >= 0` for an int32_t.
abbrev pub nonneg32 : ℕ → Bool
nonneg32 p = ltb p (2 ^ 31)

-- An int32_t widened to 64 bits.
abbrev pub sext32 : ℕ → ℕ
sext32 p = if ltb p (2 ^ 31) then p else p + (2 ^ 64 - 2 ^ 32)

-- The four bytes of an int32_t in memory, the lowest first, and back.
abbrev pub to_bytes32 : ℕ → List ℕ
to_bytes32 w = (w % 2 ^ 8) ∷ (w / 2 ^ 8 % 2 ^ 8) ∷ (w / 2 ^ 16 % 2 ^ 8) ∷ (w / 2 ^ 24 % 2 ^ 8) ∷ []

abbrev pub of_bytes32 : List ℕ → Option ℕ
of_bytes32 (a ∷ (b ∷ (c ∷ (d ∷ _)))) = some (a + b * 2 ^ 8 + c * 2 ^ 16 + d * 2 ^ 24)
of_bytes32 _ = none

pub of_bytes32-to_bytes32 : (w : ℕ) → w < 2 ^ 32 → of_bytes32 (to_bytes32 w) ≡ some w
of_bytes32-to_bytes32 w h = ground arith
