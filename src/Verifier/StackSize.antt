-- ===== src/Verifier/StackSize.antt =====
-- `class stack_size` of Assignment04/src/verifier.h: the depth recorded for one address, as the
-- pattern of an int32_t. -1 is no depth, a number from 0 on a depth that has been processed, and
-- -(n + 2) the depth n that a jump or call has left for an address.
use vm_design.Common.{ℕ, ◌-◌, ◌%◌, ◌^◌, Bool, not, ◌&&◌}
use vm_design.Common.{ltb, leb, ◌==◌, if◌then◌else◌}
use vm_design.Common.Words.{sub32}

abbrev pub no_value : ℕ
no_value = 2 ^ 32 - 1

-- `-1 * static_cast<int32_t>(val) - 2`
abbrev pub from_initial : ℕ → ℕ
from_initial val = sub32 (sub32 0 val) 2

abbrev pub from_processed : ℕ → ℕ
from_processed val = val % 2 ^ 32

abbrev pub has_value : ℕ → Bool
has_value r = not (r == no_value)

-- `repr_ < NO_VALUE`
abbrev pub is_initial : ℕ → Bool
is_initial r = leb (2 ^ 31) r && ltb r no_value

-- `repr_ > NO_VALUE`
abbrev pub is_processed : ℕ → Bool
is_processed r = ltb r (2 ^ 31)

-- `repr_ < NO_VALUE ? -1 * repr_ - 2 : repr_`
abbrev pub get_value : ℕ → ℕ
get_value r = if is_initial r then sub32 (sub32 0 r) 2 else r
