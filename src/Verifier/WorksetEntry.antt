-- ===== src/Verifier/WorksetEntry.antt =====
-- `class workset_entry` of Assignment04/src/verifier.h: an address to visit, or half of a frame to
-- go back to, in one 64-bit word whose lowest bit tells which.
use vm_design.Common.{ℕ, ◌+◌, ◌*◌, ◌/◌, ◌%◌, ◌^◌, ◌<◌, Bool, true, false, ◌≡◌, arith, ◌==◌}

-- `static_cast<auint>(val) << 1`
abbrev pub from_instruction : ℕ → ℕ
from_instruction val = val * 2 % 2 ^ 64

-- `(static_cast<auint>(val) << 1) | 1`
abbrev pub from_frame : ℕ → ℕ
from_frame val = val * 2 % 2 ^ 64 + 1

abbrev pub is_instruction : ℕ → Bool
is_instruction r = r % 2 == 0

abbrev pub is_frame : ℕ → Bool
is_frame r = r % 2 == 1

-- `repr_ >> 1`, cut to a uint32_t.
abbrev pub get_value : ℕ → ℕ
get_value r = r / 2 % 2 ^ 32

-- A 32-bit value is read back from either kind of entry, and the kinds are told apart.
pub get_value-from_instruction :
    (n : ℕ)
    → n < 2 ^ 32
    → (get_value (from_instruction n) ≡ n)
      × (get_value (from_frame n) ≡ n)
      × (is_instruction (from_instruction n) ≡ true)
      × (is_frame (from_instruction n) ≡ false)
      × (is_frame (from_frame n) ≡ true)
      × (is_instruction (from_frame n) ≡ false)
get_value-from_instruction n h = ground arith
