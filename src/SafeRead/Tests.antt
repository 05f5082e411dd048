-- ===== src/SafeRead/Tests.antt =====
-- Reads of a good and of a bad address, with a handler of SIGSEGV in place.
use vm_design.Common.{ℕ, ◌==◌, ◌≡◌, refl, arith, false, some, none, if◌then◌else◌}
use vm_design.SafeRead.{Machine, Process, Signal, byte, fault, default, other, safe_read_uint8}
use vm_design.SafeRead.Reads.{remembered, safe_read-readable}

-- Only the byte at 4096 can be read.
abbrev page : Machine
page = record {
  access = λ ptr. if ptr == 4096 then byte 7 else fault Signal.sigsegv ptr;
  fails = λ call. false;
}

abbrev handled : Process
handled = record {
  on_sigbus = default;
  on_sigsegv = other 3;
  prev_sigbus_handler = default;
  prev_sigsegv_handler = default;
  saved_ptr = none;
}

page-fault : (sig : Signal) (a : ℕ) → page.access 42 ≡ fault sig a → a ≡ 42
page-fault sig a e = cc

safe_read-readable_example : safe_read_uint8 page 42 handled ≡ some (none, remembered 42 handled)
safe_read-readable_example =
    safe_read-readable page 42 handled (omega arith) page-fault (λ call. refl)
