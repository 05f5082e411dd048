-- ===== src/CheckedInterpreter/Refines.antt =====
-- Where the interpreter of Assignment02 succeeds, that of Assignment04 does the same.
use vm_design.Common.{◌≡◌, ◌<◌, ◌^◌, Result, ok}
use vm_design.Error.{Error}
use vm_design.Interpreter.Machine.{State}
pub mod Execute
pub mod Calls
pub mod Loop
pub mod Run
pub mod Objects

-- The other interpreter's outcome is `s'` as well, which has the file of `s`.
abbrev pub Follows : {W : Type 0} → Result Error (State W) → State W → State W → Type 0
Follows r s s' = (r ≡ ok s') × (s'.file ≡ s.file)
