-- ===== src/CheckedInterpreter/Tests.antt =====
-- The interpreter of Assignment02 at concrete states.
use vm_design.Common.{
  ℕ, suc, ◌≡◌, refl, arith, List, [], ◌∷◌, some, ok, true, set, length, ap, replicate,
  length-replicate,
}
use vm_design.Bytecode.{of_byte, to_byte}
use vm_design.Bytefile.{get_byte, get_code, get_int32, load32}
use vm_design.Interpreter.Machine
use vm_design.Interpreter.Machine.{State, write_slot, peek, read_slot}
use vm_design.Interpreter.Loop
use vm_design.Interpreter.Samples.{idle, state, words}
use vm_design.CheckedInterpreter.Machine.{push, pop, pop_next_int32, pop_next_op}
use vm_design.CheckedInterpreter.Execute.{execute_const, execute_drop, execute_jmp}
use vm_design.CheckedInterpreter.Loop.{execute, step, run}
use vm_design.CheckedInterpreter.Refines.Run.{entries_fit, run-Refines}
use vm_design.CheckedInterpreter.Refines.Loop.{entry_fits}
use vm_design.CheckedInterpreter.Reports.{frames_fit, callers_fit, is_checked}
use vm_design.CheckedInterpreter.Reports.Run.{keeps_to_checked, is_reported, run-is_reported}

-- CONST 5; DROP; STOP, and a byte behind it.
abbrev drop_code : List ℕ
drop_code = 0x10 ∷ 5 ∷ 0 ∷ 0 ∷ 0 ∷ 0x18 ∷ 0xF0 ∷ 0xFF ∷ []

run-Refines_example :
    Loop.run idle 3 (state drop_code 0 words 3) ≡ some (ok (state drop_code 7 (set words 3 11) 3))
unfolding run step execute execute_const execute_drop pop_next_op get_code get_byte of_byte to_byte
    pop_next_int32 get_int32 load32 push pop write_slot Machine.push Machine.pop Machine.pop_next_op
    Machine.pop_next_int32 peek read_slot entries_fit entry_fits
run-Refines_example = run-Refines idle 3 (state drop_code 0 words 3) refl refl

-- DROP; JMP 0, and a byte behind it: the second DROP finds the stack empty.
abbrev loop_code : List ℕ
loop_code = 0x18 ∷ 0x15 ∷ 0 ∷ 0 ∷ 0 ∷ 0 ∷ 0xFF ∷ []

-- The words of the stack that are not looked at.
unfoldable zeros : ℕ → List ℕ
zeros n = replicate n 0

length-zeros : (n : ℕ) → length (zeros n) ≡ n
unfolding zeros
length-zeros n = length-replicate n 0

abbrev whole_stack : State (Unit {0})
whole_stack = state loop_code 0 (11 ∷ zeros 0xFFFFE) 1

run-is_reported_example : is_reported (run idle 3 whole_stack) ≡ true
unfolding keeps_to_checked is_checked frames_fit callers_fit step execute execute_jmp execute_drop
    pop_next_op get_code get_byte of_byte to_byte pop_next_int32 get_int32 load32 pop Machine.pop
    Machine.pop_next_op Machine.pop_next_int32 peek read_slot
run-is_reported_example =
    run-is_reported idle 3 whole_stack
      (
        ((omega arith, omega arith, omega arith), ap suc (length-zeros 0xFFFFE), omega arith, refl),
        omega arith,
      )
      refl
