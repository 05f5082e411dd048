-- ===== src/Interpreter/Tests.antt =====
-- The interpreter at concrete states, with a runtime that does next to nothing.
use vm_design.Common.{ℕ, ◌+◌, ◌-◌, ◌%◌, ◌^◌, ◌≡◌, refl, arith, List, [], ◌∷◌, ok, true, false}
use vm_design.Common.{◌>>=◌, set}
use vm_design.Bytecode
use vm_design.Bytecode.{of_byte, to_byte, varspec_of_byte}
use vm_design.Bytefile.{get_int32, load32, get_varspec}
use vm_design.Verifier.State.{Verifier}
use vm_design.Verifier.Delta.{stack_delta}
use vm_design.Verifier.Process.{pack_locals_size}
use vm_design.Interpreter.Machine.{State, peek_frame}
use vm_design.Interpreter.Samples.{idle, only_code, frame, state, words}
use vm_design.Interpreter.Value.{box, as_integer, is_integer, is_reference, as_integer-box}
use vm_design.Interpreter.Machine.{Frame, write_slot, push, pop, peek, read_slot}
use vm_design.Interpreter.Machine.{
  pop_next_int32, pop_next_varspec, push_frame, span, pop_count, allocate,
}
use vm_design.Interpreter.Calls.{locals_of, frame_stack_of, enter, execute_ret, execute_closure}
use vm_design.Interpreter.Calls.{push_captures, make_closure, capture}
use vm_design.Interpreter.Objects.{execute_sti}
use vm_design.Interpreter.Loop.{execute}
use vm_design.Interpreter.Execute.{execute_st_argument, execute_const}
use vm_design.Interpreter.Effect.Agreement.{execute-delta, execute_closure-delta}
use vm_design.Interpreter.Frames.{halves-pack_locals_size, execute_ret-enter}
use vm_design.Interpreter.References.{argument, lda, st, SameLive, execute_sti-lda}

as_integer-box_example :
    (as_integer (box 5) ≡ 5) × (is_integer (box 5) ≡ true) × (is_reference (box 5) ≡ false)
as_integer-box_example = as_integer-box 5 (omega arith)

halves-pack_locals_size_example :
    (locals_of (pack_locals_size 65541 3) ≡ 3) × (frame_stack_of (pack_locals_size 65541 3) ≡ 5)
halves-pack_locals_size_example = halves-pack_locals_size 65541 3 (omega arith)

-- BEGIN 2 (depth 4, 1 local), from behind its byte; and a CONST 5, and a CLOSURE of
-- the code at 0 with one global.
abbrev begin_code : List ℕ
begin_code = 0x52 ∷ 2 ∷ 0 ∷ 0 ∷ 0 ∷ 1 ∷ 0 ∷ 4 ∷ 0 ∷ 0xFF ∷ []

abbrev const_code : List ℕ
const_code = 0x10 ∷ 5 ∷ 0 ∷ 0 ∷ 0 ∷ 0xFF ∷ []

abbrev closure_code : List ℕ
closure_code = 0x54 ∷ 0 ∷ 0 ∷ 0 ∷ 0 ∷ 1 ∷ 0 ∷ 0 ∷ 0 ∷ 0 ∷ 0 ∷ 0 ∷ 0 ∷ 0 ∷ 0xFF ∷ []

-- The verifier in front of the instruction at 0 of the same code.
abbrev before : List ℕ → Verifier
before code = record {
  addr = 0;
  frames_depth = 1;
  current_frame_addr = 0;
  current_frame_stack_size = 1;
  stack_sizes = [];
  current_stack_size = 1;
  workset = [];
  file = only_code code;
}

abbrev entered : Frame
entered = record {
  base = 3;
  locals_size = 1;
  args_size = 2;
  is_frame_closure = false;
  return_address = 2 ^ 32 - 1;
}

execute-delta_example : 4 ≡ (3 + 1) % 2 ^ 32
unfolding stack_delta execute execute_const pop_next_int32 get_int32 load32 push write_slot
execute-delta_example =
    execute-delta idle (before const_code) (state const_code 1 words 3)
      {s' = state const_code 5 (set words 3 11) 4} {d = 1} Bytecode.const tt refl refl (omega arith)
      (omega arith) refl refl

execute_closure-delta_example : (4 ≡ 3 + 1) × (2 ≡ 1 + 1)
unfolding stack_delta execute execute_closure peek_frame push_captures make_closure capture
    pop_next_int32 pop_next_varspec get_varspec varspec_of_byte read_slot get_int32 load32 push
    write_slot span pop_count allocate
execute_closure-delta_example =
    execute_closure-delta idle (before closure_code) (state closure_code 1 words 3)
      {s' = state closure_code 14 (set (set words 3 8) 4 8) 4} {d = 2} {n = 1} refl refl
      (omega arith) refl (omega arith) refl refl

-- A function of two arguments, left with 15 on top of a stack of six words.
execute_ret-enter_example :
    execute_ret (record (state begin_code 9 words 4) { frames = entered ∷ (frame 3 ∷ []) })
    ≡ ok (false, record (state begin_code 77 (set words 1 15) 2) { frames = frame 3 ∷ [] })
unfolding enter push_frame pop_next_int32 get_int32 load32 pop peek read_slot
execute_ret-enter_example =
    execute_ret-enter (state begin_code 1 words 3) false 2 262145 15 2 (frame 3) []
      (record (state begin_code 9 words 4) { frames = entered ∷ (frame 3 ∷ []) }) refl refl refl
      refl refl refl refl (omega arith) (omega arith) (omega arith)

-- Behind the byte of an instruction on argument 0, which is at slot 1, with 15 on top of the stack.
abbrev variable_code : List ℕ
variable_code = 0x42 ∷ 0 ∷ 0 ∷ 0 ∷ 0 ∷ 0xFF ∷ []

execute_sti-lda_example :
    (u : State (Unit {0})) × ((lda argument (state variable_code 1 words 4) >>= execute_sti idle)
      ≡ ok u)
    × SameLive u (state variable_code 5 (set words 1 15) 4)
unfolding st execute_st_argument pop_next_int32 get_int32 load32 pop peek peek_frame read_slot
    write_slot push
execute_sti-lda_example =
    execute_sti-lda idle (state variable_code 1 words 4) argument
      {t = state variable_code 5 (set words 1 15) 4}
      (record { base = refl; last = omega arith; room = omega arith }) refl
