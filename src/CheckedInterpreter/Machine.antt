-- ===== src/CheckedInterpreter/Machine.antt =====
-- The steps of `class state` of Assignment02/src/interpreter.cpp, lines 220 to 224 and 713 to 763, that
-- check what those of Assignment04 take for granted.
use vm_design.Common.{ℕ, ◌+◌, Result, ◌>>◌, not, ◌==◌, ltb, leb}
use vm_design.Common.Words.{add32}
use vm_design.Bytecode.{Bytecode, Varspec}
use vm_design.Error
use vm_design.Error.{Error}
use vm_design.Verifier.State.{max_stack_size}
use vm_design.Interpreter.Machine
use vm_design.Interpreter.Machine.{State, validate}

module _ {W : Type 0} where
  -- Behind `++ip_` or `ip_ += sizeof(int32_t)`.
  abbrev pub validate_end : ℕ → State W → Result Error (Unit {0})
  validate_end n s =
      let s₁ = record s { ip = add32 s.ip n } in
      validate s₁ (ltb s₁.ip s₁.file.code_size) Error.unexpected_end_of_code

  unfoldable pub pop_next_op : State W → Result Error (Bytecode × State W)
  pop_next_op s = do validate_end 1 s; Machine.pop_next_op s

  unfoldable pub pop_next_varspec : State W → Result Error (Varspec × State W)
  pop_next_varspec s = do validate_end 1 s; Machine.pop_next_varspec s

  unfoldable pub pop_next_int32 : State W → Result Error (ℕ × State W)
  pop_next_int32 s = do validate_end 4 s; Machine.pop_next_int32 s

  unfoldable pub push : ℕ → State W → Result Error (State W)
  push val s = do
    validate s (leb (s.size + 1) max_stack_size) Error.stack_overflow
    Machine.push val s

  unfoldable pub pop : State W → Result Error (ℕ × State W)
  pop s = do validate s (not (s.size == 0)) Error.stack_underflow; Machine.pop s

  unfoldable pub pop_count : ℕ → State W → Result Error (State W)
  pop_count count s = do
    validate s (leb count s.size) Error.stack_underflow
    Machine.pop_count count s
