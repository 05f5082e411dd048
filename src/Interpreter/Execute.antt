-- ===== src/Interpreter/Execute.antt =====
-- The handlers of the instructions that stay inside a function: Assignment04/src/interpreter.cpp,
-- lines 213 to 500 and 556 to 666. Each takes the state behind the instruction's own byte.
use vm_design.Common.{Bool, ◌&&◌}
use vm_design.Common.{◌||◌, Result, ok, err, ◌>>=◌, ◌>>◌}
use vm_design.Common.{◌==◌, if◌then◌else◌}
use vm_design.Error
use vm_design.Error.{Error, Message, failure, undefined}
use vm_design.Interpreter.Value.{box, as_integer, is_integer, of_bool, binop}
use vm_design.Interpreter.Value.{result, zero_divisor, unknown}
use vm_design.Interpreter.Machine.{State, validate, read_slot, write_slot, peek, push, pop}
use vm_design.Interpreter.Machine.{peek_current_op, pop_next_int32, peek_frame}
use vm_design.Interpreter.Machine.{local_slot, arg_slot}
use vm_design.Interpreter.Machine.{slot_address}

module _ {W : Type 0} where
  unfoldable pub execute_binop_high : State W → Result Error (State W)
  execute_binop_high s = do
    (rhs, s₁) ← pop s
    (lhs, s₂) ← pop s₁
    validate s₂ (is_integer lhs) Error.operand_not_integer
    validate s₂ (is_integer rhs) Error.operand_not_integer
    op ← peek_current_op s₂
    elim (binop op (as_integer lhs) (as_integer rhs)) [
      | result res ↦ push (box res) s₂
      | zero_divisor ↦ err (failure Error.division_by_zero s₂.ip)
      | unknown ↦ err (failure Error.unknown_bytecode s₂.ip)
    ]

  unfoldable pub execute_low_eq : State W → Result Error (State W)
  execute_low_eq s = do
    (rhs, s₁) ← pop s
    (lhs, s₂) ← pop s₁
    validate s₂ (is_integer lhs || is_integer rhs) Error.eq_operands
    push (box (of_bool ((is_integer lhs && is_integer rhs) && (as_integer lhs == as_integer rhs))))
        s₂

  unfoldable pub execute_const : State W → Result Error (State W)
  execute_const s = do (constant, s₁) ← pop_next_int32 s; push (box constant) s₁

  unfoldable pub execute_drop : State W → Result Error (State W)
  execute_drop s = do (_, s₁) ← pop s; ok s₁

  unfoldable pub execute_dup : State W → Result Error (State W)
  execute_dup s = do val ← peek 0 s; push val s

  unfoldable pub execute_swap : State W → Result Error (State W)
  execute_swap s = do (a, s₁) ← pop s; (b, s₂) ← pop s₁; s₃ ← push b s₂; push a s₃

  unfoldable pub execute_jmp : State W → Result Error (State W)
  execute_jmp s = do (addr, s₁) ← pop_next_int32 s; ok (record s₁ { ip = addr })

  -- `cond_int == nz`
  unfoldable pub execute_cjmp : Bool → State W → Result Error (State W)
  execute_cjmp nz s = do
    (addr, s₁) ← pop_next_int32 s
    (cond, s₂) ← pop s₁
    validate s₂ (is_integer cond) Error.condition_not_integer
    ok (if as_integer cond == of_bool nz then record s₂ { ip = addr } else s₂)

  unfoldable pub execute_ld_global : State W → Result Error (State W)
  execute_ld_global s = do (addr, s₁) ← pop_next_int32 s; target ← read_slot s₁ addr; push target s₁

  unfoldable pub execute_ld_local : State W → Result Error (State W)
  execute_ld_local s = do
    (addr, s₁) ← pop_next_int32 s
    frame ← peek_frame s₁
    target ← read_slot s₁ (local_slot frame addr)
    push target s₁

  unfoldable pub execute_ld_argument : State W → Result Error (State W)
  execute_ld_argument s = do
    (addr, s₁) ← pop_next_int32 s
    frame ← peek_frame s₁
    target ← read_slot s₁ (arg_slot frame addr)
    push target s₁

  unfoldable pub execute_lda_global : State W → Result Error (State W)
  execute_lda_global s = do (addr, s₁) ← pop_next_int32 s; push (slot_address s₁ addr) s₁

  unfoldable pub execute_lda_local : State W → Result Error (State W)
  execute_lda_local s = do
    (addr, s₁) ← pop_next_int32 s
    frame ← peek_frame s₁
    push (slot_address s₁ (local_slot frame addr)) s₁

  unfoldable pub execute_lda_argument : State W → Result Error (State W)
  execute_lda_argument s = do
    (addr, s₁) ← pop_next_int32 s
    frame ← peek_frame s₁
    push (slot_address s₁ (arg_slot frame addr)) s₁

  unfoldable pub execute_st_global : State W → Result Error (State W)
  execute_st_global s = do
    (val, s₁) ← pop s
    (addr, s₂) ← pop_next_int32 s₁
    s₃ ← write_slot addr val s₂
    push val s₃

  unfoldable pub execute_st_local : State W → Result Error (State W)
  execute_st_local s = do
    (val, s₁) ← pop s
    (addr, s₂) ← pop_next_int32 s₁
    frame ← peek_frame s₂
    s₃ ← write_slot (local_slot frame addr) val s₂
    push val s₃

  unfoldable pub execute_st_argument : State W → Result Error (State W)
  execute_st_argument s = do
    (val, s₁) ← pop s
    (addr, s₂) ← pop_next_int32 s₁
    frame ← peek_frame s₂
    s₃ ← write_slot (arg_slot frame addr) val s₂
    push val s₃

  unfoldable pub execute_line : State W → Result Error (State W)
  execute_line s = do (_, s₁) ← pop_next_int32 s; ok s₁

  -- Bmatch_failure does not return.
  unfoldable pub execute_fail : State W → Result Error (State W)
  execute_fail s = do
    (line_number, s₁) ← pop_next_int32 s
    (column_number, s₂) ← pop_next_int32 s₁
    (val, s₃) ← pop s₂
    err (failure Error.match_failure s₃.ip)
