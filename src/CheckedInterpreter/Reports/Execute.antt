-- ===== src/CheckedInterpreter/Reports/Execute.antt =====
-- The handlers of the instructions that stay inside a function: from a valid state they give one, or a report.
use vm_design.Common.{arith, ◌<◌, ◌≡◌, Bool, true, false, ◌||◌}
use vm_design.Common.{err, ◌==◌, if◌then◌else◌}
use vm_design.Error
use vm_design.Error.{Error, failure}
use vm_design.Interpreter.Value.{
  box, as_integer, is_integer, of_bool, binop, Binop, result, zero_divisor, unknown,
}
use vm_design.Interpreter.Machine.{State, local_slot}
use vm_design.Interpreter.Objects.{in_range}
use vm_design.CheckedInterpreter.Machine.{push}
use vm_design.CheckedInterpreter.Execute.{execute_binop_high, execute_low_eq, execute_const}
use vm_design.CheckedInterpreter.Execute.{execute_drop, execute_swap, execute_jmp}
use vm_design.CheckedInterpreter.Execute.{execute_cjmp, execute_ld_global, execute_ld_local}
use vm_design.CheckedInterpreter.Execute.{execute_lda_global, execute_lda_local}
use vm_design.CheckedInterpreter.Execute.{execute_st_global, execute_st_local}
use vm_design.CheckedInterpreter.Execute.{execute_line, execute_fail}
use vm_design.CheckedInterpreter.Reports.{
  ValidBut, Post, returns, reports, ◌⟫◌, Valid, inside_function,
}
use vm_design.CheckedInterpreter.Reports.Steps.{
  peek_current_op-Post, checked, pop_next_int32-Post, read_slot-Post, write_slot-Post, push-Post,
  pop-Post, peek_frame-Post,
}

Valid-if :
    {W : Type 0} (s s' : State W) (c : Bool) → Valid s → Valid s' → Valid (if c then s else s')
Valid-if s s' true v v' = v
Valid-if s s' false v v' = v'

module _ {W : Type 0} (s : State W) where
  pub execute_const-Post : Valid s → Post Valid (execute_const s)
  unfolding execute_const
  execute_const-Post v =
      pop_next_int32-Post s v.0 ⟫ λ (w, s₁) (v₁, _, _, _). push-Post s₁ (box w) v₁

  pub execute_drop-Post : Valid s → Post Valid (execute_drop s)
  unfolding execute_drop
  execute_drop-Post v = pop-Post s v ⟫ λ (x, s₁) (v₁, _, _, _). returns v₁

  pub execute_line-Post : Valid s → Post Valid (execute_line s)
  unfolding execute_line
  execute_line-Post v =
      pop_next_int32-Post s v.0 ⟫ λ (w, s₁) (v₁, l, _, _). returns (v₁, omega arith)

  pub execute_swap-Post : Valid s → Post Valid (execute_swap s)
  unfolding execute_swap
  execute_swap-Post v = pop-Post s v ⟫ λ (a, s₁) (v₁, _, _, _).
      pop-Post s₁ v₁ ⟫ λ (b, s₂) (v₂, _, _, _). push-Post s₂ b v₂.0 ⟫ λ s₃ v₃. push-Post s₃ a v₃.0

  pub execute_fail-Post : Valid s → Post Valid (execute_fail s)
  unfolding execute_fail
  execute_fail-Post v = pop_next_int32-Post s v.0 ⟫ λ (line, s₁) (v₁, l, _, _).
      pop_next_int32-Post s₁ v₁ ⟫ λ (column, s₂) (v₂, k, _, _).
      pop-Post s₂ (v₂, omega arith) ⟫ λ (val, s₃) _. reports tt

  pub execute_low_eq-Post : Valid s → Post Valid (execute_low_eq s)
  unfolding execute_low_eq
  execute_low_eq-Post v = pop-Post s v ⟫ λ (rhs, s₁) (v₁, _, _, _).
      pop-Post s₁ v₁ ⟫ λ (lhs, s₂) (v₂, _, _, _).
      checked s₂ (is_integer lhs || is_integer rhs) _ _ λ c. push-Post s₂ _ v₂.0

  pub execute_jmp-Post : Valid s → Post Valid (execute_jmp s)
  unfolding execute_jmp
  execute_jmp-Post v = pop_next_int32-Post s v.0 ⟫ λ (addr, s₁) (v₁, l, _, _).
      checked s₁ (in_range addr s₁.file.code_size) _ _ λ c. returns (ground arith)

  pub execute_cjmp-Post : (nz : Bool) → Valid s → Post Valid (execute_cjmp nz s)
  unfolding execute_cjmp
  execute_cjmp-Post nz v = pop_next_int32-Post s v.0 ⟫ λ (addr, s₁) (v₁, l, f, g).
      checked s₁ (in_range addr s₁.file.code_size) _ _ λ c.
        pop-Post s₁ (v₁, omega arith) ⟫ λ (cond, s₂) (v₂, _, h, _).
        let inside : addr < s₂.file.code_size = rw (h) (ground arith) in
        checked s₂ (is_integer cond) _ _
          λ d. returns (Valid-if _ _ (as_integer cond == of_bool nz) (ground arith) v₂)

  pub execute_ld_global-Post : Valid s → Post Valid (execute_ld_global s)
  unfolding execute_ld_global
  execute_ld_global-Post v = pop_next_int32-Post s v.0 ⟫ λ (addr, s₁) (v₁, _, _, _).
      checked s₁ (in_range addr s₁.file.global_area_size) _ _
        λ c. read_slot-Post s₁ addr v₁ (ground arith) ⟫ λ x _. push-Post s₁ x v₁

  pub execute_lda_global-Post : Valid s → Post Valid (execute_lda_global s)
  unfolding execute_lda_global
  execute_lda_global-Post v = pop_next_int32-Post s v.0 ⟫ λ (addr, s₁) (v₁, _, _, _).
      checked s₁ (in_range addr s₁.file.global_area_size) _ _ λ c. push-Post s₁ _ v₁

  pub execute_st_global-Post : Valid s → Post Valid (execute_st_global s)
  unfolding execute_st_global
  execute_st_global-Post v = pop-Post s v ⟫ λ (val, s₁) (v₁, _, _, _).
      pop_next_int32-Post s₁ v₁.0 ⟫ λ (addr, s₂) (v₂, _, _, _).
      checked s₂ (in_range addr s₂.file.global_area_size) _ _
        λ c. write_slot-Post s₂ addr val v₂ (ground arith) ⟫ λ s₃ (v₃, _). push-Post s₃ val v₃

  pub execute_ld_local-Post :
      inside_function s.frames ≡ true → Valid s → Post Valid (execute_ld_local s)
  unfolding execute_ld_local
  execute_ld_local-Post h v = pop_next_int32-Post s v.0 ⟫ λ (addr, s₁) (v₁, _, f, _).
      peek_frame-Post s₁ v₁ (rw (f) h) ⟫ λ frame l.
      checked s₁ (in_range addr frame.locals_size) _ _
        λ c. read_slot-Post s₁ _ v₁ (ground arith) ⟫ λ x _. push-Post s₁ x v₁

  pub execute_lda_local-Post :
      inside_function s.frames ≡ true → Valid s → Post Valid (execute_lda_local s)
  unfolding execute_lda_local
  execute_lda_local-Post h v = pop_next_int32-Post s v.0 ⟫ λ (addr, s₁) (v₁, _, f, _).
      peek_frame-Post s₁ v₁ (rw (f) h) ⟫ λ frame l.
      checked s₁ (in_range addr frame.locals_size) _ _ λ c. push-Post s₁ _ v₁

  pub execute_st_local-Post :
      inside_function s.frames ≡ true → Valid s → Post Valid (execute_st_local s)
  unfolding execute_st_local
  execute_st_local-Post h v = pop-Post s v ⟫ λ (val, s₁) (v₁, g, _, _).
      pop_next_int32-Post s₁ v₁.0 ⟫ λ (addr, s₂) (v₂, _, f, _).
      peek_frame-Post s₂ v₂ (rw (f, g) h) ⟫ λ frame l.
      checked s₂ (in_range addr frame.locals_size) _ _ λ c.
        write_slot-Post s₂ (local_slot frame addr) val v₂ (ground arith) ⟫ λ s₃ (v₃, _).
        push-Post s₃ val v₃

  -- What `execute_binop_high` does with the result.
  Post-binop :
      ValidBut s
      → (outcome : Binop)
      → Post Valid (elim outcome [
        | result res ↦ push (box res) s
        | zero_divisor ↦ err (failure Error.division_by_zero s.ip)
        | unknown ↦ err (failure Error.unknown_bytecode s.ip)
      ])
  Post-binop v (result res) = push-Post s (box res) v
  Post-binop v zero_divisor = reports tt
  Post-binop v unknown = reports tt

module _ {W : Type 0} (s : State W) where
  pub execute_binop_high-Post : 0 < s.ip → Valid s → Post Valid (execute_binop_high s)
  unfolding execute_binop_high
  execute_binop_high-Post h v = pop-Post s v ⟫ λ (rhs, s₁) (v₁, _, _, i).
      pop-Post s₁ v₁ ⟫ λ (lhs, s₂) (v₂, _, _, k). checked s₂ (is_integer lhs) _ _ λ c.
        checked s₂ (is_integer rhs) _ _ λ d. peek_current_op-Post s₂ (rw (k, i) h) v₂.0 ⟫ λ op _.
        Post-binop s₂ v₂.0 (binop op (as_integer lhs) (as_integer rhs))
