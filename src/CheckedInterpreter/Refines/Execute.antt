-- ===== src/CheckedInterpreter/Refines/Execute.antt =====
-- Where a handler of Assignment02 succeeds, that of Assignment04 does the same: the instructions that use no objects.
use vm_design.Common.{arith, Bool, ok, ◌≡◌}
use vm_design.Interpreter.Machine
use vm_design.Interpreter.Machine.{
  State, push_frame, pop_frame, peek_frame, set_return_address, write_slot, store_word, allocate,
}
use vm_design.CheckedInterpreter.Refines.{Follows}
use vm_design.Interpreter.Execute
use vm_design.CheckedInterpreter.Machine.{pop, pop_next_int32, push}
use vm_design.CheckedInterpreter.Execute.{execute_binop_high, execute_low_eq, execute_const}
use vm_design.CheckedInterpreter.Execute.{execute_drop, execute_dup, execute_swap, execute_jmp}
use vm_design.CheckedInterpreter.Execute.{execute_cjmp, execute_ld_global, execute_ld_local}
use vm_design.CheckedInterpreter.Execute.{execute_ld_argument, execute_lda_global}
use vm_design.CheckedInterpreter.Execute.{execute_lda_local, execute_lda_argument}
use vm_design.CheckedInterpreter.Execute.{execute_st_global, execute_st_local}
use vm_design.CheckedInterpreter.Execute.{execute_st_argument, execute_line, execute_fail}

module _ {W : Type 0} (s : State W) {s' : State W} where
  pub execute_binop_high-Refines :
      execute_binop_high s ≡ ok s' → Follows (Execute.execute_binop_high s) s s'
  unfolding execute_binop_high push pop Execute.execute_binop_high Machine.push Machine.pop
  execute_binop_high-Refines e = ground arith

  pub execute_low_eq-Refines : execute_low_eq s ≡ ok s' → Follows (Execute.execute_low_eq s) s s'
  unfolding execute_low_eq push pop Execute.execute_low_eq Machine.push Machine.pop
  execute_low_eq-Refines e = ground arith

  pub execute_const-Refines : execute_const s ≡ ok s' → Follows (Execute.execute_const s) s s'
  unfolding execute_const pop_next_int32 push Execute.execute_const Machine.push
      Machine.pop_next_int32
  execute_const-Refines e = ground arith

  pub execute_drop-Refines : execute_drop s ≡ ok s' → Follows (Execute.execute_drop s) s s'
  unfolding execute_drop pop Execute.execute_drop Machine.pop
  execute_drop-Refines e = ground arith

  pub execute_dup-Refines : execute_dup s ≡ ok s' → Follows (Execute.execute_dup s) s s'
  unfolding execute_dup push Execute.execute_dup Machine.push
  execute_dup-Refines e = ground arith

  pub execute_swap-Refines : execute_swap s ≡ ok s' → Follows (Execute.execute_swap s) s s'
  unfolding execute_swap push pop Execute.execute_swap Machine.push Machine.pop
  execute_swap-Refines e = ground arith

  pub execute_jmp-Refines : execute_jmp s ≡ ok s' → Follows (Execute.execute_jmp s) s s'
  unfolding execute_jmp pop_next_int32 Execute.execute_jmp Machine.pop_next_int32
  execute_jmp-Refines e = ground arith

  pub execute_cjmp-Refines :
      (nz : Bool) → execute_cjmp nz s ≡ ok s' → Follows (Execute.execute_cjmp nz s) s s'
  unfolding execute_cjmp pop_next_int32 pop Execute.execute_cjmp Machine.pop Machine.pop_next_int32
  execute_cjmp-Refines nz e = ground arith

  pub execute_ld_global-Refines :
      execute_ld_global s ≡ ok s' → Follows (Execute.execute_ld_global s) s s'
  unfolding execute_ld_global pop_next_int32 push Execute.execute_ld_global Machine.push
      Machine.pop_next_int32
  execute_ld_global-Refines e = ground arith

  pub execute_ld_local-Refines :
      execute_ld_local s ≡ ok s' → Follows (Execute.execute_ld_local s) s s'
  unfolding execute_ld_local pop_next_int32 push Execute.execute_ld_local Machine.push
      Machine.pop_next_int32
  execute_ld_local-Refines e = ground arith

  pub execute_ld_argument-Refines :
      execute_ld_argument s ≡ ok s' → Follows (Execute.execute_ld_argument s) s s'
  unfolding execute_ld_argument pop_next_int32 push Execute.execute_ld_argument Machine.push
      Machine.pop_next_int32
  execute_ld_argument-Refines e = ground arith

  pub execute_lda_global-Refines :
      execute_lda_global s ≡ ok s' → Follows (Execute.execute_lda_global s) s s'
  unfolding execute_lda_global pop_next_int32 push Execute.execute_lda_global Machine.push
      Machine.pop_next_int32
  execute_lda_global-Refines e = ground arith

  pub execute_lda_local-Refines :
      execute_lda_local s ≡ ok s' → Follows (Execute.execute_lda_local s) s s'
  unfolding execute_lda_local pop_next_int32 push Execute.execute_lda_local Machine.push
      Machine.pop_next_int32
  execute_lda_local-Refines e = ground arith

  pub execute_lda_argument-Refines :
      execute_lda_argument s ≡ ok s' → Follows (Execute.execute_lda_argument s) s s'
  unfolding execute_lda_argument pop_next_int32 push Execute.execute_lda_argument Machine.push
      Machine.pop_next_int32
  execute_lda_argument-Refines e = ground arith

  pub execute_st_global-Refines :
      execute_st_global s ≡ ok s' → Follows (Execute.execute_st_global s) s s'
  unfolding execute_st_global pop_next_int32 push pop Execute.execute_st_global Machine.push
      Machine.pop Machine.pop_next_int32 write_slot
  execute_st_global-Refines e = ground arith

  pub execute_st_local-Refines :
      execute_st_local s ≡ ok s' → Follows (Execute.execute_st_local s) s s'
  unfolding execute_st_local pop_next_int32 push pop Execute.execute_st_local Machine.push
      Machine.pop Machine.pop_next_int32 write_slot
  execute_st_local-Refines e = ground arith

  pub execute_st_argument-Refines :
      execute_st_argument s ≡ ok s' → Follows (Execute.execute_st_argument s) s s'
  unfolding execute_st_argument pop_next_int32 push pop Execute.execute_st_argument Machine.push
      Machine.pop Machine.pop_next_int32 write_slot
  execute_st_argument-Refines e = ground arith

  pub execute_line-Refines : execute_line s ≡ ok s' → Follows (Execute.execute_line s) s s'
  unfolding execute_line pop_next_int32 Execute.execute_line Machine.pop_next_int32
  execute_line-Refines e = ground arith

  pub execute_fail-Refines : execute_fail s ≡ ok s' → Follows (Execute.execute_fail s) s s'
  unfolding execute_fail pop_next_int32 pop Execute.execute_fail Machine.pop Machine.pop_next_int32
  execute_fail-Refines e = ground arith
