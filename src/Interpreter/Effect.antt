-- ===== src/Interpreter/Effect.antt =====
-- The depth of the interpreter's stack behind each instruction.
pub mod Operands
pub mod Agreement
use vm_design.Common.{ℕ, ◌+◌, ◌≤◌, ◌≡◌, arith, ok, Bool}
use vm_design.Interpreter.Runtime.{Runtime}
use vm_design.Interpreter.Machine.{State, write_slot, peek, push, pop, pop_count, span}
use vm_design.Interpreter.Machine.{pop_next_int32, pop_next_int32_validated, allocate, store_word}
use vm_design.Interpreter.Execute.{execute_binop_high, execute_low_eq, execute_const, execute_drop}
use vm_design.Interpreter.Execute.{execute_dup, execute_swap, execute_jmp, execute_cjmp}
use vm_design.Interpreter.Execute.{execute_ld_global, execute_ld_local, execute_ld_argument}
use vm_design.Interpreter.Execute.{execute_lda_global, execute_lda_local, execute_lda_argument}
use vm_design.Interpreter.Execute.{execute_st_global, execute_st_local, execute_st_argument}
use vm_design.Interpreter.Execute.{execute_line}
use vm_design.Interpreter.Objects.{execute_string, execute_sexp, execute_sti, execute_sta}
use vm_design.Interpreter.Objects.{execute_elem, execute_ld_captured, execute_lda_captured}
use vm_design.Interpreter.Objects.{execute_st_captured, execute_tag, execute_array}
use vm_design.Interpreter.Objects.{execute_patt_str, execute_patt, execute_call_lread}
use vm_design.Interpreter.Objects.{execute_call_lwrite, execute_call_llength}
use vm_design.Interpreter.Objects.{execute_call_lstring, execute_call_barray, is_kind}

-- From `s` to `s'`: `down` words off the stack, `up` words onto it.
pub record Moves {W : Type 0} (s : State W) (down up : ℕ) (s' : State W) : Type 0 where
  pub depth : s'.size + down ≡ s.size + up
  pub enough : down ≤ s.size

module _ {W : Type 0} (s : State W) {s' : State W} where
  pub execute_binop_high-Moves : execute_binop_high s ≡ ok s' → Moves s 2 1 s'
  unfolding execute_binop_high pop push
  execute_binop_high-Moves e = ground arith

  pub execute_low_eq-Moves : execute_low_eq s ≡ ok s' → Moves s 2 1 s'
  unfolding execute_low_eq pop push
  execute_low_eq-Moves e = ground arith

  pub execute_const-Moves : execute_const s ≡ ok s' → Moves s 0 1 s'
  unfolding execute_const pop_next_int32 push
  execute_const-Moves e = ground arith

  pub execute_drop-Moves : execute_drop s ≡ ok s' → Moves s 1 0 s'
  unfolding execute_drop pop
  execute_drop-Moves e = ground arith

  pub execute_dup-Moves : execute_dup s ≡ ok s' → Moves s 0 1 s'
  unfolding execute_dup push
  execute_dup-Moves e = ground arith

  pub execute_swap-Moves : execute_swap s ≡ ok s' → Moves s 2 2 s'
  unfolding execute_swap pop push
  execute_swap-Moves e = ground arith

  pub execute_jmp-Moves : execute_jmp s ≡ ok s' → Moves s 0 0 s'
  unfolding execute_jmp pop_next_int32
  execute_jmp-Moves e = ground arith

  pub execute_ld_global-Moves : execute_ld_global s ≡ ok s' → Moves s 0 1 s'
  unfolding execute_ld_global pop_next_int32 push
  execute_ld_global-Moves e = ground arith

  pub execute_ld_local-Moves : execute_ld_local s ≡ ok s' → Moves s 0 1 s'
  unfolding execute_ld_local pop_next_int32 push
  execute_ld_local-Moves e = ground arith

  pub execute_ld_argument-Moves : execute_ld_argument s ≡ ok s' → Moves s 0 1 s'
  unfolding execute_ld_argument pop_next_int32 push
  execute_ld_argument-Moves e = ground arith

  pub execute_lda_global-Moves : execute_lda_global s ≡ ok s' → Moves s 0 1 s'
  unfolding execute_lda_global pop_next_int32 push
  execute_lda_global-Moves e = ground arith

  pub execute_lda_local-Moves : execute_lda_local s ≡ ok s' → Moves s 0 1 s'
  unfolding execute_lda_local pop_next_int32 push
  execute_lda_local-Moves e = ground arith

  pub execute_lda_argument-Moves : execute_lda_argument s ≡ ok s' → Moves s 0 1 s'
  unfolding execute_lda_argument pop_next_int32 push
  execute_lda_argument-Moves e = ground arith

  pub execute_st_global-Moves : execute_st_global s ≡ ok s' → Moves s 1 1 s'
  unfolding execute_st_global pop pop_next_int32 push write_slot
  execute_st_global-Moves e = ground arith

  pub execute_st_local-Moves : execute_st_local s ≡ ok s' → Moves s 1 1 s'
  unfolding execute_st_local pop pop_next_int32 push write_slot
  execute_st_local-Moves e = ground arith

  pub execute_st_argument-Moves : execute_st_argument s ≡ ok s' → Moves s 1 1 s'
  unfolding execute_st_argument pop pop_next_int32 push write_slot
  execute_st_argument-Moves e = ground arith

  pub execute_line-Moves : execute_line s ≡ ok s' → Moves s 0 0 s'
  unfolding execute_line pop_next_int32
  execute_line-Moves e = ground arith

  pub execute_cjmp-Moves : (nz : Bool) → execute_cjmp nz s ≡ ok s' → Moves s 1 0 s'
  unfolding execute_cjmp pop_next_int32 pop
  execute_cjmp-Moves nz e = ground arith

  store_word-size :
      (rt : Runtime W) (address val : ℕ) → store_word rt address val s ≡ ok s' → s'.size ≡ s.size
  unfolding store_word
  store_word-size rt address val e = ground arith

module _ {W : Type 0} (rt : Runtime W) (s : State W) {s' : State W} where
  pub execute_string-Moves : execute_string rt s ≡ ok s' → Moves s 0 1 s'
  unfolding execute_string pop_next_int32 push allocate
  execute_string-Moves e = ground arith

  pub execute_sti-Moves : execute_sti rt s ≡ ok s' → Moves s 2 1 s'
  unfolding execute_sti pop push store_word
  execute_sti-Moves e = ground arith

  pub execute_elem-Moves : execute_elem rt s ≡ ok s' → Moves s 2 1 s'
  unfolding execute_elem pop push
  execute_elem-Moves e = ground arith

  pub execute_ld_captured-Moves : execute_ld_captured rt s ≡ ok s' → Moves s 0 1 s'
  unfolding execute_ld_captured pop_next_int32_validated push
  execute_ld_captured-Moves e = ground arith

  pub execute_lda_captured-Moves : execute_lda_captured rt s ≡ ok s' → Moves s 0 1 s'
  unfolding execute_lda_captured pop_next_int32_validated push
  execute_lda_captured-Moves e = ground arith

  pub execute_st_captured-Moves : execute_st_captured rt s ≡ ok s' → Moves s 1 1 s'
  unfolding execute_st_captured pop pop_next_int32_validated push
  execute_st_captured-Moves e = ground arith

  pub execute_tag-Moves : execute_tag rt s ≡ ok s' → Moves s 1 1 s'
  unfolding execute_tag pop_next_int32 pop push
  execute_tag-Moves e = ground arith

  pub execute_array-Moves : execute_array rt s ≡ ok s' → Moves s 1 1 s'
  unfolding execute_array pop_next_int32 pop push
  execute_array-Moves e = ground arith

  pub execute_patt_str-Moves : execute_patt_str rt s ≡ ok s' → Moves s 2 1 s'
  unfolding execute_patt_str pop push
  execute_patt_str-Moves e = ground arith

  pub execute_call_lread-Moves : execute_call_lread rt s ≡ ok s' → Moves s 0 1 s'
  unfolding execute_call_lread push
  execute_call_lread-Moves e = ground arith

  pub execute_call_lwrite-Moves : execute_call_lwrite rt s ≡ ok s' → Moves s 1 1 s'
  unfolding execute_call_lwrite pop push
  execute_call_lwrite-Moves e = ground arith

  pub execute_call_llength-Moves : execute_call_llength rt s ≡ ok s' → Moves s 1 1 s'
  unfolding execute_call_llength pop push
  execute_call_llength-Moves e = ground arith

  pub execute_call_lstring-Moves : execute_call_lstring rt s ≡ ok s' → Moves s 1 1 s'
  unfolding execute_call_lstring pop push allocate
  execute_call_lstring-Moves e = ground arith

  pub execute_patt-Moves : (test : W → ℕ → ℕ) → execute_patt rt test s ≡ ok s' → Moves s 1 1 s'
  unfolding execute_patt pop push
  execute_patt-Moves test e = ground arith
