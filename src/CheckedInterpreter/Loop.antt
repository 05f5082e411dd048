-- ===== src/CheckedInterpreter/Loop.antt =====
-- The loop `interpret` of Assignment02/src/interpreter.cpp, lines 777 to 945. The constructor of
-- `class state` is the one of Assignment04.
use vm_design.Common.{ℕ, zero, suc, Bool, true, false, Option, none, some, Result, ok, err, ◌>>=◌}
use vm_design.Bytecode.{Bytecode}
use vm_design.Error
use vm_design.Error.{Error, failure}
use vm_design.Interpreter.Runtime.{Runtime}
use vm_design.Interpreter.Machine.{State}
use vm_design.Interpreter.Loop.{goes_on, leaves}
use vm_design.CheckedInterpreter.Machine.{pop_next_op}
use vm_design.CheckedInterpreter.Execute.{
  execute_binop_high, execute_low_eq, execute_const, execute_drop,
}
use vm_design.CheckedInterpreter.Execute.{execute_dup, execute_swap, execute_jmp, execute_cjmp}
use vm_design.CheckedInterpreter.Execute.{execute_ld_global, execute_ld_local, execute_ld_argument}
use vm_design.CheckedInterpreter.Execute.{
  execute_lda_global, execute_lda_local, execute_lda_argument,
}
use vm_design.CheckedInterpreter.Execute.{execute_st_global, execute_st_local, execute_st_argument}
use vm_design.CheckedInterpreter.Execute.{execute_line, execute_fail}
use vm_design.CheckedInterpreter.Objects.{execute_string, execute_sexp, execute_sti, execute_sta}
use vm_design.CheckedInterpreter.Objects.{execute_elem, execute_ld_captured, execute_lda_captured}
use vm_design.CheckedInterpreter.Objects.{execute_st_captured, execute_tag, execute_array}
use vm_design.CheckedInterpreter.Objects.{execute_patt_str, execute_patt, execute_call_lread}
use vm_design.CheckedInterpreter.Objects.{execute_call_lwrite, execute_call_llength}
use vm_design.CheckedInterpreter.Objects.{execute_call_lstring, execute_call_barray}
use vm_design.CheckedInterpreter.Calls.{execute_ret, execute_begin, execute_cbegin, execute_call}
use vm_design.CheckedInterpreter.Calls.{execute_callc, execute_closure}

module _ {W : Type 0} (rt : Runtime W) where
  -- The handler of an instruction, from the switch in the loop.
  unfoldable pub execute : Bytecode → State W → Result Error (Bool × State W)
  execute Bytecode.low_add s = goes_on (execute_binop_high s)
  execute Bytecode.low_sub s = goes_on (execute_binop_high s)
  execute Bytecode.low_mul s = goes_on (execute_binop_high s)
  execute Bytecode.low_div s = goes_on (execute_binop_high s)
  execute Bytecode.low_mod s = goes_on (execute_binop_high s)
  execute Bytecode.low_lt s = goes_on (execute_binop_high s)
  execute Bytecode.low_le s = goes_on (execute_binop_high s)
  execute Bytecode.low_gt s = goes_on (execute_binop_high s)
  execute Bytecode.low_ge s = goes_on (execute_binop_high s)
  execute Bytecode.low_ne s = goes_on (execute_binop_high s)
  execute Bytecode.low_and s = goes_on (execute_binop_high s)
  execute Bytecode.low_or s = goes_on (execute_binop_high s)
  execute Bytecode.low_eq s = goes_on (execute_low_eq s)
  execute Bytecode.const s = goes_on (execute_const s)
  execute Bytecode.drop s = goes_on (execute_drop s)
  execute Bytecode.dup s = goes_on (execute_dup s)
  execute Bytecode.swap s = goes_on (execute_swap s)
  execute Bytecode.jmp s = goes_on (execute_jmp s)
  execute Bytecode.ld_global s = goes_on (execute_ld_global s)
  execute Bytecode.ld_local s = goes_on (execute_ld_local s)
  execute Bytecode.ld_argument s = goes_on (execute_ld_argument s)
  execute Bytecode.lda_global s = goes_on (execute_lda_global s)
  execute Bytecode.lda_local s = goes_on (execute_lda_local s)
  execute Bytecode.lda_argument s = goes_on (execute_lda_argument s)
  execute Bytecode.st_global s = goes_on (execute_st_global s)
  execute Bytecode.st_local s = goes_on (execute_st_local s)
  execute Bytecode.st_argument s = goes_on (execute_st_argument s)
  execute Bytecode.line s = goes_on (execute_line s)
  execute Bytecode.begin s = goes_on (execute_begin s)
  execute Bytecode.cbegin s = goes_on (execute_cbegin s)
  execute Bytecode.call s = goes_on (execute_call s)
  execute Bytecode.patt_str s = goes_on (execute_patt_str rt s)
  execute Bytecode.string s = goes_on (execute_string rt s)
  execute Bytecode.sexp s = goes_on (execute_sexp rt s)
  execute Bytecode.sti s = goes_on (execute_sti rt s)
  execute Bytecode.sta s = goes_on (execute_sta rt s)
  execute Bytecode.elem s = goes_on (execute_elem rt s)
  execute Bytecode.ld_captured s = goes_on (execute_ld_captured rt s)
  execute Bytecode.lda_captured s = goes_on (execute_lda_captured rt s)
  execute Bytecode.st_captured s = goes_on (execute_st_captured rt s)
  execute Bytecode.tag s = goes_on (execute_tag rt s)
  execute Bytecode.array s = goes_on (execute_array rt s)
  execute Bytecode.closure s = goes_on (execute_closure rt s)
  execute Bytecode.callc s = goes_on (execute_callc rt s)
  execute Bytecode.call_lread s = goes_on (execute_call_lread rt s)
  execute Bytecode.call_lwrite s = goes_on (execute_call_lwrite rt s)
  execute Bytecode.call_llength s = goes_on (execute_call_llength rt s)
  execute Bytecode.call_lstring s = goes_on (execute_call_lstring rt s)
  execute Bytecode.call_barray s = goes_on (execute_call_barray rt s)
  execute Bytecode.cjmpz s = goes_on (execute_cjmp false s)
  execute Bytecode.cjmpnz s = goes_on (execute_cjmp true s)
  execute Bytecode.fail s = goes_on (execute_fail s)
  execute Bytecode.patt_string s = goes_on (execute_patt rt rt.bstring_tag_patt s)
  execute Bytecode.patt_array s = goes_on (execute_patt rt rt.barray_tag_patt s)
  execute Bytecode.patt_sexp s = goes_on (execute_patt rt rt.bsexp_tag_patt s)
  execute Bytecode.patt_ref s = goes_on (execute_patt rt rt.bboxed_patt s)
  execute Bytecode.patt_val s = goes_on (execute_patt rt rt.bunboxed_patt s)
  execute Bytecode.patt_fun s = goes_on (execute_patt rt rt.bclosure_tag_patt s)
  execute Bytecode.end s = leaves (execute_ret s)
  execute Bytecode.ret s = leaves (execute_ret s)
  execute Bytecode.stop s = ok (false, s)
  execute _ s = err (failure Error.unknown_bytecode s.ip)

  -- One round of the loop.
  unfoldable pub step : State W → Result Error (Bool × State W)
  step s = do (op, s₁) ← pop_next_op s; execute op s₁

  -- `none` is a run that has used up its fuel.
  unfoldable pub run : ℕ → State W → Option (Result Error (State W))
  run zero s = none
  run (suc fuel) s = elim (step s) [
    | err e ↦ some (err e)
    | ok (true, s') ↦ run fuel s'
    | ok (false, s') ↦ some (ok s')
  ]
