-- ===== src/Verifier/Visit.antt =====
-- The switch on the instruction: Assignment04/src/verifier.cpp, lines 216 to 315.
use vm_design.Common.{Result, ok, err}
use vm_design.Bytecode.{Bytecode}
use vm_design.Error
use vm_design.Error.{Error, failure}
use vm_design.Verifier.State.{Verifier}
use vm_design.Verifier.Process.{
  process_argument, process_begin, process_call, process_call_barray, process_callc, process_cjmp,
  process_closure, process_fail, process_global, process_jmp, process_local, process_ret,
  process_sexp, process_single_arg, process_string, process_tag,
}

-- The instruction that has just been read.
unfoldable pub visit_op : Bytecode → Verifier → Result Error Verifier
visit_op Bytecode.const v = process_single_arg v
visit_op Bytecode.ld_captured v = process_single_arg v
visit_op Bytecode.lda_captured v = process_single_arg v
visit_op Bytecode.st_captured v = process_single_arg v
visit_op Bytecode.array v = process_single_arg v
visit_op Bytecode.line v = process_single_arg v
visit_op Bytecode.string v = process_string v
visit_op Bytecode.sexp v = process_sexp v
visit_op Bytecode.jmp v = process_jmp v
visit_op Bytecode.end v = process_ret v
visit_op Bytecode.ret v = process_ret v
visit_op Bytecode.ld_global v = process_global v
visit_op Bytecode.lda_global v = process_global v
visit_op Bytecode.st_global v = process_global v
visit_op Bytecode.ld_local v = process_local v
visit_op Bytecode.lda_local v = process_local v
visit_op Bytecode.st_local v = process_local v
visit_op Bytecode.ld_argument v = process_argument v
visit_op Bytecode.lda_argument v = process_argument v
visit_op Bytecode.st_argument v = process_argument v
visit_op Bytecode.cjmpz v = process_cjmp v
visit_op Bytecode.cjmpnz v = process_cjmp v
visit_op Bytecode.begin v = process_begin v
visit_op Bytecode.cbegin v = process_begin v
visit_op Bytecode.closure v = process_closure v
visit_op Bytecode.callc v = process_callc v
visit_op Bytecode.call v = process_call v
visit_op Bytecode.tag v = process_tag v
visit_op Bytecode.fail v = process_fail v
visit_op Bytecode.call_barray v = process_call_barray v
visit_op Bytecode.low_add v = ok v
visit_op Bytecode.low_sub v = ok v
visit_op Bytecode.low_mul v = ok v
visit_op Bytecode.low_div v = ok v
visit_op Bytecode.low_mod v = ok v
visit_op Bytecode.low_lt v = ok v
visit_op Bytecode.low_le v = ok v
visit_op Bytecode.low_gt v = ok v
visit_op Bytecode.low_ge v = ok v
visit_op Bytecode.low_eq v = ok v
visit_op Bytecode.low_ne v = ok v
visit_op Bytecode.low_and v = ok v
visit_op Bytecode.low_or v = ok v
visit_op Bytecode.sti v = ok v
visit_op Bytecode.sta v = ok v
visit_op Bytecode.drop v = ok v
visit_op Bytecode.dup v = ok v
visit_op Bytecode.swap v = ok v
visit_op Bytecode.elem v = ok v
visit_op Bytecode.patt_str v = ok v
visit_op Bytecode.patt_string v = ok v
visit_op Bytecode.patt_array v = ok v
visit_op Bytecode.patt_sexp v = ok v
visit_op Bytecode.patt_ref v = ok v
visit_op Bytecode.patt_val v = ok v
visit_op Bytecode.patt_fun v = ok v
visit_op Bytecode.call_lread v = ok v
visit_op Bytecode.call_lwrite v = ok v
visit_op Bytecode.call_llength v = ok v
visit_op Bytecode.call_lstring v = ok v
visit_op Bytecode.stop v = ok v
visit_op _ v = err (failure Error.unknown_bytecode v.addr)
