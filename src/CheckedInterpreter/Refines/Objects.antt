-- ===== src/CheckedInterpreter/Refines/Objects.antt =====
-- Where a handler of Assignment02 succeeds, that of Assignment04 does the same: the instructions that use objects.
use vm_design.Common.{arith, ℕ, ok, ◌≡◌}
use vm_design.Interpreter.Machine
use vm_design.Interpreter.Machine.{
  State, push_frame, pop_frame, peek_frame, set_return_address, write_slot, store_word, allocate,
}
use vm_design.CheckedInterpreter.Refines.{Follows}
use vm_design.Interpreter.Runtime.{Runtime}
use vm_design.Interpreter.Objects
use vm_design.CheckedInterpreter.Machine.{pop, pop_count, pop_next_int32, push}
use vm_design.CheckedInterpreter.Objects.{execute_string, execute_sexp, execute_sti, execute_sta}
use vm_design.CheckedInterpreter.Objects.{execute_elem, execute_ld_captured, execute_lda_captured}
use vm_design.CheckedInterpreter.Objects.{execute_st_captured, execute_tag, execute_array}
use vm_design.CheckedInterpreter.Objects.{execute_patt_str, execute_patt, execute_call_lread}
use vm_design.CheckedInterpreter.Objects.{execute_call_lwrite, execute_call_llength}
use vm_design.CheckedInterpreter.Objects.{execute_call_lstring, execute_call_barray, top_span}

module _ {W : Type 0} (rt : Runtime W) (s : State W) {s' : State W} where
  pub execute_string-Refines :
      execute_string rt s ≡ ok s' → Follows (Objects.execute_string rt s) s s'
  unfolding execute_string pop_next_int32 push Objects.execute_string Machine.push
      Machine.pop_next_int32 allocate
  execute_string-Refines e = ground arith

  pub execute_sexp-Refines : execute_sexp rt s ≡ ok s' → Follows (Objects.execute_sexp rt s) s s'
  unfolding execute_sexp pop_next_int32 push pop_count top_span Objects.execute_sexp Machine.push
      Machine.pop_count Machine.pop_next_int32 write_slot allocate
  execute_sexp-Refines e = ground arith

  pub execute_sti-Refines : execute_sti rt s ≡ ok s' → Follows (Objects.execute_sti rt s) s s'
  unfolding execute_sti push pop Objects.execute_sti Machine.push Machine.pop store_word
  execute_sti-Refines e = ground arith

  pub execute_sta-Refines : execute_sta rt s ≡ ok s' → Follows (Objects.execute_sta rt s) s s'
  unfolding execute_sta push pop Objects.execute_sta Machine.push Machine.pop store_word
  execute_sta-Refines e = ground arith

  pub execute_elem-Refines : execute_elem rt s ≡ ok s' → Follows (Objects.execute_elem rt s) s s'
  unfolding execute_elem push pop Objects.execute_elem Machine.push Machine.pop
  execute_elem-Refines e = ground arith

  pub execute_ld_captured-Refines :
      execute_ld_captured rt s ≡ ok s' → Follows (Objects.execute_ld_captured rt s) s s'
  unfolding execute_ld_captured pop_next_int32 Machine.pop_next_int32
      Machine.pop_next_int32_validated push Objects.execute_ld_captured Machine.push
  execute_ld_captured-Refines e = ground arith

  pub execute_lda_captured-Refines :
      execute_lda_captured rt s ≡ ok s' → Follows (Objects.execute_lda_captured rt s) s s'
  unfolding execute_lda_captured pop_next_int32 Machine.pop_next_int32
      Machine.pop_next_int32_validated push Objects.execute_lda_captured Machine.push
  execute_lda_captured-Refines e = ground arith

  pub execute_st_captured-Refines :
      execute_st_captured rt s ≡ ok s' → Follows (Objects.execute_st_captured rt s) s s'
  unfolding execute_st_captured pop_next_int32 Machine.pop_next_int32
      Machine.pop_next_int32_validated push pop Machine.pop Objects.execute_st_captured Machine.push
  execute_st_captured-Refines e = ground arith

  pub execute_tag-Refines : execute_tag rt s ≡ ok s' → Follows (Objects.execute_tag rt s) s s'
  unfolding execute_tag pop_next_int32 push pop Objects.execute_tag Machine.push Machine.pop
      Machine.pop_next_int32
  execute_tag-Refines e = ground arith

  pub execute_array-Refines : execute_array rt s ≡ ok s' → Follows (Objects.execute_array rt s) s s'
  unfolding execute_array pop_next_int32 push pop Objects.execute_array Machine.push Machine.pop
      Machine.pop_next_int32
  execute_array-Refines e = ground arith

  pub execute_patt_str-Refines :
      execute_patt_str rt s ≡ ok s' → Follows (Objects.execute_patt_str rt s) s s'
  unfolding execute_patt_str push pop Objects.execute_patt_str Machine.push Machine.pop
  execute_patt_str-Refines e = ground arith

  pub execute_patt-Refines :
      (test : W → ℕ → ℕ)
      → execute_patt rt test s ≡ ok s'
      → Follows (Objects.execute_patt rt test s) s s'
  unfolding execute_patt push pop Objects.execute_patt Machine.push Machine.pop
  execute_patt-Refines test e = ground arith

  pub execute_call_lread-Refines :
      execute_call_lread rt s ≡ ok s' → Follows (Objects.execute_call_lread rt s) s s'
  unfolding execute_call_lread push Objects.execute_call_lread Machine.push
  execute_call_lread-Refines e = ground arith

  pub execute_call_lwrite-Refines :
      execute_call_lwrite rt s ≡ ok s' → Follows (Objects.execute_call_lwrite rt s) s s'
  unfolding execute_call_lwrite push pop Objects.execute_call_lwrite Machine.push Machine.pop
  execute_call_lwrite-Refines e = ground arith

  pub execute_call_llength-Refines :
      execute_call_llength rt s ≡ ok s' → Follows (Objects.execute_call_llength rt s) s s'
  unfolding execute_call_llength push pop Objects.execute_call_llength Machine.push Machine.pop
  execute_call_llength-Refines e = ground arith

  pub execute_call_lstring-Refines :
      execute_call_lstring rt s ≡ ok s' → Follows (Objects.execute_call_lstring rt s) s s'
  unfolding execute_call_lstring push pop Objects.execute_call_lstring Machine.push Machine.pop
      allocate
  execute_call_lstring-Refines e = ground arith

  pub execute_call_barray-Refines :
      execute_call_barray rt s ≡ ok s' → Follows (Objects.execute_call_barray rt s) s s'
  unfolding execute_call_barray pop_next_int32 push pop_count top_span Objects.execute_call_barray
      Machine.push Machine.pop_count Machine.pop_next_int32 allocate
  execute_call_barray-Refines e = ground arith
