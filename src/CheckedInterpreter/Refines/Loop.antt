-- ===== src/CheckedInterpreter/Refines/Loop.antt =====
-- Where a round or a run of Assignment02's loop succeeds, that of Assignment04 does the same.
use vm_design.Common.{arith, ℕ, Bool, true, false, Result, ok, err, ◌≡◌, refl, sym, ap, >>=-eq-ok}
use vm_design.Common.Words.{add32}
use vm_design.Bytecode.{Bytecode}
use vm_design.Bytefile.{Bytefile}
use vm_design.Error.{Error}
use vm_design.Interpreter.Machine.{State}
use vm_design.Interpreter.Runtime.{Runtime}
use vm_design.Interpreter.Calls
use vm_design.Interpreter.Loop
use vm_design.Interpreter.Loop.{goes_on, leaves}
use vm_design.CheckedInterpreter.Calls.{execute_ret}
use vm_design.CheckedInterpreter.Loop.{execute}
use vm_design.CheckedInterpreter.Refines.{Follows}
use vm_design.CheckedInterpreter.Refines.Calls.{locals_fit}
use vm_design.CheckedInterpreter.Refines.Execute.{
  execute_binop_high-Refines, execute_cjmp-Refines, execute_const-Refines, execute_drop-Refines,
  execute_dup-Refines, execute_fail-Refines, execute_jmp-Refines, execute_ld_argument-Refines,
  execute_ld_global-Refines, execute_ld_local-Refines, execute_lda_argument-Refines,
  execute_lda_global-Refines, execute_lda_local-Refines, execute_line-Refines,
  execute_low_eq-Refines, execute_st_argument-Refines, execute_st_global-Refines,
  execute_st_local-Refines, execute_swap-Refines,
}
use vm_design.CheckedInterpreter.Refines.Objects.{
  execute_array-Refines, execute_call_barray-Refines, execute_call_llength-Refines,
  execute_call_lread-Refines, execute_call_lstring-Refines, execute_call_lwrite-Refines,
  execute_elem-Refines, execute_ld_captured-Refines, execute_lda_captured-Refines,
  execute_patt-Refines, execute_patt_str-Refines, execute_sexp-Refines, execute_st_captured-Refines,
  execute_sta-Refines, execute_sti-Refines, execute_string-Refines, execute_tag-Refines,
}
use vm_design.CheckedInterpreter.Refines.Calls.{
  execute_begin-Refines, execute_call-Refines, execute_callc-Refines, execute_cbegin-Refines,
  execute_closure-Refines, execute_ret-Refines,
}

-- Whether the number of locals fits in 16 bits where `op` at `ip` enters a function.
unfoldable pub entry_fits : Bytecode → Bytefile → ℕ → Bool
entry_fits Bytecode.begin file ip = locals_fit file ip
entry_fits Bytecode.cbegin file ip = locals_fit file ip
entry_fits _ file ip = true

module _ {W : Type 0} (s : State W) where
  goes_on-Refines :
      (r r' : Result Error (State W)) {more : Bool} {s' : State W}
      → ((u : State W) → r ≡ ok u → Follows r' s u)
      → goes_on r ≡ ok (more, s')
      → (goes_on r' ≡ ok (more, s')) × (s'.file ≡ s.file)
  goes_on-Refines (ok u) r' follows e = let (p, q) = follows u refl in ground (p, q, arith)
  goes_on-Refines (err x) r' follows e = absurd (cc)

  leaves_ret-Refines :
      {more : Bool} {s' : State W}
      → leaves (execute_ret s) ≡ ok (more, s')
      → (leaves (Calls.execute_ret s) ≡ ok (more, s')) × (s'.file ≡ s.file)
  leaves_ret-Refines e =
      let ((last, u), p, e₁) = >>=-eq-ok _ _ e in
      let (q, f) = execute_ret-Refines s p in ground (q, f, arith)

module _ {W : Type 0} (rt : Runtime W) where
  -- The instruction stands at `ip`.
  pub execute-Refines :
      (op : Bytecode) (ip : ℕ) (s : State W) {more : Bool} {s' : State W}
      → s.ip ≡ add32 ip 1
      → entry_fits op s.file ip ≡ true
      → execute rt op s ≡ ok (more, s')
      → (Loop.execute rt op s ≡ ok (more, s')) × (s'.file ≡ s.file)
  unfolding execute Loop.execute entry_fits
  execute-Refines Bytecode.low_add ip s at fits e =
      goes_on-Refines s _ _ (λ u h. execute_binop_high-Refines s h) e
  execute-Refines Bytecode.low_sub ip s at fits e =
      goes_on-Refines s _ _ (λ u h. execute_binop_high-Refines s h) e
  execute-Refines Bytecode.low_mul ip s at fits e =
      goes_on-Refines s _ _ (λ u h. execute_binop_high-Refines s h) e
  execute-Refines Bytecode.low_div ip s at fits e =
      goes_on-Refines s _ _ (λ u h. execute_binop_high-Refines s h) e
  execute-Refines Bytecode.low_mod ip s at fits e =
      goes_on-Refines s _ _ (λ u h. execute_binop_high-Refines s h) e
  execute-Refines Bytecode.low_lt ip s at fits e =
      goes_on-Refines s _ _ (λ u h. execute_binop_high-Refines s h) e
  execute-Refines Bytecode.low_le ip s at fits e =
      goes_on-Refines s _ _ (λ u h. execute_binop_high-Refines s h) e
  execute-Refines Bytecode.low_gt ip s at fits e =
      goes_on-Refines s _ _ (λ u h. execute_binop_high-Refines s h) e
  execute-Refines Bytecode.low_ge ip s at fits e =
      goes_on-Refines s _ _ (λ u h. execute_binop_high-Refines s h) e
  execute-Refines Bytecode.low_ne ip s at fits e =
      goes_on-Refines s _ _ (λ u h. execute_binop_high-Refines s h) e
  execute-Refines Bytecode.low_and ip s at fits e =
      goes_on-Refines s _ _ (λ u h. execute_binop_high-Refines s h) e
  execute-Refines Bytecode.low_or ip s at fits e =
      goes_on-Refines s _ _ (λ u h. execute_binop_high-Refines s h) e
  execute-Refines Bytecode.low_eq ip s at fits e =
      goes_on-Refines s _ _ (λ u h. execute_low_eq-Refines s h) e
  execute-Refines Bytecode.const ip s at fits e =
      goes_on-Refines s _ _ (λ u h. execute_const-Refines s h) e
  execute-Refines Bytecode.drop ip s at fits e =
      goes_on-Refines s _ _ (λ u h. execute_drop-Refines s h) e
  execute-Refines Bytecode.dup ip s at fits e =
      goes_on-Refines s _ _ (λ u h. execute_dup-Refines s h) e
  execute-Refines Bytecode.swap ip s at fits e =
      goes_on-Refines s _ _ (λ u h. execute_swap-Refines s h) e
  execute-Refines Bytecode.jmp ip s at fits e =
      goes_on-Refines s _ _ (λ u h. execute_jmp-Refines s h) e
  execute-Refines Bytecode.ld_global ip s at fits e =
      goes_on-Refines s _ _ (λ u h. execute_ld_global-Refines s h) e
  execute-Refines Bytecode.ld_local ip s at fits e =
      goes_on-Refines s _ _ (λ u h. execute_ld_local-Refines s h) e
  execute-Refines Bytecode.ld_argument ip s at fits e =
      goes_on-Refines s _ _ (λ u h. execute_ld_argument-Refines s h) e
  execute-Refines Bytecode.lda_global ip s at fits e =
      goes_on-Refines s _ _ (λ u h. execute_lda_global-Refines s h) e
  execute-Refines Bytecode.lda_local ip s at fits e =
      goes_on-Refines s _ _ (λ u h. execute_lda_local-Refines s h) e
  execute-Refines Bytecode.lda_argument ip s at fits e =
      goes_on-Refines s _ _ (λ u h. execute_lda_argument-Refines s h) e
  execute-Refines Bytecode.st_global ip s at fits e =
      goes_on-Refines s _ _ (λ u h. execute_st_global-Refines s h) e
  execute-Refines Bytecode.st_local ip s at fits e =
      goes_on-Refines s _ _ (λ u h. execute_st_local-Refines s h) e
  execute-Refines Bytecode.st_argument ip s at fits e =
      goes_on-Refines s _ _ (λ u h. execute_st_argument-Refines s h) e
  execute-Refines Bytecode.line ip s at fits e =
      goes_on-Refines s _ _ (λ u h. execute_line-Refines s h) e
  execute-Refines Bytecode.begin ip s at fits e =
      goes_on-Refines s _ _ (λ u h. execute_begin-Refines s ip at fits h) e
  execute-Refines Bytecode.cbegin ip s at fits e =
      goes_on-Refines s _ _ (λ u h. execute_cbegin-Refines s ip at fits h) e
  execute-Refines Bytecode.call ip s at fits e =
      goes_on-Refines s _ _ (λ u h. execute_call-Refines s h) e
  execute-Refines Bytecode.patt_str ip s at fits e =
      goes_on-Refines s _ _ (λ u h. execute_patt_str-Refines rt s h) e
  execute-Refines Bytecode.string ip s at fits e =
      goes_on-Refines s _ _ (λ u h. execute_string-Refines rt s h) e
  execute-Refines Bytecode.sexp ip s at fits e =
      goes_on-Refines s _ _ (λ u h. execute_sexp-Refines rt s h) e
  execute-Refines Bytecode.sti ip s at fits e =
      goes_on-Refines s _ _ (λ u h. execute_sti-Refines rt s h) e
  execute-Refines Bytecode.sta ip s at fits e =
      goes_on-Refines s _ _ (λ u h. execute_sta-Refines rt s h) e
  execute-Refines Bytecode.elem ip s at fits e =
      goes_on-Refines s _ _ (λ u h. execute_elem-Refines rt s h) e
  execute-Refines Bytecode.ld_captured ip s at fits e =
      goes_on-Refines s _ _ (λ u h. execute_ld_captured-Refines rt s h) e
  execute-Refines Bytecode.lda_captured ip s at fits e =
      goes_on-Refines s _ _ (λ u h. execute_lda_captured-Refines rt s h) e
  execute-Refines Bytecode.st_captured ip s at fits e =
      goes_on-Refines s _ _ (λ u h. execute_st_captured-Refines rt s h) e
  execute-Refines Bytecode.tag ip s at fits e =
      goes_on-Refines s _ _ (λ u h. execute_tag-Refines rt s h) e
  execute-Refines Bytecode.array ip s at fits e =
      goes_on-Refines s _ _ (λ u h. execute_array-Refines rt s h) e
  execute-Refines Bytecode.closure ip s at fits e =
      goes_on-Refines s _ _ (λ u h. execute_closure-Refines rt s h) e
  execute-Refines Bytecode.callc ip s at fits e =
      goes_on-Refines s _ _ (λ u h. execute_callc-Refines rt s h) e
  execute-Refines Bytecode.call_lread ip s at fits e =
      goes_on-Refines s _ _ (λ u h. execute_call_lread-Refines rt s h) e
  execute-Refines Bytecode.call_lwrite ip s at fits e =
      goes_on-Refines s _ _ (λ u h. execute_call_lwrite-Refines rt s h) e
  execute-Refines Bytecode.call_llength ip s at fits e =
      goes_on-Refines s _ _ (λ u h. execute_call_llength-Refines rt s h) e
  execute-Refines Bytecode.call_lstring ip s at fits e =
      goes_on-Refines s _ _ (λ u h. execute_call_lstring-Refines rt s h) e
  execute-Refines Bytecode.call_barray ip s at fits e =
      goes_on-Refines s _ _ (λ u h. execute_call_barray-Refines rt s h) e
  execute-Refines Bytecode.cjmpz ip s at fits e =
      goes_on-Refines s _ _ (λ u h. execute_cjmp-Refines s false h) e
  execute-Refines Bytecode.cjmpnz ip s at fits e =
      goes_on-Refines s _ _ (λ u h. execute_cjmp-Refines s true h) e
  execute-Refines Bytecode.fail ip s at fits e =
      goes_on-Refines s _ _ (λ u h. execute_fail-Refines s h) e
  execute-Refines Bytecode.patt_string ip s at fits e =
      goes_on-Refines s _ _ (λ u h. execute_patt-Refines rt s rt.bstring_tag_patt h) e
  execute-Refines Bytecode.patt_array ip s at fits e =
      goes_on-Refines s _ _ (λ u h. execute_patt-Refines rt s rt.barray_tag_patt h) e
  execute-Refines Bytecode.patt_sexp ip s at fits e =
      goes_on-Refines s _ _ (λ u h. execute_patt-Refines rt s rt.bsexp_tag_patt h) e
  execute-Refines Bytecode.patt_ref ip s at fits e =
      goes_on-Refines s _ _ (λ u h. execute_patt-Refines rt s rt.bboxed_patt h) e
  execute-Refines Bytecode.patt_val ip s at fits e =
      goes_on-Refines s _ _ (λ u h. execute_patt-Refines rt s rt.bunboxed_patt h) e
  execute-Refines Bytecode.patt_fun ip s at fits e =
      goes_on-Refines s _ _ (λ u h. execute_patt-Refines rt s rt.bclosure_tag_patt h) e
  execute-Refines Bytecode.end ip s at fits e = leaves_ret-Refines s e
  execute-Refines Bytecode.ret ip s at fits e = leaves_ret-Refines s e
  execute-Refines Bytecode.stop ip s at fits e =
      (e, ap (λ r. elim r [ ok (_, u) ↦ u.file | err x ↦ s.file ]) (sym e))
  execute-Refines Bytecode.binop_high ip s at fits e = absurd (cc)
  execute-Refines (Bytecode.other b) ip s at fits e = absurd (cc)
