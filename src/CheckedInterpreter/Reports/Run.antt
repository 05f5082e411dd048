-- ===== src/CheckedInterpreter/Reports/Run.antt =====
-- The loop: a run that keeps to the checked instructions ends well or with a report.
use vm_design.Common.{
  arith, ℕ, zero, suc, ◌<◌, ◌≡◌, refl, Bool, true, false, ◌&&◌, &&-eq-true, Option, some, Result,
  ok, err,
}
use vm_design.Bytecode.{Bytecode}
use vm_design.Bytefile.{get_code}
use vm_design.Error.{Error, failure, thrown, undefined}
use vm_design.Interpreter.Machine.{State}
use vm_design.Interpreter.Runtime.{Runtime}
use vm_design.Interpreter.Value.{is_integer}
use vm_design.Interpreter.Loop.{goes_on, leaves}
use vm_design.CheckedInterpreter.Objects.{execute_call_lread, execute_call_lwrite}
use vm_design.CheckedInterpreter.Loop.{execute, step, run}
use vm_design.CheckedInterpreter.Reports.{Post, returns, reports, ◌⟫◌, Valid, is_checked}
use vm_design.CheckedInterpreter.Reports.Steps.{checked, pop_next_op-Post, pop-Post, push-Post}
use vm_design.CheckedInterpreter.Reports.Execute.{
  execute_binop_high-Post, execute_cjmp-Post, execute_const-Post, execute_drop-Post,
  execute_fail-Post, execute_jmp-Post, execute_ld_global-Post, execute_ld_local-Post,
  execute_lda_global-Post, execute_lda_local-Post, execute_line-Post, execute_low_eq-Post,
  execute_st_global-Post, execute_st_local-Post, execute_swap-Post,
}
use vm_design.CheckedInterpreter.Reports.Calls.{
  execute_begin-Post, execute_call-Post, execute_cbegin-Post, execute_ret-Post,
}

-- Whether the next `fuel` rounds keep to the checked instructions.
unfoldable pub keeps_to_checked : {W : Type 0} → Runtime W → ℕ → State W → Bool
keeps_to_checked rt zero s = true
keeps_to_checked rt (suc fuel) s =
    elim (get_code s.file s.ip) [ ok op ↦ is_checked op s.file.code_size s.frames | err e ↦ true ]
    && elim (step rt s) [ ok (true, s') ↦ keeps_to_checked rt fuel s' | _ ↦ true ]

-- The run has not failed, or it has with a report.
abbrev pub is_report : Error → Bool
is_report (failure message at) = true
is_report _ = false

abbrev pub is_reported : {W : Type 0} → Option (Result Error (State W)) → Bool
is_reported (some (err e)) = is_report e
is_reported _ = true

goes_on-Post :
    {W : Type 0} {r : Result Error (State W)}
    → Post Valid r
    → Post {A = Bool × State W} (λ (more, s'). more ≡ true → Valid s') (goes_on r)
goes_on-Post p = p ⟫ λ s v. returns (λ _. v)

leaves-Post :
    {W : Type 0} {r : Result Error (Bool × State W)}
    → Post {A = Bool × State W} (λ (last, s'). last ≡ false → Valid s') r
    → Post {A = Bool × State W} (λ (more, s'). more ≡ true → Valid s') (leaves r)
leaves-Post p = p ⟫ λ (last, s) v. returns (λ q. v (ground arith))

module _ {W : Type 0} (rt : Runtime W) where
  execute_call_lread-Post : (s : State W) → Valid s → Post Valid (execute_call_lread rt s)
  unfolding execute_call_lread
  execute_call_lread-Post s v = push-Post (record s { world = (rt.lread s.world).1 }) _ v.0

  execute_call_lwrite-Post : (s : State W) → Valid s → Post Valid (execute_call_lwrite rt s)
  unfolding execute_call_lwrite
  execute_call_lwrite-Post s v = pop-Post s v ⟫ λ (val, s₁) (v₁, _, _, _).
      checked s₁ (is_integer val) _ _
        λ _. push-Post (record s₁ { world = rt.lwrite val s₁.world }) 0 v₁.0

  execute-Post :
      (op : Bytecode) (s : State W)
      → 0 < s.ip
      → is_checked op s.file.code_size s.frames ≡ true
      → Valid s
      → Post {A = Bool × State W} (λ (more, s'). more ≡ true → Valid s') (execute rt op s)
  unfolding execute is_checked
  execute-Post Bytecode.low_add s p c v = goes_on-Post (execute_binop_high-Post s p v)
  execute-Post Bytecode.low_sub s p c v = goes_on-Post (execute_binop_high-Post s p v)
  execute-Post Bytecode.low_mul s p c v = goes_on-Post (execute_binop_high-Post s p v)
  execute-Post Bytecode.low_div s p c v = goes_on-Post (execute_binop_high-Post s p v)
  execute-Post Bytecode.low_mod s p c v = goes_on-Post (execute_binop_high-Post s p v)
  execute-Post Bytecode.low_lt s p c v = goes_on-Post (execute_binop_high-Post s p v)
  execute-Post Bytecode.low_le s p c v = goes_on-Post (execute_binop_high-Post s p v)
  execute-Post Bytecode.low_gt s p c v = goes_on-Post (execute_binop_high-Post s p v)
  execute-Post Bytecode.low_ge s p c v = goes_on-Post (execute_binop_high-Post s p v)
  execute-Post Bytecode.low_ne s p c v = goes_on-Post (execute_binop_high-Post s p v)
  execute-Post Bytecode.low_and s p c v = goes_on-Post (execute_binop_high-Post s p v)
  execute-Post Bytecode.low_or s p c v = goes_on-Post (execute_binop_high-Post s p v)
  execute-Post Bytecode.low_eq s p c v = goes_on-Post (execute_low_eq-Post s v)
  execute-Post Bytecode.const s p c v = goes_on-Post (execute_const-Post s v)
  execute-Post Bytecode.drop s p c v = goes_on-Post (execute_drop-Post s v)
  execute-Post Bytecode.dup s p c v = absurd (cc)
  execute-Post Bytecode.swap s p c v = goes_on-Post (execute_swap-Post s v)
  execute-Post Bytecode.jmp s p c v = goes_on-Post (execute_jmp-Post s v)
  execute-Post Bytecode.ld_global s p c v = goes_on-Post (execute_ld_global-Post s v)
  execute-Post Bytecode.ld_local s p c v = goes_on-Post (execute_ld_local-Post s c v)
  execute-Post Bytecode.ld_argument s p c v = absurd (cc)
  execute-Post Bytecode.lda_global s p c v = goes_on-Post (execute_lda_global-Post s v)
  execute-Post Bytecode.lda_local s p c v = goes_on-Post (execute_lda_local-Post s c v)
  execute-Post Bytecode.lda_argument s p c v = absurd (cc)
  execute-Post Bytecode.st_global s p c v = goes_on-Post (execute_st_global-Post s v)
  execute-Post Bytecode.st_local s p c v = goes_on-Post (execute_st_local-Post s c v)
  execute-Post Bytecode.st_argument s p c v = absurd (cc)
  execute-Post Bytecode.line s p c v = goes_on-Post (execute_line-Post s v)
  execute-Post Bytecode.begin s p c v = goes_on-Post (execute_begin-Post s c v)
  execute-Post Bytecode.cbegin s p c v = goes_on-Post (execute_cbegin-Post s c v)
  execute-Post Bytecode.call s p c v = goes_on-Post (execute_call-Post s c v)
  execute-Post Bytecode.patt_str s p c v = absurd (cc)
  execute-Post Bytecode.string s p c v = absurd (cc)
  execute-Post Bytecode.sexp s p c v = absurd (cc)
  execute-Post Bytecode.sti s p c v = absurd (cc)
  execute-Post Bytecode.sta s p c v = absurd (cc)
  execute-Post Bytecode.elem s p c v = absurd (cc)
  execute-Post Bytecode.ld_captured s p c v = absurd (cc)
  execute-Post Bytecode.lda_captured s p c v = absurd (cc)
  execute-Post Bytecode.st_captured s p c v = absurd (cc)
  execute-Post Bytecode.tag s p c v = absurd (cc)
  execute-Post Bytecode.array s p c v = absurd (cc)
  execute-Post Bytecode.closure s p c v = absurd (cc)
  execute-Post Bytecode.callc s p c v = absurd (cc)
  execute-Post Bytecode.call_lread s p c v = goes_on-Post (execute_call_lread-Post s v)
  execute-Post Bytecode.call_lwrite s p c v = goes_on-Post (execute_call_lwrite-Post s v)
  execute-Post Bytecode.call_llength s p c v = absurd (cc)
  execute-Post Bytecode.call_lstring s p c v = absurd (cc)
  execute-Post Bytecode.call_barray s p c v = absurd (cc)
  execute-Post Bytecode.cjmpz s p c v = goes_on-Post (execute_cjmp-Post s false v)
  execute-Post Bytecode.cjmpnz s p c v = goes_on-Post (execute_cjmp-Post s true v)
  execute-Post Bytecode.fail s p c v = goes_on-Post (execute_fail-Post s v)
  execute-Post Bytecode.patt_string s p c v = absurd (cc)
  execute-Post Bytecode.patt_array s p c v = absurd (cc)
  execute-Post Bytecode.patt_sexp s p c v = absurd (cc)
  execute-Post Bytecode.patt_ref s p c v = absurd (cc)
  execute-Post Bytecode.patt_val s p c v = absurd (cc)
  execute-Post Bytecode.patt_fun s p c v = absurd (cc)
  execute-Post Bytecode.end s p c v = leaves-Post (execute_ret-Post s v)
  execute-Post Bytecode.ret s p c v = leaves-Post (execute_ret-Post s v)
  execute-Post Bytecode.stop s p c v = returns (λ q. absurd (cc))
  execute-Post Bytecode.binop_high s p c v = reports tt
  execute-Post (Bytecode.other b) s p c v = reports tt

  step-Post :
      (s : State W)
      → elim (get_code s.file s.ip) [
        | ok op ↦ is_checked op s.file.code_size s.frames
        | err e ↦ true
      ]
        ≡ true
      → Valid s
      → Post {A = Bool × State W} (λ (more, s'). more ≡ true → Valid s') (step rt s)
  unfolding step
  step-Post s c v = pop_next_op-Post s v ⟫ λ (op, s₁) (v₁, p, f, g, e).
      execute-Post op s₁ p (rw (g, f) (rw (e) at c)) v₁

  -- A state is valid where the code has fewer than 2 ^ 31 bytes and lies inside the file, `ip` and the
  -- return addresses of the callers lie inside the code, the stack's array has MAX_STACK_SIZE words, and
  -- the stack, the globals and the locals of the frames lie inside it. From a valid state, a run that
  -- keeps for `fuel` rounds to the instructions that check what they use goes on, ends well, or fails
  -- with one of its reports: it accesses nothing outside its data. Those instructions are all but DUP and
  -- the ones on arguments, captured variables, closures, strings, arrays and S-expressions; locals and
  -- CALL must stand inside a function, and a function with a caller must be entered by CALL.
  pub run-is_reported :
      (fuel : ℕ) (s : State W)
      → Valid s
      → keeps_to_checked rt fuel s ≡ true
      → is_reported (run rt fuel s) ≡ true
  unfolding run keeps_to_checked
  run-is_reported zero s v k = refl
  run-is_reported (suc fuel) s v k =
      let (c, later) =
        &&-eq-true
          (elim (get_code s.file s.ip) [
            | ok op ↦ is_checked op s.file.code_size s.frames
            | err e ↦ true
          ])
          _ k in
      go (λ u w. run-is_reported fuel u w) (step rt s) (step-Post s c v) refl later
    where
      go :
          ((u : State W)
            → Valid u
            → keeps_to_checked rt fuel u ≡ true
            → is_reported (run rt fuel u) ≡ true)
          → (r : Result Error (Bool × State W))
          → Post {A = Bool × State W} (λ (more, s'). more ≡ true → Valid s') r
          → step rt s ≡ r
          → elim r [ ok (true, s') ↦ keeps_to_checked rt fuel s' | _ ↦ true ] ≡ true
          → is_reported (run rt (suc fuel) s) ≡ true
      go more (ok (true, u)) (returns w) q l = rw (q, run) (more u (w refl) l)
      go more (ok (false, u)) (returns w) q l = rw (q, run) refl
      go more (err (failure m at)) (reports w) q l = rw (q, run) refl
      go more (err (thrown x)) (reports w) q l = elim w [ ]
      go more (err undefined) (reports w) q l = elim w [ ]
