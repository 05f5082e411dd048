-- ===== src/Interpreter/Effect/Agreement.antt =====
-- The verifier's table of stack effects, against what the interpreter does.
use vm_design.Common.{
  ℕ, ◌+◌, ◌-◌, ◌%◌, ◌^◌, ◌<◌, ◌≡◌, sym, ap, ◌∙◌, arith, ok, err, Result, true, false,
}
use vm_design.Common.{ok-injective, >>=-eq-ok}
use vm_design.Common.Words.{add32, sub32}
use vm_design.Bytecode.{Bytecode}
use vm_design.Bytefile.{get_int32}
use vm_design.Error.{Error}
use vm_design.Verifier.State.{Verifier, max_stack_size}
use vm_design.Verifier.Delta.{stack_delta}
use vm_design.Interpreter.Runtime.{Runtime}
use vm_design.Interpreter.Machine.{State}
use vm_design.Interpreter.Loop.{execute, goes_on}
use vm_design.Interpreter.Effect
use vm_design.Interpreter.Effect.{Moves}
use vm_design.Interpreter.Effect.Operands.{execute_sexp-Moves, execute_call_barray-Moves}
use vm_design.Interpreter.Effect.Operands.{execute_closure-Moves}

-- The instructions that stay in their function, but for CLOSURE, and that the verifier accepts.
abbrev pub IsPlain : Bytecode → Type 0
IsPlain Bytecode.call = ⊥
IsPlain Bytecode.callc = ⊥
IsPlain Bytecode.closure = ⊥
IsPlain Bytecode.begin = ⊥
IsPlain Bytecode.cbegin = ⊥
IsPlain Bytecode.end = ⊥
IsPlain Bytecode.ret = ⊥
IsPlain Bytecode.fail = ⊥
IsPlain Bytecode.stop = ⊥
IsPlain Bytecode.sta = ⊥
IsPlain Bytecode.binop_high = ⊥
IsPlain (Bytecode.other _) = ⊥
IsPlain _ = Unit

Moves-delta :
    {W : Type 0} {s s' : State W} (down up : ℕ) {d : ℕ}
    → Moves s down up s'
    → s.size < max_stack_size
    → up < 3
    → d ≡ (up + 2 ^ 32 - down) % 2 ^ 32
    → s'.size ≡ (s.size + d) % 2 ^ 32
Moves-delta down up m l u e = omega arith

Moves-operand :
    {W : Type 0} {s s' : State W} {n d : ℕ}
    → Moves s n 1 s'
    → s.size < max_stack_size
    → d ≡ sub32 1 n
    → s'.size ≡ (s.size + d) % 2 ^ 32
Moves-operand m l e = omega arith

goes_on-ok :
    {W : Type 0} (rt : Runtime W) (r : Result Error (State W)) {s' : State W}
    → goes_on r ≡ ok (true, s')
    → r ≡ ok s'
goes_on-ok rt (ok a) e = ap (λ r. elim r [ ok (_, x) ↦ ok x | err x ↦ err x ]) e
goes_on-ok rt (err x) e = absurd (cc)

module _ {W : Type 0} (rt : Runtime W) (v : Verifier) (s : State W) {s' : State W} {d : ℕ} where
  -- The interpreter stands behind the byte of an instruction of the verifier's file, and its stack is
  -- below MAX_STACK_SIZE. Where the handler succeeds, the size of the stack behind it is the size
  -- before plus the difference that the verifier has for the instruction, as int32_t numbers. So for
  -- every instruction but CALL, CALLC, BEGIN, CBEGIN, END, RET, FAIL and STOP, which enter or leave
  -- functions, CLOSURE, STA, and the bytes that no handler knows.
  pub execute-delta :
      (op : Bytecode)
      → IsPlain op
      → v.file ≡ s.file
      → s.ip ≡ v.addr + 1
      → v.addr + 5 < 2 ^ 32
      → s.size < max_stack_size
      → stack_delta v op ≡ ok d
      → execute rt op s ≡ ok (true, s')
      → s'.size ≡ (s.size + d) % 2 ^ 32
  unfolding stack_delta execute
  execute-delta Bytecode.low_add k f i r l q e =
      Moves-delta 2 1 (Effect.execute_binop_high-Moves s (goes_on-ok rt _ e)) l (omega arith)
        (sym (ok-injective q))
  execute-delta Bytecode.low_sub k f i r l q e =
      Moves-delta 2 1 (Effect.execute_binop_high-Moves s (goes_on-ok rt _ e)) l (omega arith)
        (sym (ok-injective q))
  execute-delta Bytecode.low_mul k f i r l q e =
      Moves-delta 2 1 (Effect.execute_binop_high-Moves s (goes_on-ok rt _ e)) l (omega arith)
        (sym (ok-injective q))
  execute-delta Bytecode.low_div k f i r l q e =
      Moves-delta 2 1 (Effect.execute_binop_high-Moves s (goes_on-ok rt _ e)) l (omega arith)
        (sym (ok-injective q))
  execute-delta Bytecode.low_mod k f i r l q e =
      Moves-delta 2 1 (Effect.execute_binop_high-Moves s (goes_on-ok rt _ e)) l (omega arith)
        (sym (ok-injective q))
  execute-delta Bytecode.low_lt k f i r l q e =
      Moves-delta 2 1 (Effect.execute_binop_high-Moves s (goes_on-ok rt _ e)) l (omega arith)
        (sym (ok-injective q))
  execute-delta Bytecode.low_le k f i r l q e =
      Moves-delta 2 1 (Effect.execute_binop_high-Moves s (goes_on-ok rt _ e)) l (omega arith)
        (sym (ok-injective q))
  execute-delta Bytecode.low_gt k f i r l q e =
      Moves-delta 2 1 (Effect.execute_binop_high-Moves s (goes_on-ok rt _ e)) l (omega arith)
        (sym (ok-injective q))
  execute-delta Bytecode.low_ge k f i r l q e =
      Moves-delta 2 1 (Effect.execute_binop_high-Moves s (goes_on-ok rt _ e)) l (omega arith)
        (sym (ok-injective q))
  execute-delta Bytecode.low_ne k f i r l q e =
      Moves-delta 2 1 (Effect.execute_binop_high-Moves s (goes_on-ok rt _ e)) l (omega arith)
        (sym (ok-injective q))
  execute-delta Bytecode.low_and k f i r l q e =
      Moves-delta 2 1 (Effect.execute_binop_high-Moves s (goes_on-ok rt _ e)) l (omega arith)
        (sym (ok-injective q))
  execute-delta Bytecode.low_or k f i r l q e =
      Moves-delta 2 1 (Effect.execute_binop_high-Moves s (goes_on-ok rt _ e)) l (omega arith)
        (sym (ok-injective q))
  execute-delta Bytecode.low_eq k f i r l q e =
      Moves-delta 2 1 (Effect.execute_low_eq-Moves s (goes_on-ok rt _ e)) l (omega arith)
        (sym (ok-injective q))
  execute-delta Bytecode.const k f i r l q e =
      Moves-delta 0 1 (Effect.execute_const-Moves s (goes_on-ok rt _ e)) l (omega arith)
        (sym (ok-injective q))
  execute-delta Bytecode.drop k f i r l q e =
      Moves-delta 1 0 (Effect.execute_drop-Moves s (goes_on-ok rt _ e)) l (omega arith)
        (sym (ok-injective q))
  execute-delta Bytecode.dup k f i r l q e =
      Moves-delta 0 1 (Effect.execute_dup-Moves s (goes_on-ok rt _ e)) l (omega arith)
        (sym (ok-injective q))
  execute-delta Bytecode.swap k f i r l q e =
      Moves-delta 2 2 (Effect.execute_swap-Moves s (goes_on-ok rt _ e)) l (omega arith)
        (sym (ok-injective q))
  execute-delta Bytecode.jmp k f i r l q e =
      Moves-delta 0 0 (Effect.execute_jmp-Moves s (goes_on-ok rt _ e)) l (omega arith)
        (sym (ok-injective q))
  execute-delta Bytecode.line k f i r l q e =
      Moves-delta 0 0 (Effect.execute_line-Moves s (goes_on-ok rt _ e)) l (omega arith)
        (sym (ok-injective q))
  execute-delta Bytecode.ld_global k f i r l q e =
      Moves-delta 0 1 (Effect.execute_ld_global-Moves s (goes_on-ok rt _ e)) l (omega arith)
        (sym (ok-injective q))
  execute-delta Bytecode.ld_local k f i r l q e =
      Moves-delta 0 1 (Effect.execute_ld_local-Moves s (goes_on-ok rt _ e)) l (omega arith)
        (sym (ok-injective q))
  execute-delta Bytecode.ld_argument k f i r l q e =
      Moves-delta 0 1 (Effect.execute_ld_argument-Moves s (goes_on-ok rt _ e)) l (omega arith)
        (sym (ok-injective q))
  execute-delta Bytecode.lda_global k f i r l q e =
      Moves-delta 0 1 (Effect.execute_lda_global-Moves s (goes_on-ok rt _ e)) l (omega arith)
        (sym (ok-injective q))
  execute-delta Bytecode.lda_local k f i r l q e =
      Moves-delta 0 1 (Effect.execute_lda_local-Moves s (goes_on-ok rt _ e)) l (omega arith)
        (sym (ok-injective q))
  execute-delta Bytecode.lda_argument k f i r l q e =
      Moves-delta 0 1 (Effect.execute_lda_argument-Moves s (goes_on-ok rt _ e)) l (omega arith)
        (sym (ok-injective q))
  execute-delta Bytecode.st_global k f i r l q e =
      Moves-delta 1 1 (Effect.execute_st_global-Moves s (goes_on-ok rt _ e)) l (omega arith)
        (sym (ok-injective q))
  execute-delta Bytecode.st_local k f i r l q e =
      Moves-delta 1 1 (Effect.execute_st_local-Moves s (goes_on-ok rt _ e)) l (omega arith)
        (sym (ok-injective q))
  execute-delta Bytecode.st_argument k f i r l q e =
      Moves-delta 1 1 (Effect.execute_st_argument-Moves s (goes_on-ok rt _ e)) l (omega arith)
        (sym (ok-injective q))
  execute-delta Bytecode.string k f i r l q e =
      Moves-delta 0 1 (Effect.execute_string-Moves rt s (goes_on-ok rt _ e)) l (omega arith)
        (sym (ok-injective q))
  execute-delta Bytecode.sti k f i r l q e =
      Moves-delta 2 1 (Effect.execute_sti-Moves rt s (goes_on-ok rt _ e)) l (omega arith)
        (sym (ok-injective q))
  execute-delta Bytecode.elem k f i r l q e =
      Moves-delta 2 1 (Effect.execute_elem-Moves rt s (goes_on-ok rt _ e)) l (omega arith)
        (sym (ok-injective q))
  execute-delta Bytecode.ld_captured k f i r l q e =
      Moves-delta 0 1 (Effect.execute_ld_captured-Moves rt s (goes_on-ok rt _ e)) l (omega arith)
        (sym (ok-injective q))
  execute-delta Bytecode.lda_captured k f i r l q e =
      Moves-delta 0 1 (Effect.execute_lda_captured-Moves rt s (goes_on-ok rt _ e)) l (omega arith)
        (sym (ok-injective q))
  execute-delta Bytecode.st_captured k f i r l q e =
      Moves-delta 1 1 (Effect.execute_st_captured-Moves rt s (goes_on-ok rt _ e)) l (omega arith)
        (sym (ok-injective q))
  execute-delta Bytecode.tag k f i r l q e =
      Moves-delta 1 1 (Effect.execute_tag-Moves rt s (goes_on-ok rt _ e)) l (omega arith)
        (sym (ok-injective q))
  execute-delta Bytecode.array k f i r l q e =
      Moves-delta 1 1 (Effect.execute_array-Moves rt s (goes_on-ok rt _ e)) l (omega arith)
        (sym (ok-injective q))
  execute-delta Bytecode.patt_str k f i r l q e =
      Moves-delta 2 1 (Effect.execute_patt_str-Moves rt s (goes_on-ok rt _ e)) l (omega arith)
        (sym (ok-injective q))
  execute-delta Bytecode.call_lread k f i r l q e =
      Moves-delta 0 1 (Effect.execute_call_lread-Moves rt s (goes_on-ok rt _ e)) l (omega arith)
        (sym (ok-injective q))
  execute-delta Bytecode.call_lwrite k f i r l q e =
      Moves-delta 1 1 (Effect.execute_call_lwrite-Moves rt s (goes_on-ok rt _ e)) l (omega arith)
        (sym (ok-injective q))
  execute-delta Bytecode.call_llength k f i r l q e =
      Moves-delta 1 1 (Effect.execute_call_llength-Moves rt s (goes_on-ok rt _ e)) l (omega arith)
        (sym (ok-injective q))
  execute-delta Bytecode.call_lstring k f i r l q e =
      Moves-delta 1 1 (Effect.execute_call_lstring-Moves rt s (goes_on-ok rt _ e)) l (omega arith)
        (sym (ok-injective q))
  execute-delta Bytecode.cjmpz k f i r l q e =
      Moves-delta 1 0 (Effect.execute_cjmp-Moves s false (goes_on-ok rt _ e)) l (omega arith)
        (sym (ok-injective q))
  execute-delta Bytecode.cjmpnz k f i r l q e =
      Moves-delta 1 0 (Effect.execute_cjmp-Moves s true (goes_on-ok rt _ e)) l (omega arith)
        (sym (ok-injective q))
  execute-delta Bytecode.patt_string k f i r l q e =
      Moves-delta 1 1 (Effect.execute_patt-Moves rt s rt.bstring_tag_patt (goes_on-ok rt _ e)) l
        (omega arith) (sym (ok-injective q))
  execute-delta Bytecode.patt_array k f i r l q e =
      Moves-delta 1 1 (Effect.execute_patt-Moves rt s rt.barray_tag_patt (goes_on-ok rt _ e)) l
        (omega arith) (sym (ok-injective q))
  execute-delta Bytecode.patt_sexp k f i r l q e =
      Moves-delta 1 1 (Effect.execute_patt-Moves rt s rt.bsexp_tag_patt (goes_on-ok rt _ e)) l
        (omega arith) (sym (ok-injective q))
  execute-delta Bytecode.patt_ref k f i r l q e =
      Moves-delta 1 1 (Effect.execute_patt-Moves rt s rt.bboxed_patt (goes_on-ok rt _ e)) l
        (omega arith) (sym (ok-injective q))
  execute-delta Bytecode.patt_val k f i r l q e =
      Moves-delta 1 1 (Effect.execute_patt-Moves rt s rt.bunboxed_patt (goes_on-ok rt _ e)) l
        (omega arith) (sym (ok-injective q))
  execute-delta Bytecode.patt_fun k f i r l q e =
      Moves-delta 1 1 (Effect.execute_patt-Moves rt s rt.bclosure_tag_patt (goes_on-ok rt _ e)) l
        (omega arith) (sym (ok-injective q))
  execute-delta Bytecode.sexp k f i r l q e =
      let (n, g, h) = >>=-eq-ok (get_int32 v.file (add32 v.addr 5)) _ q in
      let p : add32 v.addr 5 ≡ add32 s.ip 4 = omega arith in
      Moves-operand (execute_sexp-Moves rt s (omega arith) (rw (f, p) at g) (goes_on-ok rt _ e)) l
        (sym (ok-injective h))
  execute-delta Bytecode.call_barray k f i r l q e =
      let (n, g, h) = >>=-eq-ok (get_int32 v.file (add32 v.addr 1)) _ q in
      let p : add32 v.addr 1 ≡ s.ip = omega arith in
      Moves-operand
        (execute_call_barray-Moves rt s (omega arith) (rw (f, p) at g) (goes_on-ok rt _ e)) l
        (sym (ok-injective h))
  execute-delta Bytecode.call k f i r l q e = elim k [ ]
  execute-delta Bytecode.callc k f i r l q e = elim k [ ]
  execute-delta Bytecode.closure k f i r l q e = elim k [ ]
  execute-delta Bytecode.begin k f i r l q e = elim k [ ]
  execute-delta Bytecode.cbegin k f i r l q e = elim k [ ]
  execute-delta Bytecode.end k f i r l q e = elim k [ ]
  execute-delta Bytecode.ret k f i r l q e = elim k [ ]
  execute-delta Bytecode.fail k f i r l q e = elim k [ ]
  execute-delta Bytecode.stop k f i r l q e = elim k [ ]
  execute-delta Bytecode.sta k f i r l q e = elim k [ ]
  execute-delta Bytecode.binop_high k f i r l q e = elim k [ ]
  execute-delta (Bytecode.other b) k f i r l q e = elim k [ ]

  -- Where the handler of CLOSURE succeeds, with a number of captured variables that is not negative,
  -- it makes the stack one word deeper. The verifier's difference for it is one word more for each
  -- variable that is captured.
  pub execute_closure-delta :
      {n : ℕ}
      → v.file ≡ s.file
      → s.ip ≡ v.addr + 1
      → v.addr + 5 < 2 ^ 32
      → get_int32 s.file (v.addr + 5) ≡ ok n
      → n < 2 ^ 31
      → stack_delta v Bytecode.closure ≡ ok d
      → execute rt Bytecode.closure s ≡ ok (true, s')
      → (s'.size ≡ s.size + 1) × (d ≡ 1 + n)
  unfolding stack_delta execute
  execute_closure-delta {n} f i r g l q e =
      let p : v.addr + 5 ≡ add32 s.ip 4 = omega arith in
      let t : add32 v.addr 5 ≡ v.addr + 5 = omega arith in
      let (n', g', h) = >>=-eq-ok (get_int32 v.file (add32 v.addr 5)) _ q in
      let same : n' ≡ n = ok-injective (sym (rw (f, t) at g') ∙ g) in
      let m = execute_closure-Moves rt s (omega arith) (rw p at g) l (goes_on-ok rt _ e) in
      let c = ok-injective h in (omega arith, omega arith)
