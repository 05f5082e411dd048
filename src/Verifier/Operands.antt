-- ===== src/Verifier/Operands.antt =====
-- How far the verifier advances over an instruction, against the table of operand sizes.
use vm_design.Verifier.Visit.{visit_op}
use vm_design.Common.{ℕ, ◌+◌, ◌%◌, ◌^◌, ◌<◌, ◌≡◌, arith, ok, >>=-eq-ok}
use vm_design.Bytecode.{Bytecode}
use vm_design.Bytefile.{set_int32}
use vm_design.Verifier.State.{
  Verifier, pop_next_int32, pop, push, set_stack_size, set_locals_size, get_locals_size,
}
use vm_design.Verifier.Process.{leave_frame, resume, process_single_arg, process_string}
use vm_design.Verifier.Process.{
  process_sexp, process_ret, finish_function, process_global, process_local,
}
use vm_design.Verifier.Process.{process_argument, process_cjmp, process_begin, process_callc}
use vm_design.Verifier.Process.{process_call, process_tag, process_fail, process_call_barray}

-- The bytes of an instruction's operands, two words for some and one for others. Not of CLOSURE,
-- whose operands vary in number.
abbrev pub operand_bytes : Bytecode → ℕ
operand_bytes Bytecode.const = 4
operand_bytes Bytecode.string = 4
operand_bytes Bytecode.ld_global = 4
operand_bytes Bytecode.ld_local = 4
operand_bytes Bytecode.ld_argument = 4
operand_bytes Bytecode.ld_captured = 4
operand_bytes Bytecode.lda_global = 4
operand_bytes Bytecode.lda_local = 4
operand_bytes Bytecode.lda_argument = 4
operand_bytes Bytecode.lda_captured = 4
operand_bytes Bytecode.st_global = 4
operand_bytes Bytecode.st_local = 4
operand_bytes Bytecode.st_argument = 4
operand_bytes Bytecode.st_captured = 4
operand_bytes Bytecode.cjmpz = 4
operand_bytes Bytecode.cjmpnz = 4
operand_bytes Bytecode.callc = 4
operand_bytes Bytecode.array = 4
operand_bytes Bytecode.line = 4
operand_bytes Bytecode.call_barray = 4
operand_bytes Bytecode.sexp = 8
operand_bytes Bytecode.begin = 8
operand_bytes Bytecode.cbegin = 8
operand_bytes Bytecode.call = 8
operand_bytes Bytecode.tag = 8
operand_bytes Bytecode.fail = 8
operand_bytes _ = 0

-- Neither a jump nor of varying length.
abbrev pub IsStraight : Bytecode → Type 0
IsStraight Bytecode.jmp = ⊥
IsStraight Bytecode.closure = ⊥
IsStraight _ = Unit

-- From `v` to `v'` over `n` bytes, to an address inside the code, which keeps its size.
pub record Advances (v : Verifier) (n : ℕ) (v' : Verifier) : Type 0 where
  pub distance : v'.addr ≡ (v.addr + n) % 2 ^ 32
  pub inside : v'.addr < v'.file.code_size
  pub same_size : v'.file.code_size ≡ v.file.code_size

abbrev InCode : Verifier → Type 0
InCode v = (v.addr < v.file.code_size) × (v.file.code_size < 2 ^ 32)

module _ (v : Verifier) {v' : Verifier} where
  process_single_arg-Advances : InCode v → process_single_arg v ≡ ok v' → Advances v 4 v'
  unfolding process_single_arg pop_next_int32
  process_single_arg-Advances (i, l) e = ground arith

  process_string-Advances : InCode v → process_string v ≡ ok v' → Advances v 4 v'
  unfolding process_string pop_next_int32
  process_string-Advances (i, l) e = ground arith

  process_sexp-Advances : InCode v → process_sexp v ≡ ok v' → Advances v 8 v'
  unfolding process_sexp pop_next_int32
  process_sexp-Advances (i, l) e = ground arith

  process_global-Advances : InCode v → process_global v ≡ ok v' → Advances v 4 v'
  unfolding process_global pop_next_int32
  process_global-Advances (i, l) e = ground arith

  process_local-Advances : InCode v → process_local v ≡ ok v' → Advances v 4 v'
  unfolding process_local pop_next_int32
  process_local-Advances (i, l) e = ground arith

  process_argument-Advances : InCode v → process_argument v ≡ ok v' → Advances v 4 v'
  unfolding process_argument pop_next_int32
  process_argument-Advances (i, l) e = ground arith

  process_cjmp-Advances : InCode v → process_cjmp v ≡ ok v' → Advances v 4 v'
  unfolding process_cjmp pop_next_int32 set_stack_size push
  process_cjmp-Advances (i, l) e = ground arith

  process_begin-Advances : InCode v → process_begin v ≡ ok v' → Advances v 8 v'
  unfolding process_begin pop_next_int32 push
  process_begin-Advances (i, l) e = ground arith

  process_callc-Advances : InCode v → process_callc v ≡ ok v' → Advances v 4 v'
  unfolding process_callc pop_next_int32
  process_callc-Advances (i, l) e = ground arith

  process_call-Advances : InCode v → process_call v ≡ ok v' → Advances v 8 v'
  unfolding process_call pop_next_int32 set_stack_size push
  process_call-Advances (i, l) e = ground arith

  process_tag-Advances : InCode v → process_tag v ≡ ok v' → Advances v 8 v'
  unfolding process_tag pop_next_int32
  process_tag-Advances (i, l) e = ground arith

  process_call_barray-Advances : InCode v → process_call_barray v ≡ ok v' → Advances v 4 v'
  unfolding process_call_barray pop_next_int32
  process_call_barray-Advances (i, l) e = ground arith

  leave_frame-Advances : InCode v → leave_frame v ≡ ok v' → Advances v 0 v'
  unfolding leave_frame pop
  leave_frame-Advances (i, l) e = ground arith

  set_locals_size-Advances : (n : ℕ) → InCode v → set_locals_size n v ≡ ok v' → Advances v 0 v'
  unfolding set_locals_size set_int32
  set_locals_size-Advances n (i, l) e = ground arith

  resume-Advances : InCode v → resume v ≡ ok v' → Advances v 0 v'
  unfolding resume set_stack_size
  resume-Advances (i, l) e = ground arith

Advances-trans :
    {u v w : Verifier} (m n : ℕ) → Advances u m v → Advances v n w → Advances u (m + n) w
Advances-trans m n a b = omega arith

Advances-InCode : {v w : Verifier} {n : ℕ} → InCode v → Advances v n w → InCode w
Advances-InCode i a = omega arith

-- The way back to the frame and the next entry, after END, RET and FAIL.
module _ (v : Verifier) {v' : Verifier} where
  finish_function-Advances : InCode v → finish_function v ≡ ok v' → Advances v 0 v'
  unfolding finish_function
  finish_function-Advances i e =
      let (v₁, e₁, r₁) = >>=-eq-ok (leave_frame v) _ e in
      let (n, _, r₂) = >>=-eq-ok (get_locals_size v₁) _ r₁ in
      let (v₂, e₂, e₃) = >>=-eq-ok (set_locals_size _ v₁) _ r₂ in
      let a₁ = leave_frame-Advances v i e₁ in
      let i₁ = Advances-InCode i a₁ in
      let a₂ = set_locals_size-Advances v₁ _ i₁ e₂ in
      Advances-trans 0 0 (Advances-trans 0 0 a₁ a₂) (resume-Advances v₂ (Advances-InCode i₁ a₂) e₃)

pop_next_int32-Advances :
    (v : Verifier) {w : ℕ} {v' : Verifier}
    → InCode v
    → pop_next_int32 v ≡ ok (w, v')
    → Advances v 4 v'
unfolding pop_next_int32
pop_next_int32-Advances v (i, l) e = ground arith

process_fail-Advances :
    (v : Verifier) {v' : Verifier} → InCode v → process_fail v ≡ ok v' → Advances v 8 v'
unfolding process_fail
process_fail-Advances v i e =
    let ((w₁, v₁), e₁, r₁) = >>=-eq-ok (pop_next_int32 v) _ e in
    let ((w₂, v₂), e₂, e₃) = >>=-eq-ok (pop_next_int32 v₁) _ r₁ in
    let a₁ = pop_next_int32-Advances v i e₁ in
    let i₁ = Advances-InCode i a₁ in
    let a₂ = pop_next_int32-Advances v₁ i₁ e₂ in
    Advances-trans 8 0 (Advances-trans 4 4 a₁ a₂)
      (finish_function-Advances v₂ (Advances-InCode i₁ a₂) e₃)

-- From an address inside the code, the check of an instruction that is neither a JMP nor a CLOSURE,
-- where it succeeds, ends behind the instruction's operands, inside the code, whose size is kept.
pub visit_op-Advances :
    (op : Bytecode) (v : Verifier) {v' : Verifier}
    → IsStraight op
    → v.addr < v.file.code_size
    → v.file.code_size < 2 ^ 32
    → visit_op op v ≡ ok v'
    → Advances v (operand_bytes op) v'
unfolding visit_op process_ret
visit_op-Advances Bytecode.const v k i l e = process_single_arg-Advances v (i, l) e
visit_op-Advances Bytecode.ld_captured v k i l e = process_single_arg-Advances v (i, l) e
visit_op-Advances Bytecode.lda_captured v k i l e = process_single_arg-Advances v (i, l) e
visit_op-Advances Bytecode.st_captured v k i l e = process_single_arg-Advances v (i, l) e
visit_op-Advances Bytecode.array v k i l e = process_single_arg-Advances v (i, l) e
visit_op-Advances Bytecode.line v k i l e = process_single_arg-Advances v (i, l) e
visit_op-Advances Bytecode.string v k i l e = process_string-Advances v (i, l) e
visit_op-Advances Bytecode.sexp v k i l e = process_sexp-Advances v (i, l) e
visit_op-Advances Bytecode.end v k i l e = finish_function-Advances v (i, l) e
visit_op-Advances Bytecode.ret v k i l e = finish_function-Advances v (i, l) e
visit_op-Advances Bytecode.ld_global v k i l e = process_global-Advances v (i, l) e
visit_op-Advances Bytecode.lda_global v k i l e = process_global-Advances v (i, l) e
visit_op-Advances Bytecode.st_global v k i l e = process_global-Advances v (i, l) e
visit_op-Advances Bytecode.ld_local v k i l e = process_local-Advances v (i, l) e
visit_op-Advances Bytecode.lda_local v k i l e = process_local-Advances v (i, l) e
visit_op-Advances Bytecode.st_local v k i l e = process_local-Advances v (i, l) e
visit_op-Advances Bytecode.ld_argument v k i l e = process_argument-Advances v (i, l) e
visit_op-Advances Bytecode.lda_argument v k i l e = process_argument-Advances v (i, l) e
visit_op-Advances Bytecode.st_argument v k i l e = process_argument-Advances v (i, l) e
visit_op-Advances Bytecode.cjmpz v k i l e = process_cjmp-Advances v (i, l) e
visit_op-Advances Bytecode.cjmpnz v k i l e = process_cjmp-Advances v (i, l) e
visit_op-Advances Bytecode.begin v k i l e = process_begin-Advances v (i, l) e
visit_op-Advances Bytecode.cbegin v k i l e = process_begin-Advances v (i, l) e
visit_op-Advances Bytecode.callc v k i l e = process_callc-Advances v (i, l) e
visit_op-Advances Bytecode.call v k i l e = process_call-Advances v (i, l) e
visit_op-Advances Bytecode.tag v k i l e = process_tag-Advances v (i, l) e
visit_op-Advances Bytecode.fail v k i l e = process_fail-Advances v (i, l) e
visit_op-Advances Bytecode.call_barray v k i l e = process_call_barray-Advances v (i, l) e
visit_op-Advances Bytecode.jmp v k i l e = elim k [ ]
visit_op-Advances Bytecode.closure v k i l e = elim k [ ]
visit_op-Advances _ v k i l e = ground arith
