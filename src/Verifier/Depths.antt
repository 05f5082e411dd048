-- ===== src/Verifier/Depths.antt =====
-- The steps of the verifier that note a depth for an address: it is one that the interpreter's stack
-- can hold.
use vm_design.Verifier.Visit.{visit_op}
use vm_design.Common.{ℕ, zero, suc, ◌<◌, ◌≡◌, ◌⊎◌, inl, inr, Bool-cases, arith, List, [], ◌∷◌}
use vm_design.Common.{true, ok, some, set, get_elem?, >>=-eq-ok, replicate, refl}
use vm_design.Bytecode.{Bytecode}
use vm_design.Verifier.WorksetEntry
use vm_design.Verifier.StackSize.{no_value, get_value, from_initial, from_processed, is_processed}
use vm_design.Verifier.State.{Verifier, max_stack_size, pop_next_int32, push}
use vm_design.Verifier.State.{set_stack_size, set_locals_size, stack_size_at, get_locals_size}
use vm_design.Verifier.Process.{leave_frame, resume}
use vm_design.Verifier.Process.{process_ret, finish_function}
use vm_design.Verifier.Process.{process_cjmp}
use vm_design.Verifier.Process.{process_call, process_fail, process_jmp}
use vm_design.Verifier.Traverse.{leave_visited}
use vm_design.Verifier.Keeps.{
  process_single_arg-keeps, process_string-keeps, process_sexp-keeps, process_global-keeps,
  process_local-keeps, process_argument-keeps, process_begin-keeps, process_callc-keeps,
  process_tag-keeps, process_call_barray-keeps, leave_frame-keeps, pop_next_int32-keeps,
  set_locals_size-keeps, process_closure-keeps,
}

-- No depth, or one below MAX_STACK_SIZE.
abbrev pub IsDepth : ℕ → Type 0
IsDepth r = (r ≡ no_value) ⊎ (get_value r < max_stack_size)

abbrev pub AllDepths : List ℕ → Type 0
AllDepths [] = Unit
AllDepths (r ∷ rs) = IsDepth r × AllDepths rs

pub AllDepths-set : (rs : List ℕ) (i r : ℕ) → AllDepths rs → IsDepth r → AllDepths (set rs i r)
AllDepths-set [] i r a d = tt
AllDepths-set (x ∷ rs) zero r a d = (d, a.1)
AllDepths-set (x ∷ rs) (suc i) r a d = (a.0, AllDepths-set rs i r a.1 d)

pub AllDepths-get :
    (rs : List ℕ) (i : ℕ) {r : ℕ} → AllDepths rs → get_elem? rs i ≡ some r → IsDepth r
AllDepths-get [] i a e = absurd (cc)
AllDepths-get (x ∷ rs) zero {r} a e = ground arith
AllDepths-get (x ∷ rs) (suc i) a e = AllDepths-get rs i a.1 e

pub AllDepths-replicate : (n : ℕ) → AllDepths (replicate n no_value)
AllDepths-replicate zero = tt
AllDepths-replicate (suc n) = (inl (omega arith), AllDepths-replicate n)

pub IsDepth-from :
    (c : ℕ) → c < max_stack_size → IsDepth (from_initial c) × IsDepth (from_processed c)
IsDepth-from c h = ground arith

-- The same for the depth of an entry that has been processed, noted anew.
pub IsDepth-again :
    (r : ℕ) → is_processed r ≡ true → IsDepth r → IsDepth (from_initial (get_value r))
IsDepth-again r p d = ground arith

-- A step that notes a depth that has been checked.
module _ (v : Verifier) {v' : Verifier} (a : AllDepths v.stack_sizes) where
  pub set_stack_size-AllDepths :
      (addr r : ℕ) → IsDepth r → set_stack_size addr r v ≡ ok v' → AllDepths v'.stack_sizes
  unfolding set_stack_size
  set_stack_size-AllDepths addr r d e = ground (arith, AllDepths-set v.stack_sizes addr r a d)

  pub process_jmp-AllDepths :
      v.current_stack_size < max_stack_size → process_jmp v ≡ ok v' → AllDepths v'.stack_sizes
  unfolding process_jmp pop_next_int32 set_stack_size
  process_jmp-AllDepths c e =
      let ((addr, v₁), e₁, r₁) = >>=-eq-ok (pop_next_int32 v) _ e in
      ground (
        arith,
        AllDepths-set v.stack_sizes addr (from_initial v.current_stack_size) a
            (IsDepth-from v.current_stack_size c).0,
      )

  pub process_cjmp-AllDepths :
      v.current_stack_size < max_stack_size → process_cjmp v ≡ ok v' → AllDepths v'.stack_sizes
  unfolding process_cjmp pop_next_int32 set_stack_size push
  process_cjmp-AllDepths c e =
      let ((addr, v₁), e₁, r₁) = >>=-eq-ok (pop_next_int32 v) _ e in
      ground (
        arith,
        AllDepths-set v.stack_sizes addr (from_initial v.current_stack_size) a
            (IsDepth-from v.current_stack_size c).0,
      )

  pub process_call-AllDepths :
      v.current_stack_size < max_stack_size → process_call v ≡ ok v' → AllDepths v'.stack_sizes
  unfolding process_call pop_next_int32 set_stack_size push
  process_call-AllDepths c e =
      let ((addr, v₁), e₁, r₁) = >>=-eq-ok (pop_next_int32 v) _ e in
      ground (
        arith,
        AllDepths-set v.stack_sizes addr (from_initial v.current_stack_size) a
            (IsDepth-from v.current_stack_size c).0,
      )

pub stack_size_at-IsDepth :
    (v : Verifier) (i : ℕ) {r : ℕ} → AllDepths v.stack_sizes → stack_size_at v i ≡ ok r → IsDepth r
unfolding stack_size_at
stack_size_at-IsDepth v i {r} a e = AllDepths-get v.stack_sizes i a (ground arith)

-- On with the entry on top of the work set.
module _ (v : Verifier) {v' : Verifier} (a : AllDepths v.stack_sizes) where
  pub resume-AllDepths : resume v ≡ ok v' → AllDepths v'.stack_sizes
  unfolding resume set_stack_size
  resume-AllDepths e = go v.workset refl
    where
      go : (w : List ℕ) → v.workset ≡ w → AllDepths v'.stack_sizes
      go [] p = ground arith
      go (entry ∷ rest) p =
          let next = WorksetEntry.get_value entry in
          let (size, es, r) = >>=-eq-ok (stack_size_at v next) _ (rw (p, resume) at e) in
          let d = stack_size_at-IsDepth v next a es in
          ground (
            arith,
            IsDepth-again size,
            AllDepths-set v.stack_sizes next (from_initial (get_value size)) a,
          )

  pub leave_visited-AllDepths : leave_visited v ≡ ok v' → AllDepths v'.stack_sizes
  unfolding leave_visited set_stack_size
  leave_visited-AllDepths e = go v.workset refl
    where
      go : (w : List ℕ) → v.workset ≡ w → AllDepths v'.stack_sizes
      go [] p = ground arith
      go (entry ∷ rest) p = elim (Bool-cases (WorksetEntry.is_instruction entry)) [
        | inr frame ↦ ground arith
        | inl instruction ↦
            let next = WorksetEntry.get_value entry in
            let (size, es, r) =
              >>=-eq-ok (stack_size_at v next) _ (rw (p, leave_visited, instruction) at e) in
            let d = stack_size_at-IsDepth v next a es in
            ground (
              arith,
              IsDepth-again size,
              AllDepths-set v.stack_sizes next (from_initial (get_value size)) a,
            )
      ]

module _ (v : Verifier) {v' : Verifier} (a : AllDepths v.stack_sizes) where
  pub finish_function-AllDepths : finish_function v ≡ ok v' → AllDepths v'.stack_sizes
  unfolding finish_function
  finish_function-AllDepths e =
      let (v₁, e₁, r₁) = >>=-eq-ok (leave_frame v) _ e in
      let (n, _, r₂) = >>=-eq-ok (get_locals_size v₁) _ r₁ in
      let (v₂, e₂, e₃) = >>=-eq-ok (set_locals_size _ v₁) _ r₂ in
      resume-AllDepths v₂ (rw (set_locals_size-keeps v₁ _ e₂, leave_frame-keeps v e₁) a) e₃

pub process_fail-AllDepths :
    (v : Verifier) {v' : Verifier}
    → AllDepths v.stack_sizes
    → process_fail v ≡ ok v'
    → AllDepths v'.stack_sizes
unfolding process_fail
process_fail-AllDepths v a e =
    let ((w₁, v₁), e₁, r₁) = >>=-eq-ok (pop_next_int32 v) _ e in
    let ((w₂, v₂), e₂, e₃) = >>=-eq-ok (pop_next_int32 v₁) _ r₁ in
    finish_function-AllDepths v₂ (rw (pop_next_int32-keeps v₁ e₂, pop_next_int32-keeps v e₁) a) e₃

pub visit_op-AllDepths :
    (op : Bytecode) (v : Verifier) {v' : Verifier}
    → AllDepths v.stack_sizes
    → v.current_stack_size < max_stack_size
    → visit_op op v ≡ ok v'
    → AllDepths v'.stack_sizes
unfolding visit_op process_ret
visit_op-AllDepths Bytecode.const v a c e = rw (process_single_arg-keeps v e) a
visit_op-AllDepths Bytecode.ld_captured v a c e = rw (process_single_arg-keeps v e) a
visit_op-AllDepths Bytecode.lda_captured v a c e = rw (process_single_arg-keeps v e) a
visit_op-AllDepths Bytecode.st_captured v a c e = rw (process_single_arg-keeps v e) a
visit_op-AllDepths Bytecode.array v a c e = rw (process_single_arg-keeps v e) a
visit_op-AllDepths Bytecode.line v a c e = rw (process_single_arg-keeps v e) a
visit_op-AllDepths Bytecode.string v a c e = rw (process_string-keeps v e) a
visit_op-AllDepths Bytecode.sexp v a c e = rw (process_sexp-keeps v e) a
visit_op-AllDepths Bytecode.ld_global v a c e = rw (process_global-keeps v e) a
visit_op-AllDepths Bytecode.lda_global v a c e = rw (process_global-keeps v e) a
visit_op-AllDepths Bytecode.st_global v a c e = rw (process_global-keeps v e) a
visit_op-AllDepths Bytecode.ld_local v a c e = rw (process_local-keeps v e) a
visit_op-AllDepths Bytecode.lda_local v a c e = rw (process_local-keeps v e) a
visit_op-AllDepths Bytecode.st_local v a c e = rw (process_local-keeps v e) a
visit_op-AllDepths Bytecode.ld_argument v a c e = rw (process_argument-keeps v e) a
visit_op-AllDepths Bytecode.lda_argument v a c e = rw (process_argument-keeps v e) a
visit_op-AllDepths Bytecode.st_argument v a c e = rw (process_argument-keeps v e) a
visit_op-AllDepths Bytecode.begin v a c e = rw (process_begin-keeps v e) a
visit_op-AllDepths Bytecode.cbegin v a c e = rw (process_begin-keeps v e) a
visit_op-AllDepths Bytecode.callc v a c e = rw (process_callc-keeps v e) a
visit_op-AllDepths Bytecode.tag v a c e = rw (process_tag-keeps v e) a
visit_op-AllDepths Bytecode.closure v a c e = rw (process_closure-keeps v e) a
visit_op-AllDepths Bytecode.call_barray v a c e = rw (process_call_barray-keeps v e) a
visit_op-AllDepths Bytecode.end v a c e = finish_function-AllDepths v a e
visit_op-AllDepths Bytecode.ret v a c e = finish_function-AllDepths v a e
visit_op-AllDepths Bytecode.fail v a c e = process_fail-AllDepths v a e
visit_op-AllDepths Bytecode.jmp v a c e = process_jmp-AllDepths v a c e
visit_op-AllDepths Bytecode.cjmpz v a c e = process_cjmp-AllDepths v a c e
visit_op-AllDepths Bytecode.cjmpnz v a c e = process_cjmp-AllDepths v a c e
visit_op-AllDepths Bytecode.call v a c e = process_call-AllDepths v a c e
visit_op-AllDepths _ v a c e = ground arith
