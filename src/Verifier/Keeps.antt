-- ===== src/Verifier/Keeps.antt =====
-- The steps of the verifier that leave the noted depths alone.
use vm_design.Common.{ℕ, zero, suc, ◌≡◌, arith}
use vm_design.Common.{ok, >>=-eq-ok, ◌∙◌}
use vm_design.Bytecode.{Varspec}
use vm_design.Common.Words.{nonneg32}
use vm_design.Error
use vm_design.Bytefile.{set_int32}
use vm_design.Verifier.State.{Verifier, pop_next_int32, pop_next_varspec, pop, push}
use vm_design.Verifier.State.{set_locals_size, validate}
use vm_design.Verifier.Process.{leave_frame, process_single_arg, process_string}
use vm_design.Verifier.Process.{process_sexp, process_global}
use vm_design.Verifier.Process.{process_local, process_argument, process_begin}
use vm_design.Verifier.Process.{process_callc, process_tag}
use vm_design.Verifier.Process.{
  process_call_barray, process_closure, process_captures, validate_capture, in_bounds,
}
use vm_design.Verifier.Traverse.{restore_frame, update_depth}

-- A step that notes no depth.
module _ (v : Verifier) {v' : Verifier} where
  pub process_single_arg-keeps : process_single_arg v ≡ ok v' → v'.stack_sizes ≡ v.stack_sizes
  unfolding process_single_arg pop_next_int32
  process_single_arg-keeps e = ground arith

  pub process_string-keeps : process_string v ≡ ok v' → v'.stack_sizes ≡ v.stack_sizes
  unfolding process_string pop_next_int32
  process_string-keeps e = ground arith

  pub process_sexp-keeps : process_sexp v ≡ ok v' → v'.stack_sizes ≡ v.stack_sizes
  unfolding process_sexp pop_next_int32
  process_sexp-keeps e = ground arith

  pub process_global-keeps : process_global v ≡ ok v' → v'.stack_sizes ≡ v.stack_sizes
  unfolding process_global pop_next_int32
  process_global-keeps e = ground arith

  pub process_local-keeps : process_local v ≡ ok v' → v'.stack_sizes ≡ v.stack_sizes
  unfolding process_local pop_next_int32
  process_local-keeps e = ground arith

  pub process_argument-keeps : process_argument v ≡ ok v' → v'.stack_sizes ≡ v.stack_sizes
  unfolding process_argument pop_next_int32
  process_argument-keeps e = ground arith

  pub process_begin-keeps : process_begin v ≡ ok v' → v'.stack_sizes ≡ v.stack_sizes
  unfolding process_begin pop_next_int32 push
  process_begin-keeps e = ground arith

  pub process_callc-keeps : process_callc v ≡ ok v' → v'.stack_sizes ≡ v.stack_sizes
  unfolding process_callc pop_next_int32
  process_callc-keeps e = ground arith

  pub process_tag-keeps : process_tag v ≡ ok v' → v'.stack_sizes ≡ v.stack_sizes
  unfolding process_tag pop_next_int32
  process_tag-keeps e = ground arith

  pub process_call_barray-keeps : process_call_barray v ≡ ok v' → v'.stack_sizes ≡ v.stack_sizes
  unfolding process_call_barray pop_next_int32
  process_call_barray-keeps e = ground arith

  pub leave_frame-keeps : leave_frame v ≡ ok v' → v'.stack_sizes ≡ v.stack_sizes
  unfolding leave_frame pop
  leave_frame-keeps e = ground arith

  pub restore_frame-keeps : restore_frame v ≡ ok v' → v'.stack_sizes ≡ v.stack_sizes
  unfolding restore_frame pop
  restore_frame-keeps e = ground arith

  pub update_depth-keeps : update_depth v ≡ ok v' → v'.stack_sizes ≡ v.stack_sizes
  unfolding update_depth
  update_depth-keeps e = ground arith

  pub pop_next_int32-keeps :
      {w : ℕ} → pop_next_int32 v ≡ ok (w, v') → v'.stack_sizes ≡ v.stack_sizes
  unfolding pop_next_int32
  pop_next_int32-keeps e = ground arith

  pub set_locals_size-keeps : (n : ℕ) → set_locals_size n v ≡ ok v' → v'.stack_sizes ≡ v.stack_sizes
  unfolding set_locals_size set_int32
  set_locals_size-keeps n e = ground arith

pub pop_next_varspec-keeps :
    (v : Verifier) {t : Varspec} {v' : Verifier}
    → pop_next_varspec v ≡ ok (t, v')
    → v'.stack_sizes ≡ v.stack_sizes
unfolding pop_next_varspec
pop_next_varspec-keeps v e = ground arith

pub process_captures-keeps :
    (n : ℕ) (v : Verifier) {v' : Verifier}
    → process_captures n v ≡ ok v'
    → v'.stack_sizes ≡ v.stack_sizes
unfolding process_captures
process_captures-keeps zero v e = ground arith
process_captures-keeps (suc n) v e =
    let ((t, v₁), e₁, r₁) = >>=-eq-ok (pop_next_varspec v) _ e in
    let ((a, v₂), e₂, r₂) = >>=-eq-ok (pop_next_int32 v₁) _ r₁ in
    let (u, _, e₃) = >>=-eq-ok (validate_capture t a v₂) _ r₂ in
    process_captures-keeps n v₂ e₃ ∙ pop_next_int32-keeps v₁ e₂ ∙ pop_next_varspec-keeps v e₁

pub process_closure-keeps :
    (v : Verifier) {v' : Verifier} → process_closure v ≡ ok v' → v'.stack_sizes ≡ v.stack_sizes
unfolding process_closure
process_closure-keeps v e =
    let ((addr, v₁), e₁, r₁) = >>=-eq-ok (pop_next_int32 v) _ e in
    let ((n, v₂), e₂, r₂) = >>=-eq-ok (pop_next_int32 v₁) _ r₁ in
    let (_, _, r₃) =
      >>=-eq-ok (validate v₂ (in_bounds addr v₂.file.code_size) Error.closure_address) _ r₂ in
    let (_, _, e₃) = >>=-eq-ok (validate v₂ (nonneg32 n) Error.closure_negative_size) _ r₃ in
    process_captures-keeps n v₂ e₃ ∙ pop_next_int32-keeps v₁ e₂ ∙ pop_next_int32-keeps v e₁
