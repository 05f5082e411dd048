-- ===== src/Verifier/Process.antt =====
-- What the verifier does for one instruction: Assignment04/src/verifier.cpp, lines 317 to 471.
-- `v.addr` is behind the instruction's own byte.
use vm_design.Common.{ℕ, zero, suc, ◌+◌, ◌*◌, ◌%◌, ◌^◌, [], ◌∷◌, Bool, not, ◌&&◌}
use vm_design.Common.{Result, ok, err, ◌>>=◌, ◌>>◌, ◌==◌, ltb, if◌then◌else◌}
use vm_design.Common.Words.{sub32, sub64, add64, nonneg32}
use vm_design.Bytecode.{Varspec}
use vm_design.Error
use vm_design.Error.{Error, failure}
use vm_design.Verifier.StackSize
use vm_design.Verifier.WorksetEntry
use vm_design.Verifier.State.{Verifier, validate, pop_next_varspec, pop_next_int32, push, pop}
use vm_design.Verifier.State.{stack_size_at, set_stack_size, get_locals_size}
use vm_design.Verifier.State.{set_locals_size, get_args_size}

-- `size >= 0 && size < limit`, an int32_t against a uint32_t.
abbrev pub in_bounds : ℕ → ℕ → Bool
in_bounds w limit = nonneg32 w && ltb w limit

unfoldable pub process_single_arg : Verifier → Result Error Verifier
process_single_arg v = do (_, v₁) ← pop_next_int32 v; ok v₁

unfoldable pub process_string : Verifier → Result Error Verifier
process_string v = do
  (string_pos, v₁) ← pop_next_int32 v
  validate v₁ (in_bounds string_pos v₁.file.stringtab_size) Error.string_out_of_bounds
  ok v₁

unfoldable pub process_sexp : Verifier → Result Error Verifier
process_sexp v = do
  (tag_pos, v₁) ← pop_next_int32 v
  (elements_size, v₂) ← pop_next_int32 v₁
  validate v₂ (nonneg32 elements_size) Error.sexp_negative_size
  validate v₂ (in_bounds tag_pos v₂.file.stringtab_size) Error.sexp_out_of_bounds
  ok v₂

-- The check at a target that has a depth already.
unfoldable pub validate_merge : Verifier → Result Error (Unit {0})
validate_merge v = do
  recorded ← stack_size_at v (sub32 v.addr 5)
  validate v (StackSize.get_value recorded == v.current_stack_size) Error.stack_mismatch

unfoldable pub process_jmp : Verifier → Result Error Verifier
process_jmp v = do
  (addr, v₁) ← pop_next_int32 v
  validate v₁ (in_bounds addr v₁.file.code_size) Error.jmp_destination
  size ← stack_size_at v₁ addr
  v₂ ←
      if not (StackSize.has_value size)
      then set_stack_size addr (StackSize.from_initial v₁.current_stack_size) v₁
      else (validate_merge v₁ >> ok v₁)
  ok (record v₂ { addr = addr })

-- `if (!workset_.empty() && peek().is_frame()) { pop(); pop(); --frames_depth_; }`
unfoldable pub leave_frame : Verifier → Result Error Verifier
leave_frame v = elim v.workset [
  | [] ↦ ok v
  | entry ∷ rest ↦
      if WorksetEntry.is_frame entry
      then (do
        (_, v₁) ← pop v
        (_, v₂) ← pop v₁
        ok (record v₂ { frames_depth = sub64 v₂.frames_depth 1 }))
      else ok v
]

-- `(current_frame_stack_size_ << 16) | (locals_size & 0xFFFF)`, a uint32_t.
unfoldable pub pack_locals_size : ℕ → ℕ → ℕ
pack_locals_size frame_stack_size locals_size =
    frame_stack_size * 2 ^ 16 % 2 ^ 32 + locals_size % 2 ^ 16

-- Goes on with the depth of the entry on top, which is visited anew if it was visited before.
unfoldable pub resume : Verifier → Result Error Verifier
resume v = elim v.workset [
  | [] ↦ ok v
  | entry ∷ rest ↦ do
    let next_addr = WorksetEntry.get_value entry
    size ← stack_size_at v next_addr
    let v₁ = record v { current_stack_size = StackSize.get_value size }
    if StackSize.is_processed size
        then set_stack_size next_addr (StackSize.from_initial v₁.current_stack_size) v₁
        else ok v₁
]

-- What END, RET and FAIL share: out of the frame, the depth written into the function's BEGIN, and
-- on with the next entry.
unfoldable pub finish_function : Verifier → Result Error Verifier
finish_function v = do
  v₁ ← leave_frame v
  locals_size ← get_locals_size v₁
  v₂ ← set_locals_size (pack_locals_size v₁.current_frame_stack_size locals_size) v₁
  resume v₂

unfoldable pub process_ret : Verifier → Result Error Verifier
process_ret v = finish_function v

unfoldable pub process_global : Verifier → Result Error Verifier
process_global v = do
  (addr, v₁) ← pop_next_int32 v
  validate v₁ (in_bounds addr v₁.file.global_area_size) Error.global_out_of_bounds
  ok v₁

unfoldable pub process_local : Verifier → Result Error Verifier
process_local v = do
  (addr, v₁) ← pop_next_int32 v
  locals_size ← get_locals_size v₁
  validate v₁ (in_bounds addr locals_size) Error.local_out_of_bounds
  ok v₁

unfoldable pub process_argument : Verifier → Result Error Verifier
process_argument v = do
  (addr, v₁) ← pop_next_int32 v
  args_size ← get_args_size v₁
  validate v₁ (in_bounds addr args_size) Error.argument_out_of_bounds
  ok v₁

unfoldable pub process_cjmp : Verifier → Result Error Verifier
process_cjmp v = do
  (addr, v₁) ← pop_next_int32 v
  validate v₁ (in_bounds addr v₁.file.code_size) Error.cjmp_destination
  size ← stack_size_at v₁ addr
  if not (StackSize.has_value size)
      then (do
        v₂ ← set_stack_size addr (StackSize.from_initial v₁.current_stack_size) v₁
        push (WorksetEntry.from_instruction addr) v₂)
      else (validate_merge v₁ >> ok v₁)

unfoldable pub process_begin : Verifier → Result Error Verifier
process_begin v = do
  (args_size, v₁) ← pop_next_int32 v
  (locals_size, v₂) ← pop_next_int32 v₁
  validate v₂ (nonneg32 args_size) Error.begin_negative_args
  validate v₂ (nonneg32 locals_size) Error.begin_negative_locals
  v₃ ← push (WorksetEntry.from_frame v₂.current_frame_stack_size) v₂
  v₄ ← push (WorksetEntry.from_frame v₃.current_frame_addr) v₃
  ok (record v₄ { current_frame_addr = sub32 v₄.addr 9; frames_depth = add64 v₄.frames_depth 1 })

-- The check of one captured variable, from the switch on its kind.
unfoldable pub validate_capture : Varspec → ℕ → Verifier → Result Error (Unit {0})
validate_capture Varspec.global addr v =
    validate v (in_bounds addr v.file.global_area_size) Error.closure_global
validate_capture Varspec.local addr v = do
  locals_size ← get_locals_size v
  validate v (in_bounds addr locals_size) Error.closure_local
validate_capture Varspec.argument addr v = do
  args_size ← get_args_size v
  validate v (in_bounds addr args_size) Error.closure_argument
validate_capture Varspec.captured addr v = ok tt
validate_capture (Varspec.other_spec b) addr v = err (failure Error.invalid_varspec v.addr)

-- The loop over the captured variables; the number counts those that are left.
unfoldable pub process_captures : ℕ → Verifier → Result Error Verifier
process_captures zero v = ok v
process_captures (suc count) v = do
  (capture_type, v₁) ← pop_next_varspec v
  (capture_addr, v₂) ← pop_next_int32 v₁
  validate_capture capture_type capture_addr v₂
  process_captures count v₂

unfoldable pub process_closure : Verifier → Result Error Verifier
process_closure v = do
  (addr, v₁) ← pop_next_int32 v
  (captured_size, v₂) ← pop_next_int32 v₁
  validate v₂ (in_bounds addr v₂.file.code_size) Error.closure_address
  validate v₂ (nonneg32 captured_size) Error.closure_negative_size
  process_captures captured_size v₂

unfoldable pub process_callc : Verifier → Result Error Verifier
process_callc v = do
  (args_size, v₁) ← pop_next_int32 v
  validate v₁ (nonneg32 args_size) Error.callc_negative_args
  ok v₁

unfoldable pub process_call : Verifier → Result Error Verifier
process_call v = do
  (addr, v₁) ← pop_next_int32 v
  (args_size, v₂) ← pop_next_int32 v₁
  validate v₂ (in_bounds addr v₂.file.code_size) Error.call_destination
  validate v₂ (nonneg32 args_size) Error.call_negative_args
  v₃ ← set_stack_size addr (StackSize.from_initial v₂.current_stack_size) v₂
  push (WorksetEntry.from_instruction addr) v₃

unfoldable pub process_tag : Verifier → Result Error Verifier
process_tag v = do
  (tag_pos, v₁) ← pop_next_int32 v
  (elements_size, v₂) ← pop_next_int32 v₁
  validate v₂ (in_bounds tag_pos v₂.file.stringtab_size) Error.tag_out_of_bounds
  validate v₂ (nonneg32 elements_size) Error.tag_negative_size
  ok v₂

unfoldable pub process_fail : Verifier → Result Error Verifier
process_fail v = do (_, v₁) ← pop_next_int32 v; (_, v₂) ← pop_next_int32 v₁; finish_function v₂

unfoldable pub process_call_barray : Verifier → Result Error Verifier
process_call_barray v = do
  (elements_size, v₁) ← pop_next_int32 v
  validate v₁ (nonneg32 elements_size) Error.barray_negative_size
  ok v₁
