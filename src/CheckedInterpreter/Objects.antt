-- ===== src/CheckedInterpreter/Objects.antt =====
-- The handlers of the instructions that work on objects of the runtime, with the checks that
-- Assignment02/src/interpreter.cpp makes at run time.
use vm_design.Common.{
  ℕ, ◌+◌, ◌-◌, not, List, Result, ◌>>=◌, ◌>>◌, require, guard, leb, if◌then◌else◌,
}
use vm_design.Common.Words.{nonneg32}
use vm_design.Bytefile.{get_string}
use vm_design.Error
use vm_design.Error.{Error, undefined}
use vm_design.Interpreter.Runtime.{Runtime}
use vm_design.Interpreter.Value.{box, as_integer, is_integer, is_reference}
use vm_design.Interpreter.Machine.{State, validate, write_slot, span, allocate, store_word}
use vm_design.Interpreter.Objects.{is_kind, is_aggregate_kind, is_s_expr_kind, get_elements_size}
use vm_design.Interpreter.Objects.{frame_closure, get_captured_size, capture_address, in_range}
use vm_design.CheckedInterpreter.Machine.{push, pop, pop_count, pop_next_int32}

-- `stack_.end() - count`; in front of the stack it is no pointer.
unfoldable pub top_span : {W : Type 0} → ℕ → ℕ → State W → Result Error (List ℕ)
top_span below count s = do guard (leb below s.size) undefined; span (s.size - below) count s

module _ {W : Type 0} (rt : Runtime W) where
  unfoldable pub execute_string : State W → Result Error (State W)
  execute_string s = do
    (string_pos, s₁) ← pop_next_int32 s
    validate s₁ (in_range string_pos s₁.file.stringtab_size) Error.string_out_of_bounds
    string ← get_string s₁.file string_pos
    let (object, s₂) = allocate (rt.bstring string) s₁
    push object s₂

  -- The hash of the tag goes into the slot above the elements.
  unfoldable pub execute_sexp : State W → Result Error (State W)
  execute_sexp s = do
    (tag_pos, s₁) ← pop_next_int32 s
    (elements_size, s₂) ← pop_next_int32 s₁
    validate s₂ (nonneg32 elements_size) Error.sexp_negative_size
    validate s₂ (in_range tag_pos s₂.file.stringtab_size) Error.sexp_out_of_bounds
    tag ← get_string s₂.file tag_pos
    s₃ ← write_slot s₂.size (rt.ltag_hash tag) s₂
    elements ← top_span elements_size (elements_size + 1) s₃
    let (object, s₄) = allocate (rt.bsexp elements) s₃
    s₅ ← pop_count elements_size s₄
    push object s₅

  unfoldable pub execute_sti : State W → Result Error (State W)
  execute_sti s = do
    (addr, s₁) ← pop s
    validate s₁ (is_reference addr) Error.sti_not_reference
    (val, s₂) ← pop s₁
    s₃ ← store_word rt addr val s₂
    push val s₃

  unfoldable pub execute_sta : State W → Result Error (State W)
  execute_sta s = do
    (val, s₁) ← pop s
    (selector, s₂) ← pop s₁
    if not (is_integer selector)
        then (do
          validate s₂ (is_reference selector) Error.sta_not_reference
          s₃ ← store_word rt selector val s₂
          push val s₃)
        else (do
          (agg, s₃) ← pop s₂
          aggregate ← is_kind rt is_aggregate_kind s₃ agg
          validate s₃ aggregate Error.not_aggregate
          validate s₃ (in_range (as_integer selector) (get_elements_size rt s₃ agg))
              Error.index_out_of_bounds
          push val (record s₃ { world = rt.bsta agg (box (as_integer selector)) val s₃.world }))

  unfoldable pub execute_elem : State W → Result Error (State W)
  execute_elem s = do
    (idx, s₁) ← pop s
    validate s₁ (is_integer idx) Error.index_not_integer
    (agg, s₂) ← pop s₁
    aggregate ← is_kind rt is_aggregate_kind s₂ agg
    validate s₂ aggregate Error.not_aggregate
    validate s₂ (in_range (as_integer idx) (get_elements_size rt s₂ agg)) Error.index_out_of_bounds
    push (rt.belem s₂.world agg (box (as_integer idx))) s₂

  unfoldable pub execute_ld_captured : State W → Result Error (State W)
  execute_ld_captured s = do
    (addr, s₁) ← pop_next_int32 s
    closure ← frame_closure rt s₁
    validate s₁ (in_range addr (get_captured_size rt s₁ closure)) Error.captured_out_of_bounds
    target ← require (rt.load s₁.world (capture_address rt closure addr)) undefined
    push target s₁

  unfoldable pub execute_lda_captured : State W → Result Error (State W)
  execute_lda_captured s = do
    (addr, s₁) ← pop_next_int32 s
    closure ← frame_closure rt s₁
    validate s₁ (in_range addr (get_captured_size rt s₁ closure)) Error.captured_out_of_bounds
    push (capture_address rt closure addr) s₁

  unfoldable pub execute_st_captured : State W → Result Error (State W)
  execute_st_captured s = do
    (val, s₁) ← pop s
    (addr, s₂) ← pop_next_int32 s₁
    closure ← frame_closure rt s₂
    validate s₂ (in_range addr (get_captured_size rt s₂ closure)) Error.captured_out_of_bounds
    world ← require (rt.store (capture_address rt closure addr) val s₂.world) undefined
    push val (record s₂ { world = world })

  unfoldable pub execute_tag : State W → Result Error (State W)
  execute_tag s = do
    (tag_pos, s₁) ← pop_next_int32 s
    (elements_size, s₂) ← pop_next_int32 s₁
    validate s₂ (in_range tag_pos s₂.file.stringtab_size) Error.tag_out_of_bounds
    validate s₂ (nonneg32 elements_size) Error.tag_negative_size
    (val, s₃) ← pop s₂
    s_expr ← is_kind rt is_s_expr_kind s₃ val
    if s_expr
        then (do
          tag ← get_string s₃.file tag_pos
          res ← rt.btag s₃.world val (rt.ltag_hash tag) (box elements_size)
          push res s₃)
        else push (box 0) s₃

  unfoldable pub execute_array : State W → Result Error (State W)
  execute_array s = do
    (elements_size, s₁) ← pop_next_int32 s
    validate s₁ (nonneg32 elements_size) Error.array_negative_size
    (val, s₂) ← pop s₁
    res ← rt.barray_patt s₂.world val (box elements_size)
    push res s₂

  unfoldable pub execute_patt_str : State W → Result Error (State W)
  execute_patt_str s = do
    (rhs, s₁) ← pop s
    (lhs, s₂) ← pop s₁
    res ← rt.bstring_patt s₂.world lhs rhs
    push res s₂

  -- The handlers of PATT_STRING, PATT_ARRAY, PATT_SEXP, PATT_REF, PATT_VAL and PATT_FUN differ in the
  -- test that they call.
  unfoldable pub execute_patt : (W → ℕ → ℕ) → State W → Result Error (State W)
  execute_patt test s = do (val, s₁) ← pop s; push (test s₁.world val) s₁

  unfoldable pub execute_call_lread : State W → Result Error (State W)
  execute_call_lread s =
      let (val, world) = rt.lread s.world in push val (record s { world = world })

  unfoldable pub execute_call_lwrite : State W → Result Error (State W)
  execute_call_lwrite s = do
    (val, s₁) ← pop s
    validate s₁ (is_integer val) Error.invalid_output
    push 0 (record s₁ { world = rt.lwrite val s₁.world })

  unfoldable pub execute_call_llength : State W → Result Error (State W)
  execute_call_llength s = do
    (agg, s₁) ← pop s
    aggregate ← is_kind rt is_aggregate_kind s₁ agg
    validate s₁ aggregate Error.not_aggregate
    push (box (get_elements_size rt s₁ agg)) s₁

  unfoldable pub execute_call_lstring : State W → Result Error (State W)
  execute_call_lstring s = do
    (val, s₁) ← pop s
    let (object, s₂) = allocate (rt.lstring val) s₁
    push object s₂

  unfoldable pub execute_call_barray : State W → Result Error (State W)
  execute_call_barray s = do
    (elements_size, s₁) ← pop_next_int32 s
    validate s₁ (nonneg32 elements_size) Error.barray_negative_size
    elements ← top_span elements_size elements_size s₁
    let (object, s₂) = allocate (rt.barray elements) s₁
    s₃ ← pop_count elements_size s₂
    push object s₃
