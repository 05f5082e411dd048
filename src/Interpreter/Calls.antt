-- ===== src/Interpreter/Calls.antt =====
-- The handlers of the instructions that enter and leave functions and make closures:
-- Assignment04/src/interpreter.cpp, lines 340 to 353 and 481 to 560.
use vm_design.Common.{ℕ, zero, suc, ◌+◌, ◌-◌, ◌/◌, ◌%◌, ◌^◌, [], ◌∷◌, Bool, true, false}
use vm_design.Common.{Result, ok, err, ◌>>=◌, ◌>>◌, require}
use vm_design.Common.{ltb, leb, if◌then◌else◌}
use vm_design.Common.Words.{add32, sub32, sub64, nonneg32}
use vm_design.Bytecode.{Bytecode, Varspec}
use vm_design.Error
use vm_design.Error.{Error, Message, failure, undefined}
use vm_design.Verifier.State.{max_stack_size}
use vm_design.Interpreter.Runtime.{Runtime, Kind}
use vm_design.Interpreter.Value.{box, as_integer}
use vm_design.Interpreter.Machine.{State, Frame, validate, read_slot, peek, push, pop, pop_count}
use vm_design.Interpreter.Machine.{span, peek_next_op, pop_next_int32, pop_next_varspec, peek_frame}
use vm_design.Interpreter.Machine.{push_frame, pop_frame, set_return_address, local_slot, arg_slot}
use vm_design.Interpreter.Machine.{allocate}
use vm_design.Interpreter.Objects.{is_kind, frame_closure, get_captured_size, capture_address}
use vm_design.Interpreter.Objects.{in_range}

-- The two halves of the second operand of BEGIN: `locals_size & 0xFFFF` and
-- `(locals_size >> 16) & 0xFFFF`.
abbrev pub locals_of : ℕ → ℕ
locals_of w = w % 2 ^ 16

abbrev pub frame_stack_of : ℕ → ℕ
frame_stack_of w = w / 2 ^ 16 % 2 ^ 16

-- The stack size of a `stack{stack_buf.data(), n}`, where `n` is a uint32_t difference.
abbrev pub callers_size : Frame → ℕ
callers_size frame = sub32 frame.base frame.args_size

abbrev pub is_closure_kind : Kind → Bool
is_closure_kind Kind.closure = true
is_closure_kind _ = false

module _ {W : Type 0} where
  -- True where the last frame is left.
  unfoldable pub execute_ret : State W → Result Error (Bool × State W)
  execute_ret s = do
    (ret, s₁) ← pop s
    (frame, s₂) ← pop_frame s₁
    let size = callers_size frame
    let s₃ = record s₂ { size = if frame.is_frame_closure then sub64 size 1 else size }
    elim s₃.frames [
      | [] ↦ ok (true, s₃)
      | caller ∷ rest ↦ do s₄ ← push ret (record s₃ { ip = caller.return_address }); ok (false, s₄)
    ]

  -- The frame of BEGIN is a closure's if CALLC has led to it; that of CBEGIN always is.
  unfoldable pub enter : Bool → State W → Result Error (State W)
  enter is_frame_closure s = do
    (args_size, s₁) ← pop_next_int32 s
    (locals_size, s₂) ← pop_next_int32 s₁
    let frame : Frame = record {
      base = s₂.size;
      locals_size = locals_of locals_size;
      args_size = args_size;
      is_frame_closure = is_frame_closure;
      return_address = 2 ^ 32 - 1;
    }
    validate s₂ (leb (s₂.size + frame_stack_of locals_size) max_stack_size) Error.stack_overflow
    push_frame frame (record s₂ { size = s₂.size + locals_of locals_size })

  unfoldable pub execute_begin : State W → Result Error (State W)
  execute_begin s = enter s.is_tmp_closure (record s { is_tmp_closure = false })

  unfoldable pub execute_cbegin : State W → Result Error (State W)
  execute_cbegin s = enter true s

  unfoldable pub execute_call : State W → Result Error (State W)
  execute_call s = do
    (addr, s₁) ← pop_next_int32 s
    (args_size, s₂) ← pop_next_int32 s₁
    s₃ ← set_return_address s₂
    let s₄ = record s₃ { ip = addr; is_tmp_closure = false }
    op ← peek_next_op s₄
    validate s₄ (elim op [ Bytecode.begin ↦ true | _ ↦ false ]) Error.call_not_begin
    ok s₄

module _ {W : Type 0} (rt : Runtime W) where
  unfoldable pub execute_callc : State W → Result Error (State W)
  execute_callc s = do
    (args_size, s₁) ← pop_next_int32 s
    s₂ ← set_return_address s₁
    target ← peek args_size s₂
    closure ← is_kind rt is_closure_kind s₂ target
    validate s₂ closure Error.callc_not_closure
    code ← require (rt.load s₂.world target) undefined
    validate s₂ (ltb (as_integer code) s₂.file.code_size) Error.callc_destination
    let s₃ = record s₂ { ip = as_integer code; is_tmp_closure = true }
    op ← peek_next_op s₃
    validate s₃ (elim op [ Bytecode.begin ↦ true | Bytecode.cbegin ↦ true | _ ↦ false ])
        Error.callc_not_begin
    ok s₃

  -- One captured variable of CLOSURE, from the switch on its kind.
  unfoldable pub capture : Varspec → ℕ → State W → Result Error ℕ
  capture Varspec.global addr s = read_slot s addr
  capture Varspec.local addr s = do frame ← peek_frame s; read_slot s (local_slot frame addr)
  capture Varspec.argument addr s = do frame ← peek_frame s; read_slot s (arg_slot frame addr)
  capture Varspec.captured addr s = do
    closure ← frame_closure rt s
    validate s (in_range addr (get_captured_size rt s closure)) Error.closure_captured
    require (rt.load s.world (capture_address rt closure addr)) undefined
  capture (Varspec.other_spec b) addr s = err (failure Error.invalid_varspec s.ip)

  -- The loop over the captured variables; the number counts those that are left.
  unfoldable pub push_captures : ℕ → State W → Result Error (State W)
  push_captures zero s = ok s
  push_captures (suc count) s = do
    (capture_type, s₁) ← pop_next_varspec s
    (capture_addr, s₂) ← pop_next_int32 s₁
    val ← capture capture_type capture_addr s₂
    s₃ ← push val s₂
    push_captures count s₃

  -- The closure takes the place of its code address and its captured variables.
  unfoldable pub make_closure : ℕ → State W → Result Error (State W)
  make_closure captured_size s = do
    captured ← span (s.size - captured_size - 1) (add32 captured_size 1) s
    let (object, s₁) = allocate (rt.bclosure captured) s
    s₂ ← pop_count (add32 captured_size 1) s₁
    push object s₂

  -- A negative number of captured variables ends the loop at once.
  unfoldable pub execute_closure : State W → Result Error (State W)
  execute_closure s = do
    (addr, s₁) ← pop_next_int32 s
    (captured_size, s₂) ← pop_next_int32 s₁
    s₃ ← push (box addr) s₂
    current_frame ← peek_frame s₃
    s₄ ← push_captures (if nonneg32 captured_size then captured_size else 0) s₃
    make_closure captured_size s₄
