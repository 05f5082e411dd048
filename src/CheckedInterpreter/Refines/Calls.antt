-- ===== src/CheckedInterpreter/Refines/Calls.antt =====
-- Where a handler of Assignment02 succeeds, that of Assignment04 does the same: entering and leaving functions, and closures.
use vm_design.Common.{
  arith, ltb, err, ℕ, zero, suc, Bool, true, false, Result, ok, >>=-eq-ok, sym, ◌∙◌, ap, err, ◌≡◌,
  ◌^◌,
}
use vm_design.Common.Words.{nonneg32, add32, sub32}
use vm_design.Bytefile.{Bytefile, get_int32}
use vm_design.Bytecode.{Varspec}
use vm_design.Interpreter.Machine
use vm_design.Error
use vm_design.Error.{Error}
use vm_design.Interpreter.Machine.{validate}
use vm_design.Interpreter.Objects.{in_range}
use vm_design.Interpreter.Value.{box}
use vm_design.Interpreter.Machine.{
  State, push_frame, pop_frame, peek_frame, set_return_address, write_slot, store_word, allocate,
}
use vm_design.CheckedInterpreter.Refines.{Follows}
use vm_design.Interpreter.Runtime.{Runtime}
use vm_design.Interpreter.Calls
use vm_design.CheckedInterpreter.Machine.{pop, pop_count, pop_next_int32, pop_next_varspec, push}
use vm_design.CheckedInterpreter.Objects.{top_span}
use vm_design.CheckedInterpreter.Calls.{
  execute_ret, enter, execute_begin, execute_cbegin, execute_call,
}
use vm_design.CheckedInterpreter.Calls.{execute_callc, capture, push_captures, make_closure}
use vm_design.CheckedInterpreter.Calls.{execute_closure}

-- The number of locals in the operands of BEGIN and CBEGIN at `ip`, where there is one, fits in 16 bits.
unfoldable pub locals_fit : Bytefile → ℕ → Bool
locals_fit file ip = elim (get_int32 file (add32 ip 5)) [ ok w ↦ ltb w (2 ^ 16) | err e ↦ true ]

module _ {W : Type 0} (s : State W) where
  -- The instruction stands at `ip`.
  enter-Refines :
      (is_frame_closure : Bool) (ip : ℕ) {s' : State W}
      → s.ip ≡ add32 ip 1
      → locals_fit s.file ip ≡ true
      → enter is_frame_closure s ≡ ok s'
      → Follows (Calls.enter is_frame_closure s) s s'
  unfolding enter pop_next_int32 Calls.enter Machine.pop_next_int32 push_frame locals_fit
  enter-Refines is_frame_closure ip at fits e =
      let p : sub32 (add32 (add32 s.ip 4) 4) 4 ≡ add32 ip 5 = omega arith in ground (arith, p)

module _ {W : Type 0} (s : State W) where
  pub execute_ret-Refines :
      {last : Bool} {s' : State W}
      → execute_ret s ≡ ok (last, s')
      → (Calls.execute_ret s ≡ ok (last, s')) × (s'.file ≡ s.file)
  unfolding execute_ret push pop Machine.push Machine.pop write_slot pop_frame Calls.execute_ret
  execute_ret-Refines e = ground arith

  pub execute_call-Refines :
      {s' : State W} → execute_call s ≡ ok s' → Follows (Calls.execute_call s) s s'
  unfolding execute_call pop_next_int32 Calls.execute_call Machine.pop_next_int32 set_return_address
  execute_call-Refines e = ground arith

  pub execute_begin-Refines :
      (ip : ℕ) {s' : State W}
      → s.ip ≡ add32 ip 1
      → locals_fit s.file ip ≡ true
      → execute_begin s ≡ ok s'
      → Follows (Calls.execute_begin s) s s'
  unfolding execute_begin Calls.execute_begin
  execute_begin-Refines ip at fits e =
      enter-Refines (record s { is_tmp_closure = false }) s.is_tmp_closure ip at fits e

  pub execute_cbegin-Refines :
      (ip : ℕ) {s' : State W}
      → s.ip ≡ add32 ip 1
      → locals_fit s.file ip ≡ true
      → execute_cbegin s ≡ ok s'
      → Follows (Calls.execute_cbegin s) s s'
  unfolding execute_cbegin Calls.execute_cbegin
  execute_cbegin-Refines ip at fits e = enter-Refines s true ip at fits e

module _ {W : Type 0} (rt : Runtime W) where
  pub execute_callc-Refines :
      (s : State W)
      → {s' : State W} → execute_callc rt s ≡ ok s'
      → Follows (Calls.execute_callc rt s) s s'
  unfolding execute_callc pop_next_int32 Calls.execute_callc Machine.pop_next_int32
      set_return_address
  execute_callc-Refines s e = ground arith

  capture-Refines :
      (spec : Varspec) (addr : ℕ) (s : State W)
      → {val : ℕ} → capture rt spec addr s ≡ ok val
      → Calls.capture rt spec addr s ≡ ok val
  unfolding capture Calls.capture
  capture-Refines Varspec.global addr s e = ground arith
  capture-Refines Varspec.local addr s e = ground arith
  capture-Refines Varspec.argument addr s e = ground arith
  capture-Refines Varspec.captured addr s e = ground arith
  capture-Refines (Varspec.other_spec b) addr s e = ground arith

  make_closure-Refines :
      (captured_size : ℕ) (s : State W) {s' : State W}
      → make_closure rt captured_size s ≡ ok s'
      → Follows (Calls.make_closure rt captured_size s) s s'
  unfolding make_closure push pop_count top_span Calls.make_closure Machine.push Machine.pop_count
      write_slot allocate
  make_closure-Refines captured_size s e = ground arith

  -- One variable, up to the call for those that are left.
  step_captures-Refines :
      (s : State W) {s₁ s₂ s₃ : State W} {spec : Varspec} {addr : ℕ} (val : ℕ)
      → pop_next_varspec s ≡ ok (spec, s₁)
      → pop_next_int32 s₁ ≡ ok (addr, s₂)
      → push val s₂ ≡ ok s₃
      → (Machine.pop_next_varspec s ≡ ok (spec, s₁))
        × (Machine.pop_next_int32 s₁ ≡ ok (addr, s₂))
        × (Machine.push val s₂ ≡ ok s₃)
        × (s₃.file ≡ s.file)
  unfolding pop_next_varspec pop_next_int32 push Machine.pop_next_varspec Machine.pop_next_int32
      Machine.push write_slot
  step_captures-Refines s val p q r = ground arith

  push_captures-Refines :
      (count : ℕ) (s : State W) {s' : State W}
      → push_captures rt count s ≡ ok s'
      → Follows (Calls.push_captures rt count s) s s'
  unfolding push_captures Calls.push_captures
  push_captures-Refines zero s e = (e, ap (λ r. elim r [ ok u ↦ u.file | err x ↦ s.file ]) (sym e))
  push_captures-Refines (suc count) s e =
      let ((spec, s₁), p, e₁) = >>=-eq-ok _ _ e in
      let ((addr, s₂), q, e₂) = >>=-eq-ok _ _ e₁ in
      let (val, c, e₃) = >>=-eq-ok _ _ e₂ in
      let (s₃, r, e₄) = >>=-eq-ok _ _ e₃ in
      let (p', q', r', f) = step_captures-Refines s val p q r in
      let (rest, g) = push_captures-Refines count s₃ e₄ in
      (rw (p') (rw (q') (rw (capture-Refines spec addr s₂ c) (rw (r') rest))), g ∙ f)

  -- Before the loop over the variables.
  closure_operands-Refines :
      (s : State W) {s₁ s₂ s₃ : State W} {addr captured_size : ℕ} (code : ℕ)
      → pop_next_int32 s ≡ ok (addr, s₁)
      → pop_next_int32 s₁ ≡ ok (captured_size, s₂)
      → push code s₂ ≡ ok s₃
      → (Machine.pop_next_int32 s ≡ ok (addr, s₁))
        × (Machine.pop_next_int32 s₁ ≡ ok (captured_size, s₂))
        × (Machine.push code s₂ ≡ ok s₃)
        × (s₃.file ≡ s.file)
  unfolding pop_next_int32 push Machine.pop_next_int32 Machine.push write_slot
  closure_operands-Refines s code p q r = ground arith

  abbrev in_code : ℕ → State W → Result Error (Unit {0})
  in_code addr s = validate s (in_range addr s.file.code_size) Error.closure_address

  abbrev not_negative : ℕ → State W → Result Error (Unit {0})
  not_negative captured_size s = validate s (nonneg32 captured_size) Error.closure_negative_size

  pub execute_closure-Refines :
      (s : State W) {s' : State W}
      → execute_closure rt s ≡ ok s'
      → Follows (Calls.execute_closure rt s) s s'
  unfolding execute_closure Calls.execute_closure
  execute_closure-Refines s e =
      let ((addr, s₁), p, e₁) = >>=-eq-ok _ _ e in
      let ((captured_size, s₂), q, e₂) = >>=-eq-ok _ _ e₁ in
      let (_, _, e₃) = >>=-eq-ok (in_code addr s₂) _ e₂ in
      let (_, v, e₄) = >>=-eq-ok (not_negative captured_size s₂) _ e₃ in
      let (s₃, r, e₅) = >>=-eq-ok _ _ e₄ in
      let (frame, c, e₆) = >>=-eq-ok (peek_frame s₃) _ e₅ in
      let (s₄, d, e₇) = >>=-eq-ok _ _ e₆ in
      let (p', q', r', f) = closure_operands-Refines s (box addr) p q r in
      let (d', g) = push_captures-Refines captured_size s₃ d in
      let (m, h) = make_closure-Refines captured_size s₄ e₇ in
      let n : nonneg32 captured_size ≡ true = ground arith in
      (rw (p') (rw (q') (rw (r') (rw (c) (rw (n) (rw (d') m))))), h ∙ g ∙ f)
