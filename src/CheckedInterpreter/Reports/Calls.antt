-- ===== src/CheckedInterpreter/Reports/Calls.antt =====
-- The handlers that enter and leave functions: from a valid state they give one, or a report.
use vm_design.Common.{
  arith, ℕ, ◌+◌, ◌<◌, ◌≤◌, ◌≡◌, refl, List, [], ◌∷◌, Bool, true, false, ◌⊎◌, inl, inr,
}
use vm_design.Common.{ok, ◌>>=◌, length, leb}
use vm_design.Common.Words.{nonneg32}
use vm_design.Bytecode.{Bytecode}
use vm_design.Verifier.State.{max_stack_size}
use vm_design.Interpreter.Machine.{
  max_frames_size, State, Frame, pop_frame, push_frame, set_return_address, peek_next_op,
}
use vm_design.Interpreter.Objects.{in_range}
use vm_design.CheckedInterpreter.Machine.{push}
use vm_design.CheckedInterpreter.Calls.{
  execute_ret, enter, execute_begin, execute_cbegin, execute_call,
}
use vm_design.CheckedInterpreter.Reports.{
  Post, returns, reports, ◌⟫◌, Valid, ValidBut, FileValid, inside_function, called, callers_fit,
  frames_fit,
}
use vm_design.CheckedInterpreter.Reports.Steps.{
  checked, inside_function-head, pop_next_int32-Post, push-Post, pop-Post, get_code-inside,
}

-- A caller has its locals inside the stack and goes on inside the code.
callers_fit-cases :
    (code_size : ℕ) (frames : List Frame)
    → callers_fit code_size frames ≡ true
    → (frames ≡ [])
      ⊎ ((caller : Frame) × (rest : List Frame) × (frames ≡ caller ∷ rest)
          × (caller.return_address < code_size)
          × (frames_fit code_size frames ≡ true))
unfolding callers_fit frames_fit
callers_fit-cases code_size [] h = inl refl
callers_fit-cases code_size (caller ∷ rest) h = inr (caller, rest, refl, ground arith, ground arith)

frames_fit-callers_fit :
    (code_size : ℕ) (frames : List Frame)
    → frames_fit code_size frames ≡ true
    → called code_size frames ≡ true
    → callers_fit code_size frames ≡ true
unfolding frames_fit callers_fit
frames_fit-callers_fit code_size [] h c = refl
frames_fit-callers_fit code_size (frame ∷ rest) h c = ground arith

frames_fit-rest :
    (code_size : ℕ) (frame : Frame) (rest : List Frame)
    → frames_fit code_size (frame ∷ rest) ≡ true
    → callers_fit code_size rest ≡ true
unfolding frames_fit
frames_fit-rest code_size frame rest h = ground arith

module _ {W : Type 0} (s : State W) where
  -- Left behind: a state but for its frames, of which those of the callers remain.
  pop_frame-Post :
      ValidBut s
      → Post
          (λ (frame, s').
            (s'.file ≡ s.file) × (s'.buf ≡ s.buf) × (callers_fit s.file.code_size s'.frames ≡ true))
          (pop_frame s)
  unfolding pop_frame
  pop_frame-Post v = go s.frames refl
    where
      go :
          (frames : List Frame)
          → s.frames ≡ frames
          → Post
              (λ (frame, s').
                (s'.file ≡ s.file)
                × (s'.buf ≡ s.buf)
                × (callers_fit s.file.code_size s'.frames ≡ true))
              (pop_frame s)
      go [] e = rw (e, pop_frame) (reports tt)
      go (frame ∷ rest) e =
          rw (e, pop_frame) (returns (refl, refl, frames_fit-rest _ frame rest (rw (e) at v.3)))

  resume-Post :
      (ret : ℕ)
      → FileValid s.file
      → length s.buf ≡ max_stack_size
      → callers_fit s.file.code_size s.frames ≡ true
      → Post {A = Bool × State W}
          (λ (last, s'). last ≡ false → Valid s')
          (elim s.frames [
            | [] ↦ ok (true, s)
            | caller ∷ rest ↦ do
              s' ← push ret (record s { ip = caller.return_address })
              ok (false, s')
          ])
  resume-Post ret f l c = elim (callers_fit-cases s.file.code_size s.frames c) [
    | inl e ↦ rw (e) (returns (λ q. absurd (cc)))
    | inr (caller, rest, e, a, g) ↦ rw (e) (
        push-Post (record s { ip = caller.return_address }) ret (f, l, a, g) ⟫ λ s' v'.
        returns (λ q. v'))
  ]

  push_frame-Post :
      (frame : Frame)
      → frame.base + frame.locals_size ≤ max_stack_size
      → callers_fit s.file.code_size s.frames ≡ true
      → Valid s
      → Post Valid (push_frame frame s)
  unfolding push_frame frames_fit
  push_frame-Post frame l c v =
      checked s (leb (length s.frames + 1) max_frames_size) _ _
        λ _. returns ((v.0.0, v.0.1, v.0.2, ground arith), v.1)

  set_return_address-Post :
      inside_function s.frames ≡ true
      → ValidBut s
      → Post (λ s'. ValidBut s' × (s'.size ≡ s.size) × (s'.file ≡ s.file)) (set_return_address s)
  unfolding set_return_address frames_fit
  set_return_address-Post h v =
      let (frame, rest, e, l, c) = inside_function-head s.file.code_size s.frames h v.3 in
      rw (e) (returns ((v.0, v.1, v.2, ground arith), refl, refl))

  peek_next_op-Post : ValidBut s → Post (λ _. Unit {0}) (peek_next_op s)
  unfolding peek_next_op
  peek_next_op-Post v = let (op, e) = get_code-inside s.file s.ip v.0 v.2 in rw (e) (returns tt)

module _ {W : Type 0} (s : State W) where
  pub execute_ret-Post :
      Valid s → Post {A = Bool × State W} (λ (last, s'). last ≡ false → Valid s') (execute_ret s)
  unfolding execute_ret
  execute_ret-Post v = pop-Post s v ⟫ λ (ret, s₁) (v₁, _, _, _).
      pop_frame-Post s₁ v₁.0 ⟫ λ (frame, s₂) (f, b, c).
      resume-Post _ ret (rw (f) v₁.0.0) (rw (b) v₁.0.1) (rw (f) c)

  enter-Post :
      (is_frame_closure : Bool)
      → ValidBut s
      → called s.file.code_size s.frames ≡ true
      → Post Valid (enter is_frame_closure s)
  unfolding enter
  enter-Post is_frame_closure v c = pop_next_int32-Post s v ⟫ λ (args_size, s₁) (v₁, _, f, a).
      pop_next_int32-Post s₁ v₁ ⟫ λ (locals_size, s₂) (v₂, _, g, b).
      checked s₂ (nonneg32 args_size) _ _ λ _. checked s₂ (nonneg32 locals_size) _ _ λ _.
        checked s₂ (leb (s₂.size + locals_size) max_stack_size) _ _ λ l.
          let k : callers_fit s₂.file.code_size s₂.frames ≡ true =
            rw (g, f, b, a) (frames_fit-callers_fit _ s.frames v.3 c) in
          let fit : s₂.size + locals_size ≤ max_stack_size = ground arith in
          push_frame-Post (record s₂ { size = s₂.size + locals_size }) _ fit k (v₂, fit)

  pub execute_cbegin-Post :
      called s.file.code_size s.frames ≡ true → Valid s → Post Valid (execute_cbegin s)
  unfolding execute_cbegin
  execute_cbegin-Post c v = enter-Post true v.0 c

module _ {W : Type 0} (s : State W) where
  pub execute_begin-Post :
      called s.file.code_size s.frames ≡ true → Valid s → Post Valid (execute_begin s)
  unfolding execute_begin
  execute_begin-Post c v = enter-Post (record s { is_tmp_closure = false }) s.is_tmp_closure v.0 c

  pub execute_call-Post : inside_function s.frames ≡ true → Valid s → Post Valid (execute_call s)
  unfolding execute_call
  execute_call-Post h v = pop_next_int32-Post s v.0 ⟫ λ (addr, s₁) (v₁, m, f, a).
      pop_next_int32-Post s₁ v₁ ⟫ λ (args_size, s₂) (v₂, n, g, b).
      checked s₂ (in_range addr s₂.file.code_size) _ _ λ c. checked s₂ (nonneg32 args_size) _ _ λ _.
        set_return_address-Post s₂ (rw (g, f) h) v₂ ⟫ λ s₃ (v₃, e, k).
        let inside : addr < s₃.file.code_size = rw (k) (ground arith) in
        peek_next_op-Post (record s₃ { ip = addr; is_tmp_closure = false })
          (v₃.0, v₃.1, inside, v₃.3)
        ⟫ λ op _.
            checked (record s₃ { ip = addr; is_tmp_closure = false })
              (elim op [ Bytecode.begin ↦ true | _ ↦ false ]) _ _
              λ _. returns ((v₃.0, v₃.1, inside, v₃.3), omega (arith, v.1, m, n, e))
