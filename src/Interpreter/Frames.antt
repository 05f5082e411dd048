-- ===== src/Interpreter/Frames.antt =====
-- Entering and leaving functions, and the room that BEGIN asks for.
use vm_design.Common.{
  ℕ, ◌+◌, ◌-◌, ◌%◌, ◌^◌, ◌<◌, ◌≤◌, ◌≡◌, arith, ok, List, ◌∷◌, false, Bool, if◌then◌else◌,
}
use vm_design.Common.{ap, ◌∙◌, set, length}
use vm_design.Verifier.Process.{pack_locals_size}
use vm_design.Interpreter.Machine.{
  State, Frame, pop_next_int32, push_frame, pop_frame, push, pop, write_slot,
}
use vm_design.Interpreter.Calls.{locals_of, frame_stack_of, callers_size, enter, execute_ret}

-- What the verifier writes into BEGIN for a depth below 2 ^ 32 is read back by the interpreter as the
-- lowest 16 bits of the number of locals and of the depth.
pub halves-pack_locals_size :
    (frame_stack_size locals_size : ℕ)
    → frame_stack_size < 2 ^ 32
    → (locals_of (pack_locals_size frame_stack_size locals_size) ≡ locals_size % 2 ^ 16)
      × (frame_stack_of (pack_locals_size frame_stack_size locals_size) ≡ frame_stack_size % 2 ^ 16)
unfolding pack_locals_size
halves-pack_locals_size d l h = omega arith

module _ {W : Type 0} (s : State W) where
  enter-frames :
      (is_frame_closure : Bool) {args w : ℕ} {s₀ s₁ s₂ : State W}
      → pop_next_int32 s ≡ ok (args, s₀)
      → pop_next_int32 s₀ ≡ ok (w, s₁)
      → enter is_frame_closure s ≡ ok s₂
      → s₂.frames
        ≡ record {
          base = s.size;
          locals_size = locals_of w;
          args_size = args;
          is_frame_closure = is_frame_closure;
          return_address = 2 ^ 32 - 1;
        }
          ∷ s.frames
  unfolding enter push_frame pop_next_int32
  enter-frames c e₀ e₁ e = ground arith

  ret-caller :
      (ret n : ℕ) (frame caller : Frame) (rest : List Frame) {s₁ : State W}
      → s.frames ≡ frame ∷ caller ∷ rest
      → pop s ≡ ok (ret, s₁)
      → callers_size frame ≡ n + (if frame.is_frame_closure then 1 else 0)
      → n < length s.buf
      → execute_ret s
        ≡ ok (
          false,
          record s {
            frames = caller ∷ rest;
            ip = caller.return_address;
            size = n + 1;
            buf = set s.buf n ret;
          },
        )
  unfolding execute_ret pop_frame pop push write_slot
  ret-caller ret n frame caller rest f e h l = ground arith

module _ {W : Type 0} (s : State W) where
  -- A call leaves one word in place of its arguments, and of its closure if it has one: the result.
  -- `s` is the state in front of the operands `args` and `w` of BEGIN, with `caller` the frame of
  -- the caller, and `t` one in front of RET with the frames as BEGIN has left them, with `ret` on
  -- top of the stack. RET leaves `ret` on top of the caller's stack, which ends where the arguments
  -- began, drops the frame, and goes on at the caller's return address.
  pub execute_ret-enter :
      (is_frame_closure : Bool) (args w ret words : ℕ) (caller : Frame) (rest : List Frame)
      (t : State W) {s₀ s₁ s₂ t₁ : State W}
      → s.frames ≡ caller ∷ rest
      → pop_next_int32 s ≡ ok (args, s₀)
      → pop_next_int32 s₀ ≡ ok (w, s₁)
      → enter is_frame_closure s ≡ ok s₂
      → t.frames ≡ s₂.frames
      → pop t ≡ ok (ret, t₁)
      → words ≡ args + (if is_frame_closure then 1 else 0)
      → words ≤ s.size
      → s.size < 2 ^ 32
      → s.size - words < length t.buf
      → execute_ret t
        ≡ ok (
          false,
          record t {
            frames = s.frames;
            ip = caller.return_address;
            size = s.size - words + 1;
            buf = set t.buf (s.size - words) ret;
          },
        )
  execute_ret-enter c args w ret words caller rest t f e₀ e₁ e g p h l b m =
      let frame : Frame = record {
        base = s.size;
        locals_size = locals_of w;
        args_size = args;
        is_frame_closure = c;
        return_address = 2 ^ 32 - 1;
      } in
      let frames : t.frames ≡ frame ∷ (caller ∷ rest) =
        g ∙ enter-frames s c e₀ e₁ e ∙ ap (λ fs. frame ∷ fs) f in
      rw f (ret-caller t ret (s.size - words) frame caller rest frames p (ground arith) m)
