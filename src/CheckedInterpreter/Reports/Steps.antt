-- ===== src/CheckedInterpreter/Reports/Steps.antt =====
-- The steps that the handlers are made of: from a valid state they give one, or a report.
use vm_design.Common.{arith, ℕ, ◌+◌, ◌-◌, ◌<◌, ◌≤◌, ◌≡◌, refl, List, [], ◌∷◌, Bool, true, false}
use vm_design.Common.{
  some, Result, ok, ◌>>=◌, ltb, leb, not, ◌==◌, length, drop, get_elem?_of_lt, length-set,
  length-drop,
}
use vm_design.Common.Words.{add32, sub32, of_bytes32}
use vm_design.Bytecode.{Bytecode, of_byte}
use vm_design.Bytefile.{Bytefile, get_byte, get_code, get_int32, load32}
use vm_design.Error.{Error, Message}
use vm_design.Verifier.State.{max_stack_size}
use vm_design.Interpreter.Machine
use vm_design.Interpreter.Machine.{
  State, Frame, validate, read_slot, write_slot, peek, peek_current_op, peek_frame,
}
use vm_design.CheckedInterpreter.Machine.{push, pop, pop_next_int32, pop_next_op}
use vm_design.CheckedInterpreter.Reports.{
  Post, returns, reports, Valid, ValidBut, FileValid, frames_fit, callers_fit, inside_function,
}

-- Behind a check, with what it has found.
pub checked :
    {W B : Type 0} {Q : B → Type 0} (s : State W) (condition : Bool) (message : Message)
    → (f : Unit {0} → Result Error B) → (condition ≡ true → Post Q (f tt))
    → Post Q (validate s condition message >>= f)
checked s true message f k = k refl
checked s false message f k = reports tt

of_bytes32-length : (bs : List ℕ) → 4 ≤ length bs → (w : ℕ) × (of_bytes32 bs ≡ some w)
of_bytes32-length (a ∷ (b ∷ (c ∷ (d ∷ bs)))) h = (_, refl)
of_bytes32-length [] h = absurd (omega arith)
of_bytes32-length (a ∷ []) h = absurd (omega arith)
of_bytes32-length (a ∷ (b ∷ [])) h = absurd (omega arith)
of_bytes32-length (a ∷ (b ∷ (c ∷ []))) h = absurd (omega arith)

pub inside_function-head :
    (code_size : ℕ) (frames : List Frame)
    → inside_function frames ≡ true
    → frames_fit code_size frames ≡ true
    → (frame : Frame) × (rest : List Frame) × (frames ≡ frame ∷ rest)
      × (frame.base + frame.locals_size ≤ max_stack_size)
      × (callers_fit code_size rest ≡ true)
unfolding frames_fit
inside_function-head code_size [] h fits = absurd (cc)
inside_function-head code_size (frame ∷ rest) h fits =
    (frame, rest, refl, ground arith, ground arith)

-- Inside the code, operands and instructions can be read.
get_int32-inside :
    (file : Bytefile) (ip : ℕ)
    → FileValid file
    → ip + 4 ≤ file.code_size
    → (w : ℕ) × (get_int32 file ip ≡ ok w)
unfolding get_int32 load32
get_int32-inside file ip v h =
    let bs : List ℕ = drop (file.code_ptr + ip) file.buffer in
    let l : length bs ≡ length file.buffer - (file.code_ptr + ip) = length-drop _ file.buffer in
    let (w, e) = of_bytes32-length bs (omega (arith, l, v)) in (w, rw (e) refl)

pub get_code-inside :
    (file : Bytefile) (ip : ℕ)
    → FileValid file
    → ip < file.code_size
    → (op : Bytecode) × (get_code file ip ≡ ok op)
unfolding get_code get_byte
get_code-inside file ip v h =
    let (b, e) = get_elem?_of_lt file.buffer (file.code_ptr + ip) (omega (arith, v)) in
    (of_byte b, rw (e) refl)

module _ {W : Type 0} (s : State W) where
  pub pop_next_op-Post :
      Valid s
      → Post
          (λ (op, s').
            Valid s'
            × (0 < s'.ip)
            × (s'.frames ≡ s.frames)
            × (s'.file ≡ s.file)
            × (get_code s.file s.ip ≡ ok op))
          (pop_next_op s)
  unfolding pop_next_op Machine.pop_next_op
  pop_next_op-Post v =
      checked (record s { ip = add32 s.ip 1 }) (ltb (add32 s.ip 1) s.file.code_size) _ _
        λ c.
          let p : sub32 (add32 s.ip 1) 1 ≡ s.ip = omega arith in
          let (op, e) = get_code-inside s.file s.ip v.0.0 (omega arith) in
          let v' : Valid (record s { ip = add32 s.ip 1 }) = ground arith in
          rw (p) (rw (e) (returns (v', omega arith, refl, refl, refl)))

  pub pop_next_int32-Post :
      ValidBut s
      → Post
          (λ (w, s').
            ValidBut s' × (s'.size ≡ s.size) × (s'.frames ≡ s.frames) × (s'.file ≡ s.file))
          (pop_next_int32 s)
  unfolding pop_next_int32 Machine.pop_next_int32
  pop_next_int32-Post v =
      checked (record s { ip = add32 s.ip 4 }) (ltb (add32 s.ip 4) s.file.code_size) _ _
        λ c.
          let p : sub32 (add32 s.ip 4) 4 ≡ s.ip = omega arith in
          let (w, e) = get_int32-inside s.file s.ip v.0 (ground arith) in
          rw (p, e) (returns (ground arith, refl, refl, refl))

  pub read_slot-Post :
      (idx : ℕ) → ValidBut s → idx < max_stack_size → Post (λ _. Unit {0}) (read_slot s idx)
  unfolding read_slot
  read_slot-Post idx v l =
      let (x, e) = get_elem?_of_lt s.buf idx (omega arith) in rw (e) (returns tt)

  pub write_slot-Post :
      (idx val : ℕ)
      → ValidBut s
      → idx < max_stack_size
      → Post (λ s'. ValidBut s' × (s'.size ≡ s.size)) (write_slot idx val s)
  unfolding write_slot
  write_slot-Post idx val v l =
      let l : ltb idx (length s.buf) ≡ true = ground arith in
      rw (l) (returns ((v.0, rw (length-set s.buf idx val) v.1, v.2, v.3), refl))

  pub push-Post : (val : ℕ) → ValidBut s → Post Valid (push val s)
  unfolding push Machine.push write_slot
  push-Post val v = checked s (leb (s.size + 1) max_stack_size) _ _ λ c.
      let l : ltb s.size (length s.buf) ≡ true = ground arith in
      rw (l) (returns ((v.0, rw (length-set s.buf s.size val) v.1, v.2, v.3), ground arith))

  pub pop-Post :
      Valid s
      → Post
          (λ (val, s'). Valid s' × (s'.frames ≡ s.frames) × (s'.file ≡ s.file) × (s'.ip ≡ s.ip))
          (pop s)
  unfolding pop Machine.pop peek read_slot
  pop-Post v = checked s (not (s.size == 0)) _ _ λ c.
      let l : ltb 0 s.size ≡ true = ground arith in
      let (x, e) = get_elem?_of_lt s.buf (s.size - 0 - 1) (ground arith) in
      rw (l) (rw (e) (returns ((v.0, omega arith), refl, refl, refl)))

  pub peek_frame-Post :
      ValidBut s
      → inside_function s.frames ≡ true
      → Post (λ frame. frame.base + frame.locals_size ≤ max_stack_size) (peek_frame s)
  unfolding peek_frame
  peek_frame-Post v h =
      let (frame, rest, e, l, _) = inside_function-head s.file.code_size s.frames h v.3 in
      rw (e) (returns l)

  pub peek_current_op-Post : 0 < s.ip → ValidBut s → Post (λ _. Unit {0}) (peek_current_op s)
  unfolding peek_current_op
  peek_current_op-Post h v =
      let p : sub32 s.ip 1 ≡ s.ip - 1 = omega arith in
      let (op, e) = get_code-inside s.file (s.ip - 1) v.0 (omega arith) in
      rw (p) (rw (e) (returns tt))
