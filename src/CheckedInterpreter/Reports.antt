-- ===== src/CheckedInterpreter/Reports.antt =====
-- What the checks of Assignment02's interpreter leave to go wrong: the failures that are reports, and
-- the states in which the steps of Machine fail with no other.
use vm_design.Common.{
  arith, ℕ, zero, suc, ◌+◌, ◌<◌, ◌≤◌, ◌^◌, ◌≡◌, List, [], ◌∷◌, Bool, true, false, ◌&&◌,
}
use vm_design.Common.{Option, none, some, Result, ok, err, ◌>>=◌, guard, ltb, leb, length}
use vm_design.Bytecode.{Bytecode}
use vm_design.Bytefile.{Bytefile, get_code}
use vm_design.Error.{Error, Message, failure}
use vm_design.Verifier.State.{max_stack_size}
use vm_design.Interpreter.Machine.{State, Frame, validate}
pub mod Steps
pub mod Execute
pub mod Calls
pub mod Run

-- `validate` has thrown, or the interpreter of a failed match.
abbrev pub IsReport : Error → Type 0
IsReport (failure message at) = Unit
IsReport _ = ⊥

-- The outcome is a value with `P` or a report.
pub data Post {A : Type 0} (P : A → Type 0) : Result Error A → Type 0 where
  returns : {a : A} → P a → Post P (ok a)
  reports : {e : Error} → IsReport e → Post P (err e)

infixl 1 ◌⟫◌
pub ◌⟫◌ :
    {A B : Type 0} {P : A → Type 0} {Q : B → Type 0} {r : Result Error A} {f : A → Result Error B}
    → Post P r
    → ((a : A) → P a → Post Q (f a))
    → Post Q (r >>= f)
returns {a} h ⟫ k = k a h
reports h ⟫ k = reports h

-- Each frame's locals lie inside the stack, and each caller goes on inside the code.
abbrev pub locals_inside : Frame → Bool
locals_inside frame = leb (frame.base + frame.locals_size) max_stack_size

unfoldable pub callers_fit : ℕ → List Frame → Bool
callers_fit code_size [] = true
callers_fit code_size (frame ∷ rest) =
    (locals_inside frame && ltb frame.return_address code_size) && callers_fit code_size rest

unfoldable pub frames_fit : ℕ → List Frame → Bool
frames_fit code_size [] = true
frames_fit code_size (frame ∷ rest) = locals_inside frame && callers_fit code_size rest

-- The code lies inside the file's block and the globals inside the stack.
abbrev pub FileValid : Bytefile → Type 0
FileValid file =
    (file.code_ptr + file.code_size ≤ length file.buffer)
    × (file.code_size < 2 ^ 31)
    × (file.global_area_size ≤ max_stack_size)

-- All but the size of the stack.
abbrev pub ValidBut : {W : Type 0} → State W → Type 0
ValidBut s =
    FileValid s.file
    × (length s.buf ≡ max_stack_size)
    × (s.ip < s.file.code_size)
    × (frames_fit s.file.code_size s.frames ≡ true)

abbrev pub Valid : {W : Type 0} → State W → Type 0
Valid s = ValidBut s × (s.size ≤ max_stack_size)

abbrev pub inside_function : List Frame → Bool
inside_function [] = false
inside_function (frame ∷ rest) = true

abbrev pub called : ℕ → List Frame → Bool
called code_size [] = true
called code_size (frame ∷ rest) = ltb frame.return_address code_size

-- The instructions that check all that they use, and what they need of the frames: locals and calls stand
-- inside a function, and a function that has a caller is entered by a call. A byte that is no
-- instruction is reported.
unfoldable pub is_checked : Bytecode → ℕ → List Frame → Bool
is_checked Bytecode.string code_size frames = false
is_checked Bytecode.sexp code_size frames = false
is_checked Bytecode.sti code_size frames = false
is_checked Bytecode.sta code_size frames = false
is_checked Bytecode.dup code_size frames = false
is_checked Bytecode.elem code_size frames = false
is_checked Bytecode.ld_argument code_size frames = false
is_checked Bytecode.ld_captured code_size frames = false
is_checked Bytecode.lda_argument code_size frames = false
is_checked Bytecode.lda_captured code_size frames = false
is_checked Bytecode.st_argument code_size frames = false
is_checked Bytecode.st_captured code_size frames = false
is_checked Bytecode.closure code_size frames = false
is_checked Bytecode.callc code_size frames = false
is_checked Bytecode.tag code_size frames = false
is_checked Bytecode.array code_size frames = false
is_checked Bytecode.patt_str code_size frames = false
is_checked Bytecode.patt_string code_size frames = false
is_checked Bytecode.patt_array code_size frames = false
is_checked Bytecode.patt_sexp code_size frames = false
is_checked Bytecode.patt_ref code_size frames = false
is_checked Bytecode.patt_val code_size frames = false
is_checked Bytecode.patt_fun code_size frames = false
is_checked Bytecode.call_llength code_size frames = false
is_checked Bytecode.call_lstring code_size frames = false
is_checked Bytecode.call_barray code_size frames = false
is_checked Bytecode.ld_local code_size frames = inside_function frames
is_checked Bytecode.lda_local code_size frames = inside_function frames
is_checked Bytecode.st_local code_size frames = inside_function frames
is_checked Bytecode.call code_size frames = inside_function frames
is_checked Bytecode.begin code_size frames = called code_size frames
is_checked Bytecode.cbegin code_size frames = called code_size frames
is_checked _ code_size frames = true
