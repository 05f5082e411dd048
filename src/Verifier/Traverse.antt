-- ===== src/Verifier/Traverse.antt =====
-- The loop of `traverse_bytecode` and the entry `verify`: Assignment04/src/verifier.cpp, lines 38 to
-- 87 and 491 to 506. One round of the loop is `step`; `traverse` runs rounds while fuel lasts.
use vm_design.Verifier.Visit.{visit_op}
use vm_design.Common.{ℕ, zero, suc, ◌+◌, List, [], ◌∷◌, Bool, true, false, ◌&&◌, ◌||◌}
use vm_design.Common.{
  Result, ok, err, ◌>>=◌, ◌>>◌, ◌==◌, ltb, if◌then◌else◌, replicate, Option, none, some,
}
use vm_design.Common.Words.{add32, sub64, nonneg32}
use vm_design.Bytecode.{Bytecode}
use vm_design.Bytefile.{Bytefile, PublicSymbol, get_public_symbol, get_public_symbol_name}
use vm_design.Error
use vm_design.Error.{Error, failure}
use vm_design.Verifier.StackSize
use vm_design.Verifier.WorksetEntry
use vm_design.Verifier.State.{Verifier, validate, max_stack_size, pop_next_op, peek, push, pop}
use vm_design.Verifier.State.{stack_size_at, set_stack_size}
use vm_design.Verifier.Delta.{get_stack_delta}

-- The constructor of `class verifier`.
unfoldable pub new_verifier : Bytefile → PublicSymbol → Verifier
new_verifier file entrypoint = record {
  addr = 0;
  frames_depth = 0;
  current_frame_addr = entrypoint.address;
  current_frame_stack_size = 0;
  stack_sizes = replicate file.code_size StackSize.no_value;
  current_stack_size = 0;
  workset = [];
  file = file;
}

-- Back to the frame that stands on top of the work set.
unfoldable pub restore_frame : Verifier → Result Error Verifier
restore_frame v = do
  (frame_addr, v₁) ← pop v
  let v₂ = record v₁ { current_frame_addr = WorksetEntry.get_value frame_addr }
  (frame_stack_size, v₃) ← pop v₂
  ok (record v₃ {
    current_frame_stack_size = WorksetEntry.get_value frame_stack_size;
    frames_depth = sub64 v₃.frames_depth 1;
  })

-- The depth at the instruction at `v.addr`, before and then after it.
unfoldable pub update_depth : Verifier → Result Error Verifier
update_depth v = do
  size ← stack_size_at v v.addr
  let before = if StackSize.is_initial size then StackSize.get_value size else v.current_stack_size
  delta ← get_stack_delta (record v { current_stack_size = before })
  let v₁ = record v { current_stack_size = add32 before delta }
  validate v₁ (nonneg32 v₁.current_stack_size) Error.stack_underflow
  validate v₁ (ltb v₁.current_stack_size max_stack_size) Error.stack_overflow
  ok v₁

-- An instruction that was visited before: on with the depth of the next one on the work set.
unfoldable pub leave_visited : Verifier → Result Error Verifier
leave_visited v = elim v.workset [
  | [] ↦ ok v
  | entry ∷ rest ↦
      if WorksetEntry.is_instruction entry
      then (do
        let next_addr = WorksetEntry.get_value entry
        size ← stack_size_at v next_addr
        let v₁ = record v { current_stack_size = StackSize.get_value size }
        validate v₁ (StackSize.has_value size) Error.ill_formed_control_flow
        if StackSize.is_processed size
            then set_stack_size next_addr (StackSize.from_initial v₁.current_stack_size) v₁
            else ok v₁)
      else ok v
]

abbrev pub is_begin : Bytecode → Bool
is_begin Bytecode.begin = true
is_begin Bytecode.cbegin = true
is_begin _ = false

abbrev pub is_last : Bytecode → Bool
is_last Bytecode.end = true
is_last Bytecode.ret = true
is_last Bytecode.fail = true
is_last _ = false

-- Notes the depth and the largest depth of the function.
unfoldable pub record_depth : Verifier → Result Error Verifier
record_depth v = do
  v₁ ← set_stack_size v.addr (StackSize.from_processed v.current_stack_size) v
  ok (record v₁ {
    current_frame_stack_size =
        if ltb v₁.current_frame_stack_size v₁.current_stack_size
        then v₁.current_stack_size
        else v₁.current_frame_stack_size;
  })

-- An instruction that is visited for the first time, or anew.
unfoldable pub visit_instruction : Verifier → Result Error Verifier
visit_instruction v = do
  v₁ ← record_depth v
  (op, v₂) ← pop_next_op v₁
  validate v₂ (is_begin op || ltb 0 v₂.frames_depth) Error.no_frame
  v₃ ← visit_op op v₂
  if is_last op then ok v₃ else push (WorksetEntry.from_instruction v₃.addr) v₃

-- One round of the loop, on a work set that is not empty.
unfoldable pub step : Verifier → Result Error Verifier
step v = do
  entry ← peek v
  if WorksetEntry.is_frame entry then restore_frame v else (do
    (entry', v₁) ← pop v
    v₂ ← update_depth (record v₁ { addr = WorksetEntry.get_value entry' })
    size ← stack_size_at v₂ v₂.addr
    if StackSize.is_processed size then leave_visited v₂ else visit_instruction v₂)

-- `none` is a run that has used up its fuel.
unfoldable pub traverse : ℕ → Verifier → Option (Result Error Verifier)
traverse zero v = none
traverse (suc fuel) v = elim v.workset [
  | [] ↦ some (ok v)
  | entry ∷ rest ↦ elim (step v) [ ok v' ↦ traverse fuel v' | err e ↦ some (err e) ]
]

-- "main"
abbrev pub entrypoint_name : List ℕ
entrypoint_name = b'm' ∷ b'a' ∷ b'i' ∷ b'n' ∷ []

same_bytes : List ℕ → List ℕ → Bool
same_bytes [] [] = true
same_bytes (x ∷ xs) (y ∷ ys) = x == y && same_bytes xs ys
same_bytes _ _ = false

-- The first public symbol of that name: `left` of them are not looked at yet, from `i` on.
unfoldable pub find_entrypoint : ℕ → ℕ → Bytefile → Result Error (Option PublicSymbol)
unfolding same_bytes
find_entrypoint zero i file = ok none
find_entrypoint (suc left) i file = do
  let later = find_entrypoint left (i + 1) file
  name ← get_public_symbol_name file i
  if same_bytes name entrypoint_name
      then (do symbol ← get_public_symbol file i; ok (some symbol))
      else later

-- The verified file, with the depths written in, is the `file` of the last state.
unfoldable pub verify : ℕ → Bytefile → Option (Result Error Verifier)
verify fuel file = elim (find_entrypoint file.public_symbols_number 0 file) [
  | err e ↦ some (err e)
  | ok none ↦ some (err (failure Error.entrypoint_not_specified 0))
  | ok (some entrypoint) ↦
      let v = new_verifier file entrypoint in
      elim (push (WorksetEntry.from_instruction entrypoint.address) v) [
        | ok v' ↦ traverse fuel v'
        | err e ↦ some (err e)
      ]
]
