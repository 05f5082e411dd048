-- ===== src/Verifier/State.antt =====
-- The state of `class verifier` and its elementary steps: Assignment04/src/verifier.cpp, lines 89 to
-- 128 and 473 to 489. Every step takes the state and returns the new one beside its result.
use vm_design.Common.{ℕ, List, [], ◌∷◌, Bool, Result, ok, err, ◌>>=◌, ◌>>◌}
use vm_design.Common.{guard, require, get_elem?, set, length, ltb, if◌then◌else◌}
use vm_design.Common.Words.{add32, sub32}
use vm_design.Bytecode.{Bytecode, Varspec}
use vm_design.Bytefile.{Bytefile, get_code, get_varspec, get_int32, set_int32}
use vm_design.Error.{Error, Message, failure, thrown, undefined, out_of_range}
use vm_design.Error.{unexpected_end_of_code}

-- `MAX_STACK_SIZE` of Assignment04/src/stack.h. The work set lies in the interpreter's stack.
abbrev pub max_stack_size : ℕ
max_stack_size = 0xFFFFF

-- The work set has its last entry first. `entrypoint_` is an argument of `traverse_bytecode`.
pub record Verifier : Type 0 where
  pub addr : ℕ
  pub frames_depth : ℕ
  pub current_frame_addr : ℕ
  pub current_frame_stack_size : ℕ
  pub stack_sizes : List ℕ
  pub current_stack_size : ℕ
  pub workset : List ℕ
  pub file : Bytefile

-- A call of `failure` does not return.
abbrev pub validate : Verifier → Bool → Message → Result Error (Unit {0})
validate v condition message = guard condition (failure message v.addr)

unfoldable pub peek_next_op : Verifier → Result Error Bytecode
peek_next_op v = get_code v.file v.addr

unfoldable pub pop_next_op : Verifier → Result Error (Bytecode × Verifier)
pop_next_op v = do
  let v' = record v { addr = add32 v.addr 1 }
  validate v' (ltb v'.addr v'.file.code_size) unexpected_end_of_code
  op ← get_code v'.file (sub32 v'.addr 1)
  ok (op, v')

unfoldable pub pop_next_varspec : Verifier → Result Error (Varspec × Verifier)
pop_next_varspec v = do
  let v' = record v { addr = add32 v.addr 1 }
  validate v' (ltb v'.addr v'.file.code_size) unexpected_end_of_code
  spec ← get_varspec v'.file (sub32 v'.addr 1)
  ok (spec, v')

unfoldable pub pop_next_int32 : Verifier → Result Error (ℕ × Verifier)
pop_next_int32 v = do
  let v' = record v { addr = add32 v.addr 4 }
  validate v' (ltb v'.addr v'.file.code_size) unexpected_end_of_code
  w ← get_int32 v'.file (sub32 v'.addr 4)
  ok (w, v')

-- `workset_[workset_.size() - 1]`
unfoldable pub peek : Verifier → Result Error ℕ
peek v = elim v.workset [ [] ↦ err undefined | entry ∷ rest ↦ ok entry ]

-- A push behind the end of the stack's array writes outside it.
unfoldable pub push : ℕ → Verifier → Result Error Verifier
push entry v =
    if ltb (length v.workset) max_stack_size
    then ok (record v { workset = entry ∷ v.workset })
    else err undefined

unfoldable pub pop : Verifier → Result Error (ℕ × Verifier)
pop v = elim v.workset [
  | [] ↦ err undefined
  | entry ∷ rest ↦ ok (entry, record v { workset = rest })
]

-- `stack_sizes_.at(addr)`
unfoldable pub stack_size_at : Verifier → ℕ → Result Error ℕ
stack_size_at v addr = require (get_elem? v.stack_sizes addr) (thrown out_of_range)

-- `stack_sizes_[addr] = size`
unfoldable pub set_stack_size : ℕ → ℕ → Verifier → Result Error Verifier
set_stack_size addr size v =
    if ltb addr (length v.stack_sizes)
    then ok (record v { stack_sizes = set v.stack_sizes addr size })
    else err undefined

unfoldable pub get_locals_size : Verifier → Result Error ℕ
get_locals_size v = get_int32 v.file (add32 v.current_frame_addr 5)

unfoldable pub set_locals_size : ℕ → Verifier → Result Error Verifier
set_locals_size locals_size v = do
  file ← set_int32 v.file (add32 v.current_frame_addr 5) locals_size
  ok (record v { file = file })

unfoldable pub get_args_size : Verifier → Result Error ℕ
get_args_size v = get_int32 v.file (add32 v.current_frame_addr 1)
