-- ===== src/Verifier/Tests.antt =====
-- Runs of the verifier on small files.
use vm_design.Verifier.Visit.{visit_op}
use vm_design.Bytecode
use vm_design.Verifier.Operands.{Advances, visit_op-Advances}
use vm_design.Verifier.Merge.{noted, visit_jmp_any_depth}
use vm_design.Common.{
  arith, replicate, set, ℕ, ◌≡◌, refl, List, [], ◌∷◌, Result, ok, Option, some, length,
}
use vm_design.Error
use vm_design.Error.{failure}
use vm_design.FileReader.Image.{Image, body, loaded}
use vm_design.Common.{true, false}
use vm_design.Bytecode.{of_byte, to_byte}
use vm_design.Bytefile.{get_public_symbol_name, get_public_symbol, get_code, get_int32, set_int32}
use vm_design.Bytefile.{get_string, load32, store}
use vm_design.FileReader.Image.{encode_symbols}
use vm_design.Verifier.StackSize
use vm_design.Verifier.WorksetEntry
use vm_design.Verifier.State.{
  Verifier, push, peek, pop, stack_size_at, set_stack_size, peek_next_op,
}
use vm_design.Verifier.State.{pop_next_op, pop_next_int32, get_locals_size, set_locals_size}
use vm_design.Verifier.Delta.{get_stack_delta, stack_delta}
use vm_design.Verifier.Process.{process_begin, process_ret, process_single_arg, resume}
use vm_design.Verifier.Process.{finish_function, leave_frame, pack_locals_size}
use vm_design.Verifier.Traverse.{
  verify, new_verifier, find_entrypoint, traverse, step, update_depth,
}
use vm_design.Verifier.Traverse.{visit_instruction, record_depth, leave_visited, restore_frame}
use vm_design.Verifier.Depths.{AllDepths}
use vm_design.Verifier.Bounds.{verify-AllDepths}

-- BEGIN 2 0; CONST 5; END, and one byte behind it.
abbrev small_code : List ℕ
small_code = 0x52 ∷ 2 ∷ 0 ∷ 0 ∷ 0 ∷ 0 ∷ 0 ∷ 0 ∷ 0 ∷ 0x10 ∷ 5 ∷ 0 ∷ 0 ∷ 0 ∷ 0x16 ∷ 0xFF ∷ []

abbrev small_image : List ℕ → Image
small_image code = record {
  globals = 1;
  symbols = record { name = 0; address = 0 } ∷ [];
  strings = b'm' ∷ b'a' ∷ b'i' ∷ b'n' ∷ 0 ∷ [];
  code = code;
}

abbrev run : ℕ → List ℕ → Option (Result Error.Error Verifier)
run fuel code = verify fuel (loaded [] (small_image code))

-- What the verifier has found out in `fuel` rounds.
abbrev verified : Option (Result Error.Error Verifier) → Verifier
verified (some (ok v)) = v
verified _ =
    new_verifier (loaded [] (small_image small_code)) (record { offset = 0; name = 0; address = 0 })

abbrev small : Verifier
small = verified (run 9 small_code)

small-IsOk : run 9 small_code ≡ some (ok small)
unfolding verify find_entrypoint loaded get_public_symbol_name get_public_symbol push new_verifier
    traverse step peek pop update_depth stack_size_at get_stack_delta peek_next_op get_code
    stack_delta visit_instruction of_byte to_byte get_int32 get_string load32 set_int32 store body
    encode_symbols finish_function leave_frame pack_locals_size process_begin process_ret
    process_single_arg resume visit_op get_locals_size pop_next_int32 pop_next_op set_locals_size
    set_stack_size leave_visited record_depth restore_frame
small-IsOk = refl

-- The depths noted for the small file.
verify-AllDepths_example : AllDepths small.stack_sizes
verify-AllDepths_example = verify-AllDepths 9 (loaded [] (small_image small_code)) small-IsOk

-- Inside a function of a file that is only code, with a depth of 1 and no depth noted but one.
abbrev inside : List ℕ → ℕ → ℕ → Verifier
inside code addr known = record {
  addr = addr;
  frames_depth = 1;
  current_frame_addr = 0;
  current_frame_stack_size = 1;
  stack_sizes = set (replicate (length code) StackSize.no_value) known 7;
  current_stack_size = 1;
  workset = [];
  file = record {
    name = [];
    buffer = code;
    string_ptr = 0;
    code_ptr = 0;
    stringtab_size = 0;
    global_area_size = 0;
    public_symbols_number = 0;
    offsets = [];
    code_pos = 0;
    code_size = length code;
  };
}

-- CONST 5; END, and one byte behind it.
abbrev const_code : List ℕ
const_code = 0x10 ∷ 5 ∷ 0 ∷ 0 ∷ 0 ∷ 0x16 ∷ 0xFF ∷ []

visit_op-Advances_example : Advances (inside const_code 1 0) 4 (inside const_code 5 0)
unfolding visit_op process_single_arg pop_next_int32 get_int32 load32
visit_op-Advances_example =
    visit_op-Advances Bytecode.const (inside const_code 1 0) tt (omega arith) (omega arith) refl

-- JMP 5; END, and one byte behind it; the depth at END is known to be 7.
abbrev jmp_code : List ℕ
jmp_code = 0x15 ∷ 5 ∷ 0 ∷ 0 ∷ 0 ∷ 0x16 ∷ 0xFF ∷ []

visit_jmp_any_depth_example :
    visit_instruction (inside jmp_code 0 5)
    ≡ push (WorksetEntry.from_instruction 5) (record (noted (inside jmp_code 0 5)) { addr = 5 })
unfolding get_code of_byte to_byte get_int32 load32
visit_jmp_any_depth_example =
    visit_jmp_any_depth (inside jmp_code 0 5) 5 7 (omega arith) refl (omega arith) (omega arith)
      (omega arith) refl refl refl (λ e. omega arith) refl refl

get_value-from_instruction_example :
    (WorksetEntry.get_value (WorksetEntry.from_instruction 7) ≡ 7)
    × (WorksetEntry.get_value (WorksetEntry.from_frame 7) ≡ 7)
    × (WorksetEntry.is_instruction (WorksetEntry.from_instruction 7) ≡ true)
    × (WorksetEntry.is_frame (WorksetEntry.from_instruction 7) ≡ false)
    × (WorksetEntry.is_frame (WorksetEntry.from_frame 7) ≡ true)
    × (WorksetEntry.is_instruction (WorksetEntry.from_frame 7) ≡ false)
get_value-from_instruction_example = WorksetEntry.get_value-from_instruction 7 (omega arith)
