-- ===== src/Verifier/Merge.antt =====
-- The check of the depths where two paths of the code meet.
use vm_design.Verifier.Visit.{visit_op}
use vm_design.Common.{
  ℕ, ◌+◌, ◌-◌, ◌%◌, ◌^◌, ◌<◌, ◌≡◌, ◌≢◌, arith, ok, some, true, ltb, if◌then◌else◌,
}
use vm_design.Common.{get_elem?, set, length, get_elem?-set_self, get_elem?-set_ne}
use vm_design.Bytecode
use vm_design.Bytefile.{get_code, get_int32}
use vm_design.Verifier.StackSize
use vm_design.Verifier.WorksetEntry
use vm_design.Verifier.State.{Verifier, push, pop_next_op, pop_next_int32, set_stack_size}
use vm_design.Verifier.State.{stack_size_at}
use vm_design.Verifier.Process.{in_bounds, process_jmp, validate_merge}
use vm_design.Verifier.Traverse.{visit_instruction, record_depth}

-- The state with the depth noted at the instruction, as `record_depth` leaves it.
abbrev pub noted : Verifier → Verifier
noted v = record v {
  stack_sizes = set v.stack_sizes v.addr (v.current_stack_size % 2 ^ 32);
  current_frame_stack_size =
      if ltb v.current_frame_stack_size v.current_stack_size
      then v.current_stack_size
      else v.current_frame_stack_size;
}

record_depth-noted : (v : Verifier) → v.addr < length v.stack_sizes → record_depth v ≡ ok (noted v)
unfolding record_depth set_stack_size
record_depth-noted v h = ground arith

-- The depth that the check reads is the one that was noted at the jump itself.
validate_merge-noted :
    (v : Verifier) (a : ℕ)
    → v.addr < length v.stack_sizes
    → v.current_stack_size < 2 ^ 31
    → v.addr + 5 < 2 ^ 32
    → a ≡ v.addr + 5
    → validate_merge (record (noted v) { addr = a }) ≡ ok tt
unfolding validate_merge stack_size_at
validate_merge-noted v a h c n e =
    ground (arith, get_elem?-set_self v.stack_sizes v.addr (v.current_stack_size % 2 ^ 32) h)

pop_next_op-read :
    (v : Verifier) {op : Bytecode.Bytecode}
    → v.addr + 1 < v.file.code_size
    → v.file.code_size < 2 ^ 32
    → get_code v.file v.addr ≡ ok op
    → pop_next_op v ≡ ok (op, record v { addr = v.addr + 1 })
unfolding pop_next_op
pop_next_op-read v h l e =
    let p : (v.addr + 1) % 2 ^ 32 ≡ v.addr + 1 = omega arith in
    let q : (v.addr + 1 + 2 ^ 32 - 1) % 2 ^ 32 ≡ v.addr = omega arith in rw (p, q, e) (ground arith)

pop_next_int32-read :
    (v : Verifier) {w : ℕ}
    → v.addr + 4 < v.file.code_size
    → v.file.code_size < 2 ^ 32
    → get_int32 v.file v.addr ≡ ok w
    → pop_next_int32 v ≡ ok (w, record v { addr = v.addr + 4 })
unfolding pop_next_int32
pop_next_int32-read v h l e =
    let p : (v.addr + 4) % 2 ^ 32 ≡ v.addr + 4 = omega arith in
    let q : (v.addr + 4 + 2 ^ 32 - 4) % 2 ^ 32 ≡ v.addr = omega arith in rw (p, q, e) (ground arith)

-- A JMP inside a function, to another address of the code that has a depth already, is accepted
-- whatever that depth is, where the depth at the JMP is below 2 ^ 31 and the JMP is not the end of the
-- code: only the depth at the JMP is noted, and the target goes onto the work set.
pub visit_jmp_any_depth :
    (v : Verifier) (t size : ℕ)
    → v.current_stack_size < 2 ^ 31
    → length v.stack_sizes ≡ v.file.code_size
    → v.addr + 5 < v.file.code_size
    → v.file.code_size < 2 ^ 32
    → 0 < v.frames_depth
    → get_code v.file v.addr ≡ ok Bytecode.jmp
    → get_int32 v.file (v.addr + 1) ≡ ok t
    → in_bounds t v.file.code_size ≡ true
    → v.addr ≢ t
    → get_elem? v.stack_sizes t ≡ some size
    → StackSize.has_value size ≡ true
    → visit_instruction v ≡ push (WorksetEntry.from_instruction t) (record (noted v) { addr = t })
unfolding visit_instruction visit_op process_jmp stack_size_at
visit_jmp_any_depth v t size depth sizes room fits framed opcode operand target ne known has =
    rw (record_depth-noted v (omega arith), pop_next_op-read (noted v) (omega arith) fits opcode)
      (ground (
        arith,
        pop_next_int32-read (record (noted v) { addr = v.addr + 1 }) (omega arith) fits operand,
        get_elem?-set_ne v.stack_sizes (v.current_stack_size % 2 ^ 32) ne,
        validate_merge-noted v (v.addr + 1 + 4) (omega arith) depth (omega arith) (omega arith),
      ))
