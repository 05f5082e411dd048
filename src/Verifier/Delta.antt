-- ===== src/Verifier/Delta.antt =====
-- The effect of an instruction on the depth of the stack: Assignment04/src/verifier.cpp, lines 130 to
-- 214. Depths and their differences are int32_t patterns.
use vm_design.Common.{ℕ, ◌-◌, ◌^◌}
use vm_design.Common.{Result, ok, err, ◌>>=◌}
use vm_design.Common.Words.{add32, sub32}
use vm_design.Bytecode.{Bytecode}
use vm_design.Bytefile.{get_int32}
use vm_design.Error
use vm_design.Error.{Error, failure}
use vm_design.Verifier.State.{Verifier}
use vm_design.Verifier.State.{peek_next_op}

-- -1 as an int32_t pattern.
abbrev pub minus_one : ℕ
minus_one = 2 ^ 32 - 1

-- What the instruction at `v.addr` does to the depth of the stack, from the switch on it.
unfoldable pub stack_delta : Verifier → Bytecode → Result Error ℕ
stack_delta v Bytecode.low_add = ok minus_one
stack_delta v Bytecode.low_sub = ok minus_one
stack_delta v Bytecode.low_mul = ok minus_one
stack_delta v Bytecode.low_div = ok minus_one
stack_delta v Bytecode.low_mod = ok minus_one
stack_delta v Bytecode.low_lt = ok minus_one
stack_delta v Bytecode.low_le = ok minus_one
stack_delta v Bytecode.low_gt = ok minus_one
stack_delta v Bytecode.low_ge = ok minus_one
stack_delta v Bytecode.low_eq = ok minus_one
stack_delta v Bytecode.low_ne = ok minus_one
stack_delta v Bytecode.low_and = ok minus_one
stack_delta v Bytecode.low_or = ok minus_one
stack_delta v Bytecode.sti = ok minus_one
stack_delta v Bytecode.drop = ok minus_one
stack_delta v Bytecode.elem = ok minus_one
stack_delta v Bytecode.cjmpz = ok minus_one
stack_delta v Bytecode.cjmpnz = ok minus_one
stack_delta v Bytecode.fail = ok minus_one
stack_delta v Bytecode.patt_str = ok minus_one
stack_delta v Bytecode.const = ok 1
stack_delta v Bytecode.string = ok 1
stack_delta v Bytecode.dup = ok 1
stack_delta v Bytecode.ld_global = ok 1
stack_delta v Bytecode.ld_local = ok 1
stack_delta v Bytecode.ld_argument = ok 1
stack_delta v Bytecode.ld_captured = ok 1
stack_delta v Bytecode.lda_global = ok 1
stack_delta v Bytecode.lda_local = ok 1
stack_delta v Bytecode.lda_argument = ok 1
stack_delta v Bytecode.lda_captured = ok 1
stack_delta v Bytecode.call_lread = ok 1
stack_delta v Bytecode.jmp = ok 0
stack_delta v Bytecode.end = ok 0
stack_delta v Bytecode.ret = ok 0
stack_delta v Bytecode.swap = ok 0
stack_delta v Bytecode.st_global = ok 0
stack_delta v Bytecode.st_local = ok 0
stack_delta v Bytecode.st_argument = ok 0
stack_delta v Bytecode.st_captured = ok 0
stack_delta v Bytecode.begin = ok 0
stack_delta v Bytecode.cbegin = ok 0
stack_delta v Bytecode.tag = ok 0
stack_delta v Bytecode.array = ok 0
stack_delta v Bytecode.line = ok 0
stack_delta v Bytecode.patt_string = ok 0
stack_delta v Bytecode.patt_array = ok 0
stack_delta v Bytecode.patt_sexp = ok 0
stack_delta v Bytecode.patt_ref = ok 0
stack_delta v Bytecode.patt_val = ok 0
stack_delta v Bytecode.patt_fun = ok 0
stack_delta v Bytecode.call_lwrite = ok 0
stack_delta v Bytecode.call_llength = ok 0
stack_delta v Bytecode.call_lstring = ok 0
stack_delta v Bytecode.stop = ok 0
stack_delta v Bytecode.sexp = do n ← get_int32 v.file (add32 v.addr 5); ok (sub32 1 n)
stack_delta v Bytecode.call = do n ← get_int32 v.file (add32 v.addr 5); ok (sub32 1 n)
stack_delta v Bytecode.closure = do n ← get_int32 v.file (add32 v.addr 5); ok (add32 n 1)
stack_delta v Bytecode.callc = do n ← get_int32 v.file (add32 v.addr 1); ok (sub32 0 n)
stack_delta v Bytecode.call_barray = do n ← get_int32 v.file (add32 v.addr 1); ok (sub32 1 n)
stack_delta v Bytecode.sta = err (failure Error.sta_unchecked v.addr)
stack_delta v _ = err (failure Error.unknown_bytecode v.addr)

unfoldable pub get_stack_delta : Verifier → Result Error ℕ
get_stack_delta v = do op ← peek_next_op v; stack_delta v op
