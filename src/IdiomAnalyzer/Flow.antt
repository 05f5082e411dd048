-- ===== src/IdiomAnalyzer/Flow.antt =====
-- Which addresses of the code can be reached, as a specification of `find_reachable_instructions`.
use mathlib.Core.List.{Memᴰ}
use vm_design.Common.{ℕ, ◌<◌, ◌≡◌, List, [], ◌∷◌, ◌++◌, ◌||◌, Result, ok, ◌>>=◌, ◌>>◌}
use vm_design.Common.{ltb, if◌then◌else◌}
use vm_design.Common.Words.{add32}
use vm_design.Bytecode.{Bytecode}
use vm_design.Bytefile.{Bytefile, get_public_symbol}
use vm_design.Error
use vm_design.Error.{Error}
use vm_design.IdiomAnalyzer.{Disassembler, is_jump, is_call, is_terminal, validate, get_op}
use vm_design.IdiomAnalyzer.{get_target}

module _ (disassemble : Disassembler) (file : Bytefile) where
  -- The target of the instruction `op` at `addr`, if it is a jump or call.
  unfoldable pub targets : Bytecode → ℕ → Result Error (List ℕ)
  targets op addr =
      if is_jump op || is_call op
      then (do
        target ← get_target disassemble file (add32 addr 1)
        validate (ltb target file.code_size) Error.invalid_destination target
        ok (target ∷ []))
      else ok []

  -- The targets, and the address behind the instruction, if control can go on there.
  unfoldable pub successors : ℕ → Result Error (List ℕ)
  successors addr = do
    op ← get_op disassemble file addr
    size ← disassemble file addr
    validate (ltb (add32 addr size) file.code_size) Error.unexpected_end_of_code (add32 addr size)
    aims ← targets op addr
    ok (aims ++ (if is_terminal op then [] else add32 addr size ∷ []))

  -- A public symbol's address can be reached, and what follows an address that can be.
  pub data Reached : ℕ → Type 0 where
    symbol :
        {a : ℕ} (i : ℕ) (offset name : ℕ)
        → i < file.public_symbols_number
        → get_public_symbol file i ≡ ok (record { offset = offset; name = name; address = a })
        → Reached a
    flow : {a b : ℕ} (bs : List ℕ) → Reached a → successors a ≡ ok bs → Memᴰ b bs → Reached b
