-- ===== src/IdiomAnalyzer.antt =====
-- Assignment03/src/idiom_analyzer.h and idiom_analyzer.cpp: which instructions of a bytecode file can
-- be reached, and how often each idiom of one or two of them occurs. `bytefile` is that of Assignment04
-- up to the namespace.
pub mod Flow
pub mod Adds
pub mod Search
pub mod Invariant
pub mod Symbols
pub mod Reachable
pub mod Find
pub mod Sort
pub mod Rounds
pub mod Found
pub mod Counts
mod Tests
use vm_design.Common.{ℕ, zero, suc, ◌+◌, ◌-◌, List, [], ◌∷◌, Bool, true, false, not, ◌&&◌, ◌||◌}
use vm_design.Common.{Result, ok, err, ◌>>=◌, ◌>>◌, guard, require, Option, none, some}
use vm_design.Common.{get_elem?, set, length, replicate, ltb, if◌then◌else◌}
use vm_design.Common.Words.{add32}
use vm_design.Bytecode
use vm_design.Bytecode.{Bytecode}
use vm_design.Bytefile.{Bytefile, get_code, get_int32, get_public_symbol}
use vm_design.Error
use vm_design.Error.{Error, Message, failure, thrown, undefined, out_of_range}

-- `class idiom`: `size` instructions from `pos` on.
pub record Idiom : Type 0 where
  pub pos : ℕ
  pub size : ℕ

-- `class idiom_processor`, whose `bytefile_` is the parameter `file` of its functions; `workset` is the
-- local variable of `find_reachable_instructions`, with the last entry first.
pub record Processor : Type 0 where
  pub reachable : List Bool
  pub jump_targets : List Bool
  pub idioms : List Idiom
  pub workset : List ℕ

abbrev pub is_jump : Bytecode → Bool
is_jump Bytecode.jmp = true
is_jump Bytecode.cjmpz = true
is_jump Bytecode.cjmpnz = true
is_jump _ = false

abbrev pub is_call : Bytecode → Bool
is_call Bytecode.callc = true
is_call Bytecode.call = true
is_call _ = false

abbrev pub is_terminal : Bytecode → Bool
is_terminal Bytecode.jmp = true
is_terminal Bytecode.end = true
is_terminal Bytecode.ret = true
is_terminal Bytecode.fail = true
is_terminal Bytecode.stop = true
is_terminal _ = false

abbrev pub validate : Bool → Message → ℕ → Result Error (Unit {0})
validate condition message bytecode_offset = guard condition (failure message bytecode_offset)

-- `jump_targets_[addr] = true`
unfoldable pub mark_jump_target : ℕ → Processor → Result Error Processor
mark_jump_target addr p =
    if ltb addr (length p.jump_targets)
    then ok (record p { jump_targets = set p.jump_targets addr true })
    else err undefined

-- `reachable_[addr] = true; workset.push_back(addr);`
unfoldable pub enqueue : ℕ → Processor → Processor
enqueue addr p = record p { reachable = set p.reachable addr true; workset = addr ∷ p.workset }

-- `reachable_.at(addr)`
unfoldable pub reachable_at : ℕ → Processor → Result Error Bool
reachable_at addr p = require (get_elem? p.reachable addr) (thrown out_of_range)

-- `if (!reachable_.at(addr)) { … }`
unfoldable pub discover : ℕ → Processor → Result Error Processor
discover addr p = do seen ← reachable_at addr p; ok (if seen then p else enqueue addr p)

-- The length that `disassemble_instruction` of byterun returns for the instruction at an address. It
-- stops the program at a byte that it does not know.
abbrev pub Disassembler : Type 0
Disassembler = Bytefile → ℕ → Result Error ℕ

module _ (disassemble : Disassembler) (file : Bytefile) where
  unfoldable pub get_op : ℕ → Result Error Bytecode
  get_op pos = do
    validate (ltb (pos + 1) file.code_size) Error.unexpected_end_of_code (pos + 1)
    get_code file pos

  -- `get_int32`, after its check
  unfoldable pub get_target : ℕ → Result Error ℕ
  get_target pos = do
    validate (ltb (pos + 4) file.code_size) Error.unexpected_end_of_code (pos + 4)
    get_int32 file pos

  -- The constructor.
  unfoldable pub new_processor : Result Error Processor
  new_processor = do
    let size = add32 file.code_size 1
    guard (ltb 0 size) undefined
    ok (record {
      reachable = set (replicate size false) (size - 1) true;
      jump_targets = replicate file.code_size false;
      idioms = [];
      workset = [];
    })

  -- The loop over the public symbols: `left` of them are not looked at yet, from `i` on.
  unfoldable pub add_symbol : ℕ → Processor → Result Error Processor
  add_symbol i p = do
    symbol ← get_public_symbol file i
    validate (ltb symbol.address file.code_size) Error.invalid_symbol_offset symbol.address
    seen ← reachable_at symbol.address p
    if seen
        then ok p
        else (do p₁ ← mark_jump_target symbol.address p; ok (enqueue symbol.address p₁))

  unfoldable pub add_symbols : ℕ → ℕ → Processor → Result Error Processor
  add_symbols zero i p = ok p
  add_symbols (suc left) i p = add_symbol i p >>= λ p₁. add_symbols left (i + 1) p₁

  -- The target of a jump or call at `addr`.
  unfoldable pub follow : ℕ → Processor → Result Error Processor
  follow addr p = do
    target ← get_target (add32 addr 1)
    validate (ltb target file.code_size) Error.invalid_destination target
    p₁ ← mark_jump_target target p
    discover target p₁

  -- The instruction behind the one that was read.
  unfoldable pub fall_through : Bytecode → ℕ → Processor → Result Error Processor
  fall_through op next p = do
    p₁ ← if is_call op then mark_jump_target next p else ok p
    discover next p₁

  -- One round of the loop over the work set, with `addr` taken off it.
  unfoldable pub expand : ℕ → Processor → Result Error Processor
  expand addr p = do
    op ← get_op addr
    size ← disassemble file addr
    validate (ltb (add32 addr size) file.code_size) Error.unexpected_end_of_code (add32 addr size)
    p₁ ← if is_jump op || is_call op then follow addr p else ok p
    if is_terminal op then ok p₁ else fall_through op (add32 addr size) p₁

  -- `none` is a run that has used up its fuel.
  unfoldable pub traverse : ℕ → Processor → Option (Result Error Processor)
  traverse zero p = none
  traverse (suc fuel) p = elim p.workset [
    | [] ↦ some (ok p)
    | addr ∷ rest ↦ elim (expand addr (record p { workset = rest })) [
      | ok p₁ ↦ traverse fuel p₁
      | err e ↦ some (err e)
    ]
  ]

  unfoldable pub find_reachable_instructions : ℕ → Processor → Option (Result Error Processor)
  find_reachable_instructions fuel p = elim (add_symbols file.public_symbols_number 0 p) [
    | ok p₁ ↦ traverse fuel p₁
    | err e ↦ some (err e)
  ]
