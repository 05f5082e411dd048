-- ===== src/IdiomAnalyzer/Find.antt =====
-- `find_idioms` of Assignment03/src/idiom_analyzer.cpp.
use vm_design.Common.{
  ℕ, zero, suc, List, [], ◌∷◌, ◌++◌, Bool, true, false, not, ◌||◌, Option, none, some,
}
use vm_design.Common.{Result, ok, err, ◌>>=◌, ◌>>◌, require, get_elem?, drop, ltb, if◌then◌else◌}
use vm_design.Common.Words.{add32}
use vm_design.Bytecode.{Bytecode}
use vm_design.Bytefile.{Bytefile}
use vm_design.Error
use vm_design.Error.{Error, thrown, out_of_range}
use vm_design.IdiomAnalyzer.{Processor, Disassembler, is_call, is_terminal, validate, get_op}
use vm_design.IdiomAnalyzer.{reachable_at}

-- `while (!reachable_.at(addr)) { ++addr; }`, on the marks from `addr` on.
unfoldable pub skip_to : List Bool → ℕ → Result Error ℕ
skip_to [] addr = err (thrown out_of_range)
skip_to (true ∷ marks) addr = ok addr
skip_to (false ∷ marks) addr = skip_to marks (add32 addr 1)

-- `idioms_.emplace_back(pos, size)`
unfoldable pub emplace_idiom : ℕ → ℕ → Processor → Processor
emplace_idiom pos size p = record p { idioms = p.idioms ++ record { pos = pos; size = size } ∷ [] }

-- Whether the instruction `op` and the one at `next`, behind it, make an idiom.
unfoldable pub is_pair : Bytecode → ℕ → Processor → Result Error Bool
is_pair op next p = if is_call op || is_terminal op then ok false else (do
  reached ← reachable_at next p
  if reached
      then (do
        target ← require (get_elem? p.jump_targets next) (thrown out_of_range)
        ok (not target))
      else ok false)

module _ (disassemble : Disassembler) (file : Bytefile) where
  -- The idiom of two instructions at `addr`, the second one at `next`.
  unfoldable pub record_pair : ℕ → ℕ → Processor → Result Error Processor
  record_pair addr next p = do
    next_size ← disassemble file next
    validate (ltb (add32 next next_size) file.code_size) Error.unexpected_end_of_code
        (add32 next next_size)
    ok (emplace_idiom addr 2 p)

  -- The idioms that start at `addr`, and the address of the instruction behind it.
  unfoldable pub record_idioms : ℕ → Processor → Result Error (ℕ × Processor)
  record_idioms addr p = do
    op ← get_op disassemble file addr
    size ← disassemble file addr
    let next = add32 addr size
    validate (ltb next file.code_size) Error.unexpected_end_of_code next
    let p₁ = emplace_idiom addr 1 p
    pair ← is_pair op next p₁
    q ← if pair then record_pair addr next p₁ else ok p₁
    ok (next, q)

  -- One round of the outer loop; `none` where it is left.
  unfoldable pub find_round : ℕ → Processor → Result Error (Option (ℕ × Processor))
  find_round addr p = do
    found ← skip_to (drop addr p.reachable) addr
    if ltb found file.code_size then (do r ← record_idioms found p; ok (some r)) else ok none

  -- `none` is a run that has used up its fuel.
  unfoldable pub find_from : ℕ → ℕ → Processor → Option (Result Error Processor)
  find_from zero addr p = none
  find_from (suc fuel) addr p = elim (ltb addr file.code_size) [
    | false ↦ some (ok p)
    | true ↦ elim (find_round addr p) [
      | err e ↦ some (err e)
      | ok none ↦ some (ok p)
      | ok (some (next, p₁)) ↦ find_from fuel next p₁
    ]
  ]

  unfoldable pub find_idioms : ℕ → Processor → Option (Result Error Processor)
  find_idioms fuel p = find_from fuel 0 p
