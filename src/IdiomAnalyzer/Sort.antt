-- ===== src/IdiomAnalyzer/Sort.antt =====
-- `sort_idioms` and the comparisons of idioms: Assignment03/src/idiom_analyzer.cpp, lines 28 to 77 and
-- 150 to 172. `std::sort` is a parameter; a comparison can stop the program, since it disassembles.
use vm_design.Common.{
  ℕ, zero, suc, ◌+◌, List, [], ◌∷◌, Bool, true, false, ◌&&◌, ◌||◌, ◌==◌, Result, ok, err,
}
use vm_design.Common.{◌>>=◌, ltb, if◌then◌else◌}
use vm_design.Common.Words.{add32}
use vm_design.Bytecode.{Bytecode, to_byte}
use vm_design.Bytefile.{Bytefile, get_bytes}
use vm_design.Error.{Error, undefined}
use vm_design.IdiomAnalyzer.{Idiom, Processor, Disassembler}

-- `std::sort` with a comparison.
abbrev pub Sorter : Type 1
Sorter = (A : Type 0) → (A → A → Result Error Bool) → List A → Result Error (List A)

-- `std::equal` and `std::lexicographical_compare` of two spans of bytes
unfoldable pub same_bytes : List Bytecode → List Bytecode → Bool
same_bytes [] [] = true
same_bytes (x ∷ xs) (y ∷ ys) = to_byte x == to_byte y && same_bytes xs ys
same_bytes _ _ = false

unfoldable pub less_bytes : List Bytecode → List Bytecode → Bool
less_bytes xs [] = false
less_bytes [] (y ∷ ys) = true
less_bytes (x ∷ xs) (y ∷ ys) =
    ltb (to_byte x) (to_byte y) || (to_byte x == to_byte y && less_bytes xs ys)

module _ (disassemble : Disassembler) (file : Bytefile) where
  -- The length of `left` instructions from `pos` on, behind `length` bytes of them.
  unfoldable pub length_from : ℕ → ℕ → ℕ → Result Error ℕ
  length_from zero pos length = ok length
  length_from (suc left) pos length =
      disassemble file (add32 pos length) >>= λ n. length_from left pos (add32 length n)

  unfoldable pub idiom_bytes : Idiom → Result Error (List Bytecode)
  idiom_bytes i = do length ← length_from i.size i.pos 0; get_bytes file i.pos length

  -- `idiom_equal`
  unfoldable pub idiom_equal : Idiom → Idiom → Result Error Bool
  idiom_equal lhs rhs =
      if lhs.size == rhs.size
      then (do xs ← idiom_bytes lhs; ys ← idiom_bytes rhs; ok (same_bytes xs ys))
      else ok false

  -- `idiom_comparator`
  unfoldable pub idiom_less : Idiom → Idiom → Result Error Bool
  idiom_less lhs rhs =
      if ltb lhs.size rhs.size
      then ok true
      else (if ltb rhs.size lhs.size
          then ok false
          else (do xs ← idiom_bytes lhs; ys ← idiom_bytes rhs; ok (less_bytes xs ys)))

  -- The lambda `compare`: the more frequent idiom first.
  unfoldable pub frequency_less : ℕ × Idiom → ℕ × Idiom → Result Error Bool
  frequency_less (m, lhs) (n, rhs) =
      if ltb n m then ok true else (if m == n then idiom_less lhs rhs else ok false)

  -- The loop over the sorted idioms: `previous` is the last one seen, `frequency` times so far.
  unfoldable pub count_runs : Idiom → ℕ → List Idiom → Result Error (List (ℕ × Idiom))
  count_runs previous frequency [] = ok ((frequency, previous) ∷ [])
  count_runs previous frequency (i ∷ is) = idiom_equal previous i >>= λ same. elim same [
    | true ↦ count_runs i (frequency + 1) is
    | false ↦ count_runs i 1 is >>= λ later. ok ((frequency, previous) ∷ later)
  ]

  -- The runs of equal idioms; `idioms_.back()` of no idioms is undefined.
  unfoldable pub count_idioms : List Idiom → Result Error (List (ℕ × Idiom))
  count_idioms [] = err undefined
  count_idioms (i ∷ is) = count_runs i 1 is

  unfoldable pub sort_idioms : Sorter → Processor → Result Error (List (ℕ × Idiom))
  sort_idioms sort p = do
    sorted ← sort Idiom idiom_less p.idioms
    frequencies ← count_idioms sorted
    sort (ℕ × Idiom) frequency_less frequencies
