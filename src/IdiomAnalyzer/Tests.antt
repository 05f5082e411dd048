-- ===== src/IdiomAnalyzer/Tests.antt =====
-- The analyzer at a small file.
use mathlib.Core.List.{Permᴰ}
use mathlib.Core.List.Permᴰ
use vm_design.Common.{◌⊎◌, err}
use vm_design.Common.{ℕ, ◌^◌, ◌<◌, ◌≡◌, refl, List, [], ◌∷◌, Bool, true, false, Result, ok}
use vm_design.Common.{some, ok-injective, arith, replicate, set, ◌==◌, if◌then◌else◌, length}
use vm_design.Bytecode.{of_byte, to_byte}
use vm_design.Bytefile.{Bytefile, get_code, get_bytes}
use vm_design.Error.{Error}
use vm_design.FileReader.Image.{body, loaded, encode_symbols}
use vm_design.IdiomAnalyzer.{
  Idiom, Processor, Disassembler, new_processor, find_reachable_instructions,
}
use vm_design.IdiomAnalyzer.{reachable_at, get_op}
use vm_design.IdiomAnalyzer.Reachable.{find_reachable_instructions-total}
use vm_design.IdiomAnalyzer.Find.{
  find_idioms, find_from, find_round, record_idioms, record_pair, is_pair,
}
use vm_design.IdiomAnalyzer.Find.{emplace_idiom, skip_to}
use vm_design.IdiomAnalyzer.Found.{find_idioms-IsIdiom}
use vm_design.IdiomAnalyzer.Rounds.{Records}
use vm_design.IdiomAnalyzer.Counts.{sort_idioms-total, total}
use vm_design.IdiomAnalyzer.Sort.{
  Sorter, sort_idioms, count_idioms, count_runs, idiom_equal, idiom_bytes,
}
use vm_design.IdiomAnalyzer.Sort.{length_from, same_bytes}

-- CONST 7; DROP; JMP 0, and one byte behind them.
abbrev looping : Bytefile
looping = loaded [] (record {
  globals = 0;
  symbols = record { name = 0; address = 0 } ∷ [];
  strings = b'm' ∷ b'a' ∷ b'i' ∷ b'n' ∷ 0 ∷ [];
  code = 0x10 ∷ 7 ∷ 0 ∷ 0 ∷ 0 ∷ 0x18 ∷ 0x15 ∷ 0 ∷ 0 ∷ 0 ∷ 0 ∷ 0xFF ∷ [];
})

-- The lengths of these instructions.
abbrev lengths : Disassembler
lengths file a = ok (if a == 5 then 1 else 5)

lengths-fit : (a n : ℕ) → lengths looping a ≡ ok n → (0 < n) × (n < 2 ^ 31)
lengths-fit a n e = fit (ok-injective e)
  where
    fit : (if a == 5 then 1 else 5) ≡ n → (0 < n) × (n < 2 ^ 31)
    fit e = ground arith

abbrev fresh : Processor
fresh = record {
  reachable = set (replicate 13 false) 12 true;
  jump_targets = replicate 12 false;
  idioms = [];
  workset = [];
}

fresh-new : new_processor lengths looping ≡ ok fresh
unfolding new_processor loaded
fresh-new = refl

-- Where the instructions are, and what else may be reached is behind the code.
abbrev searched : Processor
searched = record fresh {
  reachable = set (set (set (set (replicate 13 false) 12 true) 0 true) 5 true) 6 true;
  jump_targets = set (replicate 12 false) 0 true;
}

find_reachable_instructions-total_example :
    (r : Result Error Processor) × (find_reachable_instructions lengths looping 13 fresh ≡ some r)
unfolding loaded
find_reachable_instructions-total_example =
    find_reachable_instructions-total lengths looping (omega arith) fresh-new

find_idioms-IsIdiom_example :
    ((q : Processor) × (find_idioms lengths looping 13 searched ≡ some (ok q))
      × Records lengths looping searched.reachable searched.jump_targets q)
    ⊎ ((x : Error) × (find_idioms lengths looping 13 searched ≡ some (err x)))
unfolding loaded
find_idioms-IsIdiom_example =
    find_idioms-IsIdiom lengths looping searched (omega arith) refl lengths-fit refl

-- The two pairs are CONST 7; DROP and DROP; JMP 0.
abbrev recorded : Processor
recorded = record searched {
  idioms =
      record { pos = 0; size = 1 }
      ∷ record { pos = 0; size = 2 }
      ∷ record { pos = 5; size = 1 }
      ∷ record { pos = 5; size = 2 }
      ∷ record { pos = 6; size = 1 }
      ∷ [];
}

recorded-found : find_idioms lengths looping 13 searched ≡ some (ok recorded)
unfolding find_idioms find_from find_round record_idioms record_pair is_pair emplace_idiom skip_to
    loaded body encode_symbols of_byte to_byte get_code get_op reachable_at
recorded-found = refl

-- A list that is sorted already.
abbrev unchanged : Sorter
unchanged A less xs = ok xs

unchanged-Permᴰ :
    (A : Type 0) (less : A → A → Result Error Bool) (xs ys : List A)
    → unchanged A less xs ≡ ok ys
    → Permᴰ xs ys
unchanged-Permᴰ A less xs ys e = rw (← ok-injective e) (Permᴰ.refl xs)

abbrev counted : List (ℕ × Idiom)
counted =
    (1, record { pos = 0; size = 1 })
    ∷ (1, record { pos = 0; size = 2 })
    ∷ (1, record { pos = 5; size = 1 })
    ∷ (1, record { pos = 5; size = 2 })
    ∷ (1, record { pos = 6; size = 1 })
    ∷ []

counted-sorted : sort_idioms lengths looping unchanged recorded ≡ ok counted
unfolding sort_idioms count_idioms count_runs idiom_equal idiom_bytes length_from same_bytes
    get_bytes get_code loaded body encode_symbols of_byte to_byte
counted-sorted = refl

sort_idioms-total_example : total counted ≡ length recorded.idioms
sort_idioms-total_example =
    sort_idioms-total lengths looping unchanged recorded unchanged-Permᴰ counted-sorted
