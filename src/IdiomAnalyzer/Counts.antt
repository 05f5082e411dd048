-- ===== src/IdiomAnalyzer/Counts.antt =====
-- Which idioms are found, and that none is lost in counting them.
use mathlib.Core.List.{Permᴰ}
use vm_design.Common.{sum, sum-perm, length-perm}
use vm_design.Common.{ℕ, ◌+◌, ◌≡◌, refl, sym, ap, ◌∙◌, arith, List, [], ◌∷◌}
use vm_design.Common.{Bool, true, false, ok, Result, >>=-eq-ok}
use vm_design.Common.{ok-injective, length, ◌>>=◌}
use vm_design.Bytefile.{Bytefile}
use vm_design.Error.{Error}
use vm_design.IdiomAnalyzer.{Idiom, Processor, Disassembler}
use vm_design.IdiomAnalyzer.Sort.{
  Sorter, sort_idioms, count_runs, idiom_equal, idiom_less, frequency_less,
}
use vm_design.IdiomAnalyzer.Sort.{count_idioms}

abbrev pub frequency_of : ℕ × Idiom → ℕ
frequency_of (n, i) = n

-- The sum of the frequencies.
abbrev pub total : List (ℕ × Idiom) → ℕ
total fs = sum frequency_of fs

module _ (disassemble : Disassembler) (file : Bytefile) where
  count_runs-total :
      (is : List Idiom) (i : ℕ × Idiom) {fs : List (ℕ × Idiom)}
      → count_runs disassemble file i.1 i.0 is ≡ ok fs
      → total fs ≡ i.0 + length is
  unfolding count_runs
  count_runs-total [] (n, i) e = rw (← ok-injective e) refl
  count_runs-total (j ∷ is) (n, i) e =
      let (same, f, g) = >>=-eq-ok (idiom_equal disassemble file i j) _ e in
      later same g (λ fs. count_runs-total is (n + 1, j)) (λ fs. count_runs-total is (1, j))
    where
      later :
          (same : Bool) {fs : List (ℕ × Idiom)}
          → elim same [
            | true ↦ count_runs disassemble file j (n + 1) is
            | false ↦ count_runs disassemble file j 1 is >>= λ later. ok ((n, i) ∷ later)
          ]
            ≡ ok fs
          → ((fs : List (ℕ × Idiom))
              → count_runs disassemble file j (n + 1) is ≡ ok fs
              → total fs ≡ n + 1 + length is)
          → ((fs : List (ℕ × Idiom))
              → count_runs disassemble file j 1 is ≡ ok fs
              → total fs ≡ 1 + length is)
          → total fs ≡ n + length (j ∷ is)
      later true {fs = fs} g more anew = let t = more fs g in omega arith
      later false {fs = fs} g more anew =
          let (ts, h, k) = >>=-eq-ok (count_runs disassemble file j 1 is) _ g in
          let t = anew ts h in let r = ap total (ok-injective k) in omega arith

  count_idioms-total :
      (is : List Idiom) {fs : List (ℕ × Idiom)}
      → count_idioms disassemble file is ≡ ok fs
      → total fs ≡ length is
  unfolding count_idioms
  count_idioms-total [] e = absurd (cc)
  count_idioms-total (i ∷ is) e = let t = count_runs-total is (1, i) e in omega arith

  -- The frequencies of the result add up to the number of idioms that were found, where `std::sort`
  -- permutes the list that it is given.
  pub sort_idioms-total :
      (sort : Sorter) (p : Processor) {fs : List (ℕ × Idiom)}
      → ((A : Type 0) (less : A → A → Result Error Bool) (xs ys : List A)
          → sort A less xs ≡ ok ys
          → Permᴰ xs ys)
      → sort_idioms disassemble file sort p ≡ ok fs
      → total fs ≡ length p.idioms
  unfolding sort_idioms
  sort_idioms-total sort p perm e =
      let (is, f, g) = >>=-eq-ok (sort Idiom (idiom_less disassemble file) p.idioms) _ e in
      let (rs, h, k) = >>=-eq-ok (count_idioms disassemble file is) _ g in
      sym (sum-perm frequency_of (perm (ℕ × Idiom) (frequency_less disassemble file) rs _ k))
      ∙ count_idioms-total is h
      ∙ sym (length-perm (perm Idiom (idiom_less disassemble file) p.idioms is f))
