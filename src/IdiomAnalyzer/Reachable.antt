-- ===== src/IdiomAnalyzer/Reachable.antt =====
-- The search finds exactly what the specification says can be reached.
use mathlib.Core.List.{Memᴰ}
use mathlib.Core.List.Memᴰ
use vm_design.Common.{get_elem?-replicate, ℕ, zero, suc, ◌+◌, ◌^◌, ◌<◌, ◌≡◌, refl, ap, arith}
use vm_design.Common.{List, [], ◌∷◌, false, ok, err, Result, some}
use vm_design.Common.{length, replicate}
use vm_design.Bytefile.{Bytefile}
use vm_design.Error
use vm_design.Error.{Error, failure, undefined}
use vm_design.IdiomAnalyzer.{Processor, Disassembler, new_processor}
use vm_design.IdiomAnalyzer.{add_symbols, expand, traverse}
use vm_design.IdiomAnalyzer.{find_reachable_instructions}
use vm_design.IdiomAnalyzer.Search.{expand-Adds}
use vm_design.IdiomAnalyzer.Symbols.{Symbols, add_symbols-Adds, new-reachable}
use vm_design.IdiomAnalyzer.Adds.{unseen, unseen-set}

unseen-replicate : (n : ℕ) → unseen (replicate n false) ≡ n
unseen-replicate zero = refl
unseen-replicate (suc n) = ap suc (unseen-replicate n)

module _ (disassemble : Disassembler) (file : Bytefile) where
  abbrev code : ℕ
  code = file.code_size

  new-work :
      {p : Processor}
      → code < 2 ^ 32
      → new_processor disassemble file ≡ ok p
      → unseen p.reachable + length p.workset < code + 1
  unfolding new_processor
  new-work {p} l e =
      let empty : p.workset ≡ [] = ground arith in
      let free = get_elem?-replicate (code + 1) false code (omega arith) in
      rw (new-reachable disassemble file l e, empty)
        (omega
          (arith, unseen-set (replicate (code + 1) false) code free, unseen-replicate (code + 1)))

  -- Each round takes one address off the work set and puts on only addresses that it marks.
  traverse-total :
      (fuel : ℕ) (p : Processor)
      → unseen p.reachable + length p.workset < fuel
      → (r : Result Error Processor) × (traverse disassemble file fuel p ≡ some r)
  unfolding traverse
  traverse-total zero p h = absurd (omega arith)
  traverse-total (suc fuel) p h = visit (λ q k. traverse-total fuel q k) p.workset refl
    where
      Ends : Type 0
      Ends = (r : Result Error Processor) × (traverse disassemble file (suc fuel) p ≡ some r)

      visited :
          ((q : Processor)
            → unseen q.reachable + length q.workset < fuel
            → (r : Result Error Processor) × (traverse disassemble file fuel q ≡ some r))
          → (addr : ℕ) (rest : List ℕ) → p.workset ≡ addr ∷ rest
          → (r : Result Error Processor)
          → expand disassemble file addr (record p { workset = rest }) ≡ r
          → Ends
      visited later addr rest w (err x) g = (err x, simp (w, g, traverse))
      visited later addr rest w (ok q) g =
          let (xs, _, d) = expand-Adds disassemble file addr (record p { workset = rest }) g in
          let (r, k) = later q (omega (arith, d.work, ap (λ (y : List ℕ). length y) w)) in
          (r, simp (w, g, traverse) k)

      visit :
          ((q : Processor)
            → unseen q.reachable + length q.workset < fuel
            → (r : Result Error Processor) × (traverse disassemble file fuel q ≡ some r))
          → (w : List ℕ) → p.workset ≡ w
          → Ends
      visit later [] w = (ok p, simp (w, traverse))
      visit later (addr ∷ rest) w =
          visited later addr rest w (expand disassemble file addr (record p { workset = rest }))
            refl

  -- From a new processor, for code of less than 2 ^ 32 bytes, as many rounds as there are addresses, and
  -- one more, are enough: the search then ends, with an error or without one.
  pub find_reachable_instructions-total :
      {p : Processor}
      → code < 2 ^ 32
      → new_processor disassemble file ≡ ok p
      → (r : Result Error Processor) × (find_reachable_instructions disassemble file (code + 1) p
          ≡ some r)
  unfolding find_reachable_instructions
  find_reachable_instructions-total {p} l e =
      started (add_symbols disassemble file file.public_symbols_number 0 p) refl
    where
      started :
          (r : Result Error Processor)
          → add_symbols disassemble file file.public_symbols_number 0 p ≡ r
          → (r' : Result Error Processor) × (find_reachable_instructions disassemble file
                (code + 1)
                p
              ≡ some r')
      started (err x) g = (err x, rw (g, find_reachable_instructions) refl)
      started (ok q) g =
          let (xs, d, _) = add_symbols-Adds disassemble file file.public_symbols_number 0 p g in
          let (r, k) = traverse-total (code + 1) q (rw d.work (new-work l e)) in
          (r, rw (g, find_reachable_instructions) k)
