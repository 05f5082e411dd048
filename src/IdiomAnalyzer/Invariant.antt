-- ===== src/IdiomAnalyzer/Invariant.antt =====
-- What each round of the search keeps.
use mathlib.Core.List.{Memᴰ}
use mathlib.Core.List.Memᴰ
use vm_design.Common.{ℕ, zero, suc, ◌<◌, ◌≡◌, ◌⊎◌, inl, inr, refl, arith}
use vm_design.Common.{List, [], ◌∷◌, ok, err, Result, some}
use vm_design.Bytefile.{Bytefile}
use vm_design.Error.{Error}
use vm_design.IdiomAnalyzer.{Processor, Disassembler}
use vm_design.IdiomAnalyzer.{expand, traverse}
use vm_design.IdiomAnalyzer.Flow.{successors, Reached}
use vm_design.IdiomAnalyzer.Adds.{IsMarked}
use vm_design.IdiomAnalyzer.Search.{expand-Adds}

module _ (disassemble : Disassembler) (file : Bytefile) where
  abbrev code : ℕ
  code = file.code_size

  -- What holds of the marks and the work set in each round.
  pub record Inv (p : Processor) : Type 0 where
    pub sound : (a : ℕ) → a < code → IsMarked p a → Reached disassemble file a
    pub queued : (a : ℕ) → Memᴰ a p.workset → Reached disassemble file a
    pub closed :
        (a : ℕ)
        → a < code
        → IsMarked p a
        → Memᴰ a p.workset
          ⊎ ((xs : List ℕ) × (successors disassemble file a ≡ ok xs)
              × ((b : ℕ) → Memᴰ b xs → IsMarked p b))

  pub expand-Inv :
      (p : Processor) (addr : ℕ) (rest : List ℕ) {p' : Processor}
      → p.workset ≡ addr ∷ rest
      → Inv p
      → expand disassemble file addr (record p { workset = rest }) ≡ ok p'
      → Inv p'
  expand-Inv p addr rest {p'} w v e =
      let (xs, s, g) = expand-Adds disassemble file addr (record p { workset = rest }) e in
      let here : Reached disassemble file addr = v.queued addr (rw w (Memᴰ.head refl)) in
      record {
        sound = λ a l m. elim (g.news a m) [
          | inl k ↦ v.sound a l k
          | inr (x, _) ↦ Reached.flow xs here s x
        ];
        queued = λ a m. elim (g.comes a m) [
          | inl k ↦ v.queued a (rw w (Memᴰ.tail k))
          | inr x ↦ Reached.flow xs here s x
        ];
        closed = λ a l m. elim (g.news a m) [
          | inr (_, k) ↦ inl k
          | inl k ↦ elim (v.closed a l k) [
            | inr (ys, t, f) ↦ inr (ys, t, λ b n. g.keeps b (f b n))
            | inl n ↦ elim (Memᴰ.cases_cons (rw w at n)) [
              | inl h ↦ inr (xs, rw h s, g.marks)
              | inr k' ↦ inl (g.stays a k')
            ]
          ]
        ];
      }

  -- One round of the loop, from its result.
  pub traverse-suc :
      (fuel : ℕ) (p : Processor) {p' : Processor}
      → traverse disassemble file (suc fuel) p ≡ some (ok p')
      → ((p.workset ≡ []) × (p ≡ p'))
        ⊎ ((addr : ℕ) × (rest : List ℕ) × (q : Processor) × (p.workset ≡ addr ∷ rest)
            × (expand disassemble file addr (record p { workset = rest }) ≡ ok q)
            × (traverse disassemble file fuel q ≡ some (ok p')))
  unfolding traverse
  traverse-suc fuel p {p'} e = visit p.workset refl
    where
      visited :
          (addr : ℕ) (rest : List ℕ)
          → p.workset ≡ addr ∷ rest
          → (r : Result Error Processor)
          → expand disassemble file addr (record p { workset = rest }) ≡ r
          → (q : Processor) × (expand disassemble file addr (record p { workset = rest }) ≡ ok q)
            × (traverse disassemble file fuel q ≡ some (ok p'))
      visited addr rest w (err x) h = absurd (cc (simp (w, h, traverse) at e))
      visited addr rest w (ok q) h = (q, h, simp (w, h, traverse) at e)

      visit :
          (w : List ℕ)
          → p.workset ≡ w
          → ((p.workset ≡ []) × (p ≡ p'))
            ⊎ ((addr : ℕ) × (rest : List ℕ) × (q : Processor) × (p.workset ≡ addr ∷ rest)
                × (expand disassemble file addr (record p { workset = rest }) ≡ ok q)
                × (traverse disassemble file fuel q ≡ some (ok p')))
      visit [] w = inl (w, ground arith)
      visit (addr ∷ rest) w =
          let (q, h, k) =
            visited addr rest w (expand disassemble file addr (record p { workset = rest })) refl in
          inr (addr, rest, q, w, h, k)

  -- Where the search ends, nothing is left to visit, and no mark is lost.
  pub traverse-Inv :
      (fuel : ℕ) (p : Processor) {p' : Processor}
      → Inv p
      → traverse disassemble file fuel p ≡ some (ok p')
      → Inv p' × (p'.workset ≡ []) × ((a : ℕ) → IsMarked p a → IsMarked p' a)
  traverse-Inv zero p v e = unfold traverse in absurd (cc)
  traverse-Inv (suc fuel) p v e = elim (traverse-suc fuel p e) [
    | inl (w, h) ↦ (rw (← h) v, rw (← h) w, λ a m. rw (← h) m)
    | inr (addr, rest, q, w, h, k) ↦
        let (u, n, f) = traverse-Inv fuel q (expand-Inv p addr rest w v h) k in
        let (xs, _, g) = expand-Adds disassemble file addr (record p { workset = rest }) h in
        (u, n, λ a m. f a (g.keeps a m))
  ]
