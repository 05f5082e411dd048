-- ===== src/IdiomAnalyzer/Search.antt =====
-- One round of the search against the specification.
use vm_design.Common.{ℕ, ◌≡◌, refl, List, [], ◌∷◌, ◌++◌, ◌||◌, ok}
use vm_design.Common.{ok-injective, >>=-eq-ok, if-cases, inl, inr, ltb, if◌then◌else◌}
use vm_design.Common.Words.{add32}
use vm_design.Bytecode.{Bytecode}
use vm_design.Bytefile.{Bytefile}
use vm_design.Error
use vm_design.Error.{Error}
use vm_design.IdiomAnalyzer.{
  Processor, Disassembler, is_jump, is_call, is_terminal, validate, get_op,
}
use vm_design.IdiomAnalyzer.{get_target, follow, fall_through, expand, mark_jump_target}
use vm_design.IdiomAnalyzer.Flow.{successors, targets}
use vm_design.IdiomAnalyzer.Adds.{
  Adds, Adds-none, Adds-append, discover-Adds, mark_jump_target-Adds,
}

module _ (disassemble : Disassembler) (file : Bytefile) where
  -- Control goes on behind an instruction that is not terminal.
  go_on-Adds :
      (op : Bytecode) (next : ℕ) (p : Processor) {p' : Processor}
      → (if is_terminal op then ok p else fall_through disassemble file op next p) ≡ ok p'
      → Adds p (if is_terminal op then [] else next ∷ []) p'
  unfolding fall_through
  go_on-Adds op next p e = elim (if-cases (is_terminal op) e) [
    | inl (t, h) ↦ rw (t, ← ok-injective h) (Adds-none refl refl)
    | inr (t, h) ↦
        let (q, f, g) = >>=-eq-ok (if is_call op then mark_jump_target next p else ok p) _ h in
        rw t (elim (if-cases (is_call op) f) [
          | inl (_, k) ↦ Adds-append (mark_jump_target-Adds next p k) (discover-Adds next q g)
          | inr (_, k) ↦
              Adds-append {q = q} {xs = []} (rw (← ok-injective k) (Adds-none refl refl))
                (discover-Adds next q g)
        ])
  ]

  -- The search goes on at the targets that the specification finds.
  jump-Adds :
      (op : Bytecode) (addr : ℕ) (p : Processor) {p' : Processor}
      → (if is_jump op || is_call op then follow disassemble file addr p else ok p) ≡ ok p'
      → (xs : List ℕ) × (targets disassemble file op addr ≡ ok xs) × Adds p xs p'
  unfolding follow targets
  jump-Adds op addr p e = elim (if-cases (is_jump op || is_call op) e) [
    | inl (t, i) ↦
        let (target, f, g) = >>=-eq-ok (get_target disassemble file (add32 addr 1)) _ i in
        let (_, h, k) =
          >>=-eq-ok (validate (ltb target file.code_size) Error.invalid_destination target) _ g in
        let (q, l, m) = >>=-eq-ok (mark_jump_target target p) _ k in
        (
          target ∷ [],
          rw (t, f, h) refl,
          Adds-append (mark_jump_target-Adds target p l) (discover-Adds target q m),
        )
    | inr (t, h) ↦ ([], rw t refl, rw (← ok-injective h) (Adds-none refl refl))
  ]

  successors_lem :
      (addr : ℕ) {op : Bytecode} {size : ℕ} {u : Unit {0}} {xs : List ℕ}
      → get_op disassemble file addr ≡ ok op
      → disassemble file addr ≡ ok size
      → validate
          (ltb (add32 addr size) file.code_size)
          Error.unexpected_end_of_code
          (add32 addr size)
        ≡ ok u
      → targets disassemble file op addr ≡ ok xs
      → successors disassemble file addr
        ≡ ok (xs ++ (if is_terminal op then [] else add32 addr size ∷ []))
  unfolding successors
  successors_lem addr e₁ e₂ e₃ e₄ = rw (e₁, e₂, e₃, e₄) refl

  -- A round of the search marks what the specification says follows the address.
  pub expand-Adds :
      (addr : ℕ) (p : Processor) {p' : Processor}
      → expand disassemble file addr p ≡ ok p'
      → (xs : List ℕ) × (successors disassemble file addr ≡ ok xs) × Adds p xs p'
  unfolding expand
  expand-Adds addr p e =
      let (op, e₁, r₁) = >>=-eq-ok (get_op disassemble file addr) _ e in
      let (size, e₂, r₂) = >>=-eq-ok (disassemble file addr) _ r₁ in
      let next = add32 addr size in
      let (_, e₃, r₃) =
        >>=-eq-ok (validate (ltb next file.code_size) Error.unexpected_end_of_code next) _ r₂ in
      let (q, e₄, r₄) =
        >>=-eq-ok (if is_jump op || is_call op then follow disassemble file addr p else ok p) _
          r₃ in
      let (xs, e₅, a) = jump-Adds op addr p e₄ in
      (
        xs ++ (if is_terminal op then [] else next ∷ []),
        successors_lem addr e₁ e₂ e₃ e₅,
        Adds-append a (go_on-Adds op next q r₄),
      )
