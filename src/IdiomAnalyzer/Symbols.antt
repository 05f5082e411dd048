-- ===== src/IdiomAnalyzer/Symbols.antt =====
-- The marks before the search: the public symbols.
use mathlib.Core.List.{Memᴰ}
use mathlib.Core.List.Memᴰ
use vm_design.Common.{
  get_elem?-replicate, ℕ, zero, suc, ◌+◌, ◌-◌, ◌^◌, ◌≤◌, ◌<◌, ◌≡◌, ◌≢◌, ◌⊎◌, inl, inr, refl, sym,
  ap, ◌∙◌, arith,
}
use vm_design.Common.{List, [], ◌∷◌, Bool, true, false, ok, some}
use vm_design.Common.{>>=-eq-ok, if-cases, ok-injective, ltb, get_elem?, set, replicate}
use vm_design.Common.{guard-eq-ok, guard, ltb→lt, get_elem?-set_ne}
use vm_design.Common.Words.{add32}
use vm_design.Bytefile.{Bytefile, PublicSymbol, get_public_symbol}
use vm_design.Error
use vm_design.Error.{Error, failure, undefined}
use vm_design.IdiomAnalyzer.{Processor, Disassembler, validate, new_processor, add_symbol}
use vm_design.IdiomAnalyzer.{add_symbols, reachable_at, mark_jump_target}
use vm_design.IdiomAnalyzer.Adds.{IsMarked, Adds, Adds-none, Adds-append, enqueue-Adds, Adds-marked}
use vm_design.IdiomAnalyzer.Adds.{mark_jump_target-Adds}

lt_or_eq : (i j : ℕ) → i ≤ j → (i < j) ⊎ (i ≡ j)
lt_or_eq zero zero l = inr refl
lt_or_eq zero (suc j) l = inl (omega arith)
lt_or_eq (suc i) zero l = absurd (omega arith)
lt_or_eq (suc i) (suc j) l = elim (lt_or_eq i j (omega arith)) [
  | inl h ↦ inl (omega arith)
  | inr h ↦ inr (omega arith)
]

module _ (disassemble : Disassembler) (file : Bytefile) where
  abbrev code : ℕ
  code = file.code_size

  reachable_at-ok :
      (a : ℕ) (p : Processor) {b : Bool}
      → reachable_at a p ≡ ok b
      → get_elem? p.reachable a ≡ some b
  unfolding reachable_at
  reachable_at-ok a p e = ground arith

  mark_jump_target-reachable :
      (a : ℕ) (p : Processor) {q : Processor}
      → mark_jump_target a p ≡ ok q
      → q.reachable ≡ p.reachable
  unfolding mark_jump_target
  mark_jump_target-reachable a p e = ground arith

  add_symbol-Adds :
      (i : ℕ) (p : Processor) {p' : Processor}
      → add_symbol disassemble file i p ≡ ok p'
      → (s : PublicSymbol) × (get_public_symbol file i ≡ ok s) × Adds p (s.address ∷ []) p'
  unfolding add_symbol
  add_symbol-Adds i p {p'} e =
      let (s, e₁, r₁) = >>=-eq-ok (get_public_symbol file i) _ e in
      let (_, e₂, r₂) =
        >>=-eq-ok (validate (ltb s.address code) Error.invalid_symbol_offset s.address) _ r₁ in
      let (seen, e₃, r₃) = >>=-eq-ok (reachable_at s.address p) _ r₂ in
      let known = reachable_at-ok s.address p e₃ in
      (
        s,
        e₁,
        elim (if-cases seen r₃) [
          | inl (t, h) ↦ rw (← ok-injective h) (Adds-marked s.address p (rw t at known))
          | inr (t, h) ↦
              let (q, f, g) = >>=-eq-ok (mark_jump_target s.address p) _ h in
              let new : get_elem? q.reachable s.address ≡ some false =
                rw (mark_jump_target-reachable s.address p f) (rw t at known) in
              rw (← ok-injective g)
                (Adds-append (mark_jump_target-Adds s.address p f) (enqueue-Adds s.address q new))
        ],
      )

  -- The addresses of the symbols from `i` on, `left` of them.
  pub record Symbols (left i : ℕ) (xs : List ℕ) : Type 0 where
    pub named :
        (a : ℕ)
        → Memᴰ a xs
        → (j : ℕ) × (s : PublicSymbol) × (j < i + left)
          × (get_public_symbol file j ≡ ok s)
          × (a ≡ s.address)
    pub every :
        (j : ℕ) (s : PublicSymbol)
        → i ≤ j
        → j < i + left
        → get_public_symbol file j ≡ ok s
        → Memᴰ s.address xs

  pub add_symbols-Adds :
      (left i : ℕ) (p : Processor) {p' : Processor}
      → add_symbols disassemble file left i p ≡ ok p'
      → (xs : List ℕ) × Adds p xs p' × Symbols left i xs
  unfolding add_symbols
  add_symbols-Adds zero i p e = (
    [],
    rw (← ok-injective e) (Adds-none refl refl),
    record { named = λ a m. absurd (Memᴰ.not-nil m); every = λ j s l h k. absurd (omega arith) },
  )
  add_symbols-Adds (suc left) i p e =
      let (q, f, g) = >>=-eq-ok (add_symbol disassemble file i p) _ e in
      let (s, k, a) = add_symbol-Adds i p f in
      let (xs, b, v) = add_symbols-Adds left (i + 1) q g in
      (
        s.address ∷ xs,
        Adds-append a b,
        record {
          named = λ c m. elim (Memᴰ.cases_cons m) [
            | inl h ↦ (i, s, omega arith, k, h)
            | inr n ↦ let (j, t, l, d, h) = v.named c n in (j, t, omega arith, d, h)
          ];
          every = λ j t l h d. elim (lt_or_eq i j l) [
            | inl n ↦ Memᴰ.tail (v.every j t (omega arith) (omega arith) d)
            | inr n ↦
                let same : get_public_symbol file j ≡ ok s = rw (← n) k in
                let eq : t ≡ s = ok-injective (sym d ∙ same) in
                Memᴰ.head (ap (λ (u : PublicSymbol). u.address) eq)
          ];
        },
      )

  pub new-reachable :
      {p : Processor}
      → code < 2 ^ 32
      → new_processor disassemble file ≡ ok p
      → p.reachable ≡ set (replicate (code + 1) false) code true
  unfolding new_processor
  new-reachable {p} l e =
      let size = add32 code 1 in
      let (_, t, r) = >>=-eq-ok (guard (ltb 0 size) undefined) _ e in
      let pos : 0 < size = ltb→lt 0 size (guard-eq-ok (ltb 0 size) undefined t) in
      let q : size ≡ code + 1 = omega arith in
      ap (λ (u : Processor). u.reachable) (sym (ok-injective r))
      ∙ ap (λ n. set (replicate n false) (n - 1) true) q
      ∙ ap (λ n. set (replicate (code + 1) false) n true) (omega arith)

  pub new-IsMarked :
      {p : Processor} (a : ℕ)
      → code < 2 ^ 32
      → new_processor disassemble file ≡ ok p
      → a < code
      → ¬ IsMarked p a
  new-IsMarked a l e h m =
      let n : code ≢ a = λ d. omega arith in
      let marked =
        rw (new-reachable l e, get_elem?-set_ne (replicate (code + 1) false) true n) at m in
      let free = get_elem?-replicate (code + 1) false a (omega arith) in
      absurd (cc (rw free at marked))
