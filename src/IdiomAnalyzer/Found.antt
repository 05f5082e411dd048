-- ===== src/IdiomAnalyzer/Found.antt =====
-- That `find_idioms` comes to an end, and what it has recorded then.
use mathlib.Core.List.Memᴰ
use vm_design.Common.{ℕ, zero, suc, ◌+◌, ◌-◌, ◌^◌, ◌<◌, ◌≤◌, ◌≡◌, inl, inr, refl, ap, arith, List}
use vm_design.Common.{[], Bool, true, false, ok, err, Result, Option, none, some}
use vm_design.Common.{
  ◌⊎◌, >>=-eq-ok, if-cases, ok-injective, get_elem?, length, length-drop, drop, ltb, ltb→lt,
}
use vm_design.Bytefile.{Bytefile}
use vm_design.Error.{Error}
use vm_design.IdiomAnalyzer.{Processor, Disassembler}
use vm_design.IdiomAnalyzer.Find.{skip_to, find_from, find_round, record_idioms, find_idioms}
use vm_design.IdiomAnalyzer.Rounds.{Records, skip_to-marked, get_elem?-drop, record_idioms-Records}

module _ (disassemble : Disassembler) (file : Bytefile) (marks targets : List Bool) where
  abbrev Kept : Processor → Type 0
  Kept p = Records disassemble file marks targets p

  -- The measure of the outer loop: a round that goes on leaves less of the code than it found.
  round-Records :
      {addr found next : ℕ} {p q : Processor}
      → file.code_size < 2 ^ 31
      → ((a n : ℕ) → disassemble file a ≡ ok n → (0 < n) × (n < 2 ^ 31))
      → Kept p
      → addr ≤ found
      → found < file.code_size
      → get_elem? p.reachable found ≡ some true
      → record_idioms disassemble file found p ≡ ok (next, q)
      → Kept q × (addr < next)
  round-Records {found = found} small sane r l m h e =
      let (r₁, (n, f, g, b)) =
        record_idioms-Records disassemble file marks targets r m (rw (← r.marked) h) e in
      let (c, d) = sane found n f in (r₁, omega arith)

  find_round-Records :
      {addr next : ℕ} {p q : Processor}
      → file.code_size < 2 ^ 31
      → length marks ≡ file.code_size + 1
      → ((a n : ℕ) → disassemble file a ≡ ok n → (0 < n) × (n < 2 ^ 31))
      → Kept p
      → addr < file.code_size
      → find_round disassemble file addr p ≡ ok (some (next, q))
      → Kept q × (addr < next)
  unfolding find_round
  find_round-Records {addr} {next} {p} small len sane r l e =
      let (found, f, e₁) = >>=-eq-ok (skip_to (drop addr p.reachable) addr) _ e in
      let total = ap (λ (xs : List Bool). length xs) r.marked in
      let d = length-drop addr p.reachable in
      let (k, g, h) = skip_to-marked (drop addr p.reachable) addr (omega arith) f in
      let m = get_elem?-drop p.reachable addr k h in
      elim (if-cases (ltb found file.code_size) e₁) [
        | inr (_, i) ↦ absurd (cc)
        | inl (t, i) ↦
            let (_, j, e₂) = >>=-eq-ok (record_idioms disassemble file found p) _ i in
            let b = ltb→lt found file.code_size t in
            round-Records small sane r (omega arith) b (rw g m) (cc)
      ]

  find_from-Records :
      (fuel addr : ℕ) (p : Processor)
      → file.code_size < 2 ^ 31
      → length marks ≡ file.code_size + 1
      → ((a n : ℕ) → disassemble file a ≡ ok n → (0 < n) × (n < 2 ^ 31))
      → file.code_size - addr < fuel
      → Kept p
      → (r : Result Error Processor) × (find_from disassemble file fuel addr p ≡ some r)
        × ((q : Processor) → r ≡ ok q → Kept q)
  unfolding find_from
  find_from-Records zero addr p small len sane l r = absurd (omega arith)
  find_from-Records (suc fuel) addr p small len sane l r =
      from (ltb addr file.code_size) refl
        (λ next q m v. find_from-Records fuel next q small len sane m v)
    where
      Ends : Type 0
      Ends =
          (r : Result Error Processor) × (find_from disassemble file (suc fuel) addr p ≡ some r)
          × ((q : Processor) → r ≡ ok q → Kept q)

      Later : Type 0
      Later =
          (next : ℕ) (q : Processor)
          → file.code_size - next < fuel
          → Kept q
          → (r : Result Error Processor) × (find_from disassemble file fuel next q ≡ some r)
            × ((q : Processor) → r ≡ ok q → Kept q)

      round :
          ltb addr file.code_size ≡ true
          → (o : Result Error (Option (ℕ × Processor))) → find_round disassemble file addr p ≡ o
          → Later
          → Ends
      round t (err x) f later = (err x, simp (t, f, find_from), λ q e. absurd (cc))
      round t (ok none) f later = (ok p, simp (t, f, find_from), λ q e. rw (← ok-injective e) r)
      round t (ok (some (next, q))) f later =
          let b = ltb→lt addr file.code_size t in
          let (v, m) = find_round-Records small len sane r b f in
          let (r₁, g, h) = later next q (omega arith) v in (r₁, simp (t, f, find_from) g, h)

      from : (b : Bool) → ltb addr file.code_size ≡ b → Later → Ends
      from false t later = (ok p, simp (t, find_from), λ q e. rw (← ok-injective e) r)
      from true t later = round t (find_round disassemble file addr p) refl later

module _ (disassemble : Disassembler) (file : Bytefile) where
  -- Where the code has fewer than 2 ^ 31 bytes and each instruction has a positive length below that,
  -- and the marks are those of such a code, `find_idioms` ends after at most as many rounds as there are
  -- addresses, with one more for the end. If there is no error, the marks and jump targets are as they
  -- were, and each idiom that it records starts at a reachable address in the code and is one
  -- instruction, or is such an instruction that is no call and does not end the control flow, with the
  -- one behind it, which can be reached and is no target of a jump or call.
  pub find_idioms-IsIdiom :
      (p : Processor)
      → file.code_size < 2 ^ 31
      → length p.reachable ≡ file.code_size + 1
      → ((a n : ℕ) → disassemble file a ≡ ok n → (0 < n) × (n < 2 ^ 31))
      → p.idioms ≡ []
      → ((q : Processor) × (find_idioms disassemble file (file.code_size + 1) p ≡ some (ok q))
          × Records disassemble file p.reachable p.jump_targets q)
        ⊎ ((x : Error) × (find_idioms disassemble file (file.code_size + 1) p ≡ some (err x)))
  unfolding find_idioms
  find_idioms-IsIdiom p small len sane e =
      let (r, f, g) =
        find_from-Records disassemble file p.reachable p.jump_targets (file.code_size + 1) 0 p small
          len sane (omega arith)
          (record {
            marked = refl;
            targeted = refl;
            recorded = λ i m. absurd (Memᴰ.not-nil (rw e at m));
          }) in
      ended r f g
    where
      ended :
          (r : Result Error Processor)
          → find_from disassemble file (file.code_size + 1) 0 p ≡ some r
          → ((q : Processor) → r ≡ ok q → Records disassemble file p.reachable p.jump_targets q)
          → ((q : Processor) × (find_from disassemble file (file.code_size + 1) 0 p ≡ some (ok q))
              × Records disassemble file p.reachable p.jump_targets q)
            ⊎ ((x : Error) × (find_from disassemble file (file.code_size + 1) 0 p ≡ some (err x)))
      ended (ok q) f g = inl (q, f, g q refl)
      ended (err x) f g = inr (x, f)
