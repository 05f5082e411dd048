-- ===== src/CheckedInterpreter/Refines/Run.antt =====
-- Where a run of Assignment02's loop succeeds, that of Assignment04 on the same file does the same.
use vm_design.Common.{
  arith, ℕ, zero, suc, ◌+◌, ◌<◌, Bool, true, false, ◌&&◌, &&-eq-true, Result, ok, err, some, ◌≡◌,
  refl, ◌∙◌, >>=-eq-ok, length, get_elem?_lt, require-eq-ok, ◌⊎◌, inl, inr,
}
use vm_design.Common.Words.{add32, sub32}
use vm_design.Bytecode.{Bytecode}
use vm_design.Bytefile.{Bytefile, get_byte, get_code}
use vm_design.Error.{Error}
use vm_design.Interpreter.Machine
use vm_design.Interpreter.Machine.{State}
use vm_design.Interpreter.Runtime.{Runtime}
use vm_design.Interpreter.Loop
use vm_design.CheckedInterpreter.Machine.{pop_next_op}
use vm_design.CheckedInterpreter.Loop.{step, run}
use vm_design.CheckedInterpreter.Refines.Loop.{entry_fits, execute-Refines}

-- The same below `count`, wherever the bytes read as BEGIN or CBEGIN.
unfoldable pub entries_fit : ℕ → Bytefile → Bool
entries_fit zero file = true
entries_fit (suc ip) file =
    elim (get_code file ip) [ ok op ↦ entry_fits op file ip | err e ↦ true ] && entries_fit ip file

entries_fit-entry_fits :
    (count : ℕ) (file : Bytefile) (ip : ℕ) {op : Bytecode}
    → entries_fit count file ≡ true
    → get_code file ip ≡ ok op
    → ip < count
    → entry_fits op file ip ≡ true
unfolding entries_fit
entries_fit-entry_fits zero file ip fits e l = elim l [ ]
entries_fit-entry_fits (suc n) file ip {op} fits e l =
    let c : (ip < n) ⊎ (ip ≡ n) = ground arith in
    let code_at : ip ≡ n → get_code file n ≡ ok op = λ h. rw (← h) e in
    let at_n : Bool = elim (get_code file n) [ ok op ↦ entry_fits op file n | err e ↦ true ] in
    let (here, below) = &&-eq-true at_n (entries_fit n file) fits in
    elim c [
      | inl h ↦ entries_fit-entry_fits n file ip below e h
      | inr h ↦ rw (h) (rw (code_at h) at here)
    ]

get_code-length :
    (file : Bytefile) (ip : ℕ) {op : Bytecode} → get_code file ip ≡ ok op → ip < length file.buffer
unfolding get_code get_byte
get_code-length file ip e =
    let (b, p, _) = >>=-eq-ok (get_byte file ip) _ e in
    let l : file.code_ptr + ip < length file.buffer =
      get_elem?_lt file.buffer _ (require-eq-ok _ _ p) in
    omega arith

module _ {W : Type 0} where
  pop_next_op-Refines :
      (s : State W) {op : Bytecode} {s' : State W}
      → pop_next_op s ≡ ok (op, s')
      → (Machine.pop_next_op s ≡ ok (op, s'))
        × (s'.ip ≡ add32 (sub32 (add32 s.ip 1) 1) 1)
        × (get_code s.file (sub32 (add32 s.ip 1) 1) ≡ ok op)
        × (s'.file ≡ s.file)
  unfolding pop_next_op Machine.pop_next_op
  pop_next_op-Refines s e = ground arith

module _ {W : Type 0} (rt : Runtime W) where
  step-Refines :
      (s : State W) {more : Bool} {s' : State W}
      → entries_fit (length s.file.buffer) s.file ≡ true
      → step rt s ≡ ok (more, s')
      → (Loop.step rt s ≡ ok (more, s')) × (s'.file ≡ s.file)
  unfolding step Loop.step
  step-Refines s fits e =
      let ((op, s₁), p, e₁) = >>=-eq-ok _ _ e in
      let (q, i, c, f) = pop_next_op-Refines s p in
      let fit = entries_fit-entry_fits _ s.file _ fits c (get_code-length s.file _ c) in
      let (r, g) = execute-Refines rt op (sub32 (add32 s.ip 1) 1) s₁ i (rw (f) fit) e₁ in
      (rw (q) r, g ∙ f)

  -- The interpreter of Assignment04 does without most of the checks of the one of Assignment02: where
  -- the latter, from any state and with any runtime, runs to its end without a failure, the former, in
  -- as many rounds and from the same state, ends in the same state. Wherever the bytes of the code, or
  -- behind it, read as BEGIN or CBEGIN, the number of locals must be below 2 ^ 16, as the interpreter of
  -- Assignment04 takes the upper half of that operand for the depth of the stack.
  pub run-Refines :
      (fuel : ℕ) (s : State W) {s' : State W}
      → entries_fit (length s.file.buffer) s.file ≡ true
      → run rt fuel s ≡ some (ok s')
      → Loop.run rt fuel s ≡ some (ok s')
  unfolding run Loop.run
  run-Refines zero s fits e = absurd (cc)
  run-Refines (suc fuel) s {s'} fits e = go (λ u. run-Refines fuel u) (step rt s) refl
    where
      go :
          ((u : State W)
            → entries_fit (length u.file.buffer) u.file ≡ true
            → run rt fuel u ≡ some (ok s')
            → Loop.run rt fuel u ≡ some (ok s'))
          → (r : Result Error (Bool × State W)) → step rt s ≡ r
          → Loop.run rt (suc fuel) s ≡ some (ok s')
      go later (err x) q = let no : some (err x) ≡ some (ok s') = rw (q, run) at e in absurd (cc)
      go later (ok (false, u)) q =
          let (p, _) = step-Refines s fits q in rw (p, Loop.run) (rw (q, run) at e)
      go later (ok (true, u)) q =
          let (p, f) = step-Refines s fits q in
          rw (p, Loop.run) (later u (rw (f) fits) (rw (q, run) at e))
