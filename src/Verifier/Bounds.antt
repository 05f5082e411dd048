-- ===== src/Verifier/Bounds.antt =====
-- Every depth that the verifier notes for an address is one that the interpreter's stack can hold.
use vm_design.Verifier.Visit.{visit_op}
use vm_design.Common.{ℕ, zero, suc, ◌<◌, ◌≡◌, ◌⊎◌, inl, inr, if-cases, arith, List, [], ◌∷◌}
use vm_design.Common.{Option, ◌||◌, ltb, ok, some, none, err, Result, >>=-eq-ok, refl}
use vm_design.Bytecode.{Bytecode}
use vm_design.Error
use vm_design.Bytefile.{Bytefile, PublicSymbol}
use vm_design.Verifier.WorksetEntry
use vm_design.Verifier.StackSize.{from_processed, is_processed}
use vm_design.Verifier.State.{Verifier, max_stack_size, pop, push}
use vm_design.Verifier.State.{set_stack_size, stack_size_at, pop_next_op, peek, validate}
use vm_design.Verifier.Traverse.{update_depth, record_depth}
use vm_design.Verifier.Traverse.{
  visit_instruction, is_begin, is_last, step, traverse, find_entrypoint, new_verifier, verify,
}
use vm_design.Verifier.Keeps.{restore_frame-keeps}
use vm_design.Verifier.Depths.{
  AllDepths, AllDepths-set, AllDepths-replicate, IsDepth-from, leave_visited-AllDepths,
  visit_op-AllDepths,
}

update_depth-bounds :
    (v : Verifier) {v' : Verifier}
    → update_depth v ≡ ok v'
    → (v'.stack_sizes ≡ v.stack_sizes) × (v'.current_stack_size < max_stack_size)
unfolding update_depth
update_depth-bounds v e = ground arith

record_depth-AllDepths :
    (v : Verifier) {v' : Verifier}
    → AllDepths v.stack_sizes
    → v.current_stack_size < max_stack_size
    → record_depth v ≡ ok v'
    → AllDepths v'.stack_sizes × (v'.current_stack_size ≡ v.current_stack_size)
unfolding record_depth set_stack_size
record_depth-AllDepths v a c e = ground (
  arith,
  AllDepths-set v.stack_sizes v.addr (from_processed v.current_stack_size) a
      (IsDepth-from v.current_stack_size c).1,
)

pop_next_op-keeps :
    (v : Verifier) {op : Bytecode} {v' : Verifier}
    → pop_next_op v ≡ ok (op, v')
    → (v'.stack_sizes ≡ v.stack_sizes) × (v'.current_stack_size ≡ v.current_stack_size)
unfolding pop_next_op
pop_next_op-keeps v e = ground arith

push-keeps :
    (entry : ℕ) (v : Verifier) {v' : Verifier}
    → push entry v ≡ ok v'
    → v'.stack_sizes ≡ v.stack_sizes
unfolding push
push-keeps entry v e = ground arith

visit_instruction-AllDepths :
    (v : Verifier) {v' : Verifier}
    → AllDepths v.stack_sizes
    → v.current_stack_size < max_stack_size
    → visit_instruction v ≡ ok v'
    → AllDepths v'.stack_sizes
unfolding visit_instruction
visit_instruction-AllDepths v a c e =
    let (v₁, e₁, r₁) = >>=-eq-ok (record_depth v) _ e in
    let ((op, v₂), e₂, r₂) = >>=-eq-ok (pop_next_op v₁) _ r₁ in
    let (_, _, r₃) =
      >>=-eq-ok (validate v₂ (is_begin op || ltb 0 v₂.frames_depth) Error.no_frame) _ r₂ in
    let (v₃, e₃, r₄) = >>=-eq-ok (visit_op op v₂) _ r₃ in
    let (a₁, c₁) = record_depth-AllDepths v a c e₁ in
    let (k, c₂) = pop_next_op-keeps v₁ e₂ in
    let a₃ = visit_op-AllDepths op v₂ (rw k a₁) (rw (c₂, c₁) c) e₃ in
    elim (if-cases (is_last op) r₄) [
      | inl (_, t) ↦ ground arith
      | inr (_, t) ↦ rw (push-keeps (WorksetEntry.from_instruction v₃.addr) v₃ t) a₃
    ]

pop-keeps :
    (v : Verifier) {entry : ℕ} {v' : Verifier}
    → pop v ≡ ok (entry, v')
    → v'.stack_sizes ≡ v.stack_sizes
unfolding pop
pop-keeps v e = ground arith

-- Each round of the loop keeps all noted depths below MAX_STACK_SIZE.
pub step-AllDepths :
    (v : Verifier) {v' : Verifier}
    → AllDepths v.stack_sizes
    → step v ≡ ok v'
    → AllDepths v'.stack_sizes
unfolding step
step-AllDepths v a e =
    let (entry, e₁, r₁) = >>=-eq-ok (peek v) _ e in
    elim (if-cases (WorksetEntry.is_frame entry) r₁) [
      | inl (_, t) ↦ rw (restore_frame-keeps v t) a
      | inr (_, t) ↦
          let ((entry', v₁), e₂, r₂) = >>=-eq-ok (pop v) _ t in
          let u = record v₁ { addr = WorksetEntry.get_value entry' } in
          let (v₂, e₃, r₃) = >>=-eq-ok (update_depth u) _ r₂ in
          let (size, _, r₄) = >>=-eq-ok (stack_size_at v₂ v₂.addr) _ r₃ in
          let (k, c) = update_depth-bounds u e₃ in
          let a₂ : AllDepths v₂.stack_sizes = rw (k, pop-keeps v e₂) a in
          elim (if-cases (is_processed size) r₄) [
            | inl (_, t') ↦ leave_visited-AllDepths v₂ a₂ t'
            | inr (_, t') ↦ visit_instruction-AllDepths v₂ a₂ c t'
          ]
    ]

traverse-suc :
    (fuel : ℕ) (v : Verifier) {v' : Verifier}
    → traverse (suc fuel) v ≡ some (ok v')
    → (v ≡ v') ⊎ ((u : Verifier) × (step v ≡ ok u) × (traverse fuel u ≡ some (ok v')))
unfolding traverse
traverse-suc fuel v {v'} e = go v.workset refl (step v) refl
  where
    go :
        (w : List ℕ)
        → v.workset ≡ w
        → (r : Result Error.Error Verifier) → step v ≡ r
        → (v ≡ v') ⊎ ((u : Verifier) × (step v ≡ ok u) × (traverse fuel u ≡ some (ok v')))
    go [] p r q = inl (ground arith)
    go (entry ∷ rest) p (err x) q = absurd (cc (rw (p, q, traverse) at e))
    go (entry ∷ rest) p (ok u) q = inr (u, q, rw (p, q, traverse) at e)

traverse-AllDepths :
    (fuel : ℕ) (v : Verifier) {v' : Verifier}
    → AllDepths v.stack_sizes
    → traverse fuel v ≡ some (ok v')
    → AllDepths v'.stack_sizes
traverse-AllDepths zero v a e = unfold traverse in absurd (cc)
traverse-AllDepths (suc fuel) v a e = elim (traverse-suc fuel v e) [
  | inl p ↦ rw (← p) a
  | inr (u, p, q) ↦ traverse-AllDepths fuel u (step-AllDepths v a p) q
]

new_verifier-AllDepths :
    (file : Bytefile) (entrypoint : PublicSymbol)
    → AllDepths (new_verifier file entrypoint).stack_sizes
unfolding new_verifier
new_verifier-AllDepths file entrypoint = AllDepths-replicate file.code_size

-- Where the verifier accepts a file, after any number of rounds, every depth that it has noted for an
-- address of the code is below MAX_STACK_SIZE.
pub verify-AllDepths :
    (fuel : ℕ) (file : Bytefile) {v : Verifier}
    → verify fuel file ≡ some (ok v)
    → AllDepths v.stack_sizes
unfolding verify
verify-AllDepths fuel file {v} e = go (find_entrypoint file.public_symbols_number 0 file) refl
  where
    go :
        (r : Result Error.Error (Option PublicSymbol))
        → find_entrypoint file.public_symbols_number 0 file ≡ r
        → AllDepths v.stack_sizes
    go (err x) p = absurd (cc (rw (p, verify) at e))
    go (ok none) p = absurd (cc (rw (p, verify) at e))
    go (ok (some s)) p =
        pushed (push (WorksetEntry.from_instruction s.address) (new_verifier file s)) refl
      where
        pushed :
            (r : Result Error.Error Verifier)
            → push (WorksetEntry.from_instruction s.address) (new_verifier file s) ≡ r
            → AllDepths v.stack_sizes
        pushed (err x) q = absurd (cc (rw (p, q, verify) at e))
        pushed (ok u) q =
            traverse-AllDepths fuel u
              (rw (push-keeps _ (new_verifier file s) q) (new_verifier-AllDepths file s))
              (rw (p, q, verify) at e)
