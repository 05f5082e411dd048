-- ===== src/Interpreter/Effect/Operands.antt =====
-- The instructions whose effect on the stack depends on an operand.
use vm_design.Common.{
  ℕ, zero, suc, ◌+◌, ◌-◌, ◌%◌, ◌^◌, ◌<◌, ◌≡◌, arith, ok, >>=-eq-ok, ok-injective, sym, ◌∙◌,
  if◌then◌else◌,
}
use vm_design.Common.Words.{add32, nonneg32}
use vm_design.Bytefile.{get_int32, get_string}
use vm_design.Bytecode.{Varspec}
use vm_design.Interpreter.Value.{box}
use vm_design.Interpreter.Runtime.{Runtime}
use vm_design.Interpreter.Machine.{
  peek_frame, State, write_slot, push, pop_count, span, pop_next_int32, allocate,
}
use vm_design.Interpreter.Machine.{pop_next_varspec}
use vm_design.Interpreter.Objects.{execute_sexp, execute_call_barray}
use vm_design.Interpreter.Calls.{capture, push_captures, make_closure, execute_closure}
use vm_design.Interpreter.Effect.{Moves}

module _ {W : Type 0} (s : State W) where
  pub pop_next_int32-read :
      {w : ℕ} {s' : State W}
      → s.ip < 2 ^ 32
      → pop_next_int32 s ≡ ok (w, s')
      → (get_int32 s.file s.ip ≡ ok w) × (s' ≡ record s { ip = add32 s.ip 4 })
  unfolding pop_next_int32
  pop_next_int32-read h e =
      let p : ((s.ip + 4) % 2 ^ 32 + 2 ^ 32 - 4) % 2 ^ 32 ≡ s.ip = omega arith in ground (arith, p)

  pub varspec-size :
      {t : Varspec} {s' : State W} → pop_next_varspec s ≡ ok (t, s') → s'.size ≡ s.size
  unfolding pop_next_varspec
  varspec-size e = ground arith

  pub int32-size : {w : ℕ} {s' : State W} → pop_next_int32 s ≡ ok (w, s') → s'.size ≡ s.size
  unfolding pop_next_int32
  int32-size e = ground arith

push-size :
    {W : Type 0} (val : ℕ) (s : State W) {s' : State W} → push val s ≡ ok s' → s'.size ≡ s.size + 1
unfolding push
push-size val s e = ground arith

module _ {W : Type 0} (rt : Runtime W) (s : State W) {s' : State W} where
  -- The words of the elements come off, and the object goes on.
  pub execute_sexp-Moves :
      {n : ℕ}
      → s.ip < 2 ^ 32
      → get_int32 s.file (add32 s.ip 4) ≡ ok n
      → execute_sexp rt s ≡ ok s'
      → Moves s n 1 s'
  unfolding execute_sexp write_slot span allocate pop_count push
  execute_sexp-Moves {n} h q e =
      let ((t, s₁), e₁, r₁) = >>=-eq-ok (pop_next_int32 s) _ e in
      let ((n', s₂), e₂, r₂) = >>=-eq-ok (pop_next_int32 s₁) _ r₁ in
      let (tag, _, r₃) = >>=-eq-ok (get_string s₂.file t) _ r₂ in
      let (_, p₁) = pop_next_int32-read s h e₁ in
      let (q₂, p₂) = pop_next_int32-read s₁ (rw p₁ (omega arith)) e₂ in ground arith

  pub execute_call_barray-Moves :
      {n : ℕ}
      → s.ip < 2 ^ 32
      → get_int32 s.file s.ip ≡ ok n
      → execute_call_barray rt s ≡ ok s'
      → Moves s n 1 s'
  unfolding execute_call_barray span allocate pop_count push
  execute_call_barray-Moves {n} h q e =
      let ((n', s₁), e₁, r₁) = >>=-eq-ok (pop_next_int32 s) _ e in
      let (q₁, p₁) = pop_next_int32-read s h e₁ in ground arith

push_captures-Moves :
    {W : Type 0} (rt : Runtime W) (n : ℕ) (s : State W) {s' : State W}
    → push_captures rt n s ≡ ok s'
    → s'.size ≡ s.size + n
unfolding push_captures
push_captures-Moves rt zero s e = ground arith
push_captures-Moves rt (suc n) s e =
    let ((t, s₁), e₁, r₁) = >>=-eq-ok (pop_next_varspec s) _ e in
    let ((a, s₂), e₂, r₂) = >>=-eq-ok (pop_next_int32 s₁) _ r₁ in
    let (val, _, r₃) = >>=-eq-ok (capture rt t a s₂) _ r₂ in
    let (s₃, e₃, e₄) = >>=-eq-ok (push val s₂) _ r₃ in
    omega (
      arith,
      push_captures-Moves rt n s₃ e₄,
      push-size val s₂ e₃,
      varspec-size s e₁,
      int32-size s₁ e₂,
    )

make_closure-size :
    {W : Type 0} (rt : Runtime W) (n : ℕ) (s : State W) {s' : State W}
    → n < 2 ^ 31
    → make_closure rt n s ≡ ok s'
    → s'.size + n ≡ s.size
unfolding make_closure span allocate pop_count push
make_closure-size rt n s h e = ground arith

-- CLOSURE leaves one word more on the stack, however many variables it captures.
pub execute_closure-Moves :
    {W : Type 0} (rt : Runtime W) (s : State W) {s' : State W} {n : ℕ}
    → s.ip < 2 ^ 32
    → get_int32 s.file (add32 s.ip 4) ≡ ok n
    → n < 2 ^ 31
    → execute_closure rt s ≡ ok s'
    → Moves s 0 1 s'
unfolding execute_closure
execute_closure-Moves rt s {s'} {n} h q l e =
    let ((addr, s₁), e₁, r₁) = >>=-eq-ok (pop_next_int32 s) _ e in
    let ((n', s₂), e₂, r₂) = >>=-eq-ok (pop_next_int32 s₁) _ r₁ in
    let (s₃, e₃, r₃) = >>=-eq-ok (push (box addr) s₂) _ r₂ in
    let (_, _, r₄) = >>=-eq-ok (peek_frame s₃) _ r₃ in
    let (s₄, e₄, e₅) = >>=-eq-ok (push_captures rt (if nonneg32 n' then n' else 0) s₃) _ r₄ in
    let (_, p₁) = pop_next_int32-read s h e₁ in
    let (q₂, _) = pop_next_int32-read s₁ (rw p₁ (omega arith)) e₂ in
    let same : n' ≡ n = ok-injective (sym q₂ ∙ rw p₁ q) in
    let all : (if nonneg32 n' then n' else 0) ≡ n = rw same (ground arith) in
    let a = push_captures-Moves rt _ s₃ e₄ in
    let b = make_closure-size rt n' s₄ (omega arith) e₅ in
    let c = push-size (box addr) s₂ e₃ in
    let d = int32-size s₁ e₂ in let f = int32-size s e₁ in omega arith
