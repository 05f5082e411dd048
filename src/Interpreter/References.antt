-- ===== src/Interpreter/References.antt =====
-- References to variables of the stack: LDA followed by STI, against ST.
use vm_design.Common.{
  ℕ, ◌+◌, ◌-◌, ◌*◌, ◌%◌, ◌^◌, ◌<◌, ◌≤◌, ◌≡◌, Result, err, ◌≢◌, ok-injective, ◌∙◌, sym, refl, arith,
  ok, some, ◌>>=◌, ◌⊎◌, inl, inr, List, [], ◌∷◌, get_elem?, get_elem?_of_lt, set, length,
  length-set, get_elem?-set_self, get_elem?-set_ne, >>=-eq-ok,
}
use vm_design.Common.Words.{add32, sub32}
use vm_design.Error.{Error}
use vm_design.Bytefile.{get_int32}
use vm_design.Interpreter.Runtime.{Runtime}
use vm_design.Interpreter.Machine.{
  State, Frame, local_slot, arg_slot, slot_address, slot_of, store_word, write_slot, read_slot,
  peek, peek_frame, pop, push, pop_next_int32,
}
use vm_design.Interpreter.Objects.{execute_sti}
use vm_design.Interpreter.Execute.{
  execute_lda_global, execute_lda_local, execute_lda_argument, execute_st_global, execute_st_local,
  execute_st_argument,
}

slot_of-slot_address :
    {W : Type 0} (s : State W) (idx : ℕ)
    → idx < length s.buf
    → s.stack_base + 8 * length s.buf ≤ 2 ^ 64
    → slot_of s (slot_address s idx) ≡ some idx
slot_of-slot_address s idx h l = ground arith

-- Two states that differ at most in the words of the stack's array that are not live.
pub record SameLive {W : Type 0} (s t : State W) : Type 0 where
  pub ip : s.ip ≡ t.ip
  pub frames : s.frames ≡ t.frames
  pub size : s.size ≡ t.size
  pub is_tmp_closure : s.is_tmp_closure ≡ t.is_tmp_closure
  pub file : s.file ≡ t.file
  pub world : s.world ≡ t.world
  pub live : (i : ℕ) → i < t.size → get_elem? s.buf i ≡ get_elem? t.buf i

-- The stack is aligned to words, ends within 2 ^ 64, and has a place left.
pub record Aligned {W : Type 0} (s : State W) : Type 0 where
  pub base : s.stack_base % 8 ≡ 0
  pub last : s.stack_base + 8 * length s.buf ≤ 2 ^ 64
  pub room : s.size < length s.buf

-- The same write to two lists that agree at a place leaves them so.
set-agree :
    (xs ys : List ℕ) (i j v : ℕ)
    → j < length xs
    → j < length ys
    → get_elem? xs i ≡ get_elem? ys i
    → get_elem? (set xs j v) i ≡ get_elem? (set ys j v) i
set-agree xs ys i j v h l e =
    let c : (j ≡ i) ⊎ (j ≢ i) = ground arith in
    elim c [
      | inl q ↦ rw (← q) (get_elem?-set_self xs j v h ∙ sym (get_elem?-set_self ys j v l))
      | inr n ↦ get_elem?-set_ne xs v n ∙ e ∙ sym (get_elem?-set_ne ys v n)
    ]

-- The steps of the stack where they succeed.
module _ {W : Type 0} (s : State W) where
  write_slot-ok :
      (idx val : ℕ)
      → idx < length s.buf
      → write_slot idx val s ≡ ok (record s { buf = set s.buf idx val })
  unfolding write_slot
  write_slot-ok idx val l = ground arith

  pop-ok :
      {val : ℕ}
      → 0 < s.size
      → get_elem? s.buf (s.size - 1) ≡ some val
      → pop s ≡ ok (val, record s { size = s.size - 1 })
  unfolding pop peek read_slot
  pop-ok z g = let p : s.size - 0 - 1 ≡ s.size - 1 = omega arith in ground (arith, p)

  pop-size : {r : ℕ × State W} → pop s ≡ ok r → 0 < s.size
  unfolding pop peek
  pop-size e = ground arith

  write_slot-size : (idx val : ℕ) {t : State W} → write_slot idx val s ≡ ok t → idx < length s.buf
  unfolding write_slot
  write_slot-size idx val e = ground arith

module _ {W : Type 0} (s : State W) where
  push-ok :
      (val : ℕ)
      → s.size < length s.buf
      → push val s ≡ ok (record s { buf = set s.buf s.size val; size = s.size + 1 })
  unfolding push
  push-ok val l = write_slot-ok (record s { size = s.size + 1 }) s.size val l

module _ {W : Type 0} (s : State W) where
  -- What ST does with a value that it can take off the stack.
  stored :
      (idx val : ℕ) {t : State W}
      → get_elem? s.buf (s.size - 1) ≡ some val
      → s.size < length s.buf
      → (do (v, s₁) ← pop s; s₂ ← write_slot idx v s₁; push v s₂) ≡ ok t
      → (0 < s.size)
        × (idx < length s.buf)
        × (t ≡ record s { buf = set (set s.buf idx val) (s.size - 1) val; size = s.size })
  stored idx val {t} g l e =
      let (r, p, _) = >>=-eq-ok (pop s) _ e in
      let z : 0 < s.size = pop-size s p in
      let s₁ : State W = record s { size = s.size - 1 } in
      let e₁ : (do s₂ ← write_slot idx val s₁; push val s₂) ≡ ok t = rw (pop-ok s z g) at e in
      let (_, w, _) = >>=-eq-ok (write_slot idx val s₁) (λ s₂. push val s₂) e₁ in
      let m : idx < length s.buf = write_slot-size s₁ idx val w in
      let s₂ : State W = record s₁ { buf = set s.buf idx val } in
      let e₂ : push val s₂ ≡ ok t = rw (write_slot-ok s₁ idx val m) at e₁ in
      let n : s₂.size < length s₂.buf = rw (length-set s.buf idx val) (omega arith) in
      let back : s.size - 1 + 1 ≡ s.size = omega arith in
      (z, m, sym (ok-injective (rw (push-ok s₂ val n, back) at e₂)))

  store_word-slot :
      (rt : Runtime W) (address idx val : ℕ) {r : Result Error (State W)}
      → slot_of s address ≡ some idx
      → write_slot idx val s ≡ r
      → store_word rt address val s ≡ r
  unfolding store_word
  store_word-slot rt address idx val e w = rw (e, store_word) w

module _ {W : Type 0} (rt : Runtime W) (s : State W) where
  -- LDA and STI behind the operand.
  stored_through :
      (idx val : ℕ)
      → get_elem? s.buf (s.size - 1) ≡ some val
      → Aligned s
      → 0 < s.size
      → idx < length s.buf
      → (push (slot_address s idx) s >>= execute_sti rt)
        ≡ ok (record s {
          buf = set (set (set s.buf s.size (slot_address s idx)) idx val) (s.size - 1) val;
          size = s.size;
        })
  unfolding execute_sti
  stored_through idx val g a z l =
      let address = slot_address s idx in
      let room = a.room in
      let base = a.base in
      let last = a.last in
      let buf₁ : List ℕ = set s.buf s.size address in
      let n : length buf₁ ≡ length s.buf = length-set s.buf s.size address in
      let s₁ : State W = record s { buf = buf₁; size = s.size + 1 } in
      let s₂ : State W = record s { buf = buf₁ } in
      let s₃ : State W = record s₂ { size = s.size - 1 } in
      let s₄ : State W = record s₃ { buf = set buf₁ idx val } in
      let top : s.size + 1 - 1 ≡ s.size = omega arith in
      let back : s.size - 1 + 1 ≡ s.size = omega arith in
      let even : address % 2 ≡ 0 = omega arith in
      let p : pop s₁ ≡ ok (address, s₂) = rw (top) at (
        pop-ok s₁ {val = address} (omega arith)
          (rw (top) (get_elem?-set_self s.buf s.size address room))) in
      let q : pop s₂ ≡ ok (val, s₃) =
        pop-ok s₂ z (get_elem?-set_ne s.buf address (λ h. absurd (omega arith)) ∙ g) in
      let w : write_slot idx val s₃ ≡ ok s₄ = write_slot-ok s₃ idx val (omega arith) in
      let m : length (set buf₁ idx val) ≡ length buf₁ = length-set buf₁ idx val in
      let u = push-ok s₄ val (omega arith) in
      let slot : slot_of s₃ address ≡ some idx =
        slot_of-slot_address s₃ idx (omega arith) (omega arith) in
      let stored : store_word rt address val s₃ ≡ ok s₄ =
        store_word-slot s₃ rt address idx val slot w in
      rw (push-ok s address room) (rw (p) (rw (even) (rw (q) (rw (stored) (rw (u, back) refl)))))

  live_agrees :
      (idx val i : ℕ)
      → s.size < length s.buf
      → idx < length s.buf
      → i < s.size
      → get_elem? (set (set (set s.buf s.size (slot_address s idx)) idx val) (s.size - 1) val) i
        ≡ get_elem? (set (set s.buf idx val) (s.size - 1) val) i
  live_agrees idx val i room l h =
      let buf₁ : List ℕ = set s.buf s.size (slot_address s idx) in
      let n : length buf₁ ≡ length s.buf = length-set s.buf s.size (slot_address s idx) in
      let m : length (set buf₁ idx val) ≡ length buf₁ = length-set buf₁ idx val in
      let k : length (set s.buf idx val) ≡ length s.buf = length-set s.buf idx val in
      set-agree (set buf₁ idx val) (set s.buf idx val) i (s.size - 1) val (omega arith)
        (omega arith)
        (set-agree buf₁ s.buf i idx val (omega arith) l
          (get_elem?-set_ne s.buf (slot_address s idx) (λ q. absurd (omega arith))))

  store_slot :
      (idx : ℕ) {t : State W}
      → Aligned s
      → (do (val, s₁) ← pop s; s₂ ← write_slot idx val s₁; push val s₂) ≡ ok t
      → (u : State W) × ((push (slot_address s idx) s >>= execute_sti rt) ≡ ok u) × SameLive u t
  store_slot idx a e =
      let room = a.room in
      let (val, g) = get_elem?_of_lt s.buf (s.size - 1) (omega arith) in
      let (z, l, q) = stored s idx val g room e in
      (
        _,
        stored_through idx val g a z l,
        rw (q) (record {
          ip = refl;
          frames = refl;
          size = refl;
          is_tmp_closure = refl;
          file = refl;
          world = refl;
          live = λ i h. live_agrees idx val i room l h;
        }),
      )

-- What ST does behind its operand, which can as well be read first.
abbrev st_slot : {W : Type 0} → ℕ → State W → Result Error (State W)
st_slot idx s = do (val, s₁) ← pop s; s₂ ← write_slot idx val s₁; push val s₂

-- The variables that have instructions of their own and lie in the stack.
pub data Variable : Type 0 where
  global local argument : Variable

unfoldable pub lda : {W : Type 0} → Variable → State W → Result Error (State W)
lda global s = execute_lda_global s
lda local s = execute_lda_local s
lda argument s = execute_lda_argument s

unfoldable pub st : {W : Type 0} → Variable → State W → Result Error (State W)
st global s = execute_st_global s
st local s = execute_st_local s
st argument s = execute_st_argument s

module _ {W : Type 0} (s : State W) {t : State W} where
  -- The slot of a variable, which LDA makes the address of and ST writes to.
  st-lda :
      (v : Variable)
      → st v s ≡ ok t
      → (idx : ℕ) × (lda v s ≡ push (slot_address s idx) (record s { ip = add32 s.ip 4 }))
        × (st_slot idx (record s { ip = add32 s.ip 4 }) ≡ ok t)
  unfolding st lda execute_st_global execute_st_local execute_st_argument execute_lda_global
      execute_lda_local execute_lda_argument pop_next_int32 pop peek read_slot write_slot push
      peek_frame
  st-lda v e = go v (get_int32 s.file (sub32 (add32 s.ip 4) 4)) refl s.frames refl e
    where
      go :
          (v : Variable) (r : Result Error ℕ)
          → get_int32 s.file (sub32 (add32 s.ip 4) 4) ≡ r
          → (fs : List Frame) → s.frames ≡ fs
          → st v s ≡ ok t
          → (idx : ℕ) × (lda v s ≡ push (slot_address s idx) (record s { ip = add32 s.ip 4 }))
            × (st_slot idx (record s { ip = add32 s.ip 4 }) ≡ ok t)
      go global (err x) q fs f e = absurd (ground (q, e, arith))
      go local (err x) q fs f e = absurd (ground (q, e, arith))
      go argument (err x) q fs f e = absurd (ground (q, e, arith))
      go global (ok w) q fs f e = (w, ground (q, arith), ground (q, e, arith))
      go local (ok w) q (frame ∷ fs) f e =
          (local_slot frame w, ground (q, f, arith), ground (q, f, e, arith))
      go local (ok w) q [] f e = absurd (ground (q, f, e, arith))
      go argument (ok w) q (frame ∷ fs) f e =
          (arg_slot frame w, ground (q, f, arith), ground (q, f, e, arith))
      go argument (ok w) q [] f e = absurd (ground (q, f, e, arith))

module _ {W : Type 0} (rt : Runtime W) (s : State W) where
  -- LDA of a variable and then STI do what ST of that variable does with the same value, wherever ST
  -- succeeds: they leave the same registers, frames and live words of the stack. The stack is
  -- aligned to words, ends within 2 ^ 64, and has a place left for the address. The variables are the
  -- globals, and the locals and arguments of the current function.
  pub execute_sti-lda :
      (v : Variable) {t : State W}
      → Aligned s
      → st v s ≡ ok t
      → (u : State W) × ((lda v s >>= execute_sti rt) ≡ ok u) × SameLive u t
  execute_sti-lda v a e =
      let (idx, l, p) = st-lda s v e in
      let b : Aligned (record s { ip = add32 s.ip 4 }) = record {
        base = a.base;
        last = a.last;
        room = a.room;
      } in
      rw (l) (store_slot rt (record s { ip = add32 s.ip 4 }) idx b p)
