-- ===== src/Interpreter/Machine.antt =====
-- `class state`, `class frame` and `class stack`: Assignment04/src/stack.h, lines 95 to 229, and the
-- parts of interpreter.h and interpreter.cpp that the handlers of the instructions are made of.
use vm_design.Common.{ℕ, ◌+◌, ◌-◌, ◌*◌, ◌/◌, ◌%◌, ◌^◌, List, [], ◌∷◌, ◌++◌, Bool}
use vm_design.Common.{◌&&◌, Option, none, some, Result, ok, err, ◌>>=◌, ◌>>◌, guard, require}
use vm_design.Common.{get_elem?, set, length, take, drop, ltb, leb, ◌==◌, if◌then◌else◌}
use vm_design.Common.Words.{add32, sub32}
use vm_design.Bytecode.{Bytecode, Varspec}
use vm_design.Bytefile.{Bytefile, get_code, get_varspec, get_int32}
use vm_design.Error
use vm_design.Error.{Error, Message, failure, undefined}
use vm_design.Interpreter.Runtime.{Runtime, Allocated}

abbrev pub max_frames_size : ℕ
max_frames_size = 0xFFFF

pub record Frame : Type 0 where
  pub base : ℕ
  pub locals_size : ℕ
  pub args_size : ℕ
  pub is_frame_closure : Bool
  pub return_address : ℕ

-- `buf` is `stack_buf`, of which the first `size` words are live; `stack_base` is its address. The
-- frames have the current one first.
pub record State (World : Type 0) : Type 0 where
  pub ip : ℕ
  pub frames : List Frame
  pub buf : List ℕ
  pub size : ℕ
  pub stack_base : ℕ
  pub is_tmp_closure : Bool
  pub file : Bytefile
  pub world : World

-- Where `frame` keeps its local, its argument, and its closure: indices of the stack.
abbrev pub local_slot : Frame → ℕ → ℕ
local_slot frame pos = add32 frame.base pos

abbrev pub arg_slot : Frame → ℕ → ℕ
arg_slot frame pos = add32 (sub32 frame.base frame.args_size) pos

abbrev pub closure_slot : Frame → ℕ
closure_slot frame = sub32 (sub32 frame.base frame.args_size) 1

module _ {W : Type 0} where
  abbrev pub validate : State W → Bool → Message → Result Error (Unit {0})
  validate s condition message = guard condition (failure message s.ip)

  -- `stack_[idx]`, inside `stack_buf`.
  unfoldable pub read_slot : State W → ℕ → Result Error ℕ
  read_slot s idx = require (get_elem? s.buf idx) undefined

  unfoldable pub write_slot : ℕ → ℕ → State W → Result Error (State W)
  write_slot idx val s =
      if ltb idx (length s.buf) then ok (record s { buf = set s.buf idx val }) else err undefined

  -- `stack_.top(offset)`
  unfoldable pub peek : ℕ → State W → Result Error ℕ
  unfolding read_slot
  peek offset s = if ltb offset s.size then read_slot s (s.size - offset - 1) else err undefined

  unfoldable pub push : ℕ → State W → Result Error (State W)
  unfolding write_slot
  push val s = write_slot s.size val (record s { size = s.size + 1 })

  unfoldable pub pop : State W → Result Error (ℕ × State W)
  unfolding peek
  pop s = do val ← peek 0 s; ok (val, record s { size = s.size - 1 })

  unfoldable pub pop_count : ℕ → State W → Result Error (State W)
  pop_count count s =
      if leb count s.size then ok (record s { size = s.size - count }) else err undefined

  -- `count` words from `idx` on, a span of `stack_buf`.
  unfoldable pub span : ℕ → ℕ → State W → Result Error (List ℕ)
  span idx count s =
      if leb (idx + count) (length s.buf) then ok (take count (drop idx s.buf)) else err undefined

  unfoldable pub peek_current_op : State W → Result Error Bytecode
  peek_current_op s = get_code s.file (sub32 s.ip 1)

  unfoldable pub peek_next_op : State W → Result Error Bytecode
  peek_next_op s = get_code s.file s.ip

  unfoldable pub pop_next_op : State W → Result Error (Bytecode × State W)
  pop_next_op s = do
    op ← get_code s.file (sub32 (add32 s.ip 1) 1)
    ok (op, record s { ip = add32 s.ip 1 })

  unfoldable pub pop_next_varspec : State W → Result Error (Varspec × State W)
  pop_next_varspec s = do
    spec ← get_varspec s.file (sub32 (add32 s.ip 1) 1)
    ok (spec, record s { ip = add32 s.ip 1 })

  -- `pop_next_int32<false>` and `pop_next_int32<true>`
  unfoldable pub pop_next_int32 : State W → Result Error (ℕ × State W)
  pop_next_int32 s = do
    w ← get_int32 s.file (sub32 (add32 s.ip 4) 4)
    ok (w, record s { ip = add32 s.ip 4 })

  unfoldable pub pop_next_int32_validated : State W → Result Error (ℕ × State W)
  pop_next_int32_validated s = do
    let s₁ = record s { ip = add32 s.ip 4 }
    validate s₁ (ltb s₁.ip s₁.file.code_size) Error.unexpected_end_of_code
    w ← get_int32 s₁.file (sub32 s₁.ip 4)
    ok (w, s₁)

  -- `frames_.back()`
  unfoldable pub peek_frame : State W → Result Error Frame
  peek_frame s = elim s.frames [ [] ↦ err undefined | frame ∷ rest ↦ ok frame ]

  unfoldable pub push_frame : Frame → State W → Result Error (State W)
  push_frame frame s = do
    validate s (leb (length s.frames + 1) max_frames_size) Error.frames_overflow
    ok (record s { frames = frame ∷ s.frames })

  unfoldable pub pop_frame : State W → Result Error (Frame × State W)
  pop_frame s = elim s.frames [
    | [] ↦ err (failure Error.frames_underflow s.ip)
    | frame ∷ rest ↦ ok (frame, record s { frames = rest })
  ]

  -- `peek_frame().set_return_address(ip_)`
  unfoldable pub set_return_address : State W → Result Error (State W)
  set_return_address s = elim s.frames [
    | [] ↦ err undefined
    | frame ∷ rest ↦ ok (record s { frames = record frame { return_address = s.ip } ∷ rest })
  ]

  -- The address of a slot, `&stack_[idx]`.
  abbrev pub slot_address : State W → ℕ → ℕ
  slot_address s idx = (s.stack_base + 8 * idx) % 2 ^ 64

  -- The slot that an address names, if it names one.
  abbrev pub slot_of : State W → ℕ → Option ℕ
  slot_of s address =
      if leb s.stack_base address
        && ltb address (s.stack_base + 8 * length s.buf)
        && ((address - s.stack_base) % 8 == 0)
      then some ((address - s.stack_base) / 8)
      else none

  -- An allocation of the runtime, which may move objects: the live words of the stack are its roots.
  unfoldable pub allocate : (List ℕ → W → Allocated W) → State W → ℕ × State W
  allocate call s =
      let r = call (take s.size s.buf) s.world in
      (r.object, record s { buf = r.roots ++ drop s.size s.buf; world = r.world })

module _ {W : Type 0} (rt : Runtime W) where
  -- `*address_ref = val`
  unfoldable pub store_word : ℕ → ℕ → State W → Result Error (State W)
  unfolding write_slot
  store_word address val s = elim (slot_of s address) [
    | some idx ↦ write_slot idx val s
    | none ↦ do
      world ← require (rt.store address val s.world) undefined
      ok (record s { world = world })
  ]
