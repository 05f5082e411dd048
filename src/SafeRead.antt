-- ===== src/SafeRead.antt =====
-- Assignment09/src/safe_read_uint8.cpp: a byte is read under handlers of SIGBUS and SIGSEGV of its own, so
-- that a bad address gives `none`. What the memory holds and which calls of sigaction fail are parameters.
pub mod Reads
mod Tests
use vm_design.Common.{
  ℕ, ◌*◌, ◌/◌, ◌%◌, ◌^◌, Bool, true, false, not, ◌==◌, Option, none, some, if◌then◌else◌,
}

pub data Signal : Type 0 where
  sigbus sigsegv : Signal

-- What a `struct sigaction` sets up: SIG_DFL, SIG_IGN, `sig_handler` of this file, or another handler.
pub data Action : Type 0 where
  default ignore sig_handler : Action
  other : ℕ → Action

-- The actions of the two signals, and the static variables of the file.
pub record Process : Type 0 where
  pub on_sigbus : Action
  pub on_sigsegv : Action
  pub prev_sigbus_handler : Action
  pub prev_sigsegv_handler : Action
  pub saved_ptr : Option ℕ

-- The answer of the memory to a read: a byte, or a signal with the address in `si_addr`.
pub data Access : Type 0 where
  byte : ℕ → Access
  fault : Signal → ℕ → Access

-- The system that the program runs on: the memory, and whether a call of sigaction fails. The calls of one
-- run are numbered from 0.
pub record Machine : Type 0 where
  pub access : ℕ → Access
  pub fails : ℕ → Bool

-- How the handler is left: by siglongjmp, by the signal's default action, by another handler, never, or by a
-- return, after which the read is tried again.
pub data Left : Type 0 where
  jumps raises returns recurses : Left
  chains : ℕ → Left

-- `sig_handler` that was there before calls itself without end.
unfoldable pub chain : Action → Left
chain Action.default = raises
chain Action.ignore = returns
chain Action.sig_handler = recurses
chain (Action.other h) = chains h

unfoldable pub handle : Signal → ℕ → Process → Left
unfolding chain
handle sig mem_hit p =
    let prev : Action = elim sig [
      | sigbus ↦ p.prev_sigbus_handler
      | sigsegv ↦ p.prev_sigsegv_handler
    ] in
    elim p.saved_ptr [ some ptr ↦ if ptr == mem_hit then jumps else chain prev | none ↦ chain prev ]

-- `((addr << 16) >> 16) == addr`
unfoldable pub is_canonical : ℕ → Bool
is_canonical addr = (addr * 2 ^ 16 % 2 ^ 64 / 2 ^ 16) == addr

-- The two calls in front of the read. The second is not made where the first fails.
unfoldable pub install : Machine → Process → Bool × Process
install m p =
    if m.fails 0
    then (false, p)
    else (let p₁ = record p { on_sigbus = sig_handler; prev_sigbus_handler = p.on_sigbus } in
        if m.fails 1
        then (false, p₁)
        else (true, record p₁ { on_sigsegv = sig_handler; prev_sigsegv_handler = p₁.on_sigsegv }))

unfoldable pub restore : Machine → Process → Bool × Process
restore m p =
    if m.fails 2
    then (false, p)
    else (let p₁ = record p { on_sigbus = p.prev_sigbus_handler } in
        if m.fails 3
        then (false, p₁)
        else (true, record p₁ { on_sigsegv = p₁.prev_sigsegv_handler }))

-- The read between sigsetjmp and the restoring: the result, where the handler jumps back.
unfoldable pub guarded_read : Machine → ℕ → Process → Option (Option ℕ)
unfolding handle
guarded_read m ptr p = elim (m.access ptr) [
  | byte b ↦ some (some b)
  | fault sig mem_hit ↦ elim (handle sig mem_hit p) [ jumps ↦ some none | _ ↦ none ]
]

-- From sigsetjmp on.
unfoldable pub read_and_restore : Machine → ℕ → Process → Option (Option ℕ × Process)
unfolding guarded_read restore
read_and_restore m ptr p = elim (guarded_read m ptr p) [
  | none ↦ none
  | some result ↦ let (restored, p') = restore m p in some (if restored then result else none, p')
]

-- `none` where the handler does not come back to the read.
unfoldable pub safe_read_uint8 : Machine → ℕ → Process → Option (Option ℕ × Process)
unfolding is_canonical install read_and_restore
safe_read_uint8 m ptr p =
    if not (is_canonical ptr)
    then some (none, p)
    else (let (installed, p₁) = install m p in
        if not installed
        then some (none, p₁)
        else read_and_restore m ptr (record p₁ { saved_ptr = some ptr }))
