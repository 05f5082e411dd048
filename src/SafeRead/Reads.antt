-- ===== src/SafeRead/Reads.antt =====
-- What a guarded read returns and leaves behind.
use vm_design.Common.{
  arith, ℕ, ◌<◌, ◌^◌, ◌≡◌, refl, Bool, true, false, Option, none, some, ltb, if◌then◌else◌,
}
use vm_design.SafeRead.{
  sig_handler, Signal, Machine, Process, Access, byte, fault, handle, is_canonical, install,
  restore, guarded_read, read_and_restore, safe_read_uint8,
}

-- The byte at a canonical address that can be read.
abbrev pub readable : Machine → ℕ → Option ℕ
readable m ptr =
    if ltb ptr (2 ^ 48)
    then (elim (m.access ptr) [ byte b ↦ some b | fault sig a ↦ none ])
    else none

is_canonical_lt : (addr : ℕ) → addr < 2 ^ 64 → is_canonical addr ≡ ltb addr (2 ^ 48)
unfolding is_canonical
is_canonical_lt addr h = ground arith

-- The process where nothing but the static variables has changed.
abbrev pub remembered : ℕ → Process → Process
remembered ptr p = record p {
  prev_sigbus_handler = p.on_sigbus;
  prev_sigsegv_handler = p.on_sigsegv;
  saved_ptr = some ptr;
}

guarded_read-readable :
    (m : Machine) (ptr : ℕ) (p : Process)
    → p.saved_ptr ≡ some ptr
    → ((sig : Signal) (a : ℕ) → m.access ptr ≡ fault sig a → a ≡ ptr)
    → guarded_read m ptr p ≡ some (elim (m.access ptr) [ byte b ↦ some b | fault sig a ↦ none ])
unfolding guarded_read handle
guarded_read-readable m ptr p e at = go (m.access ptr) refl
  where
    go :
        (x : Access)
        → m.access ptr ≡ x
        → guarded_read m ptr p ≡ some (elim (m.access ptr) [ byte b ↦ some b | fault sig a ↦ none ])
    go (byte b) q = ground (q, arith)
    go (fault sig a) q = let z : a ≡ ptr = at sig a q in ground (q, z, e, arith)

module _ (m : Machine) (p : Process) where
  install-good :
      ((call : ℕ) → m.fails call ≡ false)
      → install m p ≡ (
        true,
        record p {
          on_sigbus = sig_handler;
          on_sigsegv = sig_handler;
          prev_sigbus_handler = p.on_sigbus;
          prev_sigsegv_handler = p.on_sigsegv;
        },
      )
  unfolding install
  install-good good = rw (good 0, good 1) refl

  restore-good :
      ((call : ℕ) → m.fails call ≡ false)
      → restore m p ≡ (
        true,
        record p { on_sigbus = p.prev_sigbus_handler; on_sigsegv = p.prev_sigsegv_handler },
      )
  unfolding restore
  restore-good good = rw (good 2, good 3) refl

  read_and_restore-good :
      (ptr : ℕ) {result : Option ℕ}
      → ((call : ℕ) → m.fails call ≡ false)
      → guarded_read m ptr p ≡ some result
      → read_and_restore m ptr p
        ≡ some (
          result,
          record p { on_sigbus = p.prev_sigbus_handler; on_sigsegv = p.prev_sigsegv_handler },
        )
  unfolding read_and_restore
  read_and_restore-good ptr good e = rw (e, read_and_restore) (rw (restore-good good) refl)

-- Where a bad read at `ptr` is signalled with that address, and all calls of sigaction succeed, the function
-- returns: the byte, where the address is below 2 ^ 48 and can be read, and `none` otherwise. Both signals
-- then have the actions that they had before.
pub safe_read-readable :
    (m : Machine) (ptr : ℕ) (p : Process)
    → ptr < 2 ^ 64
    → ((sig : Signal) (a : ℕ) → m.access ptr ≡ fault sig a → a ≡ ptr)
    → ((call : ℕ) → m.fails call ≡ false)
    → safe_read_uint8 m ptr p
      ≡ some (readable m ptr, if ltb ptr (2 ^ 48) then remembered ptr p else p)
unfolding safe_read_uint8
safe_read-readable m ptr p l at good = go (ltb ptr (2 ^ 48)) refl
  where
    go :
        (b : Bool)
        → ltb ptr (2 ^ 48) ≡ b
        → safe_read_uint8 m ptr p
          ≡ some (readable m ptr, if ltb ptr (2 ^ 48) then remembered ptr p else p)
    go false q = rw (is_canonical_lt ptr l, q) refl
    go true q =
        let p₂ : Process = record (remembered ptr p) {
          on_sigbus = sig_handler;
          on_sigsegv = sig_handler;
        } in
        rw (is_canonical_lt ptr l, q, install-good m p good)
          (read_and_restore-good m p₂ ptr good (guarded_read-readable m ptr p₂ refl at))
