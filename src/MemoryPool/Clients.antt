-- ===== src/MemoryPool/Clients.antt =====
-- Threads that register and unregister pools at the same time: Assignment07/src/pool_registry.cpp, one step for
-- each operation on an atomic pointer.
use vm_design.Common.{ℕ, ◌+◌, ◌≡◌, ◌≢◌, List, Option, none, some}
use vm_design.Common.{get_elem?, set, length, replicate}
use vm_design.MemoryPool.Registry.{Registry, new_registry}

-- What a thread does: nothing, the loop of `register_pool` at place `i`, the store of `guard_last` behind it,
-- or it has the pool at place `i`.
pub data Client : Type 0 where
  idle : Client
  tries stores has : ℕ → ℕ → ℕ → Client

pub record System : Type 0 where
  pub registry : Registry
  pub clients : List Client

abbrev pub put : ℕ → Client → System → System
put k c s = record s { clients = set s.clients k c }

abbrev pub set_first : ℕ → ℕ → System → System
set_first i guard_first s = record s {
  registry = record s.registry { guard_firsts = set s.registry.guard_firsts i guard_first };
}

abbrev pub set_last : ℕ → ℕ → System → System
set_last i guard_last s = record s {
  registry = record s.registry { guard_lasts = set s.registry.guard_lasts i guard_last };
}

-- Threads without pools.
abbrev pub new_system : ℕ → System
new_system threads = record { registry = new_registry; clients = replicate threads idle }

-- A step of thread `k`.
pub data Step : System → System → Type 0 where
  start :
      (s : System) (k guard_first guard_last : ℕ)
      → get_elem? s.clients k ≡ some idle
      → guard_first ≢ 0
      → Step s (put k (tries 0 guard_first guard_last) s)
  -- `compare_exchange_strong` has found a null pointer, or another one.
  exchange :
      (s : System) (k i guard_first guard_last : ℕ)
      → get_elem? s.clients k ≡ some (tries i guard_first guard_last)
      → get_elem? s.registry.guard_firsts i ≡ some 0
      → Step s (put k (stores i guard_first guard_last) (set_first i guard_first s))
  next_place :
      (s : System) (k i guard_first guard_last other : ℕ)
      → get_elem? s.clients k ≡ some (tries i guard_first guard_last)
      → get_elem? s.registry.guard_firsts i ≡ some other
      → other ≢ 0
      → Step s (put k (tries (i + 1) guard_first guard_last) s)
  store_last :
      (s : System) (k i guard_first guard_last : ℕ)
      → get_elem? s.clients k ≡ some (stores i guard_first guard_last)
      → Step s (put k (has i guard_first guard_last) (set_last i guard_last s))
  unregister :
      (s : System) (k i guard_first guard_last : ℕ)
      → get_elem? s.clients k ≡ some (has i guard_first guard_last)
      → Step s (put k idle (set_first i 0 s))

pub data Reach (s : System) : System → Type 0 where
  here : Reach s s
  step : {t u : System} → Reach s t → Step t u → Reach s u

-- The place that a thread has taken.
abbrev pub place : Client → Option ℕ
place (stores i guard_first guard_last) = some i
place (has i guard_first guard_last) = some i
place _ = none

-- What the registry has at the place of a thread.
abbrev pub Placed : Registry → Client → Type 0
Placed r idle = Unit
Placed r (tries i guard_first guard_last) = guard_first ≢ 0
Placed r (stores i guard_first guard_last) =
    (guard_first ≢ 0) × (get_elem? r.guard_firsts i ≡ some guard_first)
Placed r (has i guard_first guard_last) =
    (guard_first ≢ 0)
    × (get_elem? r.guard_firsts i ≡ some guard_first)
    × (get_elem? r.guard_lasts i ≡ some guard_last)

-- Every thread's pool is in its place, and no two threads have the same.
pub record Fine (s : System) : Type 0 where
  pub lengths : length s.registry.guard_firsts ≡ length s.registry.guard_lasts
  pub placed : (k : ℕ) (c : Client) → get_elem? s.clients k ≡ some c → Placed s.registry c
  pub alone :
      (k l : ℕ) (c d : Client) (i : ℕ)
      → get_elem? s.clients k ≡ some c
      → get_elem? s.clients l ≡ some d
      → place c ≡ some i
      → place d ≡ some i
      → k ≡ l
