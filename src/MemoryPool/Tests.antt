-- ===== src/MemoryPool/Tests.antt =====
-- A pool of one page for blocks of at most 8 bytes, with pages of 16, and a registry of three places.
use vm_design.Common.{
  ◌+◌, ◌≡◌, ◌≤◌, ◌<◌, ◌⊎◌, refl, arith, ◌≢◌, ℕ, length, replicate, List, [], ◌∷◌, none, some,
  if◌then◌else◌,
}
use vm_design.MemoryPool.{
  Pool, next_pagesize, guard_size, total_size_of, new_pool, allocate, allocate_all,
}
use vm_design.MemoryPool.Blocks.{Stacked, allocate_all-guarded}
use vm_design.MemoryPool.Handler.{
  count_digits, write_digits, of_decimal, string_pool_id, up_to_zero, of_decimal-string_pool_id,
}
use vm_design.MemoryPool.Clients.{
  System, tries, stores, has, put, set_first, set_last, new_system, start, exchange, next_place,
  store_last, Reach, here, step,
}
use vm_design.MemoryPool.Exclusive.{Reach-find_pool}
use vm_design.MemoryPool.Registry.{
  new_registry, Registry, register_pool, unregister_pool, find_pool, in_guard, free_place,
}
use vm_design.MemoryPool.Registry.{find_from, register_pool-find_pool}

abbrev small : Pool
small = new_pool 16 1024 10 8

-- After 8 and 6 of the 16 bytes, 8 more reach into the guard page.
allocate_all-guarded_example :
    Stacked
      (allocate_all (6 ∷ 8 ∷ []) small).1.first_free
      small.first_free
      (allocate_all (6 ∷ 8 ∷ []) small).0
    × (1024 + guard_size 16 8 ≤ (allocate_all (6 ∷ 8 ∷ []) small).1.first_free)
    × (((1024 + guard_size 16 8 ≤ (allocate 8 (allocate_all (6 ∷ 8 ∷ []) small).1).0)
          × ((allocate 8 (allocate_all (6 ∷ 8 ∷ []) small).1).0 + 8
              ≡ (allocate_all (6 ∷ 8 ∷ []) small).1.first_free))
        ⊎ ((1024 ≤ (allocate 8 (allocate_all (6 ∷ 8 ∷ []) small).1).0)
            × ((allocate 8 (allocate_all (6 ∷ 8 ∷ []) small).1).0 < 1024 + guard_size 16 8)))
unfolding next_pagesize total_size_of
allocate_all-guarded_example =
    allocate_all-guarded 16 1024 10 8 (6 ∷ 8 ∷ []) 8 (omega arith) (omega arith) (omega arith)
      (omega arith) (omega arith) (omega arith)

abbrev one_pool : Registry
one_pool = record { guard_firsts = 64 ∷ 0 ∷ 0 ∷ []; guard_lasts = 80 ∷ 0 ∷ 0 ∷ [] }

abbrev two_pools : Registry
two_pools = record { guard_firsts = 64 ∷ 128 ∷ 0 ∷ []; guard_lasts = 80 ∷ 144 ∷ 0 ∷ [] }

register_pool-find_pool_example :
    (find_pool 130 two_pools ≡ (if in_guard 130 128 144 then some 1 else none))
    × (find_pool 130 (unregister_pool 1 two_pools) ≡ none)
unfolding register_pool free_place find_pool find_from in_guard
register_pool-find_pool_example = register_pool-find_pool 130 128 144 one_pool refl refl refl

-- What an earlier number left in the array.
abbrev filled : List ℕ
filled = replicate 21 57

of_decimal-string_pool_id_example :
    (s : List ℕ) × (string_pool_id 250 filled ≡ some s) × (of_decimal 0 s ≡ 250) × (length s ≤ 20)
of_decimal-string_pool_id_example = of_decimal-string_pool_id 250 filled (omega arith) refl

string_pool_id-250 : string_pool_id 250 filled ≡ some (50 ∷ 53 ∷ 48 ∷ [])
unfolding string_pool_id count_digits write_digits up_to_zero
string_pool_id-250 = refl

-- Two threads that register a pool each, at the same time: the second one finds the first place taken.
abbrev started : System
started = put 1 (tries 0 128 144) (put 0 (tries 0 64 80) (new_system 2))

abbrev first_taken : System
first_taken = put 1 (tries 1 128 144) (put 0 (stores 0 64 80) (set_first 0 64 started))

abbrev both_taken : System
both_taken = put 1 (stores 1 128 144) (set_first 1 128 first_taken)

abbrev registered : System
registered = put 0 (has 0 64 80) (set_last 0 80 (put 1 (has 1 128 144) (set_last 1 144 both_taken)))

registering : Reach (new_system 2) registered
unfolding new_registry
registering =
    step
      (step
        (step
          (step
            (step
              (step (step here (start _ 0 64 80 refl (λ e. absurd (omega arith))))
                (start _ 1 128 144 refl (λ e. absurd (omega arith))))
              (exchange _ 0 0 64 80 refl refl))
            (next_place _ 1 0 128 144 64 refl refl (λ e. absurd (omega arith))))
          (exchange _ 1 1 128 144 refl refl))
        (store_last _ 1 1 128 144 refl))
      (store_last _ 0 0 64 80 refl)

Reach-find_pool_example : (◌≢◌ {A = ℕ} 0 1) × (find_pool 70 registered.registry ≢ none)
unfolding in_guard
Reach-find_pool_example =
    Reach-find_pool 2 70 0 1 0 1 64 80 128 144 registered registering refl refl
      (λ e. absurd (omega arith)) refl
