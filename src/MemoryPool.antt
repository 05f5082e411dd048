-- ===== src/MemoryPool.antt =====
-- Assignment06/src/pool.h, pool.cpp and Assignment07/src/pool.h, pool.cpp: pools that give out memory
-- from the end of a region downward, with guard pages at its start. The region that mmap returns and
-- the size of a page are parameters. An allocation is one step: a pool of Assignment07 makes it under a
-- mutex, by one atomic operation, or for its own thread, so a run is a sequence of allocations.
pub mod Blocks
pub mod Registry
pub mod Handler
pub mod Clients
pub mod Places
pub mod Exclusive
mod Tests
use vm_design.Common.{ℕ, ◌*◌, ◌/◌, List, [], ◌∷◌}
use vm_design.Common.Words.{add64, sub64}

-- `(size + pagesize - 1) & ~(pagesize - 1)`, for a page size that is a power of 2
unfoldable pub next_pagesize : ℕ → ℕ → ℕ
next_pagesize pagesize size = sub64 (add64 size pagesize) 1 / pagesize * pagesize

-- `class pool_base` with `first_free_` of the class that inherits from it.
pub record Pool : Type 0 where
  pub total_size : ℕ
  pub base : ℕ
  pub first_free : ℕ

unfoldable pub guard_size : ℕ → ℕ → ℕ
unfolding next_pagesize
guard_size pagesize max_chunk_size = next_pagesize pagesize max_chunk_size

unfoldable pub total_size_of : ℕ → ℕ → ℕ → ℕ
unfolding next_pagesize
total_size_of pagesize capacity max_chunk_size =
    add64 (next_pagesize pagesize capacity) (next_pagesize pagesize max_chunk_size)

-- The constructor, where mmap returns `base`.
unfoldable pub new_pool : ℕ → ℕ → ℕ → ℕ → Pool
unfolding total_size_of
new_pool pagesize base capacity max_chunk_size = record {
  total_size = total_size_of pagesize capacity max_chunk_size;
  base = base;
  first_free = add64 base (total_size_of pagesize capacity max_chunk_size);
}

-- `allocate`: the address that it returns and the pool.
unfoldable pub allocate : ℕ → Pool → ℕ × Pool
allocate size p = (sub64 p.first_free size, record p { first_free = sub64 p.first_free size })

-- The blocks that a sequence of allocations gives out, with their sizes, the last one first.
unfoldable pub allocate_all : List ℕ → Pool → List (ℕ × ℕ) × Pool
allocate_all [] p = ([], p)
allocate_all (size ∷ sizes) p =
    let (blocks, q) = allocate_all sizes p in
    let (ptr, r) = allocate size q in ((ptr, size) ∷ blocks, r)
