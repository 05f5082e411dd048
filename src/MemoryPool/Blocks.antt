-- ===== src/MemoryPool/Blocks.antt =====
-- Where the blocks of a pool lie, and where the first one lies that does not fit.
use native.Mathlib.Nat.{lt-div-mul-add, div-mul-le_self}
use vm_design.Common.{
  ◌⊎◌, inl, inr, leb, Bool-cases, sum, ℕ, ◌+◌, ◌-◌, ◌^◌, ◌<◌, ◌≤◌, ◌≡◌, refl, arith, List, [], ◌∷◌,
}
use vm_design.Common.Words.{add64, sub64}
use vm_design.MemoryPool.{
  Pool, next_pagesize, guard_size, total_size_of, new_pool, allocate, allocate_all,
}

-- The blocks, a pointer and a size each, fill what is between two addresses, one behind the other.
abbrev pub Stacked : ℕ → ℕ → List (ℕ × ℕ) → Type 0
Stacked low high [] = low ≡ high
Stacked low high ((ptr, size) ∷ blocks) = (ptr ≡ low) × Stacked (ptr + size) high blocks

abbrev pub number : ℕ → ℕ
number n = n

next_pagesize-ge :
    (pagesize size : ℕ)
    → 0 < pagesize
    → size + pagesize < 2 ^ 63
    → (size ≤ next_pagesize pagesize size) × (next_pagesize pagesize size < 2 ^ 63)
unfolding next_pagesize
next_pagesize-ge pagesize size z l =
    let e : sub64 (add64 size pagesize) 1 ≡ size + pagesize - 1 = omega arith in
    let h = lt-div-mul-add {a = size + pagesize - 1} z in
    let k = div-mul-le_self (size + pagesize - 1) pagesize in rw e (omega arith, omega arith)

allocate_all-Stacked :
    (sizes : List ℕ) (p : Pool)
    → sum number sizes ≤ p.first_free
    → p.first_free < 2 ^ 64
    → Stacked (allocate_all sizes p).1.first_free p.first_free (allocate_all sizes p).0
      × ((allocate_all sizes p).1.first_free ≡ p.first_free - sum number sizes)
unfolding allocate_all allocate
allocate_all-Stacked [] p h l = (refl, omega arith)
allocate_all-Stacked (size ∷ sizes) p h l =
    let (s, e) = allocate_all-Stacked sizes p (omega arith) l in
    let f = (allocate_all sizes p).1.first_free in
    let d : sub64 f size + size ≡ f = omega arith in ((refl, rw d s), omega arith)

new_pool-region :
    (pagesize base capacity max_chunk_size : ℕ)
    → 0 < pagesize
    → capacity + pagesize < 2 ^ 63
    → max_chunk_size + pagesize < 2 ^ 63
    → base + total_size_of pagesize capacity max_chunk_size < 2 ^ 64
    → ((new_pool pagesize base capacity max_chunk_size).first_free
        ≡ base + guard_size pagesize max_chunk_size + next_pagesize pagesize capacity)
      × (base + guard_size pagesize max_chunk_size + next_pagesize pagesize capacity < 2 ^ 64)
      × (capacity ≤ next_pagesize pagesize capacity)
      × (max_chunk_size ≤ guard_size pagesize max_chunk_size)
unfolding new_pool total_size_of guard_size
new_pool-region pagesize base capacity max_chunk_size z l m n =
    let (a, b) = next_pagesize-ge pagesize capacity z l in
    let (c, d) = next_pagesize-ge pagesize max_chunk_size z m in (omega arith, omega arith, a, c)

le_or_lt : (a b : ℕ) → (a ≤ b) ⊎ (b < a)
le_or_lt a b = elim (Bool-cases (leb a b)) [
  | inl e ↦ inl (ground arith)
  | inr e ↦ inr (ground arith)
]

-- For a region of whole pages below 2 ^ 64 and sizes that leave room for the rounding: a sequence of
-- allocations of no more bytes in all than the capacity, rounded up to pages, gets blocks that fill the
-- end of the region without gap or overlap and stay clear of the guard pages. The next allocation of at
-- most `max_chunk_size` bytes gets a block below those that is clear of the guard pages as well, or one
-- that starts in them.
pub allocate_all-guarded :
    (pagesize base capacity max_chunk_size : ℕ) (sizes : List ℕ) (size : ℕ)
    → 0 < pagesize
    → capacity + pagesize < 2 ^ 63
    → max_chunk_size + pagesize < 2 ^ 63
    → base + total_size_of pagesize capacity max_chunk_size < 2 ^ 64
    → sum number sizes ≤ next_pagesize pagesize capacity
    → size ≤ max_chunk_size
    → let p = new_pool pagesize base capacity max_chunk_size in
      let q = (allocate_all sizes p).1 in
      let ptr = (allocate size q).0 in
      let guard_last = base + guard_size pagesize max_chunk_size in
      Stacked q.first_free p.first_free (allocate_all sizes p).0
      × (guard_last ≤ q.first_free)
      × (((guard_last ≤ ptr) × (ptr + size ≡ q.first_free)) ⊎ ((base ≤ ptr) × (ptr < guard_last)))
unfolding allocate
allocate_all-guarded pagesize base capacity max_chunk_size sizes size z l m n h c =
    let p = new_pool pagesize base capacity max_chunk_size in
    let q = (allocate_all sizes p).1 in
    let (f, b, _, g) = new_pool-region pagesize base capacity max_chunk_size z l m n in
    let (s, e) = allocate_all-Stacked sizes p (omega arith) (omega arith) in
    let d : sub64 q.first_free size ≡ q.first_free - size = omega arith in
    (
      s,
      omega arith,
      elim (le_or_lt (base + guard_size pagesize max_chunk_size) (q.first_free - size)) [
        | inl o ↦ inl (rw d (o, omega arith))
        | inr o ↦ inr (rw d (omega arith, o))
      ],
    )
