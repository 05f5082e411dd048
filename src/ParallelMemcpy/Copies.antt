-- ===== src/ParallelMemcpy/Copies.antt =====
-- What the destination holds when the tasks are through, in whatever order they were.
use native.Mathlib.Nat.{mod-eq_of_lt, suc-mul, zero-mul, mul_comm}
use vm_design.Common.{sum}
use vm_design.Common.{ℕ, zero, suc, ◌+◌, ◌*◌, ◌%◌, ◌^◌, ◌<◌, ◌≡◌, ◌∙◌, ap, arith, List}
use vm_design.Common.{◌&&◌, ltb, leb, if◌then◌else◌}
use vm_design.ParallelMemcpy.{Memory, Plan, Part, Copying, copy_n, memcpy_chunk, run_part}
use vm_design.ParallelMemcpy.{parts, tasks_below}
use vm_design.ParallelMemcpy.Chunks.{Cuts}

-- Whether a part copies the byte at `a`, whether it is a task and whether it is the tail, as 1 or 0.
abbrev pub covers : Plan → ℕ → Part → ℕ
covers p a (Part.task i) =
    if leb (i * p.chunk_size % 2 ^ 64) a && ltb a (i * p.chunk_size % 2 ^ 64 + p.chunk_size)
    then 1
    else 0
covers p a Part.tail = if leb p.tail_offset a && ltb a (p.tail_offset + p.tail_size) then 1 else 0

abbrev is_task : Part → ℕ
is_task (Part.task i) = 1
is_task Part.tail = 0

abbrev is_tail : Part → ℕ
is_tail Part.tail = 1
is_tail (Part.task i) = 0

-- The tasks and the tails that are run.
abbrev pub tasks : List Part → ℕ
tasks xs = sum is_task xs

abbrev pub tails : List Part → ℕ
tails xs = sum is_tail xs

pub run_part-dst :
    (src : Memory) (p : Plan) (x : Part) (c : Copying) (a : ℕ)
    → (run_part src p x c).dst a ≡ (if ltb 0 (covers p a x) then src a else c.dst a)
unfolding run_part memcpy_chunk copy_n
run_part-dst src p (Part.task i) c a = ground arith
run_part-dst src p Part.tail c a = ground arith

one_more :
    (u c a s : ℕ)
    → ltb 0 s ≡ ltb a u
    → ltb 0 ((if leb u a && ltb a (u + c) then 1 else 0) + s) ≡ ltb a (u + c)
one_more u c a s e = ground arith

-- The chunks in front of `n` copy what is below the end of the last of them.
tasks_below-covers :
    (p : Plan) (a n : ℕ)
    → n * p.chunk_size < 2 ^ 64
    → ltb 0 (sum (covers p a) (tasks_below n)) ≡ ltb a (n * p.chunk_size)
tasks_below-covers p a zero l = rw (zero-mul p.chunk_size) (ground arith)
tasks_below-covers p a (suc n) l =
    let d = suc-mul n p.chunk_size in
    let m : n * p.chunk_size % 2 ^ 64 ≡ n * p.chunk_size = mod-eq_of_lt (omega arith) in
    let h = tasks_below-covers p a n (omega arith) in
    rw (m, d) (one_more (n * p.chunk_size) p.chunk_size a (sum (covers p a) (tasks_below n)) h)

-- All parts together copy what is below the size.
pub parts-covers :
    {size : ℕ} (p : Plan) (a : ℕ) → Cuts size p → ltb 0 (sum (covers p a) (parts p)) ≡ ltb a size
parts-covers {size} p a c =
    let o = c.offset in
    let r = c.rest in
    let f = c.fits in
    let m = mul_comm p.chunk_size p.tasks_cnt in
    let h = tasks_below-covers p a p.tasks_cnt (omega arith) in
    let k : p.tasks_cnt * p.chunk_size ≡ p.tail_offset = omega arith in
    rw (← r) (
      one_more p.tail_offset p.tail_size a (sum (covers p a) (tasks_below p.tasks_cnt))
        (h ∙ ap (λ u. ltb a u) k))
