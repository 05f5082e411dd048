-- ===== src/ParallelMemcpy.antt =====
-- Assignment10/src/parallel_memcpy.cpp: a copy that is cut into chunks for the workers of a thread pool
-- and a tail for the caller. A block of memory is a function from offsets to bytes; source and
-- destination do not overlap.
pub mod Chunks
pub mod Copies
pub mod Caller
pub mod Returns
pub mod Delivers
mod Tests
use vm_design.Common.{
  ℕ, zero, suc, ◌+◌, ◌*◌, ◌/◌, ◌%◌, ◌^◌, List, [], ◌∷◌, Bool, ◌&&◌, ◌==◌, ltb, leb, if◌then◌else◌,
}
use vm_design.Common.{Result, ok, err, guard, not, ◌>>◌, ◌>>=◌}
use vm_design.Common.Words.{sub64, add64}
use vm_design.Error.{Error, undefined}
use vm_design.ThreadPool.{System, new_system}

abbrev pub Memory : Type 0
Memory = ℕ → ℕ

-- `std::copy_n(src + first, count, dst + first)`
unfoldable pub copy_n : Memory → ℕ → ℕ → Memory → Memory
copy_n src first count dst a = if leb first a && ltb a (first + count) then src a else dst a

-- `std::clamp`
unfoldable pub clamp : ℕ → ℕ → ℕ → ℕ
clamp v lo hi = if ltb v lo then lo else (if ltb hi v then hi else v)

-- How a copy of `size` bytes is cut, with the number `remaining_tasks_cnt` starts from.
pub record Plan : Type 0 where
  pub tasks_cnt : ℕ
  pub chunk_size : ℕ
  pub tail_offset : ℕ
  pub tail_size : ℕ

-- A page of no bytes, or 2 ^ 64 - 1 tasks, make a division by 0.
unfoldable pub plan : ℕ → ℕ → ℕ → Result Error Plan
unfolding clamp
plan pagesize current_threads_cnt size = do
  guard (not (pagesize == 0)) undefined
  let tasks_cnt = clamp (sub64 (size / pagesize) 1) 0 current_threads_cnt
  guard (not (add64 tasks_cnt 1 == 0)) undefined
  let chunk_size = size / add64 tasks_cnt 1
  let tail_offset = chunk_size * tasks_cnt % 2 ^ 64
  ok (record {
    tasks_cnt = tasks_cnt;
    chunk_size = chunk_size;
    tail_offset = tail_offset;
    tail_size = sub64 size tail_offset;
  })

-- The pool for `threads_cnt` threads, with as many places for actions.
unfoldable pub initialize_thread_pool : {A : Type 0} → A → ℕ → System A
initialize_thread_pool initial threads_cnt = new_system initial threads_cnt threads_cnt

-- What the threads change: the destination and `remaining_tasks_cnt`.
pub record Copying : Type 0 where
  pub dst : Memory
  pub remaining_tasks_cnt : ℕ

-- A task that was submitted, or what the caller copies itself.
pub data Part : Type 0 where
  task : ℕ → Part
  tail : Part

-- Up to the end of the block with the mutex; `notify_one` is a step of Caller.
unfoldable pub memcpy_chunk : Memory → ℕ → ℕ → Copying → Copying
unfolding copy_n
memcpy_chunk src offset size c = record {
  dst = copy_n src offset size c.dst;
  remaining_tasks_cnt = sub64 c.remaining_tasks_cnt 1;
}

unfoldable pub run_part : Memory → Plan → Part → Copying → Copying
unfolding memcpy_chunk copy_n
run_part src p (Part.task i) c = memcpy_chunk src (i * p.chunk_size % 2 ^ 64) p.chunk_size c
run_part src p Part.tail c = record c { dst = copy_n src p.tail_offset p.tail_size c.dst }

-- The parts in the order in which the threads come to them; that the caller waits for them is in Caller.
unfoldable pub run_parts : Memory → Plan → List Part → Copying → Copying
run_parts src p [] c = c
run_parts src p (x ∷ xs) c = run_parts src p xs (run_part src p x c)

-- The tasks from the one before `n` down, and the tail: what there is to do.
abbrev pub tasks_below : ℕ → List Part
tasks_below zero = []
tasks_below (suc n) = Part.task n ∷ tasks_below n

abbrev pub parts : Plan → List Part
parts p = Part.tail ∷ tasks_below p.tasks_cnt

-- `parallel_memcpy` before its first task.
abbrev pub start : Plan → Memory → Copying
start p dst = record { dst = dst; remaining_tasks_cnt = p.tasks_cnt }
