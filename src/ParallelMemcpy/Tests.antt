-- ===== src/ParallelMemcpy/Tests.antt =====
-- A copy of 7 bytes by three threads, with pages of two bytes.
use vm_design.Common.{◌⊎◌}
use vm_design.Common.{◌*◌, ◌+◌, ◌≡◌, ◌≤◌, ◌<◌, refl, arith, List, [], ◌∷◌, ok}
use vm_design.ParallelMemcpy.{Memory, Plan, plan, clamp, Part, run_part, memcpy_chunk}
use vm_design.ParallelMemcpy.{start}
use vm_design.ParallelMemcpy.Caller.{
  Call, submitted, counted, waits, returned, Step, Run, begins, goes, wakes,
}
use vm_design.ParallelMemcpy.Returns.{parallel_memcpy-returns}
use vm_design.ParallelMemcpy.Delivers.{parallel_memcpy-delivers}
use vm_design.ParallelMemcpy.Chunks.{plan-bounds}

abbrev seven : Plan
seven = record { tasks_cnt = 2; chunk_size = 2; tail_offset = 4; tail_size = 3 }

seven-plan : plan 2 3 7 ≡ ok seven
unfolding plan clamp
seven-plan = refl

plan-bounds_example : (2 ≤ 3) × ((2 ≤ seven.chunk_size) ⊎ ((7 < 2) × (seven.tasks_cnt ≡ 3)))
plan-bounds_example = plan-bounds 2 3 7 (omega arith) (omega arith) seven-plan

abbrev source : Memory
source a = a + 10

abbrev zeros : Memory
zeros a = 0

abbrev order : List Part
order = Part.task 1 ∷ Part.tail ∷ Part.task 0 ∷ []

-- The caller copies its part and sleeps, is woken for nothing, and sleeps again; then task 1 has run.
abbrev asleep : Call
asleep = record {
  copying =
      run_part source seven (Part.task 1) (run_part source seven Part.tail (start seven zeros));
  caller = waits;
  tasks = submitted ∷ counted ∷ [];
}

asleep-Run : Run source seven zeros 4 1 asleep
unfolding run_part memcpy_chunk
asleep-Run =
    goes
      (goes
        (wakes (goes (goes begins (Step.copies_tail refl)) (Step.sleeps refl (omega arith))) refl)
        (Step.sleeps refl (omega arith)))
      (Step.runs 1 refl)

parallel_memcpy-returns_example :
    (4 ≤ 3 * seven.tasks_cnt + 3 + 1)
    × ((asleep.caller ≡ returned) ⊎ ((t : Call) × Step source seven asleep t))
parallel_memcpy-returns_example =
    parallel_memcpy-returns 2 3 7 4 1 source zeros (omega arith) (omega arith) seven-plan asleep-Run

-- The caller copies its part first, both tasks are run, and the caller is back before they notify it.
abbrev delivered : Call
delivered = record {
  copying =
      run_part source seven (Part.task 0)
        (run_part source seven (Part.task 1) (run_part source seven Part.tail (start seven zeros)));
  caller = returned;
  tasks = counted ∷ counted ∷ [];
}

delivered-Run : Run source seven zeros 4 0 delivered
unfolding run_part memcpy_chunk
delivered-Run =
    goes (goes (goes (goes begins (Step.copies_tail refl)) (Step.runs 1 refl)) (Step.runs 0 refl))
      (Step.leaves refl refl)

parallel_memcpy-delivers_example : delivered.copying.dst 3 ≡ 13
parallel_memcpy-delivers_example =
    parallel_memcpy-delivers 2 3 7 4 0 source zeros (omega arith) (omega arith) seven-plan
      delivered-Run refl 3
