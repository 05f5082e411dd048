-- ===== src/ParallelMemcpy/Caller.antt =====
-- How the caller of parallel_memcpy waits for the tasks: Assignment10/src/parallel_memcpy.cpp, lines 21 to 28 and
-- 42 to 54. What a thread does with the mutex is one step; `notify_one` is a step of its own.
use vm_design.Common.{ℕ, ◌+◌, ◌<◌, ◌≡◌, List, some, get_elem?, set, replicate}
use vm_design.ParallelMemcpy.{Memory, Plan, Part, Copying, run_part, start}

-- A task that was submitted and has not been run; one that has counted itself, before its `notify_one`; one
-- that is at its end.
pub data Task : Type 0 where
  submitted counted over : Task

-- The caller: before the copy of its own part, before the test of its loop, for which it has or takes the
-- mutex, asleep in `cond.wait`, or back.
pub data Caller : Type 0 where
  copies tests waits returned : Caller

pub record Call : Type 0 where
  pub copying : Copying
  pub caller : Caller
  pub tasks : List Task

-- What `notify_one` does to the caller.
abbrev pub wake : Caller → Caller
wake Caller.waits = Caller.tests
wake c = c

module _ (src : Memory) (p : Plan) where
  -- The steps of the tasks and of the caller; the pool runs the tasks in any order.
  pub data Step (s : Call) : Call → Type 0 where
    runs :
        (i : ℕ)
        → get_elem? s.tasks i ≡ some Task.submitted
        → Step s (record s {
          copying = run_part src p (Part.task i) s.copying;
          tasks = set s.tasks i Task.counted;
        })
    notifies :
        (i : ℕ)
        → get_elem? s.tasks i ≡ some Task.counted
        → Step s (record s { caller = wake s.caller; tasks = set s.tasks i Task.over })
    copies_tail :
        s.caller ≡ Caller.copies
        → Step s (record s { copying = run_part src p Part.tail s.copying; caller = Caller.tests })
    sleeps :
        s.caller ≡ Caller.tests
        → 0 < s.copying.remaining_tasks_cnt
        → Step s (record s { caller = Caller.waits })
    leaves :
        s.caller ≡ Caller.tests
        → s.copying.remaining_tasks_cnt ≡ 0
        → Step s (record s { caller = Caller.returned })

  -- Behind the submission of all tasks.
  abbrev pub submitted_all : Memory → Call
  submitted_all dst = record {
    copying = start p dst;
    caller = Caller.copies;
    tasks = replicate p.tasks_cnt Task.submitted;
  }

  -- The states of a call, with the numbers of steps and of spurious wake-ups of the caller so far.
  pub data Run (dst : Memory) : ℕ → ℕ → Call → Type 0 where
    begins : Run dst 0 0 (submitted_all dst)
    goes :
        {n spurious : ℕ} {s t : Call} → Run dst n spurious s → Step s t → Run dst (n + 1) spurious t
    wakes :
        {n spurious : ℕ} {s : Call}
        → Run dst n spurious s
        → s.caller ≡ Caller.waits
        → Run dst n (spurious + 1) (record s { caller = Caller.tests })
