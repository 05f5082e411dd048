-- ===== src/ParallelMemcpy/Returns.antt =====
-- That the caller of parallel_memcpy comes back.
use vm_design.Common.{sum, sum-set, sum-elem, sum-witness, sum-replicate_eq}
use vm_design.Common.{
  arith, ℕ, zero, suc, ◌+◌, ◌*◌, ◌^◌, ◌<◌, ◌≤◌, ◌≡◌, ◌⊎◌, inl, inr, refl, ◌≢◌, ap, List, [], ◌∷◌,
  ok, some, get_elem?,
}
use vm_design.ParallelMemcpy.{Memory, Plan, plan, memcpy_chunk, run_part}
use vm_design.ParallelMemcpy.Chunks.{plan-Cuts}
use vm_design.ParallelMemcpy.Caller.{
  Task, submitted, counted, over, Caller, copies, tests, waits, returned, Call, wake, Step, Run,
  begins, goes, wakes,
}

-- Whether a task has not been run, and whether it will still notify the caller.
abbrev pub to_run : Task → ℕ
to_run submitted = 1
to_run counted = 0
to_run over = 0

abbrev to_notify : Task → ℕ
to_notify submitted = 1
to_notify counted = 1
to_notify over = 0

-- How many steps are left, the caller's sleep that a task ends included.
abbrev task_rank : Task → ℕ
task_rank submitted = 3
task_rank counted = 2
task_rank over = 0

abbrev caller_rank : Caller → ℕ
caller_rank copies = 3
caller_rank tests = 2
caller_rank waits = 1
caller_rank returned = 0

abbrev rank : Call → ℕ
rank s = caller_rank s.caller + sum task_rank s.tasks

wake-rank : (c : Caller) → caller_rank (wake c) ≤ caller_rank c + 1
wake-rank copies = omega arith
wake-rank tests = omega arith
wake-rank waits = omega arith
wake-rank returned = omega arith

wake-ne-waits : (c : Caller) → wake c ≢ waits
wake-ne-waits copies e = cc
wake-ne-waits tests e = cc
wake-ne-waits waits e = cc
wake-ne-waits returned e = cc

-- The count is that of the tasks that have not been run, and a caller that sleeps will be notified.
pub record Counts (s : Call) : Type 0 where
  pub small : s.copying.remaining_tasks_cnt < 2 ^ 64
  pub count : s.copying.remaining_tasks_cnt ≡ sum to_run s.tasks
  pub heard : s.caller ≡ waits → 0 < sum to_notify s.tasks

to_run-le : (ts : List Task) → sum to_run ts ≤ sum to_notify ts
to_run-le [] = omega arith
to_run-le (submitted ∷ ts) = let h = to_run-le ts in omega arith
to_run-le (counted ∷ ts) = let h = to_run-le ts in omega arith
to_run-le (over ∷ ts) = let h = to_run-le ts in omega arith

module _ (src : Memory) (p : Plan) where
  Step-Counts : {s t : Call} → Step src p s t → Counts s → Counts t × (rank t < rank s)
  unfolding run_part memcpy_chunk
  Step-Counts {s} (Step.runs i e) c =
      let a = sum-set to_run s.tasks i counted e in
      let b = sum-set to_notify s.tasks i counted e in
      let d = sum-set task_rank s.tasks i counted e in
      let q = c.count in
      let l = c.small in
      let m = sum-elem to_run s.tasks i e in
      (
        record {
          small = omega arith;
          count = omega arith;
          heard = λ w. let h = c.heard w in omega arith;
        },
        omega arith,
      )
  Step-Counts {s} (Step.notifies i e) c =
      let a = sum-set to_run s.tasks i over e in
      let d = sum-set task_rank s.tasks i over e in
      let q = c.count in
      let m = wake-rank s.caller in
      (
        record {
          small = c.small;
          count = omega arith;
          heard = λ w. absurd (wake-ne-waits s.caller w);
        },
        omega arith,
      )
  Step-Counts {s} (Step.copies_tail e) c = (
    record { small = c.small; count = c.count; heard = λ w. absurd (cc) },
    let h = ap caller_rank e in omega arith,
  )
  Step-Counts {s} (Step.sleeps e l) c =
      let q = c.count in
      let m = to_run-le s.tasks in
      (
        record { small = c.small; count = c.count; heard = λ w. omega arith },
        let h = ap caller_rank e in omega arith,
      )
  Step-Counts {s} (Step.leaves e l) c = (
    record { small = c.small; count = c.count; heard = λ w. absurd (cc) },
    let h = ap caller_rank e in omega arith,
  )

  -- While the caller is not back, a task or the caller can make a step.
  Counts-moves : (s : Call) → Counts s → (s.caller ≡ returned) ⊎ ((t : Call) × Step src p s t)
  Counts-moves s c = by_caller s.caller refl
    where
      moves :
          (i : ℕ) (t : Task)
          → get_elem? s.tasks i ≡ some t
          → 0 < to_notify t
          → (u : Call) × Step src p s u
      moves i submitted e l = (_, Step.runs i e)
      moves i counted e l = (_, Step.notifies i e)
      moves i over e l = absurd (omega arith)

      by_count :
          (n : ℕ)
          → s.copying.remaining_tasks_cnt ≡ n
          → s.caller ≡ tests
          → (t : Call) × Step src p s t
      by_count zero e w = (_, Step.leaves w e)
      by_count (suc n) e w = (_, Step.sleeps w (omega arith))

      by_caller :
          (w : Caller) → s.caller ≡ w → (s.caller ≡ returned) ⊎ ((t : Call) × Step src p s t)
      by_caller copies e = inr (_, Step.copies_tail e)
      by_caller tests e = inr (by_count s.copying.remaining_tasks_cnt refl e)
      by_caller waits e =
          let (i, t, g, h) = sum-witness to_notify s.tasks (c.heard e) in inr (moves i t g h)
      by_caller returned e = inl e

  pub Run-Counts :
      {dst : Memory} {n spurious : ℕ} {s : Call}
      → p.tasks_cnt < 2 ^ 64
      → Run src p dst n spurious s
      → Counts s × (n + rank s ≤ 3 * p.tasks_cnt + 3 + spurious)
  Run-Counts l begins =
      let a = sum-replicate_eq to_run p.tasks_cnt submitted in
      let b = sum-replicate_eq task_rank p.tasks_cnt submitted in
      (record { small = l; count = omega arith; heard = λ w. absurd (cc) }, omega arith)
  Run-Counts l (goes r x) =
      let (c, b) = Run-Counts l r in let (d, m) = Step-Counts x c in (d, omega arith)
  Run-Counts l (wakes {s = s} r e) =
      let (c, b) = Run-Counts l r in
      let h = ap caller_rank e in
      (record { small = c.small; count = c.count; heard = λ w. absurd (cc) }, omega arith)

-- Below 2 ^ 32 threads, for a size below 2 ^ 64: from the submission of its tasks on, a call makes at most
-- three steps for each task, three for the caller, and one for each spurious wake-up of the caller, and as
-- long as the caller is not back, a task or the caller can make a step that is no spurious wake-up. So
-- the caller returns, where its spurious wake-ups come to an end.
pub parallel_memcpy-returns :
    (pagesize threads size n spurious : ℕ) (src dst : Memory) {p : Plan} {s : Call}
    → size < 2 ^ 64
    → threads < 2 ^ 32
    → plan pagesize threads size ≡ ok p
    → Run src p dst n spurious s
    → (n ≤ 3 * p.tasks_cnt + 3 + spurious) × ((s.caller ≡ returned) ⊎ ((t : Call) × Step src p s t))
parallel_memcpy-returns pagesize threads size n spurious src dst {p} {s} l m e r =
    let (_, _, h, _, _, k, _) = plan-Cuts pagesize threads size l m e in
    let (c, b) = Run-Counts src p (omega arith) r in (omega arith, Counts-moves src p s c)
