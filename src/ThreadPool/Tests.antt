-- ===== src/ThreadPool/Tests.antt =====
-- A pool of one thread and two places that is given one action and then stopped.
use vm_design.Common.{
  ℕ, ◌*◌, ◌<◌, ◌≤◌, ◌≡◌, ◌≢◌, ◌⊎◌, refl, arith, List, [], ◌∷◌, true, false, get_elem?,
}
use vm_design.Common.{some, length}
use vm_design.BoundedDeque.{new_deque, push_back, assign, next, modulo, empty}
use vm_design.ThreadPool.{Worker, System, Event, Work, Step, Reach, submit_locked}
use vm_design.ThreadPool.{execute_locked}
use vm_design.ThreadPool.Sums.{awake}
use vm_design.ThreadPool.Awake.{no_lost_wakeup}
use vm_design.ThreadPool.Order.{Queued, Reach-Queued}
use vm_design.ThreadPool.Stop.{Works, stop-bounded, stop-progress}

abbrev queued : System ℕ
queued = record {
  pool = record {
    actions = record { container = 7 ∷ 0 ∷ []; front_pos = 1; back_pos = 1; count = 1 };
    stop = false;
  };
  workers = Worker.ready ∷ [];
  notices = 1;
  notice_all = false;
}

abbrev stopped : System ℕ
stopped = record queued { pool = record { actions = queued.pool.actions; stop = true } }

abbrev submission : List (Event ℕ)
submission = Event.submitted 7 0 ∷ []

queued-Reach : Reach 0 2 1 submission queued
unfolding new_deque submit_locked push_back assign next modulo
queued-Reach = Reach.later Reach.start (Step.submits 7 {p = queued.pool} refl)

stopped-Reach : Reach 0 2 1 (Event.other ∷ Event.other ∷ submission) stopped
stopped-Reach = Reach.later (Reach.later queued-Reach Step.stops) (Step.notifies_all refl)

no_lost_wakeup_example :
    (0 < 1) ⊎ ((i : ℕ) × (w : Worker ℕ) × (get_elem? queued.workers i ≡ some w) × (0 < awake w))
unfolding empty
no_lost_wakeup_example = no_lost_wakeup (omega arith) queued-Reach refl refl

Reach-Queued_example : Queued 2 submission queued.pool.actions
Reach-Queued_example = Reach-Queued (omega arith) (omega arith) queued-Reach (omega arith, tt)

stop-progress_example :
    ((i : ℕ) → get_elem? stopped.workers i ≢ some Worker.waiting)
    × (((i : ℕ) (w : Worker ℕ) → get_elem? stopped.workers i ≡ some w → w ≡ Worker.done)
        ⊎ ((v : Event ℕ) × (t : System ℕ) × Work stopped v t))
stop-progress_example =
    stop-progress (omega arith) (omega arith) (omega arith) stopped-Reach (omega arith, tt) refl
      refl

ended-Works : Works 1 stopped (record stopped { workers = Worker.done ∷ [] })
unfolding execute_locked
ended-Works =
    Works.more (Work.locks 0 Worker.ready {p = stopped.pool} {w' = Worker.done} refl refl refl)
      Works.none

stop-bounded_example : 1 ≤ 4 * length stopped.workers
stop-bounded_example = stop-bounded refl ended-Works
