-- ===== src/ThreadPool.antt =====
-- Assignment10/src/thread_pool.h: workers that take actions off a bounded deque under a mutex.
-- What a thread does while it holds the mutex is one step, since no other thread sees or changes the
-- pool in between; the calls of the condition variable are steps of their own, as they are made
-- without the mutex.
pub mod Sums
pub mod Took
pub mod Awake
pub mod Order
pub mod Stop
mod Tests
use vm_design.Common.{ℕ, zero, suc, ◌+◌, ◌≡◌, List, [], ◌∷◌, ◌++◌, Bool, true, false, not, ◌&&◌}
use vm_design.Common.{
  Result, ok, err, ◌>>=◌, get_elem?, set, length, replicate, if◌then◌else◌, some,
}
use vm_design.BoundedDeque.{BoundedDeque, new_deque, empty, front, push_back, pop_front}
use vm_design.Error.{Error}

-- Where a worker is in `execute_actions`: before `lock()` and the test of the outer loop; asleep in
-- `cond_.wait`; about to take the mutex again in it; in `action()`; or at the end.
pub data Worker (A : Type 0) : Type 0 where
  ready : Worker A
  waiting : Worker A
  woken : Worker A
  running : A → Worker A
  done : Worker A

-- What the mutex protects.
pub record Pool (A : Type 0) : Type 0 where
  pub actions : BoundedDeque A
  pub stop : Bool

-- The pool, its workers, how many calls of `notify_one` are due and whether one of `notify_all` is.
pub record System (A : Type 0) : Type 0 where
  pub pool : Pool A
  pub workers : List (Worker A)
  pub notices : ℕ
  pub notice_all : Bool

-- What a step does to the actions: `submitted` with the number of actions that it finds.
pub data Event (A : Type 0) : Type 0 where
  submitted : A → ℕ → Event A
  started : A → Event A
  other : Event A

module _ {A : Type 0} where
  -- From the inner loop to where the mutex is given back.
  unfoldable pub take_action : Pool A → Result Error (Pool A × Worker A)
  take_action p =
      if not p.stop && empty p.actions
      then ok (p, Worker.waiting)
      else (if empty p.actions then ok (p, Worker.done) else (do
        action ← front p.actions
        rest ← pop_front p.actions
        ok (record p { actions = rest }, Worker.running action)))

  -- What a worker does with the mutex.
  unfoldable pub execute_locked : Worker A → Pool A → Result Error (Pool A × Worker A)
  execute_locked Worker.ready p = if p.stop then ok (p, Worker.done) else take_action p
  execute_locked Worker.woken p = take_action p
  execute_locked w p = ok (p, w)

  -- `submit` with the mutex
  unfoldable pub submit_locked : A → Pool A → Result Error (Pool A)
  submit_locked action p = do
    actions ← push_back action p.actions
    ok (record p { actions = actions })

  -- What `notify_all` does to a worker.
  abbrev pub wake : Worker A → Worker A
  wake Worker.waiting = Worker.woken
  wake w = w

  abbrev pub wake_all : List (Worker A) → List (Worker A)
  wake_all [] = []
  wake_all (w ∷ ws) = wake w ∷ wake_all ws

  abbrev pub event_of : Worker A → Event A
  event_of (Worker.running a) = Event.started a
  event_of _ = Event.other

  -- Whether a worker asks for the mutex.
  abbrev pub wants_lock : Worker A → Bool
  wants_lock Worker.ready = true
  wants_lock Worker.woken = true
  wants_lock _ = false

  abbrev pub place : ℕ → Worker A → System A → System A
  place i w s = record s { workers = set s.workers i w }

  -- A step of worker `i`.
  pub data Work (s : System A) : Event A → System A → Type 0 where
    locks :
        (i : ℕ) (w : Worker A) {p : Pool A} {w' : Worker A}
        → get_elem? s.workers i ≡ some w
        → wants_lock w ≡ true
        → execute_locked w s.pool ≡ ok (p, w')
        → Work s (event_of w') (place i w' (record s { pool = p }))
    ends :
        (i : ℕ) (a : A)
        → get_elem? s.workers i ≡ some (Worker.running a)
        → Work s Event.other (place i Worker.ready s)
    wakes :
        (i : ℕ)
        → get_elem? s.workers i ≡ some Worker.waiting
        → Work s Event.other (place i Worker.woken s)

  -- A step of a worker or of a client. `wakes` is spurious; `notifies` is a call of `notify_one`,
  -- and `unheard` one while no worker sleeps.
  pub data Step (s : System A) : Event A → System A → Type 0 where
    works : {e : Event A} {t : System A} → Work s e t → Step s e t
    submits :
        (a : A) {p : Pool A}
        → submit_locked a s.pool ≡ ok p
        → Step s
            (Event.submitted a s.pool.actions.count)
            (record s { pool = p; notices = s.notices + 1 })
    notifies :
        (i n : ℕ)
        → s.notices ≡ suc n
        → get_elem? s.workers i ≡ some Worker.waiting
        → Step s Event.other (place i Worker.woken (record s { notices = n }))
    unheard :
        (n : ℕ)
        → s.notices ≡ suc n
        → wake_all s.workers ≡ s.workers
        → Step s Event.other (record s { notices = n })
    stops :
        Step s Event.other
          (record s { pool = record { actions = s.pool.actions; stop = true }; notice_all = true })
    notifies_all :
        s.notice_all ≡ true
        → Step s Event.other (record s { workers = wake_all s.workers; notice_all = false })

  -- The constructor.
  abbrev pub new_system : A → ℕ → ℕ → System A
  new_system initial actions_capacity threads_cnt = record {
    pool = record { actions = new_deque initial actions_capacity; stop = false };
    workers = replicate threads_cnt Worker.ready;
    notices = 0;
    notice_all = false;
  }

  -- The states that the pool comes to, with the events so far, the last first.
  pub data Reach (initial : A) (actions_capacity threads_cnt : ℕ)
      : List (Event A) → System A → Type 0 where
    start :
        Reach initial actions_capacity threads_cnt []
          (new_system initial actions_capacity threads_cnt)
    later :
        {es : List (Event A)} {e : Event A} {s t : System A}
        → Reach initial actions_capacity threads_cnt es s
        → Step s e t
        → Reach initial actions_capacity threads_cnt (e ∷ es) t
