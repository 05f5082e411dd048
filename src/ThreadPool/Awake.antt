-- ===== src/ThreadPool/Awake.antt =====
-- No wake-up is lost: while there are actions, somebody is awake or about to be woken.
use vm_design.Common.{sum, sum-set, sum-replicate, sum-elem, sum-witness}
use vm_design.Common.{
  ℕ, suc, ◌<◌, ◌≡◌, ◌≢◌, ◌⊎◌, inl, inr, refl, sym, ap, arith, List, [], ◌∷◌, true, false,
}
use vm_design.Common.{get_elem?, set, length, length-set, length-replicate, some}
use vm_design.BoundedDeque.{empty, new_deque}
use vm_design.ThreadPool.{Worker, Pool, System, Event, Work, Step, Reach, wake_all, submit_locked}
use vm_design.ThreadPool.Sums.{sum-states, awake, asleep, ended}
use vm_design.ThreadPool.Sums.{wake_all-asleep, wake_all-ended}
use vm_design.Common.{get_elem?-set_self, get_elem?_lt, ◌∙◌, >>=-eq-ok, ok-injective, ok}
use vm_design.BoundedDeque.{push_back}
use vm_design.ThreadPool.{new_system}
use vm_design.ThreadPool.Took.{Took, execute_locked-Took}

module _ {A : Type 0} where
  pub record Heard (s : System A) : Type 0 where
    pub crew : 0 < length s.workers
    pub live : s.pool.stop ≡ false → sum ended s.workers ≡ 0
    pub heard :
        s.pool.stop ≡ false
        → empty s.pool.actions ≡ false
        → (0 < s.notices) ⊎ (0 < sum awake s.workers)
    pub told : s.pool.stop ≡ true → s.notice_all ≡ false → sum asleep s.workers ≡ 0

  -- A worker that comes to be awake, or stays so, breaks nothing.
  awake-Heard :
      {s : System A} (q : Pool A) (i n : ℕ) {w : Worker A} (v : Worker A)
      → Heard s
      → q.stop ≡ s.pool.stop
      → get_elem? s.workers i ≡ some w
      → ended v ≡ 0
      → asleep v ≡ 0
      → 0 < awake v
      → Heard (record s { pool = q; workers = set s.workers i v; notices = n })
  awake-Heard {s} q i n v r m e x y z =
      let b = sum-set asleep s.workers i v e in
      let c = sum-set ended s.workers i v e in
      let l = length-set s.workers i v in
      let crew = r.crew in
      let g = get_elem?-set_self s.workers i v (get_elem?_lt s.workers i e) in
      let d = sum-elem awake (set s.workers i v) i g in
      record {
        crew = omega arith;
        live = λ h. let k = r.live (sym m ∙ h) in omega arith;
        heard = λ h k. inr (omega arith);
        told = λ h k. let t = r.told (sym m ∙ h) k in omega arith;
      }

  locks-Heard :
      {s : System A} (i : ℕ) {w w' : Worker A} {p : Pool A}
      → Heard s
      → get_elem? s.workers i ≡ some w
      → Took s.pool p w'
      → Heard (record s { pool = p; workers = set s.workers i w' })
  locks-Heard {s} i r e (Took.takes a rest n f g) =
      awake-Heard (record s.pool { actions = rest }) i s.notices (Worker.running a) r refl e refl
        refl (omega arith)
  locks-Heard {s} i r e (Took.sleeps x y) =
      let c = sum-set ended s.workers i Worker.waiting e in
      let v : Worker A = Worker.waiting in
      let l = length-set s.workers i v in
      let crew = r.crew in
      record {
        crew = omega arith;
        live = λ h. let k = r.live h in omega arith;
        heard = λ h k. absurd (cc);
        told = λ h k. absurd (cc);
      }
  locks-Heard {s} i r e (Took.leaves x) =
      let b = sum-set asleep s.workers i Worker.done e in
      let v : Worker A = Worker.done in
      let l = length-set s.workers i v in
      let crew = r.crew in
      record {
        crew = omega arith;
        live = λ h. absurd (cc);
        heard = λ h k. absurd (cc);
        told = λ h k. let t = r.told h k in omega arith;
      }

  Work-Heard : {s t : System A} {v : Event A} → Heard s → Work s v t → Heard t
  Work-Heard {s} r (Work.locks i w e l x) = locks-Heard i r e (execute_locked-Took w s.pool l x)
  Work-Heard {s} r (Work.ends i a e) =
      awake-Heard s.pool i s.notices Worker.ready r refl e refl refl (omega arith)
  Work-Heard {s} r (Work.wakes i e) =
      awake-Heard s.pool i s.notices Worker.woken r refl e refl refl (omega arith)

  submit_locked-stop :
      (a : A) (p : Pool A) {q : Pool A} → submit_locked a p ≡ ok q → q.stop ≡ p.stop
  unfolding submit_locked
  submit_locked-stop a p e =
      let (d, f, g) = >>=-eq-ok (push_back a p.actions) _ e in rw (← ok-injective g) refl

  wake_all-length : (ws : List (Worker A)) → length (wake_all ws) ≡ length ws
  wake_all-length [] = refl
  wake_all-length (w ∷ ws) = ap suc (wake_all-length ws)

  Step-Heard : {s t : System A} {v : Event A} → Heard s → Step s v t → Heard t
  Step-Heard r (Step.works w) = Work-Heard r w
  Step-Heard {s} r (Step.submits a x) =
      let m = submit_locked-stop a s.pool x in
      record {
        crew = r.crew;
        live = λ h. r.live (sym m ∙ h);
        heard = λ h k. inl (omega arith);
        told = λ h k. r.told (sym m ∙ h) k;
      }
  Step-Heard {s} r (Step.notifies i n c e) =
      awake-Heard s.pool i n Worker.woken r refl e refl refl (omega arith)
  Step-Heard {s} r (Step.unheard n c e) =
      let a = wake_all-asleep s.workers in
      let b : sum asleep s.workers ≡ 0 = rw e at a in
      let d = sum-states s.workers in
      let crew = r.crew in
      record {
        crew = r.crew;
        live = r.live;
        heard = λ h k. let l = r.live h in inr (omega arith);
        told = r.told;
      }
  Step-Heard {s} r Step.stops = record {
    crew = r.crew;
    live = λ h. absurd (cc);
    heard = λ h k. absurd (cc);
    told = λ h k. absurd (cc);
  }
  Step-Heard {s} r (Step.notifies_all x) =
      let a = wake_all-asleep s.workers in
      let b = wake_all-ended s.workers in
      let c = sum-states s.workers in
      let d = sum-states (wake_all s.workers) in
      let l = wake_all-length s.workers in
      let crew = r.crew in
      record {
        crew = omega arith;
        live = λ h. let k = r.live h in omega arith;
        heard = λ h k. let e = r.live h in inr (omega arith);
        told = λ h k. a;
      }

  new_system-Heard :
      (initial : A) (capacity threads : ℕ)
      → 0 < threads
      → Heard (new_system initial capacity threads)
  unfolding empty new_deque
  new_system-Heard initial capacity threads l = record {
    crew = let v : Worker A = Worker.ready in rw (length-replicate threads v) l;
    live = λ h. sum-replicate ended threads Worker.ready refl;
    heard = λ h k. absurd (cc);
    told = λ h. absurd (cc);
  }

  Reach-Heard :
      {initial : A} {capacity threads : ℕ} {es : List (Event A)} {s : System A}
      → 0 < threads
      → Reach initial capacity threads es s
      → Heard s
  Reach-Heard l Reach.start = new_system-Heard _ _ _ l
  Reach-Heard l (Reach.later r x) = Step-Heard (Reach-Heard l r) x

  -- In a pool of at least one thread that is not stopped and holds an action, a call of `notify_one` is
  -- still due, or a worker is awake: it runs an action or is about to take the mutex and look for one.
  pub no_lost_wakeup :
      {initial : A} {capacity threads : ℕ} {es : List (Event A)} {s : System A}
      → 0 < threads
      → Reach initial capacity threads es s
      → s.pool.stop ≡ false
      → empty s.pool.actions ≡ false
      → (0 < s.notices)
        ⊎ ((i : ℕ) × (w : Worker A) × (get_elem? s.workers i ≡ some w) × (0 < awake w))
  no_lost_wakeup {s = s} l r h k = elim ((Reach-Heard l r).heard h k) [
    | inl n ↦ inl n
    | inr a ↦ inr (sum-witness awake s.workers a)
  ]

  -- Once a pool of at least one thread is stopped and its `notify_all` is made, no worker sleeps.
  pub stop-wakes :
      {initial : A} {capacity threads : ℕ} {es : List (Event A)} {s : System A}
      → 0 < threads
      → Reach initial capacity threads es s
      → s.pool.stop ≡ true
      → s.notice_all ≡ false
      → (i : ℕ) → get_elem? s.workers i ≢ some Worker.waiting
  stop-wakes {s = s} l r h k i e =
      let t = (Reach-Heard l r).told h k in
      let m = sum-elem asleep s.workers i e in absurd (omega arith)
