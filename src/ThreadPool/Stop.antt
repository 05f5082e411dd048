-- ===== src/ThreadPool/Stop.antt =====
-- That `stop` can join the workers.
use vm_design.Common.{sum, sum-set, sum-elem, sum-witness}
use vm_design.Common.{
  ℕ, zero, suc, ◌+◌, ◌*◌, ◌<◌, ◌≤◌, ◌^◌, ◌≡◌, ◌⊎◌, inl, inr, refl, sym, ap, arith, List, [], ◌∷◌,
}
use vm_design.Common.{
  Bool, true, false, ok, Result, get_elem?, some, length, length-set, not, ◌&&◌, ◌∙◌,
}
use vm_design.Common.{if◌then◌else◌, ◌>>=◌, ◌==◌, if-cases, ok-injective, ◌≢◌}
use vm_design.BoundedDeque.{empty, front, pop_front}
use vm_design.BoundedDeque.Represents.{Represents}
use vm_design.BoundedDeque.Refine.{pop_front-Represents}
use vm_design.Error.{Error}
use vm_design.ThreadPool.{Worker, Pool, System, Event, Work, Reach, execute_locked, take_action}
use vm_design.ThreadPool.{wants_lock, place, event_of}
use vm_design.ThreadPool.Awake.{stop-wakes}
use vm_design.ThreadPool.Order.{HadRoom, Queued, Reach-Queued}
use vm_design.ThreadPool.Took.{Took, execute_locked-Took}

picked :
    {X : Type 0} (b c : Bool) (x y : X) {z : Result Error X}
    → (c ≡ false → (v : X) × (z ≡ ok v))
    → (v : X) × ((if not b && c then ok x else (if c then ok y else z)) ≡ ok v)
picked true true x y f = (y, refl)
picked false true x y f = (x, refl)
picked true false x y f = f refl
picked false false x y f = f refl

module _ {A : Type 0} where
  -- How many steps a worker of a stopped pool can still make.
  abbrev pub patience : Worker A → ℕ
  patience Worker.done = 0
  patience Worker.ready = 1
  patience (Worker.running a) = 2
  patience Worker.woken = 3
  patience Worker.waiting = 4

  patience-le : (w : Worker A) → patience w ≤ 4
  patience-le Worker.done = omega arith
  patience-le Worker.ready = omega arith
  patience-le (Worker.running a) = omega arith
  patience-le Worker.woken = omega arith
  patience-le Worker.waiting = omega arith

  sum-patience-le : (ws : List (Worker A)) → sum patience ws ≤ 4 * length ws
  sum-patience-le [] = omega arith
  sum-patience-le (w ∷ ws) = let h = patience-le w in let k = sum-patience-le ws in omega arith

  locks-patience :
      (w : Worker A) (p : Pool A) {p' : Pool A} {w' : Worker A}
      → p.stop ≡ true
      → wants_lock w ≡ true
      → execute_locked w p ≡ ok (p', w')
      → (p'.stop ≡ true) × (patience w' < patience w)
  unfolding execute_locked
  locks-patience Worker.ready p h l e = elim (if-cases p.stop e) [
    | inr (t, _) ↦ absurd (cc)
    | inl (_, k) ↦ left (ok-injective k)
  ]
    where
      left :
          {x : Pool A × Worker A}
          → ◌≡◌ {A = Pool A × Worker A} (p, Worker.done) x
          → (x.0.stop ≡ true) × (patience x.1 < 1)
      left k =
          let m = ap (λ (x : Pool A × Worker A). patience x.1) k in
          (sym (ap (λ (x : Pool A × Worker A). x.0.stop) k) ∙ h, omega arith)
  locks-patience Worker.woken p h l e = took h (execute_locked-Took Worker.woken p l e)
    where
      took :
          {p' : Pool A} {w' : Worker A}
          → p.stop ≡ true
          → Took p p' w'
          → (p'.stop ≡ true) × (patience w' < 3)
      took h (Took.sleeps x y) = absurd (cc)
      took h (Took.leaves x) = (h, omega arith)
      took h (Took.takes a rest n f g) = (h, omega arith)
  locks-patience Worker.waiting p h l e = absurd (cc)
  locks-patience (Worker.running a) p h l e = absurd (cc)
  locks-patience Worker.done p h l e = absurd (cc)

  Work-patience :
      {s t : System A} {v : Event A}
      → s.pool.stop ≡ true
      → Work s v t
      → (t.pool.stop ≡ true)
        × (sum patience t.workers < sum patience s.workers)
        × (length t.workers ≡ length s.workers)
  Work-patience {s} h (Work.locks i w {w' = w'} e l x) =
      let (k, m) = locks-patience w s.pool h l x in
      let n = sum-set patience s.workers i w' e in (k, omega arith, length-set s.workers i w')
  Work-patience {s} h (Work.ends i a e) =
      let n = sum-set patience s.workers i Worker.ready e in
      (h, omega arith, length-set s.workers i Worker.ready)
  Work-patience {s} h (Work.wakes i e) =
      let n = sum-set patience s.workers i Worker.woken e in
      (h, omega arith, length-set s.workers i Worker.woken)

  -- A number of steps of workers.
  pub data Works : ℕ → System A → System A → Type 0 where
    none : {s : System A} → Works 0 s s
    more : {n : ℕ} {v : Event A} {s t u : System A} → Work s v t → Works n t u → Works (n + 1) s u

  Works-patience :
      {n : ℕ} {s t : System A}
      → s.pool.stop ≡ true
      → Works n s t
      → n + sum patience t.workers ≤ sum patience s.workers
  Works-patience h Works.none = omega arith
  Works-patience h (Works.more w ws) =
      let (k, m, _) = Work-patience h w in let q = Works-patience k ws in omega arith

  -- The workers of a stopped pool make at most four steps each, all taken together: a pool that is
  -- stopped comes to rest.
  pub stop-bounded :
      {n : ℕ} {s t : System A} → s.pool.stop ≡ true → Works n s t → n ≤ 4 * length s.workers
  stop-bounded {s = s} h ws =
      let k = Works-patience h ws in let m = sum-patience-le s.workers in omega arith

  take_action-ok :
      {capacity : ℕ} {es : List (Event A)} (p : Pool A)
      → Queued capacity es p.actions
      → (v : Pool A × Worker A) × (take_action p ≡ ok v)
  unfolding take_action empty
  take_action-ok p r =
      picked p.stop (p.actions.count == 0) (p, Worker.waiting) (p, Worker.done)
        (λ m. split m r.queue r.represents)
    where
      split :
          (p.actions.count == 0) ≡ false
          → (xs : List A) → Represents p.actions xs
          → (v : Pool A × Worker A) × ((do
            action ← front p.actions
            rest ← pop_front p.actions
            ok (record p { actions = rest }, Worker.running action))
              ≡ ok v)
      split m [] v = let c = v.items in absurd (ground arith)
      split m (x ∷ xs) v =
          let (h, d', k, _) = pop_front-Represents p.actions xs x v in
          ((record p { actions = d' }, Worker.running x), rw (h, k) refl)

  execute_locked-ok :
      {capacity : ℕ} {es : List (Event A)} (w : Worker A) (p : Pool A)
      → Queued capacity es p.actions
      → (v : Pool A × Worker A) × (execute_locked w p ≡ ok v)
  unfolding execute_locked
  execute_locked-ok Worker.woken p r = take_action-ok p r
  execute_locked-ok Worker.ready p r = chosen p.stop
    where
      chosen :
          (b : Bool)
          → (v : Pool A × Worker A) × ((if b then ok (p, Worker.done) else take_action p) ≡ ok v)
      chosen true = ((p, Worker.done), refl)
      chosen false = take_action-ok p r
  execute_locked-ok Worker.waiting p r = ((p, Worker.waiting), refl)
  execute_locked-ok (Worker.running a) p r = ((p, Worker.running a), refl)
  execute_locked-ok Worker.done p r = ((p, Worker.done), refl)

  -- A worker that is neither asleep nor at its end can make a step.
  worker-moves :
      {capacity : ℕ} {es : List (Event A)} {s : System A} (i : ℕ) (w : Worker A)
      → Queued capacity es s.pool.actions
      → get_elem? s.workers i ≡ some w
      → w ≢ Worker.waiting
      → 0 < patience w
      → (v : Event A) × (t : System A) × Work s v t
  worker-moves {s} i Worker.ready r e n l =
      let ((p, w), h) = execute_locked-ok Worker.ready s.pool r in
      (event_of w, place i w (record s { pool = p }), Work.locks i Worker.ready e refl h)
  worker-moves {s} i Worker.woken r e n l =
      let ((p, w), h) = execute_locked-ok Worker.woken s.pool r in
      (event_of w, place i w (record s { pool = p }), Work.locks i Worker.woken e refl h)
  worker-moves {s} i (Worker.running a) r e n l =
      (Event.other, place i Worker.ready s, Work.ends i a e)
  worker-moves i Worker.waiting r e n l = absurd (n refl)
  worker-moves i Worker.done r e n l = absurd (omega arith)

  patience_zero : (w : Worker A) → patience w ≡ 0 → w ≡ Worker.done
  patience_zero Worker.done e = refl
  patience_zero Worker.ready e = absurd (omega arith)
  patience_zero (Worker.running a) e = absurd (omega arith)
  patience_zero Worker.woken e = absurd (omega arith)
  patience_zero Worker.waiting e = absurd (omega arith)

  -- Take a stopped pool of at least one thread, whose `notify_all` is made and whose deque of between 1
  -- and 2 ^ 63 - 1 places was never full when an action was submitted. None of its workers sleeps, so none
  -- depends on being woken, and while some worker is not at its end, some worker can make a step: `stop`
  -- does not wait in vain.
  pub stop-progress :
      {initial : A} {capacity threads : ℕ} {es : List (Event A)} {s : System A}
      → 0 < capacity
      → capacity < 2 ^ 63
      → 0 < threads
      → Reach initial capacity threads es s
      → HadRoom capacity es
      → s.pool.stop ≡ true
      → s.notice_all ≡ false
      → ((i : ℕ) → get_elem? s.workers i ≢ some Worker.waiting)
        × (((i : ℕ) (w : Worker A) → get_elem? s.workers i ≡ some w → w ≡ Worker.done)
            ⊎ ((v : Event A) × (t : System A) × Work s v t))
  stop-progress {s = s} l m n r c h k = (stop-wakes n r h k, by_sum (sum patience s.workers) refl)
    where
      by_sum :
          (n : ℕ)
          → sum patience s.workers ≡ n
          → ((i : ℕ) (w : Worker A) → get_elem? s.workers i ≡ some w → w ≡ Worker.done)
            ⊎ ((v : Event A) × (t : System A) × Work s v t)
      by_sum zero e =
          inl (λ i w g. let q = sum-elem patience s.workers i g in patience_zero w (omega arith))
      by_sum (suc j) e =
          let (i, w, g, q) = sum-witness patience s.workers (omega arith) in
          inr (
            worker-moves i w (Reach-Queued l m r c) g (λ x. stop-wakes n r h k i (g ∙ ap some x)) q)
