-- ===== src/ThreadPool/Order.antt =====
-- In which order the workers start the actions.
use vm_design.Common.{
  ℕ, ◌<◌, ◌^◌, ◌≡◌, ◌∙◌, refl, sym, ap, arith, List, [], ◌∷◌, ◌++◌, append_assoc,
}
use vm_design.Common.{false, ok, ok-injective, >>=-eq-ok, length, length-set, ltb}
use vm_design.Common.{length-replicate, if-cases, inl, inr}
use vm_design.BoundedDeque.{
  BoundedDeque, empty, new_deque, push_back, pop_front, front, assign, next,
}
use vm_design.BoundedDeque.Represents.{Represents}
use vm_design.BoundedDeque.Refine.{push_back-Represents, pop_front-Represents, new_deque-Represents}
use vm_design.ThreadPool.{event_of, Worker, Pool, System, Event, Work, Step, Reach, submit_locked}
use vm_design.ThreadPool.Took.{Took, execute_locked-Took}

module _ {A : Type 0} where
  -- The actions that were submitted, and those that were started, the first one first.
  abbrev pub submissions : List (Event A) → List A
  submissions [] = []
  submissions (Event.submitted a n ∷ es) = submissions es ++ a ∷ []
  submissions (Event.started a ∷ es) = submissions es
  submissions (Event.other ∷ es) = submissions es

  abbrev pub starts : List (Event A) → List A
  starts [] = []
  starts (Event.started a ∷ es) = starts es ++ a ∷ []
  starts (Event.submitted a n ∷ es) = starts es
  starts (Event.other ∷ es) = starts es

  -- Each submission has found less than `capacity` actions.
  abbrev pub HadRoom : ℕ → List (Event A) → Type 0
  HadRoom capacity [] = Unit
  HadRoom capacity (Event.submitted a n ∷ es) = (n < capacity) × HadRoom capacity es
  HadRoom capacity (Event.started a ∷ es) = HadRoom capacity es
  HadRoom capacity (Event.other ∷ es) = HadRoom capacity es

  -- The deque holds what was submitted and is not started, in that order.
  pub record Queued (capacity : ℕ) (es : List (Event A)) (d : BoundedDeque A) : Type 0 where
    pub queue : List A
    pub represents : Represents d queue
    pub size : length d.container ≡ capacity
    pub order : submissions es ≡ starts es ++ queue

  push_back-size :
      (a : A) (d : BoundedDeque A) {d' : BoundedDeque A}
      → push_back a d ≡ ok d'
      → length d'.container ≡ length d.container
  unfolding push_back assign
  push_back-size a d e =
      let (d₁, f, g) = >>=-eq-ok (assign d.back_pos a d) _ e in
      let (pos, h, k) = >>=-eq-ok (next d₁.back_pos (length d₁.container)) _ g in
      elim (if-cases (ltb d.back_pos (length d.container)) f) [
        | inl (_, m) ↦
            rw (← ok-injective k) (rw (← ok-injective m) (length-set d.container d.back_pos a))
        | inr (_, m) ↦ absurd (cc)
      ]

  pop_front-size :
      (d : BoundedDeque A) {d' : BoundedDeque A}
      → pop_front d ≡ ok d'
      → length d'.container ≡ length d.container
  unfolding pop_front
  pop_front-size d e =
      let (pos, f, g) = >>=-eq-ok (next d.front_pos (length d.container)) _ e in
      rw (← ok-injective g) refl

  submits-Queued :
      {capacity : ℕ} {es : List (Event A)} (a : A) (p : Pool A) {q : Pool A}
      → Queued capacity es p.actions
      → p.actions.count < capacity
      → submit_locked a p ≡ ok q
      → Queued capacity (Event.submitted a p.actions.count ∷ es) q.actions
  unfolding submit_locked
  submits-Queued {capacity} {es} a p r l e =
      let (d, f, g) = >>=-eq-ok (push_back a p.actions) _ e in
      let (d', h, k) = push_back-Represents p.actions r.queue a r.represents (rw r.size l) in
      let m : d' ≡ d = ok-injective (sym h ∙ f) in
      let s = push_back-size a p.actions f in
      rw (← ok-injective g) (record {
        queue = r.queue ++ a ∷ [];
        represents = rw (← m) k;
        size = s ∙ r.size;
        order =
            ap (λ (xs : List A). xs ++ a ∷ []) r.order ∙ append_assoc (starts es) r.queue (a ∷ []);
      })

  takes-Queued :
      {capacity : ℕ} {es : List (Event A)} {d rest : BoundedDeque A} (a : A)
      → Queued capacity es d
      → empty d ≡ false
      → front d ≡ ok a
      → pop_front d ≡ ok rest
      → Queued capacity (Event.started a ∷ es) rest
  unfolding empty
  takes-Queued {capacity} {es} {d} {rest} a r n f g = split r.queue r.represents r.order
    where
      split :
          (xs : List A)
          → Represents d xs
          → submissions es ≡ starts es ++ xs
          → Queued capacity (Event.started a ∷ es) rest
      split [] v o = let c = v.items in absurd (ground arith)
      split (x ∷ xs) v o =
          let (h, d', k, w) = pop_front-Represents d xs x v in
          record {
            queue = xs;
            represents = let m : d' ≡ rest = ok-injective (sym k ∙ g) in rw (← m) w;
            size = pop_front-size d g ∙ r.size;
            order =
                let m : x ≡ a = ok-injective (sym h ∙ f) in
                rw (← m) (o ∙ sym (append_assoc (starts es) (x ∷ []) xs));
          }

  other_kept :
      {capacity : ℕ} {es : List (Event A)} {d : BoundedDeque A}
      → Queued capacity es d
      → Queued capacity (Event.other ∷ es) d
  other_kept r = record {
    queue = r.queue;
    represents = r.represents;
    size = r.size;
    order = r.order;
  }

  started_earlier :
      (capacity : ℕ) (es : List (Event A)) (w : Worker A)
      → HadRoom capacity (event_of w ∷ es)
      → HadRoom capacity es
  started_earlier capacity es Worker.ready c = c
  started_earlier capacity es Worker.waiting c = c
  started_earlier capacity es Worker.woken c = c
  started_earlier capacity es (Worker.running a) c = c
  started_earlier capacity es Worker.done c = c

  earlier :
      (capacity : ℕ) (es : List (Event A)) {s t : System A} {v : Event A}
      → Work s v t
      → HadRoom capacity (v ∷ es)
      → HadRoom capacity es
  earlier capacity es (Work.locks i w {w' = w'} e l x) c = started_earlier capacity es w' c
  earlier capacity es (Work.ends i a e) c = c
  earlier capacity es (Work.wakes i e) c = c

  locks-Queued :
      {capacity : ℕ} {es : List (Event A)} {p p' : Pool A} {w' : Worker A}
      → Queued capacity es p.actions
      → Took p p' w'
      → Queued capacity (event_of w' ∷ es) p'.actions
  locks-Queued r (Took.sleeps x y) = other_kept r
  locks-Queued r (Took.leaves x) = other_kept r
  locks-Queued r (Took.takes a rest n f g) = takes-Queued a r n f g

  Work-Queued :
      {capacity : ℕ} {es : List (Event A)} {s t : System A} {v : Event A}
      → Queued capacity es s.pool.actions
      → Work s v t
      → Queued capacity (v ∷ es) t.pool.actions
  Work-Queued {s = s} r (Work.locks i w e l x) = locks-Queued r (execute_locked-Took w s.pool l x)
  Work-Queued r (Work.ends i a e) = other_kept r
  Work-Queued r (Work.wakes i e) = other_kept r

  -- In a pool whose deque has between 1 and 2 ^ 63 - 1 places, where each submission has found less
  -- actions than that, the deque holds exactly the actions that were submitted and are not started yet:
  -- the actions start in the order in which they were submitted, each one once.
  pub Reach-Queued :
      {initial : A} {capacity threads : ℕ} {es : List (Event A)} {s : System A}
      → 0 < capacity
      → capacity < 2 ^ 63
      → Reach initial capacity threads es s
      → HadRoom capacity es
      → Queued capacity es s.pool.actions
  unfolding new_deque
  Reach-Queued {initial} {capacity} l m Reach.start c = record {
    queue = [];
    represents = new_deque-Represents initial capacity l m;
    size = length-replicate capacity initial;
    order = refl;
  }
  Reach-Queued l m (Reach.later {s = s} r (Step.submits a x)) c =
      submits-Queued a s.pool (Reach-Queued l m r (c.1)) (c.0) x
  Reach-Queued {capacity = capacity} l m (Reach.later {es = es} r (Step.works w)) c =
      Work-Queued (Reach-Queued l m r (earlier capacity es w c)) w
  Reach-Queued l m (Reach.later r (Step.notifies i n e f)) c = other_kept (Reach-Queued l m r c)
  Reach-Queued l m (Reach.later r (Step.unheard n e f)) c = other_kept (Reach-Queued l m r c)
  Reach-Queued l m (Reach.later r Step.stops) c = other_kept (Reach-Queued l m r c)
  Reach-Queued l m (Reach.later r (Step.notifies_all e)) c = other_kept (Reach-Queued l m r c)
