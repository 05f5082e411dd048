-- ===== src/ThreadPool/Took.antt =====
-- What a worker can have done while it held the mutex.
use mathlib.Core.Path.{subst}
use vm_design.Common.{◌≡◌, refl, Bool, true, false, not, ◌&&◌, ok, >>=-eq-ok, if-cases}
use vm_design.Common.{ok-injective, inl, inr}
use vm_design.BoundedDeque.{BoundedDeque, empty, front, pop_front}
use vm_design.ThreadPool.{Worker, Pool, take_action, execute_locked, wants_lock}

module _ {A : Type 0} where
  -- It has gone to sleep over an empty deque, has come to its end since the pool is stopped, or has
  -- taken the first action.
  pub data Took (p : Pool A) : Pool A → Worker A → Type 0 where
    sleeps : p.stop ≡ false → empty p.actions ≡ true → Took p p Worker.waiting
    leaves : p.stop ≡ true → Took p p Worker.done
    takes :
        (a : A) (rest : BoundedDeque A)
        → empty p.actions ≡ false
        → front p.actions ≡ ok a
        → pop_front p.actions ≡ ok rest
        → Took p (record p { actions = rest }) (Worker.running a)

  moved :
      {p q : Pool A} {v : Worker A} {x : Pool A × Worker A}
      → ◌≡◌ {A = Pool A × Worker A} (q, v) x
      → Took p q v
      → Took p x.0 x.1
  moved {p} h t = subst (λ (x : Pool A × Worker A). Took p x.0 x.1) h t

  take_action-Took :
      (p : Pool A) {p' : Pool A} {w' : Worker A} → take_action p ≡ ok (p', w') → Took p p' w'
  unfolding take_action
  take_action-Took p {p'} {w'} e = elim (if-cases (not p.stop && empty p.actions) e) [
    | inl (t, h) ↦
        let (s, m) = both p.stop (empty p.actions) t in moved (ok-injective h) (Took.sleeps s m)
    | inr (t, h) ↦ elim (if-cases (empty p.actions) h) [
      | inl (m, k) ↦ moved (ok-injective k) (Took.leaves (stopped p.stop (empty p.actions) t m))
      | inr (n, k) ↦
          let (a, f, r) = >>=-eq-ok (front p.actions) _ k in
          let (rest, g, q) = >>=-eq-ok (pop_front p.actions) _ r in
          moved (ok-injective q) (Took.takes a rest n f g)
    ]
  ]
    where
      both : (b c : Bool) → (not b && c) ≡ true → (b ≡ false) × (c ≡ true)
      both true c h = absurd (cc)
      both false c h = (refl, h)

      stopped : (b c : Bool) → (not b && c) ≡ false → c ≡ true → b ≡ true
      stopped true c h k = refl
      stopped false c h k = absurd (cc)

  pub execute_locked-Took :
      (w : Worker A) (p : Pool A) {p' : Pool A} {w' : Worker A}
      → wants_lock w ≡ true
      → execute_locked w p ≡ ok (p', w')
      → Took p p' w'
  unfolding execute_locked
  execute_locked-Took Worker.ready p l e = elim (if-cases p.stop e) [
    | inl (t, h) ↦ moved (ok-injective h) (Took.leaves t)
    | inr (_, h) ↦ take_action-Took p h
  ]
  execute_locked-Took Worker.woken p l e = take_action-Took p e
  execute_locked-Took Worker.waiting p l e = absurd (cc)
  execute_locked-Took (Worker.running a) p l e = absurd (cc)
  execute_locked-Took Worker.done p l e = absurd (cc)
