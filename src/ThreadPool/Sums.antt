-- ===== src/ThreadPool/Sums.antt =====
-- How many workers are awake, asleep and at their end.
use vm_design.Common.{sum, ℕ, ◌+◌, ◌≡◌, refl, arith, List, [], ◌∷◌}
use vm_design.Common.{length}
use vm_design.ThreadPool.{Worker, wake, wake_all}

module _ {A : Type 0} where
  -- Each worker is awake, asleep or at its end.
  abbrev pub awake : Worker A → ℕ
  awake Worker.ready = 1
  awake Worker.woken = 1
  awake (Worker.running a) = 1
  awake _ = 0

  abbrev pub asleep : Worker A → ℕ
  asleep Worker.waiting = 1
  asleep _ = 0

  abbrev pub ended : Worker A → ℕ
  ended Worker.done = 1
  ended _ = 0

  one_state : (w : Worker A) → awake w + asleep w + ended w ≡ 1
  one_state Worker.ready = refl
  one_state Worker.waiting = refl
  one_state Worker.woken = refl
  one_state (Worker.running a) = refl
  one_state Worker.done = refl

  wake-asleep : (w : Worker A) → asleep (wake w) ≡ 0
  wake-asleep Worker.ready = refl
  wake-asleep Worker.waiting = refl
  wake-asleep Worker.woken = refl
  wake-asleep (Worker.running a) = refl
  wake-asleep Worker.done = refl

  wake-ended : (w : Worker A) → ended (wake w) ≡ ended w
  wake-ended Worker.ready = refl
  wake-ended Worker.waiting = refl
  wake-ended Worker.woken = refl
  wake-ended (Worker.running a) = refl
  wake-ended Worker.done = refl

  pub sum-states : (ws : List (Worker A)) → sum awake ws + sum asleep ws + sum ended ws ≡ length ws
  sum-states [] = omega arith
  sum-states (w ∷ ws) = let h = sum-states ws in let k = one_state w in omega arith

  pub wake_all-asleep : (ws : List (Worker A)) → sum asleep (wake_all ws) ≡ 0
  wake_all-asleep [] = refl
  wake_all-asleep (w ∷ ws) = let h = wake_all-asleep ws in let k = wake-asleep w in omega arith

  pub wake_all-ended : (ws : List (Worker A)) → sum ended (wake_all ws) ≡ sum ended ws
  wake_all-ended [] = refl
  wake_all-ended (w ∷ ws) = let h = wake_all-ended ws in let k = wake-ended w in omega arith
