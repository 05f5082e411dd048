-- ===== src/BoundedDeque.antt =====
-- Assignment10/src/bounded_deque.h: a deque in a container of a fixed number of places.
-- A position is a size_t. A remainder by 0 and an access out of the container are `undefined`.
pub mod Represents
pub mod Refine
pub mod Move
mod Tests
use vm_design.Common.{ℕ, ◌+◌, ◌/◌, ◌%◌, List, Bool, ◌==◌, get_elem?, set, length, replicate, ltb}
use vm_design.Common.{if◌then◌else◌, Result, ok, err, ◌>>=◌, require}
use vm_design.Common.Words.{add64, sub64}
use vm_design.Error.{Error, undefined, thrown, out_of_range}

pub record BoundedDeque (T : Type 0) : Type 0 where
  pub container : List T
  pub front_pos : ℕ
  pub back_pos : ℕ
  pub count : ℕ

-- `a % container_.size()`
unfoldable pub modulo : ℕ → ℕ → Result Error ℕ
modulo a n = if n == 0 then err undefined else ok (a % n)

-- The two steps of a position: `(pos + 1) % size` and `(pos + size - 1) % size`.
unfoldable pub next : ℕ → ℕ → Result Error ℕ
unfolding modulo
next pos n = modulo (add64 pos 1) n

unfoldable pub previous : ℕ → ℕ → Result Error ℕ
unfolding modulo
previous pos n = modulo (sub64 (add64 pos n) 1) n

module _ {T : Type 0} where
  -- The constructor; every place holds a `T{}`, which is `initial`.
  unfoldable pub new_deque : T → ℕ → BoundedDeque T
  new_deque initial capacity = record {
    container = replicate capacity initial;
    front_pos = if capacity == 0 then 0 else capacity / 2;
    back_pos = if capacity == 0 then 0 else add64 (capacity / 2) 1 % capacity;
    count = 0;
  }

  -- `container_.at(pos)`
  unfoldable pub element_at : List T → ℕ → Result Error T
  element_at container pos = require (get_elem? container pos) (thrown out_of_range)

  unfoldable pub back : BoundedDeque T → Result Error T
  back d = do pos ← previous d.back_pos (length d.container); element_at d.container pos

  unfoldable pub front : BoundedDeque T → Result Error T
  front d = do pos ← next d.front_pos (length d.container); element_at d.container pos

  unfoldable pub empty : BoundedDeque T → Bool
  empty d = d.count == 0

  abbrev pub capacity : BoundedDeque T → ℕ
  capacity d = length d.container

  -- `container_[pos] = item`
  unfoldable pub assign : ℕ → T → BoundedDeque T → Result Error (BoundedDeque T)
  assign pos item d =
      if ltb pos (length d.container)
      then ok (record d { container = set d.container pos item })
      else err undefined

  unfoldable pub push_back : T → BoundedDeque T → Result Error (BoundedDeque T)
  push_back item d = do
    d₁ ← assign d.back_pos item d
    pos ← next d₁.back_pos (length d₁.container)
    ok (record d₁ { count = add64 d₁.count 1; back_pos = pos })

  unfoldable pub pop_back : BoundedDeque T → Result Error (BoundedDeque T)
  pop_back d = do
    pos ← previous d.back_pos (length d.container)
    ok (record d { count = sub64 d.count 1; back_pos = pos })

  unfoldable pub push_front : T → BoundedDeque T → Result Error (BoundedDeque T)
  push_front item d = do
    d₁ ← assign d.front_pos item d
    pos ← previous d₁.front_pos (length d₁.container)
    ok (record d₁ { count = add64 d₁.count 1; front_pos = pos })

  unfoldable pub pop_front : BoundedDeque T → Result Error (BoundedDeque T)
  pop_front d = do
    pos ← next d.front_pos (length d.container)
    ok (record d { count = sub64 d.count 1; front_pos = pos })

  -- The move constructor: the new deque, and what it leaves of the other one, whose container it
  -- exchanges for `Container{size}`, which is `braces size`: as many places as that for most types, but one
  -- place with that number where `T` can be made from a size_t. `container_.empty()` is asked for without a
  -- `!` where the code sets the other `back_pos_`.
  unfoldable pub move_from :
      (ℕ → List T) → BoundedDeque T → Result Error (BoundedDeque T × BoundedDeque T)
  unfolding modulo
  move_from braces other = do
    let container = braces (length other.container)
    let n = length container
    back_pos ← if n == 0 then modulo (add64 (n / 2) 1) n else ok 0
    ok (
      other,
      record {
        container = container;
        front_pos = if n == 0 then 0 else n / 2;
        back_pos = back_pos;
        count = 0;
      },
    )

  -- Both assignments are by a temporary and `swap`.
  unfoldable pub swap : BoundedDeque T → BoundedDeque T → BoundedDeque T × BoundedDeque T
  swap d other = (
    record {
      container = other.container;
      front_pos = other.front_pos;
      back_pos = other.back_pos;
      count = other.count;
    },
    record {
      container = d.container;
      front_pos = d.front_pos;
      back_pos = d.back_pos;
      count = d.count;
    },
  )

  -- `d = rhs` and `d = std::move(rhs)` for two deques that are not the same: the new `d`, and in the
  -- second case the new `rhs`.
  unfoldable pub copy_assign : BoundedDeque T → BoundedDeque T → BoundedDeque T
  unfolding swap
  copy_assign d rhs = (swap d rhs).0

  unfoldable pub move_assign :
      (ℕ → List T)
      → BoundedDeque T
      → BoundedDeque T
      → Result Error (BoundedDeque T × BoundedDeque T)
  unfolding move_from swap
  move_assign braces d rhs = do (tmp, rhs') ← move_from braces rhs; ok ((swap d tmp).0, rhs')
