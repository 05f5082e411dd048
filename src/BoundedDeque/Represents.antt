-- ===== src/BoundedDeque/Represents.antt =====
-- What a deque holds, as a list from the front to the back.
use native.Mathlib.Nat.{mod-eq_of_lt, mod-eq-sub-mod}
use vm_design.Common.{◌≢◌, Bool, ℕ, suc, ◌+◌, ◌-◌, ◌%◌, ◌^◌, ◌<◌, ◌≤◌, ◌≡◌, ◌∙◌, refl, arith, List}
use vm_design.Common.{get_elem?, set, length, ltb, if◌then◌else◌, ok, true, false}
use vm_design.BoundedDeque.{BoundedDeque, modulo, next, previous, assign}

-- A number below `n + n` as a position.
abbrev pub wrap : ℕ → ℕ → ℕ
wrap n a = if ltb a n then a else a - n

-- The position of item `i` where `front_pos` is in front of the first one.
abbrev pub slot : ℕ → ℕ → ℕ → ℕ
slot n front_pos i = wrap n (wrap n (front_pos + 1) + i)

-- `d` holds the items `xs`, the front first: they fit, they stand behind `front_pos` one after the
-- other, from the end of the container on at its start, and `back_pos` is behind the last one.
pub record Represents {T : Type 0} (d : BoundedDeque T) (xs : List T) : Type 0 where
  pub small : length d.container < 2 ^ 63
  pub front_in : d.front_pos < length d.container
  pub back_at : d.back_pos ≡ slot (length d.container) d.front_pos d.count
  pub room : d.count ≤ length d.container
  pub items : d.count ≡ length xs
  pub holds :
      (i : ℕ)
      → i < length xs
      → get_elem? d.container (slot (length d.container) d.front_pos i) ≡ get_elem? xs i

pub mod-wrap : (a n : ℕ) → a < n + n → a % n ≡ wrap n a
mod-wrap a n h = go (ltb a n) refl
  where
    go : (b : Bool) → ltb a n ≡ b → a % n ≡ (if b then a else a - n)
    go true e = mod-eq_of_lt (ground arith)
    go false e = let l : n ≤ a = ground arith in mod-eq-sub-mod l ∙ mod-eq_of_lt (omega arith)

pub next-ok : (pos n : ℕ) → pos < n → n < 2 ^ 63 → next pos n ≡ ok (wrap n (pos + 1))
unfolding next modulo
next-ok pos n h l =
    let p : (pos + 1) % 2 ^ 64 ≡ pos + 1 = omega arith in
    rw (p, mod-wrap (pos + 1) n (omega arith)) (ground arith)

pub previous-ok : (pos n : ℕ) → pos < n → n < 2 ^ 63 → previous pos n ≡ ok (wrap n (pos + (n - 1)))
unfolding previous modulo
previous-ok pos n h l =
    let p : ((pos + n) % 2 ^ 64 + 2 ^ 64 - 1) % 2 ^ 64 ≡ pos + (n - 1) = omega arith in
    rw (p, mod-wrap (pos + (n - 1)) n (omega arith)) (ground arith)

-- Where the items stand when `front_pos` or the number of items moves by one.
pub slot-lt : (n f i : ℕ) → f < n → i ≤ n → slot n f i < n
slot-lt n f i h l = ground arith

pub slot-suc : (n f i : ℕ) → f < n → i < n → wrap n (slot n f i + 1) ≡ slot n f (suc i)
slot-suc n f i h l = ground arith

pub slot-zero : (n f : ℕ) → f < n → slot n f 0 ≡ wrap n (f + 1)
slot-zero n f h = ground arith

pub slot_pred : (n f i : ℕ) → f < n → i < n → wrap n (slot n f (suc i) + (n - 1)) ≡ slot n f i
slot_pred n f i h l = ground arith

pub slot_next_front : (n f i : ℕ) → f < n → i < n → slot n (wrap n (f + 1)) i ≡ slot n f (suc i)
slot_next_front n f i h l = ground arith

pub slot_previous_front :
    (n f i : ℕ) → f < n → i < n → slot n (wrap n (f + (n - 1))) (suc i) ≡ slot n f i
slot_previous_front n f i h l = ground arith

pub slot_new_front : (n f : ℕ) → f < n → slot n (wrap n (f + (n - 1))) 0 ≡ f
slot_new_front n f h = ground arith

pub slot_ne : (n f i j : ℕ) → f < n → i < n → j < n → i ≢ j → slot n f i ≢ slot n f j
slot_ne n f i j h l m e p = ground arith

pub slot_ne_front : (n f i : ℕ) → f < n → i + 1 < n → f ≢ slot n f i
slot_ne_front n f i h l p = ground arith

pub assign-ok :
    {T : Type 0} (pos : ℕ) (x : T) (d : BoundedDeque T)
    → pos < length d.container
    → assign pos x d ≡ ok (record d { container = set d.container pos x })
unfolding assign
assign-ok pos x d h = ground arith
