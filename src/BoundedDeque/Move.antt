-- ===== src/BoundedDeque/Move.antt =====
-- What a move leaves of a deque.
use vm_design.Common.{
  ℕ, List, get_elem?-replicate, sym, ◌+◌, ◌/◌, ◌^◌, ◌<◌, ◌≤◌, ◌≡◌, ◌∙◌, ◌≢◌, refl, arith, ok, some,
  ◌>>=◌, ◌==◌, false,
}
use vm_design.Common.{get_elem?, set, length, replicate, length-set, length-replicate}
use vm_design.Common.{get_elem?-set_ne}
use vm_design.BoundedDeque.{BoundedDeque, next, element_at, front, push_back, move_assign}
use vm_design.BoundedDeque.{move_from, swap}
use vm_design.BoundedDeque.Represents.{wrap, next-ok, assign-ok}

-- Let `T` be a type that cannot be made from a size_t, so that `Container{size}` has `size` places
-- with `initial`. A move assignment takes over the deque as it is. What it leaves of the other one is not
-- in order where its capacity is from 3 on, below 2 ^ 63: the front of it is not the item that is pushed
-- to its back, but what an unused place holds.
pub move_assign-push_back :
    {T : Type 0} (braces : ℕ → List T) (initial x : T) (d rhs : BoundedDeque T)
    → ((size : ℕ) → braces size ≡ replicate size initial)
    → 3 ≤ length rhs.container
    → length rhs.container < 2 ^ 63
    → (rhs' : BoundedDeque T) × (move_assign braces d rhs ≡ ok (rhs, rhs'))
      × ((push_back x rhs' >>= front) ≡ ok initial)
unfolding move_assign move_from swap push_back front element_at
move_assign-push_back {T} braces initial x d rhs made h l =
    let n = length rhs.container in
    let c = replicate n initial in
    let e : length c ≡ n = length-replicate n initial in
    let s : length (set c 0 x) ≡ n = length-set c 0 x ∙ e in
    let z : (n == 0) ≡ false = ground arith in
    let f : wrap n (n / 2 + 1) ≢ 0 = λ p. ground arith in
    let v : wrap n (n / 2 + 1) < n = ground arith in
    let r : BoundedDeque T = record { container = c; front_pos = n / 2; back_pos = 0; count = 0 } in
    let a = assign-ok 0 x r (omega arith) in
    let p₁ : next 0 (length (set c 0 x)) ≡ ok (wrap n 1) = rw s (next-ok 0 n (omega arith) l) in
    let p₂ : next (n / 2) (length (set c 0 x)) ≡ ok (wrap n (n / 2 + 1)) =
      rw s (next-ok (n / 2) n (omega arith) l) in
    let g : get_elem? (set c 0 x) (wrap n (n / 2 + 1)) ≡ some initial =
      get_elem?-set_ne c x (λ p. f (sym p))
      ∙ get_elem?-replicate n initial (wrap n (n / 2 + 1)) v in
    (
      record { container = c; front_pos = n / 2; back_pos = 0; count = 0 },
      rw (made n, e, z) refl,
      rw (a, p₁) (rw (p₂, g) refl),
    )
