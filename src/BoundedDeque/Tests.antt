-- ===== src/BoundedDeque/Tests.antt =====
-- A deque of three places.
use vm_design.Common.{
  ◌>>=◌, ok-injective, sym, ◌∙◌, ℕ, ◌≡◌, refl, arith, ok, List, replicate, [], ◌∷◌,
}
use vm_design.BoundedDeque.{
  BoundedDeque, new_deque, push_back, push_front, pop_back, pop_front, front,
}
use vm_design.BoundedDeque.Move.{move_assign-push_back}
use vm_design.BoundedDeque.{move_assign, back, assign, next, modulo}
use vm_design.BoundedDeque.Represents.{Represents}
use vm_design.BoundedDeque.Refine.{
  new_deque-Represents, push_back-Represents, push_front-Represents,
}
use vm_design.BoundedDeque.Refine.{pop_back-Represents, pop_front-Represents}

abbrev fresh : BoundedDeque ℕ
fresh = record { container = 0 ∷ 0 ∷ 0 ∷ []; front_pos = 1; back_pos = 2; count = 0 }

abbrev of_7 : BoundedDeque ℕ
of_7 = record { container = 0 ∷ 0 ∷ 7 ∷ []; front_pos = 1; back_pos = 0; count = 1 }

abbrev of_7_8 : BoundedDeque ℕ
of_7_8 = record { container = 8 ∷ 0 ∷ 7 ∷ []; front_pos = 1; back_pos = 1; count = 2 }

fresh-Represents : Represents fresh []
unfolding new_deque
fresh-Represents = new_deque-Represents 0 3 (omega arith) (omega arith)

of_7-Represents : Represents of_7 (7 ∷ [])
unfolding push_back assign next modulo
of_7-Represents =
    let (d, e, r) = push_back-Represents fresh [] 7 fresh-Represents (omega arith) in
    let p : push_back 7 fresh ≡ ok of_7 = refl in rw (ok-injective (sym e ∙ p)) at r

of_7_8-Represents : Represents of_7_8 (7 ∷ (8 ∷ []))
unfolding push_back assign next modulo
of_7_8-Represents =
    let (d, e, r) = push_back-Represents of_7 (7 ∷ []) 8 of_7-Represents (omega arith) in
    let p : push_back 8 of_7 ≡ ok of_7_8 = refl in rw (ok-injective (sym e ∙ p)) at r

push_back-Represents_example :
    (d : BoundedDeque ℕ) × (push_back 8 of_7 ≡ ok d) × Represents d (7 ∷ (8 ∷ []))
push_back-Represents_example = push_back-Represents of_7 (7 ∷ []) 8 of_7-Represents (omega arith)

push_front-Represents_example :
    (d : BoundedDeque ℕ) × (push_front 6 of_7 ≡ ok d) × Represents d (6 ∷ (7 ∷ []))
push_front-Represents_example = push_front-Represents of_7 (7 ∷ []) 6 of_7-Represents (omega arith)

pop_front-Represents_example :
    (front of_7_8 ≡ ok 7) × (d : BoundedDeque ℕ) × (pop_front of_7_8 ≡ ok d) × Represents d (8 ∷ [])
pop_front-Represents_example = pop_front-Represents of_7_8 (8 ∷ []) 7 of_7_8-Represents

pop_back-Represents_example :
    (back of_7_8 ≡ ok 8) × (d : BoundedDeque ℕ) × (pop_back of_7_8 ≡ ok d) × Represents d (7 ∷ [])
pop_back-Represents_example = pop_back-Represents of_7_8 (7 ∷ []) 8 of_7_8-Represents

-- Strings, as bytes, which are not made from numbers.
abbrev of_strings : BoundedDeque (List ℕ)
of_strings = record {
  container = (8 ∷ []) ∷ [] ∷ (7 ∷ []) ∷ [];
  front_pos = 1;
  back_pos = 1;
  count = 2;
}

move_assign-push_back_example :
    (d : BoundedDeque (List ℕ)) × (move_assign
        (λ size. replicate size [])
        (new_deque [] 3)
        of_strings
      ≡ ok (of_strings, d))
    × ((push_back (9 ∷ []) d >>= front) ≡ ok [])
move_assign-push_back_example =
    move_assign-push_back (λ size. replicate size []) [] (9 ∷ []) (new_deque [] 3) of_strings
      (λ size. refl) (omega arith) (omega arith)
