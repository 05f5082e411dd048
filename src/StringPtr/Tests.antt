-- ===== src/StringPtr/Tests.antt =====
-- A string that is made, shared and moved, on a heap with one place.
use vm_design.Common.{ℕ, ◌%◌, ◌≡◌, ◌≢◌, refl, arith, List, [], ◌∷◌, false, Option, none, some}
use vm_design.Common.{ok}
use vm_design.StringPtr.{State, Op, Allocator, update, unique, to_repr, set_repr, view, initial}
use vm_design.StringPtr.{copy_assign, move_assign, run_ops}
use vm_design.StringPtr.Owns.{Owns}
use vm_design.StringPtr.Safety.{Fresh, Runs, run_ops-Runs, initial-Owns, placed-Owns}
use vm_design.StringPtr.Views.{copy_assign-view, move_assign-view}

abbrev answer : Option (List ℕ) → Option ℕ
answer none = some 8
answer (some str) = none

abbrev one_place : Allocator
one_place heap = answer (heap 8)

one_place-Fresh : Fresh one_place
one_place-Fresh heap ptr e = answered (heap 8) refl e
  where
    answered :
        (o : Option (List ℕ))
        → heap 8 ≡ o
        → answer o ≡ some ptr
        → (heap ptr ≡ none) × (ptr ≢ 0) × (ptr % 2 ≡ 0)
    answered (some str) h e = absurd (cc)
    answered none h e = let p : 8 ≡ ptr = cc in rw (← p) (h, (λ z. omega arith), refl)

abbrev ops : List Op
ops = Op.string_op 0 (104 ∷ []) ∷ Op.copy_op 1 0 ∷ Op.move_assign_op 2 1 ∷ Op.destroy_op 0 ∷ []

run_ops-Runs_example : Runs (run_ops one_place ops initial)
run_ops-Runs_example = run_ops-Runs one_place ops initial one_place-Fresh initial-Owns

-- Object 0 owns a string.
abbrev owned : State
owned = record {
  heap = update initial.heap 8 (some (104 ∷ []));
  objects = update initial.objects 0 9;
}

owned-Owns : Owns owned
unfolding set_repr to_repr
owned-Owns = placed-Owns 8 0 (104 ∷ []) initial (refl, (λ z. omega arith), refl) initial-Owns

copy_assign-view_example :
    (t : State) × (copy_assign 1 0 owned ≡ ok t)
    × (view t 1 ≡ view owned 0)
    × ((k : ℕ) → k ≢ 1 → view t k ≡ view owned k)
    × (unique (t.objects 1) ≡ false)
copy_assign-view_example = copy_assign-view 1 0 owned owned-Owns (λ h. omega arith)

move_assign-view_example :
    (t : State) × (move_assign 1 0 owned ≡ ok t)
    × (view t 1 ≡ view owned 0)
    × (view t 0 ≡ some [])
    × ((k : ℕ) → k ≢ 1 → k ≢ 0 → view t k ≡ view owned k)
    × (unique (t.objects 1) ≡ unique 9)
move_assign-view_example = move_assign-view 1 0 owned owned-Owns (λ h. omega arith)
