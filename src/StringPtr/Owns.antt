-- ===== src/StringPtr/Owns.antt =====
-- Who owns a string: at most one object, and then no other object points to it.
use vm_design.Common.{ℕ, ◌≡◌, ◌≢◌, ◌⊎◌, inl, inr, sym, ◌∙◌, arith, List, true, false, ◌==◌}
use vm_design.Common.{Option, some, Bool-cases, ==_iff}
use vm_design.StringPtr.{State, update, unique, data_of, set_repr}

-- A pointer that is null or that of a string on the heap.
abbrev pub Points : (ℕ → Option (List ℕ)) → ℕ → Type 0
Points heap ptr = (ptr ≡ 0) ⊎ ((str : List ℕ) × (heap ptr ≡ some str))

pub record Owns (s : State) : Type 0 where
  pub points : (i : ℕ) → Points s.heap (data_of (s.objects i))
  pub strings : (i : ℕ) → unique (s.objects i) ≡ true → data_of (s.objects i) ≢ 0
  pub alone :
      (i j : ℕ)
      → unique (s.objects i) ≡ true
      → i ≢ j
      → data_of (s.objects j) ≢ data_of (s.objects i)

pub data_of-unique : (r : ℕ) → unique (data_of r) ≡ false
unfolding data_of unique
data_of-unique r = ground arith

pub data_of-data_of : (r : ℕ) → data_of (data_of r) ≡ data_of r
unfolding data_of
data_of-data_of r = omega arith

-- An object may get a pointer that no owner has, and that nobody has if it comes as an owner.
pub set_repr-Owns :
    (i r : ℕ) (s : State)
    → Owns s
    → Points s.heap (data_of r)
    → (unique r ≡ true → data_of r ≢ 0)
    → ((j : ℕ) → i ≢ j → unique (s.objects j) ≡ true → data_of r ≢ data_of (s.objects j))
    → (unique r ≡ true → (j : ℕ) → i ≢ j → data_of (s.objects j) ≢ data_of r)
    → Owns (set_repr i r s)
unfolding set_repr
set_repr-Owns i r s o p q f g = record {
  points = λ k. by_case (λ x. Points s.heap (data_of x)) k (λ _. p) (λ _. o.points k);
  strings = λ k. by_case (λ x. unique x ≡ true → data_of x ≢ 0) k (λ _. q) (λ _. o.strings k);
  alone = λ k l.
      by_case (λ x. unique x ≡ true → k ≢ l → data_of (update s.objects i r l) ≢ data_of x) k
        (λ e u n.
          by_case (λ y. data_of y ≢ data_of r) l (λ d. absurd (n (e ∙ sym d)))
            (λ d. g u l (λ h. d (sym h))))
        (λ e u n.
          by_case (λ y. data_of y ≢ data_of (s.objects k)) l (λ d. f k (λ h. e (sym h)) u)
            (λ d. o.alone k l u n));
}
  where
    by_case :
        (P : ℕ → Type 0) (k : ℕ)
        → (k ≡ i → P r)
        → (k ≢ i → P (s.objects k))
        → P (update s.objects i r k)
    by_case P k same other = elim (Bool-cases (k == i)) [
      | inl e ↦ rw e (same ((==_iff k i).0 e))
      | inr e ↦ rw e (other (λ h. absurd (ground arith)))
    ]
