-- ===== src/StringPtr/Steps.antt =====
-- That no operation frees a string twice or leaves a pointer to one that is freed.
use vm_design.Common.{ℕ, ◌≡◌, ◌≢◌, inl, inr, refl, sym, ◌∙◌, arith, true, false, ◌==◌}
use vm_design.Common.{none, ok, Bool-cases, ==_iff}
use vm_design.StringPtr.{
  State, update, unique, data_of, to_repr, free, destroy_repr, set_repr, swap_in,
}
use vm_design.StringPtr.Owns.{Owns, Points, set_repr-Owns, data_of-data_of, data_of-unique}
use mathlib.Core.Path.{fun_ext}

-- What freeing a string that no object points to does.
pub record Freed (s t : State) : Type 0 where
  pub owns : Owns t
  pub same : t.objects ≡ s.objects
  pub kept : (i : ℕ) → t.heap (data_of (s.objects i)) ≡ s.heap (data_of (s.objects i))

pub Freed-refl : {s : State} → Owns s → Freed s s
Freed-refl o = record { owns = o; same = refl; kept = λ i. refl }

pub update_other : {A : Type 0} (f : ℕ → A) (i : ℕ) (v : A) (j : ℕ) → j ≢ i → update f i v j ≡ f j
update_other f i v j n = elim (Bool-cases (j == i)) [
  | inl e ↦ absurd (n ((==_iff j i).0 e))
  | inr e ↦ rw e refl
]

free-Freed :
    (ptr : ℕ) (s : State)
    → Owns s
    → ptr ≢ 0
    → Points s.heap ptr
    → ((i : ℕ) → data_of (s.objects i) ≢ ptr)
    → (t : State) × (free ptr s ≡ ok t) × Freed s t
unfolding free
free-Freed ptr s o z p n = elim p [
  | inl e ↦ absurd (z e)
  | inr (str, e) ↦
      let f : (ptr == 0) ≡ false = ground arith in
      (
        record s { heap = update s.heap ptr none },
        rw (f, e) refl,
        record {
          owns = record {
            points = λ i. elim (o.points i) [
              | inl h ↦ inl h
              | inr (c, h) ↦ inr (c, update_other s.heap ptr none (data_of (s.objects i)) (n i) ∙ h)
            ];
            strings = o.strings;
            alone = o.alone;
          };
          same = refl;
          kept = λ i. update_other s.heap ptr none (data_of (s.objects i)) (n i);
        },
      )
]

destroy_repr-Freed :
    (r : ℕ) (s : State)
    → Owns s
    → (unique r ≡ true → data_of r ≢ 0)
    → Points s.heap (data_of r)
    → (unique r ≡ true → (i : ℕ) → data_of (s.objects i) ≢ data_of r)
    → (t : State) × (destroy_repr r s ≡ ok t) × Freed s t
unfolding destroy_repr
destroy_repr-Freed r s o z p n = elim (Bool-cases (unique r)) [
  | inl u ↦ let (t, e, f) = free-Freed (data_of r) s o (z u) p (n u) in (t, rw (u, e) refl, f)
  | inr u ↦ (s, rw u refl, Freed-refl o)
]

-- An object is given another pointer, and its old one is destroyed.
pub swap_in-Freed :
    (i tmp : ℕ) (s : State)
    → Owns s
    → Points s.heap (data_of tmp)
    → (unique tmp ≡ true → data_of tmp ≢ 0)
    → ((j : ℕ) → unique (s.objects j) ≡ true → data_of tmp ≢ data_of (s.objects j))
    → (unique tmp ≡ true → (j : ℕ) → i ≢ j → data_of (s.objects j) ≢ data_of tmp)
    → (t : State) × (swap_in i tmp s ≡ ok t) × Freed (set_repr i tmp s) t
unfolding swap_in set_repr
swap_in-Freed i tmp s o p q f g =
    destroy_repr-Freed (s.objects i) (set_repr i tmp s) (set_repr-Owns i tmp s o p q (λ j _. f j) g)
      (o.strings i) (o.points i) (λ u k. others u k)
  where
    others :
        unique (s.objects i) ≡ true
        → (k : ℕ) → data_of (update s.objects i tmp k) ≢ data_of (s.objects i)
    others u k = elim (Bool-cases (k == i)) [
      | inl e ↦ rw e (f i u)
      | inr e ↦ rw e (o.alone i k u (λ h. absurd (ground arith)))
    ]

-- An object gives up its string: it keeps the pointer, or it holds null.
pub share-Owns : (j : ℕ) (s : State) → Owns s → Owns (set_repr j (data_of (s.objects j)) s)
share-Owns j s o =
    let r = data_of (s.objects j) in
    let d = data_of-data_of (s.objects j) in
    let n = data_of-unique (s.objects j) in
    set_repr-Owns j r s o (rw d (o.points j)) (λ u. absurd (cc))
      (λ k e u. rw d (o.alone k j u (λ h. e (sym h)))) (λ u. absurd (cc))

pub release-Owns : (j : ℕ) (s : State) → Owns s → Owns (set_repr j (to_repr 0 false) s)
unfolding to_repr data_of unique
release-Owns j s o =
    set_repr-Owns j (to_repr 0 false) s o (inl refl) (λ u. absurd (cc))
      (λ k e u h. o.strings k u (sym h)) (λ u. absurd (cc))

-- After that nobody owns the string, as long as the object was not an owner that is asked for.
pub share-alone :
    (j : ℕ) (s : State)
    → Owns s
    → (k : ℕ) → unique (update s.objects j (data_of (s.objects j)) k) ≡ true
    → data_of (data_of (s.objects j)) ≢ data_of (update s.objects j (data_of (s.objects j)) k)
share-alone j s o k = elim (Bool-cases (k == j)) [
  | inl e ↦ rw e (let n = data_of-unique (s.objects j) in λ u. absurd (cc))
  | inr e ↦ rw (e, data_of-data_of (s.objects j)) (λ u. o.alone k j u (λ h. absurd (ground arith)))
]

pub release-alone :
    (j : ℕ) (s : State)
    → Owns s
    → (k : ℕ) → unique (update s.objects j (to_repr 0 false) k) ≡ true
    → data_of (s.objects j) ≢ data_of (update s.objects j (to_repr 0 false) k)
unfolding to_repr unique
release-alone j s o k = elim (Bool-cases (k == j)) [
  | inl e ↦ rw e (λ u. absurd (cc))
  | inr e ↦ rw e (λ u. o.alone k j u (λ h. absurd (ground arith)))
]

pub release-owner :
    (j : ℕ) (s : State)
    → Owns s
    → unique (s.objects j) ≡ true
    → (k : ℕ) → data_of (update s.objects j (to_repr 0 false) k) ≢ data_of (s.objects j)
unfolding to_repr data_of
release-owner j s o u k = elim (Bool-cases (k == j)) [
  | inl e ↦ rw e (λ h. o.strings j u (sym h))
  | inr e ↦ rw e (o.alone j k u (λ h. absurd (ground arith)))
]

pub update-update : (f : ℕ → ℕ) (i j r : ℕ) → update (update f i r) j r ≡ update (update f j r) i r
update-update f i j r = fun_ext (λ k. ground arith)
