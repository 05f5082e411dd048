-- ===== src/StringPtr/Views.antt =====
-- What the objects show after an assignment.
use vm_design.Common.{
  ℕ, ◌≡◌, ◌≢◌, refl, sym, ap, ◌∙◌, arith, List, [], false, ◌==◌, Option, some, ok,
}
use vm_design.Common.{if◌then◌else◌, Bool-cases, ==_iff, inl, inr}
use vm_design.StringPtr.{
  State, update, unique, data_of, to_repr, set_repr, copy_assign, move_assign, view,
}
use vm_design.StringPtr.Owns.{Owns, data_of-data_of, data_of-unique}
use vm_design.StringPtr.Steps.{Freed, update_other}
use vm_design.StringPtr.Safety.{copy_assign-Freed, move_assign-Freed}

-- The string behind a pointer.
abbrev string_at : (ℕ → Option (List ℕ)) → ℕ → Option (List ℕ)
string_at heap repr = if data_of repr == 0 then some [] else heap (data_of repr)

view-Freed : {s t : State} → Freed s t → (i : ℕ) → view t i ≡ string_at s.heap (s.objects i)
unfolding view
view-Freed {s} {t} f i =
    let e = ap (λ (o : ℕ → ℕ). o i) f.same in let k = f.kept i in rw (e, k) refl

update_same : (f : ℕ → ℕ) (i v : ℕ) → update f i v i ≡ v
update_same f i v = ground arith

string_at-data_of :
    (heap : ℕ → Option (List ℕ)) (r : ℕ) → string_at heap (data_of r) ≡ string_at heap r
string_at-data_of heap r = rw (data_of-data_of r) refl

null_view : (heap : ℕ → Option (List ℕ)) → string_at heap (to_repr 0 false) ≡ some []
unfolding data_of to_repr
null_view heap = refl

-- Where owned strings are on the heap and nobody else points to them, the copy assignment to another
-- object makes it show the string of the right hand side; all other objects, that one included, show
-- what they did. The object owns nothing then.
pub copy_assign-view :
    (i j : ℕ) (s : State)
    → Owns s
    → i ≢ j
    → (t : State) × (copy_assign i j s ≡ ok t)
      × (view t i ≡ view s j)
      × ((k : ℕ) → k ≢ i → view t k ≡ view s k)
      × (unique (t.objects i) ≡ false)
unfolding view set_repr
copy_assign-view i j s o n =
    let (t, e, f) = copy_assign-Freed i j s o n in
    let r = data_of (s.objects j) in
    let a = update_same (update s.objects j r) i r in
    let u = ap (λ (o : ℕ → ℕ). o i) f.same in
    (
      t,
      e,
      view-Freed f i ∙ rw a (string_at-data_of s.heap (s.objects j)),
      λ k m. view-Freed f k ∙ rw (update_other (update s.objects j r) i r k m) (shown k),
      rw (u, a) (data_of-unique (s.objects j)),
    )
  where
    shown :
        (k : ℕ)
        → string_at s.heap (update s.objects j (data_of (s.objects j)) k)
          ≡ string_at s.heap (s.objects k)
    shown k = elim (Bool-cases (k == j)) [
      | inl e ↦
          let h : k ≡ j = (==_iff k j).0 e in
          rw e (
            string_at-data_of s.heap (s.objects j)
            ∙ ap (λ m. string_at s.heap (s.objects m)) (sym h))
      | inr e ↦ rw e refl
    ]

-- Where owned strings are on the heap and nobody else points to them, the move assignment to another
-- object makes it show the string of the right hand side, which shows the empty string then; all other
-- objects show what they did. The object owns the string if the right hand side did.
pub move_assign-view :
    (i j : ℕ) (s : State)
    → Owns s
    → i ≢ j
    → (t : State) × (move_assign i j s ≡ ok t)
      × (view t i ≡ view s j)
      × (view t j ≡ some [])
      × ((k : ℕ) → k ≢ i → k ≢ j → view t k ≡ view s k)
      × (unique (t.objects i) ≡ unique (s.objects j))
unfolding view set_repr
move_assign-view i j s o n =
    let (t, e, f) = move_assign-Freed i j s o n in
    let z = to_repr 0 false in
    let a = update_same (update s.objects j z) i (s.objects j) in
    let b = update_other (update s.objects j z) i (s.objects j) j (λ h. n (sym h)) in
    let c = update_same s.objects j z in
    let u = ap (λ (o : ℕ → ℕ). o i) f.same in
    (
      t,
      e,
      view-Freed f i ∙ rw a refl,
      view-Freed f j ∙ rw (b, c) (null_view s.heap),
      λ k m l.
          view-Freed f k
          ∙ rw
              (
                update_other (update s.objects j z) i (s.objects j) k m,
                update_other s.objects j z k l,
              )
              refl,
      rw (u, a) refl,
    )
