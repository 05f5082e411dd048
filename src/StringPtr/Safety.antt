-- ===== src/StringPtr/Safety.antt =====
-- That every operation keeps the owners apart.
use vm_design.Common.{
  ℕ, ◌%◌, ◌≡◌, ◌≢◌, ◌⊎◌, inl, inr, refl, sym, ap, ◌∙◌, arith, List, [], ◌∷◌, true, false, ◌==◌,
}
use vm_design.Common.{Option, none, some, Result, ok, err, Bool-cases}
use vm_design.StringPtr.{State, Op, update, unique, data_of, to_repr, set_repr, swap_in}
use vm_design.StringPtr.{
  construct_null, construct, copy_construct, move_construct, copy_assign, destroy,
}
use mathlib.Core.Path.{fun_ext}
use vm_design.StringPtr.{swap}
use vm_design.Common.{if◌then◌else◌, ◌==◌}
use vm_design.Error.{Error, thrown, bad_alloc}
use vm_design.StringPtr.{Allocator, move_assign, run_op, run_ops, initial}
use vm_design.StringPtr.Owns.{Owns, Points, set_repr-Owns, data_of-data_of, data_of-unique}
use vm_design.StringPtr.Steps.{Freed, swap_in-Freed, share-Owns, release-Owns, share-alone}
use vm_design.StringPtr.Steps.{release-alone, release-owner, update-update}

pub copy_assign-Freed :
    (i j : ℕ) (s : State)
    → Owns s
    → i ≢ j
    → (t : State) × (copy_assign i j s ≡ ok t)
      × Freed (set_repr i (data_of (s.objects j)) (set_repr j (data_of (s.objects j)) s)) t
unfolding copy_assign set_repr
copy_assign-Freed i j s o n =
    let f : (j == i) ≡ false = ground arith in
    let tmp = data_of (s.objects j) in
    let u = data_of-unique (s.objects j) in
    let (t, e, v) =
      swap_in-Freed i tmp (set_repr j tmp s) (share-Owns j s o)
        (rw (data_of-data_of (s.objects j)) (o.points j)) (λ h. absurd (cc)) (share-alone j s o)
        (λ h. absurd (cc)) in
    (t, rw f e, v)

pub move_assign-Freed :
    (i j : ℕ) (s : State)
    → Owns s
    → i ≢ j
    → (t : State) × (move_assign i j s ≡ ok t)
      × Freed (set_repr i (s.objects j) (set_repr j (to_repr 0 false) s)) t
unfolding move_assign set_repr
move_assign-Freed i j s o n =
    let f : (j == i) ≡ false = ground arith in
    let (t, e, v) =
      swap_in-Freed i (s.objects j) (set_repr j (to_repr 0 false) s) (release-Owns j s o)
        (o.points j) (o.strings j) (release-alone j s o) (λ u k _. release-owner j s o u k) in
    (t, rw f e, v)

-- Both constructors from another object.
copy_construct-Owns : (i j : ℕ) (s : State) → Owns s → Owns (copy_construct i j s)
unfolding copy_construct set_repr
copy_construct-Owns i j s o =
    let r = data_of (s.objects j) in
    let u = data_of-unique (s.objects j) in
    let p : Points s.heap (data_of r) = rw (data_of-data_of (s.objects j)) (o.points j) in
    let v : Owns (record s { objects = update (update s.objects j r) i r }) =
      set_repr-Owns i r (set_repr j r s) (share-Owns j s o) p (λ h. absurd (cc))
        (λ k _. share-alone j s o k) (λ h. absurd (cc)) in
    rw (update-update s.objects i j r) v

move_construct-Owns : (i j : ℕ) (s : State) → Owns s → Owns (move_construct i j s)
unfolding move_construct set_repr
move_construct-Owns i j s o =
    set_repr-Owns i (s.objects j) (set_repr j (to_repr 0 false) s) (release-Owns j s o) (o.points j)
      (o.strings j) (λ k _. release-alone j s o k) (λ u k _. release-owner j s o u k)

-- Which object has had the pointer of object `k` before object `i` and `j` swap theirs.
unfoldable other_of : ℕ → ℕ → ℕ → ℕ
other_of i j k = if k == j then i else (if k == i then j else k)

other_of-injective : (i j k l : ℕ) → other_of i j k ≡ other_of i j l → k ≡ l
unfolding other_of
other_of-injective i j k l e = ground arith

swap_objects : (f : ℕ → ℕ) (i j k : ℕ) → update (update f i (f j)) j (f i) k ≡ f (other_of i j k)
unfolding other_of
swap_objects f i j k = elim (Bool-cases (k == j)) [
  | inl e ↦ rw e refl
  | inr e ↦ elim (Bool-cases (k == i)) [ inl d ↦ rw (e, d) refl | inr d ↦ rw (e, d) refl ]
]

swap-Owns : (i j : ℕ) (s : State) → Owns s → Owns (swap i j s)
unfolding swap set_repr
swap-Owns i j s o =
    let e : update (update s.objects i (s.objects j)) j (s.objects i)
        ≡ (λ k. s.objects (other_of i j k)) =
      fun_ext (λ k. swap_objects s.objects i j k) in
    let v : Owns (record s { objects = λ k. s.objects (other_of i j k) }) = record {
      points = λ k. o.points (other_of i j k);
      strings = λ k. o.strings (other_of i j k);
      alone = λ k l u n.
          o.alone (other_of i j k) (other_of i j l) u (λ h. n (other_of-injective i j k l h));
    } in
    rw e v

-- What `new` gives: an address that holds no string, is not null and is even.
abbrev pub Fresh : Allocator → Type 0
Fresh new_string =
    (heap : ℕ → Option (List ℕ)) (ptr : ℕ)
    → new_string heap ≡ some ptr
    → (heap ptr ≡ none) × (ptr ≢ 0) × (ptr % 2 ≡ 0)

data_of-to_repr : (ptr : ℕ) → ptr % 2 ≡ 0 → data_of (to_repr ptr true) ≡ ptr
unfolding data_of to_repr
data_of-to_repr ptr e = ground arith

-- A string that no object points to comes onto the heap.
grow-Owns :
    (ptr : ℕ) (str : List ℕ) (s : State)
    → Owns s
    → Owns (record s { heap = update s.heap ptr (some str) })
grow-Owns ptr str s o = record {
  points = λ i. elim (Bool-cases (data_of (s.objects i) == ptr)) [
    | inl e ↦ inr (str, rw e refl)
    | inr e ↦ elim (o.points i) [ inl h ↦ inl h | inr (c, h) ↦ inr (c, rw e h) ]
  ];
  strings = o.strings;
  alone = o.alone;
}

-- Without an error other than that of `new` an operation keeps the owners apart.
abbrev pub Runs : Result Error State → Type 0
Runs r = ((t : State) × (r ≡ ok t) × Owns t) ⊎ (r ≡ err (thrown bad_alloc))

pub placed-Owns :
    (ptr i : ℕ) (str : List ℕ) (s : State)
    → (s.heap ptr ≡ none) × (ptr ≢ 0) × (ptr % 2 ≡ 0)
    → Owns s
    → Owns (set_repr i (to_repr ptr true) (record s { heap = update s.heap ptr (some str) }))
placed-Owns ptr i str s (n, z, e) o =
    let d = data_of-to_repr ptr e in
    let new_of : (k : ℕ) → data_of (s.objects k) ≢ ptr = λ k h. elim (o.points k) [
      | inl y ↦ z (sym h ∙ y)
      | inr (c, y) ↦ let w = ap s.heap h in absurd (cc)
    ] in
    set_repr-Owns i (to_repr ptr true) (record s { heap = update s.heap ptr (some str) })
      (grow-Owns ptr str s o) (inr (str, rw d (ground arith))) (λ u. rw d z)
      (λ k _ u h. new_of k (sym h ∙ d)) (λ u k _ h. new_of k (h ∙ d))

construct-Runs :
    (new_string : Allocator) (i : ℕ) (str : List ℕ) (s : State)
    → Fresh new_string
    → Owns s
    → Runs (construct new_string i str s)
unfolding construct
construct-Runs new_string i str s fresh o = answered (new_string s.heap) refl
  where
    answered : (a : Option ℕ) → new_string s.heap ≡ a → Runs (construct new_string i str s)
    answered none e = inr (rw e refl)
    answered (some ptr) e = inl (_, rw e refl, placed-Owns ptr i str s (fresh s.heap ptr e) o)

destroy-Freed :
    (i : ℕ) (s : State) → Owns s → (t : State) × (destroy i s ≡ ok t) × Freed (set_repr i 0 s) t
unfolding destroy swap_in data_of unique
destroy-Freed i s o =
    swap_in-Freed i 0 s o (inl refl) (λ u. absurd (cc)) (λ k u h. o.strings k u (sym h))
      (λ u. absurd (cc))

copy_assign-Owns :
    (i j : ℕ) (s : State) → Owns s → (t : State) × (copy_assign i j s ≡ ok t) × Owns t
unfolding copy_assign
copy_assign-Owns i j s o = elim (Bool-cases (j == i)) [
  | inl e ↦ (s, simp (e, copy_assign), o)
  | inr e ↦
      let n : i ≢ j = λ h. absurd (ground arith) in
      let (t, g, v) = copy_assign-Freed i j s o n in (t, g, v.owns)
]

move_assign-Owns :
    (i j : ℕ) (s : State) → Owns s → (t : State) × (move_assign i j s ≡ ok t) × Owns t
unfolding move_assign
move_assign-Owns i j s o = elim (Bool-cases (j == i)) [
  | inl e ↦ (s, simp (e, move_assign), o)
  | inr e ↦
      let n : i ≢ j = λ h. absurd (ground arith) in
      let (t, g, v) = move_assign-Freed i j s o n in (t, g, v.owns)
]

run_op-Runs :
    (new_string : Allocator) (op : Op) (s : State)
    → Fresh new_string
    → Owns s
    → Runs (run_op new_string op s)
unfolding run_op construct_null
run_op-Runs new_string (Op.default_op i) s f o = inl (_, refl, release-Owns i s o)
run_op-Runs new_string (Op.string_op i str) s f o = construct-Runs new_string i str s f o
run_op-Runs new_string (Op.copy_op i j) s f o = inl (_, refl, copy_construct-Owns i j s o)
run_op-Runs new_string (Op.move_op i j) s f o = inl (_, refl, move_construct-Owns i j s o)
run_op-Runs new_string (Op.copy_assign_op i j) s f o = inl (copy_assign-Owns i j s o)
run_op-Runs new_string (Op.move_assign_op i j) s f o = inl (move_assign-Owns i j s o)
run_op-Runs new_string (Op.swap_op i j) s f o = inl (_, refl, swap-Owns i j s o)
run_op-Runs new_string (Op.destroy_op i) s f o =
    let (t, e, v) = destroy-Freed i s o in inl (t, e, v.owns)

-- Where an address that `new` returns is even, not null and not in use, every sequence of operations, from
-- a state in which owned strings are on the heap and no one else points to them, runs without an error
-- other than that of `new`: no string is freed twice. After it again each pointer is null or that of a
-- string on the heap, an owner's is not null, and nobody else has it.
pub run_ops-Runs :
    (new_string : Allocator) (ops : List Op) (s : State)
    → Fresh new_string
    → Owns s
    → Runs (run_ops new_string ops s)
unfolding run_ops
run_ops-Runs new_string [] s f o = inl (s, refl, o)
run_ops-Runs new_string (op ∷ ops) s f o =
    first (run_op-Runs new_string op s f o) (λ t v. run_ops-Runs new_string ops t f v)
  where
    first :
        Runs (run_op new_string op s)
        → ((t : State) → Owns t → Runs (run_ops new_string ops t))
        → Runs (run_ops new_string (op ∷ ops) s)
    first (inr e) later = inr (rw e refl)
    first (inl (t, e, v)) later = rw e (later t v)

pub initial-Owns : Owns initial
unfolding data_of unique
initial-Owns = record {
  points = λ i. inl refl;
  strings = λ i u. absurd (cc);
  alone = λ i j u. absurd (cc);
}
