-- ===== src/BoundedDeque/Refine.antt =====
-- The operations of the deque on the items that it represents.
use vm_design.Common.Words.{sub64}
use vm_design.Common.{
  ◌==◌, ◌/◌, false, ◌≢◌, ◌⊎◌, inl, inr, ℕ, zero, suc, ◌+◌, ◌-◌, ◌%◌, ◌^◌, ◌<◌, ◌≡◌, ◌∙◌, refl,
  arith, List, [], ◌∷◌, ◌++◌,
}
use vm_design.Common.{replicate, length-replicate, get_elem?, set, length, ok, some, ap, sym}
use vm_design.Common.{get_elem?-set_self, get_elem?-set_ne, length-set, length-append}
use vm_design.BoundedDeque.{BoundedDeque, next, previous, element_at, front, back, new_deque}
use vm_design.BoundedDeque.{push_back, push_front, pop_back, pop_front}
use vm_design.BoundedDeque.Represents.{
  Represents, wrap, slot, next-ok, previous-ok, slot-lt, slot-suc,
}
use vm_design.BoundedDeque.Represents.{slot_pred, slot_next_front, slot_previous_front}
use vm_design.BoundedDeque.Represents.{
  slot_new_front, slot_ne, slot_ne_front, slot-zero, assign-ok, mod-wrap,
}

module _ {T : Type 0} where
  get_elem?-append_lt :
      (xs ys : List T) (i : ℕ) → i < length xs → get_elem? (xs ++ ys) i ≡ get_elem? xs i
  get_elem?-append_lt [] ys i h = elim h [ ]
  get_elem?-append_lt (x ∷ xs) ys zero h = refl
  get_elem?-append_lt (x ∷ xs) ys (suc i) h = get_elem?-append_lt xs ys i (omega arith)

  get_elem?-append_end :
      (xs : List T) (x : T) (i : ℕ) → i ≡ length xs → get_elem? (xs ++ x ∷ []) i ≡ some x
  get_elem?-append_end [] x i e = rw e
  get_elem?-append_end (y ∷ xs) x zero e = absurd (omega arith)
  get_elem?-append_end (y ∷ xs) x (suc i) e = get_elem?-append_end xs x i (omega arith)

lt_or_eq : (i n : ℕ) → i < n + 1 → (i < n) ⊎ (i ≡ n)
lt_or_eq i zero h = inr (omega arith)
lt_or_eq zero (suc n) h = inl (omega arith)
lt_or_eq (suc i) (suc n) h = elim (lt_or_eq i n (omega arith)) [
  | inl l ↦ inl (omega arith)
  | inr e ↦ inr (omega arith)
]

module _ {T : Type 0} (d : BoundedDeque T) (xs : List T) where
  push_front-holds :
      (x : T)
      → Represents d xs
      → d.count < length d.container
      → (i : ℕ) → i < suc (length xs)
      → get_elem? (set d.container d.front_pos x) (
          slot
            (length d.container)
            (wrap (length d.container) (d.front_pos + (length d.container - 1)))
            i)
        ≡ get_elem? (x ∷ xs) i
  push_front-holds x r h zero k =
      rw (slot_new_front (length d.container) d.front_pos r.front_in)
        (get_elem?-set_self d.container d.front_pos x r.front_in)
  push_front-holds x r h (suc i) k =
      let n = length d.container in
      let l : i + 1 < n = omega (arith, r.items) in
      rw (slot_previous_front n d.front_pos i r.front_in (omega arith)) (
        get_elem?-set_ne d.container x (slot_ne_front n d.front_pos i r.front_in l)
        ∙ r.holds i (omega arith))

  -- On a deque that is not full, push_front puts the item in front of the others.
  pub push_front-Represents :
      (x : T)
      → Represents d xs
      → d.count < length d.container
      → (d' : BoundedDeque T) × (push_front x d ≡ ok d') × Represents d' (x ∷ xs)
  unfolding push_front
  push_front-Represents x r h =
      let n = length d.container in
      let c = set d.container d.front_pos x in
      let f = wrap n (d.front_pos + (n - 1)) in
      let l : length c ≡ n = length-set d.container d.front_pos x in
      let p : previous d.front_pos (length c) ≡ ok f =
        rw l (previous-ok d.front_pos n r.front_in r.small) in
      let q : (d.count + 1) % 2 ^ 64 ≡ suc d.count = omega (arith, r.small) in
      let b : slot n f (suc d.count) ≡ d.back_pos =
        slot_previous_front n d.front_pos d.count r.front_in h ∙ sym r.back_at in
      (
        record d { container = c; front_pos = f; count = suc d.count },
        rw (assign-ok d.front_pos x d r.front_in, p, q) refl,
        record {
          small = rw l r.small;
          front_in = rw l (ground (arith, r.front_in));
          back_at = rw l (sym b);
          room = rw l (omega arith);
          items = omega (arith, r.items);
          holds = λ i k. rw l (push_front-holds x r h i k);
        },
      )

  push_back-holds :
      (x : T)
      → Represents d xs
      → d.count < length d.container
      → (i : ℕ) → i < length (xs ++ x ∷ [])
      → get_elem? (set d.container d.back_pos x) (slot (length d.container) d.front_pos i)
        ≡ get_elem? (xs ++ x ∷ []) i
  push_back-holds x r h i k =
      let n = length d.container in
      let m : length (xs ++ x ∷ []) ≡ length xs + 1 = length-append xs (x ∷ []) in
      let b : d.back_pos < n = rw r.back_at (slot-lt n d.front_pos d.count r.front_in r.room) in
      elim (lt_or_eq i (length xs) (omega arith)) [
        | inl l ↦
            let ne : d.back_pos ≢ slot n d.front_pos i = λ e.
              slot_ne n d.front_pos d.count i r.front_in h (omega (arith, r.items))
                (λ j. omega (arith, r.items)) (sym r.back_at ∙ e) in
            get_elem?-set_ne d.container x ne
            ∙ r.holds i l
            ∙ sym (get_elem?-append_lt xs (x ∷ []) i l)
        | inr e ↦
            let p : slot n d.front_pos i ≡ d.back_pos =
              ap (λ j. slot n d.front_pos j) (e ∙ sym r.items) ∙ sym r.back_at in
            rw p (get_elem?-set_self d.container d.back_pos x b)
            ∙ sym (get_elem?-append_end xs x i e)
      ]

  -- On a deque that is not full, push_back puts the item behind the others.
  pub push_back-Represents :
      (x : T)
      → Represents d xs
      → d.count < length d.container
      → (d' : BoundedDeque T) × (push_back x d ≡ ok d') × Represents d' (xs ++ x ∷ [])
  unfolding push_back
  push_back-Represents x r h =
      let n = length d.container in
      let c = set d.container d.back_pos x in
      let b = wrap n (d.back_pos + 1) in
      let l : length c ≡ n = length-set d.container d.back_pos x in
      let k : d.back_pos < n = rw r.back_at (slot-lt n d.front_pos d.count r.front_in r.room) in
      let p : next d.back_pos (length c) ≡ ok b = rw l (next-ok d.back_pos n k r.small) in
      let q : (d.count + 1) % 2 ^ 64 ≡ suc d.count = omega (arith, r.small) in
      let a : b ≡ slot n d.front_pos (suc d.count) =
        ap (λ j. wrap n (j + 1)) r.back_at ∙ slot-suc n d.front_pos d.count r.front_in h in
      (
        record d { container = c; back_pos = b; count = suc d.count },
        rw (assign-ok d.back_pos x d k, p, q) refl,
        record {
          small = rw l r.small;
          front_in = rw l r.front_in;
          back_at = rw l a;
          room = rw l (omega arith);
          items = omega (arith, r.items, length-append xs (x ∷ []));
          holds = λ i k. rw l (push_back-holds x r h i k);
        },
      )

  -- front is the first item of a deque that holds one, and pop_front leaves the others.
  pub pop_front-Represents :
      (x : T)
      → Represents d (x ∷ xs)
      → (front d ≡ ok x) × (d' : BoundedDeque T) × (pop_front d ≡ ok d') × Represents d' xs
  unfolding front pop_front element_at
  pop_front-Represents x r =
      let n = length d.container in
      let f = wrap n (d.front_pos + 1) in
      let p : next d.front_pos n ≡ ok f = next-ok d.front_pos n r.front_in r.small in
      let q : sub64 d.count 1 ≡ length xs = omega (arith, r.small, r.items, r.room) in
      let m : length xs < n = omega (arith, r.items, r.room) in
      let h : get_elem? d.container f ≡ some x =
        ap (λ j. get_elem? d.container j) (sym (slot-zero n d.front_pos r.front_in))
        ∙ r.holds 0 (omega arith) in
      (
        rw (p, h) refl,
        record d { front_pos = f; count = length xs },
        rw (p, q) refl,
        record {
          small = r.small;
          front_in = ground (arith, r.front_in);
          back_at =
              r.back_at
              ∙ ap (λ j. slot n d.front_pos j) r.items
              ∙ sym (slot_next_front n d.front_pos (length xs) r.front_in m);
          room = omega arith;
          items = refl;
          holds = λ i k.
              rw (slot_next_front n d.front_pos i r.front_in (omega arith))
                (r.holds (suc i) (omega arith));
        },
      )

  -- back is the last item of a deque that holds one, and pop_back leaves the others.
  pub pop_back-Represents :
      (x : T)
      → Represents d (xs ++ x ∷ [])
      → (back d ≡ ok x) × (d' : BoundedDeque T) × (pop_back d ≡ ok d') × Represents d' xs
  unfolding back pop_back element_at
  pop_back-Represents x r =
      let n = length d.container in
      let s : length (xs ++ x ∷ []) ≡ suc (length xs) = omega (arith, length-append xs (x ∷ [])) in
      let b = slot n d.front_pos (length xs) in
      let k : d.back_pos < n = rw r.back_at (slot-lt n d.front_pos d.count r.front_in r.room) in
      let m : length xs < n = omega (arith, r.items, r.room) in
      let a : wrap n (d.back_pos + (n - 1)) ≡ b =
        ap (λ j. wrap n (j + (n - 1))) (r.back_at ∙ ap (λ j. slot n d.front_pos j) (r.items ∙ s))
        ∙ slot_pred n d.front_pos (length xs) r.front_in m in
      let p : previous d.back_pos n ≡ ok b =
        previous-ok d.back_pos n k r.small ∙ ap (λ j. ok j) a in
      let q : sub64 d.count 1 ≡ length xs = omega (arith, r.small, r.items, r.room) in
      let h : get_elem? d.container b ≡ some x =
        r.holds (length xs) (omega arith) ∙ get_elem?-append_end xs x (length xs) refl in
      (
        rw (p, h) refl,
        record d { back_pos = b; count = length xs },
        rw (p, q) refl,
        record {
          small = r.small;
          front_in = r.front_in;
          back_at = refl;
          room = omega arith;
          items = refl;
          holds = λ i k. r.holds i (omega arith) ∙ get_elem?-append_lt xs (x ∷ []) i k;
        },
      )

-- A new deque of a capacity from 1 on, below 2 ^ 63, holds nothing.
pub new_deque-Represents :
    {T : Type 0} (initial : T) (capacity : ℕ)
    → 0 < capacity
    → capacity < 2 ^ 63
    → Represents (new_deque initial capacity) []
unfolding new_deque
new_deque-Represents initial capacity h l =
    let e : length (replicate capacity initial) ≡ capacity = length-replicate capacity initial in
    let f : capacity / 2 < capacity = omega arith in
    let z : (capacity == 0) ≡ false = ground arith in
    let b : (capacity / 2 + 1) % 2 ^ 64 % capacity ≡ wrap capacity (capacity / 2 + 1) =
      ap (λ j. j % capacity) (omega arith) ∙ mod-wrap (capacity / 2 + 1) capacity (omega arith) in
    rw z (record {
      small = rw e l;
      front_in = rw e f;
      back_at = rw e (b ∙ sym (slot-zero capacity (capacity / 2) f));
      room = omega arith;
      items = refl;
      holds = λ i k. absurd (omega arith);
    })
