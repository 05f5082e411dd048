-- ===== src/IdiomAnalyzer/Adds.antt =====
-- What a step of the search adds to the marks and to the work set.
use mathlib.Core.List.{Memᴰ}
use mathlib.Core.List.Memᴰ
use vm_design.Common.{
  ap, get_elem?_lt, Option, none, ℕ, zero, suc, ◌+◌, ◌≡◌, ◌⊎◌, inl, inr, refl, arith, List, [], ◌∷◌,
  ◌++◌, Bool, true,
}
use vm_design.Common.{false, ok, some, get_elem?, set, length, length-set, get_elem?-set_self}
use vm_design.Common.{ok-injective}
use vm_design.IdiomAnalyzer.{Processor, enqueue, discover, mark_jump_target, reachable_at}

abbrev pub IsMarked : Processor → ℕ → Type 0
IsMarked p a = get_elem? p.reachable a ≡ some true

-- The addresses that are not marked.
abbrev pub unseen : List Bool → ℕ
unseen [] = 0
unseen (false ∷ bs) = suc (unseen bs)
unseen (true ∷ bs) = unseen bs

-- From `p` to `p'` the addresses `xs` are marked, and those of them that were not marked before are on
-- the work set.
pub record Adds (p : Processor) (xs : List ℕ) (p' : Processor) : Type 0 where
  pub same_size : length p'.reachable ≡ length p.reachable
  pub work : unseen p'.reachable + length p'.workset ≡ unseen p.reachable + length p.workset
  pub keeps : (a : ℕ) → IsMarked p a → IsMarked p' a
  pub marks : (a : ℕ) → Memᴰ a xs → IsMarked p' a
  pub news : (a : ℕ) → IsMarked p' a → IsMarked p a ⊎ (Memᴰ a xs × Memᴰ a p'.workset)
  pub stays : (a : ℕ) → Memᴰ a p.workset → Memᴰ a p'.workset
  pub comes : (a : ℕ) → Memᴰ a p'.workset → Memᴰ a p.workset ⊎ Memᴰ a xs

pub unseen-set :
    (bs : List Bool) (i : ℕ)
    → get_elem? bs i ≡ some false
    → suc (unseen (set bs i true)) ≡ unseen bs
unseen-set [] i e = absurd (cc)
unseen-set (true ∷ bs) zero e = absurd (cc)
unseen-set (false ∷ bs) zero e = refl
unseen-set (true ∷ bs) (suc i) e = unseen-set bs i e
unseen-set (false ∷ bs) (suc i) e = omega (arith, unseen-set bs i e)

marked-set :
    (bs : List Bool) (i j : ℕ)
    → get_elem? (set bs i true) j ≡ some true
    → (j ≡ i) ⊎ (get_elem? bs j ≡ some true)
marked-set [] i j e = inr e
marked-set (b ∷ bs) zero zero e = inl refl
marked-set (b ∷ bs) zero (suc j) e = inr e
marked-set (b ∷ bs) (suc i) zero e = inr e
marked-set (b ∷ bs) (suc i) (suc j) e = elim (marked-set bs i j e) [
  | inl p ↦ inl (ap suc p)
  | inr q ↦ inr q
]

set-marked :
    (bs : List Bool) (i j : ℕ)
    → get_elem? bs j ≡ some true
    → get_elem? (set bs i true) j ≡ some true
set-marked [] i j e = e
set-marked (b ∷ bs) zero zero e = refl
set-marked (b ∷ bs) zero (suc j) e = e
set-marked (b ∷ bs) (suc i) zero e = e
set-marked (b ∷ bs) (suc i) (suc j) e = set-marked bs i j e

pub Adds-none :
    {p p' : Processor} → p'.reachable ≡ p.reachable → p'.workset ≡ p.workset → Adds p [] p'
Adds-none e w = record {
  same_size = rw e;
  work = rw (e, w);
  keeps = λ a m. rw e m;
  marks = λ a m. absurd (Memᴰ.not-nil m);
  news = λ a m. inl (rw e at m);
  stays = λ a m. rw w m;
  comes = λ a m. inl (rw w at m);
}

pub Adds-append :
    {p q r : Processor} {xs ys : List ℕ} → Adds p xs q → Adds q ys r → Adds p (xs ++ ys) r
Adds-append {xs} {ys} f g = record {
  same_size = omega (arith, f.same_size, g.same_size);
  work = omega (arith, f.work, g.work);
  keeps = λ a m. g.keeps a (f.keeps a m);
  marks = λ a m. elim (Memᴰ.append_cases xs m) [
    | inl x ↦ g.keeps a (f.marks a x)
    | inr y ↦ g.marks a y
  ];
  news = λ a m. elim (g.news a m) [
    | inr (y, w) ↦ inr (Memᴰ.append_right xs y, w)
    | inl k ↦ elim (f.news a k) [
      | inl j ↦ inl j
      | inr (x, w) ↦ inr (Memᴰ.append_left ys x, g.stays a w)
    ]
  ];
  stays = λ a m. g.stays a (f.stays a m);
  comes = λ a m. elim (g.comes a m) [
    | inr y ↦ inr (Memᴰ.append_right xs y)
    | inl w ↦ elim (f.comes a w) [ inl v ↦ inl v | inr x ↦ inr (Memᴰ.append_left ys x) ]
  ];
}

-- The address `x` was not marked.
pub enqueue-Adds :
    (x : ℕ) (p : Processor) → get_elem? p.reachable x ≡ some false → Adds p (x ∷ []) (enqueue x p)
unfolding enqueue
enqueue-Adds x p e = record {
  same_size = length-set p.reachable x true;
  work = omega (arith, unseen-set p.reachable x e);
  keeps = λ a m. set-marked p.reachable x a m;
  marks = λ a m.
      rw (Memᴰ.eq_of_singleton m)
        (get_elem?-set_self p.reachable x true (get_elem?_lt p.reachable x e));
  news = λ a m. elim (marked-set p.reachable x a m) [
    | inl h ↦ inr (Memᴰ.head h, Memᴰ.head h)
    | inr k ↦ inl k
  ];
  stays = λ a m. Memᴰ.tail m;
  comes = λ a m. elim (Memᴰ.cases_cons m) [ inl h ↦ inr (Memᴰ.head h) | inr t ↦ inl t ];
}

pub Adds-marked : (x : ℕ) (p : Processor) → IsMarked p x → Adds p (x ∷ []) p
Adds-marked x p e = record {
  same_size = refl;
  work = refl;
  keeps = λ a m. m;
  marks = λ a m. rw (Memᴰ.eq_of_singleton m) e;
  news = λ a m. inl m;
  stays = λ a m. m;
  comes = λ a m. inl m;
}

pub discover-Adds :
    (x : ℕ) (p : Processor) {p' : Processor} → discover x p ≡ ok p' → Adds p (x ∷ []) p'
unfolding discover reachable_at
discover-Adds x p {p'} e = go (get_elem? p.reachable x) refl
  where
    go : (o : Option Bool) → get_elem? p.reachable x ≡ o → Adds p (x ∷ []) p'
    go none h = absurd (cc (rw (h, discover) at e))
    go (some true) h = rw (← ok-injective (rw (h, discover) at e)) (Adds-marked x p h)
    go (some false) h = rw (← ok-injective (rw (h, discover) at e)) (enqueue-Adds x p h)

-- A jump target is marked beside the search.
pub mark_jump_target-Adds :
    (x : ℕ) (p : Processor) {p' : Processor} → mark_jump_target x p ≡ ok p' → Adds p [] p'
unfolding mark_jump_target
mark_jump_target-Adds x p e = Adds-none (ground arith) (ground arith)
