-- ===== src/MemoryPool/Exclusive.antt =====
-- The places of a registry that threads use at the same time.
use vm_design.Common.{
  replicate, zero, suc, true, false, ℕ, ◌+◌, ◌≡◌, ◌≢◌, refl, sym, ap, ◌∙◌, List, [], ◌∷◌, none,
  some,
}
use vm_design.Common.{get_elem?, get_elem?-set_self, get_elem?_lt, set, length-set}
use vm_design.MemoryPool.Registry.{
  Registry, new_registry, found_first, in_guard, find_from, find_pool,
}
use vm_design.MemoryPool.Places.{
  some-injective, put-Fine, others_places, Placed-occupied, Placed-set_first, Placed-set_last,
}
use vm_design.MemoryPool.Clients.{
  idle, tries, stores, has, System, new_system, start, exchange, next_place, store_last, unregister,
  Step, Reach, here, step, Fine,
}

true-ne-false : true ≢ false
true-ne-false e = cc

none-ne-some : {A : Type 0} {a : A} → none ≢ some a
none-ne-some e = cc

Step-Fine : {s t : System} → Step s t → Fine s → Fine t
Step-Fine (start s k gf gl at n) f =
    put-Fine s f k at (tries 0 gf gl) s.registry f.lengths n (λ l d m g p. p)
      (λ i l d m g p. absurd (cc))
Step-Fine (next_place s k i gf gl other at e n) f =
    put-Fine s f k at (tries (i + 1) gf gl) s.registry f.lengths (f.placed k _ at) (λ l d m g p. p)
      (λ j l d m g p. absurd (cc))
Step-Fine (exchange s k i gf gl at e) f =
    let r : Registry = s.registry in
    put-Fine s f k at (stores i gf gl) (record r { guard_firsts = set r.guard_firsts i gf })
      (length-set r.guard_firsts i gf ∙ f.lengths)
      (f.placed k _ at, get_elem?-set_self r.guard_firsts i gf (get_elem?_lt r.guard_firsts i e))
      (λ l d m g p. Placed-set_first r d i gf (Placed-occupied r d i p e) p)
      (λ j l d m g p. rw (← some-injective p) (Placed-occupied r d i (f.placed l d g) e))
Step-Fine (store_last s k i gf gl at) f =
    let r : Registry = s.registry in
    let (n, e) = f.placed k _ at in
    put-Fine s f k at (has i gf gl) (record r { guard_lasts = set r.guard_lasts i gl })
      (f.lengths ∙ sym (length-set r.guard_lasts i gl))
      (
        n,
        e,
        get_elem?-set_self r.guard_lasts i gl (rw (← f.lengths) (get_elem?_lt r.guard_firsts i e)),
      )
      (λ l d m g p. Placed-set_last r d i gl (others_places s f k at i l d refl m g) p)
      (λ j l d m g p. others_places s f k at j l d p m g)
Step-Fine (unregister s k i gf gl at) f =
    let r : Registry = s.registry in
    put-Fine s f k at idle (record r { guard_firsts = set r.guard_firsts i 0 })
      (length-set r.guard_firsts i 0 ∙ f.lengths) tt
      (λ l d m g p. Placed-set_first r d i 0 (others_places s f k at i l d refl m g) p)
      (λ j l d m g p. absurd (cc))

Reach-Fine : {s t : System} → Reach s t → Fine s → Fine t
Reach-Fine here f = f
Reach-Fine (step r last) f = Step-Fine last (Reach-Fine r f)

get_elem?-replicate_eq :
    {A : Type 0} (n : ℕ) (a b : A) (i : ℕ) → get_elem? (replicate n a) i ≡ some b → b ≡ a
get_elem?-replicate_eq zero a b i e = absurd (cc)
get_elem?-replicate_eq (suc n) a b zero e = sym (some-injective e)
get_elem?-replicate_eq (suc n) a b (suc i) e = get_elem?-replicate_eq n a b i e

new_system-Fine : (threads : ℕ) → Fine (new_system threads)
unfolding new_registry
new_system-Fine threads = record {
  lengths = refl;
  placed = λ k c e. rw (get_elem?-replicate_eq threads idle c k e) tt;
  alone = λ k l c d i e g p q.
      let z : c ≡ idle = get_elem?-replicate_eq threads idle c k e in
      absurd (none-ne-some (rw (z) at p));
}

find_from-in_guard :
    (addr : ℕ) (firsts lasts : List ℕ) (i from : ℕ) {first last : ℕ}
    → get_elem? firsts i ≡ some first
    → get_elem? lasts i ≡ some last
    → in_guard addr first last ≡ true
    → find_from addr firsts lasts from ≢ none
unfolding find_from
find_from-in_guard addr [] lasts i from e g h q = cc
find_from-in_guard addr (f ∷ firsts) [] i from e g h q = cc
find_from-in_guard addr (f ∷ firsts) (l ∷ lasts) zero from e g h q =
    let (w, _) = found_first (in_guard addr f l) from q in
    true-ne-false (sym h ∙ rw (some-injective e, some-injective g) at w)
find_from-in_guard addr (f ∷ firsts) (l ∷ lasts) (suc i) from e g h q =
    let (_, later) = found_first (in_guard addr f l) from q in
    find_from-in_guard addr firsts lasts i (from + 1) e g h later

-- However the threads of a program register and unregister pools, starting with an empty registry:
-- two threads that have their pools registered have them at different places, and an address in the guard pages of one of
-- them is found to be in a pool.
pub Reach-find_pool :
    (threads addr k l i j first last first' last' : ℕ) (t : System)
    → Reach (new_system threads) t
    → get_elem? t.clients k ≡ some (has i first last)
    → get_elem? t.clients l ≡ some (has j first' last')
    → k ≢ l
    → in_guard addr first last ≡ true
    → (i ≢ j) × (find_pool addr t.registry ≢ none)
unfolding find_pool
Reach-find_pool threads addr k l i j first last first' last' t r e g n h =
    let f = Reach-Fine r (new_system-Fine threads) in
    let (_, a, b) = f.placed k _ e in
    (
      λ q. n (f.alone k l _ _ i e g refl (ap some (sym q))),
      find_from-in_guard addr t.registry.guard_firsts t.registry.guard_lasts i 0 a b h,
    )
