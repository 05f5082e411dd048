-- ===== src/MemoryPool/Registry.antt =====
-- Assignment07/src/pool_registry.h and pool_registry.cpp: the guard pages of the pools there are, which the
-- handler of SIGSEGV looks up. Each operation is taken as a whole; a null pointer is 0.
use mathlib.Core.Path.{subst}
use vm_design.Common.{ℕ, suc, ◌+◌, ◌≡◌, refl, ◌∙◌, arith, List, [], ◌∷◌}
use vm_design.Common.{Bool, true, false, ◌&&◌, not, ◌==◌, ltb, leb, Option, none, some, set, length}
use vm_design.Common.{if◌then◌else◌, replicate}

pub record Registry : Type 0 where
  pub guard_firsts : List ℕ
  pub guard_lasts : List ℕ

abbrev pub max_pools : ℕ
max_pools = 0xFF

-- The arrays of pointers start as null pointers.
unfoldable pub new_registry : Registry
new_registry = record { guard_firsts = replicate max_pools 0; guard_lasts = replicate max_pools 0 }

-- The first place without a pool, from place `i` on.
unfoldable pub free_place : List ℕ → ℕ → Option ℕ
free_place [] i = none
free_place (first ∷ firsts) i = if first == 0 then some i else free_place firsts (i + 1)

abbrev pub place_pool : ℕ → ℕ → ℕ → Registry → Registry
place_pool i guard_first guard_last r = record {
  guard_firsts = set r.guard_firsts i guard_first;
  guard_lasts = set r.guard_lasts i guard_last;
}

-- `register_pool`; the program ends where there are too many pools.
unfoldable pub register_pool : ℕ → ℕ → Registry → Option (ℕ × Registry)
register_pool guard_first guard_last r = elim (free_place r.guard_firsts 0) [
  | none ↦ none
  | some i ↦ some (i, place_pool i guard_first guard_last r)
]

unfoldable pub unregister_pool : ℕ → Registry → Registry
unregister_pool pool_id r = record r { guard_firsts = set r.guard_firsts pool_id 0 }

-- Whether an address is in the guard pages from `first` to `last`.
unfoldable pub in_guard : ℕ → ℕ → ℕ → Bool
in_guard addr first last = not (first == 0) && (leb first addr && ltb addr last)

-- The loop of `find_pool` from place `i` on; `none` is `npos`.
unfoldable pub find_from : ℕ → List ℕ → List ℕ → ℕ → Option ℕ
find_from addr (first ∷ firsts) (last ∷ lasts) i =
    if in_guard addr first last then some i else find_from addr firsts lasts (i + 1)
find_from addr _ _ i = none

unfoldable pub find_pool : ℕ → Registry → Option ℕ
find_pool addr r = find_from addr r.guard_firsts r.guard_lasts 0

in_guard_free : (addr first last : ℕ) → (first == 0) ≡ true → in_guard addr first last ≡ false
unfolding in_guard
in_guard_free addr first last e = rw e refl

pub found_first :
    {A : Type 0} (b : Bool) (x : A) {o : Option A}
    → (if b then some x else o) ≡ none
    → (b ≡ false) × (o ≡ none)
found_first true x e = absurd (cc)
found_first false x e = (refl, e)

-- What is found after a pool came to the first free place, and after it has left it again.
record Comes (addr guard_first guard_last i k : ℕ) (firsts lasts : List ℕ) (j : ℕ) : Type 0 where
  at : k ≡ i + j
  found :
      find_from addr firsts lasts i ≡ none
      → find_from addr (set firsts j guard_first) (set lasts j guard_last) i
        ≡ (if in_guard addr guard_first guard_last then some k else none)
  left :
      find_from addr (set (set firsts j guard_first) j 0) (set lasts j guard_last) i
      ≡ find_from addr firsts lasts i

register-Comes :
    (addr guard_first guard_last : ℕ) (firsts lasts : List ℕ) (i : ℕ) {k : ℕ}
    → length firsts ≡ length lasts
    → free_place firsts i ≡ some k
    → (j : ℕ) × Comes addr guard_first guard_last i k firsts lasts j
unfolding free_place find_from
register-Comes addr gf gl [] lasts i e f = absurd (cc)
register-Comes addr gf gl (first ∷ firsts) [] i e f = absurd (omega arith)
register-Comes addr gf gl (first ∷ firsts) (last ∷ lasts) i {k} e f =
    by_place (first == 0) refl (λ h. register-Comes addr gf gl firsts lasts (i + 1) (omega arith) h)
  where
    Result : Type 0
    Result = (j : ℕ) × Comes addr gf gl i k (first ∷ firsts) (last ∷ lasts) j

    by_place :
        (b : Bool)
        → (first == 0) ≡ b
        → (free_place firsts (i + 1) ≡ some k → (j : ℕ) × Comes addr gf gl (i + 1) k firsts lasts j)
        → Result
    by_place true z later =
        let w : some i ≡ some k = rw z at f in
        let g : i ≡ k = cc in
        (
          0,
          record {
            at = omega arith;
            found = λ h. let (_, r) = found_first (in_guard addr first last) i h in rw (r, g) refl;
            left = rw (in_guard_free addr 0 gl refl, in_guard_free addr first last z) refl;
          },
        )
    by_place false z later =
        let g : free_place firsts (i + 1) ≡ some k = rw z at f in
        let (j, c) = later g in
        (
          suc j,
          record {
            at = let a = c.at in omega arith;
            found =
                λ h. let (w, r) = found_first (in_guard addr first last) i h in rw w (c.found r);
            left = rw c.left refl;
          },
        )

-- In a registry with arrays of the same length, where an address is in no guard pages that are
-- registered: after a pool could be registered it is found exactly if it is in that pool's guard pages,
-- as that pool, and after that pool was unregistered again it is not found.
pub register_pool-find_pool :
    (addr guard_first guard_last : ℕ) (r : Registry) {k : ℕ} {r' : Registry}
    → length r.guard_firsts ≡ length r.guard_lasts
    → register_pool guard_first guard_last r ≡ some (k, r')
    → find_pool addr r ≡ none
    → (find_pool addr r' ≡ (if in_guard addr guard_first guard_last then some k else none))
      × (find_pool addr (unregister_pool k r') ≡ none)
unfolding register_pool find_pool unregister_pool
register_pool-find_pool addr gf gl r {k} {r'} e f h = by_place (free_place r.guard_firsts 0) refl f
  where
    Result : Type 0
    Result =
        (find_pool addr r' ≡ (if in_guard addr gf gl then some k else none))
        × (find_pool addr (unregister_pool k r') ≡ none)

    moved :
        {x : ℕ × Registry}
        → ◌≡◌ {A = ℕ × Registry} x (k, r')
        → (find_pool addr x.1 ≡ (if in_guard addr gf gl then some x.0 else none))
          × (find_pool addr (unregister_pool x.0 x.1) ≡ none)
        → Result
    moved w v =
        subst
          (λ (x : ℕ × Registry).
            (find_pool addr x.1 ≡ (if in_guard addr gf gl then some x.0 else none))
            × (find_pool addr (unregister_pool x.0 x.1) ≡ none))
          w v

    by_place :
        (o : Option ℕ)
        → free_place r.guard_firsts 0 ≡ o
        → ◌≡◌ {A = Option (ℕ × Registry)}
            (elim o [ none ↦ none | some i ↦ some (i, place_pool i gf gl r) ])
            (some (k, r'))
        → Result
    by_place none g m = absurd (cc)
    by_place (some i) g m =
        let (j, c) = register-Comes addr gf gl r.guard_firsts r.guard_lasts 0 e g in
        let a = c.at in
        let b : i ≡ j = omega arith in
        let w : ◌≡◌ {A = ℕ × Registry} (i, place_pool i gf gl r) (k, r') = cc in
        let t = c.left in let u = c.found h in moved w (rw b (rw b at u, t ∙ h))
