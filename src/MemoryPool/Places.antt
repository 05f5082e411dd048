-- ===== src/MemoryPool/Places.antt =====
-- What one step of a thread does to the places of the registry.
use vm_design.Common.{arith, ℕ, ◌<◌, ◌≡◌, ◌≢◌, sym, ap, ◌∙◌, ◌⊎◌, inl, inr, List, some}
use vm_design.Common.{get_elem?, get_elem?-set_self, get_elem?-set_ne, get_elem?_lt, set, length}
use vm_design.MemoryPool.Registry.{Registry}
use vm_design.MemoryPool.Clients.{
  Client, idle, tries, stores, has, System, put, place, Placed, Fine,
}

same_or_not : (k l : ℕ) → (l ≡ k) ⊎ (l ≢ k)
same_or_not k l = ground arith

pub some-injective : {A : Type 0} {a b : A} → some a ≡ some b → a ≡ b
some-injective e = cc

-- The thread at `l` behind a change of that at `k`.
client-set :
    (clients : List Client) (k l : ℕ) (c d : Client)
    → get_elem? (set clients k c) l ≡ some d
    → k < length clients
    → ((l ≡ k) × (d ≡ c)) ⊎ ((l ≢ k) × (get_elem? clients l ≡ some d))
client-set clients k l c d e h = elim (same_or_not k l) [
  | inl q ↦ inl (
    q,
    some-injective (sym e ∙ ap (get_elem? (set clients k c)) q ∙ get_elem?-set_self clients k c h),
  )
  | inr n ↦ inr (n, sym (get_elem?-set_ne clients c (λ q. n (sym q))) ∙ e)
]

-- A place that is written keeps what the threads with other places have there.
get_first-other :
    (firsts : List ℕ) (i j x : ℕ) {y : ℕ}
    → i ≢ j
    → get_elem? firsts j ≡ some y
    → get_elem? (set firsts i x) j ≡ some y
get_first-other firsts i j x n e = get_elem?-set_ne firsts x n ∙ e

module _ (s : System) (f : Fine s) (k : ℕ) {c : Client} (at : get_elem? s.clients k ≡ some c) where
  -- Thread `k` goes over to `c'`, while the registry becomes `r`.
  pub put-Fine :
      (c' : Client) (r : Registry)
      → length r.guard_firsts ≡ length r.guard_lasts
      → Placed r c'
      → ((l : ℕ) (d : Client)
          → l ≢ k
          → get_elem? s.clients l ≡ some d
          → Placed s.registry d
          → Placed r d)
      → ((i l : ℕ) (d : Client)
          → l ≢ k
          → get_elem? s.clients l ≡ some d
          → place c' ≡ some i
          → place d ≢ some i)
      → Fine (put k c' (record s { registry = r }))
  put-Fine c' r len p others free = record {
    lengths = len;
    placed = λ l d e. elim (client-set s.clients k l c' d e (get_elem?_lt s.clients k at)) [
      | inl (q, z) ↦ rw (z) p
      | inr (n, g) ↦ others l d n g (f.placed l d g)
    ];
    alone = λ l m d e i a b p q.
        both l m d e i (client-set s.clients k l c' d a (get_elem?_lt s.clients k at))
          (client-set s.clients k m c' e b (get_elem?_lt s.clients k at)) p q;
  }
    where
      both :
          (l m : ℕ) (d e : Client) (i : ℕ)
          → ((l ≡ k) × (d ≡ c')) ⊎ ((l ≢ k) × (get_elem? s.clients l ≡ some d))
          → ((m ≡ k) × (e ≡ c')) ⊎ ((m ≢ k) × (get_elem? s.clients m ≡ some e))
          → place d ≡ some i
          → place e ≡ some i
          → l ≡ m
      both l m d e i (inl (a, _)) (inl (b, _)) p q = a ∙ sym b
      both l m d e i (inl (a, z)) (inr (n, g)) p q = absurd (free i m e n g (rw (z) at p) q)
      both l m d e i (inr (n, g)) (inl (b, z)) p q = absurd (free i l d n g (rw (z) at q) p)
      both l m d e i (inr (_, g)) (inr (_, h)) p q = f.alone l m d e i g h p q

  -- The place of thread `k` is no other's.
  pub others_places :
      (i l : ℕ) (d : Client)
      → place c ≡ some i
      → l ≢ k
      → get_elem? s.clients l ≡ some d
      → place d ≢ some i
  others_places i l d p n g q = n (f.alone l k d c i g at q p)

-- A null pointer is at no thread's place.
pub Placed-occupied :
    (r : Registry) (d : Client) (i : ℕ)
    → Placed r d
    → get_elem? r.guard_firsts i ≡ some 0
    → place d ≢ some i
Placed-occupied r idle i p e q = cc
Placed-occupied r (tries j gf gl) i p e q = cc
Placed-occupied r (stores j gf gl) i (n, g) e q =
    let z : j ≡ i = some-injective q in n (some-injective (sym (rw (z) at g) ∙ e))
Placed-occupied r (has j gf gl) i (n, g, h) e q =
    let z : j ≡ i = some-injective q in n (some-injective (sym (rw (z) at g) ∙ e))

pub Placed-set_first :
    (r : Registry) (d : Client) (i x : ℕ)
    → place d ≢ some i
    → Placed r d
    → Placed (record r { guard_firsts = set r.guard_firsts i x }) d
Placed-set_first r idle i x n p = tt
Placed-set_first r (tries j gf gl) i x n p = p
Placed-set_first r (stores j gf gl) i x n (m, g) =
    (m, get_first-other r.guard_firsts i j x (λ q. n (ap some (sym q))) g)
Placed-set_first r (has j gf gl) i x n (m, g, h) =
    (m, get_first-other r.guard_firsts i j x (λ q. n (ap some (sym q))) g, h)

pub Placed-set_last :
    (r : Registry) (d : Client) (i x : ℕ)
    → place d ≢ some i
    → Placed r d
    → Placed (record r { guard_lasts = set r.guard_lasts i x }) d
Placed-set_last r idle i x n p = tt
Placed-set_last r (tries j gf gl) i x n p = p
Placed-set_last r (stores j gf gl) i x n p = p
Placed-set_last r (has j gf gl) i x n (m, g, h) =
    (m, g, get_first-other r.guard_lasts i j x (λ q. n (ap some (sym q))) h)
