-- ===== src/ParallelMemcpy/Chunks.antt =====
-- How the bytes are shared out.
use native.Mathlib.Nat.{div-mul-le_self, le-div_iff_mul-le}
use native.Mathlib.Nat.{
  mul-le-mul_right, div-eq_of_lt, mod-eq_of_lt, div-le_self, mul-add, mul-one, one-mul, mul_comm,
}
use vm_design.Common.{◌⊎◌, inl, inr, leb, Bool-cases}
use vm_design.Common.{ℕ, ◌+◌, ◌-◌, ◌*◌, ◌/◌, ◌%◌, ◌^◌, ◌<◌, ◌≤◌, ◌≡◌, refl, ◌∙◌, arith}
use vm_design.Common.{Result, ok, guard, >>=-eq-ok, guard-eq-ok, ok-injective, ◌==◌, not}
use vm_design.Common.Words.{sub64, add64}
use vm_design.Error.{Error, undefined}
use vm_design.ParallelMemcpy.{Plan, plan, clamp}

-- The parts of a plan: chunks of the same size one after the other, then the tail.
pub record Cuts (size : ℕ) (p : Plan) : Type 0 where
  pub fits : size < 2 ^ 64
  pub offset : p.tail_offset ≡ p.chunk_size * p.tasks_cnt
  pub rest : p.tail_offset + p.tail_size ≡ size

clamp_zero-le : (v hi : ℕ) → clamp v 0 hi ≤ hi
unfolding clamp
clamp_zero-le v hi = ground arith

clamp-lt : (v hi n : ℕ) → v < 2 ^ 64 → 0 < v → n ≡ clamp (sub64 v 1) 0 hi → n + 1 ≤ v
unfolding clamp
clamp-lt v hi n l m e = ground arith

clamp_wraps : (hi : ℕ) → hi < 2 ^ 32 → clamp (sub64 0 1) 0 hi ≡ hi
unfolding clamp
clamp_wraps hi l = ground arith

chunk-ge : (n k pagesize size : ℕ) → n + 1 ≤ k → k * pagesize ≤ size → pagesize ≤ size / (n + 1)
chunk-ge n k pagesize size l m =
    let h : (n + 1) * pagesize ≤ k * pagesize = mul-le-mul_right pagesize l in
    let c : pagesize * (n + 1) ≡ (n + 1) * pagesize = mul_comm pagesize (n + 1) in
    let z : 0 < n + 1 = omega arith in (le-div_iff_mul-le z).1 (omega arith)

-- Below 2 ^ 32 threads nothing wraps around.
cut :
    (n size : ℕ) {p : Plan}
    → size < 2 ^ 64
    → n < 2 ^ 32
    → ◌≡◌ {A = Result Error Plan}
        (ok (record {
          tasks_cnt = n;
          chunk_size = size / add64 n 1;
          tail_offset = size / add64 n 1 * n % 2 ^ 64;
          tail_size = sub64 size (size / add64 n 1 * n % 2 ^ 64);
        }))
        (ok p)
    → Cuts size p × (p.tasks_cnt ≡ n) × (p.chunk_size ≡ size / (n + 1))
cut n size {p} l m e =
    let w : add64 n 1 ≡ n + 1 = omega arith in
    let c = size / (n + 1) in
    let h : c * (n + 1) ≤ size = div-mul-le_self size (n + 1) in
    let d : c * (n + 1) ≡ c * n + c = let o = mul-add c n 1 in omega (arith, mul-one c) in
    let o : c * n % 2 ^ 64 ≡ c * n = mod-eq_of_lt (omega arith) in
    let t : sub64 size (c * n) ≡ size - c * n = omega arith in
    rw (← ok-injective e)
      (rw (w, o, t) (record { fits = l; offset = refl; rest = omega arith }, refl, refl))

pub plan-Cuts :
    (pagesize threads size : ℕ) {p : Plan}
    → size < 2 ^ 64
    → threads < 2 ^ 32
    → plan pagesize threads size ≡ ok p
    → (n : ℕ) × (n ≡ clamp (sub64 (size / pagesize) 1) 0 threads)
      × (n ≤ threads)
      × (0 < pagesize)
      × Cuts size p
      × (p.tasks_cnt ≡ n)
      × (p.chunk_size ≡ size / (n + 1))
unfolding plan
plan-Cuts pagesize threads size {p} l m e =
    let (_, f, e₁) = >>=-eq-ok (guard (not (pagesize == 0)) undefined) _ e in
    let n = clamp (sub64 (size / pagesize) 1) 0 threads in
    let (_, g, e₂) = >>=-eq-ok (guard (not (add64 n 1 == 0)) undefined) _ e₁ in
    let h = clamp_zero-le (sub64 (size / pagesize) 1) threads in
    let k = guard-eq-ok (not (pagesize == 0)) undefined f in
    let (a, b, c) = cut n size l (omega arith) e₂ in (n, refl, h, ground arith, a, b, c)

-- Below 2 ^ 32 threads, for a size below 2 ^ 64, no more tasks are made than there are threads, which is
-- how many actions the pool has room for; and either the chunks are of a page or more, or the copy is of
-- less than a page and is cut for all threads.
pub plan-bounds :
    (pagesize threads size : ℕ) {p : Plan}
    → size < 2 ^ 64
    → threads < 2 ^ 32
    → plan pagesize threads size ≡ ok p
    → (p.tasks_cnt ≤ threads)
      × ((pagesize ≤ p.chunk_size) ⊎ ((size < pagesize) × (p.tasks_cnt ≡ threads)))
plan-bounds pagesize threads size {p} l m e =
    let (n, c, h, z, _, t, q) = plan-Cuts pagesize threads size l m e in
    let v = size / pagesize in
    let d : v ≤ size = div-le_self size pagesize in
    (
      rw t h,
      elim (Bool-cases (leb pagesize size)) [
        | inl b ↦
            let k : pagesize ≤ size = ground arith in
            let o : 1 * pagesize ≤ size = omega (arith, one-mul pagesize) in
            let w = (le-div_iff_mul-le z).1 o in
            let g =
              chunk-ge n v pagesize size (clamp-lt v threads n (omega arith) w c)
                (div-mul-le_self size pagesize) in
            inl (rw q g)
        | inr b ↦
            let k : size < pagesize = ground arith in
            let u : v ≡ 0 = div-eq_of_lt k in inr (k, t ∙ c ∙ rw u (clamp_wraps threads m))
      ],
    )
