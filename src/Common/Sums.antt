-- ===== src/Common/Sums.antt =====
-- A measure of the items of a list, summed up over them.
use Prim.Native.Nat.{ℕ, zero, suc, ◌+◌, ◌*◌, ◌≤◌, ◌<◌}
use mathlib.Core.Path.{◌≡◌, refl, ap, ◌∙◌}
use mathlib.Core.List.{List, [], ◌∷◌, ◌++◌, Permᴰ}
use mathlib.Core.Option.{some}
use native.Mathlib.Nat.{suc-mul, zero-mul}
use native.Mathlib.Omega.{arith}
use vm_design.Common.Lists.{length, get_elem?, set, replicate}

module _ {A : Type 0} where
  abbrev pub sum : (A → ℕ) → List A → ℕ
  sum f [] = 0
  sum f (x ∷ xs) = f x + sum f xs

  pub sum-append : (f : A → ℕ) (xs ys : List A) → sum f (xs ++ ys) ≡ sum f xs + sum f ys
  sum-append f [] ys = omega arith
  sum-append f (x ∷ xs) ys = let h = sum-append f xs ys in omega arith

  pub sum-perm : (f : A → ℕ) {xs ys : List A} → Permᴰ xs ys → sum f xs ≡ sum f ys
  sum-perm f Permᴰ.nil = refl
  sum-perm f (Permᴰ.cons e p) = let h = ap f e in let t = sum-perm f p in omega arith
  sum-perm f (Permᴰ.swap e g) = let h = ap f e in let k = ap f g in omega arith
  sum-perm f (Permᴰ.trans p q) = sum-perm f p ∙ sum-perm f q

  pub length-perm : {xs ys : List A} → Permᴰ xs ys → length xs ≡ length ys
  length-perm Permᴰ.nil = refl
  length-perm (Permᴰ.cons e p) = ap suc (length-perm p)
  length-perm (Permᴰ.swap e f) = refl
  length-perm (Permᴰ.trans p q) = length-perm p ∙ length-perm q

  pub sum-set :
      (f : A → ℕ) (xs : List A) (i : ℕ) {x : A} (v : A)
      → get_elem? xs i ≡ some x
      → sum f (set xs i v) + f x ≡ sum f xs + f v
  sum-set f [] i v e = absurd (cc)
  sum-set f (y ∷ ys) zero {x} v e = let h : f y ≡ f x = cc in omega arith
  sum-set f (y ∷ ys) (suc i) v e = let h = sum-set f ys i v e in omega arith

  pub sum-elem :
      (f : A → ℕ) (xs : List A) (i : ℕ) {x : A} → get_elem? xs i ≡ some x → f x ≤ sum f xs
  sum-elem f [] i e = absurd (cc)
  sum-elem f (y ∷ ys) zero {x} e = let h : f y ≡ f x = cc in omega arith
  sum-elem f (y ∷ ys) (suc i) e = let h = sum-elem f ys i e in omega arith

  pub sum-replicate : (f : A → ℕ) (n : ℕ) (x : A) → f x ≡ 0 → sum f (replicate n x) ≡ 0
  sum-replicate f zero x e = refl
  sum-replicate f (suc n) x e = let h = sum-replicate f n x e in omega arith

  pub sum-replicate_eq : (f : A → ℕ) (n : ℕ) (x : A) → sum f (replicate n x) ≡ n * f x
  sum-replicate_eq f zero x = rw (zero-mul (f x)) refl
  sum-replicate_eq f (suc n) x =
      let h = sum-replicate_eq f n x in let k = suc-mul n (f x) in omega arith

  -- Where the sum is positive, some item is measured as positive.
  pub sum-witness :
      (f : A → ℕ) (xs : List A)
      → 0 < sum f xs
      → (i : ℕ) × (x : A) × (get_elem? xs i ≡ some x) × (0 < f x)
  sum-witness f [] l = absurd (omega arith)
  sum-witness f (x ∷ xs) l = first (f x) refl (λ m. sum-witness f xs m)
    where
      Found : Type 0
      Found = (i : ℕ) × (v : A) × (get_elem? (x ∷ xs) i ≡ some v) × (0 < f v)

      first :
          (n : ℕ)
          → f x ≡ n
          → (0 < sum f xs → (i : ℕ) × (v : A) × (get_elem? xs i ≡ some v) × (0 < f v))
          → Found
      first zero e later = let (i, v, g, h) = later (omega arith) in (suc i, v, g, h)
      first (suc n) e later = (0, x, refl, omega arith)
