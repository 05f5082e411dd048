-- ===== src/MemoryPool/Handler.antt =====
-- Assignment07/src/sigsegv_handler.cpp: the handler of SIGSEGV names the pool whose guard pages were hit. The
-- number is written into the array `string_pool_id`, from its last digit on.
use vm_design.Common.{
  arith, ℕ, zero, suc, ◌+◌, ◌-◌, ◌*◌, ◌/◌, ◌%◌, ◌^◌, ◌<◌, ◌≤◌, ◌≡◌, refl, ap, ◌∙◌,
}
use vm_design.Common.{
  List, [], ◌∷◌, ◌++◌, Bool, true, false, Option, some, none, ◌⊎◌, inl, inr, ◌==◌, set, length,
  take, length-take, length-set, get_elem?, get_elem?-set_self, get_elem?-set_ne, if◌then◌else◌,
}
use native.Mathlib.Nat.{pow-suc}

-- The loop that counts the digits, at most `fuel` of them, from `digit` on.
unfoldable pub count_digits : ℕ → ℕ → ℕ → ℕ
count_digits zero i digit = digit
count_digits (suc fuel) i digit =
    let rest = count_digits fuel (i / 10) (digit + 1) in if i == 0 then digit else rest

-- The loop that writes them; `digit` is how many are left.
unfoldable pub write_digits : ℕ → ℕ → List ℕ → List ℕ
write_digits zero pool_id text = text
write_digits (suc digit) pool_id text =
    write_digits digit (pool_id / 10) (set text digit (48 + pool_id % 10))

-- `std::string_view{text}`: the characters in front of the first zero byte, or `none` where the array has none.
unfoldable pub up_to_zero : List ℕ → Option (List ℕ)
up_to_zero [] = none
up_to_zero (c ∷ cs) =
    let rest = up_to_zero cs in
    if c == 0 then some [] else elim rest [ some s ↦ some (c ∷ s) | none ↦ none ]

-- The text of the number, in an array that held `text`. The characters are made in it from the
-- last to the first, in front of the zero byte that ends them.
unfoldable pub string_pool_id : ℕ → List ℕ → Option (List ℕ)
unfolding count_digits write_digits up_to_zero
string_pool_id pool_id text =
    let digit = count_digits 20 pool_id (if pool_id == 0 then 1 else 0) in
    up_to_zero (write_digits digit pool_id (set text digit 0))

-- What a decimal number stands for.
unfoldable pub of_decimal : ℕ → List ℕ → ℕ
of_decimal n [] = n
of_decimal n (c ∷ cs) = of_decimal (10 * n + (c - 48)) cs

of_decimal-append :
    (n : ℕ) (cs : List ℕ) (c : ℕ) → of_decimal n (cs ++ c ∷ []) ≡ 10 * of_decimal n cs + (c - 48)
unfolding of_decimal
of_decimal-append n [] c = refl
of_decimal-append n (d ∷ cs) c = of_decimal-append (10 * n + (d - 48)) cs c

-- The digits are written below the place `digit`.
write_digits-length :
    (digit x : ℕ) (text : List ℕ) → length (write_digits digit x text) ≡ length text
unfolding write_digits
write_digits-length zero x text = refl
write_digits-length (suc digit) x text =
    write_digits-length digit (x / 10) _ ∙ length-set text digit _

write_digits-above :
    (digit x : ℕ) (text : List ℕ) (i : ℕ)
    → digit ≤ i
    → get_elem? (write_digits digit x text) i ≡ get_elem? text i
unfolding write_digits
write_digits-above zero x text i h = refl
write_digits-above (suc digit) x text i h =
    write_digits-above digit (x / 10) _ i (omega arith) ∙ get_elem?-set_ne text _ (omega arith)

take-suc :
    (n : ℕ) (xs : List ℕ) {x : ℕ} → get_elem? xs n ≡ some x → take (suc n) xs ≡ take n xs ++ x ∷ []
take-suc n [] e = absurd (cc)
take-suc zero (y ∷ ys) {x} e = cc
take-suc (suc n) (y ∷ ys) e = ap (λ zs. y ∷ zs) (take-suc n ys e)

of_decimal-write_digits :
    (digit x : ℕ) (text : List ℕ)
    → digit ≤ length text
    → x < 10 ^ digit
    → of_decimal 0 (take digit (write_digits digit x text)) ≡ x
unfolding write_digits of_decimal
of_decimal-write_digits zero x text l h = omega arith
of_decimal-write_digits (suc digit) x text l h =
    let p : 10 ^ suc digit ≡ 10 ^ digit * 10 = pow-suc 10 digit in
    let text' : List ℕ = set text digit (48 + x % 10) in
    let k : length text' ≡ length text = length-set text digit _ in
    let last =
      write_digits-above digit (x / 10) text' digit (omega arith)
      ∙ get_elem?-set_self text digit (48 + x % 10) (omega arith) in
    let rest = of_decimal-write_digits digit (x / 10) text' (omega arith) (omega arith) in
    rw
      (
        take-suc digit _ last,
        of_decimal-append 0 (take digit (write_digits digit (x / 10) text')) _,
        rest,
      )
      (omega arith)

count_digits-fits :
    (fuel i digit : ℕ)
    → i < 10 ^ fuel
    → (n : ℕ) × (count_digits fuel i digit ≡ digit + n) × (n ≤ fuel) × (i < 10 ^ n)
unfolding count_digits
count_digits-fits zero i digit h = (0, omega arith, omega arith, h)
count_digits-fits (suc fuel) i digit h =
    let p : 10 ^ suc fuel ≡ 10 ^ fuel * 10 = pow-suc 10 fuel in
    let (n, e, l, b) = count_digits-fits fuel (i / 10) (digit + 1) (omega arith) in
    by_digit (i == 0) refl n e l b
  where
    Fits : Type 0
    Fits = (n : ℕ) × (count_digits (suc fuel) i digit ≡ digit + n) × (n ≤ suc fuel) × (i < 10 ^ n)

    by_digit :
        (b : Bool)
        → (i == 0) ≡ b
        → (n : ℕ) → count_digits fuel (i / 10) (digit + 1) ≡ digit + 1 + n
        → n ≤ fuel
        → i / 10 < 10 ^ n
        → Fits
    by_digit true q n e l b =
        (0, rw (q, count_digits) (omega arith), omega arith, ground (q, arith))
    by_digit false q n e l b =
        let p : 10 ^ suc n ≡ 10 ^ n * 10 = pow-suc 10 n in
        (suc n, rw (q, count_digits) (omega arith), omega arith, omega arith)

count_digits-zero : (fuel i digit : ℕ) → (i == 0) ≡ true → count_digits (suc fuel) i digit ≡ digit
unfolding count_digits
count_digits-zero fuel i digit q = rw (q, count_digits) refl

-- A pool's number has a digit, also where it is 0.
digits-total :
    (pool_id : ℕ)
    → pool_id < 2 ^ 64
    → (digit : ℕ) × (count_digits 20 pool_id (if pool_id == 0 then 1 else 0) ≡ digit)
      × (digit ≤ 20)
      × (pool_id < 10 ^ digit)
digits-total pool_id h = by_zero (pool_id == 0) refl (count_digits-fits 20 pool_id 0 (omega arith))
  where
    by_zero :
        (b : Bool)
        → (pool_id == 0) ≡ b
        → (n : ℕ) × (count_digits 20 pool_id 0 ≡ 0 + n) × (n ≤ 20) × (pool_id < 10 ^ n)
        → (digit : ℕ) × (count_digits 20 pool_id (if pool_id == 0 then 1 else 0) ≡ digit)
          × (digit ≤ 20)
          × (pool_id < 10 ^ digit)
    by_zero true q f =
        (1, rw (q) (count_digits-zero 19 pool_id 1 q), omega arith, ground (q, arith))
    by_zero false q (n, e, l, b) = (n, rw (q) (omega (arith, e)), l, b)

-- Behind `n` characters that are not zero stands a zero byte: the text is those characters.
up_to_zero-take :
    (n : ℕ) (text : List ℕ)
    → get_elem? text n ≡ some 0
    → ((i : ℕ) → i < n → (c : ℕ) × (get_elem? text i ≡ some (suc c)))
    → up_to_zero text ≡ some (take n text)
unfolding up_to_zero
up_to_zero-take n [] e h = absurd (cc)
up_to_zero-take zero (c ∷ cs) e h = let z : c ≡ 0 = cc in rw (z) refl
up_to_zero-take (suc n) (c ∷ cs) e h =
    let (d, q) = h 0 (omega arith) in
    let z : c ≡ suc d = cc in
    let nonzero : (c == 0) ≡ false = ground (z, arith) in
    rw (nonzero, up_to_zero-take n cs e (λ i l. h (suc i) (omega arith))) refl

-- What is written is no zero byte.
write_digits-below :
    (digit x : ℕ) (text : List ℕ) (i : ℕ)
    → digit ≤ length text
    → i < digit
    → (c : ℕ) × (get_elem? (write_digits digit x text) i ≡ some (suc c))
unfolding write_digits
write_digits-below zero x text i l h = absurd (omega arith)
write_digits-below (suc digit) x text i l h =
    let text' : List ℕ = set text digit (48 + x % 10) in
    let k : length text' ≡ length text = length-set text digit _ in
    let c : (i < digit) ⊎ (i ≡ digit) = ground arith in
    elim c [
      | inl m ↦ write_digits-below digit (x / 10) text' i (omega arith) m
      | inr m ↦ (
        47 + x % 10,
        rw m (
            write_digits-above digit (x / 10) text' digit (omega arith)
            ∙ get_elem?-set_self text digit (48 + x % 10) (omega arith)
            ∙ ap some (omega arith)),
      )
    ]

-- In an array of 21 characters, whatever it held, the handler writes the number of a pool, a size_t, as a text of at
-- most 20 characters that a zero byte ends inside the array, and which is that number in decimal.
pub of_decimal-string_pool_id :
    (pool_id : ℕ) (text : List ℕ)
    → pool_id < 2 ^ 64
    → length text ≡ 21
    → (s : List ℕ) × (string_pool_id pool_id text ≡ some s)
      × (of_decimal 0 s ≡ pool_id)
      × (length s ≤ 20)
unfolding string_pool_id
of_decimal-string_pool_id pool_id text h l =
    let (digit, e, d, b) = digits-total pool_id h in
    let cleared : List ℕ = set text digit 0 in
    let k : length cleared ≡ length text = length-set text digit 0 in
    let written : List ℕ = write_digits digit pool_id cleared in
    let w : length written ≡ length cleared = write_digits-length digit pool_id cleared in
    let z : get_elem? written digit ≡ some 0 =
      write_digits-above digit pool_id cleared digit (omega arith)
      ∙ get_elem?-set_self text digit 0 (omega arith) in
    (
      take digit written,
      rw e (
          up_to_zero-take digit written z
            (λ i m. write_digits-below digit pool_id cleared i (omega arith) m)),
      of_decimal-write_digits digit pool_id cleared (omega arith) b,
      omega (arith, length-take digit written),
    )
